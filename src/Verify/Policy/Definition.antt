-- ===== src/Verify/Policy/Definition.antt =====
-- Which policies `PolicyDefinition::new` makes.
use Prim.Native.String.{String}
use cryptography.Prelude.{
  ℕ, ◌≡◌, refl, ap, ◌↔◌, Bool, true, false, not, ◌&&◌, Option, none, some, if◌then◌else◌,
}
use cryptography.Result.{ok, err}
use cryptography.X509.Oid.{Oid, eku_server_auth_oid, eku_client_auth_oid}
use cryptography.X509.Certificate.{Certificate}
use cryptography.X509.Extensions.{Extensions}
use cryptography.X509.Types.{DateTime}
use cryptography.Verify.Asn1.{Asn1}
use cryptography.Verify.Policy.Algorithms.{
  webpki_permitted_spki_algorithms, webpki_permitted_signature_algorithms,
}
use cryptography.Verify.Policy.Subjects.{Subject}
use cryptography.Verify.Policy.Validators.{
  ExtensionPolicy, basic_constraints, subject_alternative_name,
}
use cryptography.Verify.Policy.Webpki.{new_default_webpki_ca, new_default_webpki_ee, is_some}
use cryptography.Verify.Policy.{
  PolicyDefinition, is_present, unwrap_or, check_definition, server, client, new,
}

two_tests :
    {A : Type 0} (a b c : Bool) (s t : String) (p q : A)
    → ((if not a then err s else if b && not c then err t else ok p) ≡ ok q)
      ↔ ((p ≡ q) × (a ≡ true) × (b ≡ true → c ≡ true))
two_tests false b c s t p q = (λ h. cc, λ (e, f, g). cc f)
two_tests true true true s t p q = (λ h. (cc, refl, λ _. refl), λ (e, f, g). ap ok e)
two_tests true true false s t p q = (λ h. cc, λ (e, f, g). cc (g refl))
two_tests true false c s t p q = (λ h. (cc, refl, λ k. cc), λ (e, f, g). ap ok e)

module _ {E : Type 0} ⦃asn1 : Asn1 E⦄ where
  -- The policy with these settings, where an absent one stands for the default.
  abbrev policy_with :
      Option Subject
      → DateTime
      → Option ℕ
      → Oid
      → Option (ExtensionPolicy E)
      → Option (ExtensionPolicy E)
      → PolicyDefinition E
  policy_with subject time depth eku ca ee = record {
    base = record {
      max_chain_depth = unwrap_or 8 depth;
      subject = subject;
      validation_time = time;
      extended_key_usage = eku;
      minimum_rsa_modulus = 2048;
      permitted_public_key_algorithms = webpki_permitted_spki_algorithms;
      permitted_signature_algorithms = webpki_permitted_signature_algorithms;
    };
    ca_extension_policy = unwrap_or new_default_webpki_ca ca;
    ee_extension_policy = unwrap_or new_default_webpki_ee ee;
  }

  -- A policy is made if and only if the CA extension policy requires basicConstraints and, when a
  -- subject is given, the extension policy for end entities requires subjectAltName; it is then the
  -- policy with the given settings and the defaults for those that are absent.
  new_policy_iff :
      (subject : Option Subject) (time : DateTime) (depth : Option ℕ) (eku : Oid)
      (ca ee : Option (ExtensionPolicy E)) (p : PolicyDefinition E)
      → (new subject time depth eku ca ee ≡ ok p) ↔ (
          (policy_with subject time depth eku ca ee ≡ p)
          × (is_present (unwrap_or new_default_webpki_ca ca).basic_constraints ≡ true)
          × (is_some subject ≡ true
              → is_present (unwrap_or new_default_webpki_ee ee).subject_alternative_name ≡ true))
  unfolding new check_definition
  new_policy_iff subject time depth eku ca ee p =
      two_tests (is_present (unwrap_or new_default_webpki_ca ca).basic_constraints)
        (is_some subject) (is_present (unwrap_or new_default_webpki_ee ee).subject_alternative_name)
        _ _ (policy_with subject time depth eku ca ee) p

  -- With the default extension policies a server policy is always made, and so is a client policy.
  default-policies :
      (subject : Subject) (time : DateTime) (depth : Option ℕ)
      → (server subject time depth none none
          ≡ ok (policy_with (some subject) time depth eku_server_auth_oid none none))
        × (client time depth none none
            ≡ ok (policy_with none time depth eku_client_auth_oid none none))
  unfolding server client new_default_webpki_ca new_default_webpki_ee
  default-policies subject time depth = (
    (new_policy_iff (some subject) time depth eku_server_auth_oid none none _).1
        (refl, refl, λ _. refl),
    (new_policy_iff none time depth eku_client_auth_oid none none _).1 (refl, refl, λ h. cc),
  )
