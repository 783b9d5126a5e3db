-- ===== src/Verify/Policy/Webpki/Demands.antt =====
-- What the validators of an extension policy see, and what the default policies demand.
use mathlib.Core.Option.{some-injective}
use cryptography.Prelude.{
  ℕ, ◌≡◌, ◌≢◌, refl, sym, ap, ◌∙◌, ◌↔◌, ◌⊎◌, inl, inr, Bool, true, false, not, ◌||◌, Option, none,
  some, List, [], ◌∷◌, arith, if◌then◌else◌, Bool-cases, Option-cases,
}
use cryptography.Result.{ok, map_err-eq-ok, >>=-eq-ok}
use cryptography.X509.Oid.{Oid, key_usage_oid, basic_constraints_oid}
use cryptography.X509.Types.{BitString}
use cryptography.X509.Certificate.{Certificate, Extension}
use cryptography.X509.Extensions.{Extensions, iter, oid_eq, find_extension, get_extension}
use cryptography.X509.Extensions.Unique.{oid_eq_iff}
use cryptography.Verify.Asn1.{Asn1}
use cryptography.Verify.Errors.{fail, extension_error, of_parse_error}
use cryptography.Verify.Policy.Base.{PolicyBase}
use cryptography.Verify.Policy.Checks.{refuse_if_iff, not_iff}
use cryptography.Verify.Policy.Validators.{
  ExtensionPolicy, validator_permits, criticality_permits, Known, known, oid_of, validator, permits,
  authority_information_access, authority_key_identifier, subject_key_identifier, key_usage,
  subject_alternative_name, basic_constraints, name_constraints, extended_key_usage,
}
use cryptography.Verify.Policy.Validators.Permits.{
  AcceptsAll, AcceptsAs, flag, occurs, permits_iff, same_known_iff,
}
use cryptography.Verify.Policy.Webpki.{new_default_webpki_ca, ca_key_usage, key_cert_sign}

-- The match finds the extension whose identifier it is given.
known-oid_of : (x : Known) → known (oid_of x) ≡ some x
unfolding known oid_of oid_eq mathlib.Core.Bool.decide cryptography.Prelude.ℕ_discrete
known-oid_of authority_information_access = refl
known-oid_of authority_key_identifier = refl
known-oid_of subject_key_identifier = refl
known-oid_of key_usage = refl
known-oid_of subject_alternative_name = refl
known-oid_of basic_constraints = refl
known-oid_of name_constraints = refl
known-oid_of extended_key_usage = refl

pick :
    (oid o : Oid) (y x : Known) (rest : Option Known)
    → oid_of y ≡ o
    → (rest ≡ some x → oid ≡ oid_of x)
    → (if oid_eq oid o then some y else rest) ≡ some x
    → oid ≡ oid_of x
pick oid o y x rest e next h = elim (Bool-cases (oid_eq oid o)) [
  | inl p ↦
      let q : y ≡ x = some-injective _ _ (rw p at h) in
      (oid_eq_iff oid o).0 p ∙ (sym e ∙ ap oid_of q)
  | inr p ↦ next (rw p at h)
]

-- Only that identifier is found.
known_only : (oid : Oid) (x : Known) → known oid ≡ some x → oid ≡ oid_of x
unfolding known oid_of
known_only oid x h =
    pick oid _ authority_information_access x _ refl
      (pick oid _ authority_key_identifier x _ refl (
        pick oid _ subject_key_identifier x _ refl (
          pick oid _ key_usage x _ refl (
            pick oid _ subject_alternative_name x _ refl (
              pick oid _ basic_constraints x _ refl (
                pick oid _ name_constraints x _ refl
                  (pick oid _ extended_key_usage x none refl (λ e. cc))))))))
      h

flag_iff : (x : Known) (k : Option Known) → (flag x k ≡ true) ↔ (k ≡ some x)
flag_iff x none = (λ h. cc, λ h. cc)
flag_iff x (some y) =
    (λ h. ap some ((same_known_iff y x).0 h), λ h. (same_known_iff y x).1 (some-injective _ _ h))

known_iff : (x : Known) (oid : Oid) → (known oid ≡ some x) ↔ (oid_eq oid (oid_of x) ≡ true)
known_iff x oid = (
  λ h. (oid_eq_iff oid (oid_of x)).1 (known_only oid x h),
  λ h. ap known ((oid_eq_iff oid (oid_of x)).0 h) ∙ known-oid_of x,
)

same_tests : (a b : Bool) → (a ≡ true → b ≡ true) → (b ≡ true → a ≡ true) → a ≡ b
same_tests true b f g = sym (f refl)
same_tests false true f g = g refl
same_tests false false f g = refl

flag-oid : (x : Known) (oid : Oid) → flag x (known oid) ≡ oid_eq oid (oid_of x)
flag-oid x oid =
    same_tests (flag x (known oid)) (oid_eq oid (oid_of x))
      (λ h. (known_iff x oid).0 ((flag_iff x (known oid)).0 h))
      (λ h. (flag_iff x (known oid)).1 ((known_iff x oid).1 h))

module _ {E : Type 0} (self : ExtensionPolicy E) (policy : PolicyBase) (cert : Certificate) where
  accepted_as :
      (x : Known) (k : Option Known) (ext : Extension)
      → k ≡ some x
      → AcceptsAs self policy cert k ext
      → validator_permits (validator self x) policy cert (some ext) ≡ ok tt
  accepted_as x k ext e one = rw e at one

  found_accepted :
      (x : Known) (exts : List Extension) (ext : Extension)
      → AcceptsAll self policy cert exts
      → find_extension (oid_of x) exts ≡ some ext
      → validator_permits (validator self x) policy cert (some ext) ≡ ok tt
  unfolding find_extension
  found_accepted x [] ext all h = cc
  found_accepted x (e ∷ exts) ext (one, all) h = elim (Bool-cases (oid_eq e.extn_id (oid_of x))) [
    | inl p ↦
        let same : e ≡ ext = some-injective _ _ (rw p at h) in
        rw⁻¹ same (accepted_as x (known e.extn_id) e ((known_iff x e.extn_id).1 p) one)
    | inr p ↦ found_accepted x exts ext all (rw p at h)
  ]

  none-occurs :
      (x : Known) (exts : List Extension)
      → find_extension (oid_of x) exts ≡ none
      → occurs x exts ≡ false
  unfolding find_extension
  none-occurs x [] h = refl
  none-occurs x (e ∷ exts) h = elim (Bool-cases (oid_eq e.extn_id (oid_of x))) [
    | inl p ↦ cc (rw p at h)
    | inr p ↦ rw (flag-oid x e.extn_id, p) (none-occurs x exts (rw p at h))
  ]

  by_lookup :
      (x : Known) (exts : Extensions) (o : Option Extension)
      → permits self policy cert exts ≡ ok tt
      → find_extension (oid_of x) (iter exts) ≡ o
      → validator_permits (validator self x) policy cert o ≡ ok tt
  by_lookup x exts none h e =
      ((permits_iff self policy cert exts).0 h).1 x (none-occurs x (iter exts) e)
  by_lookup x exts (some ext) h e =
      found_accepted x (iter exts) ext ((permits_iff self policy cert exts).0 h).0 e

  -- If an extension policy accepts the extensions of a certificate, then the validator of each
  -- extension that it knows accepts what a lookup of that extension returns, presence or absence.
  pub permits-get_extension :
      (x : Known) (exts : Extensions)
      → permits self policy cert exts ≡ ok tt
      → validator_permits (validator self x) policy cert (get_extension exts (oid_of x)) ≡ ok tt
  unfolding get_extension
  permits-get_extension x exts h = by_lookup x exts (find_extension (oid_of x) (iter exts)) h refl

module _ {E : Type 0} ⦃asn1 : Asn1 E⦄ where
  usage_demanded :
      (policy : PolicyBase) (cert : Certificate) (o : Option Extension)
      → validator_permits (validator (new_default_webpki_ca {E = E}) key_usage) policy cert o
        ≡ ok tt
      → (ext : Extension) × (usage : BitString) × (o ≡ some ext)
        × (asn1.key_usage ext.extn_value ≡ ok usage)
        × (asn1.has_bit_set usage key_cert_sign ≡ true)
  unfolding validator_permits criticality_permits new_default_webpki_ca ca_key_usage
  usage_demanded policy cert none h = cc
  usage_demanded policy cert (some ext) h =
      let (usage, parsed, k) = >>=-eq-ok (of_parse_error (asn1.key_usage ext.extn_value)) _ h in
      (
        ext,
        usage,
        refl,
        map_err-eq-ok _ (asn1.key_usage ext.extn_value) parsed,
        (not_iff _).0 ((refuse_if_iff _ _).0 k),
      )

  constraints_demanded :
      (policy : PolicyBase) (cert : Certificate) (o : Option Extension)
      → validator_permits
          (validator (new_default_webpki_ca {E = E}) basic_constraints)
          policy
          cert
          o
        ≡ ok tt
      → (ext : Extension) × (o ≡ some ext) × (ext.critical ≡ true)
  unfolding validator_permits criticality_permits new_default_webpki_ca
  constraints_demanded policy cert none h = cc
  constraints_demanded policy cert (some ext) h = (ext, refl, critical_only ext.critical h)
    where
      critical_only :
          (b : Bool)
          → (if not b
              then fail {E = E} {A = Unit {0}}
                  (extension_error ext.extn_id "Certificate extension has incorrect criticality")
              else ok tt)
            ≡ ok tt
          → b ≡ true
      critical_only true h = refl
      critical_only false h = cc

  -- A certificate that the default CA policy accepts has a keyUsage extension that parses and asserts
  -- keyCertSign, and a basicConstraints extension that is critical.
  pub webpki_ca_demands :
      (policy : PolicyBase) (cert : Certificate) (exts : Extensions)
      → permits {E = E} new_default_webpki_ca policy cert exts ≡ ok tt
      → ((ext : Extension) × (usage : BitString) × (get_extension exts key_usage_oid ≡ some ext)
          × (asn1.key_usage ext.extn_value ≡ ok usage)
          × (asn1.has_bit_set usage key_cert_sign ≡ true))
        × ((ext : Extension) × (get_extension exts basic_constraints_oid ≡ some ext)
            × (ext.critical ≡ true))
  unfolding oid_of
  webpki_ca_demands policy cert exts h = (
    usage_demanded policy cert (get_extension exts key_usage_oid)
        (permits-get_extension new_default_webpki_ca policy cert key_usage exts h),
    constraints_demanded policy cert (get_extension exts basic_constraints_oid)
        (permits-get_extension new_default_webpki_ca policy cert basic_constraints exts h),
  )
