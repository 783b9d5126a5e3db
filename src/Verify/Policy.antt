-- ===== src/Verify/Policy.antt =====
-- src/rust/cryptography-x509-verification/src/policy/mod.rs: PolicyDefinition and Policy. The
-- field `extra` of Policy, which only callbacks from outside read, is not modelled.
pub mod Algorithms
pub mod Subjects
pub mod Base
pub mod Validators
pub mod Webpki
pub mod Checks
pub mod Issuer
pub mod Leaf
pub mod Definition
use Prim.Native.String.{String}
use cryptography.Prelude.{
  ℕ, ◌*◌, Bool, true, false, not, ◌&&◌, ◌||◌, Option, none, some, List, [], ◌∷◌, if◌then◌else◌,
  is_empty, ltb, leb, ◌==◌, length,
}
use cryptography.Str.{Str}
use cryptography.Result.{Result, ok, err, map_err, ◌>>=◌, ◌>>◌}
use cryptography.Names.Ia5.{Ia5}
use cryptography.X509.Oid.{
  Oid, eku_client_auth_oid, eku_server_auth_oid, basic_constraints_oid,
  subject_alternative_name_oid,
}
use cryptography.X509.Types.{
  AlgorithmIdentifier, BasicConstraints, SubjectPublicKeyInfo, DateTime, GeneralName, Time,
  utc_time, generalized_time, as_datetime,
}
use cryptography.X509.Certificate.{Certificate, Extension, AlgorithmIdentifier-discrete}
use cryptography.X509.Extensions.{Extensions, get_extension}
use cryptography.Verify.Asn1.{Asn1}
use cryptography.Verify.Errors.{
  ValidationResult, shows_algorithm, text, other, extension_error, fail, of_parse_error, set_cert,
}
use Algorithms.{
  is_permitted, is_rsa, webpki_permitted_spki_algorithms, webpki_permitted_signature_algorithms,
}
use Subjects.{Subject, matches}
use Base.{CryptoOps, PolicyBase}
use Validators.{ExtensionPolicy, ExtensionValidator, not_present, present, maybe_present, permits}
use Webpki.{new_default_webpki_ca, new_default_webpki_ee, refuse_if, is_some}
use mathlib.Core.Bool.{decide}

abbrev pub webpki_minimum_rsa_modulus : ℕ
webpki_minimum_rsa_modulus = 2048

abbrev pub default_max_chain_depth : ℕ
default_max_chain_depth = 8

pub record PolicyDefinition (E : Type 0) : Type 0 where
  pub base : PolicyBase
  pub ca_extension_policy : ExtensionPolicy E
  pub ee_extension_policy : ExtensionPolicy E

module _ {E : Type 0} where
  -- matches!(validator, ExtensionValidator::Present { .. })
  abbrev pub is_present : ExtensionValidator E → Bool
  is_present (present oid criticality validator) = true
  is_present (not_present oid) = false
  is_present (maybe_present oid criticality validator) = false

abbrev pub unwrap_or {ℓ} : {A : Type ℓ} → A → Option A → A
unwrap_or a none = a
unwrap_or a (some x) = x

module _ {E : Type 0} where
  -- The two checks of `PolicyDefinition::new`.
  unfoldable pub check_definition : PolicyDefinition E → Result String (PolicyDefinition E)
  check_definition retval =
      if not (is_present retval.ca_extension_policy.basic_constraints)
      then err "A CA extension policy must require the basicConstraints extension to be present."
      else if is_some retval.base.subject
          && not (is_present retval.ee_extension_policy.subject_alternative_name)
      then err
          "An EE extension policy used for server verification must require the subjectAltName extension to be present."
      else ok retval

module _ {E : Type 0} ⦃asn1 : Asn1 E⦄ where
  unfoldable pub new :
      Option Subject
      → DateTime
      → Option ℕ
      → Oid
      → Option (ExtensionPolicy E)
      → Option (ExtensionPolicy E)
      → Result String (PolicyDefinition E)
  unfolding check_definition
  new subject time max_chain_depth extended_key_usage ca_extension_policy ee_extension_policy =
      check_definition (record {
        base = record {
          max_chain_depth = unwrap_or default_max_chain_depth max_chain_depth;
          subject = subject;
          validation_time = time;
          extended_key_usage = extended_key_usage;
          minimum_rsa_modulus = webpki_minimum_rsa_modulus;
          permitted_public_key_algorithms = webpki_permitted_spki_algorithms;
          permitted_signature_algorithms = webpki_permitted_signature_algorithms;
        };
        ca_extension_policy = unwrap_or new_default_webpki_ca ca_extension_policy;
        ee_extension_policy = unwrap_or new_default_webpki_ee ee_extension_policy;
      })

  unfoldable pub client :
      DateTime
      → Option ℕ
      → Option (ExtensionPolicy E)
      → Option (ExtensionPolicy E)
      → Result String (PolicyDefinition E)
  unfolding new
  client time max_chain_depth ca_extension_policy ee_extension_policy =
      new none time max_chain_depth eku_client_auth_oid ca_extension_policy ee_extension_policy

  unfoldable pub server :
      Subject
      → DateTime
      → Option ℕ
      → Option (ExtensionPolicy E)
      → Option (ExtensionPolicy E)
      → Result String (PolicyDefinition E)
  unfolding new
  server subject time max_chain_depth ca_extension_policy ee_extension_policy =
      new (some subject) time max_chain_depth eku_server_auth_oid ca_extension_policy
        ee_extension_policy

module _ {E : Type 0} where
  unfoldable pub permits_validity_date : Time → ValidationResult E (Unit {0})
  unfolding refuse_if
  permits_validity_date (utc_time t) = ok tt
  permits_validity_date (generalized_time t) =
      refuse_if (leb 1950 t.year && ltb t.year 2050)
        "validity dates between 1950 and 2049 must be UtcTime"

  unfoldable pub permits_subject_alternative_name :
      ⦃ia5 : Ia5⦄ → Subject → Option (List GeneralName) → ValidationResult E (Unit {0})
  unfolding refuse_if
  permits_subject_alternative_name subject none =
      fail
        (other (text "missing required extension: leaf server certificate has no subjectAltName"))
  permits_subject_alternative_name subject (some san) =
      refuse_if (not (matches subject san)) "leaf certificate has no matching subjectAltName"

-- path_length.map_or(false, |len| u64::from(current_depth) > len)
abbrev pub exceeds : ℕ → Option ℕ → Bool
exceeds current_depth none = false
exceeds current_depth (some len) = ltb len current_depth

module _ {E : Type 0} ⦃asn1 : Asn1 E⦄ where
  -- The test on the serial number, whose two ranges are tried in turn.
  unfoldable pub permits_serial : Str → ValidationResult E (Unit {0})
  unfolding refuse_if
  permits_serial serial = do
    refuse_if (not (leb 1 (length serial) && leb (length serial) 21))
        "certificate must have a serial between 1 and 20 octets"
    refuse_if (asn1.is_negative serial) "certificate serial number cannot be negative"

  unfoldable pub permits_basic : PolicyBase → Certificate → ValidationResult E (Unit {0})
  unfolding refuse_if permits_serial permits_validity_date
  permits_basic self cert = do
    refuse_if (not (cert.tbs_cert.version == 2)) "certificate must be an X509v3 certificate"
    refuse_if
        (not (decide (AlgorithmIdentifier-discrete cert.signature_alg cert.tbs_cert.signature_alg)))
        "mismatch between signatureAlgorithm and SPKI algorithm"
    permits_serial cert.tbs_cert.serial
    refuse_if (is_empty cert.tbs_cert.issuer) "certificate must have a non-empty Issuer"
    permits_validity_date cert.tbs_cert.validity.not_before
    permits_validity_date cert.tbs_cert.validity.not_after
    refuse_if
        (asn1.datetime_lt self.validation_time (as_datetime cert.tbs_cert.validity.not_before)
          || asn1.datetime_lt (as_datetime cert.tbs_cert.validity.not_after) self.validation_time)
        "cert is not valid at validation time"

  unfoldable pub permits_basic_constraints : ℕ → Option Extension → ValidationResult E (Unit {0})
  unfolding refuse_if
  permits_basic_constraints current_depth (some ext) = do
    bc ← of_parse_error (asn1.basic_constraints ext.extn_value)
    refuse_if (exceeds current_depth bc.path_length) "path length constraint violated"
    refuse_if (not bc.ca) "basicConstraints.cA must be asserted in a CA certificate"
  permits_basic_constraints current_depth none = fail (
      extension_error basic_constraints_oid
        "missing required extension: CA certificate has no basicConstraints")

  unfoldable pub permits_ca :
      PolicyDefinition E → Certificate → ℕ → Extensions → ValidationResult E (Unit {0})
  permits_ca self cert current_depth extensions = do
    permits_basic self.base cert
    permits_basic_constraints current_depth (get_extension extensions basic_constraints_oid)
    permits self.ca_extension_policy self.base cert extensions

  abbrev pub parse_san : Option Extension → ValidationResult E (Option (List GeneralName))
  parse_san none = ok none
  parse_san (some ext) = do
    san ← of_parse_error (asn1.subject_alternative_name ext.extn_value)
    ok (some san)

module _ {E : Type 0} ⦃ia5 : Ia5⦄ ⦃asn1 : Asn1 E⦄ where
  -- `if let Some(ref subject) = self.subject`
  unfoldable pub permits_subject : Option Subject → Extensions → ValidationResult E (Unit {0})
  permits_subject none extensions = ok tt
  permits_subject (some subject) extensions = do
    san ← parse_san (get_extension extensions subject_alternative_name_oid)
    permits_subject_alternative_name subject san

  unfoldable pub permits_ee :
      PolicyDefinition E → Certificate → Extensions → ValidationResult E (Unit {0})
  permits_ee self cert extensions = do
    permits_basic self.base cert
    permits_subject self.base.subject extensions
    permits self.ee_extension_policy self.base cert extensions

module _ {E : Type 0} where
  -- `if !algorithms.contains(algorithm) { return Err(Other(format!(message, algorithm))); }`
  unfoldable pub permitted_or :
      String → List AlgorithmIdentifier → AlgorithmIdentifier → ValidationResult E (Unit {0})
  permitted_or message algorithms algorithm =
      if not (is_permitted algorithms algorithm)
      then fail (other (shows_algorithm message algorithm))
      else ok tt

  -- `public_key(&self.ops).map_err(..)?`; the cell that caches the key is not modelled.
  abbrev pub issuer_key : {K : Type 0} → Option K → ValidationResult E K
  issuer_key none = fail (other (text "issuer has malformed public key"))
  issuer_key (some pk) = ok pk

module _ {E : Type 0} ⦃asn1 : Asn1 E⦄ where
  -- The modulus of an RSA key is long enough; other keys are not measured.
  unfoldable pub permits_key_size : ℕ → SubjectPublicKeyInfo → ValidationResult E (Unit {0})
  unfolding refuse_if
  permits_key_size minimum_rsa_modulus issuer_spki = elim (is_rsa issuer_spki.algorithm) [
    | true ↦ do
      n ← of_parse_error (asn1.rsa_modulus issuer_spki.subject_public_key.content)
      refuse_if (ltb (length n * 8) minimum_rsa_modulus) "RSA key is too weak"
    | false ↦ ok tt
  ]

module _ {E : Type 0} ⦃asn1 : Asn1 E⦄ {K : Type 0} (ops : CryptoOps K) where
  unfoldable pub valid_issuer :
      PolicyDefinition E
      → Certificate
      → Certificate
      → ℕ
      → Extensions
      → ValidationResult E (Unit {0})
  unfolding refuse_if
  valid_issuer self issuer child current_depth issuer_extensions = do
    map_err (set_cert issuer) (permits_ca self issuer current_depth issuer_extensions)
    permitted_or "Forbidden public key algorithm: {:?}" self.base.permitted_public_key_algorithms
        issuer.tbs_cert.spki.algorithm
    permitted_or "Forbidden signature algorithm: {:?}" self.base.permitted_signature_algorithms
        child.signature_alg
    pk ← issuer_key (ops.public_key issuer)
    permits_key_size self.base.minimum_rsa_modulus issuer.tbs_cert.spki
    refuse_if (not (ops.verify_signed_by child pk)) "signature does not match"
