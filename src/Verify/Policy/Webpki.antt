-- ===== src/Verify/Policy/Webpki.antt =====
-- src/rust/cryptography-x509-verification/src/policy/extension.rs: the default extension policies,
-- and the callbacks of its modules ee, ca and common.
pub mod Demands
use Prim.Native.String.{String}
use cryptography.Prelude.{
  ℕ, Bool, true, false, not, ◌&&◌, ◌||◌, Option, none, some, List, [], ◌∷◌, if◌then◌else◌, is_empty,
  any,
}
use cryptography.Str.{Str}
use cryptography.Result.{Result, ok, err, ◌>>=◌, ◌>>◌}
use cryptography.X509.Oid.{
  Oid, authority_information_access_oid, authority_key_identifier_oid, basic_constraints_oid,
  extended_key_usage_oid, key_usage_oid, name_constraints_oid, subject_alternative_name_oid,
  subject_key_identifier_oid, eku_any_key_usage_oid,
}
use cryptography.X509.Types.{
  BasicConstraints, NameConstraints, AuthorityKeyIdentifier, BitString, GeneralSubtree,
}
use cryptography.X509.Certificate.{Certificate, Extension}
use cryptography.X509.Extensions.{oid_eq}
use cryptography.Verify.Asn1.{Asn1}
use cryptography.Verify.Errors.{ValidationResult, text, other, fail, of_parse_error}
use cryptography.Verify.Policy.Base.{PolicyBase}
use cryptography.Verify.Policy.Validators.{
  ExtensionPolicy, ExtensionValidator, not_present, present, maybe_present, critical, agnostic,
  non_critical, PresentCallback, MaybeCallback,
}

-- KeyUsage::key_cert_sign asks for this bit.
abbrev pub key_cert_sign : ℕ
key_cert_sign = 5

abbrev pub is_some {ℓ} : {A : Type ℓ} → Option A → Bool
is_some none = false
is_some (some a) = true

-- as_ref().map_or(true, |trees| trees.is_empty())
abbrev pub no_trees : Option (List GeneralSubtree) → Bool
no_trees none = true
no_trees (some trees) = is_empty trees

module _ {E : Type 0} where
  -- `if bad { return Err(Other(message)); }`
  unfoldable pub refuse_if : Bool → String → ValidationResult E (Unit {0})
  refuse_if bad message = if bad then fail (other (text message)) else ok tt

  -- `if let Some(extn) = extn { .. } Ok(())`
  abbrev pub if_some :
      (PolicyBase → Certificate → Extension → ValidationResult E (Unit {0})) → MaybeCallback E
  if_some check policy cert none = ok tt
  if_some check policy cert (some extn) = check policy cert extn

module _ {E : Type 0} ⦃asn1 : Asn1 E⦄ where
  -- ee::basic_constraints
  unfoldable pub ee_basic_constraints : MaybeCallback E
  unfolding refuse_if
  ee_basic_constraints = if_some λ policy cert extn. do
    basic_constraints ← of_parse_error (asn1.basic_constraints extn.extn_value)
    refuse_if basic_constraints.ca "basicConstraints.cA must not be asserted in an EE certificate"

  -- ee::subject_alternative_name
  unfoldable pub ee_subject_alternative_name : PresentCallback E
  unfolding refuse_if
  ee_subject_alternative_name policy cert extn = do
    refuse_if (is_empty cert.tbs_cert.subject && not extn.critical)
        "EE subjectAltName MUST be critical when subject is empty"
    refuse_if (not (is_empty cert.tbs_cert.subject) && extn.critical)
        "EE subjectAltName MUST NOT be critical when subject is nonempty"

  -- ee::extended_key_usage
  unfoldable pub ee_extended_key_usage : MaybeCallback E
  unfolding refuse_if
  ee_extended_key_usage = if_some λ policy cert extn. do
    ekus ← of_parse_error (asn1.extended_key_usage extn.extn_value)
    refuse_if (not (any (λ eku. oid_eq eku policy.extended_key_usage) ekus))
        "required EKU not found"

  -- ee::key_usage
  unfoldable pub ee_key_usage : MaybeCallback E
  unfolding refuse_if
  ee_key_usage = if_some λ policy cert extn. do
    key_usage ← of_parse_error (asn1.key_usage extn.extn_value)
    refuse_if (asn1.has_bit_set key_usage key_cert_sign) "EE keyUsage must not assert keyCertSign"

  -- ca::authority_key_identifier
  unfoldable pub ca_authority_key_identifier : MaybeCallback E
  unfolding refuse_if
  ca_authority_key_identifier = if_some λ policy cert extn. do
    aki ← of_parse_error (asn1.authority_key_identifier extn.extn_value)
    refuse_if (not (is_some aki.key_identifier)) "authorityKeyIdentifier must contain keyIdentifier"

  -- ca::key_usage
  unfoldable pub ca_key_usage : PresentCallback E
  unfolding refuse_if
  ca_key_usage policy cert extn = do
    key_usage ← of_parse_error (asn1.key_usage extn.extn_value)
    refuse_if (not (asn1.has_bit_set key_usage key_cert_sign))
        "keyUsage.keyCertSign must be asserted in a CA certificate"

  -- ca::name_constraints
  unfoldable pub ca_name_constraints : MaybeCallback E
  unfolding refuse_if
  ca_name_constraints = if_some λ policy cert extn. do
    constraints ← of_parse_error (asn1.name_constraints extn.extn_value)
    refuse_if (no_trees constraints.permitted_subtrees && no_trees constraints.excluded_subtrees)
        "nameConstraints must have non-empty permittedSubtrees or excludedSubtrees"

  -- ca::extended_key_usage
  unfoldable pub ca_extended_key_usage : MaybeCallback E
  unfolding refuse_if
  ca_extended_key_usage = if_some λ policy cert extn. do
    ekus ← of_parse_error (asn1.extended_key_usage extn.extn_value)
    refuse_if
        (not (
          any (λ eku. oid_eq eku policy.extended_key_usage || oid_eq eku eku_any_key_usage_oid)
            ekus))
        "required EKU not found"

  -- common::authority_information_access
  unfoldable pub common_authority_information_access : MaybeCallback E
  common_authority_information_access = if_some λ policy cert extn. do
    descriptions ← of_parse_error (asn1.access_descriptions extn.extn_value)
    ok tt

  unfoldable pub new_default_webpki_ca : ExtensionPolicy E
  new_default_webpki_ca = record {
    authority_information_access =
        maybe_present authority_information_access_oid non_critical
          (some common_authority_information_access);
    authority_key_identifier =
        maybe_present authority_key_identifier_oid non_critical (some ca_authority_key_identifier);
    subject_key_identifier = maybe_present subject_key_identifier_oid non_critical none;
    key_usage = present key_usage_oid agnostic (some ca_key_usage);
    subject_alternative_name = maybe_present subject_alternative_name_oid agnostic none;
    basic_constraints = present basic_constraints_oid critical none;
    name_constraints = maybe_present name_constraints_oid agnostic (some ca_name_constraints);
    extended_key_usage =
        maybe_present extended_key_usage_oid non_critical (some ca_extended_key_usage);
  }

  unfoldable pub new_default_webpki_ee : ExtensionPolicy E
  new_default_webpki_ee = record {
    authority_information_access =
        maybe_present authority_information_access_oid non_critical
          (some common_authority_information_access);
    authority_key_identifier = present authority_key_identifier_oid non_critical none;
    subject_key_identifier = maybe_present subject_key_identifier_oid agnostic none;
    key_usage = maybe_present key_usage_oid agnostic (some ee_key_usage);
    subject_alternative_name =
        present subject_alternative_name_oid agnostic (some ee_subject_alternative_name);
    basic_constraints = maybe_present basic_constraints_oid agnostic (some ee_basic_constraints);
    name_constraints = not_present name_constraints_oid;
    extended_key_usage =
        maybe_present extended_key_usage_oid non_critical (some ee_extended_key_usage);
  }

module _ {E : Type 0} where
  abbrev pub make_permissive_validator : Oid → ExtensionValidator E
  make_permissive_validator oid = maybe_present oid agnostic none

  unfoldable pub new_permit_all : ExtensionPolicy E
  new_permit_all = record {
    authority_information_access = make_permissive_validator authority_information_access_oid;
    authority_key_identifier = make_permissive_validator authority_key_identifier_oid;
    subject_key_identifier = make_permissive_validator subject_key_identifier_oid;
    key_usage = make_permissive_validator key_usage_oid;
    subject_alternative_name = make_permissive_validator subject_alternative_name_oid;
    basic_constraints = make_permissive_validator basic_constraints_oid;
    name_constraints = make_permissive_validator name_constraints_oid;
    extended_key_usage = make_permissive_validator extended_key_usage_oid;
  }
