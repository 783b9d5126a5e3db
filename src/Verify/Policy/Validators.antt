-- ===== src/Verify/Policy/Validators.antt =====
-- src/rust/cryptography-x509-verification/src/policy/extension.rs: extension validators, and the
-- loop that runs them over the extensions of a certificate.
pub mod Permits
use Prim.Native.String.{String}
use cryptography.Prelude.{
  Bool, true, false, not, ◌||◌, Option, none, some, List, [], ◌∷◌, if◌then◌else◌,
}
use cryptography.Result.{Result, ok, err, ◌>>=◌, ◌>>◌}
use cryptography.X509.Oid.{
  Oid, authority_information_access_oid, authority_key_identifier_oid, basic_constraints_oid,
  extended_key_usage_oid, key_usage_oid, name_constraints_oid, subject_alternative_name_oid,
  subject_key_identifier_oid,
}
use cryptography.X509.Certificate.{Certificate, Extension}
use cryptography.X509.Extensions.{Extensions, iter, oid_eq}
use cryptography.Verify.Errors.{ValidationResult, extension_error, fail}
use cryptography.Verify.Policy.Base.{PolicyBase}

pub data Criticality : Type 0 where
  critical agnostic non_critical : Criticality

unfoldable pub criticality_permits : Criticality → Bool → Bool
criticality_permits critical b = b
criticality_permits agnostic b = true
criticality_permits non_critical b = not b

abbrev pub PresentCallback : Type 0 → Type 0
PresentCallback E = PolicyBase → Certificate → Extension → ValidationResult E (Unit {0})

abbrev pub MaybeCallback : Type 0 → Type 0
MaybeCallback E = PolicyBase → Certificate → Option Extension → ValidationResult E (Unit {0})

pub data ExtensionValidator (E : Type 0) : Type 0 where
  not_present : Oid → ExtensionValidator E
  present : Oid → Criticality → Option (PresentCallback E) → ExtensionValidator E
  maybe_present : Oid → Criticality → Option (MaybeCallback E) → ExtensionValidator E

pub record ExtensionPolicy (E : Type 0) : Type 0 where
  pub authority_information_access : ExtensionValidator E
  pub authority_key_identifier : ExtensionValidator E
  pub subject_key_identifier : ExtensionValidator E
  pub key_usage : ExtensionValidator E
  pub subject_alternative_name : ExtensionValidator E
  pub basic_constraints : ExtensionValidator E
  pub name_constraints : ExtensionValidator E
  pub extended_key_usage : ExtensionValidator E

module _ {E : Type 0} where
  -- validator.as_ref().map_or(Ok(()), |v| v(policy, cert, extn))
  abbrev pub run_present :
      Option (PresentCallback E)
      → PolicyBase
      → Certificate
      → Extension
      → ValidationResult E (Unit {0})
  run_present none policy cert extn = ok tt
  run_present (some v) policy cert extn = v policy cert extn

  abbrev pub run_maybe :
      Option (MaybeCallback E)
      → PolicyBase
      → Certificate
      → Option Extension
      → ValidationResult E (Unit {0})
  run_maybe none policy cert extn = ok tt
  run_maybe (some v) policy cert extn = v policy cert extn

  unfoldable pub validator_permits :
      ExtensionValidator E
      → PolicyBase
      → Certificate
      → Option Extension
      → ValidationResult E (Unit {0})
  unfolding criticality_permits
  validator_permits (not_present oid) policy cert none = ok tt
  validator_permits (not_present oid) policy cert (some extn) =
      fail (extension_error extn.extn_id "Certificate contains prohibited extension")
  validator_permits (present oid criticality validator) policy cert none =
      fail (extension_error oid "Certificate is missing required extension")
  validator_permits (present oid criticality validator) policy cert (some extn) =
      if not (criticality_permits criticality extn.critical)
      then fail (extension_error extn.extn_id "Certificate extension has incorrect criticality")
      else run_present validator policy cert extn
  validator_permits (maybe_present oid criticality validator) policy cert none =
      run_maybe validator policy cert none
  validator_permits (maybe_present oid criticality validator) policy cert (some extn) =
      if not (criticality_permits criticality extn.critical)
      then fail (extension_error extn.extn_id "Certificate extension has incorrect criticality")
      else run_maybe validator policy cert (some extn)

-- The eight extensions that a policy knows. The eight `_seen` variables are a function of them.
pub data Known : Type 0 where
  authority_information_access authority_key_identifier subject_key_identifier key_usage : Known
  subject_alternative_name basic_constraints name_constraints extended_key_usage : Known

unfoldable pub oid_of : Known → Oid
oid_of authority_information_access = authority_information_access_oid
oid_of authority_key_identifier = authority_key_identifier_oid
oid_of subject_key_identifier = subject_key_identifier_oid
oid_of key_usage = key_usage_oid
oid_of subject_alternative_name = subject_alternative_name_oid
oid_of basic_constraints = basic_constraints_oid
oid_of name_constraints = name_constraints_oid
oid_of extended_key_usage = extended_key_usage_oid

-- The arms of the match on the identifier, in their order.
unfoldable pub known : Oid → Option Known
unfolding oid_eq
known oid =
    if oid_eq oid authority_information_access_oid
    then some authority_information_access
    else if oid_eq oid authority_key_identifier_oid
    then some authority_key_identifier
    else if oid_eq oid subject_key_identifier_oid
    then some subject_key_identifier
    else if oid_eq oid key_usage_oid
    then some key_usage
    else if oid_eq oid subject_alternative_name_oid
    then some subject_alternative_name
    else if oid_eq oid basic_constraints_oid
    then some basic_constraints
    else if oid_eq oid name_constraints_oid
    then some name_constraints
    else if oid_eq oid extended_key_usage_oid
    then some extended_key_usage
    else none

Known-discrete : Discrete Known
Known-discrete = hlevel

unfoldable pub same_known : Known → Known → Bool
unfolding Known-discrete
same_known a b = elim (Known-discrete a b) [ yes p ↦ true | no p ↦ false ]

abbrev pub Seen : Type 0
Seen = Known → Bool

-- `x_seen = true` for the extension `x`.
abbrev pub mark : Known → Seen → Seen
mark x seen y = same_known x y || seen y

module _ {E : Type 0} where
  abbrev pub validator : ExtensionPolicy E → Known → ExtensionValidator E
  validator self authority_information_access = self.authority_information_access
  validator self authority_key_identifier = self.authority_key_identifier
  validator self subject_key_identifier = self.subject_key_identifier
  validator self key_usage = self.key_usage
  validator self subject_alternative_name = self.subject_alternative_name
  validator self basic_constraints = self.basic_constraints
  validator self name_constraints = self.name_constraints
  validator self extended_key_usage = self.extended_key_usage

module _ {E : Type 0} (self : ExtensionPolicy E) (policy : PolicyBase) (cert : Certificate) where
  -- The match on one extension, with the flags after it.
  unfoldable pub run_one : Seen → Extension → Option Known → ValidationResult E Seen
  run_one seen ext (some x) = do
    validator_permits (validator self x) policy cert (some ext)
    ok (mark x seen)
  run_one seen ext none =
      if ext.critical
      then fail
          (extension_error ext.extn_id "certificate contains unaccounted-for critical extensions")
      else ok seen

  -- The loop over the extensions, which ends with the flags.
  unfoldable pub run_each : Seen → List Extension → ValidationResult E Seen
  unfolding run_one
  run_each seen [] = ok seen
  run_each seen (ext ∷ exts) = do seen' ← run_one seen ext (known ext.extn_id); run_each seen' exts

  -- `if !x_seen { self.x.permits(policy, cert, None)?; }`
  unfoldable pub check_absent : Seen → Known → ValidationResult E (Unit {0})
  check_absent seen x =
      if seen x then ok tt else validator_permits (validator self x) policy cert none

  unfoldable pub check_all_absent : Seen → ValidationResult E (Unit {0})
  check_all_absent seen = do
    check_absent seen authority_information_access
    check_absent seen authority_key_identifier
    check_absent seen subject_key_identifier
    check_absent seen key_usage
    check_absent seen subject_alternative_name
    check_absent seen basic_constraints
    check_absent seen name_constraints
    check_absent seen extended_key_usage

  unfoldable pub permits : Extensions → ValidationResult E (Unit {0})
  unfolding run_one
  permits extensions = do seen ← run_each (λ _. false) (iter extensions); check_all_absent seen
