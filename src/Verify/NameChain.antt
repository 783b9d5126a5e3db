-- ===== src/Verify/NameChain.antt =====
-- src/rust/cryptography-x509-verification/src/lib.rs: NameChain, and the name constraints that it
-- applies.
pub mod Sound
pub mod Frugal
pub mod Cost
use cryptography.Prelude.{
  Bool, true, false, not, ◌&&◌, Option, none, some, List, [], ◌∷◌, if◌then◌else◌,
}
use cryptography.Str.{Str}
use cryptography.Result.{Result, ok, err}
use cryptography.Names.Ia5.{Ia5}
use cryptography.Names.Dns
use cryptography.Names.Ip
use cryptography.Names.Rfc822
use cryptography.X509.Oid.{subject_alternative_name_oid}
use cryptography.X509.Types.{
  GeneralName, other_name, rfc822_name, dns_name, x400_address, directory_name, edi_party_name,
  uniform_resource_identifier, ip_address, registered_id, GeneralSubtree, NameConstraints,
}
use cryptography.X509.Certificate.{Extension}
use cryptography.X509.Extensions.{Extensions, get_extension}
use cryptography.Verify.Asn1.{Asn1}
use cryptography.Verify.Errors.{
  Message, text, shows_bytes, ValidationResult, other, fail, of_parse_error,
}
use cryptography.Verify.Budget.{Spending, pure, lift, continue, name_constraint_check, ◌>>=◌, ◌>>◌}

-- The names of a certificate, and the chain below it: `child` is `None` at the leaf.
pub data NameChain : Type 0 where
  leaf : List GeneralName → NameChain
  above : NameChain → List GeneralName → NameChain

pub data ApplyNameConstraintStatus : Type 0 where
  applied : Bool → ApplyNameConstraintStatus
  skipped : ApplyNameConstraintStatus

abbrev pub is_applied : ApplyNameConstraintStatus → Bool
is_applied (applied b) = true
is_applied skipped = false

abbrev pub is_match : ApplyNameConstraintStatus → Bool
is_match (applied b) = b
is_match skipped = false

abbrev pub link : Option NameChain → List GeneralName → NameChain
link none sans = leaf sans
link (some child) sans = above child sans

module _ {E : Type 0} ⦃asn1 : Asn1 E⦄ where
  unfoldable pub sans_of : Bool → Option Extension → ValidationResult E (List GeneralName)
  sans_of false (some sans) = of_parse_error (asn1.subject_alternative_name sans.extn_value)
  sans_of _ _ = of_parse_error (asn1.subject_alternative_name (0x30 ∷ 0x00 ∷ []))

  abbrev pub linked :
      Option NameChain → ValidationResult E (List GeneralName) → ValidationResult E NameChain
  linked child (ok sans) = ok (link child sans)
  linked child (err e) = err e

  unfoldable pub new : Option NameChain → Extensions → Bool → ValidationResult E NameChain
  unfolding sans_of
  new child extensions self_issued_intermediate =
      linked child
        (sans_of self_issued_intermediate (get_extension extensions subject_alternative_name_oid))

-- The match on the two parsed values: a malformed name is reported before a malformed constraint.
module _ {E C N : Type 0} where
  unfoldable pub apply :
      (C → N → Bool)
      → Message
      → Message
      → Option C
      → Option N
      → ValidationResult E ApplyNameConstraintStatus
  apply matches bad_san bad_constraint (some constraint) (some name) =
      ok (applied (matches constraint name))
  apply matches bad_san bad_constraint none (some name) = fail (other bad_constraint)
  apply matches bad_san bad_constraint _ none = fail (other bad_san)

abbrev pub unsupported : {E : Type 0} → ValidationResult E ApplyNameConstraintStatus
unsupported = fail (other (text "unsupported name constraint"))

abbrev pub subtrees : Option (List GeneralSubtree) → List GeneralSubtree
subtrees none = []
subtrees (some trees) = trees

module _ {E : Type 0} ⦃ia5 : Ia5⦄ where
  -- The match of `evaluate_single_constraint`, behind the budget check.
  unfoldable pub judge : GeneralName → GeneralName → ValidationResult E ApplyNameConstraintStatus
  unfolding apply
  judge (dns_name constraint) (dns_name name) =
      apply (λ c n. Dns.constraint_matches c (Dns.inner_name n))
        (shows_bytes "unsatisfiable DNS name constraint: malformed SAN {}" name)
        (shows_bytes "malformed DNS name constraint: {}" constraint) (Dns.new_constraint constraint)
        (Dns.new_pattern name)
  judge (ip_address constraint) (ip_address name) =
      apply Ip.constraint_matches
        (shows_bytes "unsatisfiable IP name constraint: malformed SAN {:?}" name)
        (shows_bytes "malformed IP name constraints: {:?}" constraint)
        (Ip.constraint_from_bytes constraint) (Ip.from_bytes name)
  judge (rfc822_name constraint) (rfc822_name name) =
      apply Rfc822.constraint_matches
        (shows_bytes "unsatisfiable RFC822 name constraint: malformed SAN {:?}" name)
        (shows_bytes "malformed RFC822 name constraints: {:?}" constraint)
        (Rfc822.new_constraint constraint) (Rfc822.new name)
  judge (other_name _ _) (other_name _ _) = unsupported
  judge (x400_address _) (x400_address _) = unsupported
  judge (directory_name _) (directory_name _) = unsupported
  judge (edi_party_name _) (edi_party_name _) = unsupported
  judge (uniform_resource_identifier _) (uniform_resource_identifier _) = unsupported
  judge (registered_id _) (registered_id _) = unsupported
  judge _ _ = ok skipped

  unfoldable pub evaluate_single_constraint :
      GeneralName → GeneralName → Spending E ApplyNameConstraintStatus
  unfolding name_constraint_check ◌>>=◌
  evaluate_single_constraint constraint san = do name_constraint_check; lift (judge constraint san)

  -- The loop over the permitted subtrees; `permit` is what the last applicable one said.
  unfoldable pub permitted : GeneralName → List GeneralSubtree → Bool → Spending E Bool
  unfolding ◌>>=◌
  permitted san [] permit = pure permit
  permitted san (p ∷ ps) permit = do
    status ← evaluate_single_constraint p.base san
    elim (is_applied status) [
      | true ↦ elim (is_match status) [ true ↦ pure true | false ↦ permitted san ps false ]
      | false ↦ permitted san ps permit
    ]

  -- The loop over the excluded subtrees.
  unfoldable pub excluded : GeneralName → List GeneralSubtree → Spending E (Unit {0})
  unfolding ◌>>=◌
  excluded san [] = pure tt
  excluded san (e ∷ es) = do
    status ← evaluate_single_constraint e.base san
    elim (is_match status) [
      | true ↦ lift (fail (other (text "excluded name constraint matched SAN")))
      | false ↦ excluded san es
    ]

  -- The body of the loop over the names. An absent list of subtrees is looped over as an empty one.
  unfoldable pub evaluate_san : NameConstraints → GeneralName → Spending E (Unit {0})
  unfolding permitted excluded ◌>>=◌
  evaluate_san constraints san = do
    permit ← permitted san (subtrees constraints.permitted_subtrees) true
    elim permit [
      | true ↦ excluded san (subtrees constraints.excluded_subtrees)
      | false ↦ lift (fail (other (text "no permitted name constraints matched SAN")))
    ]

  unfoldable pub evaluate_sans : NameConstraints → List GeneralName → Spending E (Unit {0})
  unfolding ◌>>=◌
  evaluate_sans constraints [] = pure tt
  evaluate_sans constraints (san ∷ sans) = do
    evaluate_san constraints san
    evaluate_sans constraints sans

  unfoldable pub evaluate_constraints : NameChain → NameConstraints → Spending E (Unit {0})
  unfolding evaluate_sans ◌>>=◌
  evaluate_constraints (leaf sans) constraints = evaluate_sans constraints sans
  evaluate_constraints (above child sans) constraints = do
    evaluate_constraints child constraints
    evaluate_sans constraints sans
