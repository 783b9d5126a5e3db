-- ===== src/Examples/Path.antt =====
-- Chain building and policies on a chain of two certificates.
use cryptography.Prelude.{
  length, ◌+◌, ◌*◌, ◌≤◌, ◌≡◌, ◌↔◌, refl, arith, none, some, [], ◌∷◌, ℕ_discrete, true, false,
}
use mathlib.Core.Bool.{decide}
use cryptography.Result.{ok, err}
use cryptography.Str.{to_ascii_lowercase}
use cryptography.Names.Ia5.{ascii_ia5}
use cryptography.Names.Dns.{
  new_pattern, pattern_matches, inner_name, new_constraint, constraint_matches,
}
use cryptography.X509.Oid.{key_usage_oid, basic_constraints_oid}
use cryptography.X509.Types.{BitString}
use cryptography.X509.Certificate.{
  Extension, AlgorithmIdentifier-discrete, Name-discrete, Certificate-discrete,
}
use cryptography.X509.Extensions.{extensions, get_extension}
use cryptography.Verify.Budget
use cryptography.Verify.Errors.{of_parse_error}
use cryptography.Verify.NameChain.{
  NameChain, leaf, judge, evaluate_single_constraint, evaluate_san, evaluate_constraints, sans_of,
  subtrees,
}
use cryptography.Verify.NameChain
use cryptography.Verify.NameChain.Sound.{AllowsChain, evaluate_constraints_sound}
use cryptography.Verify.NameChain.Cost.{count_names, evaluate_constraints-cost}
use cryptography.Verify.Store.{get_by_subject, contains}
use cryptography.Verify.Policy.{
  permits_ee, permits_ca, permits_basic, permits_basic_constraints, permits_subject,
  permits_subject_alternative_name, permitted_or, permits_key_size, valid_issuer,
}
use cryptography.Verify.Policy.Checks.{IsBasic}
use cryptography.Verify.Policy.Issuer.{IsIssuer, valid_issuer_iff}
use cryptography.Verify.Policy.Leaf.{IsNamed, permits_ee_iff}
use cryptography.Verify.Policy.Subjects.{matches}
use cryptography.Verify.Policy.Algorithms.{is_permitted, is_rsa}
use cryptography.Verify.Policy.Validators.{
  permits, run_each, known, validator_permits, validator, same_known, check_absent,
  check_all_absent, Known, key_usage, oid_of,
}
use cryptography.Verify.Policy.Validators.Permits.{AcceptsAll, occurs, permits_iff}
use cryptography.Verify.Policy.Webpki.{
  new_default_webpki_ca, new_default_webpki_ee, ca_key_usage, ca_name_constraints,
  ca_authority_key_identifier, ca_extended_key_usage, ee_subject_alternative_name, ee_key_usage,
  ee_basic_constraints, ee_extended_key_usage, common_authority_information_access, key_cert_sign,
}
use cryptography.Verify.Policy.Webpki.Demands.{permits-get_extension, webpki_ca_demands}
use cryptography.Verify.Chain.{
  verify, recover, after_issuer, attempt, check_names, extend, candidates, descend,
  cert_is_self_issued, checked_add_u8, potential_issuers, issued_as, exhausted, build_chain_inner,
}
use cryptography.Verify.Chain.Sound.{IsAccepted, verify_sound}
use cryptography.Verify.Chain.Fuel.{build_over, build_chain_inner_fuel}
use cryptography.Examples.Data.{
  byte_asn1, byte_ops, base_policy, server_policy, root_store, leaf_cert, root_cert,
  root_extensions, leaf_exts, root_exts, leaf_names, com_constraints, no_org_constraints,
  malformed_ca,
}

two_certs :
    verify ⦃ia5 = ascii_ia5⦄ ⦃asn1 = byte_asn1⦄ byte_ops [] server_policy root_store leaf_cert
    ≡ ok (leaf_cert ∷ root_cert ∷ [])
unfolding verify decide ℕ_discrete extensions get_extension AlgorithmIdentifier-discrete
    Name-discrete Certificate-discrete permits_ee permits_ca permits_basic permits_basic_constraints
    permits_subject permits_subject_alternative_name permitted_or permits_key_size valid_issuer
    matches new_pattern pattern_matches inner_name new_constraint constraint_matches
    to_ascii_lowercase permits run_each known validator_permits same_known check_absent
    check_all_absent new_default_webpki_ca new_default_webpki_ee ca_key_usage ca_name_constraints
    ca_authority_key_identifier ca_extended_key_usage ee_subject_alternative_name ee_key_usage
    ee_basic_constraints ee_extended_key_usage common_authority_information_access is_permitted
    is_rsa NameChain.new judge evaluate_single_constraint evaluate_constraints sans_of evaluate_san
    get_by_subject contains recover after_issuer attempt check_names extend candidates descend
    cert_is_self_issued checked_add_u8 potential_issuers issued_as exhausted
two_certs = refl

-- A valid issuer with malformed names ends the search, also when another candidate would do.
malformed_first :
    verify ⦃ia5 = ascii_ia5⦄ ⦃asn1 = byte_asn1⦄ byte_ops
      (malformed_ca ∷ root_cert ∷ [])
      server_policy
      (record { by_subject = [] })
      leaf_cert
    ≡ of_parse_error (err tt)
unfolding verify decide ℕ_discrete extensions get_extension AlgorithmIdentifier-discrete
    Name-discrete Certificate-discrete permits_ee permits_ca permits_basic permits_basic_constraints
    permits_subject permits_subject_alternative_name permitted_or permits_key_size valid_issuer
    matches new_pattern pattern_matches inner_name new_constraint constraint_matches
    to_ascii_lowercase permits run_each known validator_permits same_known check_absent
    check_all_absent new_default_webpki_ca new_default_webpki_ee ca_key_usage ca_name_constraints
    ca_authority_key_identifier ca_extended_key_usage ee_subject_alternative_name ee_key_usage
    ee_basic_constraints ee_extended_key_usage common_authority_information_access is_permitted
    is_rsa NameChain.new judge evaluate_single_constraint evaluate_constraints sans_of evaluate_san
    get_by_subject contains recover after_issuer attempt check_names extend candidates descend
    cert_is_self_issued checked_add_u8 potential_issuers issued_as exhausted
malformed_first = refl

verify_sound_example :
    IsAccepted ⦃ia5 = ascii_ia5⦄ ⦃asn1 = byte_asn1⦄ byte_ops [] server_policy root_store leaf_cert
      (leaf_cert ∷ root_cert ∷ [])
verify_sound_example =
    verify_sound ⦃ia5 = ascii_ia5⦄ ⦃asn1 = byte_asn1⦄ byte_ops [] server_policy root_store leaf_cert
      (leaf_cert ∷ root_cert ∷ []) two_certs

build_chain_inner_fuel_example :
    build_chain_inner ⦃ia5 = ascii_ia5⦄ ⦃asn1 = byte_asn1⦄ byte_ops [] server_policy root_store 300
      leaf_cert 3 leaf_exts leaf_names
    ≡ build_over ⦃ia5 = ascii_ia5⦄ ⦃asn1 = byte_asn1⦄ byte_ops [] server_policy root_store
        (λ w d x n b. (ok [], b))
        253
        leaf_cert
        3
        leaf_exts
        leaf_names
build_chain_inner_fuel_example =
    build_chain_inner_fuel ⦃ia5 = ascii_ia5⦄ ⦃asn1 = byte_asn1⦄ byte_ops [] server_policy root_store
      (λ w d x n b. (ok [], b)) 300 253 3 leaf_cert leaf_exts leaf_names (omega arith) (omega arith)
      (omega arith)

valid_issuer_iff_example :
    (valid_issuer ⦃asn1 = byte_asn1⦄ byte_ops server_policy root_cert leaf_cert 0 root_exts ≡ ok tt)
    ↔ IsIssuer ⦃asn1 = byte_asn1⦄ byte_ops server_policy root_cert leaf_cert 0 root_exts
valid_issuer_iff_example =
    valid_issuer_iff ⦃asn1 = byte_asn1⦄ byte_ops server_policy root_cert leaf_cert 0 root_exts

permits_ee_iff_example :
    (permits_ee ⦃ia5 = ascii_ia5⦄ ⦃asn1 = byte_asn1⦄ server_policy leaf_cert leaf_exts ≡ ok tt) ↔ (
      IsBasic (Unit {0}) ⦃asn1 = byte_asn1⦄ base_policy leaf_cert
      × IsNamed (Unit {0}) ⦃ia5 = ascii_ia5⦄ ⦃asn1 = byte_asn1⦄ base_policy.subject leaf_exts
      × (permits server_policy.ee_extension_policy base_policy leaf_cert leaf_exts ≡ ok tt))
permits_ee_iff_example =
    permits_ee_iff ⦃ia5 = ascii_ia5⦄ ⦃asn1 = byte_asn1⦄ server_policy leaf_cert leaf_exts

permits_iff_example :
    (permits server_policy.ca_extension_policy base_policy root_cert root_exts ≡ ok tt) ↔ (
      AcceptsAll server_policy.ca_extension_policy base_policy root_cert root_extensions
      × ((x : Known)
          → occurs x root_extensions ≡ false
          → validator_permits
              (validator server_policy.ca_extension_policy x)
              base_policy
              root_cert
              none
            ≡ ok tt))
permits_iff_example = permits_iff server_policy.ca_extension_policy base_policy root_cert root_exts

root_permitted :
    permits (new_default_webpki_ca ⦃asn1 = byte_asn1⦄) base_policy root_cert root_exts ≡ ok tt
unfolding decide ℕ_discrete permits run_each known validator_permits same_known check_absent
    check_all_absent new_default_webpki_ca ca_key_usage ca_name_constraints
    ca_authority_key_identifier ca_extended_key_usage common_authority_information_access
root_permitted = refl

permits-get_extension_example :
    validator_permits
      (validator (new_default_webpki_ca ⦃asn1 = byte_asn1⦄) key_usage)
      base_policy
      root_cert
      (get_extension root_exts (oid_of key_usage))
    ≡ ok tt
permits-get_extension_example =
    permits-get_extension (new_default_webpki_ca ⦃asn1 = byte_asn1⦄) base_policy root_cert key_usage
      root_exts root_permitted

webpki_ca_demands_example :
    ((ext : Extension) × (usage : BitString) × (get_extension root_exts key_usage_oid ≡ some ext)
      × (byte_asn1.key_usage ext.extn_value ≡ ok usage)
      × (byte_asn1.has_bit_set usage key_cert_sign ≡ true))
    × ((ext : Extension) × (get_extension root_exts basic_constraints_oid ≡ some ext)
        × (ext.critical ≡ true))
webpki_ca_demands_example =
    webpki_ca_demands ⦃asn1 = byte_asn1⦄ base_policy root_cert root_exts root_permitted

com_allowed :
    (evaluate_constraints {E = Unit {0}} ⦃ia5 = ascii_ia5⦄ leaf_names com_constraints Budget.new).0
    ≡ ok tt
unfolding evaluate_constraints evaluate_san evaluate_single_constraint judge new_pattern inner_name
    new_constraint constraint_matches to_ascii_lowercase
com_allowed = refl

evaluate_constraints_sound_example :
    AllowsChain (Unit {0}) ⦃ia5 = ascii_ia5⦄ com_constraints leaf_names
evaluate_constraints_sound_example =
    evaluate_constraints_sound ⦃ia5 = ascii_ia5⦄ leaf_names com_constraints Budget.new com_allowed

org_excluded :
    (evaluate_constraints {E = Unit {0}} ⦃ia5 = ascii_ia5⦄ leaf_names no_org_constraints
      (record { name_constraint_checks = 5 })).0
    ≡ ok tt
unfolding evaluate_constraints evaluate_san evaluate_single_constraint judge new_pattern inner_name
    new_constraint constraint_matches to_ascii_lowercase
org_excluded = refl

evaluate_constraints-cost_example :
    (evaluate_constraints {E = Unit {0}} ⦃ia5 = ascii_ia5⦄ leaf_names no_org_constraints
        (record { name_constraint_checks = 5 })).1.name_constraint_checks
      + count_names leaf_names * length (subtrees no_org_constraints.excluded_subtrees)
    ≤ 5
evaluate_constraints-cost_example =
    evaluate_constraints-cost {E = Unit {0}} ⦃ia5 = ascii_ia5⦄ leaf_names no_org_constraints
      (record { name_constraint_checks = 5 }) org_excluded
