-- ===== src/X509/Oid.antt =====
-- src/rust/cryptography-x509/src/oid.rs: the object identifiers that path validation compares,
-- each as the list of its arcs.
use cryptography.Prelude.{ℕ, List, [], ◌∷◌}

abbrev pub Oid : Type 0
Oid = List ℕ

abbrev pub authority_information_access_oid : Oid
authority_information_access_oid = 1 ∷ 3 ∷ 6 ∷ 1 ∷ 5 ∷ 5 ∷ 7 ∷ 1 ∷ 1 ∷ []

abbrev pub subject_key_identifier_oid : Oid
subject_key_identifier_oid = 2 ∷ 5 ∷ 29 ∷ 14 ∷ []

abbrev pub key_usage_oid : Oid
key_usage_oid = 2 ∷ 5 ∷ 29 ∷ 15 ∷ []

abbrev pub subject_alternative_name_oid : Oid
subject_alternative_name_oid = 2 ∷ 5 ∷ 29 ∷ 17 ∷ []

abbrev pub basic_constraints_oid : Oid
basic_constraints_oid = 2 ∷ 5 ∷ 29 ∷ 19 ∷ []

abbrev pub name_constraints_oid : Oid
name_constraints_oid = 2 ∷ 5 ∷ 29 ∷ 30 ∷ []

abbrev pub authority_key_identifier_oid : Oid
authority_key_identifier_oid = 2 ∷ 5 ∷ 29 ∷ 35 ∷ []

abbrev pub extended_key_usage_oid : Oid
extended_key_usage_oid = 2 ∷ 5 ∷ 29 ∷ 37 ∷ []

abbrev pub eku_server_auth_oid : Oid
eku_server_auth_oid = 1 ∷ 3 ∷ 6 ∷ 1 ∷ 5 ∷ 5 ∷ 7 ∷ 3 ∷ 1 ∷ []

abbrev pub eku_client_auth_oid : Oid
eku_client_auth_oid = 1 ∷ 3 ∷ 6 ∷ 1 ∷ 5 ∷ 5 ∷ 7 ∷ 3 ∷ 2 ∷ []

abbrev pub eku_any_key_usage_oid : Oid
eku_any_key_usage_oid = 2 ∷ 5 ∷ 29 ∷ 37 ∷ 0 ∷ []

abbrev pub ec_oid : Oid
ec_oid = 1 ∷ 2 ∷ 840 ∷ 10045 ∷ 2 ∷ 1 ∷ []

abbrev pub ec_secp256r1 : Oid
ec_secp256r1 = 1 ∷ 2 ∷ 840 ∷ 10045 ∷ 3 ∷ 1 ∷ 7 ∷ []

abbrev pub ec_secp384r1 : Oid
ec_secp384r1 = 1 ∷ 3 ∷ 132 ∷ 0 ∷ 34 ∷ []

abbrev pub ec_secp521r1 : Oid
ec_secp521r1 = 1 ∷ 3 ∷ 132 ∷ 0 ∷ 35 ∷ []

abbrev pub rsa_oid : Oid
rsa_oid = 1 ∷ 2 ∷ 840 ∷ 113549 ∷ 1 ∷ 1 ∷ 1 ∷ []

abbrev pub rsa_with_sha256_oid : Oid
rsa_with_sha256_oid = 1 ∷ 2 ∷ 840 ∷ 113549 ∷ 1 ∷ 1 ∷ 11 ∷ []

abbrev pub rsa_with_sha384_oid : Oid
rsa_with_sha384_oid = 1 ∷ 2 ∷ 840 ∷ 113549 ∷ 1 ∷ 1 ∷ 12 ∷ []

abbrev pub rsa_with_sha512_oid : Oid
rsa_with_sha512_oid = 1 ∷ 2 ∷ 840 ∷ 113549 ∷ 1 ∷ 1 ∷ 13 ∷ []

abbrev pub rsassa_pss_oid : Oid
rsassa_pss_oid = 1 ∷ 2 ∷ 840 ∷ 113549 ∷ 1 ∷ 1 ∷ 10 ∷ []

abbrev pub mgf1_oid : Oid
mgf1_oid = 1 ∷ 2 ∷ 840 ∷ 113549 ∷ 1 ∷ 1 ∷ 8 ∷ []

abbrev pub ecdsa_with_sha256_oid : Oid
ecdsa_with_sha256_oid = 1 ∷ 2 ∷ 840 ∷ 10045 ∷ 4 ∷ 3 ∷ 2 ∷ []

abbrev pub ecdsa_with_sha384_oid : Oid
ecdsa_with_sha384_oid = 1 ∷ 2 ∷ 840 ∷ 10045 ∷ 4 ∷ 3 ∷ 3 ∷ []

abbrev pub ecdsa_with_sha512_oid : Oid
ecdsa_with_sha512_oid = 1 ∷ 2 ∷ 840 ∷ 10045 ∷ 4 ∷ 3 ∷ 4 ∷ []

abbrev pub sha256_oid : Oid
sha256_oid = 2 ∷ 16 ∷ 840 ∷ 1 ∷ 101 ∷ 3 ∷ 4 ∷ 2 ∷ 1 ∷ []

abbrev pub sha384_oid : Oid
sha384_oid = 2 ∷ 16 ∷ 840 ∷ 1 ∷ 101 ∷ 3 ∷ 4 ∷ 2 ∷ 2 ∷ []

abbrev pub sha512_oid : Oid
sha512_oid = 2 ∷ 16 ∷ 840 ∷ 1 ∷ 101 ∷ 3 ∷ 4 ∷ 2 ∷ 3 ∷ []
