-- ===== src/Verify/Policy/Algorithms.antt =====
-- src/rust/cryptography-x509-verification/src/policy/mod.rs: the permitted algorithms. A hash set
-- that is only asked for membership is a list.
use mathlib.Core.Bool.{decide}
use cryptography.Prelude.{ℕ, Bool, ◌||◌, none, some, List, [], ◌∷◌, any}
use cryptography.X509.Oid.{
  Oid, ec_oid, ec_secp256r1, ec_secp384r1, ec_secp521r1, rsa_oid, rsa_with_sha256_oid,
  rsa_with_sha384_oid, rsa_with_sha512_oid, rsassa_pss_oid, mgf1_oid, ecdsa_with_sha256_oid,
  ecdsa_with_sha384_oid, ecdsa_with_sha512_oid, sha256_oid, sha384_oid, sha512_oid,
}
use cryptography.X509.Types.{
  AlgorithmIdentifier, SimpleAlgorithm, simple, absent, null, named_curve, rsa_pss,
}
use cryptography.X509.Certificate.{AlgorithmIdentifier-discrete}
use cryptography.X509.Extensions.{oid_eq}

abbrev pub spki_rsa : AlgorithmIdentifier
spki_rsa = record { oid = rsa_oid; params = simple null }

abbrev pub spki_secp256r1 : AlgorithmIdentifier
spki_secp256r1 = record { oid = ec_oid; params = simple (named_curve ec_secp256r1) }

abbrev pub spki_secp384r1 : AlgorithmIdentifier
spki_secp384r1 = record { oid = ec_oid; params = simple (named_curve ec_secp384r1) }

abbrev pub spki_secp521r1 : AlgorithmIdentifier
spki_secp521r1 = record { oid = ec_oid; params = simple (named_curve ec_secp521r1) }

abbrev pub webpki_permitted_spki_algorithms : List AlgorithmIdentifier
webpki_permitted_spki_algorithms = spki_rsa ∷ spki_secp256r1 ∷ spki_secp384r1 ∷ spki_secp521r1 ∷ []

abbrev pub rsassa_pkcs1v15_sha256 : AlgorithmIdentifier
rsassa_pkcs1v15_sha256 = record { oid = rsa_with_sha256_oid; params = simple null }

abbrev pub rsassa_pkcs1v15_sha384 : AlgorithmIdentifier
rsassa_pkcs1v15_sha384 = record { oid = rsa_with_sha384_oid; params = simple null }

abbrev pub rsassa_pkcs1v15_sha512 : AlgorithmIdentifier
rsassa_pkcs1v15_sha512 = record { oid = rsa_with_sha512_oid; params = simple null }

-- PSS_SHA256_HASH_ALG and its siblings of cryptography-x509/src/common.rs
abbrev pub pss_hash_alg : Oid → SimpleAlgorithm
pss_hash_alg hash = record { oid = hash; params = null }

abbrev pub rsassa_pss : Oid → ℕ → AlgorithmIdentifier
rsassa_pss hash salt_length = record {
  oid = rsassa_pss_oid;
  params = rsa_pss (
      some (record {
        hash_algorithm = pss_hash_alg hash;
        mask_gen_oid = mgf1_oid;
        mask_gen_params = pss_hash_alg hash;
        salt_length = salt_length;
        trailer_field = none;
      }));
}

abbrev pub rsassa_pss_sha256 : AlgorithmIdentifier
rsassa_pss_sha256 = rsassa_pss sha256_oid 32

abbrev pub rsassa_pss_sha384 : AlgorithmIdentifier
rsassa_pss_sha384 = rsassa_pss sha384_oid 48

abbrev pub rsassa_pss_sha512 : AlgorithmIdentifier
rsassa_pss_sha512 = rsassa_pss sha512_oid 64

abbrev pub ecdsa_sha256 : AlgorithmIdentifier
ecdsa_sha256 = record { oid = ecdsa_with_sha256_oid; params = simple absent }

abbrev pub ecdsa_sha384 : AlgorithmIdentifier
ecdsa_sha384 = record { oid = ecdsa_with_sha384_oid; params = simple absent }

abbrev pub ecdsa_sha512 : AlgorithmIdentifier
ecdsa_sha512 = record { oid = ecdsa_with_sha512_oid; params = simple absent }

abbrev pub webpki_permitted_signature_algorithms : List AlgorithmIdentifier
webpki_permitted_signature_algorithms =
    rsassa_pkcs1v15_sha256 ∷ rsassa_pkcs1v15_sha384 ∷ rsassa_pkcs1v15_sha512 ∷ rsassa_pss_sha256
    ∷ rsassa_pss_sha384 ∷ rsassa_pss_sha512 ∷ ecdsa_sha256 ∷ ecdsa_sha384 ∷ ecdsa_sha512 ∷ []

-- HashSet::contains
unfoldable pub is_permitted : List AlgorithmIdentifier → AlgorithmIdentifier → Bool
unfolding AlgorithmIdentifier-discrete
is_permitted algorithms algorithm =
    any (λ a. decide (AlgorithmIdentifier-discrete algorithm a)) algorithms

-- matches!(params, AlgorithmParameters::Rsa(_) | AlgorithmParameters::RsaPss(_))
unfoldable pub is_rsa : AlgorithmIdentifier → Bool
unfolding oid_eq
is_rsa algorithm = oid_eq algorithm.oid rsa_oid || oid_eq algorithm.oid rsassa_pss_oid
