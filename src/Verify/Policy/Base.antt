-- ===== src/Verify/Policy/Base.antt =====
-- src/rust/cryptography-x509-verification: the trait CryptoOps of ops.rs, and the fields of
-- `PolicyDefinition` that the extension validators may read. The validators are closures that take
-- the policy which holds them, so those fields stand apart from the two extension policies.
use cryptography.Prelude.{ℕ, Bool, Option, List}
use cryptography.X509.Oid.{Oid}
use cryptography.X509.Types.{AlgorithmIdentifier, DateTime}
use cryptography.X509.Certificate.{Certificate}
use cryptography.Verify.Policy.Subjects.{Subject}

-- The program discards the error values, so a fallible method has an Option or a Bool.
pub record CryptoOps (K : Type 0) : Type 0 where
  pub public_key : Certificate → Option K
  pub verify_signed_by : Certificate → K → Bool

pub record PolicyBase : Type 0 where
  pub max_chain_depth : ℕ
  pub subject : Option Subject
  pub validation_time : DateTime
  pub extended_key_usage : Oid
  pub minimum_rsa_modulus : ℕ
  pub permitted_public_key_algorithms : List AlgorithmIdentifier
  pub permitted_signature_algorithms : List AlgorithmIdentifier
