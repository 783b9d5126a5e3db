-- ===== src/X509/Certificate.antt =====
-- src/rust/cryptography-x509/src/certificate.rs and the `Extension` of extensions.rs. The
-- accessors `issuer` and `subject` are the fields; equality is the derived one.
use cryptography.Prelude.{ℕ, ℕ_discrete, Bool, Option, List}
use cryptography.Str.{Str}
use cryptography.X509.Oid.{Oid}
use cryptography.X509.Types.{AlgorithmIdentifier, BitString, Name, SubjectPublicKeyInfo, Time}

pub record Extension : Type 0 where
  pub extn_id : Oid
  pub critical : Bool
  pub extn_value : Str

pub record Validity : Type 0 where
  pub not_before : Time
  pub not_after : Time

pub record TbsCertificate : Type 0 where
  pub version : ℕ
  pub serial : Str
  pub signature_alg : AlgorithmIdentifier
  pub issuer : Name
  pub validity : Validity
  pub subject : Name
  pub spki : SubjectPublicKeyInfo
  pub issuer_unique_id : Option BitString
  pub subject_unique_id : Option BitString
  pub raw_extensions : Option (List Extension)

pub record Certificate : Type 0 where
  pub tbs_cert : TbsCertificate
  pub signature_alg : AlgorithmIdentifier
  pub signature : BitString

unfoldable pub Name-discrete : Discrete Name
Name-discrete = hlevel ℕ_discrete

unfoldable pub Oid-discrete : Discrete Oid
Oid-discrete = hlevel ℕ_discrete

unfoldable pub AlgorithmIdentifier-discrete : Discrete AlgorithmIdentifier
AlgorithmIdentifier-discrete = hlevel ℕ_discrete

unfoldable pub Certificate-discrete : Discrete Certificate
Certificate-discrete = hlevel ℕ_discrete
