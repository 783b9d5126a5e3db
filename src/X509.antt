-- ===== src/X509.antt =====
-- src/rust/cryptography-x509: the parts of a certificate that path validation reads.
pub mod Oid
pub mod Types
pub mod Certificate
pub mod Extensions
