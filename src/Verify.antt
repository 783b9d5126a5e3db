-- ===== src/Verify.antt =====
-- src/rust/cryptography-x509-verification: path building and its policies.
pub mod Asn1
pub mod Errors
pub mod Budget
pub mod NameChain
pub mod Store
pub mod Policy
pub mod Chain
