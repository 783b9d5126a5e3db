-- ===== src/Names.antt =====
-- src/rust/cryptography-x509-verification/src/types.rs: the names that path validation compares.
pub mod Ia5
pub mod Dns
pub mod Ip
pub mod Rfc822
