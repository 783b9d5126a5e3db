-- ===== src/Ciphers.antt =====
-- The cipher contexts of src/backend/ciphers.rs of src/rust. OpenSSL's context, the registry of ciphers
-- and the attributes of the Python objects are parameters. A method takes the context and returns the one
-- that it leaves beside its result, since most of what it changes stays changed when it raises.
pub mod Base
pub mod Context
pub mod Python
pub mod Aead
pub mod Calls
pub mod Create
pub mod Buffer
pub mod Limits
pub mod Accounting
pub mod Closed
