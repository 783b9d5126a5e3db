-- ===== src/Examples.antt =====
-- Concrete inputs for the theorems: strings, addresses, certificates and a policy.
pub mod Data
mod Naming
mod Sets
mod Path
mod Found
mod Rules
mod Padded
mod Timestamps
mod Encrypted
mod Derived
mod Tagged
