-- ===== src/Keymgmt.antt =====
-- crates/nocap-crypt-keymgmt: checks of key material and the writing of key files.
pub mod Pattern
pub mod KeyFile
pub mod Format
pub mod Represent
pub mod Validate
mod Tests
