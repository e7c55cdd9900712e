-- ===== src/Luks.antt =====
-- crates/nocap-crypt-luks: what can be told of a volume without its key.
pub mod Header
pub mod Structural
mod Tests
