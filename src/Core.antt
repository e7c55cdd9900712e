-- ===== src/Core.antt =====
-- crates/nocap-crypt-core: cipher specs, the `plain64` IV and the sector engine.
pub mod CipherSpec
pub mod Iv
pub mod Primitives
pub mod Engine
mod Tests
