-- ===== src/Entropy.antt =====
-- crates/nocap-crypt-entropy: how evenly the bytes of a buffer or a stream are spread.
pub mod Floats
pub mod Blind
pub mod Scores
pub mod Streaming
mod Tests
