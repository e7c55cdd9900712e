-- ===== src/Ui.antt =====
-- crates/nocap-crypt-ui: what is reported, and what each kind of reporter prints of it. The format
-- of floating-point numbers, JSON and the clock are parameters.
pub mod Event
pub mod Reporter
pub mod Banner
pub mod Narrate
pub mod Explain
pub mod Shown
mod Tests
