-- ===== src/Cli.antt =====
-- crates/nocap-crypt-cli: what the commands decide before and after they call the other crates.
pub mod ExitCode
pub mod KeyLoad
pub mod EnvConfig
pub mod Console
pub mod Report
pub mod Entropy
pub mod Keys
pub mod Validate
pub mod Image
pub mod Align
pub mod Compat
mod Tests
