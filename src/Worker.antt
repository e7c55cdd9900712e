-- ===== src/Worker.antt =====
-- crates/nocap-crypt-worker: the dispatch of sector ranges, how concurrent it is, and what it reads
-- of the system.
pub mod Concurrency
pub mod Dispatch
pub mod DiskInfo
pub mod Cgroup
mod Tests
