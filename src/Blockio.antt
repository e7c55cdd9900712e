-- ===== src/Blockio.antt =====
-- crates/nocap-crypt-blockio: alignment arithmetic and random-access file I/O.
pub mod Alignment
pub mod SectorIo
pub mod Open
pub mod Disk
mod Tests
