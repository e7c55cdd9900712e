-- ===== src/Blockio/Open.antt =====
-- crates/nocap-crypt-blockio/src/sectorio.rs: how a SectorFile is opened on Linux. The system's `open`
-- with the given flags gives the bytes of the file, or an error number.
use nocap_crypt.Base.{ℕ, Bool, true, false, List}
use nocap_crypt.Base.Result.{Result, ok, err, ◌>>=◌}
use nocap_crypt.Blockio.SectorIo.{SectorFile}

-- `SectorFile::open_read`: with O_DIRECT, or without where that fails.
unfoldable pub open_read : (Bool → Result ℕ (List ℕ)) → Result ℕ SectorFile
open_read opens = elim (opens true) [
  | ok file ↦ ok (record { file = file; direct_io_active = true })
  | err e ↦ opens false >>= λ file. ok (record { file = file; direct_io_active = false })
]

-- `SectorFile::open_write`; the flag of O_CREAT goes to both calls.
unfoldable pub open_write : (Bool → Bool → Result ℕ (List ℕ)) → Bool → Result ℕ SectorFile
open_write opens create = elim (opens create true) [
  | ok file ↦ ok (record { file = file; direct_io_active = true })
  | err e ↦ opens create false >>= λ file. ok (record { file = file; direct_io_active = false })
]
