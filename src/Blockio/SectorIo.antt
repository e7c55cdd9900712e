-- ===== src/Blockio/SectorIo.antt =====
-- crates/nocap-crypt-blockio/src/sectorio.rs: reads and writes at an offset, and the loops over short
-- transfers. A file is its bytes. The operating system's calls are a parameter.
pub mod Splice
pub mod Exact
pub mod Reliable
pub mod Writes
pub mod Sparse
use mathlib.Core.Logic.{dite}
use mathlib.Core.WellFounded.{Acc}
use native.Mathlib.Decide.{dec_lt}
use nocap_crypt.Base.{
  ℕ, zero, suc, ◌+◌, ◌-◌, ◌*◌, ◌/◌, ◌%◌, ◌^◌, ◌≤◌, ◌<◌, ◌≡◌, min, Bool, true, false, ◌&&◌, not,
  Option, none, some, List, [], ◌∷◌, ◌++◌, length, take, drop, replicate, ◌==◌, ltb, if◌then◌else◌,
  lt_wf, arith,
}
use nocap_crypt.Base.Result.{Result, ok, err, ◌>>=◌, ◌>>◌, map_err}

pub data IoError : Type 0 where
  unexpected_eof write_zero : IoError
  -- an error number of the operating system
  os_error : ℕ → IoError

-- `pread` and `pwrite` on a file that is open with or without O_DIRECT, at an offset, for a number of
-- bytes: what is transferred, or an error
-- number. `open_plain` is the short-lived handle of `write_at`. A
-- call's outcome may depend on the file, the handle, the offset and the length.
pub record Os : Type 0 where
  pub pread : Bool → List ℕ → ℕ → ℕ → Result ℕ (List ℕ)
  pub pwrite : Bool → List ℕ → ℕ → ℕ → Result ℕ ℕ
  pub open_plain : List ℕ → Result ℕ (Unit {0})

-- What POSIX promises of a call that succeeds: a read returns bytes of the file from the offset on,
-- at most as many as asked for, and none only at the end of the file; a write takes at most the
-- bytes that it is given.
pub record IsPosix (os : Os) : Type 0 where
  pub pread-bytes :
      (direct : Bool) (file : List ℕ) (off len : ℕ) {bs : List ℕ}
      → os.pread direct file off len ≡ ok bs
      → (bs ≡ take (length bs) (drop off file)) × (length bs ≤ len)
  pub pread-progress :
      (direct : Bool) (file : List ℕ) (off len : ℕ) {bs : List ℕ}
      → os.pread direct file off len ≡ ok bs
      → 0 < len
      → off < length file
      → 0 < length bs
  pub pwrite-count :
      (direct : Bool) (file : List ℕ) (off len : ℕ) {n : ℕ}
      → os.pwrite direct file off len ≡ ok n
      → n ≤ len

-- No call fails, and no write stalls.
pub record IsReliable (os : Os) : Type 0 where
  pub pread-ok :
      (direct : Bool) (file : List ℕ) (off len : ℕ)
      → (bs : List ℕ) × (os.pread direct file off len ≡ ok bs)
  pub pwrite-ok :
      (direct : Bool) (file : List ℕ) (off len : ℕ)
      → (n : ℕ) × (os.pwrite direct file off len ≡ ok n) × (0 < len → 0 < n)
  pub open_plain-ok : (file : List ℕ) → os.open_plain file ≡ ok tt

-- The path is not kept: a second handle on it shows the same bytes.
pub record SectorFile : Type 0 where
  pub file : List ℕ
  pub direct_io_active : Bool

abbrev pub direct_io_alignment : ℕ
direct_io_alignment = 4096

-- `usize::next_multiple_of`; the lengths of buffers are far below the overflow.
unfoldable pub next_multiple_of : ℕ → ℕ → ℕ
next_multiple_of n m = (n + (m - 1)) / m * m

-- The bytes `bs` at `off`; a gap before them reads as zeros.
unfoldable pub splice : List ℕ → ℕ → List ℕ → List ℕ
splice file off bs =
    take off file ++ (replicate (off - length file) 0 ++ (bs ++ drop (off + length bs) file))

module _ (os : Os) where
  -- `SectorFile::read_at` into a buffer of `len` bytes: the bytes that it fills.
  unfoldable pub read_at : SectorFile → ℕ → ℕ → Result IoError (List ℕ)
  read_at sf offset len =
      if sf.direct_io_active && ltb 0 len
      then (map_err (os.pread true sf.file offset (next_multiple_of len direct_io_alignment))
            os_error
          >>= λ scratch. ok (take (min (length scratch) len) scratch))
      else map_err (os.pread sf.direct_io_active sf.file offset len) os_error

  -- `SectorFile::write_at`: how many bytes were written.
  unfoldable pub write_at : SectorFile → ℕ → List ℕ → Result IoError ℕ
  write_at sf offset buf =
      if sf.direct_io_active && ltb 0 (length buf)
      then (if length buf % direct_io_alignment == 0
          then map_err (os.pwrite true sf.file offset (length buf)) os_error
          else (map_err (os.open_plain sf.file) os_error
              >> map_err (os.pwrite false sf.file offset (length buf)) os_error))
      else map_err (os.pwrite sf.direct_io_active sf.file offset (length buf)) os_error

  pub shrinks : (want n : ℕ) → 0 < want → 0 < n → want - n < want
  shrinks want n h k = omega arith

  -- The loop of `read_at_exact`: `want` bytes are still to come.
  unfoldable pub read_loop : SectorFile → ℕ → (want : ℕ) → Acc ◌<◌ want → Result IoError (List ℕ)
  read_loop sf offset want (Acc.intro _ smaller) =
      dite (dec_lt 0 want)
        (λ more. read_at sf offset want >>= λ bs.
          dite (dec_lt 0 (length bs))
            (λ some_read.
              read_loop sf ((offset + length bs) % 2 ^ 64) (want - length bs)
                (smaller _ (shrinks want (length bs) more some_read))
              >>= λ rest. ok (bs ++ rest))
            (λ _. err unexpected_eof))
        (λ _. ok [])

  -- `SectorFile::read_at_exact` into a buffer of `len` bytes.
  unfoldable pub read_at_exact : SectorFile → ℕ → ℕ → Result IoError (List ℕ)
  read_at_exact sf offset len = read_loop sf offset len (lt_wf.apply len)

  -- The loop of `write_at_exact`: `len` bytes of `buf` are still to go. It returns the file.
  unfoldable pub write_loop :
      SectorFile → ℕ → List ℕ → (len : ℕ) → Acc ◌<◌ len → Result IoError SectorFile
  write_loop sf offset buf len (Acc.intro _ smaller) =
      dite (dec_lt 0 len)
        (λ more. write_at sf offset buf >>= λ n.
          dite (dec_lt 0 n)
            (λ some_written.
              write_loop (record sf { file = splice sf.file offset (take n buf) })
                ((offset + n) % 2 ^ 64) (drop n buf) (len - n)
                (smaller _ (shrinks len n more some_written)))
            (λ _. err write_zero))
        (λ _. ok sf)

  -- `SectorFile::write_at_exact`
  unfoldable pub write_at_exact : SectorFile → ℕ → List ℕ → Result IoError SectorFile
  write_at_exact sf offset buf = write_loop sf offset buf (length buf) (lt_wf.apply (length buf))

-- `SectorFile::set_len`: cut, or extended by a hole that reads as zeros.
unfoldable pub set_len : SectorFile → ℕ → SectorFile
set_len sf len = record sf { file = take len sf.file ++ replicate (len - length sf.file) 0 }

-- `create_sparse_output` on a path that holds `existing` (`none`: no such file). The file is opened
-- with `create` and without `truncate`, so its bytes stay.
unfoldable pub create_sparse_output : Option (List ℕ) → Bool → ℕ → SectorFile
create_sparse_output none direct len = set_len (record { file = []; direct_io_active = direct }) len
create_sparse_output (some existing) direct len =
    set_len (record { file = existing; direct_io_active = direct }) len
