-- ===== src/Worker/Dispatch.antt =====
-- crates/nocap-crypt-worker/src/dispatch.rs: a byte range cut into jobs, and the jobs run one after
-- the other or by a pool. Sums and products of `u64`s wrap, as release builds let them.
pub mod Chunks
pub mod Pool
pub mod Target
pub mod RoundTrip
use mathlib.Core.Option
use nocap_crypt.Base.{
  ℕ, zero, suc, ◌+◌, ◌-◌, ◌*◌, ◌/◌, ◌%◌, ◌^◌, min, Bool, Option, none, some, List, [], ◌∷◌, ◌++◌,
  length, replicate, ltb, ◌==◌, if◌then◌else◌,
}
use nocap_crypt.Base.Result.{Result, ok, err, ◌>>=◌, map_err, ok_or, Fault, failed, panicked}
use nocap_crypt.Core.Iv.{sector_size}
use nocap_crypt.Core.Primitives.{Primitives}
use nocap_crypt.Core.Engine.{SectorEngine, encrypt_range, decrypt_range}
use nocap_crypt.Blockio.SectorIo.{IoError, Os, SectorFile, read_at_exact, write_at_exact}

pub record SectorRange : Type 0 where
  pub first_sector : ℕ
  pub sector_count : ℕ

-- `div_ceil` by the sector size.
abbrev pub sectors_of : ℕ → ℕ
sectors_of data_len = (data_len + (sector_size - 1)) / sector_size

-- The `while` of `chunk_ranges`, on fuel.
unfoldable pub chunk_loop : ℕ → ℕ → ℕ → ℕ → List SectorRange
chunk_loop zero chunk_sectors total_sectors start = []
chunk_loop (suc fuel) chunk_sectors total_sectors start =
    let count = min chunk_sectors (total_sectors - start) in
    let rest = chunk_loop fuel chunk_sectors total_sectors (start + count) in
    if ltb start total_sectors
    then record { first_sector = start; sector_count = count } ∷ rest
    else []

-- `chunk_ranges`; `none` is the panic of its `assert!`. A round takes a sector at least, so the
-- number of sectors is fuel enough.
unfoldable pub chunk_ranges : ℕ → ℕ → Option (List SectorRange)
unfolding chunk_loop
chunk_ranges data_len chunk_sectors =
    let total_sectors = sectors_of data_len in
    if ltb 0 chunk_sectors
    then some (chunk_loop total_sectors chunk_sectors total_sectors 0)
    else none

-- The output file and the shared counter, if the caller polls one.
pub record Transfer : Type 0 where
  pub output : SectorFile
  pub progress : Option ℕ

abbrev pub byte_offset : SectorRange → ℕ
byte_offset range = range.first_sector * sector_size % 2 ^ 64

abbrev pub byte_len : SectorRange → ℕ
byte_len range = range.sector_count * sector_size % 2 ^ 64

-- `counter.fetch_add(byte_len)`, which wraps.
abbrev pub add_progress : Option ℕ → ℕ → Option ℕ
add_progress progress n = Option.map (λ (c : ℕ). (c + n) % 2 ^ 64) progress

-- How many bytes of a range lie before the end of the data.
abbrev pub available : ℕ → SectorRange → ℕ
available data_len range = min (data_len - byte_offset range) (byte_len range)

-- The start of `process_one_range`: a zeroed buffer whose front is read from the input.
unfoldable pub fill_buffer : Os → ℕ → SectorFile → SectorRange → Result (Fault IoError) (List ℕ)
fill_buffer os data_len input range =
    (if ltb 0 (available data_len range)
      then map_err (read_at_exact os input (byte_offset range) (available data_len range)) failed
      else ok [])
    >>= λ bytes. ok (bytes ++ replicate (byte_len range - available data_len range) 0)

-- Its cipher step; a panic of the engine is one of the call.
unfoldable pub apply_cipher :
    Primitives → SectorEngine → Bool → SectorRange → List ℕ → Result (Fault IoError) (List ℕ)
apply_cipher p engine encrypt range buf =
    ok_or
      (if encrypt
        then encrypt_range p engine range.first_sector buf
        else decrypt_range p engine range.first_sector buf)
      panicked

module _ (os : Os) (p : Primitives) (engine : SectorEngine) (data_len : ℕ) (encrypt : Bool) where
  -- `process_one_range` up to its write: the buffer that it writes.
  unfoldable pub prepare : SectorFile → SectorRange → Result (Fault IoError) (List ℕ)
  prepare input range =
      fill_buffer os data_len input range >>= λ buf. apply_cipher p engine encrypt range buf

  unfoldable pub process_one_range :
      SectorFile → SectorRange → Transfer → Result (Fault IoError) Transfer
  process_one_range input range t = do
    buf ← prepare input range
    output ← map_err (write_at_exact os t.output (byte_offset range) buf) failed
    ok (record { output = output; progress = add_progress t.progress (byte_len range) })

  -- `Concurrency::Synchronous`: in order, up to the first error.
  unfoldable pub process_in_order :
      SectorFile → List SectorRange → Transfer → Result (Fault IoError) Transfer
  process_in_order input [] t = ok t
  process_in_order input (range ∷ ranges) t =
      process_one_range input range t >>= λ t'. process_in_order input ranges t'
