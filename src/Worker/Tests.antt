-- ===== src/Worker/Tests.antt =====
-- The worker's theorems at work, on a disk that always transfers all of a request.
use native.Mathlib.Decide.{dec_lt}
use nocap_crypt.Base.{
  ℕ, zero, suc, ◌+◌, ◌*◌, ◌≤◌, ◌<◌, ◌≡◌, ◌≢◌, refl, true, false, none, some, List, [], ◌∷◌, ◌++◌,
  take, drop, replicate, lt_wf, arith,
}
use nocap_crypt.Base.Bytes.{IsByte, IsBytes, append-IsBytes, xor_bytes}
use nocap_crypt.Base.Result.{ok}
use nocap_crypt.Core.CipherSpec.{bits128, bytes}
use nocap_crypt.Core.Iv.{plain64_iv}
use nocap_crypt.Core.Primitives.{IsAesKey}
use nocap_crypt.Core.Primitives.Toy.{toy, toy-IsLawful, pieces}
use nocap_crypt.Core.Engine.{
  SectorEngine, xts, aes128, encrypt_range, decrypt_range, xts_encrypt_area, xts_decrypt_area,
  tweak_fn,
}
use nocap_crypt.Core.Engine.Laws.Keyed.{IsKeyed}
use nocap_crypt.Blockio.SectorIo.{
  SectorFile, read_at_exact, read_loop, read_at, write_at_exact, write_loop, write_at, splice,
}
use nocap_crypt.Blockio.Disk.{disk, disk-IsPosix, disk-IsReliable}
use nocap_crypt.Worker.Concurrency.{synchronous, fixed, resolve, resolve-fixed}
use nocap_crypt.Worker.Dispatch.{
  SectorRange, Transfer, add_progress, sectors_of, process_in_order, prepare, chunk_ranges,
  process_one_range, fill_buffer, apply_cipher,
}
use nocap_crypt.Worker.Dispatch.Chunks.{Tiles, chunk_ranges-Tiles}
use nocap_crypt.Worker.Dispatch.Target.{target, part, Prepared, prepare-Prepared}
use nocap_crypt.Worker.Dispatch.RoundTrip.{encrypt_then_decrypt}
use nocap_crypt.Worker.Dispatch.Pool.{
  Pool, pending, writing, launch, Step, begin, Reach, here, next, Completes, in_order,
}
use nocap_crypt.Worker.Dispatch.Pool.Outcome.{process_ranges_lem}
use nocap_crypt.Worker.Dispatch.Pool.InOrder.{process_in_order-Reach}
use nocap_crypt.Worker.Dispatch.Pool.Progress.{measure}
use nocap_crypt.Worker.Dispatch.Pool.Termination.{synchronous-Completes, pool_terminates}

abbrev key16 : ℕ → List ℕ
key16 b = replicate 16 b

abbrev engine : SectorEngine
engine = xts (aes128 (key16 1) (key16 2))

abbrev file515 : List ℕ
file515 = replicate 512 7 ++ (1 ∷ 2 ∷ 3 ∷ [])

abbrev input : SectorFile
input = record { file = file515; direct_io_active = false }

abbrev start : Transfer
start = record { output = record { file = []; direct_io_active = false }; progress = some 0 }

abbrev range0 : SectorRange
range0 = record { first_sector = 0; sector_count = 1 }

abbrev range1 : SectorRange
range1 = record { first_sector = 1; sector_count = 1 }

abbrev sealed : List ℕ
sealed = replicate 512 7 ++ (0 ∷ 2 ∷ 3 ∷ replicate 509 0)

chunks : chunk_ranges 515 1 ≡ some (range0 ∷ range1 ∷ [])
unfolding chunk_ranges
chunks = refl

mask : (n : ℕ) (b : ℕ) → IsByte b → IsBytes (replicate n b)
mask zero b h = tt
mask (suc n) b h = (h, mask n b h)

key : (b : ℕ) → IsByte b → IsAesKey bits128 (key16 b)
unfolding bytes
key b h = record { key_length = refl; key_bytes = mask 16 b h }

keyed : IsKeyed engine
keyed = (key 1 (omega arith), key 2 (omega arith))

file515-IsBytes : IsBytes file515
file515-IsBytes =
    append-IsBytes (replicate 512 7) (1 ∷ 2 ∷ 3 ∷ []) (mask 512 7 (omega arith))
      (omega arith, (omega arith, (omega arith, tt)))

tiles : Tiles 1 (range0 ∷ range1 ∷ []) 0 2
tiles = (refl, omega arith, omega arith, (refl, omega arith, omega arith, refl))

run :
    process_in_order disk toy engine 515 true input (range0 ∷ range1 ∷ []) start
    ≡ ok (record {
      output = record { file = sealed; direct_io_active = false };
      progress = some 1024;
    })
unfolding process_in_order process_one_range prepare fill_buffer read_at_exact read_loop lt_wf
    dec_lt read_at apply_cipher encrypt_range write_at_exact write_loop xts_encrypt_area toy
    tweak_fn plain64_iv write_at splice pieces xor_bytes
run = refl

abbrev sealed_file : SectorFile
sealed_file = record { file = sealed; direct_io_active = false }

abbrev both : SectorRange
both = record { first_sector = 0; sector_count = 2 }

abbrev start_again : Transfer
start_again = record { output = record { file = 9 ∷ []; direct_io_active = true }; progress = none }

abbrev opened : List ℕ
opened = file515 ++ replicate 509 0

chunks_again : chunk_ranges 1024 8 ≡ some (both ∷ [])
unfolding chunk_ranges
chunks_again = refl

run_again :
    process_in_order disk toy engine 1024 false sealed_file (both ∷ []) start_again
    ≡ ok (record { output = record { file = opened; direct_io_active = true }; progress = none })
unfolding process_in_order process_one_range prepare fill_buffer read_at_exact read_loop lt_wf
    dec_lt read_at apply_cipher decrypt_range write_at_exact write_loop xts_decrypt_area toy
    tweak_fn plain64_iv write_at splice pieces xor_bytes
run_again = refl

first_ready : prepare disk toy engine 515 true input range0 ≡ ok (replicate 512 7)
unfolding prepare fill_buffer read_at_exact read_loop lt_wf dec_lt read_at apply_cipher
    encrypt_range xts_encrypt_area toy tweak_fn plain64_iv pieces xor_bytes
first_ready = refl

process_ranges_lem_example :
    (sealed ≡ target toy toy-IsLawful engine keyed true 515 2 file515 ++ drop 1024 [])
    × (some 1024 ≡ add_progress (some 0) 1024)
process_ranges_lem_example =
    process_ranges_lem toy toy-IsLawful engine keyed disk disk-IsPosix true 515 2 1 input start
      (range0 ∷ range1 ∷ []) {mode = synchronous} file515-IsBytes (omega arith) (omega arith) tiles
      (omega arith) (in_order refl run)

encrypt_then_decrypt_example : take 515 opened ≡ take 515 file515
encrypt_then_decrypt_example =
    encrypt_then_decrypt toy toy-IsLawful engine keyed disk disk-IsPosix 515 515 1 8 input start
      start_again (range0 ∷ range1 ∷ []) (both ∷ []) {mode = synchronous} {mode' = synchronous}
      file515-IsBytes tt (omega arith) (omega arith) (omega arith) chunks chunks_again (omega arith)
      tt (in_order refl run) (in_order refl run_again)

synchronous-Completes_example :
    (t : Transfer) × Completes disk toy engine 515 true input start
      (range0 ∷ range1 ∷ [])
      synchronous
      t
synchronous-Completes_example =
    synchronous-Completes toy toy-IsLawful engine keyed disk disk-IsPosix disk-IsReliable true 515 2
      1 input start (range0 ∷ range1 ∷ []) file515-IsBytes (omega arith) (omega arith) tiles

-- The first job has read, and is to write; the second has not begun.
abbrev midway : Pool
midway = record {
  transfer = start;
  tasks = writing range0 0 (replicate 512 7) ∷ pending range1 ∷ [];
}

pool_terminates_example :
    (midway.tasks ≢ [] → (u : Pool) × Step disk toy engine 515 true input midway u)
    × ((u : Pool)
        → Step disk toy engine 515 true input midway u
        → measure u.tasks < measure midway.tasks)
pool_terminates_example =
    pool_terminates toy toy-IsLawful engine keyed disk disk-IsPosix disk-IsReliable true 515 2 1
      input start (range0 ∷ range1 ∷ []) file515-IsBytes (omega arith) (omega arith) tiles midway
      (omega arith)
      (next here (begin [] (pending range1 ∷ []) range0 (replicate 512 7) refl first_ready))

in_order_is_a_run :
    Reach disk toy engine 515 true input
      (launch start (range0 ∷ range1 ∷ []))
      (record { transfer = record { output = sealed_file; progress = some 1024 }; tasks = [] })
in_order_is_a_run =
    process_in_order-Reach disk disk-IsPosix toy engine 515 true input (range0 ∷ range1 ∷ []) start
      run

prepare-Prepared_example :
    Prepared toy toy-IsLawful engine keyed disk file515
      (part toy toy-IsLawful engine keyed true 515 2 file515 range1)
      (prepare disk toy engine 515 true input range1)
prepare-Prepared_example =
    prepare-Prepared toy toy-IsLawful engine keyed disk disk-IsPosix true 515 2 input
      file515-IsBytes (omega arith) (omega arith) range1 (omega arith)

chunk_ranges-Tiles_example :
    (rs : List SectorRange) × (chunk_ranges 515 1 ≡ some rs)
    × Tiles 1 rs 0 (sectors_of 515)
    × (515 ≤ 512 * sectors_of 515)
    × (512 * sectors_of 515 < 515 + 512)
chunk_ranges-Tiles_example = chunk_ranges-Tiles 515 1 (omega arith)

pinned_pool : resolve 10 5 false (some 0) ≡ fixed 1
unfolding resolve
pinned_pool = refl

pinned_count : (1 ≤ 1) × (5 ≤ 10) × (false ≡ false)
pinned_count = resolve-fixed 10 5 false (some 0) pinned_pool
