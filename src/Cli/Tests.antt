-- ===== src/Cli/Tests.antt =====
-- The theorems on the commands at work.
use native.Mathlib.Decide.{dec_lt}
use nocap_crypt.Base.{
  ℕ, zero, suc, ◌+◌, ◌*◌, ◌%◌, ◌^◌, ◌≤◌, ◌≡◌, ◌↔◌, ◌⊎◌, refl, true, false, Option, none, some, List,
  [], ◌∷◌, ◌++◌, length, replicate, lt_wf, arith,
}
use nocap_crypt.Base.Bytes.{IsByte, IsBytes, xor_bytes}
use nocap_crypt.Base.Result.{ok, err}
use nocap_crypt.Core.CipherSpec.{
  xts_plain64, bits128, bits256, bits, bytes, CipherSpec, parse, with_aes_bits, check_mode,
  from_bits,
}
use nocap_crypt.Core.CipherSpec.Laws.{IsSupported}
use nocap_crypt.Core.Iv.{plain64_iv}
use nocap_crypt.Core.Primitives.{IsAesKey}
use nocap_crypt.Core.Primitives.Toy.{toy, toy-IsLawful, pieces}
use nocap_crypt.Core.Engine.{
  SectorEngine, xts, aes128, encrypt_range, decrypt_range, xts_encrypt_area, xts_decrypt_area,
  tweak_fn,
}
use nocap_crypt.Core.Engine.Laws.Keyed.{IsKeyed}
use nocap_crypt.Blockio.Disk.{disk, disk-IsPosix}
use nocap_crypt.Blockio.SectorIo.{
  SectorFile, create_sparse_output, set_len, read_at_exact, read_loop, read_at, write_at_exact,
  write_loop, write_at, splice,
}
use nocap_crypt.Worker.Concurrency.{synchronous}
use nocap_crypt.Worker.Dispatch.{
  SectorRange, sectors_of, process_in_order, prepare, chunk_ranges, process_one_range, fill_buffer,
  apply_cipher,
}
use nocap_crypt.Worker.Dispatch.Pool.{in_order}
use nocap_crypt.Worker.Dispatch.Target.{pad_to}
use nocap_crypt.Cli.ExitCode.{ExitCode, invalid_args}
use nocap_crypt.Cli.KeyLoad.{
  aes_xts_plain64, cipher_name, mode_of, resolve_cipher_spec, resolve_cipher_spec-IsSupported,
}
use nocap_crypt.Cli.Image.{aligned_output_size, exact_size, aligned_output_size_lem}
use nocap_crypt.Cli.Image.Output.{EncryptRun, DecryptRun, decrypt_run-encrypt_run}
use nocap_crypt.Cli.Align.{Answers, Fixed, run_fix, run_fix-Fixed}

mask : (n : ℕ) (b : ℕ) → IsByte b → IsBytes (replicate n b)
mask zero b h = tt
mask (suc n) b h = (h, mask n b h)

abbrev key16 : ℕ → List ℕ
key16 b = replicate 16 b

key : (b : ℕ) → IsByte b → IsAesKey bits128 (key16 b)
unfolding bytes
key b h = record { key_length = refl; key_bytes = mask 16 b h }

abbrev engine : SectorEngine
engine = xts (aes128 (key16 1) (key16 2))

keyed : IsKeyed engine
keyed = (key 1 (omega arith), key 2 (omega arith))

abbrev input : SectorFile
input = record { file = 7 ∷ 8 ∷ []; direct_io_active = false }

input-IsBytes : IsBytes input.file
input-IsBytes = (omega arith, (omega arith, tt))

-- The second sector is zeros under the tweak of sector 1.
abbrev sealed : SectorFile
sealed = record {
  file = 7 ∷ 8 ∷ (replicate 510 0 ++ (1 ∷ replicate 511 0));
  direct_io_active = false;
}

abbrev both : SectorRange
both = record { first_sector = 0; sector_count = 2 }

sized : aligned_output_size 2 512 1 ≡ ok 1024
unfolding aligned_output_size
sized = refl

cut : chunk_ranges 1024 8 ≡ some (both ∷ [])
unfolding chunk_ranges
cut = refl

encrypted :
    process_in_order disk toy engine 2 true input
      (both ∷ [])
      (record { output = create_sparse_output none false 1024; progress = some 0 })
    ≡ ok (record { output = sealed; progress = some 1024 })
unfolding process_in_order process_one_range prepare fill_buffer read_at_exact read_loop lt_wf
    dec_lt read_at apply_cipher encrypt_range write_at_exact write_loop xts_encrypt_area toy
    tweak_fn plain64_iv write_at splice pieces xor_bytes create_sparse_output set_len
encrypted = refl

abbrev opened : SectorFile
opened = record { file = 7 ∷ 8 ∷ replicate 1022 0; direct_io_active = true }

decrypted :
    process_in_order disk toy engine 1024 false sealed
      (both ∷ [])
      (record { output = create_sparse_output (some (9 ∷ [])) true 1024; progress = none })
    ≡ ok (record { output = opened; progress = none })
unfolding process_in_order process_one_range prepare fill_buffer read_at_exact read_loop lt_wf
    dec_lt read_at apply_cipher decrypt_range write_at_exact write_loop xts_decrypt_area toy
    tweak_fn plain64_iv write_at splice pieces xor_bytes create_sparse_output set_len
decrypted = refl

abbrev encrypt_run :
    EncryptRun disk toy engine input none false
      (some 0)
      512
      1
      synchronous
      (record { output = sealed; progress = some 1024 })
encrypt_run = record {
  output_size = 1024;
  ranges = both ∷ [];
  sized = sized;
  cut = cut;
  done = in_order refl encrypted;
}

abbrev decrypt_run :
    DecryptRun disk toy engine sealed
      (some (9 ∷ []))
      true
      none
      synchronous
      (record { output = opened; progress = none })
decrypt_run = record { ranges = both ∷ []; cut = cut; done = in_order refl decrypted }

decrypt_run-encrypt_run_example :
    (length sealed.file ≡ 512 * sectors_of 1024)
    × (opened.file ≡ pad_to (512 * sectors_of 1024) (7 ∷ 8 ∷ []))
decrypt_run-encrypt_run_example =
    decrypt_run-encrypt_run disk toy engine toy-IsLawful keyed disk-IsPosix input-IsBytes
      (omega arith) tt encrypt_run (omega arith) decrypt_run

aligned_output_size_lem_example :
    ((aligned_output_size 5000 4096 1 ≡ err invalid_args)
      ↔ ((◌≡◌ {A = ℕ} 4096 0) ⊎ (2 ^ 64 ≤ exact_size 5000 4096 1)))
    × ((size : ℕ)
        → aligned_output_size 5000 4096 1 ≡ ok size
        → (size ≡ exact_size 5000 4096 1) × (size % 4096 ≡ 0) × (5000 + 1 * 4096 ≤ size))
aligned_output_size_lem_example = aligned_output_size_lem 5000 4096 1

abbrev answers : Answers
answers = record { open_fails = false; set_len_fails = false }

run_fix-Fixed_example :
    (r : ExitCode × SectorFile) × (run_fix (some input) answers 4096 ≡ some (r.0, some r.1))
    × Fixed 4096 input r
run_fix-Fixed_example = run_fix-Fixed answers input 4096 (omega arith) (omega arith)

abbrev xts128 : CipherSpec
xts128 = record { mode = xts_plain64; aes_bits = bits128 }

abbrev size128 : Option ℕ
size128 = some 128

resolved : resolve_cipher_spec aes_xts_plain64 size128 ≡ ok xts128
unfolding resolve_cipher_spec cipher_name parse with_aes_bits check_mode from_bits
resolved = refl

resolve_cipher_spec-IsSupported_example :
    IsSupported xts128
    × (xts_plain64 ≡ mode_of aes_xts_plain64)
    × ((size128 ≡ some (bits bits128)) ⊎ ((size128 ≡ none) × (bits128 ≡ bits256)))
resolve_cipher_spec-IsSupported_example =
    resolve_cipher_spec-IsSupported aes_xts_plain64 size128 resolved
