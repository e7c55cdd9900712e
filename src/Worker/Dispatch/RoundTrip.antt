-- ===== src/Worker/Dispatch/RoundTrip.antt =====
-- Decrypting what a transfer encrypted gives the data back.
use nocap_crypt.Base.{
  ℕ, ◌-◌, ◌*◌, ◌^◌, ◌≤◌, ◌<◌, ◌≡◌, sym, ap, ◌∙◌, subst, some, some_injective, true, false, List,
  ◌++◌, length, take, drop, replicate, length-take, length-append, take-append_self, take-append,
  take-take, take_all, append-nil, ap₂, arith,
}
use native.Mathlib.Decide.{dec_lt}
use nocap_crypt.Base.Bytes.{IsBytes, append-IsBytes, take-IsBytes, drop-IsBytes}
use nocap_crypt.Core.Iv.{sector_size}
use nocap_crypt.Core.Primitives.{Primitives, IsLawful}
use nocap_crypt.Core.Engine.{SectorEngine}
use nocap_crypt.Core.Engine.Sectors.{sectors, sectors_inverse}
use nocap_crypt.Core.Engine.Laws.{encrypt_one, decrypt_one}
use nocap_crypt.Core.Engine.Laws.Keyed.{IsKeyed, encrypt_one-IsSector, decrypt_one-encrypt_one}
use nocap_crypt.Blockio.SectorIo.{Os, IsPosix, SectorFile}
use nocap_crypt.Worker.Concurrency.{Concurrency}
use nocap_crypt.Worker.Dispatch.{SectorRange, Transfer, sectors_of, chunk_ranges}
use nocap_crypt.Worker.Dispatch.Chunks.{Tiles, chunk_ranges-Tiles}
use nocap_crypt.Worker.Dispatch.Target.{
  pad_to, length-pad_to, pad_to-IsBytes, crypt_one, target, target-IsBytes,
}
use nocap_crypt.Worker.Dispatch.Pool.{Completes}
use nocap_crypt.Worker.Dispatch.Pool.Invariant.{IsCounter}
use nocap_crypt.Worker.Dispatch.Pool.Outcome.{process_ranges_lem}

pad_to_exact : (n : ℕ) (xs : List ℕ) → length xs ≡ n → pad_to n xs ≡ xs
unfolding pad_to
pad_to_exact n xs h =
    let none_left : n - length xs ≡ 0 = omega arith in
    ap₂ (λ t k. t ++ replicate k 0) (take_all n xs (omega arith)) none_left ∙ append-nil xs

take-pad_to : (n k : ℕ) (xs : List ℕ) → k ≤ n → k ≤ length xs → take k (pad_to n xs) ≡ take k xs
unfolding pad_to
take-pad_to n k xs h l =
    take-append k (take n xs) _ (omega (arith, length-take n xs)) ∙ take-take k n xs h

module _ (p : Primitives) (lawful : IsLawful p) (engine : SectorEngine)
    (keyed : IsKeyed engine) where
  -- The target of decrypting what starts with the target of an encryption is the padded data.
  pub target_inverse :
      (data_len total : ℕ) (file rest : List ℕ)
      → IsBytes file
      → target p lawful engine keyed false
          (sector_size * total)
          total
          (target p lawful engine keyed true data_len total file ++ rest)
        ≡ pad_to (sector_size * total) (take data_len file)
  target_inverse data_len total file rest bytes =
      let T = target p lawful engine keyed true data_len total file in
      let padded = pad_to (512 * total) (take data_len file) in
      let (size, whole) = target-IsBytes p lawful engine keyed true data_len total file bytes in
      let keeps = λ (j : ℕ) (s : List ℕ). encrypt_one-IsSector p lawful engine j s keyed in
      unfold target crypt_one in
      (ap (λ t. sectors (decrypt_one p engine) total 0 (pad_to (512 * total) t))
          (take-append_self (512 * total) T rest size)
        ∙ ap (sectors (decrypt_one p engine) total 0) (pad_to_exact (512 * total) T size)
        ∙ sectors_inverse (encrypt_one p engine) keeps (decrypt_one p engine)
            (λ j s. decrypt_one-encrypt_one p lawful engine j s keyed) total 0 padded
            (pad_to-IsBytes _ _ (take-IsBytes data_len file bytes))
            (omega (arith, length-pad_to (512 * total) (take data_len file))))

-- Ranges that `chunk_ranges` returned tile the sectors of the data.
pub returned-Tiles :
    (data_len chunk : ℕ) {rs : List SectorRange}
    → chunk_ranges data_len chunk ≡ some rs
    → Tiles chunk rs 0 (sectors_of data_len)
returned-Tiles data_len chunk {rs} e = elim (dec_lt 0 chunk) [
  | yes pos ↦
      let (rs', e', tiles, _, _) = chunk_ranges-Tiles data_len chunk pos in
      subst (λ (r : List SectorRange). Tiles chunk r 0 (sectors_of data_len))
        (some_injective (sym e' ∙ e)) tiles
  | no zero_chunk ↦ absurd (unfold chunk_ranges in ground arith)
]

module _ (p : Primitives) (lawful : IsLawful p) (engine : SectorEngine) (keyed : IsKeyed engine)
    (os : Os) (posix : IsPosix os) (data_len covered chunk chunk' : ℕ) (input : SectorFile)
    (start start' : Transfer) (ranges ranges' : List SectorRange) where
  -- For a keyed engine, lawful primitives and a POSIX system: encrypt `data_len` bytes of a file,
  -- with zeros after them to the sectors of `covered` bytes, which are at least `data_len` and
  -- need less than 2 ^ 64 bytes, then decrypt all the sectors of the output with the same engine.
  -- If both transfers complete, over ranges that `chunk_ranges` returned, the data is back. The
  -- modes, the chunk sizes, the interleavings and what the outputs held before may be any, and may
  -- differ between the two.
  pub encrypt_then_decrypt :
      {mode mode' : Concurrency} {middle final : Transfer}
      → IsBytes input.file
      → IsBytes start.output.file
      → data_len ≤ length input.file
      → data_len ≤ covered
      → sector_size * sectors_of covered < 2 ^ 64
      → chunk_ranges covered chunk ≡ some ranges
      → chunk_ranges (sector_size * sectors_of covered) chunk' ≡ some ranges'
      → IsCounter start.progress
      → IsCounter start'.progress
      → Completes os p engine data_len true input start ranges mode middle
      → Completes os p engine
          (sector_size * sectors_of covered)
          false
          middle.output
          start'
          ranges'
          mode'
          final
      → take data_len final.output.file ≡ take data_len input.file
  encrypt_then_decrypt {mode} {mode'} {middle} {final} bytes old long within small cut cut' c c'
        done done' =
      let total = sectors_of covered in
      let T = target p lawful engine keyed true data_len total input.file in
      let rest = drop (512 * total) start.output.file in
      let again : sectors_of (512 * total) ≡ total = omega arith in
      let (size, whole) =
        target-IsBytes p lawful engine keyed true data_len total input.file bytes in
      let tiles' =
        subst (λ n. Tiles chunk' ranges' 0 n) again (returned-Tiles (512 * total) chunk' cut') in
      let (here, _) =
        process_ranges_lem p lawful engine keyed os posix true data_len total chunk input start
          ranges bytes long small (returned-Tiles covered chunk cut) c done in
      let middle_bytes =
        subst IsBytes (sym here)
          (append-IsBytes T rest whole (drop-IsBytes (512 * total) start.output.file old)) in
      let middle_size = ap length here ∙ length-append T rest in
      let (there, _) =
        process_ranges_lem p lawful engine keyed os posix false (512 * total) total chunk'
          middle.output start' ranges' middle_bytes (omega (arith, middle_size, size)) small tiles'
          c' done' in
      let padded = pad_to (512 * total) (take data_len input.file) in
      let plain : target p lawful engine keyed false (512 * total) total middle.output.file
          ≡ padded =
        ap (target p lawful engine keyed false (512 * total) total) here
        ∙ target_inverse p lawful engine keyed data_len total input.file rest bytes in
      let fits : data_len ≤ 512 * total = omega arith in
      ap (take data_len) there
      ∙ ap (λ t. take data_len (t ++ drop (512 * total) start'.output.file)) plain
      ∙ take-append data_len padded _
          (omega (arith, fits, length-pad_to (512 * total) (take data_len input.file)))
      ∙ take-pad_to (512 * total) data_len (take data_len input.file) fits
          (omega (arith, long, length-take data_len input.file))
      ∙ take-take data_len data_len input.file (omega arith)
