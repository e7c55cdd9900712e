-- ===== src/Cli/Image/Output.antt =====
-- crates/nocap-crypt-cli/src/cmd/image.rs, `run_encrypt_impl` and `run_decrypt_impl`: the files of a
-- run that comes to its end.
use nocap_crypt.Base.{
  ℕ, ◌+◌, ◌*◌, ◌/◌, ◌^◌, ◌≤◌, ◌<◌, ◌≡◌, sym, ap, ap₂, ◌∙◌, subst, Bool, true, false, Option, some,
  List, [], ◌++◌, length, drop, length-drop, take_all, append-nil, eq-nil, arith,
}
use nocap_crypt.Base.Bytes.{IsBytes}
use nocap_crypt.Base.Result.{ok}
use nocap_crypt.Core.Iv.{sector_size}
use nocap_crypt.Core.Primitives.{Primitives, IsLawful}
use nocap_crypt.Core.Engine.{SectorEngine}
use nocap_crypt.Core.Engine.Laws.Keyed.{IsKeyed}
use nocap_crypt.Blockio.SectorIo.{Os, IsPosix, SectorFile, create_sparse_output}
use nocap_crypt.Blockio.SectorIo.Sparse.{create_sparse_output_lem}
use nocap_crypt.Worker.Concurrency.{Concurrency}
use nocap_crypt.Worker.Dispatch.{SectorRange, Transfer, sectors_of, chunk_ranges}
use nocap_crypt.Worker.Dispatch.Target.{pad_to, target, target-IsBytes}
use nocap_crypt.Worker.Dispatch.RoundTrip.{target_inverse, returned-Tiles}
use nocap_crypt.Worker.Dispatch.Pool.{Completes}
use nocap_crypt.Worker.Dispatch.Pool.Invariant.{IsCounter}
use nocap_crypt.Worker.Dispatch.Pool.Outcome.{process_ranges_lem}
use nocap_crypt.Cli.Image.{aligned_output_size}

-- `CHUNK_DISPATCH_BYTES / SECTOR_SIZE` of crates/nocap-crypt-worker/src/heuristic.rs.
abbrev pub chunk_sectors : ℕ
chunk_sectors = 4096 / sector_size

module _ (os : Os) (p : Primitives) (engine : SectorEngine) where
  -- `image encrypt` of a file, from the size to the end of the transfer: what the output path held,
  -- whether it could be opened with O_DIRECT, and the counter that a display polls, are arguments.
  pub record EncryptRun (input : SectorFile) (existing : Option (List ℕ)) (direct : Bool)
      (progress : Option ℕ) (block extra : ℕ) (mode : Concurrency) (final : Transfer) : Type 0 where
    pub output_size : ℕ
    pub ranges : List SectorRange
    pub sized : aligned_output_size (length input.file) block extra ≡ ok output_size
    pub cut : chunk_ranges output_size chunk_sectors ≡ some ranges
    pub done :
        Completes os p engine
          (length input.file)
          true
          input
          (record {
            output = create_sparse_output existing direct output_size;
            progress = progress;
          })
          ranges
          mode
          final

  -- `image decrypt`: the input's own length is the size of the output.
  pub record DecryptRun (input : SectorFile) (existing : Option (List ℕ)) (direct : Bool)
      (progress : Option ℕ) (mode : Concurrency) (final : Transfer) : Type 0 where
    pub ranges : List SectorRange
    pub cut : chunk_ranges (length input.file) chunk_sectors ≡ some ranges
    pub done :
        Completes os p engine
          (length input.file)
          false
          input
          (record {
            output = create_sparse_output existing direct (length input.file);
            progress = progress;
          })
          ranges
          mode
          final

  module _ (lawful : IsLawful p) (keyed : IsKeyed engine) (posix : IsPosix os) where
    -- A transfer that covers a sparse output leaves the target and nothing else.
    sparse_outcome :
        (encrypt : Bool) (covered : ℕ) (input : SectorFile) (existing : Option (List ℕ))
        (direct : Bool) (progress : Option ℕ) (ranges : List SectorRange) (mode : Concurrency)
        (final : Transfer)
        → IsBytes input.file
        → sector_size * sectors_of covered < 2 ^ 64
        → IsCounter progress
        → chunk_ranges covered chunk_sectors ≡ some ranges
        → Completes os p engine
            (length input.file)
            encrypt
            input
            (record { output = create_sparse_output existing direct covered; progress = progress })
            ranges
            mode
            final
        → final.output.file
          ≡ target p lawful engine keyed encrypt (length input.file) (sectors_of covered) input.file
    sparse_outcome encrypt covered input existing direct progress ranges mode final bytes small
          counter cut done =
        let total = sectors_of covered in
        let start : Transfer = record {
          output = create_sparse_output existing direct covered;
          progress = progress;
        } in
        let T = target p lawful engine keyed encrypt (length input.file) total input.file in
        let size = (create_sparse_output_lem existing direct covered).0 in
        let (out, _) =
          process_ranges_lem p lawful engine keyed os posix encrypt (length input.file) total
            chunk_sectors input start ranges {mode = mode} bytes (omega arith) small
            (returned-Tiles covered chunk_sectors cut) counter done in
        let tail = drop (512 * total) start.output.file in
        let empty : tail ≡ [] =
          eq-nil tail (omega (arith, length-drop (512 * total) start.output.file, size)) in
        out ∙ ap (λ t. T ++ t) empty ∙ append-nil T

    -- For a keyed engine, lawful primitives and a POSIX system, and an output size of at most 2 ^
    -- 64 - 512: if `image encrypt` of a file comes to its end, the output is whole sectors, the
    -- output size rounded up to one. If then `image decrypt` of it comes to its end, with the same
    -- engine, its output has the same length, and is the input followed by zeros. Modes,
    -- interleavings and what the two output paths held before may be any.
    pub decrypt_run-encrypt_run :
        {input : SectorFile} {existing existing' : Option (List ℕ)} {direct direct' : Bool}
        {progress progress' : Option ℕ} {block extra : ℕ} {mode mode' : Concurrency}
        {middle final : Transfer}
        → IsBytes input.file
        → IsCounter progress
        → IsCounter progress'
        → (e : EncryptRun input existing direct progress block extra mode middle)
        → e.output_size + sector_size ≤ 2 ^ 64
        → DecryptRun middle.output existing' direct' progress' mode' final
        → (length middle.output.file ≡ sector_size * sectors_of e.output_size)
          × (final.output.file ≡ pad_to (sector_size * sectors_of e.output_size) input.file)
    decrypt_run-encrypt_run {input} {existing} {existing'} {direct} {direct'} {progress} {progress'}
          {block} {extra} {mode} {mode'} {middle} {final} bytes counter counter' e small d =
        let n = length input.file in
        let total = sectors_of e.output_size in
        let T = target p lawful engine keyed true n total input.file in
        let (size, whole) = target-IsBytes p lawful engine keyed true n total input.file bytes in
        let there =
          sparse_outcome true e.output_size input existing direct progress e.ranges mode middle
            bytes (omega arith) counter e.cut e.done in
        let long : length middle.output.file ≡ 512 * total = ap length there ∙ size in
        let same : sectors_of (length middle.output.file) ≡ total = omega (arith, long) in
        let back =
          sparse_outcome false (length middle.output.file) middle.output existing' direct' progress'
            d.ranges mode' final (subst IsBytes (sym there) whole) (omega (arith, long)) counter'
            d.cut d.done in
        (
          long,
          back
              ∙ ap₂ (λ k t. target p lawful engine keyed false k t middle.output.file) long same
              ∙ ap (target p lawful engine keyed false (512 * total) total)
                  (there ∙ sym (append-nil T))
              ∙ target_inverse p lawful engine keyed n total input.file [] bytes
              ∙ ap (pad_to (512 * total)) (take_all n input.file (omega arith)),
        )
