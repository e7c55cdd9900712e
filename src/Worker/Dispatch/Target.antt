-- ===== src/Worker/Dispatch/Target.antt =====
-- What a transfer is to write, and that the buffer of each range is its part of that.
use nocap_crypt.Base.{
  ℕ, ◌+◌, ◌-◌, ◌*◌, ◌^◌, ◌≤◌, ◌<◌, ◌≡◌, refl, sym, ap, ◌∙◌, min, Bool, true, false, some, List,
  ◌++◌, length, take, drop, replicate, length-take, length-drop, length-append, length-replicate,
  get_elem?-append, get_elem?-take, get_elem?-drop, get_elem?-replicate, get_elem?_ext, ltb, ltb→lt,
  ltb→ge, if◌then◌else◌, Bool-cases, inl, inr, arith,
}
use nocap_crypt.Base.Bytes.{IsBytes, append-IsBytes, take-IsBytes, zeros-IsBytes}
use nocap_crypt.Base.Result.{Result, ok, err, ◌>>=◌, map_err, Fault, failed}
use nocap_crypt.Core.Iv.{sector_size}
use nocap_crypt.Core.Primitives.{Primitives, IsLawful}
use nocap_crypt.Core.Engine.{SectorEngine, encrypt_range, decrypt_range}
use nocap_crypt.Core.Engine.Sectors.{sectors, IsSector, sectors-IsBytes, sectors_slice}
use nocap_crypt.Core.Engine.Laws.{
  encrypt_one, decrypt_one, encrypt_range-sectors, decrypt_range-sectors,
}
use nocap_crypt.Core.Engine.Laws.Keyed.{IsKeyed, encrypt_one-IsSector, decrypt_one-IsSector}
use nocap_crypt.Blockio.SectorIo.{IoError, os_error, Os, IsPosix, SectorFile}
use nocap_crypt.Blockio.SectorIo.Exact.{
  FailedRead, ReadExact, whole, short, failed_call, read_at_exact-ReadExact,
}
use nocap_crypt.Worker.Dispatch.{
  SectorRange, byte_offset, byte_len, available, prepare, fill_buffer, apply_cipher,
}

-- The data, cut or filled up with zeros to `n` bytes.
unfoldable pub pad_to : ℕ → List ℕ → List ℕ
pad_to n xs = take n xs ++ replicate (n - length xs) 0

pub length-pad_to : (n : ℕ) (xs : List ℕ) → length (pad_to n xs) ≡ n
unfolding pad_to
length-pad_to n xs = omega (
  arith,
  length-append (take n xs) (replicate (n - length xs) 0),
  length-take n xs,
  length-replicate {A = ℕ} (n - length xs) 0,
)

pub pad_to-IsBytes : (n : ℕ) (xs : List ℕ) → IsBytes xs → IsBytes (pad_to n xs)
unfolding pad_to
pad_to-IsBytes n xs h =
    append-IsBytes (take n xs) _ (take-IsBytes n xs h) (zeros-IsBytes (n - length xs))

-- A part of the padded data: the bytes of the file that it has, then zeros.
pad_to_slice :
    (total data_len off len : ℕ) (file : List ℕ)
    → data_len ≤ length file
    → off + len ≤ total
    → take (min (data_len - off) len) (drop off file)
        ++ replicate (len - min (data_len - off) len) 0
      ≡ take len (drop off (pad_to total (take data_len file)))
unfolding pad_to
pad_to_slice total data_len off len file h k = get_elem?_ext _ _ λ i.
    let avail = min (data_len - off) len in
    let front = take total (take data_len file) in
    let zs : List ℕ = replicate (total - length (take data_len file)) 0 in
    ground (
      arith,
      get_elem?-append (take avail (drop off file)) (replicate (len - avail) 0) i,
      get_elem?-take avail (drop off file) i,
      get_elem?-drop off file i,
      get_elem?-replicate {A = ℕ} (len - avail) 0 (i - length (take avail (drop off file))),
      length-take avail (drop off file),
      length-drop off file,
      get_elem?-take len (drop off (front ++ zs)) i,
      get_elem?-drop off (front ++ zs) i,
      get_elem?-append front zs (off + i),
      get_elem?-take total (take data_len file) (off + i),
      get_elem?-take data_len file (off + i),
      get_elem?-replicate {A = ℕ} (total - length (take data_len file)) 0 (off + i - length front),
      length-take total (take data_len file),
      length-take data_len file,
    )

module _ (p : Primitives) (lawful : IsLawful p) (engine : SectorEngine)
    (keyed : IsKeyed engine) where
  -- One sector, in the direction of the transfer.
  unfoldable pub crypt_one : Bool → ℕ → List ℕ → List ℕ
  crypt_one true = encrypt_one p engine
  crypt_one false = decrypt_one p engine

  pub crypt_one-IsSector :
      (encrypt : Bool) (j : ℕ) (s : List ℕ) → IsSector s → IsSector (crypt_one encrypt j s)
  unfolding crypt_one
  crypt_one-IsSector true j s h = encrypt_one-IsSector p lawful engine j s keyed h
  crypt_one-IsSector false j s h = decrypt_one-IsSector p lawful engine j s keyed h

  -- The cipher step of a job, in either direction.
  crypt_whole :
      (encrypt : Bool) (n first : ℕ) (buf : List ℕ)
      → length buf ≡ sector_size * n
      → (if encrypt then encrypt_range p engine first buf else decrypt_range p engine first buf)
        ≡ some (sectors (crypt_one encrypt) n first buf)
  unfolding crypt_one
  crypt_whole true n first buf h = encrypt_range-sectors p lawful engine n first buf h
  crypt_whole false n first buf h = decrypt_range-sectors p lawful engine n first buf h

  -- The sectors of the padded data, each through the cipher under its own number.
  unfoldable pub target : Bool → ℕ → ℕ → List ℕ → List ℕ
  target encrypt data_len total file =
      sectors (crypt_one encrypt) total 0 (pad_to (sector_size * total) (take data_len file))

  pub target-IsBytes :
      (encrypt : Bool) (data_len total : ℕ) (file : List ℕ)
      → IsBytes file
      → (length (target encrypt data_len total file) ≡ sector_size * total)
        × IsBytes (target encrypt data_len total file)
  unfolding target
  target-IsBytes encrypt data_len total file h =
      let padded = pad_to (sector_size * total) (take data_len file) in
      let (len, bytes) =
        sectors-IsBytes (crypt_one encrypt) (crypt_one-IsSector encrypt) total 0 padded
          (pad_to-IsBytes _ _ (take-IsBytes data_len file h))
          (omega (arith, length-pad_to (sector_size * total) (take data_len file))) in
      (len ∙ length-pad_to _ _, bytes)

  -- The part of the target that a range is to write.
  abbrev pub part : Bool → ℕ → ℕ → List ℕ → SectorRange → List ℕ
  part encrypt data_len total file range =
      take (sector_size * range.sector_count)
        (drop (sector_size * range.first_sector) (target encrypt data_len total file))

  -- How `prepare` can end: with the range's part of the target, or an error of the system.
  pub data Prepared (os : Os) (file out : List ℕ) (r : Result (Fault IoError) (List ℕ))
      : Type 0 where
    prepared : r ≡ ok out → Prepared os file out r
    unreadable :
        (n : ℕ) → r ≡ err (failed (os_error n)) → FailedRead os file n → Prepared os file out r

  module _ (os : Os) (posix : IsPosix os) (encrypt : Bool) (data_len total : ℕ) (input : SectorFile)
      (bytes : IsBytes input.file) (long : data_len ≤ length input.file)
      (small : sector_size * total < 2 ^ 64) where
    -- What is read of a range, and zeros, is its part of the padded data.
    slice_of_range :
        (range : SectorRange)
        → range.first_sector + range.sector_count ≤ total
        → take (available data_len range) (drop (byte_offset range) input.file)
            ++ replicate (byte_len range - available data_len range) 0
          ≡ take (sector_size * range.sector_count) (
              drop
                (sector_size * range.first_sector)
                (pad_to (sector_size * total) (take data_len input.file)))
    slice_of_range range h =
        let off : byte_offset range ≡ 512 * range.first_sector = omega arith in
        let len : byte_len range ≡ 512 * range.sector_count = omega arith in
        rw (off, len)
          (pad_to_slice (512 * total) data_len (512 * range.first_sector) (512 * range.sector_count)
            input.file long (omega arith))

    empty_front :
        (range : SectorRange)
        → range.first_sector + range.sector_count ≤ total
        → available data_len range ≤ 0
        → replicate (byte_len range - available data_len range) 0
          ≡ take (sector_size * range.sector_count) (
              drop
                (sector_size * range.first_sector)
                (pad_to (sector_size * total) (take data_len input.file)))
    empty_front range h e =
        let none_left : available data_len range ≡ 0 = omega arith in
        ap
          (λ k.
            take k (drop (byte_offset range) input.file)
            ++ replicate (byte_len range - available data_len range) 0)
          (sym none_left)
        ∙ slice_of_range range h

    cipher_of_range :
        (range : SectorRange)
        → range.first_sector + range.sector_count ≤ total
        → let buf = take (sector_size * range.sector_count) (
            drop
              (sector_size * range.first_sector)
              (pad_to (sector_size * total) (take data_len input.file))) in
          (if encrypt
            then encrypt_range p engine range.first_sector buf
            else decrypt_range p engine range.first_sector buf)
          ≡ some (part encrypt data_len total input.file range)
    unfolding target
    cipher_of_range range h =
        let padded = pad_to (512 * total) (take data_len input.file) in
        let full : length padded ≡ 512 * total = length-pad_to (512 * total) _ in
        let buf = take (512 * range.sector_count) (drop (512 * range.first_sector) padded) in
        crypt_whole encrypt range.sector_count range.first_sector buf (
          omega (
            arith,
            full,
            length-take (512 * range.sector_count) (drop (512 * range.first_sector) padded),
            length-drop (512 * range.first_sector) padded,
          ))
        ∙ ap some (
            sym (
              sectors_slice (crypt_one encrypt) (crypt_one-IsSector encrypt) total
                range.first_sector range.sector_count padded
                (pad_to-IsBytes _ _ (take-IsBytes data_len input.file bytes)) full h))

    -- The buffer holds the range's part of the padded data.
    data Filled (range : SectorRange) (r : Result (Fault IoError) (List ℕ)) : Type 0 where
      filled :
          r
            ≡ ok (
                take (sector_size * range.sector_count) (
                  drop
                    (sector_size * range.first_sector)
                    (pad_to (sector_size * total) (take data_len input.file))))
          → Filled range r
      unread : (n : ℕ) → r ≡ err (failed (os_error n)) → FailedRead os input.file n → Filled range r

    after_fill :
        (range : SectorRange) (r : Result IoError (List ℕ))
        → range.first_sector + range.sector_count ≤ total
        → 0 < available data_len range
        → ReadExact os input.file (byte_offset range) (available data_len range) r
        → Filled range (
            map_err r failed >>= λ bytes.
            ok (bytes ++ replicate (byte_len range - available data_len range) 0))
    after_fill range r h pos (whole e l) = rw e (filled (ap ok (slice_of_range range h)))
    after_fill range r h pos (short e l) = absurd (omega arith)
    after_fill range r h pos (failed_call n e f) = rw e (unread n refl f)

    fill_buffer-Filled :
        (range : SectorRange)
        → range.first_sector + range.sector_count ≤ total
        → Filled range (fill_buffer os data_len input range)
    unfolding fill_buffer
    fill_buffer-Filled range h = elim (Bool-cases (ltb 0 (available data_len range))) [
      | inl some_data ↦ rw some_data (
          after_fill range _ h (ltb→lt _ _ some_data) (
            read_at_exact-ReadExact os posix input (byte_offset range) (available data_len range)
              (omega arith)))
      | inr no_data ↦ rw no_data (filled (ap ok (empty_front range h (ltb→ge _ _ no_data))))
    ]

    -- For a keyed engine, lawful primitives, a POSIX system, and a range within the sectors of a
    -- file's data, of less than 2 ^ 64 bytes, `prepare` gives the range's part of the target, or
    -- passes on an error of the system: the file does not end early, and the engine does not
    -- panic.
    pub prepare-Prepared :
        (range : SectorRange)
        → range.first_sector + range.sector_count ≤ total
        → Prepared os input.file
            (part encrypt data_len total input.file range)
            (prepare os p engine data_len encrypt input range)
    unfolding prepare apply_cipher
    prepare-Prepared range h = elim (fill_buffer-Filled range h) [
      | filled e ↦ rw e (prepared (rw (cipher_of_range range h)))
      | unread n e f ↦ rw e (unreadable n refl f)
    ]
