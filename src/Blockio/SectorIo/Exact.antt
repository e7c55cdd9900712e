-- ===== src/Blockio/SectorIo/Exact.antt =====
-- The loops over short transfers: what `read_at_exact` returns on every outcome.
use mathlib.Core.Logic.{dif_pos, dif_neg}
use mathlib.Core.WellFounded.{Acc}
use native.Mathlib.Decide.{dec_lt}
use native.Mathlib.Bridge.{le_prop}
use nocap_crypt.Base.{
  ℕ, ◌+◌, ◌-◌, ◌%◌, ◌^◌, ◌≤◌, ◌<◌, ◌≡◌, refl, sym, ap, ap₂, ◌∙◌, inl, inr, min, Bool, true, false,
  ◌&&◌, ltb, List, ◌++◌, length, take, drop, length-take, length-drop, take-take, take-take_add,
  drop-drop, lt_wf, arith, Bool-cases,
}
use nocap_crypt.Base.Result.{Result, ok, err, ◌>>=◌, map_err}
use nocap_crypt.Blockio.SectorIo.{
  IoError, unexpected_eof, os_error, Os, IsPosix, SectorFile, next_multiple_of, read_at, read_loop,
  read_at_exact, write_at, shrinks,
}

-- A short read is a prefix of what was asked for, and empty only at the end of the file.
record IsShortRead (file : List ℕ) (off len : ℕ) (bs : List ℕ) : Type 0 where
  prefix : bs ≡ take (length bs) (drop off file)
  bounded : length bs ≤ len
  progress : 0 < len → off < length file → 0 < length bs

-- Some read of the file failed, with this error number.
abbrev pub FailedRead : Os → List ℕ → ℕ → Type 0
FailedRead os file n =
    (direct : Bool) × (off : ℕ) × (len : ℕ) × (os.pread direct file off len ≡ err n)

data ReadAt (os : Os) (file : List ℕ) (off len : ℕ) (r : Result IoError (List ℕ)) : Type 0 where
  read : (bs : List ℕ) → r ≡ ok bs → IsShortRead file off len bs → ReadAt os file off len r
  refused : (n : ℕ) → r ≡ err (os_error n) → FailedRead os file n → ReadAt os file off len r

-- The outcomes of an exact read: all the bytes, the end of the file before the last one, or an
-- error of the operating system.
pub data ReadExact (os : Os) (file : List ℕ) (off len : ℕ) (r : Result IoError (List ℕ))
    : Type 0 where
  whole : r ≡ ok (take len (drop off file)) → len ≤ length file - off → ReadExact os file off len r
  short : r ≡ err unexpected_eof → length file < off + len → ReadExact os file off len r
  failed_call : (n : ℕ) → r ≡ err (os_error n) → FailedRead os file n → ReadExact os file off len r

module _ (os : Os) (posix : IsPosix os) where
  -- Cutting what the aligned read returned to the caller's length.
  cut_scratch :
      (file : List ℕ) (off len : ℕ) (bs : List ℕ)
      → bs ≡ take (length bs) (drop off file)
      → (0 < len → off < length file → 0 < length bs)
      → IsShortRead file off len (take (min (length bs) len) bs)
  cut_scratch file off len bs p q =
      let m = min (length bs) len in
      let size : length (take m bs) ≡ m = omega (arith, length-take m bs) in
      record {
        prefix =
            ap (take m) p
            ∙ take-take m (length bs) (drop off file) (omega arith)
            ∙ ap (λ k. take k (drop off file)) (sym size);
        bounded = omega arith;
        progress = λ h k. omega (arith, q h k);
      }

  from_direct :
      (file : List ℕ) (off len : ℕ) (r : Result ℕ (List ℕ))
      → os.pread true file off (next_multiple_of len 4096) ≡ r
      → ReadAt os file off len
          (map_err r os_error >>= λ scratch. ok (take (min (length scratch) len) scratch))
  from_direct file off len (ok bs) e =
      let (p, b) = posix.pread-bytes true file off (next_multiple_of len 4096) e in
      read _ refl (
        cut_scratch file off len bs p (λ h k.
          posix.pread-progress true file off (next_multiple_of len 4096) e
            (unfold next_multiple_of in omega arith) k))
  from_direct file off len (err n) e = refused n refl (_, _, _, e)

  from_buffered :
      (direct : Bool) (file : List ℕ) (off len : ℕ) (r : Result ℕ (List ℕ))
      → os.pread direct file off len ≡ r
      → ReadAt os file off len (map_err r os_error)
  from_buffered direct file off len (ok bs) e =
      let (p, b) = posix.pread-bytes direct file off len e in
      read bs refl
        (record { prefix = p; bounded = b; progress = posix.pread-progress direct file off len e })
  from_buffered direct file off len (err n) e = refused n refl (_, _, _, e)

  read_at-ReadAt :
      (sf : SectorFile) (off len : ℕ) → ReadAt os sf.file off len (read_at os sf off len)
  unfolding read_at
  read_at-ReadAt sf off len = elim (Bool-cases (sf.direct_io_active && ltb 0 len)) [
    | inl direct ↦ rw direct (from_direct sf.file off len _ refl)
    | inr buffered ↦ rw buffered (from_buffered sf.direct_io_active sf.file off len _ refl)
  ]

  -- One round of the loop puts a short read in front of the rest.
  after_read :
      (file : List ℕ) (off len off' rest : ℕ) (bs : List ℕ) (r : Result IoError (List ℕ))
      → IsShortRead file off len bs
      → off' ≡ off + length bs
      → rest ≡ len - length bs
      → 0 < length bs
      → ReadExact os file off' rest r
      → ReadExact os file off len (r >>= λ more. ok (bs ++ more))
  after_read file off len off' rest bs r h eo er pos (whole e l) = whole (rw e (ap ok joined)) (
      omega (
        arith,
        h.bounded,
        ap length h.prefix,
        length-take (length bs) (drop off file),
        length-drop off file,
      ))
    where
      joined : bs ++ take rest (drop off' file) ≡ take len (drop off file)
      joined =
          ap₂ ◌++◌ h.prefix (ap (take rest) (sym (drop-drop off (length bs) off' file eo)))
          ∙ take-take_add (length bs) rest len (drop off file) (omega (arith, h.bounded))
  after_read file off len off' rest bs r h eo er pos (short e l) =
      short (rw e) (omega (arith, h.bounded))
  after_read file off len off' rest bs r h eo er pos (failed_call n e f) = failed_call n (rw e) f

  read_loop-ReadExact :
      (sf : SectorFile) (off len : ℕ) (w : Acc ◌<◌ len)
      → off + len < 2 ^ 64
      → ReadExact os sf.file off len (read_loop os sf off len w)
  unfolding read_loop
  read_loop-ReadExact sf off len (Acc.intro _ smaller) h = elim (dec_lt 0 len) [
    | yes more ↦ rw (dif_pos _ le_prop more) (elim (read_at-ReadAt sf off len) [
      | read bs e s ↦ rw e (elim (dec_lt 0 (length bs)) [
        | yes pos ↦ rw (dif_pos _ le_prop pos) (
            after_read sf.file off len ((off + length bs) % 2 ^ 64) (len - length bs) bs _ s
              (omega (arith, s.bounded)) refl pos
              (read_loop-ReadExact sf ((off + length bs) % 2 ^ 64) (len - length bs)
                (smaller _ (shrinks os len (length bs) more pos)) (omega (arith, s.bounded))))
        | no none_read ↦ rw (dif_neg _ none_read) (short refl (ground (arith, s.progress more)))
      ])
      | refused n e f ↦ rw e (failed_call n refl f)
    ])
    | no done ↦
        rw (dif_neg _ done)
          (let empty : len ≡ 0 = omega arith in rw empty (whole refl (omega arith)))
  ]

  -- On a POSIX system, and below offset 2 ^ 64, `read_at_exact` returns exactly the bytes that
  -- were asked for, or fails with `UnexpectedEof` only where the file ends before them, or passes
  -- on an error of the operating system.
  pub read_at_exact-ReadExact :
      (sf : SectorFile) (off len : ℕ)
      → off + len < 2 ^ 64
      → ReadExact os sf.file off len (read_at_exact os sf off len)
  unfolding read_at_exact
  read_at_exact-ReadExact sf off len h = read_loop-ReadExact sf off len (lt_wf.apply len) h

  -- A write takes no more than it is given.
  pub write_at-le :
      (sf : SectorFile) (off : ℕ) (buf : List ℕ) {n : ℕ}
      → write_at os sf off buf ≡ ok n
      → n ≤ length buf
  unfolding write_at
  write_at-le sf off buf {n} e = ground (
    arith,
    posix.pwrite-count true sf.file off (length buf) {n = n},
    posix.pwrite-count false sf.file off (length buf) {n = n},
    posix.pwrite-count sf.direct_io_active sf.file off (length buf) {n = n},
  )
