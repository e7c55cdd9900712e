-- ===== src/Blockio/Disk.antt =====
-- An operating system whose every call transfers all of the request.
use nocap_crypt.Base.{
  ℕ, zero, suc, ◌≤◌, ◌<◌, ◌≡◌, refl, ap, subst, List, [], ◌∷◌, length, take, drop, length-take,
  length-drop, arith,
}
use nocap_crypt.Base.Result.{ok, ok_injective}
use nocap_crypt.Blockio.SectorIo.{Os, IsPosix, IsReliable}

abbrev pub disk : Os
disk = record {
  pread = λ direct file off len. ok (take len (drop off file));
  pwrite = λ direct file off len. ok len;
  open_plain = λ file. ok tt;
}

length_some : (n : ℕ) (xs : List ℕ) → 0 < n → 0 < length xs → 0 < length (take n xs)
length_some n xs h k = omega (arith, length-take n xs)

pub disk-IsPosix : IsPosix disk
disk-IsPosix = record {
  pread-bytes = λ direct file off len {bs} e.
      let same = ok_injective e in
      subst (λ (x : List ℕ). (x ≡ take (length x) (drop off file)) × (length x ≤ len)) same
        (take_length len (drop off file), omega (arith, length-take len (drop off file)));
  pread-progress = λ direct file off len {bs} e some_asked inside.
      subst (λ (x : List ℕ). 0 < length x) (ok_injective e)
        (length_some len (drop off file) some_asked (omega (arith, length-drop off file)));
  pwrite-count = λ direct file off len {n} e. omega (arith, ok_injective e);
}
  where
    take_length : (n : ℕ) (xs : List ℕ) → take n xs ≡ take (length (take n xs)) xs
    take_length zero xs = refl
    take_length (suc n) [] = refl
    take_length (suc n) (x ∷ xs) = ap (λ t. x ∷ t) (take_length n xs)

pub disk-IsReliable : IsReliable disk
disk-IsReliable = record {
  pread-ok = λ direct file off len. (take len (drop off file), refl);
  pwrite-ok = λ direct file off len. (len, refl, λ pos. pos);
  open_plain-ok = λ file. refl;
}
