-- ===== src/Cli/Compat/Steps.antt =====
-- The steps of the `cryptsetup` check when each of them succeeds.
use Prim.Native.String.{◌++◌ as ◌<>◌}
use nocap_crypt.Base.{
  ℕ, ◌≤◌, ◌≡◌, refl, sym, ap, ◌∙◌, inl, inr, true, false, some, String, List, take, length, ltb,
  ltb→ge, Bool-cases, if◌then◌else◌, arith,
}
use nocap_crypt.Base.Result.{Result, ok, err, Result-cases, ok_injective, not_ok}
use nocap_crypt.Base.Text.{trim}
use nocap_crypt.Core.CipherSpec.{CipherSpec}
use nocap_crypt.Cli.Compat.Machine.{Host, Output, Status}
use nocap_crypt.Cli.Compat.{
  Guard, Step, ◌>>=◌, call, attach, key_file_str, open_args, open_mapping, guarded, plaintext,
  fixture_len, new_guard, temp_name,
}

ge→ltb : (a b : ℕ) → b ≤ a → ltb a b ≡ false
ge→ltb a b h = ground arith

-- What a value of a step says of its parts.
module _ (h : Host) where
  open h use {S}

  >>=-ok :
      {A B : Type 0} (m : Step h A) (f : A → Step h B) (g : Guard) (s : S) {b : B}
      → (◌>>=◌ h m f g s).0 ≡ ok b
      → (a : A) × ((m g s).0 ≡ ok a) × ((f a (m g s).1 (m g s).2).0 ≡ ok b)
  unfolding ◌>>=◌
  >>=-ok m f g s r = elim (Result-cases (m g s).0) [
    | inl (a, q) ↦ (a, q, rw (◌>>=◌, q) at r)
    | inr (e, q) ↦ absurd (not_ok (rw (◌>>=◌, q) at r))
  ]

  call-ok :
      {A : Type 0} (context : String) (op : S → Result String A × S) (g : Guard) (s : S) {a : A}
      → (call h context op g s).0 ≡ ok a
      → (op s).0 ≡ ok a
  unfolding call
  call-ok context op g s r = elim (Result-cases (op s).0) [
    | inl (a', q) ↦ q ∙ (rw (call, q) at r)
    | inr (e, q) ↦ absurd (not_ok (rw (call, q) at r))
  ]

  attach-ok :
      (g : Guard) (s : S) {dev : String}
      → (attach h g s).0 ≡ ok dev
      → (out : Output) × ((h.losetup_find g.backing_path s).0 ≡ ok out)
        × (out.success ≡ true)
        × (attach h g s ≡ (
          ok (trim out.stdout),
          record g { loop_dev = some (trim out.stdout) },
          (h.losetup_find g.backing_path s).1,
        ))
  unfolding attach
  attach-ok g s r = elim (Result-cases (h.losetup_find g.backing_path s).0) [
    | inr (e, q) ↦ absurd (not_ok (rw (attach, q) at r))
    | inl (out, q) ↦ elim (Bool-cases out.success) [
      | inl good ↦ (out, q, good, rw (attach, q, good) refl)
      | inr bad ↦ absurd (not_ok (rw (attach, q, bad) at r))
    ]
  ]

  key_file_str-ok :
      (g : Guard) (s : S) {text : String}
      → (key_file_str h g s).0 ≡ ok text
      → (h.temp_dir_is_utf8 ≡ true) × (key_file_str h g s ≡ (ok g.key_path, g, s))
  unfolding key_file_str
  key_file_str-ok g s r = elim (Bool-cases h.temp_dir_is_utf8) [
    | inl utf8 ↦ (utf8, rw (key_file_str, utf8) refl)
    | inr other ↦ absurd (not_ok (rw (key_file_str, other) at r))
  ]

  open_mapping-ok :
      (args : List String) (name : String) (g : Guard) (s : S) {u : Unit {0}}
      → (open_mapping h args name g s).0 ≡ ok u
      → (st : Status) × ((h.cryptsetup args s).0 ≡ ok st)
        × (st.success ≡ true)
        × (open_mapping h args name g s
            ≡ (ok tt, record g { map_name = some name }, (h.cryptsetup args s).1))
  unfolding open_mapping
  open_mapping-ok args name g s r = elim (Result-cases (h.cryptsetup args s).0) [
    | inr (e, q) ↦ absurd (not_ok (rw (open_mapping, q) at r))
    | inl (st, q) ↦ elim (Bool-cases st.success) [
      | inl good ↦ (st, q, good, rw (open_mapping, q, good) refl)
      | inr bad ↦ absurd (not_ok (rw (open_mapping, q, bad) at r))
    ]
  ]

  -- The same from the parts to the whole.
  >>=-step :
      {A B : Type 0} (m : Step h A) (f : A → Step h B) (g : Guard) (s : S) {a : A} {g' : Guard}
      {s' : S}
      → m g s ≡ (ok a, g', s')
      → ◌>>=◌ h m f g s ≡ f a g' s'
  unfolding ◌>>=◌
  >>=-step m f g s {a} e = rw (◌>>=◌, ap (λ q. q.0) e) (ap (λ q. f a q.1 q.2) e)

  call-step :
      {A : Type 0} (context : String) (op : S → Result String A × S) (g : Guard) (s : S) {a : A}
      → (op s).0 ≡ ok a
      → call h context op g s ≡ (ok a, g, (op s).1)
  unfolding call
  call-step context op g s e = rw (call, e) refl

  attach-step :
      (g : Guard) (s : S) {out : Output}
      → (h.losetup_find g.backing_path s).0 ≡ ok out
      → out.success ≡ true
      → attach h g s ≡ (
        ok (trim out.stdout),
        record g { loop_dev = some (trim out.stdout) },
        (h.losetup_find g.backing_path s).1,
      )
  unfolding attach
  attach-step g s e good = rw (attach, e, good) refl

  key_file_str-step :
      (g : Guard) (s : S) → h.temp_dir_is_utf8 ≡ true → key_file_str h g s ≡ (ok g.key_path, g, s)
  unfolding key_file_str
  key_file_str-step g s e = rw (key_file_str, e) refl

  open_mapping-step :
      (args : List String) (name : String) (g : Guard) (s : S) {st : Status}
      → (h.cryptsetup args s).0 ≡ ok st
      → st.success ≡ true
      → open_mapping h args name g s
        ≡ (ok tt, record g { map_name = some name }, (h.cryptsetup args s).1)
  unfolding open_mapping
  open_mapping-step args name g s e good = rw (open_mapping, e, good) refl

module _ (h : Host) (spec : CipherSpec) (key : List ℕ) (s : h.S) where
  open h use {S}

  abbrev backing : String
  backing = (new_guard h).backing_path

  abbrev key_path : String
  key_path = (new_guard h).key_path

  -- The machine after each step.
  abbrev with_backing : S
  with_backing = (h.create_file backing fixture_len s).1

  abbrev with_key : S
  with_key = (h.write_file key_path key with_backing).1

  abbrev with_loop : S
  with_loop = (h.losetup_find backing with_key).1

  abbrev open_command : Output → List String
  open_command out = open_args spec key_path (trim out.stdout) (temp_name h)

  abbrev with_mapping : Output → S
  with_mapping out = (h.cryptsetup (open_command out) with_loop).1

  abbrev device : String
  device = "/dev/mapper/" <> temp_name h

  abbrev with_fixture : Output → S
  with_fixture out = (h.write_device device plaintext (with_mapping out)).1

  -- Every step succeeds: the two files are made, the loop device is attached and the mapping opened,
  -- the fixture is written through it, and of the backing file, read after that, `real` are the first
  -- bytes.
  pub record Completed (real : List ℕ) : Type 0 where
    pub out : Output
    pub status : Status
    pub bytes : List ℕ
    pub created : (h.create_file backing fixture_len s).0 ≡ ok tt
    pub stored : (h.write_file key_path key with_backing).0 ≡ ok tt
    pub attached : (h.losetup_find backing with_key).0 ≡ ok out
    pub attached_well : out.success ≡ true
    pub utf8 : h.temp_dir_is_utf8 ≡ true
    pub opened : (h.cryptsetup (open_command out) with_loop).0 ≡ ok status
    pub opened_well : status.success ≡ true
    pub written : (h.write_device device plaintext (with_mapping out)).0 ≡ ok tt
    pub read : (h.read_file backing (with_fixture out)).0 ≡ ok bytes
    pub long : fixture_len ≤ length bytes
    pub first : real ≡ take fixture_len bytes

  -- The body of `run_inner`, from its guard on.
  abbrev pub body : Result String (List ℕ) × Guard × S
  body = guarded h spec key backing key_path (temp_name h) (new_guard h) s

  -- Then the body gives those bytes.
  pub Completed-ok : {real : List ℕ} → Completed real → body.0 ≡ ok real
  unfolding guarded
  Completed-ok c =
      let enough = ge→ltb (length c.bytes) fixture_len c.long in
      let g = new_guard h in
      let looped = record g { loop_dev = some (trim c.out.stdout) } in
      let held = record looped { map_name = some (temp_name h) } in
      ap (λ q. q.0)
        (>>=-step h _ _ g s (call-step h _ (h.create_file backing fixture_len) g s c.created)
          ∙ >>=-step h _ _ g with_backing
              (call-step h _ (h.write_file key_path key) g with_backing c.stored)
          ∙ >>=-step h _ _ g with_key (attach-step h g with_key c.attached c.attached_well)
          ∙ >>=-step h _ _ looped with_loop (key_file_str-step h looped with_loop c.utf8)
          ∙ >>=-step h _ _ looped with_loop (
              open_mapping-step h (open_command c.out) (temp_name h) looped with_loop c.opened
                c.opened_well)
          ∙ >>=-step h _ _ held (with_mapping c.out)
              (call-step h _ (h.write_device device plaintext) held (with_mapping c.out) c.written)
          ∙ >>=-step h _ _ held (with_fixture c.out)
              (call-step h _ (h.read_file backing) held (with_fixture c.out) c.read))
      ∙ rw (enough, c.first) refl

  long_enough :
      (bytes : List ℕ) (g : Guard) (t : S) {real : List ℕ}
      → ◌≡◌ {A = Result String (List ℕ)}
          (if◌then◌else◌ {A = Result String (List ℕ) × Guard × S}
            (ltb (length bytes) fixture_len)
            (err "backing file shorter than expected after write", g, t)
            (ok (take fixture_len bytes), g, t)).0
          (ok real)
      → (fixture_len ≤ length bytes) × (real ≡ take fixture_len bytes)
  long_enough bytes g t r = elim (Bool-cases (ltb (length bytes) fixture_len)) [
    | inl short ↦ absurd (not_ok (rw short at r))
    | inr enough ↦ (ltb→ge _ _ enough, sym (ok_injective (rw enough at r)))
  ]

  -- And only then does it give bytes.
  pub ok-Completed : {real : List ℕ} → body.0 ≡ ok real → Completed real
  unfolding guarded call
  ok-Completed {real} r =
      let g = new_guard h in
      let (u1, r1, t1) = >>=-ok h _ _ g s r in
      let created = call-ok h _ (h.create_file backing fixture_len) g s r1 in
      let (u2, r2, t2) = >>=-ok h _ _ g with_backing t1 in
      let stored = call-ok h _ (h.write_file key_path key) g with_backing r2 in
      let (dev, r3, t3) = >>=-ok h _ _ g with_key t2 in
      let (out, attached, good, e3) = attach-ok h g with_key r3 in
      let same : dev ≡ trim out.stdout = ok_injective (sym r3 ∙ ap (λ q. q.0) e3) in
      let (text, r4, t4) = >>=-ok h _ _ _ _ (rw (same, e3) at t3) in
      let (utf8, e4) = key_file_str-ok h _ _ r4 in
      let named : text ≡ key_path = ok_injective (sym r4 ∙ ap (λ q. q.0) e4) in
      let (u5, r5, t5) = >>=-ok h _ _ _ _ (rw (named, e4) at t4) in
      let (status, opened, well, e5) = open_mapping-ok h _ _ _ _ r5 in
      let (u6, r6, t6) = >>=-ok h _ _ _ _ (rw e5 at t5) in
      let (bytes, r7, t7) = >>=-ok h _ _ _ _ t6 in
      let (long, first) = long_enough bytes _ _ t7 in
      record {
        out = out;
        status = status;
        bytes = bytes;
        created = created;
        stored = stored;
        attached = attached;
        attached_well = good;
        utf8 = utf8;
        opened = opened;
        opened_well = well;
        written =
            call-ok h _ (h.write_device device plaintext)
              (record g { loop_dev = some (trim out.stdout); map_name = some (temp_name h) })
              (with_mapping out) r6;
        read =
            call-ok h _ (h.read_file backing)
              (record g { loop_dev = some (trim out.stdout); map_name = some (temp_name h) })
              (with_fixture out) r7;
        long = long;
        first = first;
      }
