-- ===== src/Cli/Compat/Tests.antt =====
-- The theorems on the `cryptsetup` check, on a machine with one loop device and room for one mapping.
use nocap_crypt.Base.{
  ℕ, ◌≡◌, inl, refl, sym, ap, Bool, true, false, ◌&&◌, ◌||◌, not, Option, none, some, String,
  str_eq, str_eq_iff, List, [], ◌∷◌, replicate, if◌then◌else◌, arith,
}
use nocap_crypt.Base.Result.{Result, ok, err, ok_injective, not_ok}
use nocap_crypt.Base.Text.{trim}
use nocap_crypt.Core.CipherSpec.{xts_plain64, bits128, CipherSpec}
use nocap_crypt.Core.Primitives.Toy.{toy}
use nocap_crypt.Cli.Compat.Machine.{Host, Output, Status}
use nocap_crypt.Cli.Compat.{open_args, run}
use nocap_crypt.Cli.Compat.Manual.{View, IsDocumented, Quiet}
use nocap_crypt.Cli.Compat.Runs.{Restored, run-Restored}
use nocap_crypt.Cli.Compat.Reports.{Reported, run-Reported}

record Machine : Type 0 where
  files : String → Bool
  content : List ℕ
  loop : Bool
  mapping : Option String

abbrev touch : String → Machine → Machine
touch path s = record s { files = λ f. str_eq f path || s.files f }

abbrev last : List String → String
last [] = ""
last (x ∷ []) = x
last (x ∷ (y ∷ ys)) = last (y ∷ ys)

abbrev losetup : Bool → Machine → Result String Output × Machine
losetup true s = (err "no free device", s)
losetup false s =
    (ok (record { success = true; stdout = "/dev/loop0\n"; stderr = "" }), record s { loop = true })

abbrev open_or_close : Bool → String → Option String → Machine → Result String Status × Machine
open_or_close true name mapping s = (
  ok (record { success = true; display = "exit status: 0" }),
  elim mapping [ none ↦ s | some m ↦ if str_eq name m then record s { mapping = none } else s ],
)
open_or_close false name none s =
    (ok (record { success = true; display = "exit status: 0" }), record s { mapping = some name })
open_or_close false name (some m) s =
    (ok (record { success = false; display = "exit status: 5" }), s)

abbrev is_close : List String → Bool
is_close [] = false
is_close (command ∷ _) = str_eq command "close"

abbrev machine : Host
machine = record {
  S = Machine;
  pid = 42;
  temp_dir = "/tmp";
  temp_dir_is_utf8 = true;
  has_cryptsetup = λ s. true;
  create_file = λ path len s. (ok tt, touch path s);
  write_file = λ path bs s. (ok tt, touch path s);
  read_file = λ path s. (ok s.content, s);
  remove_file = λ path s. record s { files = λ f. not (str_eq path f) && s.files f };
  losetup_find = λ path s. losetup s.loop s;
  losetup_detach = λ dev s. if str_eq dev "/dev/loop0" then record s { loop = false } else s;
  cryptsetup = λ args s. open_or_close (is_close args) (last args) s.mapping s;
  write_device = λ path bs s. (ok tt, record s { content = bs });
}

abbrev view : View machine
view = record {
  Exists = λ s f. s.files f ≡ true;
  Attached = λ s d. (s.loop ≡ true) × (d ≡ "/dev/loop0");
  Mapped = λ s m. s.mapping ≡ some m;
}

touch-Quiet : (path : String) (s : Machine) → Quiet machine view path s (touch path s)
touch-Quiet path s = record {
  attached = λ d. (λ a. a, λ a. a);
  mapped = λ m. (λ a. a, λ a. a);
  files = λ f other. ground (arith, str_eq_iff f path);
}

losetup-trim :
    (b : Bool) (s : Machine) {out : Output}
    → (losetup b s).0 ≡ ok out
    → trim out.stdout ≡ "/dev/loop0"
unfolding trim
losetup-trim true s r = absurd (not_ok r)
losetup-trim false s r = ap (λ (o : Output). trim o.stdout) (sym (ok_injective r))

machine-IsDocumented : IsDocumented machine view
unfolding open_args
machine-IsDocumented = record {
  create_file-Quiet = λ path len s. touch-Quiet path s;
  write_file-Quiet = λ path bs s. touch-Quiet path s;
  read_file-Same = λ path s. record {
    attached = λ d. ground arith;
    mapped = λ m. ground arith;
    files = λ f. ground arith;
  };
  write_device-Same = λ path bs s. record {
    attached = λ d. ground arith;
    mapped = λ m. ground arith;
    files = λ f. ground arith;
  };
  losetup-error = λ path s r. record {
    attached = λ d. ground arith;
    mapped = λ m. ground arith;
    files = λ f. ground arith;
  };
  losetup-refuses = λ path s r bad. record {
    attached = λ d. ground arith;
    mapped = λ m. ground arith;
    files = λ f. ground arith;
  };
  losetup-Attaches = λ path s r good.
      let dev = losetup-trim s.loop s r in
      record {
        was_free = λ a. ground arith;
        attached = λ d. rw dev (ground arith);
        mapped = λ m. ground arith;
        files = λ f. ground arith;
      };
  open-error = λ spec key_file dev name s r. record {
    attached = λ d. ground arith;
    mapped = λ m. ground arith;
    files = λ f. ground arith;
  };
  open-refuses = λ spec key_file dev name s r bad. record {
    attached = λ d. ground arith;
    mapped = λ m. ground arith;
    files = λ f. ground arith;
  };
  open-Maps = λ spec key_file dev name s r good. record {
    was_free = λ a. ground arith;
    attached = λ d. ground arith;
    mapped = λ m. ground arith;
    files = λ f. ground arith;
  };
  close-others = λ name s m other. ground (arith, str_eq_iff name m);
  close-attached = λ name s d. ground arith;
  close-files = λ name s f. ground arith;
  detach-others = λ dev s d other. ground (arith, str_eq_iff dev "/dev/loop0", str_eq_iff dev d);
  detach-mapped = λ dev s m. ground arith;
  detach-files = λ dev s f. ground arith;
  remove-others = λ path s f other. ground (arith, str_eq_iff path f);
  remove-attached = λ path s d. (λ a. a, λ a. a);
  remove-mapped = λ path s m. (λ a. a, λ a. a);
}

abbrev spec : CipherSpec
spec = record { mode = xts_plain64; aes_bits = bits128 }

abbrev start : Machine
start = record { files = λ f. str_eq f "/etc/fstab"; content = []; loop = false; mapping = none }

run-Restored_example :
    Restored machine view machine-IsDocumented toy spec
      (replicate 32 7)
      start
      (run machine toy spec (replicate 32 7) start).1
run-Restored_example =
    run-Restored machine view machine-IsDocumented toy spec (replicate 32 7) start

run-Reported_example :
    Reported machine toy spec (replicate 32 7) start (run machine toy spec (replicate 32 7) start).0
run-Reported_example = run-Reported machine toy spec (replicate 32 7) start (inl (refl, λ e. cc))
