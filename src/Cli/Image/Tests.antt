-- ===== src/Cli/Image/Tests.antt =====
-- The plans of both commands for a key that passes, and a block size that is refused.
use nocap_crypt.Base.{
  ℕ, zero, suc, ◌≡◌, subst, true, some, some_injective, List, ◌∷◌, replicate, arith,
}
use nocap_crypt.Base.Bytes.{IsBytes}
use nocap_crypt.Core.Primitives.Toy.{toy, toy-IsLawful}
use nocap_crypt.Entropy.Blind.{blind}
use nocap_crypt.Cli.KeyLoad.{aes_cbc_essiv_sha256}
use nocap_crypt.Cli.Image.Plan.{KeyArgs, WorkerArgs, Answers, encrypt_plan, decrypt_plan}
use nocap_crypt.Cli.Image.Exits.{Planned, encrypt_plan-Planned, decrypt_plan-Planned}

abbrev key_args : KeyArgs
key_args = record { cipher = aes_cbc_essiv_sha256; key_size = some 256 }

abbrev worker_args : WorkerArgs
worker_args = record {
  max_workers = some 0;
  small_file_threshold = 100;
  pin_to_submission_thread = true;
}

abbrev key32 : List ℕ
key32 = 1 ∷ replicate 31 2

abbrev answers : Answers
answers = record { loaded = some key32; stat = some 5000; input_opens = true; output_opens = true }

twos : (n : ℕ) → IsBytes (replicate n 2)
twos zero = tt
twos (suc n) = (omega arith, twos n)

loaded-IsBytes : (key : List ℕ) → some key32 ≡ some key → IsBytes key
loaded-IsBytes key e = subst IsBytes (some_injective e) (omega arith, twos 31)

encrypt_plan-Planned_example :
    Planned worker_args (encrypt_plan blind toy key_args 4096 1 worker_args answers)
encrypt_plan-Planned_example =
    encrypt_plan-Planned blind toy toy-IsLawful answers loaded-IsBytes key_args 4096 1 worker_args

decrypt_plan-Planned_example :
    Planned worker_args (decrypt_plan blind toy key_args worker_args answers)
decrypt_plan-Planned_example =
    decrypt_plan-Planned blind toy toy-IsLawful answers loaded-IsBytes key_args worker_args
