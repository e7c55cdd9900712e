-- ===== src/Cli/Image/Exits.antt =====
-- How `image encrypt` and `image decrypt` can end before their transfer.
use nocap_crypt.Base.{ℕ, ◌≤◌, ◌≡◌, refl, ◌⊎◌, inl, inr, some, List, Bool-cases, Option-cases, arith}
use nocap_crypt.Base.Bytes.{IsBytes}
use nocap_crypt.Base.Result.{Result, ok, err, Result-cases, Fault, failed}
use nocap_crypt.Core.Primitives.{Primitives, IsLawful}
use nocap_crypt.Core.Engine.{SectorEngine}
use nocap_crypt.Core.Engine.Laws.Keyed.{IsKeyed}
use nocap_crypt.Entropy.Floats.{Floats}
use nocap_crypt.Keymgmt.Validate.{validate_key, validate_key-new}
use nocap_crypt.Worker.Concurrency.{resolve}
use nocap_crypt.Worker.Dispatch.{sectors_of}
use nocap_crypt.Worker.Dispatch.Chunks.{Tiles, chunk_ranges-Tiles}
use nocap_crypt.Cli.ExitCode.{ExitCode, unsupported_cipher, io, key_validation, invalid_args}
use nocap_crypt.Cli.KeyLoad.{resolve_cipher_spec, resolve_cipher_spec-IsSupported}
use nocap_crypt.Cli.Image.{aligned_output_size, aligned_output_size_lem}
use nocap_crypt.Cli.Image.Output.{chunk_sectors}
use nocap_crypt.Cli.Image.Plan.{
  KeyArgs, WorkerArgs, Answers, Plan, resolve_spec_and_key, build_engine, open_engine, open_files,
  encrypt_plan, decrypt_plan,
}

-- The exits that a key can cause.
abbrev pub IsKeyExit : ExitCode → Type 0
IsKeyExit code = (code ≡ unsupported_cipher) ⊎ ((code ≡ io) ⊎ (code ≡ key_validation))

data Opened (r : Result (Fault ExitCode) SectorEngine) : Type 0 where
  opened : (e : SectorEngine) → r ≡ ok e → IsKeyed e → Opened r
  refused : (code : ExitCode) → r ≡ err (failed code) → IsKeyExit code → Opened r

-- What a transfer may rely on: the engine is keyed, the output has room for the input, the ranges
-- tile its sectors, and the concurrency mode is the resolved one.
pub record IsReady (args : WorkerArgs) (plan : Plan) : Type 0 where
  pub keyed : IsKeyed plan.engine
  pub room : plan.input_len ≤ plan.output_size
  pub tiles : Tiles chunk_sectors plan.ranges 0 (sectors_of plan.output_size)
  pub mode :
      plan.concurrency
      ≡ resolve plan.input_len args.small_file_threshold args.pin_to_submission_thread
          args.max_workers

pub data Planned (args : WorkerArgs) (r : Result (Fault ExitCode) Plan) : Type 0 where
  ready : (plan : Plan) → r ≡ ok plan → IsReady args plan → Planned args r
  exits :
      (code : ExitCode)
      → r ≡ err (failed code)
      → IsKeyExit code ⊎ (code ≡ invalid_args)
      → Planned args r

only_invalid :
    (n block extra : ℕ) {code : ExitCode}
    → aligned_output_size n block extra ≡ err code
    → code ≡ invalid_args
unfolding aligned_output_size
only_invalid n block extra h = ground arith

module _ (fl : Floats) (p : Primitives) (lawful : IsLawful p) (sys : Answers)
    (bytes : (key : List ℕ) → sys.loaded ≡ some key → IsBytes key) where
  open_engine-Opened : (args : KeyArgs) → Opened (open_engine fl p args sys)
  unfolding open_engine resolve_spec_and_key build_engine
  open_engine-Opened args = elim (Result-cases (resolve_cipher_spec args.cipher args.key_size)) [
    | inr (x, bad) ↦ refused unsupported_cipher (rw bad refl) (inl refl)
    | inl (spec, good) ↦ elim (Option-cases sys.loaded) [
      | inl unread ↦ refused io (rw (good, unread) refl) (inr (inl refl))
      | inr (key, read) ↦ elim (Result-cases (validate_key fl spec key)) [
        | inr (x, weak) ↦ refused key_validation (rw (good, read, weak) refl) (inr (inr refl))
        | inl (report, valid) ↦
            let sup = (resolve_cipher_spec-IsSupported args.cipher args.key_size good).0 in
            let (e, built, keyed) =
              validate_key-new fl p lawful spec key sup (bytes key read) valid in
            opened e (rw (good, read, valid, built) refl) keyed
      ]
    ]
  ]

  open_files-Planned :
      (args : WorkerArgs) (engine : SectorEngine) (input_len output_size : ℕ)
      → IsKeyed engine
      → input_len ≤ output_size
      → Planned args (open_files args sys engine input_len output_size)
  unfolding open_files
  open_files-Planned args engine input_len output_size keyed room =
      elim (Bool-cases sys.input_opens) [
        | inr closed ↦ exits io (rw (open_files, closed) refl) (inl (inr (inl refl)))
        | inl input_open ↦ elim (Bool-cases sys.output_opens) [
          | inr closed ↦ exits io (rw (open_files, input_open, closed) refl) (inl (inr (inl refl)))
          | inl output_open ↦
              let (ranges, e, tiles, _, _) =
                chunk_ranges-Tiles output_size chunk_sectors (omega arith) in
              ready _ (rw (open_files, input_open, output_open, e) refl)
                (record { keyed = keyed; room = room; tiles = tiles; mode = refl })
        ]
      ]

  -- Whatever the options and the system's answers, with lawful primitives, `image encrypt` does
  -- not panic before its transfer: it ends with the exit code for an unsupported cipher, I/O, the
  -- key or invalid arguments, or goes on with a keyed engine, ranges that tile an output with room
  -- for the input, and the resolved mode.
  pub encrypt_plan-Planned :
      (key_args : KeyArgs) (block extra : ℕ) (args : WorkerArgs)
      → Planned args (encrypt_plan fl p key_args block extra args sys)
  unfolding encrypt_plan open_files
  encrypt_plan-Planned key_args block extra args = elim (open_engine-Opened key_args) [
    | refused code e k ↦ rw (encrypt_plan, e) (exits code refl (inl k))
    | opened engine e keyed ↦ elim (Option-cases sys.stat) [
      | inl unread ↦ exits io (rw (encrypt_plan, e, unread) refl) (inl (inr (inl refl)))
      | inr (n, read) ↦ elim (Result-cases (aligned_output_size n block extra)) [
        | inr (code, bad) ↦
            exits code (rw (encrypt_plan, e, read, bad) refl) (inr (only_invalid n block extra bad))
        | inl (size, good) ↦
            let (_, _, room) = (aligned_output_size_lem n block extra).1 size good in
            elim (open_files-Planned args engine n size keyed (omega (arith, room))) [
              | ready plan e' r ↦ ready plan (rw (encrypt_plan, e, read, good) e') r
              | exits code e' k ↦ exits code (rw (encrypt_plan, e, read, good) e') k
            ]
      ]
    ]
  ]

  -- Whatever the options and the system's answers, with lawful primitives, `image decrypt` does not
  -- panic before its transfer: it ends with the exit code for an unsupported cipher, I/O, the key or
  -- invalid arguments, or goes on with a keyed engine, ranges that tile an output with room for the
  -- input, and the resolved mode.
  pub decrypt_plan-Planned :
      (key_args : KeyArgs) (args : WorkerArgs) → Planned args (decrypt_plan fl p key_args args sys)
  unfolding decrypt_plan open_files
  decrypt_plan-Planned key_args args = elim (open_engine-Opened key_args) [
    | refused code e k ↦ rw (decrypt_plan, e) (exits code refl (inl k))
    | opened engine e keyed ↦ elim (Option-cases sys.stat) [
      | inl unread ↦ exits io (rw (decrypt_plan, e, unread) refl) (inl (inr (inl refl)))
      | inr (n, read) ↦ elim (open_files-Planned args engine n n keyed (omega arith)) [
        | ready plan e' r ↦ ready plan (rw (decrypt_plan, e, read) e') r
        | exits code e' k ↦ exits code (rw (decrypt_plan, e, read) e') k
      ]
    ]
  ]
