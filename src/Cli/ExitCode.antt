-- ===== src/Cli/ExitCode.antt =====
-- crates/nocap-crypt-cli/src/exitcode.rs: the exit codes.
use Prim.Native.String.{◌++◌ as ◌<>◌}
use nocap_crypt.Base.{ℕ, String}
use nocap_crypt.Base.Text.{pad_three}

pub data ExitCode : Type 0 where
  success generic invalid_args key_validation entropy_failed alignment_failed luks_compat io
        unsupported_cipher :
      ExitCode

-- `ExitCode::code`
unfoldable pub code : ExitCode → ℕ
code success = 0
code generic = 1
code invalid_args = 2
code key_validation = 3
code entropy_failed = 4
code alignment_failed = 5
code luks_compat = 6
code io = 7
code unsupported_cipher = 8

-- `ExitCode::error_code`
unfoldable pub error_code : ExitCode → String
error_code exit = "NC-" <> pad_three (code exit)

-- `ExitCode::outcome_label`
unfoldable pub outcome_label : ExitCode → String
outcome_label success = "completed successfully"
outcome_label generic = "failed"
outcome_label invalid_args = "invalid arguments"
outcome_label key_validation = "key validation failed"
outcome_label entropy_failed = "entropy check failed"
outcome_label alignment_failed = "alignment check failed"
outcome_label luks_compat = "LUKS/dm-crypt compatibility check failed"
outcome_label io = "I/O error"
outcome_label unsupported_cipher = "unsupported cipher or key length mismatch"
