-- ===== src/Commands/Single.antt =====
-- src/commands/verify.rs: the verification of one receipt, from its first verdict to the exit code.
use atl_cli.Prelude.{ℕ, Option, none, some, or_else, [], ◌∷◌, concat, Result, ok, err, ◌>>=◌}
use atl_cli.Error.{CliError, error_exit_code}
use atl_cli.Cli.{VerifyArgs, VerificationMode, Host, determine_mode_for_receipt}
use atl_cli.Verify.Verdict.{ReasonCode, Status, ReceiptVerdict, ExitCode}
use atl_cli.Verify.Anchor.Prose.{Rendering}
use atl_cli.Verify.Anchor.Sources.{HexBytes}
use atl_cli.Verify.Single.{SingleVerificationResult, verdict}
use atl_cli.Verify.Online.{Services, Session, receipt_requires_network, verify_anchors_online}
use atl_cli.Net.Bitcoin.Cache.{Moment}
use atl_cli.Commands.Wording.{untrusted_headline, reason_str, trust_hint, invalid_detail}

pub record ModeOutcome : Type 0 where
  pub mode : VerificationMode
  pub deferred : Option CliError

abbrev pub went_offline : ModeOutcome
went_offline = record { mode = VerificationMode.offline; deferred = none }

abbrev pub not_attempted : CliError → ModeOutcome
not_attempted error = record { mode = VerificationMode.offline; deferred = some error }

abbrev pub went_online : ModeOutcome
went_online = record { mode = VerificationMode.online; deferred = none }

-- What the network pass runs on.
pub record Network : Type 1 where
  pub hex_bytes : HexBytes
  pub services : Services
  pub moments : ℕ → Moment
  pub session : Session
  pub build_runtime : Result CliError (Unit {0})

-- `settle_single`: the receipt as the network pass leaves it, and how the pass went.
unfoldable pub settle_single :
    VerifyArgs → Host → Network → SingleVerificationResult → SingleVerificationResult × ModeOutcome
settle_single args host net r =
    elim (determine_mode_for_receipt args host (receipt_requires_network r.anchor_facts)) [
      | err error ↦ (r, not_attempted error)
      | ok VerificationMode.offline ↦ (r, went_offline)
      | ok VerificationMode.online ↦ elim net.build_runtime [
        | err error ↦ (r, not_attempted error)
        | ok _ ↦ (
          (verify_anchors_online net.hex_bytes net.services net.moments r net.session).0,
          went_online,
        )
      ]
    ]

unfoldable pub invalid_error :
    Rendering
    → VerifyArgs
    → SingleVerificationResult
    → ReceiptVerdict
    → Option ReasonCode
    → CliError
invalid_error render args r v (some ReasonCode.file_hash_mismatch) =
    CliError.file_hash_mismatch args.source
      (concat ("sha256:" ∷ render.hex_encode r.file_hash ∷ [])) r.receipt.payload_hash
invalid_error render args r v _ = CliError.verification_failed (invalid_detail v r)

-- `single_error` for the verdict of the receipt and its status.
unfoldable pub error_for :
    Rendering → VerifyArgs → SingleVerificationResult → ReceiptVerdict → Status → Option CliError
unfolding invalid_error
error_for render args r v Status.valid = none
error_for render args r v Status.error = some (CliError.batch_items_unprocessable 1 1)
error_for render args r v Status.untrusted =
    some
      (CliError.trust_not_established (untrusted_headline v) (reason_str v) (trust_hint render r))
error_for render args r v Status.invalid = some (invalid_error render args r v v.reason_code)

unfoldable pub single_error : Rendering → VerifyArgs → SingleVerificationResult → Option CliError
unfolding error_for
single_error render args r = error_for render args r (verdict r) (verdict r).status

-- The last `match` of both commands.
abbrev pub ended : Option CliError → Result CliError (Unit {0})
ended none = ok tt
ended (some error) = err error

-- `execute_single` for what `verify_single` returned and what the printing of a result returns.
unfoldable pub execute_single :
    Rendering
    → (SingleVerificationResult → VerificationMode → Result CliError (Unit {0}))
    → VerifyArgs
    → Host
    → Network
    → Result CliError SingleVerificationResult
    → Result CliError (Unit {0})
execute_single render print_result args host net verified = do
  r ← verified
  let settled = settle_single args host net r
  _ ← print_result settled.0 settled.1.mode
  ended (or_else (single_error render args settled.0) settled.1.deferred)

-- The exit code of src/main.rs `run` after a command.
unfoldable pub run : Result CliError (Unit {0}) → ExitCode
unfolding error_exit_code
run (ok _) = ExitCode.valid
run (err e) = error_exit_code e
