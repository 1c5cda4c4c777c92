-- ===== src/Commands/Laws.antt =====
-- How the verdict decides the exit code of the process (src/commands/verify.rs and src/main.rs).
use atl_cli.Prelude.{
  Option, none, some, or_else, ◌≡◌, ◌≢◌, ◌⊎◌, inl, inr, Result-cases, refl, arith, Result, ok, err,
}
use atl_cli.Error.{CliError, error_exit_code, error_exit_code-failure}
use atl_cli.Cli.{VerifyArgs, VerificationMode, Host}
use atl_cli.Verify.Verdict.{ReasonCode, Status, ReceiptVerdict, ExitCode, exit_code}
use atl_cli.Verify.Anchor.Prose.{Rendering}
use atl_cli.Verify.Single.{SingleVerificationResult, verdict}
use atl_cli.Verify.Batch.{BatchVerificationResult, batch_verdict}
use atl_cli.Commands.Single.{
  ModeOutcome, Network, settle_single, single_error, error_for, invalid_error, execute_single,
  ended, run,
}
use atl_cli.Commands.Batch.{settle_batch, batch_error, batch_error_for, execute_batch}

error_for-exit_code :
    (render : Rendering) (args : VerifyArgs) (r : SingleVerificationResult) (v : ReceiptVerdict)
    (status : Status)
    → run (ended (error_for render args r v status)) ≡ exit_code status
unfolding error_for run error_exit_code exit_code
error_for-exit_code render args r v Status.valid = refl
error_for-exit_code render args r v Status.untrusted = refl
error_for-exit_code render args r v Status.error = refl
error_for-exit_code render args r v Status.invalid = invalid_error-exit_code v.reason_code
  where
    invalid_error-exit_code :
        (reason : Option ReasonCode)
        → error_exit_code (invalid_error render args r v reason) ≡ ExitCode.invalid
    invalid_error-exit_code reason = ground arith

pub batch_error_for-exit_code :
    (b : BatchVerificationResult) (v : ReceiptVerdict) (status : Status)
    → run (ended (batch_error_for b v status)) ≡ exit_code status
unfolding batch_error_for run error_exit_code exit_code
batch_error_for-exit_code b v Status.valid = refl
batch_error_for-exit_code b v Status.untrusted = refl
batch_error_for-exit_code b v Status.error = refl
batch_error_for-exit_code b v Status.invalid = refl

-- An error of the verdict goes before one that the network pass left.
or_else-deferred :
    (o deferred : Option CliError) (status : Status)
    → run (ended o) ≡ exit_code status
    → (status ≢ Status.valid) ⊎ (deferred ≡ none)
    → run (ended (or_else o deferred)) ≡ exit_code status
unfolding run exit_code
or_else-deferred (some error) deferred status e h = e
or_else-deferred none deferred Status.valid e (inl h) = absurd (h refl)
or_else-deferred none deferred Status.valid e (inr h) = rw (h) refl
or_else-deferred none deferred Status.untrusted e h = cc
or_else-deferred none deferred Status.error e h = cc
or_else-deferred none deferred Status.invalid e h = cc

-- A receipt that was loaded, and printed after the network pass, ends the process with the exit code
-- of its status, unless it is valid and the pass left an error.
pub execute_single-exit_code :
    (render : Rendering)
    (print_result : SingleVerificationResult → VerificationMode → Result CliError (Unit {0}))
    (args : VerifyArgs) (host : Host) (net : Network) (r : SingleVerificationResult)
    → print_result (settle_single args host net r).0 (settle_single args host net r).1.mode ≡ ok tt
    → ((verdict (settle_single args host net r).0).status ≢ Status.valid)
      ⊎ ((settle_single args host net r).1.deferred ≡ none)
    → run (execute_single render print_result args host net (ok r))
      ≡ exit_code (verdict (settle_single args host net r).0).status
unfolding execute_single single_error
execute_single-exit_code render print_result args host net r p c =
    let settled : SingleVerificationResult = (settle_single args host net r).0 in
    rw (p) (
      or_else-deferred (single_error render args settled) (settle_single args host net r).1.deferred
        (verdict settled).status
        (error_for-exit_code render args settled (verdict settled) (verdict settled).status) c)

-- A batch that was collected, and printed after the network pass, ends the process with the exit code
-- of its status, unless it is valid and the pass left an error.
pub execute_batch-exit_code :
    (print_result : BatchVerificationResult → VerificationMode → Result CliError (Unit {0}))
    (args : VerifyArgs) (host : Host) (net : Network) (b : BatchVerificationResult)
    → print_result (settle_batch args host net b).0 (settle_batch args host net b).1.mode ≡ ok tt
    → ((batch_verdict (settle_batch args host net b).0).status ≢ Status.valid)
      ⊎ ((settle_batch args host net b).1.deferred ≡ none)
    → run (execute_batch print_result args host net (ok b))
      ≡ exit_code (batch_verdict (settle_batch args host net b).0).status
unfolding execute_batch batch_error
execute_batch-exit_code print_result args host net b p c =
    let settled : BatchVerificationResult = (settle_batch args host net b).0 in
    rw (p) (
      or_else-deferred (batch_error settled) (settle_batch args host net b).1.deferred
        (batch_verdict settled).status
        (batch_error_for-exit_code settled (batch_verdict settled) (batch_verdict settled).status)
        c)

pub success-or_else :
    (o deferred : Option CliError) (status : Status)
    → run (ended o) ≡ exit_code status
    → run (ended (or_else o deferred)) ≡ ExitCode.valid
    → (status ≡ Status.valid) × (deferred ≡ none)
unfolding run exit_code
success-or_else (some error) deferred status e h = absurd (error_exit_code-failure error h)
success-or_else none (some error) status e h = absurd (error_exit_code-failure error h)
success-or_else none none Status.valid e h = (refl, refl)
success-or_else none none Status.untrusted e h = cc
success-or_else none none Status.error e h = cc
success-or_else none none Status.invalid e h = cc

-- The process reports success only for a receipt that was loaded, is valid after the network pass, and
-- left no error behind.
pub execute_single-success :
    (render : Rendering)
    (print_result : SingleVerificationResult → VerificationMode → Result CliError (Unit {0}))
    (args : VerifyArgs) (host : Host) (net : Network)
    (outcome : Result CliError SingleVerificationResult)
    → run (execute_single render print_result args host net outcome) ≡ ExitCode.valid
    → (r : SingleVerificationResult) × (outcome ≡ ok r)
      × ((verdict (settle_single args host net r).0).status ≡ Status.valid)
      × ((settle_single args host net r).1.deferred ≡ none)
unfolding execute_single single_error run
execute_single-success render print_result args host net (err e) h =
    absurd (error_exit_code-failure e h)
execute_single-success render print_result args host net (ok r) h =
    elim (Result-cases (print_result settled deferred.mode)) [
      | inr (u, e) ↦
          let kept =
            success-or_else (single_error render args settled) deferred.deferred
              (verdict settled).status
              (error_for-exit_code render args settled (verdict settled) (verdict settled).status)
              (rw (e) at h) in
          (r, refl, kept.0, kept.1)
      | inl (failure, e) ↦ absurd (error_exit_code-failure failure (rw (e) at h))
    ]
  where
    settled : SingleVerificationResult
    settled = (settle_single args host net r).0

    deferred : ModeOutcome
    deferred = (settle_single args host net r).1
