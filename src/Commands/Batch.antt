-- ===== src/Commands/Batch.antt =====
-- src/commands/verify.rs: the verification of a batch, from its first verdict to the exit code.
use atl_cli.Prelude.{
  String, Bool, false, Option, none, some, or_else, List, [], ◌∷◌, any, concat, show, Result, ok,
  err, ◌>>=◌,
}
use atl_cli.Error.{CliError}
use atl_cli.Cli.{VerifyArgs, VerificationMode, Host, determine_mode_for_receipt}
use atl_cli.Verify.Verdict.{ReasonCode, Status, ReceiptVerdict}
use atl_cli.Verify.Online.{Session, receipt_requires_network, verify_anchors_online}
use atl_cli.Verify.Batch.{
  BatchItemResult, BatchVerificationResult, batch_verdict, total_count, reclassify,
}
use atl_cli.Commands.Wording.{untrusted_headline, reason_str}
use atl_cli.Commands.Single.{ModeOutcome, went_offline, went_online, not_attempted, Network, ended}

unfoldable pub item_requires_network : BatchItemResult → Bool
unfolding receipt_requires_network
item_requires_network (BatchItemResult.valid r) = receipt_requires_network r.anchor_facts
item_requires_network (BatchItemResult.untrusted r) = receipt_requires_network r.anchor_facts
item_requires_network (BatchItemResult.invalid r) = receipt_requires_network r.anchor_facts
item_requires_network _ = false

unfoldable pub online_item : Network → BatchItemResult → Session → BatchItemResult × Session
unfolding verify_anchors_online
online_item net (BatchItemResult.valid r) session =
    let passed = verify_anchors_online net.hex_bytes net.services net.moments r session in
    (BatchItemResult.valid passed.0, passed.1)
online_item net (BatchItemResult.untrusted r) session =
    let passed = verify_anchors_online net.hex_bytes net.services net.moments r session in
    (BatchItemResult.untrusted passed.0, passed.1)
online_item net (BatchItemResult.invalid r) session =
    let passed = verify_anchors_online net.hex_bytes net.services net.moments r session in
    (BatchItemResult.invalid passed.0, passed.1)
online_item net item session = (item, session)

-- The loop over `result.items`.
unfoldable pub online_items : Network → List BatchItemResult → Session → List BatchItemResult
unfolding online_item
online_items net [] session = []
online_items net (item ∷ items) session =
    let passed = online_item net item session in passed.0 ∷ online_items net items passed.1

-- The pass over a batch, once the mode is settled, and the runtime asked for.
unfoldable pub settle_in :
    Network
    → BatchVerificationResult
    → Result CliError VerificationMode
    → Result CliError (Unit {0})
    → BatchVerificationResult × ModeOutcome
settle_in net b (err error) runtime = (b, not_attempted error)
settle_in net b (ok VerificationMode.offline) runtime = (b, went_offline)
settle_in net b (ok VerificationMode.online) (err error) = (b, not_attempted error)
settle_in net b (ok VerificationMode.online) (ok _) =
    (reclassify (record b { items = online_items net b.items net.session }), went_online)

unfoldable pub settle_batch :
    VerifyArgs → Host → Network → BatchVerificationResult → BatchVerificationResult × ModeOutcome
unfolding settle_in item_requires_network
settle_batch args host net b =
    settle_in net b (determine_mode_for_receipt args host (any item_requires_network b.items))
      net.build_runtime

batch_detail : BatchVerificationResult → Option ReasonCode → String
batch_detail b (some ReasonCode.batch_items_unmatched) = concat (
    show b.unmatched_count
    ∷ " of "
    ∷ show (total_count b)
    ∷ " named files were never verified: a source file with no matching receipt, or a receipt "
    ∷ "with no matching source file. The convention is <name> alongside <name>.atl"
    ∷ [])
batch_detail b (some ReasonCode.batch_nothing_verified) =
    concat
      ("none of the " ∷ show (total_count b) ∷ " named files reached a verification result" ∷ [])
batch_detail b _ = concat (
    show b.untrusted_count
    ∷ " of "
    ∷ show (total_count b)
    ∷ " receipts verified cryptographically but reached no configured trust root; supply it "
    ∷ "with --tsa-trust-store (and --tsa-intermediates if a chain is incomplete)"
    ∷ [])

-- `batch_error` for the verdict of the batch and its status.
unfoldable pub batch_error_for : BatchVerificationResult → ReceiptVerdict → Status → Option CliError
unfolding batch_detail
batch_error_for b v Status.valid = none
batch_error_for b v Status.untrusted = some (
    CliError.trust_not_established (untrusted_headline v) (reason_str v)
      (batch_detail b v.reason_code))
batch_error_for b v Status.error =
    some (CliError.batch_items_unprocessable b.error_count (total_count b))
batch_error_for b v Status.invalid =
    some (CliError.batch_verification_failed b.valid_count b.invalid_count b.error_count)

unfoldable pub batch_error : BatchVerificationResult → Option CliError
unfolding batch_error_for
batch_error b = batch_error_for b (batch_verdict b) (batch_verdict b).status

-- `execute_batch` for what `verify_batch` returned and what the printing of a result returns.
unfoldable pub execute_batch :
    (BatchVerificationResult → VerificationMode → Result CliError (Unit {0}))
    → VerifyArgs
    → Host
    → Network
    → Result CliError BatchVerificationResult
    → Result CliError (Unit {0})
execute_batch print_result args host net verified = do
  b ← verified
  let settled = settle_batch args host net b
  _ ← print_result settled.0 settled.1.mode
  ended (or_else (batch_error settled.0) settled.1.deferred)
