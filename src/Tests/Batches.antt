-- ===== src/Tests/Batches.antt =====
-- The theorems about batches and about the end of the process, at concrete inputs.
use atl_cli.Prelude.{
  true, false, List, [], ◌∷◌, ◌≡◌, ◌≢◌, ◌↔◌, inl, refl, arith, length, is_empty, All, ok,
}
use atl_cli.Cli.{determine_mode_for_receipt}
use atl_cli.Verify.Verdict.{Status, ExitCode, exit_code, is_valid}
use atl_cli.Verify.Policy.{AnchorPolicy, policy_satisfied}
use atl_cli.Verify.Single.{
  SingleVerificationResult, verdict, receipt_refutation, receipt_inability, assessment,
}
use atl_cli.Verify.Online.{receipt_requires_network}
use atl_cli.Verify.Consistency.{verify_consistency, sort_by_size}
use atl_cli.Verify.Consistency.Laws.{IsComparison, verify_consistency-Compares}
use atl_cli.Verify.Batch.{
  BatchVerificationResult, Pair, Leftovers, collect_batch, batch_verdict, inconsistent, reclassify,
}
use atl_cli.Verify.Batch.Counts.{
  IsCounted, is_valid_item, collect_batch-IsCounted, batch_verdict-valid_iff,
}
use atl_cli.Verify.Batch.Honest.{IsValidReceipt, collect_batch-IsHonest}
use atl_cli.Verify.Batch.Reclassify.{reclassify-collect_batch, reclassify-IsCounted}
use atl_cli.Commands.Single.{settle_single, execute_single, run}
use atl_cli.Commands.Batch.{settle_batch, batch_error, execute_batch}
use atl_cli.Commands.Laws.{execute_single-exit_code}
use atl_cli.Commands.BatchLaws.{execute_batch-success}
use atl_cli.Tests.Data.{anchored, later, wrong_file, cross, args, host, net, render}

abbrev two : List SingleVerificationResult
two = later ∷ anchored ∷ []

verify_consistency-Compares_example : IsComparison cross two (verify_consistency cross two)
verify_consistency-Compares_example = verify_consistency-Compares cross two

abbrev pairs : List Pair
pairs =
    record { source = "a"; receipt = "a.atl"; outcome = ok anchored }
    ∷ record { source = "b"; receipt = "b.atl"; outcome = ok later }
    ∷ []

abbrev no_leftovers : Leftovers
no_leftovers = record { unreadable = []; unmatched_sources = []; unmatched_receipts = [] }

abbrev batch : BatchVerificationResult
batch = collect_batch cross pairs no_leftovers AnchorPolicy.all_anchors

batch-IsCounted : IsCounted batch
batch-IsCounted = collect_batch-IsCounted cross pairs no_leftovers AnchorPolicy.all_anchors

batch_verdict-valid_iff_example : (is_valid (batch_verdict batch) ≡ true) ↔ (
    (is_empty batch.items ≡ false)
    × All (λ item. is_valid_item item ≡ true) batch.items
    × (inconsistent batch.consistency ≡ false))
batch_verdict-valid_iff_example = batch_verdict-valid_iff batch batch-IsCounted

reclassify-collect_batch_example :
    reclassify (collect_batch cross pairs no_leftovers AnchorPolicy.all_anchors)
    ≡ collect_batch cross pairs no_leftovers AnchorPolicy.all_anchors
reclassify-collect_batch_example =
    reclassify-collect_batch cross pairs no_leftovers AnchorPolicy.all_anchors

reclassify-IsCounted_example :
    IsCounted (reclassify batch) × (length (reclassify batch).items ≡ length batch.items)
reclassify-IsCounted_example = reclassify-IsCounted batch batch-IsCounted.unmatched

settled_invalid : (verdict (settle_single args host net wrong_file).0).status ≢ Status.valid
unfolding settle_single determine_mode_for_receipt receipt_requires_network verdict
    receipt_refutation
settled_invalid = ground arith

execute_single-exit_code_example :
    run (execute_single render (λ r mode. ok tt) args host net (ok wrong_file))
    ≡ exit_code (verdict (settle_single args host net wrong_file).0).status
execute_single-exit_code_example =
    execute_single-exit_code render (λ r mode. ok tt) args host net wrong_file refl
      (inl settled_invalid)

batch_succeeded : run (execute_batch (λ b mode. ok tt) args host net (ok batch)) ≡ ExitCode.valid
unfolding execute_batch settle_batch determine_mode_for_receipt receipt_requires_network
    collect_batch verdict receipt_refutation receipt_inability assessment policy_satisfied run
    batch_error batch_verdict sort_by_size
batch_succeeded = refl

execute_batch-success_example :
    (is_empty (settle_batch args host net batch).0.items ≡ false)
    × All IsValidReceipt (settle_batch args host net batch).0.items
    × (length (settle_batch args host net batch).0.items ≡ length batch.items)
    × (inconsistent (settle_batch args host net batch).0.consistency ≡ false)
execute_batch-success_example =
    execute_batch-success (λ b mode. ok tt) args host net batch batch-IsCounted
      (collect_batch-IsHonest cross pairs no_leftovers AnchorPolicy.all_anchors) batch_succeeded
