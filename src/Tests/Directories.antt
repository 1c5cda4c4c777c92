-- ===== src/Tests/Directories.antt =====
-- The theorems about directories and batches of files, at concrete inputs.
use atl_cli.Prelude.{
  ◌+◌, String, true, Option, none, some, [], ◌∷◌, ◌≡◌, ◌≢◌, refl, sym, ◌∙◌, length, All, Result, ok,
  Ensures-ok, concat,
}
use atl_cli.Error.{CliError}
use atl_cli.Files.{path_file_name, split_last}
use atl_cli.Cli.{VerifyArgs}
use atl_cli.Verify.Verdict.{Status, ExitCode, is_valid}
use atl_cli.Verify.File.{hash_file}
use atl_cli.Commands.Execute.{run_program}
use atl_cli.Commands.Batch.{batch_error, settle_batch}
use atl_cli.Commands.BatchEndToEnd.{IsVouchedBatch, run_program-IsVouchedBatch}
use atl_cli.Verify.Batch.{BatchVerificationResult, collect_batch, batch_verdict, total_count}
use atl_cli.Verify.Batch.Matching.{
  FileMatching, match_files_to_receipts, pair_files, classify_entry, source_name, walk_entries,
  has_atl_extension,
}
use atl_cli.Verify.Batch.Matching.Listing.{files_of, failures_of}
use atl_cli.Verify.Batch.Matching.Pairing.{IsNamed, IsMatching, pair_files-IsMatching}
use atl_cli.Verify.Batch.Matching.Walks.{IsNamedEntry, ListsNames, IsSurvey, walk_entries-accounts}
use atl_cli.Verify.Batch.Run.{verify_pair, verify_batch}
use atl_cli.Verify.Batch.Run.Complete.{
  IsComplete, valid_batch_is_complete, total_count-verify_batch,
}
use atl_cli.Verify.Single.{verdict, receipt_refutation, receipt_inability, assessment}
use atl_cli.Cli.{determine_mode_for_receipt}
use atl_cli.Verify.Online.{receipt_requires_network}
use atl_cli.Verify.Anchor.{from_facts, verdict_from_facts}
use atl_cli.Verify.Anchor.Prose.{offline_results, result_from_facts}
use atl_cli.Verify.File.{compare_hash, reading}
use atl_cli.Verify.Policy.{AnchorPolicy, policy_satisfied, from_allow_single_anchor}
use atl_cli.Tests.Data.{args, cross, render}
use atl_cli.Tests.Disk.{listing, disk, sha, core, world, command_line, read_byte}

abbrev batch_args : VerifyArgs
batch_args = record args { source = "d"; receipt = "d" }

run_batch : run_program world (ok (command_line batch_args)) ≡ ExitCode.valid
unfolding run_program classify_entry batch_error batch_verdict settle_batch source_name reading
    hash_file read_byte verdict receipt_refutation determine_mode_for_receipt
    receipt_requires_network from_facts compare_hash concat receipt_inability policy_satisfied
    assessment offline_results from_allow_single_anchor result_from_facts verdict_from_facts
run_batch = refl

named : (path : String) (o : Option String) → path_file_name path ≡ o → o ≢ none → IsNamed path
named path o e h = λ f. h (sym e ∙ f)

a_named : path_file_name "d/a" ≡ some "a"
unfolding path_file_name split_last
a_named = refl

receipt_named : path_file_name "d/a.atl" ≡ some "a.atl"
unfolding path_file_name split_last
receipt_named = refl

disk-ListsNames : ListsNames disk
disk-ListsNames dir entries h =
    Ensures-ok (All IsNamedEntry) {m = ok listing}
      (
        named "d/a" (some "a") a_named (λ e. cc),
        (named "d/a.atl" (some "a.atl") receipt_named (λ e. cc), tt),
      )
      h

run_program-IsVouchedBatch_example : IsVouchedBatch world batch_args
run_program-IsVouchedBatch_example =
    run_program-IsVouchedBatch world batch_args (command_line batch_args) disk-ListsNames refl refl
      run_batch

pair_files-IsMatching_example :
    IsMatching ("d/a" ∷ []) ("d/a.atl" ∷ []) (pair_files ("d/a" ∷ []) ("d/a.atl" ∷ []) [])
pair_files-IsMatching_example =
    pair_files-IsMatching ("d/a" ∷ []) ("d/a.atl" ∷ []) []
      (named "d/a" (some "a") a_named (λ e. cc), tt)

walk_entries-accounts_example :
    ((walk_entries disk "d" has_atl_extension listing).files
      ≡ files_of disk has_atl_extension listing)
    × ((walk_entries disk "d" has_atl_extension listing).unreadable ≡ failures_of disk "d" listing)
walk_entries-accounts_example = walk_entries-accounts disk "d" has_atl_extension listing

abbrev verified_batch : Result CliError BatchVerificationResult
verified_batch = verify_batch core disk sha render none AnchorPolicy.all_anchors cross "d" "d"

abbrev pub batch_a : BatchVerificationResult
batch_a =
    collect_batch cross
      (verify_pair core disk sha render none AnchorPolicy.all_anchors ("d/a", "d/a.atl") ∷ [])
      (record { unreadable = []; unmatched_sources = []; unmatched_receipts = [] })
      AnchorPolicy.all_anchors

verified_batch-ok : verified_batch ≡ ok batch_a
unfolding verify_batch reading classify_entry source_name hash_file
verified_batch-ok = refl

batch_a-valid : is_valid (batch_verdict batch_a) ≡ true
unfolding collect_batch batch_verdict verify_pair reading hash_file read_byte verdict
    receipt_refutation compare_hash concat receipt_inability policy_satisfied assessment
    offline_results result_from_facts verdict_from_facts
batch_a-valid = refl

valid_batch_is_complete_example :
    IsComplete core disk sha render none AnchorPolicy.all_anchors
      (λ r. (verdict r).status ≡ Status.valid)
      "d"
      "d"
valid_batch_is_complete_example =
    valid_batch_is_complete core disk sha render none AnchorPolicy.all_anchors cross "d" "d" batch_a
      disk-ListsNames verified_batch-ok batch_a-valid

total_count-verify_batch_example :
    (m : FileMatching) × (s : IsSurvey disk "d" "d" m) × (match_files_to_receipts disk "d" "d"
      ≡ ok m)
    × (total_count batch_a
        ≡ length s.sources.files
          + length m.unmatched_receipts
          + length s.sources.unreadable
          + length s.receipts.unreadable)
total_count-verify_batch_example =
    total_count-verify_batch core disk sha render none AnchorPolicy.all_anchors cross "d" "d"
      batch_a disk-ListsNames verified_batch-ok
