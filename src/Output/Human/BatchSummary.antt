-- ===== src/Output/Human/BatchSummary.antt =====
-- src/output/human.rs: the summary of a batch, and what it says of the history of the log.
use atl_cli.Prelude.{
  ℕ, suc, String, Bool, true, false, not, ◌&&◌, Option, none, some, List, [], ◌∷◌, ◌++◌, any,
  length, concat, show, ltb, ◌==◌, if◌then◌else◌,
}
use atl_cli.Error.{CliError}
use atl_cli.Verify.Verdict.{Status}
use atl_cli.Verify.Policy.{policy_str, requirement, accepted_with_gaps}
use atl_cli.Verify.Single.{assessment}
use atl_cli.Verify.Consistency.{ConsistencyResult, consistent, checked}
use atl_cli.Verify.Batch.{BatchItemResult, BatchVerificationResult, batch_verdict, total_count}
use atl_cli.Output.Human.{Style, Terminal, status_text, pending_text}
use atl_cli.Output.Human.Assessment.{receipt_status_lines}
use atl_cli.Output.Human.BatchPage.{
  single_log_instance, proof_section, mark, count_text, checkmark_line, cross_section,
  batch_item_lines, failure_lines,
}

has_gaps : BatchItemResult → Bool
has_gaps (BatchItemResult.valid r) = accepted_with_gaps (assessment r)
has_gaps _ = false

-- `BatchVerificationResult::accepted_with_gaps`.
unfoldable pub batch_has_gaps : BatchVerificationResult → Bool
unfolding has_gaps
batch_has_gaps b = any has_gaps b.items

is_valid_status : Status → Bool
is_valid_status Status.valid = true
is_valid_status _ = false

plural : ℕ → String
plural n = if n == 1 then "" else "s"

module _ (terminal : Terminal) (color : Bool) where
  headline : ConsistencyResult → String
  headline c =
      if single_log_instance c
      then concat ("VERIFIED (" ∷ show c.receipt_count ∷ " receipts)" ∷ [])
      else concat (
          "VERIFIED ("
          ∷ show c.receipt_count
          ∷ " receipts across "
          ∷ show c.log_instance_count
          ∷ " log instances)"
          ∷ [])

  instance_line : ConsistencyResult → String
  instance_line c =
      checkmark_line terminal color
        (if single_log_instance c
          then "Same log instance (genesis_super_root match)"
          else concat
              (show c.log_instance_count ∷ " distinct log instances; each checked on its own" ∷ []))
        true

  -- The part of `print_consistency` for a history that was not modified.
  unfoldable pub verified_lines :
      List BatchItemResult → (any_item_accepted : Bool) → ConsistencyResult → List String
  unfolding headline instance_line plural
  verified_lines items any_item_accepted c =
      concat ("Log Consistency: " ∷ status_text terminal (headline c) true color ∷ [])
      ∷ ((if not any_item_accepted
            then concat (
                "  (log history only -- no receipt in this batch was accepted; see the "
                ∷ "status above)" ∷ [])
              ∷ []
            else [])
          ++ instance_line c
            ∷ checkmark_line terminal color
                (concat (
                  "Log history between them was not modified ("
                  ∷ show (length c.cross_results)
                  ∷ " pair"
                  ∷ plural (length c.cross_results)
                  ∷ " compared)"
                  ∷ []))
                true
            ∷ (proof_section items c.participants
                ++ (cross_section terminal color none c.cross_results
                    ++ ""
                      ∷ concat (
                          "    "
                          ∷ mark terminal color Style.green "→"
                          ∷ " "
                          ∷ (if single_log_instance c
                              then concat (
                                  "All provided receipts belong to the same log instance, and the log history "
                                  ∷ "between them was not modified" ∷ [])
                              else "Within each log instance, the log history between its receipts was not modified")
                          ∷ [])
                      ∷ concat (
                          "      (a Split-View attack is not ruled out here; per the spec the defence "
                          ∷ "against it is a verified external anchor)" ∷ [])
                      ∷ [])))

  unchecked_lines : ConsistencyResult → List String
  unfolding plural
  unchecked_lines c =
      concat (
        "Log Consistency: "
        ∷ pending_text terminal
            (concat (
              "NOT CHECKED ("
              ∷ show c.receipt_count
              ∷ " receipts, "
              ∷ show c.log_instance_count
              ∷ " log instance"
              ∷ plural c.log_instance_count
              ∷ ": no two from the same one)"
              ∷ []))
            color
        ∷ [])
      ∷ ""
      ∷ []

  -- The lines of `print_consistency`.
  unfoldable pub consistency_lines :
      List BatchItemResult → (any_item_accepted : Bool) → Option ConsistencyResult → List String
  unfolding unchecked_lines verified_lines
  consistency_lines items any_item_accepted none = []
  consistency_lines items any_item_accepted (some c) =
      if not (checked c)
      then unchecked_lines c
      else if consistent c
      then verified_lines items any_item_accepted c ++ "" ∷ []
      else failure_lines terminal color items c ++ "" ∷ []

  items_lines : (display_error : CliError → String) → (i : ℕ) → List BatchItemResult → List String
  items_lines display_error i [] = []
  items_lines display_error i (item ∷ items) =
      batch_item_lines terminal color display_error (suc i) item
      ++ items_lines display_error (suc i) items

  overall_lines : BatchVerificationResult → List String
  unfolding batch_has_gaps is_valid_status
  overall_lines b =
      if is_valid_status (batch_verdict b).status && batch_has_gaps b
      then concat (
          "Overall: "
          ∷ status_text terminal
              (concat (
                "VALID under policy '"
                ∷ policy_str b.policy
                ∷ "' (some anchors were not resolved -- see the rows above)"
                ∷ []))
              true color
          ∷ [])
        ∷ []
      else receipt_status_lines terminal "Overall: " (batch_verdict b) none color

  count_line : (label : String) → (count : ℕ) → (is_good : Bool) → String
  count_line label count is_good = concat (label ∷ count_text terminal color count is_good ∷ [])

  -- The lines of `print_batch_result` of the human output.
  unfoldable pub batch_result_lines :
      (display_error : CliError → String) → BatchVerificationResult → List String
  unfolding consistency_lines items_lines overall_lines count_line
  batch_result_lines display_error b =
      "Batch Verification Summary"
      ∷ "=========================="
      ∷ ""
      ∷ concat ("Files: " ∷ show (total_count b) ∷ " total" ∷ [])
      ∷ concat ("Policy: " ∷ policy_str b.policy ∷ " — " ∷ requirement b.policy ∷ [])
      ∷ ""
      ∷ "Results:"
      ∷ count_line "  Valid:      " b.valid_count (ltb 0 b.valid_count)
      ∷ count_line "  Unanchored: " b.unanchored_count (b.unanchored_count == 0)
      ∷ count_line "  Untrusted:  " b.untrusted_count (b.untrusted_count == 0)
      ∷ count_line "  Invalid:    " b.invalid_count (b.invalid_count == 0)
      ∷ count_line "  Errors:     " b.error_count (b.error_count == 0)
      ∷ concat ("  Unmatched:  " ∷ show b.unmatched_count ∷ [])
      ∷ ""
      ∷ (consistency_lines b.items (ltb 0 b.valid_count) b.consistency
          ++ "Individual Results:"
            ∷ "------------------"
            ∷ ""
            ∷ (items_lines display_error 0 b.items ++ overall_lines b))
