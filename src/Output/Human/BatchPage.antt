-- ===== src/Output/Human/BatchPage.antt =====
-- src/output/human.rs: the page about a batch.
use atl_cli.Prelude.{
  ℕ, suc, ◌+◌, String, str_eq, Bool, true, false, not, Option, none, some, List, [], ◌∷◌, ◌++◌, map,
  find_map, concat, show, is_empty, ltb, leb, if◌then◌else◌,
}
use atl_cli.Core.{SuperProof}
use atl_cli.Error.{CliError}
use atl_cli.Files.{path_file_name}
use atl_cli.Verify.Verdict.{Status, ReasonCode}
use atl_cli.Verify.Verdict.Codes.{as_str}
use atl_cli.Verify.Anchor.{state_str}
use atl_cli.Verify.Policy.{UnresolvedAnchor, policy_str, accepted_with_gaps}
use atl_cli.Verify.Single.{SingleVerificationResult, verdict, assessment}
use atl_cli.Verify.Consistency.{CrossCheck, ConsistencyResult}
use atl_cli.Verify.Batch.{BatchItemResult}
use atl_cli.Commands.Wording.{untrusted_headline}
use atl_cli.Output.Human.{Style, Terminal, status_text, pending_text, format_anchor_type}

unfoldable pub single_log_instance : ConsistencyResult → Bool
single_log_instance c = leb c.log_instance_count 1

name_of : Option String → String
name_of none = ""
name_of (some name) = name

batch_reason_lines : Option ReasonCode → List String
batch_reason_lines none = []
batch_reason_lines (some reason) = concat ("    Reason: " ∷ as_str reason ∷ []) ∷ []

unfoldable pub unresolved_row : UnresolvedAnchor → String
unresolved_row a = concat (
    "    Unresolved anchor: "
    ∷ format_anchor_type a.anchor_type
    ∷ " — "
    ∷ state_str a.state
    ∷ " ("
    ∷ as_str a.reason
    ∷ ")"
    ∷ [])

-- `position` of the first check that proved no history.
unfoldable pub first_failure : (idx : ℕ) → List CrossCheck → Option ℕ
first_failure idx [] = none
first_failure idx (c ∷ checks) =
    let rest = first_failure (suc idx) checks in
    if not c.result.history_consistent then some idx else rest

is_after : ℕ → Option ℕ → Bool
is_after idx none = false
is_after idx (some failed) = ltb failed idx

-- The super root in the row of a participant.
accepted_super_root : String → BatchItemResult → Option SuperProof
accepted_super_root name item = elim item [
  | BatchItemResult.valid r ↦ root_of r
  | BatchItemResult.unanchored r ↦ root_of r
  | BatchItemResult.untrusted r ↦ root_of r
  | _ ↦ none
]
  where
    root_of : SingleVerificationResult → Option SuperProof
    root_of r = elim (path_file_name r.source_path) [
      | some file ↦ if str_eq file name then r.receipt.super_proof else none
      | none ↦ none
    ]

super_root_text : Option SuperProof → String
super_root_text none = "none"
super_root_text (some sp) = sp.super_root

unfoldable pub proof_rows :
    (idx : ℕ) → List BatchItemResult → (participants : List String) → List String
unfolding accepted_super_root super_root_text
proof_rows idx items [] = []
proof_rows idx items (name ∷ names) =
    concat (
      "    ["
      ∷ show (suc idx)
      ∷ "] "
      ∷ name
      ∷ "    registered at super_root "
      ∷ super_root_text (find_map (accepted_super_root name) items)
      ∷ [])
    ∷ proof_rows (suc idx) items names

unfoldable pub proof_section : List BatchItemResult → (participants : List String) → List String
unfolding proof_rows
proof_section items names = "" ∷ "  Proof:" ∷ proof_rows 0 items names

module _ (terminal : Terminal) (color : Bool) where
  unfoldable pub mark : Style → String → String
  mark style text = if color then terminal.paint style text else text

  unfoldable pub count_text : (count : ℕ) → (is_good : Bool) → String
  count_text count is_good =
      if color
      then (if is_good
          then terminal.paint Style.green (show count)
          else terminal.paint Style.red (show count))
      else show count

  unfoldable pub checkmark_line : (message : String) → (is_success : Bool) → String
  unfolding mark
  checkmark_line message true = concat ("  " ∷ mark Style.green "✓" ∷ " " ∷ message ∷ [])
  checkmark_line message false = concat ("  " ∷ mark Style.red "✗" ∷ " " ∷ message ∷ [])

  -- A row of the cross-checks.
  unfoldable pub cross_row : (idx : ℕ) → (first_failure_idx : Option ℕ) → CrossCheck → String
  unfolding is_after mark
  cross_row idx failed c =
      let pair =
        concat
          ("      [" ∷ show (suc c.from_index) ∷ "] → [" ∷ show (suc c.to_index) ∷ "]: " ∷ []) in
      if is_after idx failed
      then concat (pair ∷ mark Style.dimmed "(skipped)" ∷ [])
      else if c.result.history_consistent
      then concat (pair ∷ mark Style.green "✓" ∷ " same log instance" ∷ [])
      else concat
          (pair ∷ mark Style.red "✗" ∷ " history not proven  " ∷ mark Style.red "←" ∷ " BREAK" ∷ [])

  cross_rows : (idx : ℕ) → (first_failure_idx : Option ℕ) → List CrossCheck → List String
  unfolding cross_row
  cross_rows idx failed [] = []
  cross_rows idx failed (c ∷ checks) = cross_row idx failed c ∷ cross_rows (suc idx) failed checks

  unfoldable pub cross_section : (first_failure_idx : Option ℕ) → List CrossCheck → List String
  unfolding cross_rows
  cross_section failed [] = []
  cross_section failed (c ∷ checks) = "" ∷ "    Cross-checks:" ∷ cross_rows 0 failed (c ∷ checks)

  -- Where the log was tampered with, as `print_consistency` numbers it.
  unfoldable pub break_line : Option ℕ → String
  unfolding mark
  break_line (some fail_idx) = concat (
      "    "
      ∷ mark Style.red "→"
      ∷ " Log was tampered between ["
      ∷ show (fail_idx + 1)
      ∷ "] and ["
      ∷ show (fail_idx + 2)
      ∷ "]"
      ∷ [])
  break_line none =
      concat
        ("    " ∷ mark Style.red "→" ∷ " Log was tampered or forked between registrations" ∷ [])

  -- The row of a receipt.
  item_status : Status → SingleVerificationResult → String
  item_status Status.valid r =
      let t = assessment r in
      if accepted_with_gaps t
      then status_text terminal
          (concat (
            "VALID under policy '"
            ∷ policy_str t.policy
            ∷ "' ("
            ∷ show t.verified_anchors
            ∷ " of "
            ∷ show t.total_anchors
            ∷ " anchors verified)"
            ∷ []))
          true color
      else status_text terminal "VALID" true color
  item_status Status.untrusted r = pending_text terminal (untrusted_headline (verdict r)) color
  item_status Status.error r = status_text terminal "ERROR (could not be processed)" false color
  item_status Status.invalid r = status_text terminal "INVALID" false color

  name_line : (index : ℕ) → (path : String) → String
  unfolding name_of
  name_line index path = concat ("[" ∷ show index ∷ "] " ∷ name_of (path_file_name path) ∷ [])

  receipt_item_lines : (index : ℕ) → SingleVerificationResult → List String
  unfolding item_status name_line batch_reason_lines unresolved_row
  receipt_item_lines index r =
      name_line index r.source_path
      ∷ concat ("    Status: " ∷ item_status (verdict r).status r ∷ [])
      ∷ (batch_reason_lines (verdict r).reason_code
          ++ (map unresolved_row (assessment r).unresolved ++ "" ∷ []))

  -- The lines of `print_batch_item`.
  unfoldable pub batch_item_lines :
      (display_error : CliError → String) → (index : ℕ) → BatchItemResult → List String
  unfolding receipt_item_lines name_line mark
  batch_item_lines display_error index (BatchItemResult.valid r) = receipt_item_lines index r
  batch_item_lines display_error index (BatchItemResult.unanchored r) = receipt_item_lines index r
  batch_item_lines display_error index (BatchItemResult.untrusted r) = receipt_item_lines index r
  batch_item_lines display_error index (BatchItemResult.invalid r) = receipt_item_lines index r
  batch_item_lines display_error index (BatchItemResult.errored source receipt error) =
      name_line index source
      ∷ concat ("    Status: " ∷ status_text terminal "ERROR" false color ∷ [])
      ∷ concat ("    Error: " ∷ display_error error ∷ [])
      ∷ ""
      ∷ []
  batch_item_lines display_error index (BatchItemResult.no_receipt path) =
      name_line index path ∷ concat ("    Status: " ∷ mark Style.yellow "NO RECEIPT" ∷ []) ∷ "" ∷ []
  batch_item_lines display_error index (BatchItemResult.no_source path) =
      name_line index path
      ∷ concat ("    Status: " ∷ mark Style.yellow "NO SOURCE FILE" ∷ [])
      ∷ ""
      ∷ []

  -- The part of `print_consistency` for a history that was broken.
  unfoldable pub failure_lines : List BatchItemResult → ConsistencyResult → List String
  unfolding first_failure cross_section break_line checkmark_line proof_section
  failure_lines items c =
      let failed = first_failure 0 c.cross_results in
      concat ("Log Consistency: " ∷ status_text terminal "FAILED" false color ∷ [])
      ∷ checkmark_line "History inconsistent (cross-check failed)" false
      ∷ (if is_empty c.participants
          then []
          else proof_section items c.participants
            ++ (if is_empty c.cross_results
                then []
                else cross_section failed c.cross_results ++ "" ∷ break_line failed ∷ []))
