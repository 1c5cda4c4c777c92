-- ===== src/Output/Human/Page.antt =====
-- src/output/human.rs: the page about one receipt.
use atl_cli.Prelude.{
  String, Bool, true, false, not, some, List, [], ◌∷◌, ◌++◌, concat, show, ltb, if◌then◌else◌,
}
use atl_cli.Verify.Verdict.{Status}
use atl_cli.Verify.Policy.{TrustAssessment, refuted_anchors}
use atl_cli.Verify.Single.{
  SingleVerificationResult, verdict, assessment, proof_verdict, proofs_valid, presents_no_anchors,
}
use atl_cli.Output.Human.{status_text, pending_text}
use atl_cli.Output.Human.Assessment.{assessment_lines, receipt_status_lines, refuted_anchor_lines}
use atl_cli.Output.Human.Hints.{trust_hint_lines}
use atl_cli.Output.Human.Details.{Printer, anchor_section_lines}

module _ (p : Printer) (color : Bool) where
  -- `print_single_result` up to the comparison of the hashes.
  unfoldable pub page_head : SingleVerificationResult → List String
  page_head r =
      "Verification Result"
      ∷ "==================="
      ∷ ""
      ∷ concat ("File: " ∷ r.source_path ∷ [])
      ∷ concat ("Receipt: " ∷ r.receipt_path ∷ [])
      ∷ (receipt_status_lines p.terminal "Status: " (verdict r) (some (assessment r)) color
          ++ "File Hash:"
            ∷ concat ("  Computed: sha256:" ∷ p.hex_encode r.file_hash ∷ [])
            ∷ concat ("  Expected: " ∷ r.receipt.payload_hash ∷ [])
            ∷ concat (
                "  Match: "
                ∷ (if r.file_hash_valid
                    then status_text p.terminal "YES" true color
                    else status_text p.terminal "NO" false color)
                ∷ [])
            ∷ ""
            ∷ [])

  anchors_lines : TrustAssessment → List String
  anchors_lines t =
      if ltb 0 t.verified_anchors
      then concat (
          "  Anchors: "
          ∷ status_text p.terminal
              (concat (show t.verified_anchors ∷ " of " ∷ show t.total_anchors ∷ " verified" ∷ []))
              true color
          ∷ [])
        ∷ []
      else concat (
          "  Anchors: "
          ∷ pending_text p.terminal
              (concat ("NONE VERIFIED (" ∷ show t.total_anchors ∷ " presented)" ∷ [])) color
          ∷ [])
        ∷ ""
        ∷ []

  note_lines : Bool → List String
  note_lines false = []
  note_lines true =
      "Note: Receipt-Lite as it reached this tool. It proves internal consistency only,"
      ∷ "      not temporal existence: it carries no anchor, so nothing external"
      ∷ "      attests to when this existed. ATL v2.0 §5.5 requires at least one"
      ∷ "      VERIFIED anchor to establish trust, so this receipt is reported as"
      ∷ "      untrusted (exit 3), not accepted."
      ∷ "      Request an upgraded receipt with TSA or Bitcoin anchoring for independent verification."
      ∷ []

  -- The part of `print_single_result` on the receipt, before the trust assessment.
  unfoldable pub receipt_lines : SingleVerificationResult → List String
  unfolding anchors_lines note_lines anchor_section_lines
  receipt_lines r =
      "Receipt Verification:"
      ∷ concat ("  Entry ID: " ∷ r.receipt.entry_id ∷ [])
      ∷ concat (
          "  Inclusion Proof: "
          ∷ (if proofs_valid (proof_verdict r)
              then status_text p.terminal "VALID" true color
              else status_text p.terminal "INVALID" false color)
          ∷ [])
      ∷ (anchors_lines (assessment r)
          ++ (note_lines (presents_no_anchors r) ++ anchor_section_lines p color r.anchor_results))

  -- What would finish a check is said of untrusted receipts only.
  unfoldable pub hints_when : Status → SingleVerificationResult → List String
  hints_when Status.untrusted r = trust_hint_lines p.hex_encode r
  hints_when _ r = []

  -- What `print_single_result` prints behind the trust assessment.
  unfoldable pub page_tail : SingleVerificationResult → List String
  unfolding hints_when
  page_tail r =
      (if ltb 0 (refuted_anchors (assessment r)) then refuted_anchor_lines r.anchor_results else [])
      ++ hints_when (verdict r).status r

  -- The lines of `print_single_result`.
  unfoldable pub single_result_lines : SingleVerificationResult → List String
  unfolding page_head receipt_lines page_tail
  single_result_lines r =
      if not r.file_hash_valid
      then page_head r
        ++ "" ∷ "The file content does not match the receipt."
          ∷ "The file may have been modified since the receipt was issued." ∷ []
      else page_head r ++ (receipt_lines r ++ (assessment_lines (assessment r) ++ page_tail r))
