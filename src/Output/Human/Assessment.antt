-- ===== src/Output/Human/Assessment.antt =====
-- src/output/human.rs: the status line, the trust assessment and the refuted anchors.
use atl_cli.Prelude.{
  String, str_eq, Bool, true, false, Option, none, some, List, [], ◌∷◌, ◌++◌, map, length, concat,
  show, ◌==◌, if◌then◌else◌,
}
use atl_cli.Verify.Verdict.{ReasonCode, Status, ReceiptVerdict}
use atl_cli.Verify.Verdict.Codes.{as_str}
use atl_cli.Verify.Anchor.{
  AnchorVerdict, AnchorVerificationResult, state_str, rfc3161_trust_state, reason_code,
}
use atl_cli.Verify.Policy.{
  TrustAssessment, UnresolvedAnchor, policy_str, requirement, receipt_refuted, max_trust_profile,
  evidence_established, coverage_complete, accepted_with_gaps, refuted_anchors,
}
use atl_cli.Commands.Wording.{untrusted_headline}
use atl_cli.Output.Human.{Terminal, status_text, pending_text, format_anchor_type}

-- The entries of the coverage lists.
unfoldable pub unresolved_line : UnresolvedAnchor → String
unfolding format_anchor_type
unresolved_line a = concat (
    "    - "
    ∷ format_anchor_type a.anchor_type
    ∷ " not resolved: "
    ∷ state_str a.state
    ∷ " ("
    ∷ as_str a.reason
    ∷ ")"
    ∷ [])

unfoldable pub refuted_line : UnresolvedAnchor → String
unfolding format_anchor_type
refuted_line a = concat (
    "    - "
    ∷ format_anchor_type a.anchor_type
    ∷ " REFUTED: "
    ∷ state_str a.state
    ∷ " ("
    ∷ as_str a.reason
    ∷ ")"
    ∷ [])

unfoldable pub evidence_word : TrustAssessment → String
evidence_word t =
    if evidence_established t
    then "ESTABLISHED"
    else if receipt_refuted t
    then "REFUTED — see the Reason above"
    else "NOT ESTABLISHED"

unfoldable pub coverage_word : TrustAssessment → String
coverage_word t =
    if t.total_anchors == 0
    then "COMPLETE (no anchors were presented, so there is nothing to account for)"
    else if coverage_complete t
    then "COMPLETE (every anchor presented was carried to a sound result)"
    else "INCOMPLETE"

unfoldable pub profile_word : TrustAssessment → String
profile_word t =
    if max_trust_profile t
    then "YES"
    else if receipt_refuted t
    then "NO — this receipt was refuted"
    else "NO"

-- What `print_assessment` prints before the entries of the coverage, and behind them.
unfoldable pub assessment_head : TrustAssessment → List String
unfolding evidence_word coverage_word
assessment_head t =
    ""
    ∷ "Trust Assessment:"
    ∷ concat ("  Policy:   " ∷ policy_str t.policy ∷ " — " ∷ requirement t.policy ∷ [])
    ∷ concat (
        "  Evidence: "
        ∷ evidence_word t
        ∷ " ("
        ∷ show t.verified_anchors
        ∷ " of "
        ∷ show t.total_anchors
        ∷ " anchors verified; ATL v2.0 §5.5 needs at least 1)"
        ∷ [])
    ∷ concat ("  Coverage: " ∷ coverage_word t ∷ [])
    ∷ []

unfoldable pub profile_line : TrustAssessment → String
unfolding profile_word
profile_line t =
    concat ("  Receipt-Full profile (§5.6, both anchor types verified): " ∷ profile_word t ∷ [])

-- The lines of `print_assessment`.
unfoldable pub assessment_lines : TrustAssessment → List String
unfolding assessment_head unresolved_line refuted_line profile_line
assessment_lines t =
    assessment_head t
    ++ (map unresolved_line t.unresolved ++ (map refuted_line t.refuted ++ profile_line t ∷ []))

valid_word : Option TrustAssessment → String
valid_word none = "VALID"
valid_word (some t) =
    if accepted_with_gaps t
    then concat (
        "VALID under policy '"
        ∷ policy_str t.policy
        ∷ "' ("
        ∷ show t.verified_anchors
        ∷ " of "
        ∷ show t.total_anchors
        ∷ " anchors verified; "
        ∷ show (length t.unresolved)
        ∷ " unresolved, "
        ∷ show (refuted_anchors t)
        ∷ " REFUTED)"
        ∷ [])
    else "VALID"

reason_lines : Option ReasonCode → List String
reason_lines none = []
reason_lines (some reason) = concat ("Reason: " ∷ as_str reason ∷ []) ∷ []

module _ (terminal : Terminal) where
  -- The status word of `print_receipt_status`, by the status of the verdict.
  unfoldable pub status_word : Status → ReceiptVerdict → Option TrustAssessment → Bool → String
  unfolding valid_word
  status_word Status.valid v t color = status_text terminal (valid_word t) true color
  status_word Status.untrusted v t color = pending_text terminal (untrusted_headline v) color
  status_word Status.error v t color =
      status_text terminal "ERROR: some items could not be processed" false color
  status_word Status.invalid v t color = status_text terminal "INVALID" false color

  -- The lines of `print_receipt_status`, behind what was printed of the first one.
  unfoldable pub receipt_status_lines :
      (before : String) → ReceiptVerdict → Option TrustAssessment → Bool → List String
  unfolding status_word reason_lines
  receipt_status_lines before v t color =
      concat (before ∷ status_word v.status v t color ∷ []) ∷ reason_lines v.reason_code

detail_lines : Option String → List String
detail_lines none = []
detail_lines (some detail) = concat ("    Detail: " ∷ detail ∷ []) ∷ []

-- What `print_refuted_anchor_notice` says of an anchor, by its verdict.
unfoldable pub refuted_notice :
    AnchorVerdict → (kind : String) → (error : Option String) → List String
unfolding detail_lines format_anchor_type
refuted_notice (AnchorVerdict.invalid code) kind error =
    concat ("  - The " ∷ format_anchor_type kind ∷ " anchor: " ∷ as_str code ∷ "." ∷ [])
    ∷ "    It is not counted towards ATL v2.0 §5.5, and it does not disprove the receipt:"
    ∷ "    a receipt's anchors are signed and hashed by nothing, so anyone who handled"
    ∷ "    this receipt could have attached it. Treat it as a sign of interference and"
    ∷ "    ask the log operator for the receipt as issued."
    ∷ detail_lines error
refuted_notice _ kind error = []

refuted_notices : List AnchorVerificationResult → List String
unfolding refuted_notice
refuted_notices [] = []
refuted_notices (a ∷ anchors) =
    refuted_notice a.verdict a.anchor_type a.error ++ refuted_notices anchors

-- The lines of `print_refuted_anchor_notice`.
unfoldable pub refuted_anchor_lines : List AnchorVerificationResult → List String
unfolding refuted_notices
refuted_anchor_lines anchors =
    "" ∷ "An anchor attached to this receipt was checked and FAILED:" ∷ refuted_notices anchors

-- The status of `print_anchor_status` for an anchor without an RFC 3161 label of its own.
plain_status : Terminal → AnchorVerdict → Bool → String
plain_status terminal AnchorVerdict.valid color = status_text terminal "VALID" true color
plain_status terminal (AnchorVerdict.untrusted _) color =
    pending_text terminal "NOT CONFIRMED" color
plain_status terminal (AnchorVerdict.invalid _) color = status_text terminal "FAILED" false color

-- The status of `print_anchor_status`, by the RFC 3161 label.
labelled_status : Terminal → Option String → AnchorVerdict → Bool → String
unfolding plain_status
labelled_status terminal none v color = plain_status terminal v color
labelled_status terminal (some label) v color =
    if str_eq label "trusted"
    then status_text terminal "TRUSTED" true color
    else if str_eq label "assumed"
    then pending_text terminal "NOT TRUSTED (root not supplied)" color
    else if str_eq label "incomplete"
    then pending_text terminal "NOT TRUSTED (chain incomplete)" color
    else if str_eq label "indeterminate"
    then pending_text terminal "NOT TRUSTED (could not be checked)" color
    else plain_status terminal v color

anchor_reason_lines : Option ReasonCode → List String
anchor_reason_lines none = []
anchor_reason_lines (some code) = concat ("      Reason: " ∷ as_str code ∷ []) ∷ []

-- The lines of `print_anchor_status`, behind what was printed of the first one.
unfoldable pub anchor_status_lines :
    Terminal → (before : String) → AnchorVerificationResult → Bool → List String
unfolding labelled_status anchor_reason_lines
anchor_status_lines terminal before a color =
    concat (before ∷ labelled_status terminal (rfc3161_trust_state a) a.verdict color ∷ [])
    ∷ anchor_reason_lines (reason_code a.verdict)
