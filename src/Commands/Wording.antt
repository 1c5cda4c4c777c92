-- ===== src/Commands/Wording.antt =====
-- src/commands/verify.rs and src/output/human.rs: the words of an error about a verdict.
use atl_cli.Prelude.{
  String, str_eq, Option, none, some, List, [], ◌∷◌, ◌++◌, find_map, any, is_empty, join, concat,
  if◌then◌else◌, Bool, true, false,
}
use atl_cli.Core.{TerminalAnchor}
use atl_cli.Verify.Verdict.{ReasonCode, ReceiptVerdict}
use atl_cli.Verify.Verdict.Codes.{as_str}
use atl_cli.Verify.Anchor.{AnchorVerdict, AnchorDetails, AnchorVerificationResult}
use atl_cli.Verify.Anchor.Prose.{Rendering}
use atl_cli.Verify.Single.{SingleVerificationResult, verdict, presents_no_anchors}

anchor_failed : String
anchor_failed =
    "NOT VERIFIED: an anchor was checked and failed (the receipt itself is not disproved)"

not_completed : String
not_completed = "NOT VERIFIED: the check could not be completed (nothing was refuted)"

no_header : String
no_header = "NOT VERIFIED: no block header was obtained for the Bitcoin anchor"

headline_of : ReasonCode → String
unfolding anchor_failed not_completed no_header
headline_of ReasonCode.receipt_unanchored = "NOT VERIFIED: no anchor was verified"
headline_of ReasonCode.anchor_quorum_unmet =
    "NOT VERIFIED: not every anchor the receipt presents was verified"
headline_of ReasonCode.batch_items_unmatched = "NOT VERIFIED: some named files were never checked"
headline_of ReasonCode.batch_nothing_verified = "NOT VERIFIED: nothing in this batch was checked"
headline_of ReasonCode.tsa_chain_indeterminate = not_completed
headline_of ReasonCode.cms_signature_indeterminate = not_completed
headline_of ReasonCode.tsa_imprint_indeterminate = not_completed
headline_of ReasonCode.tsa_timestamping_eku_not_checked = not_completed
headline_of ReasonCode.bitcoin_block_not_checked = no_header
headline_of ReasonCode.bitcoin_block_unavailable = no_header
headline_of ReasonCode.bitcoin_providers_disagree =
    "NOT VERIFIED: the block-explorer APIs contradict each other (your receipt is not implicated)"
headline_of ReasonCode.bitcoin_single_source_only =
    "NOT VERIFIED: only one block-explorer API answered, so its report is uncorroborated"
headline_of ReasonCode.bitcoin_claimed_time_unreadable = concat (
    "NOT VERIFIED: the receipt's own Bitcoin block time could not be read, so it was "
    ∷ "not compared" ∷ [])
headline_of ReasonCode.anchor_target_invalid = anchor_failed
headline_of ReasonCode.anchor_hash_malformed = anchor_failed
headline_of ReasonCode.anchor_target_hash_mismatch = anchor_failed
headline_of ReasonCode.super_proof_missing = anchor_failed
headline_of ReasonCode.tsa_token_unparsable = anchor_failed
headline_of ReasonCode.tsa_imprint_mismatch = anchor_failed
headline_of ReasonCode.tsa_imprint_malformed = anchor_failed
headline_of ReasonCode.cms_signature_invalid = anchor_failed
headline_of ReasonCode.tsa_timestamping_eku_invalid = anchor_failed
headline_of ReasonCode.tsa_chain_invalid_at_gen_time = anchor_failed
headline_of ReasonCode.bitcoin_ots_proof_invalid = anchor_failed
headline_of ReasonCode.bitcoin_merkle_root_mismatch = anchor_failed
headline_of ReasonCode.bitcoin_claimed_height_contradicts_proof = anchor_failed
headline_of ReasonCode.bitcoin_claimed_time_contradicts_block = anchor_failed
headline_of ReasonCode.receipt_check_incomplete =
    "NOT VERIFIED: a check on the receipt could not be completed (nothing was refuted)"
headline_of ReasonCode.anchor_type_unsupported =
    "NOT VERIFIED: this build cannot verify an anchor of that type"
headline_of _ = "NOT VERIFIED: trust root unavailable"

unfoldable pub untrusted_headline : ReceiptVerdict → String
unfolding headline_of
untrusted_headline v = elim v.reason_code [
  | none ↦ "NOT VERIFIED: trust root unavailable"
  | some code ↦ headline_of code
]

unfoldable pub reason_str : ReceiptVerdict → String
unfolding as_str
reason_str v = elim v.reason_code [ none ↦ "unspecified" | some code ↦ as_str code ]

-- `AnchorDetails::untrusted_root_fingerprint`.
untrusted_root_fingerprint : Rendering → AnchorDetails → Option String
untrusted_root_fingerprint render (AnchorDetails.rfc3161 d) = elim d.terminal_anchor [
  | some (TerminalAnchor.assumed fingerprint _) ↦ some (render.hex_encode fingerprint)
  | _ ↦ none
]
untrusted_root_fingerprint render _ = none

error_or : AnchorVerificationResult → String → String
error_or a words = elim a.error [ none ↦ words | some error ↦ error ]

header_hint : String
header_hint = "no block header was obtained for this anchor; re-run with network access"

-- The hint about one anchor that is untrusted with a reason.
hint_of : Rendering → AnchorVerificationResult → ReasonCode → String
unfolding untrusted_root_fingerprint error_or header_hint as_str
hint_of render a ReasonCode.tsa_root_not_trusted =
    elim (untrusted_root_fingerprint render a.details) [
      | none ↦ "pass the TSA root certificate with --tsa-trust-store"
      | some fingerprint ↦ concat (
          "pass the certificate with SHA-256 fingerprint sha256:" ∷ fingerprint
          ∷ " to --tsa-trust-store" ∷ [])
    ]
hint_of render a ReasonCode.tsa_chain_incomplete = concat (
    "the token's certificate chain is missing an issuer; pass it with "
    ∷ "--tsa-intermediates, and the root it leads to with --tsa-trust-store" ∷ [])
hint_of render a ReasonCode.tsa_timestamping_eku_not_checked =
    error_or a
      "no signer certificate could be established, so its timestamping EKU was never examined"
hint_of render a ReasonCode.tsa_imprint_indeterminate =
    error_or a "the token's messageImprint could not be compared; nothing was refuted"
hint_of render a ReasonCode.cms_signature_indeterminate =
    error_or a "the token's CMS signature could not be checked; nothing was refuted"
hint_of render a ReasonCode.tsa_chain_indeterminate =
    error_or a "the token's certificate chain could not be checked; nothing was refuted"
hint_of render a ReasonCode.bitcoin_block_not_checked = header_hint
hint_of render a ReasonCode.bitcoin_block_unavailable = header_hint
hint_of render a ReasonCode.bitcoin_providers_disagree = concat (
    "the block-explorer APIs returned different headers for this block, so none is "
    ∷ "established and nothing was compared; your receipt is not implicated, and no "
    ∷ "trust material affects this" ∷ [])
hint_of render a ReasonCode.bitcoin_single_source_only = concat (
    "only one block-explorer API answered, so its report is uncorroborated and the "
    ∷ "OTS proof was not compared against it; re-run when more than one provider is " ∷ "reachable"
    ∷ [])
hint_of render a other = concat ("missing trust material (" ∷ as_str other ∷ ")" ∷ [])

-- The loop over the anchors, from the hints that are already there.
hints_from : Rendering → List String → List AnchorVerificationResult → List String
unfolding hint_of
hints_from render hints [] = hints
hints_from render hints (a ∷ rest) = elim a.verdict [
  | AnchorVerdict.untrusted code ↦
      let hint = hint_of render a code in
      hints_from render (if any (str_eq hint) hints then hints else hints ++ (hint ∷ [])) rest
  | _ ↦ hints_from render hints rest
]

is_quorum_unmet : Option ReasonCode → Bool
is_quorum_unmet (some ReasonCode.anchor_quorum_unmet) = true
is_quorum_unmet _ = false

unfoldable pub trust_hint : Rendering → SingleVerificationResult → String
unfolding hints_from is_quorum_unmet verdict presents_no_anchors
trust_hint render r =
    let hints = hints_from render [] r.anchor_results in
    if is_quorum_unmet (verdict r).reason_code
    then concat (
        "at least one anchor IS verified, so ATL v2.0 §5.5's floor is met; what is unmet is this "
        ∷ "tool's default profile, which asks that every anchor the receipt presents be verified. "
        ∷ "Re-run with --allow-single-anchor for §5.5's own answer" ∷ [])
    else if presents_no_anchors r
    then concat (
        "the receipt as it reached this tool carries no anchors at all (Receipt-Lite), so nothing "
        ∷ "external attests to when this existed. ATL v2.0 §5.5: a receipt without any verified "
        ∷ "anchors should be treated as untrustworthy. Request an anchored receipt (TSA and/or "
        ∷ "Bitcoin); no trust material supplied here can substitute for one" ∷ [])
    else if is_empty hints
    then "no anchor reached a configured trust root"
    else join "; " hints

-- The words of the first refuted anchor that carries the code of the verdict.
refuted_with : Option ReasonCode → AnchorVerificationResult → Option AnchorVerificationResult
unfolding as_str
refuted_with none a = none
refuted_with (some reason) a = elim a.verdict [
  | AnchorVerdict.invalid code ↦ if str_eq (as_str code) (as_str reason) then some a else none
  | _ ↦ none
]

unfoldable pub invalid_detail : ReceiptVerdict → SingleVerificationResult → String
unfolding reason_str refuted_with
invalid_detail v r =
    let code = reason_str v in
    elim (find_map (refuted_with v.reason_code) r.anchor_results) [
      | none ↦ code
      | some a ↦ elim a.error [ none ↦ code | some detail ↦ concat (code ∷ ": " ∷ detail ∷ []) ]
    ]
