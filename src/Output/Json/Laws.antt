-- ===== src/Output/Json/Laws.antt =====
-- What the JSON output (src/output/json.rs) may say of a receipt and of its anchors.
use atl_cli.Prelude.{
  ℕ, String, eq_iff, true, false, not, Option, none, some, List, [], ◌∷◌, ◌++◌, ◌≡◌, ◌≢◌, ◌↔◌, refl,
  ap, ◌∙◌, arith,
}
use atl_cli.Cli.{VerificationMode}
use atl_cli.Verify.Verdict.{ReasonCode, Status, ExitCode, exit_code}
use atl_cli.Verify.Verdict.Codes.{as_str, status_str}
use atl_cli.Verify.Anchor.{
  AnchorVerdict, AnchorDetails, AnchorVerificationResult, AnchorState, is_valid, reason_code, state,
  state_str, from_reason,
}
use atl_cli.Verify.Single.{SingleVerificationResult, verdict}
use atl_cli.Verify.Single.Verdicts.{verdict-counts}
use atl_cli.Output.Json.{Formats, format_timestamp_iso, ErrorJson}
use atl_cli.Output.Json.Anchor.{map_some, when, and_then, anchor_result_json, bitcoin_json}
use atl_cli.Output.Json.Single.{
  build_errors, detail_errors, build_single_result_json, errors_for, detail_json,
}

-- A verdict has a reason exactly if it is not `valid`.
abbrev IsReasoned : Option ReasonCode → Status → Type 0
IsReasoned reason status = (reason ≡ none) ↔ (status ≡ Status.valid)

verdict-IsReasoned :
    (r : SingleVerificationResult) → IsReasoned (verdict r).reason_code (verdict r).status
verdict-IsReasoned r = ground (arith, verdict-counts r)

pub status_str-valid : (s : Status) → (status_str s ≡ "valid") ↔ (s ≡ Status.valid)
unfolding status_str
status_str-valid Status.valid = ground arith
status_str-valid Status.untrusted = ground (arith, eq_iff "untrusted" "valid")
status_str-valid Status.error = ground (arith, eq_iff "error" "valid")
status_str-valid Status.invalid = ground (arith, eq_iff "invalid" "valid")

accepted :
    (reason : Option ReasonCode) (status : Status) (anchors : List AnchorVerificationResult)
    → IsReasoned reason status
    → ((status_str status ≡ "valid") ↔ (errors_for reason status anchors ≡ []))
      × ((map_some as_str reason ≡ none) ↔ (errors_for reason status anchors ≡ []))
      × ((exit_code status ≡ ExitCode.valid) ↔ (errors_for reason status anchors ≡ []))
unfolding errors_for exit_code
accepted none status anchors h = ground (arith, status_str-valid status)
accepted (some reason) status anchors h = ground (arith, status_str-valid status)

-- The document of a receipt names no error exactly if its status is the word `valid`, exactly if it has
-- no reason code, and exactly if the exit code of the verdict is 0.
pub single_json-accepted :
    (formats : Formats) (r : SingleVerificationResult) (mode : VerificationMode)
    → (((build_single_result_json formats r mode).status ≡ "valid")
        ↔ ((build_single_result_json formats r mode).errors ≡ []))
      × (((build_single_result_json formats r mode).reason_code ≡ none)
          ↔ ((build_single_result_json formats r mode).errors ≡ []))
      × ((exit_code (verdict r).status ≡ ExitCode.valid)
          ↔ ((build_single_result_json formats r mode).errors ≡ []))
unfolding build_single_result_json build_errors
single_json-accepted formats r mode =
    accepted (verdict r).reason_code (verdict r).status r.anchor_results (verdict-IsReasoned r)

detail_json-append :
    (o : Option ReasonCode) (message : Option String) (xs ys : List ErrorJson)
    → detail_json o message (xs ++ ys) ≡ detail_json o message xs ++ ys
unfolding detail_json
detail_json-append none message xs ys = refl
detail_json-append (some code) none xs ys = refl
detail_json-append (some code) (some message) xs ys = refl

pub detail_errors-append :
    (xs ys : List AnchorVerificationResult)
    → detail_errors (xs ++ ys) ≡ detail_errors xs ++ detail_errors ys
unfolding detail_errors
detail_errors-append [] ys = refl
detail_errors-append (x ∷ xs) ys =
    ap (detail_json (reason_code x.verdict) x.error) (detail_errors-append xs ys)
    ∙ detail_json-append (reason_code x.verdict) x.error (detail_errors xs) (detail_errors ys)

state_str-verified : (s : AnchorState) → (state_str s ≡ "verified") ↔ (s ≡ AnchorState.verified)
unfolding state_str
state_str-verified s = ground (
  arith,
  eq_iff "cryptographically_consistent" "verified",
  eq_iff "incomplete" "verified",
  eq_iff "not_checked" "verified",
  eq_iff "unavailable" "verified",
  eq_iff "uncorroborated" "verified",
  eq_iff "contested" "verified",
  eq_iff "unevaluable" "verified",
  eq_iff "refuted" "verified",
  eq_iff "unresolved" "verified",
)

from_reason-ne-verified : (c : ReasonCode) → from_reason c ≢ AnchorState.verified
unfolding from_reason
from_reason-ne-verified c = ground arith

-- The state of an anchor is the word `verified` exactly if its verdict is valid.
state-verified_iff : (v : AnchorVerdict) → (is_valid v ≡ true) ↔ (state_str (state v) ≡ "verified")
unfolding state is_valid
state-verified_iff AnchorVerdict.valid = ground (arith, state_str-verified AnchorState.verified)
state-verified_iff (AnchorVerdict.invalid c) =
    ground (arith, state_str-verified AnchorState.refuted)
state-verified_iff (AnchorVerdict.untrusted c) =
    ground (arith, state_str-verified (from_reason c), from_reason-ne-verified c)

-- The two times and the two places of a document, by the verdict on the anchor.
anchor_names :
    (formats : Formats) (v : AnchorVerdict) (nanos : Option ℕ) (d : AnchorDetails)
    → ((is_valid v ≡ false)
        → (when (is_valid v) nanos ≡ none)
          × (and_then (when (is_valid v) nanos) (format_timestamp_iso formats) ≡ none)
          × ((bitcoin_json formats (is_valid v) d).block_height ≡ none)
          × ((bitcoin_json formats (is_valid v) d).block_timestamp ≡ none))
      × ((is_valid v ≡ true)
          → (when (not (is_valid v)) nanos ≡ none)
            × (and_then (when (not (is_valid v)) nanos) (format_timestamp_iso formats) ≡ none)
            × ((bitcoin_json formats (is_valid v) d).proof_block_height ≡ none)
            × ((bitcoin_json formats (is_valid v) d).reported_block_timestamp ≡ none))
      × ((is_valid v ≡ true) ↔ (map_some as_str (reason_code v) ≡ none))
unfolding bitcoin_json reason_code is_valid
anchor_names formats AnchorVerdict.valid nanos d = ground arith
anchor_names formats (AnchorVerdict.untrusted c) nanos d = ground arith
anchor_names formats (AnchorVerdict.invalid c) nanos d = ground arith

-- Of an anchor that is not verified, the document has no time, height or block time under a plain name,
-- and of one that is, none under a name of a claim; it has a reason code exactly
-- if the anchor is not verified, and the state `verified` exactly if it is.
pub anchor_json-established :
    (formats : Formats) (a : AnchorVerificationResult)
    → (((anchor_result_json formats a).verified ≡ false)
        → ((anchor_result_json formats a).timestamp_nanos ≡ none)
          × ((anchor_result_json formats a).timestamp ≡ none)
          × ((anchor_result_json formats a).bitcoin.block_height ≡ none)
          × ((anchor_result_json formats a).bitcoin.block_timestamp ≡ none))
      × (((anchor_result_json formats a).verified ≡ true)
          → ((anchor_result_json formats a).claimed_timestamp_nanos ≡ none)
            × ((anchor_result_json formats a).claimed_timestamp ≡ none)
            × ((anchor_result_json formats a).bitcoin.proof_block_height ≡ none)
            × ((anchor_result_json formats a).bitcoin.reported_block_timestamp ≡ none))
      × (((anchor_result_json formats a).verified ≡ true)
          ↔ ((anchor_result_json formats a).reason_code ≡ none))
      × (((anchor_result_json formats a).verified ≡ true)
          ↔ ((anchor_result_json formats a).state ≡ "verified"))
unfolding anchor_result_json
anchor_json-established formats a =
    let (unverified, verified, reasoned) =
      anchor_names formats a.verdict a.timestamp_nanos a.details in
    (unverified, verified, reasoned, state-verified_iff a.verdict)
