-- ===== src/Output/Json/Single.antt =====
-- src/output/json.rs: the document for one receipt.
use atl_cli.Prelude.{ℕ, String, Bool, Option, none, some, List, [], ◌∷◌, ltb, concat, if◌then◌else◌}
use atl_cli.Cli.{VerificationMode}
use atl_cli.Verify.Verdict.{ReasonCode, Status, ReceiptVerdict}
use atl_cli.Verify.Verdict.Codes.{as_str, status_str}
use atl_cli.Verify.Anchor.{AnchorVerificationResult, reason_code}
use atl_cli.Verify.Single.{
  SingleVerificationResult, ProofVerdict, SuperProofVerdict, verdict, assessment, proof_verdict,
  proofs_valid,
}
use atl_cli.Output.Json.{Formats, ErrorJson, error_json, sha256_text}
use atl_cli.Output.Json.Anchor.{
  AnchorVerificationJson, AssessmentJson, map_some, build_anchor_verification, build_assessment,
}

pub record AnchorStatusJson : Type 0 where
  pub state : String
  pub verified : ℕ
  pub presented : ℕ

pub record FileHashJson : Type 0 where
  pub computed : String
  pub expected : String
  pub is_match : Bool

pub record VerificationJson : Type 0 where
  pub entry_id : String
  pub inclusion_valid : Bool
  pub super_inclusion_valid : Option Bool
  pub super_consistency_valid : Option Bool
  pub proofs_valid : Bool

-- `VerificationJson::from_verdict`.
unfoldable pub from_verdict : (entry_id : String) → ProofVerdict → VerificationJson
from_verdict entry_id v = record {
  entry_id = entry_id;
  inclusion_valid = v.inclusion_valid;
  super_inclusion_valid = map_some (λ (s : SuperProofVerdict). s.inclusion_valid) v.super_proof;
  super_consistency_valid = map_some (λ (s : SuperProofVerdict). s.consistency_valid) v.super_proof;
  proofs_valid = proofs_valid v;
}

pub record SingleResultJson : Type 0 where
  pub status : String
  pub reason_code : Option String
  pub anchor_status : AnchorStatusJson
  pub mode : String
  pub source_file : String
  pub receipt_file : String
  pub file_hash : FileHashJson
  pub verification : Option VerificationJson
  pub anchor_verification : Option AnchorVerificationJson
  pub assessment : AssessmentJson
  pub errors : List ErrorJson

unfoldable pub mode_str : VerificationMode → String
mode_str VerificationMode.online = "online"
mode_str VerificationMode.offline = "offline"

-- The entry for an anchor with a reason and a message.
unfoldable pub detail_json : Option ReasonCode → Option String → List ErrorJson → List ErrorJson
detail_json (some code) (some message) rest =
    record { error_type = concat (as_str code ∷ "_detail" ∷ []); message = message } ∷ rest
detail_json _ _ rest = rest

-- The loop over the anchors.
unfoldable pub detail_errors : List AnchorVerificationResult → List ErrorJson
unfolding detail_json
detail_errors [] = []
detail_errors (a ∷ anchors) = detail_json (reason_code a.verdict) a.error (detail_errors anchors)

-- `build_errors`, for the parts of the verdict that it reads.
unfoldable pub errors_for :
    Option ReasonCode → Status → List AnchorVerificationResult → List ErrorJson
unfolding detail_errors
errors_for none status anchors = []
errors_for (some reason) Status.valid anchors = []
errors_for (some reason) status anchors = error_json reason ∷ detail_errors anchors

unfoldable pub build_errors : ReceiptVerdict → SingleVerificationResult → List ErrorJson
unfolding errors_for
build_errors v r = errors_for v.reason_code v.status r.anchor_results

unfoldable pub build_single_result_json :
    Formats → SingleVerificationResult → VerificationMode → SingleResultJson
unfolding build_errors mode_str from_verdict build_assessment build_anchor_verification
build_single_result_json formats r mode = record {
  status = status_str (verdict r).status;
  reason_code = map_some as_str (verdict r).reason_code;
  anchor_status = record {
    state = if ltb 0 (assessment r).verified_anchors then "verified" else "none_verified";
    verified = (assessment r).verified_anchors;
    presented = (assessment r).total_anchors;
  };
  mode = mode_str mode;
  source_file = r.source_path;
  receipt_file = r.receipt_path;
  file_hash = record {
    computed = sha256_text formats r.file_hash;
    expected = r.receipt.payload_hash;
    is_match = r.file_hash_valid;
  };
  verification =
      if r.file_hash_valid then some (from_verdict r.receipt.entry_id (proof_verdict r)) else none;
  anchor_verification = build_anchor_verification formats r.anchor_results;
  assessment = build_assessment (assessment r);
  errors = build_errors (verdict r) r;
}
