-- ===== src/Output/Json/Batch.antt =====
-- src/output/json.rs: the document for a batch.
use atl_cli.Prelude.{
  ℕ, ◌+◌, String, Bool, Option, none, some, List, [], ◌∷◌, map, count_if, get_elem?, if◌then◌else◌,
}
use atl_cli.Core.{SuperProof}
use atl_cli.Cli.{VerificationMode}
use atl_cli.Files.{path_file_name}
use atl_cli.Verify.Verdict.{ReasonCode, Status}
use atl_cli.Verify.Verdict.Codes.{as_str, status_str}
use atl_cli.Verify.Policy.{policy_str}
use atl_cli.Verify.Single.{SingleVerificationResult, verdict, assessment}
use atl_cli.Verify.Consistency.{CrossCheck, ConsistencyResult, consistent, checked}
use atl_cli.Verify.Batch.{BatchItemResult, BatchVerificationResult, batch_verdict, total_count}
use atl_cli.Output.Json.{Formats, ErrorJson, describe, error_json, sha256_text}
use atl_cli.Output.Json.Anchor.{AssessmentJson, build_assessment, map_some}
use atl_cli.Output.Json.Single.{mode_str}

pub record SummaryJson : Type 0 where
  pub total : ℕ
  pub valid : ℕ
  pub unanchored : ℕ
  pub untrusted : ℕ
  pub invalid : ℕ
  pub errors : ℕ
  pub unmatched : ℕ

pub record CrossCheckJson : Type 0 where
  pub from_index : ℕ
  pub to_index : ℕ
  pub from_file : String
  pub to_file : String
  pub same_log_instance : Bool

pub record ConsistencyJson : Type 0 where
  pub status : String
  pub log_instances : ℕ
  pub genesis_super_root : Option String
  pub receipt_count : ℕ
  pub cross_checks_passed : ℕ
  pub cross_checks : List CrossCheckJson

pub record BatchItemJson : Type 0 where
  pub file : String
  pub receipt : Option String
  pub status : String
  pub assessment : Option AssessmentJson
  pub reason_code : Option String
  pub file_hash_match : Option Bool
  pub super_root : Option String
  pub data_tree_index : Option ℕ
  pub error : Option String

pub record BatchResultJson : Type 0 where
  pub status : String
  pub reason_code : Option String
  pub mode : String
  pub policy_profile : String
  pub source_dir : String
  pub receipt_dir : String
  pub summary : SummaryJson
  pub consistency : Option ConsistencyJson
  pub items : List BatchItemJson
  pub errors : List ErrorJson

unwrap_or_empty : Option String → String
unwrap_or_empty none = ""
unwrap_or_empty (some s) = s

unfoldable pub file_name : String → String
unfolding unwrap_or_empty path_file_name
file_name path = unwrap_or_empty (path_file_name path)

-- The filter on the reason of a row, by the status of the verdict.
row_error : Option ReasonCode → Status → Option String
row_error reason Status.valid = none
row_error reason status = map_some describe reason

unfoldable pub batch_item_json : SingleVerificationResult → BatchItemJson
unfolding file_name row_error build_assessment
batch_item_json r = record {
  file = file_name r.source_path;
  receipt = some (file_name r.receipt_path);
  status = status_str (verdict r).status;
  assessment = some (build_assessment (assessment r));
  reason_code = map_some as_str (verdict r).reason_code;
  file_hash_match = some r.file_hash_valid;
  super_root = map_some (λ (sp : SuperProof). sp.super_root) r.receipt.super_proof;
  data_tree_index = map_some (λ (sp : SuperProof). sp.data_tree_index) r.receipt.super_proof;
  error = row_error (verdict r).reason_code (verdict r).status;
}

-- A row for a path that reached no verdict.
unfoldable pub bare_row :
    (path status : String) → ReasonCode → (error : Option String) → BatchItemJson
unfolding file_name
bare_row path status reason error = record {
  file = file_name path;
  receipt = none;
  status = status;
  assessment = none;
  reason_code = some (as_str reason);
  file_hash_match = none;
  super_root = none;
  data_tree_index = none;
  error = error;
}

-- The errors of the document, for the parts of the verdict that it reads.
batch_errors : Option ReasonCode → Status → List ErrorJson
batch_errors none status = []
batch_errors (some reason) Status.valid = []
batch_errors (some reason) status = error_json reason ∷ []

unfoldable pub cross_check_json : List String → CrossCheck → CrossCheckJson
unfolding unwrap_or_empty
cross_check_json participants c = record {
  from_index = c.from_index + 1;
  to_index = c.to_index + 1;
  from_file = unwrap_or_empty (get_elem? participants c.from_index);
  to_file = unwrap_or_empty (get_elem? participants c.to_index);
  same_log_instance = c.result.history_consistent;
}

module _ (formats : Formats) where
  unfoldable pub item_json : BatchItemResult → BatchItemJson
  unfolding batch_item_json bare_row
  item_json (BatchItemResult.valid r) = batch_item_json r
  item_json (BatchItemResult.unanchored r) = batch_item_json r
  item_json (BatchItemResult.untrusted r) = batch_item_json r
  item_json (BatchItemResult.invalid r) = batch_item_json r
  item_json (BatchItemResult.errored source receipt error) =
      bare_row source "error" ReasonCode.batch_items_errored (some (formats.display_error error))
  item_json (BatchItemResult.no_receipt path) =
      bare_row path "no_receipt" ReasonCode.batch_items_unmatched none
  item_json (BatchItemResult.no_source path) =
      bare_row path "no_source" ReasonCode.batch_items_unmatched none

  unfoldable pub consistency_json : ConsistencyResult → ConsistencyJson
  unfolding cross_check_json
  consistency_json c = record {
    status = if checked c then (if consistent c then "verified" else "failed") else "not_checked";
    log_instances = c.log_instance_count;
    genesis_super_root = map_some (sha256_text formats) c.genesis_super_root;
    receipt_count = c.receipt_count;
    cross_checks_passed =
        count_if (λ (check : CrossCheck). check.result.history_consistent) c.cross_results;
    cross_checks = map (cross_check_json c.participants) c.cross_results;
  }

  -- What `print_batch_result` serializes.
  unfoldable pub batch_result_json :
      BatchVerificationResult
      → VerificationMode
      → (source_dir receipt_dir : String) → BatchResultJson
  unfolding item_json consistency_json batch_errors
  batch_result_json b mode source_dir receipt_dir = record {
    status = status_str (batch_verdict b).status;
    reason_code = map_some as_str (batch_verdict b).reason_code;
    mode = mode_str mode;
    policy_profile = policy_str b.policy;
    source_dir = source_dir;
    receipt_dir = receipt_dir;
    summary = record {
      total = total_count b;
      valid = b.valid_count;
      unanchored = b.unanchored_count;
      untrusted = b.untrusted_count;
      invalid = b.invalid_count;
      errors = b.error_count;
      unmatched = b.unmatched_count;
    };
    consistency = map_some consistency_json b.consistency;
    items = map item_json b.items;
    errors = batch_errors (batch_verdict b).reason_code (batch_verdict b).status;
  }
