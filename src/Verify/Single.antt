-- ===== src/Verify/Single.antt =====
-- src/verify/single.rs: the verdict on one receipt.
pub mod Load
pub mod Verdicts
pub mod Anchors
pub mod Binding
use atl_cli.Prelude.{
  ℕ, String, Bool, true, false, not, ◌&&◌, Option, none, some, List, [], ◌∷◌, find_map, is_empty,
  if◌then◌else◌,
}
use atl_cli.Core.{VerificationError, VerificationResult, Receipt, AnchorFacts}
use atl_cli.Verify.Verdict.{
  ReasonCode, Status, ReceiptVerdict, verdict_valid, verdict_invalid, verdict_untrusted,
  verdict_unanchored,
}
use atl_cli.Verify.Anchor.{AnchorVerificationResult}
use atl_cli.Verify.Policy.{
  AnchorPolicy, TrustAssessment, compute, policy_satisfied, unsatisfied_reason,
}

pub record SuperProofVerdict : Type 0 where
  pub inclusion_valid : Bool
  pub consistency_valid : Bool

unfoldable pub super_valid : SuperProofVerdict → Bool
super_valid v = v.inclusion_valid && v.consistency_valid

pub record ProofVerdict : Type 0 where
  pub inclusion_valid : Bool
  pub super_proof : Option SuperProofVerdict

-- `ProofVerdict::compute`.
unfoldable pub compute_proofs : VerificationResult → Bool → ProofVerdict
compute_proofs core_result has_super_proof = record {
  inclusion_valid = core_result.inclusion_valid;
  super_proof =
      if has_super_proof
      then some (record {
        inclusion_valid = core_result.super_inclusion_valid;
        consistency_valid = core_result.super_consistency_valid;
      })
      else none;
}

-- `is_none_or`.
super_proof_valid : Option SuperProofVerdict → Bool
super_proof_valid none = true
super_proof_valid (some v) = super_valid v

unfoldable pub proofs_valid : ProofVerdict → Bool
unfolding super_proof_valid super_valid
proofs_valid v = v.inclusion_valid && super_proof_valid v.super_proof

pub record SingleVerificationResult : Type 0 where
  pub source_path : String
  pub receipt_path : String
  pub file_hash : List ℕ
  pub receipt : Receipt
  pub file_hash_valid : Bool
  pub core_result : VerificationResult
  pub anchor_results : List AnchorVerificationResult
  pub anchor_facts : List AnchorFacts
  pub policy : AnchorPolicy

pub data CoreFinding : Type 0 where
  refutation : ReasonCode → CoreFinding
  inability : ReasonCode → CoreFinding
  deferred : CoreFinding

unfoldable pub as_refutation : CoreFinding → Option ReasonCode
as_refutation (CoreFinding.refutation code) = some code
as_refutation _ = none

unfoldable pub as_inability : CoreFinding → Option ReasonCode
as_inability (CoreFinding.inability code) = some code
as_inability _ = none

unfoldable pub classify_core_error : VerificationError → CoreFinding
classify_core_error VerificationError.no_trust_anchor = CoreFinding.deferred
classify_core_error (VerificationError.anchor_finding _ _ _) = CoreFinding.deferred
classify_core_error VerificationError.signature_failed =
    CoreFinding.refutation ReasonCode.checkpoint_signature_invalid
classify_core_error (VerificationError.inclusion_proof_failed _) =
    CoreFinding.refutation ReasonCode.inclusion_proof_invalid
classify_core_error (VerificationError.super_inclusion_failed _) =
    CoreFinding.refutation ReasonCode.super_inclusion_proof_invalid
classify_core_error (VerificationError.consistency_proof_failed _) =
    CoreFinding.refutation ReasonCode.super_consistency_proof_invalid
classify_core_error (VerificationError.super_consistency_failed _) =
    CoreFinding.refutation ReasonCode.super_consistency_proof_invalid
classify_core_error VerificationError.root_hash_mismatch =
    CoreFinding.refutation ReasonCode.checkpoint_root_hash_mismatch
classify_core_error VerificationError.tree_size_mismatch =
    CoreFinding.refutation ReasonCode.checkpoint_tree_size_mismatch
classify_core_error (VerificationError.metadata_hash_mismatch _ _) =
    CoreFinding.refutation ReasonCode.metadata_hash_mismatch
classify_core_error (VerificationError.invalid_receipt _) =
    CoreFinding.refutation ReasonCode.receipt_malformed
classify_core_error (VerificationError.invalid_hash _ _) =
    CoreFinding.refutation ReasonCode.receipt_malformed
classify_core_error (VerificationError.super_data_mismatch _ _ _) =
    CoreFinding.refutation ReasonCode.receipt_malformed
classify_core_error VerificationError.missing_super_proof =
    CoreFinding.refutation ReasonCode.receipt_malformed
classify_core_error (VerificationError.unsupported_version _) =
    CoreFinding.inability ReasonCode.receipt_check_incomplete
classify_core_error (VerificationError.metadata_not_canonicalizable _ _) =
    CoreFinding.inability ReasonCode.receipt_check_incomplete
classify_core_error VerificationError.source_text_not_checked =
    CoreFinding.inability ReasonCode.receipt_check_incomplete
classify_core_error _ = CoreFinding.deferred

unfoldable pub proof_verdict : SingleVerificationResult → ProofVerdict
unfolding compute_proofs
proof_verdict r = compute_proofs r.core_result r.receipt.has_super_proof

-- The checks of `receipt_refutation` on the super proof, where there is one.
super_refutation : Option SuperProofVerdict → Option ReasonCode
super_refutation none = none
super_refutation (some v) =
    if not v.inclusion_valid
    then some ReasonCode.super_inclusion_proof_invalid
    else if not v.consistency_valid
    then some ReasonCode.super_consistency_proof_invalid
    else none

proof_refutation : ProofVerdict → Option ReasonCode
proof_refutation v =
    if not v.inclusion_valid
    then some ReasonCode.inclusion_proof_invalid
    else super_refutation v.super_proof

abbrev refutation_of : VerificationError → Option ReasonCode
refutation_of e = as_refutation (classify_core_error e)

abbrev inability_of : VerificationError → Option ReasonCode
inability_of e = as_inability (classify_core_error e)

unfoldable pub receipt_refutation : SingleVerificationResult → Option ReasonCode
unfolding proof_verdict proof_refutation super_refutation as_refutation classify_core_error
receipt_refutation r =
    if not r.file_hash_valid
    then some ReasonCode.file_hash_mismatch
    else elim (find_map refutation_of r.core_result.receipt_errors) [
      | some reason ↦ some reason
      | none ↦ proof_refutation (proof_verdict r)
    ]

unfoldable pub receipt_inability : SingleVerificationResult → Option ReasonCode
unfolding as_inability classify_core_error
receipt_inability r = find_map inability_of r.core_result.receipt_errors

unfoldable pub assessment : SingleVerificationResult → TrustAssessment
unfolding compute
assessment r = compute r.anchor_results r.policy (receipt_refutation r)

-- `map_or` on the reason for an unmet quorum.
unsatisfied_verdict : Option ReasonCode → ReceiptVerdict
unsatisfied_verdict none = verdict_unanchored
unsatisfied_verdict (some reason) = verdict_untrusted reason

-- `verdict` after its two early returns.
assessed_verdict : TrustAssessment → ReceiptVerdict
assessed_verdict a =
    if policy_satisfied a then verdict_valid else unsatisfied_verdict (unsatisfied_reason a)

unfoldable pub verdict : SingleVerificationResult → ReceiptVerdict
unfolding assessed_verdict unsatisfied_verdict
verdict r = elim (receipt_refutation r) [
  | some reason ↦ verdict_invalid reason
  | none ↦ elim (receipt_inability r) [
    | some reason ↦ verdict_untrusted reason
    | none ↦ assessed_verdict (assessment r)
  ]
]

unfoldable pub presents_no_anchors : SingleVerificationResult → Bool
presents_no_anchors r = is_empty r.receipt.anchors
