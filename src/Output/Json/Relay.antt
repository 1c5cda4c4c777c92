-- ===== src/Output/Json/Relay.antt =====
-- What somebody who relays a receipt can change in the JSON output (src/output/json.rs) by adding an
-- anchor that does not verify.
use atl_cli.Prelude.{
  ◌+◌, false, Option, List, ◌∷◌, ◌++◌, ◌≡◌, refl, ap, ◌∙◌, sym, arith, ltb, if◌then◌else◌,
}
use atl_cli.Cli.{VerificationMode}
use atl_cli.Verify.Verdict.{ReasonCode}
use atl_cli.Verify.Anchor.{AnchorVerificationResult}
use atl_cli.Verify.Policy.{AnchorPolicy, compute, refuted_by}
use atl_cli.Verify.Policy.Tally.{is_verified, compute-verified}
use atl_cli.Verify.Policy.Axes.{verified_count-insert, length-insert, insert_unverified_axes}
use atl_cli.Verify.Single.{SingleVerificationResult, assessment, receipt_refutation, proof_verdict}
use atl_cli.Verify.Single.Anchors.{with_anchors}
use atl_cli.Output.Json.{Formats}
use atl_cli.Output.Json.Anchor.{build_assessment}
use atl_cli.Output.Json.Single.{SingleResultJson, build_single_result_json}

-- What two documents for one receipt have in common, whatever the second was handed besides.
pub record Agrees (before after : SingleResultJson) : Type 0 where
  pub verified : after.anchor_status.verified ≡ before.anchor_status.verified
  pub state : after.anchor_status.state ≡ before.anchor_status.state
  pub presented : after.anchor_status.presented ≡ before.anchor_status.presented + 1
  pub established : after.assessment.evidence.established ≡ before.assessment.evidence.established
  pub refuted_by : after.assessment.evidence.refuted_by ≡ before.assessment.evidence.refuted_by
  pub max_trust_profile :
      after.assessment.policy.max_trust_profile ≡ before.assessment.policy.max_trust_profile
  pub gap_reported : after.assessment.coverage.complete ≡ false
  pub verification : after.verification ≡ before.verification

verified-insert :
    (xs ys : List AnchorVerificationResult) (a : AnchorVerificationResult) (p : AnchorPolicy)
    (c : Option ReasonCode)
    → is_verified a ≡ false
    → (compute (xs ++ a ∷ ys) p c).verified_anchors ≡ (compute (xs ++ ys) p c).verified_anchors
verified-insert xs ys a p c h =
    compute-verified (xs ++ a ∷ ys) p c
    ∙ ground (arith, verified_count-insert xs ys a)
    ∙ sym (compute-verified (xs ++ ys) p c)

-- An anchor that does not verify, added anywhere to the anchors of a receipt, changes neither how many
-- anchors the document says are verified, nor the state, the evidence, the reason that refutes the
-- receipt, the trust tier or the proofs; it is counted, and the coverage is not complete.
pub added_anchor-Agrees :
    (formats : Formats) (r : SingleVerificationResult) (mode : VerificationMode)
    (xs ys : List AnchorVerificationResult) (a : AnchorVerificationResult)
    → is_verified a ≡ false
    → Agrees
        (build_single_result_json formats (with_anchors r (xs ++ ys)) mode)
        (build_single_result_json formats (with_anchors r (xs ++ a ∷ ys)) mode)
unfolding build_single_result_json build_assessment assessment receipt_refutation refuted_by
    proof_verdict compute
added_anchor-Agrees formats r mode xs ys a h =
    let c = receipt_refutation r in
    let axes = insert_unverified_axes xs ys a r.policy c h in
    let same = verified-insert xs ys a r.policy c h in
    record {
      verified = same;
      state = ap (λ n. if ltb 0 n then "verified" else "none_verified") same;
      presented = length-insert xs ys a;
      established = axes.0;
      refuted_by = refl;
      max_trust_profile = axes.1;
      gap_reported = axes.2;
      verification = refl;
    }
