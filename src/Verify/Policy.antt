-- ===== src/Verify/Policy.antt =====
-- src/verify/policy.rs: the anchor policy, and the three axes that a receipt's anchors are reported
-- on. A count is a number below 2 ^ 64, since it counts the elements of a list in memory.
pub mod Tally
pub mod Axes
use atl_cli.Prelude.{
  ℕ, ◌+◌, String, str_eq, Bool, true, false, not, ◌&&◌, ◌||◌, Option, none, some, is_some, is_none,
  List, [], ◌∷◌, ◌++◌, length, is_empty, ltb, ◌==◌, if◌then◌else◌,
}
use atl_cli.Verify.Verdict.{ReasonCode}
use atl_cli.Verify.Anchor.{AnchorVerdict, AnchorState, AnchorVerificationResult, from_reason}

pub data AnchorPolicy : Type 0 where
  all_anchors single_anchor : AnchorPolicy

unfoldable pub from_allow_single_anchor : Bool → AnchorPolicy
from_allow_single_anchor true = AnchorPolicy.single_anchor
from_allow_single_anchor false = AnchorPolicy.all_anchors

unfoldable pub policy_str : AnchorPolicy → String
policy_str AnchorPolicy.all_anchors = "all-anchors"
policy_str AnchorPolicy.single_anchor = "single-anchor"

unfoldable pub requirement : AnchorPolicy → String
requirement AnchorPolicy.all_anchors =
    "every anchor the receipt presents must be verified (default)"
requirement AnchorPolicy.single_anchor =
    "at least one anchor must be verified (--allow-single-anchor; ATL v2.0 §5.5 floor)"

pub record UnresolvedAnchor : Type 0 where
  pub anchor_type : String
  pub state : AnchorState
  pub reason : ReasonCode

pub record TrustAssessment : Type 0 where
  pub policy : AnchorPolicy
  pub total_anchors : ℕ
  pub verified_anchors : ℕ
  pub unresolved : List UnresolvedAnchor
  pub refuted : List UnresolvedAnchor
  pub receipt_refutation : Option ReasonCode
  pub both_anchor_types_verified : Bool

-- The mutable locals of `compute`.
pub record Locals : Type 0 where
  pub verified_anchors : ℕ
  pub unresolved : List UnresolvedAnchor
  pub refuted : List UnresolvedAnchor
  pub rfc3161_verified : Bool
  pub bitcoin_verified : Bool

-- The inner `match` on a verified anchor's type.
mark_type : String → Locals → Locals
mark_type kind t =
    if str_eq kind "rfc3161"
    then record t { rfc3161_verified = true }
    else if str_eq kind "bitcoin_ots"
    then record t { bitcoin_verified = true }
    else t

-- The body of the loop, by the anchor's verdict.
tally_verdict : AnchorVerdict → String → Locals → Locals
tally_verdict AnchorVerdict.valid kind t =
    mark_type kind (record t { verified_anchors = t.verified_anchors + 1 })
tally_verdict (AnchorVerdict.invalid reason) kind t = record t {
  refuted =
      t.refuted ++ record { anchor_type = kind; state = AnchorState.refuted; reason = reason } ∷ [];
}
tally_verdict (AnchorVerdict.untrusted reason) kind t = record t {
  unresolved =
      t.unresolved
      ++ record { anchor_type = kind; state = from_reason reason; reason = reason } ∷ [];
}

tally : List AnchorVerificationResult → Locals → Locals
tally [] t = t
tally (a ∷ anchors) t = tally anchors (tally_verdict a.verdict a.anchor_type t)

abbrev no_tally : Locals
no_tally = record {
  verified_anchors = 0;
  unresolved = [];
  refuted = [];
  rfc3161_verified = false;
  bitcoin_verified = false;
}

unfoldable pub compute :
    List AnchorVerificationResult → AnchorPolicy → Option ReasonCode → TrustAssessment
unfolding tally tally_verdict mark_type from_reason
compute anchors policy receipt_refutation =
    let t = tally anchors no_tally in
    record {
      policy = policy;
      total_anchors = length anchors;
      verified_anchors = t.verified_anchors;
      unresolved = t.unresolved;
      refuted = t.refuted;
      receipt_refutation = receipt_refutation;
      both_anchor_types_verified = t.rfc3161_verified && t.bitcoin_verified;
    }

unfoldable pub receipt_refuted : TrustAssessment → Bool
receipt_refuted t = is_some t.receipt_refutation

unfoldable pub refuted_anchors : TrustAssessment → ℕ
refuted_anchors t = length t.refuted

unfoldable pub refuted_by : TrustAssessment → Option ReasonCode
refuted_by t = t.receipt_refutation

unfoldable pub max_trust_profile : TrustAssessment → Bool
unfolding receipt_refuted
max_trust_profile t = t.both_anchor_types_verified && not (receipt_refuted t)

unfoldable pub evidence_established : TrustAssessment → Bool
unfolding receipt_refuted
evidence_established t = ltb 0 t.verified_anchors && not (receipt_refuted t)

unfoldable pub coverage_complete : TrustAssessment → Bool
coverage_complete t = is_empty t.unresolved && (is_empty t.refuted && is_none t.receipt_refutation)

-- The `match` on the policy, with the counts it reads.
quorum : AnchorPolicy → ℕ → ℕ → Bool
quorum AnchorPolicy.all_anchors verified total = verified == total
quorum AnchorPolicy.single_anchor verified total = ltb 0 verified

unfoldable pub policy_satisfied : TrustAssessment → Bool
unfolding receipt_refuted quorum
policy_satisfied t =
    if receipt_refuted t || t.total_anchors == 0
    then false
    else quorum t.policy t.verified_anchors t.total_anchors

unfoldable pub accepted_with_gaps : TrustAssessment → Bool
unfolding policy_satisfied coverage_complete
accepted_with_gaps t = policy_satisfied t && not (coverage_complete t)

unfoldable pub unsatisfied_reason : TrustAssessment → Option ReasonCode
unsatisfied_reason t =
    if t.total_anchors == 0 || t.verified_anchors == 0
    then some ReasonCode.receipt_unanchored
    else some ReasonCode.anchor_quorum_unmet
