-- ===== src/Verify/Policy/Axes.antt =====
-- The policy, evidence and coverage axes of src/verify/policy.rs, and what adding an anchor to the
-- unauthenticated `anchors` array does to them.
use atl_cli.Prelude.{
  ℕ, ◌+◌, ◌<◌, String, Bool, true, false, not, ◌&&◌, ◌||◌, Option, none, some, List, [], ◌∷◌, ◌++◌,
  ◌≡◌, ◌↔◌, refl, arith, length, length-append, count_if-append, any, if◌then◌else◌, ◌==◌, ltb,
  is_some, is_empty-length, count_if-le-length,
}
use atl_cli.Verify.Verdict.{ReasonCode}
use atl_cli.Verify.Anchor.{AnchorVerificationResult}
use atl_cli.Verify.Policy.{
  AnchorPolicy, compute, policy_satisfied, evidence_established, max_trust_profile,
  coverage_complete, accepted_with_gaps, unsatisfied_reason,
}
use atl_cli.Verify.Policy.Tally.{
  is_verified, is_verified_as, verified_count, compute-verified, compute-total, compute-types,
}

compute_fields :
    (xs : List AnchorVerificationResult) (p : AnchorPolicy) (r : Option ReasonCode)
    → ((compute xs p r).total_anchors ≡ length xs)
      × ((compute xs p r).policy ≡ p)
      × ((compute xs p r).receipt_refutation ≡ r)
unfolding compute
compute_fields xs p r = (refl, refl, refl)

-- The outcome of the quorum, as a function of two counts.
abbrev pub meets : AnchorPolicy → Option ReasonCode → (total verified : ℕ) → Bool
meets p r total verified = if is_some r || total == 0 then false else elim p [
  | AnchorPolicy.all_anchors ↦ verified == total
  | AnchorPolicy.single_anchor ↦ ltb 0 verified
]

abbrev pub reason_of_counts : (total verified : ℕ) → Option ReasonCode
reason_of_counts total verified =
    if total == 0 || verified == 0
    then some ReasonCode.receipt_unanchored
    else some ReasonCode.anchor_quorum_unmet

module _ (xs : List AnchorVerificationResult) (p : AnchorPolicy) (r : Option ReasonCode) where
  pub policy_satisfied-meets :
      policy_satisfied (compute xs p r) ≡ meets p r (length xs) (verified_count xs)
  unfolding policy_satisfied
  policy_satisfied-meets = ground (arith, compute_fields xs p r, compute-verified xs p r)

  pub unsatisfied_reason-counts :
      unsatisfied_reason (compute xs p r) ≡ reason_of_counts (length xs) (verified_count xs)
  unfolding unsatisfied_reason
  unsatisfied_reason-counts = ground (arith, compute_fields xs p r, compute-verified xs p r)

  pub evidence-count :
      evidence_established (compute xs p r) ≡ ltb 0 (verified_count xs) && not (is_some r)
  unfolding evidence_established
  evidence-count = ground (arith, compute_fields xs p r, compute-verified xs p r)

  pub max_trust-types :
      max_trust_profile (compute xs p r)
      ≡ (any (is_verified_as "rfc3161") xs && any (is_verified_as "bitcoin_ots") xs)
        && not (is_some r)
  unfolding max_trust_profile
  max_trust-types = ground (arith, compute_fields xs p r, compute-types xs p r)

-- Coverage is complete exactly when the receipt was not refuted and every anchor presented was
-- verified.
pub coverage_complete_iff :
    (xs : List AnchorVerificationResult) (p : AnchorPolicy) (r : Option ReasonCode)
    → (coverage_complete (compute xs p r) ≡ true) ↔ ((r ≡ none) × (verified_count xs ≡ length xs))
unfolding coverage_complete
coverage_complete_iff xs p r = ground (
  arith,
  compute_fields xs p r,
  compute-verified xs p r,
  compute-total xs p r,
  is_empty-length (compute xs p r).unresolved,
  is_empty-length (compute xs p r).refuted,
)

-- Under the default policy a success always covers every anchor presented: acceptance with gaps
-- cannot happen.
pub all_anchors_no_gaps :
    (xs : List AnchorVerificationResult) (r : Option ReasonCode)
    → accepted_with_gaps (compute xs AnchorPolicy.all_anchors r) ≡ false
unfolding accepted_with_gaps
all_anchors_no_gaps xs r = ground (
  arith,
  policy_satisfied-meets xs AnchorPolicy.all_anchors r,
  coverage_complete_iff xs AnchorPolicy.all_anchors r,
)

-- Under the relaxed policy a success has gaps exactly when some anchor was not verified.
pub single_anchor_gaps_iff :
    (xs : List AnchorVerificationResult) (r : Option ReasonCode)
    → (accepted_with_gaps (compute xs AnchorPolicy.single_anchor r) ≡ true)
      ↔ ((r ≡ none) × (0 < verified_count xs) × (verified_count xs < length xs))
unfolding accepted_with_gaps
single_anchor_gaps_iff xs r = ground (
  arith,
  policy_satisfied-meets xs AnchorPolicy.single_anchor r,
  coverage_complete_iff xs AnchorPolicy.single_anchor r,
  count_if-le-length is_verified xs,
)

any-insert :
    (p : AnchorVerificationResult → Bool) (xs ys : List AnchorVerificationResult)
    (a : AnchorVerificationResult)
    → p a ≡ false
    → any p (xs ++ a ∷ ys) ≡ any p (xs ++ ys)
any-insert p [] ys a h = rw h
any-insert p (x ∷ xs) ys a h = rw (any-insert p xs ys a h)

pub verified_count-insert :
    (xs ys : List AnchorVerificationResult) (a : AnchorVerificationResult)
    → verified_count (xs ++ a ∷ ys) ≡ verified_count (xs ++ ys) + (if is_verified a then 1 else 0)
verified_count-insert xs ys a =
    omega
      (arith, count_if-append {0} is_verified xs (a ∷ ys), count_if-append {0} is_verified xs ys)

pub length-insert :
    (xs ys : List AnchorVerificationResult) (a : AnchorVerificationResult)
    → length (xs ++ a ∷ ys) ≡ length (xs ++ ys) + 1
length-insert xs ys a = omega (arith, length-append {0} xs (a ∷ ys), length-append {0} xs ys)

-- The evidence axis and the maximum-trust tier ignore an anchor that is not verified, wherever it is
-- inserted; the coverage axis always reports it.
pub insert_unverified_axes :
    (xs ys : List AnchorVerificationResult) (a : AnchorVerificationResult) (p : AnchorPolicy)
    (r : Option ReasonCode)
    → is_verified a ≡ false
    → (evidence_established (compute (xs ++ a ∷ ys) p r)
        ≡ evidence_established (compute (xs ++ ys) p r))
      × (max_trust_profile (compute (xs ++ a ∷ ys) p r)
          ≡ max_trust_profile (compute (xs ++ ys) p r))
      × (coverage_complete (compute (xs ++ a ∷ ys) p r) ≡ false)
insert_unverified_axes xs ys a p r h =
    let as_kind : (kind : String) → is_verified_as kind a ≡ false = λ kind. rw h in
    (
      ground (
        arith,
        evidence-count (xs ++ a ∷ ys) p r,
        evidence-count (xs ++ ys) p r,
        verified_count-insert xs ys a,
      ),
      ground (
        arith,
        max_trust-types (xs ++ a ∷ ys) p r,
        max_trust-types (xs ++ ys) p r,
        any-insert (is_verified_as "rfc3161") xs ys a (as_kind "rfc3161"),
        any-insert (is_verified_as "bitcoin_ots") xs ys a (as_kind "bitcoin_ots"),
      ),
      ground (
        arith,
        coverage_complete_iff (xs ++ a ∷ ys) p r,
        verified_count-insert xs ys a,
        length-insert xs ys a,
        count_if-le-length is_verified (xs ++ ys),
      ),
    )

-- A quorum that the default policy finds met is met under the relaxed policy too.
pub relaxing_keeps_quorum :
    (xs : List AnchorVerificationResult) (r : Option ReasonCode)
    → policy_satisfied (compute xs AnchorPolicy.all_anchors r) ≡ true
    → policy_satisfied (compute xs AnchorPolicy.single_anchor r) ≡ true
relaxing_keeps_quorum xs r h = ground (
  arith,
  policy_satisfied-meets xs AnchorPolicy.all_anchors r,
  policy_satisfied-meets xs AnchorPolicy.single_anchor r,
)
