-- ===== src/Verify/Single/Verdicts.antt =====
-- When a receipt is valid, untrusted or invalid (src/verify/single.rs, `verdict` and
-- `receipt_refutation`).
use atl_cli.Prelude.{
  ℕ, ◌<◌, Bool, true, ◌||◌, Option, none, some, List, [], ◌∷◌, ◌≡◌, ◌≢◌, ◌↔◌, ◌⊎◌, inl, refl, arith,
  length, All, find_map, if◌then◌else◌, ◌==◌, is_some, count_if-le-length,
}
use atl_cli.Core.{VerificationError}
use atl_cli.Verify.Verdict.{
  ReasonCode, Status, ReceiptVerdict, verdict_valid, verdict_invalid, verdict_untrusted,
}
use atl_cli.Verify.Anchor.{AnchorVerificationResult}
use atl_cli.Verify.Policy.{AnchorPolicy, compute}
use atl_cli.Verify.Policy.Tally.{is_verified, verified_count}
use atl_cli.Verify.Policy.Axes.{
  meets, reason_of_counts, policy_satisfied-meets, unsatisfied_reason-counts,
}
use atl_cli.Verify.Single.{
  SingleVerificationResult, refutation_of, inability_of, classify_core_error, as_inability,
  proof_verdict, proofs_valid, proof_refutation, super_refutation, receipt_refutation,
  receipt_inability, assessment, assessed_verdict, unsatisfied_verdict, verdict,
}

-- How many of the reported anchors are verified.
abbrev pub verified : SingleVerificationResult → ℕ
verified r = verified_count r.anchor_results

abbrev pub total : SingleVerificationResult → ℕ
total r = length r.anchor_results

assessed_verdict-counts :
    (xs : List AnchorVerificationResult) (p : AnchorPolicy) (c : Option ReasonCode)
    → assessed_verdict (compute xs p c) ≡ (
        if meets p c (length xs) (verified_count xs)
        then verdict_valid
        else unsatisfied_verdict (reason_of_counts (length xs) (verified_count xs)))
unfolding assessed_verdict
assessed_verdict-counts xs p c =
    rw (policy_satisfied-meets xs p c, unsatisfied_reason-counts xs p c)

-- The verdict as a function of the two findings on the receipt, the policy and two counts.
abbrev pub verdict_of_counts :
    Option ReasonCode → Option ReasonCode → AnchorPolicy → (total verified : ℕ) → ReceiptVerdict
verdict_of_counts (some reason) inability p total verified = verdict_invalid reason
verdict_of_counts none (some reason) p total verified = verdict_untrusted reason
verdict_of_counts none none p total verified =
    if meets p none total verified
    then verdict_valid
    else if total == 0 || verified == 0
    then verdict_untrusted ReasonCode.receipt_unanchored
    else verdict_untrusted ReasonCode.anchor_quorum_unmet

pub verdict-counts :
    (r : SingleVerificationResult)
    → verdict r
      ≡ verdict_of_counts
          (receipt_refutation r)
          (receipt_inability r)
          r.policy
          (total r)
          (verified r)
unfolding verdict assessment
verdict-counts r =
    ground (arith, assessed_verdict-counts r.anchor_results r.policy (receipt_refutation r))

-- A receipt is valid exactly when nothing refuted it, no check on it was left unfinished, at least
-- one anchor is verified and, under the default policy, every reported anchor is.
pub verdict-valid_iff :
    (r : SingleVerificationResult)
    → ((verdict r).status ≡ Status.valid) ↔ (
        (receipt_refutation r ≡ none)
        × (receipt_inability r ≡ none)
        × (0 < verified r)
        × ((r.policy ≡ AnchorPolicy.single_anchor) ⊎ (verified r ≡ total r)))
verdict-valid_iff r =
    ground (arith, verdict-counts r, count_if-le-length is_verified r.anchor_results)

-- A receipt is invalid exactly when something refuted the receipt itself, and the reason code of the
-- verdict is then that refutation's.
pub verdict-invalid_iff :
    (r : SingleVerificationResult) (c : ReasonCode)
    → (verdict r ≡ verdict_invalid c) ↔ (receipt_refutation r ≡ some c)
verdict-invalid_iff r c = ground (arith, verdict-counts r)

pub invalid-refuted :
    (r : SingleVerificationResult)
    → ((verdict r).status ≡ Status.invalid) ↔ (is_some (receipt_refutation r) ≡ true)
invalid-refuted r = ground (arith, verdict-counts r)

abbrev IsIncomplete : Option ReasonCode → Type 0
IsIncomplete o = (o ≡ none) ⊎ (o ≡ some ReasonCode.receipt_check_incomplete)

inability_of-IsIncomplete : (e : VerificationError) → IsIncomplete (inability_of e)
unfolding as_inability classify_core_error
inability_of-IsIncomplete e = ground arith

find_inability-IsIncomplete :
    (es : List VerificationError) → IsIncomplete (find_map inability_of es)
find_inability-IsIncomplete [] = inl refl
find_inability-IsIncomplete (e ∷ es) =
    ground (arith, inability_of-IsIncomplete e, find_inability-IsIncomplete es)

receipt_inability-IsIncomplete : (r : SingleVerificationResult) → IsIncomplete (receipt_inability r)
unfolding receipt_inability
receipt_inability-IsIncomplete r = find_inability-IsIncomplete r.core_result.receipt_errors

-- An untrusted receipt carries one of three reasons, and which one is decided by its checks and by
-- the number of verified anchors: a check left unfinished, no verified anchor, or a quorum unmet by
-- at least one verified anchor (under the default policy only). A receipt is never an error.
pub verdict-untrusted_reason :
    (r : SingleVerificationResult)
    → ((verdict r).status ≢ Status.error)
      × ((verdict r).status ≡ Status.untrusted
          → (((verdict r).reason_code ≡ some ReasonCode.receipt_check_incomplete)
              × (is_some (receipt_inability r) ≡ true))
            ⊎ ((((verdict r).reason_code ≡ some ReasonCode.receipt_unanchored) × (verified r ≡ 0))
                ⊎ (((verdict r).reason_code ≡ some ReasonCode.anchor_quorum_unmet)
                    × (0 < verified r)
                    × (r.policy ≡ AnchorPolicy.all_anchors)
                    × (verified r ≢ total r))))
verdict-untrusted_reason r = ground (
  arith,
  verdict-counts r,
  receipt_inability-IsIncomplete r,
  count_if-le-length is_verified r.anchor_results,
)

refutes : VerificationError → Bool
refutes e = is_some (refutation_of e)

proof_refutation-valid :
    (r : SingleVerificationResult)
    → (proof_refutation (proof_verdict r) ≡ none) ↔ (proofs_valid (proof_verdict r) ≡ true)
unfolding proof_refutation super_refutation proofs_valid
proof_refutation-valid r = ground arith

find_refutation-none :
    (es : List VerificationError)
    → (find_map refutation_of es ≡ none) ↔ All (λ e. refutation_of e ≡ none) es
find_refutation-none [] = ground arith
find_refutation-none (e ∷ es) = ground (arith, find_refutation-none es)

-- Nothing refutes a receipt exactly when the source file's hash matches, no finding about the receipt
-- is a refutation, and every proof that the receipt carries holds.
pub receipt_refutation-none_iff :
    (r : SingleVerificationResult)
    → (receipt_refutation r ≡ none) ↔ (
        (r.file_hash_valid ≡ true)
        × All (λ e. refutation_of e ≡ none) r.core_result.receipt_errors
        × (proofs_valid (proof_verdict r) ≡ true))
unfolding receipt_refutation
receipt_refutation-none_iff r =
    ground (arith, find_refutation-none r.core_result.receipt_errors, proof_refutation-valid r)
