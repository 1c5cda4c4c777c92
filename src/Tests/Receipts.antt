-- ===== src/Tests/Receipts.antt =====
-- The theorems about anchors, policies and single receipts, at concrete inputs.
use atl_cli.Prelude.{◌<◌, true, Option, none, List, [], ◌∷◌, ◌++◌, ◌≡◌, ◌≢◌, ◌↔◌, ◌⊎◌, refl, arith}
use mathlib.Core.List.{Perm, Permᴰ}
use atl_cli.Core.{ReceiptAnchor}
use atl_cli.Verify.Verdict.{ReasonCode, Status}
use atl_cli.Verify.Verdict.Codes.{as_str_injective}
use atl_cli.Verify.Anchor.{AnchorVerdict, is_valid, verdict_from_facts}
use atl_cli.Verify.Anchor.Laws.{is_invalid, verdict_from_facts_iff, result-error_iff}
use atl_cli.Verify.Anchor.Prose.{result_from_facts}
use atl_cli.Verify.Policy.{AnchorPolicy, compute, policy_satisfied}
use atl_cli.Verify.Anchor.{AnchorVerificationResult}
use atl_cli.Verify.Single.{
  SingleVerificationResult, verdict, receipt_refutation, receipt_inability, assessment,
}
use atl_cli.Verify.Single.Verdicts.{verified, total, verdict-valid_iff}
use atl_cli.Verify.Single.Anchors.{
  with_anchors, anchors_never_refute, insert_unverified_single, insert_unverified_all, verdict-Perm,
}
use atl_cli.Tests.Data.{
  pending_facts, pending_facts-IsCoherent, verified_anchor, refuted_anchor, pending_anchor,
  anchored, wrong_file, render,
}

abbrev relaxed : SingleVerificationResult
relaxed = record anchored { policy = AnchorPolicy.single_anchor }

verdict-valid_iff_example : ((verdict anchored).status ≡ Status.valid) ↔ (
    (receipt_refutation anchored ≡ none)
    × (receipt_inability anchored ≡ none)
    × (0 < verified anchored)
    × ((anchored.policy ≡ AnchorPolicy.single_anchor) ⊎ (verified anchored ≡ total anchored)))
verdict-valid_iff_example = verdict-valid_iff anchored

wrong_file_invalid :
    (verdict (with_anchors wrong_file (verified_anchor ∷ []))).status ≡ Status.invalid
unfolding verdict receipt_refutation
wrong_file_invalid = refl

anchors_never_refute_example :
    verdict (with_anchors wrong_file (refuted_anchor ∷ []))
    ≡ verdict (with_anchors wrong_file (verified_anchor ∷ []))
anchors_never_refute_example =
    anchors_never_refute wrong_file (verified_anchor ∷ []) (refuted_anchor ∷ []) wrong_file_invalid

insert_unverified_single_example :
    verdict (with_anchors relaxed ((verified_anchor ∷ []) ++ refuted_anchor ∷ []))
    ≡ verdict (with_anchors relaxed ((verified_anchor ∷ []) ++ []))
unfolding is_valid
insert_unverified_single_example =
    insert_unverified_single relaxed (verified_anchor ∷ []) [] refuted_anchor refl refl

anchored_not_invalid :
    (verdict (with_anchors anchored ((verified_anchor ∷ []) ++ []))).status ≢ Status.invalid
unfolding verdict receipt_refutation receipt_inability
anchored_not_invalid = ground arith

insert_unverified_all_example :
    ((verdict (with_anchors anchored ((verified_anchor ∷ []) ++ []))).status ≡ Status.invalid
      → verdict (with_anchors anchored ((verified_anchor ∷ []) ++ pending_anchor ∷ []))
        ≡ verdict (with_anchors anchored ((verified_anchor ∷ []) ++ [])))
    × ((verdict (with_anchors anchored ((verified_anchor ∷ []) ++ []))).status ≢ Status.invalid
        → (verdict (with_anchors anchored ((verified_anchor ∷ []) ++ pending_anchor ∷ []))).status
          ≡ Status.untrusted)
unfolding is_valid
insert_unverified_all_example =
    insert_unverified_all anchored (verified_anchor ∷ []) [] pending_anchor refl refl

anchored_valid :
    (verdict (with_anchors anchored ([] ++ verified_anchor ∷ []))).status ≡ Status.valid
unfolding verdict receipt_refutation receipt_inability policy_satisfied assessment
anchored_valid = refl

two_swapped : Perm (pending_anchor ∷ verified_anchor ∷ []) (verified_anchor ∷ pending_anchor ∷ [])
two_swapped = ∣ Permᴰ.swap refl refl ∣₁

verdict-Perm_example :
    verdict (with_anchors relaxed (pending_anchor ∷ verified_anchor ∷ []))
    ≡ verdict (with_anchors relaxed (verified_anchor ∷ pending_anchor ∷ []))
verdict-Perm_example =
    verdict-Perm relaxed (pending_anchor ∷ verified_anchor ∷ [])
      (verified_anchor ∷ pending_anchor ∷ []) two_swapped

verdict_from_facts_iff_example :
    ((verdict_from_facts pending_facts ≡ AnchorVerdict.valid) ↔ (pending_facts.is_verified ≡ true))
    × ((is_invalid (verdict_from_facts pending_facts) ≡ true) ↔ (pending_facts.is_refuted ≡ true))
verdict_from_facts_iff_example = verdict_from_facts_iff pending_facts pending_facts-IsCoherent

abbrev presented : ReceiptAnchor
presented = ReceiptAnchor.bitcoin_ots "bitcoin_ots" "sha256:cd" 800_000 "2023-11-14"

result-error_iff_example :
    ((result_from_facts render presented pending_facts).error ≡ none)
    ↔ ((result_from_facts render presented pending_facts).verdict ≡ AnchorVerdict.valid)
result-error_iff_example = result-error_iff render presented pending_facts pending_facts-IsCoherent

abbrev three : List AnchorVerificationResult
three = verified_anchor ∷ pending_anchor ∷ refuted_anchor ∷ []

abbrev no_refutation : Option ReasonCode
no_refutation = none

quorum_met : policy_satisfied (compute (verified_anchor ∷ []) AnchorPolicy.all_anchors none) ≡ true
unfolding policy_satisfied compute
quorum_met = refl

as_str_injective_example : ReasonCode.receipt_unanchored ≡ ReasonCode.receipt_unanchored
as_str_injective_example =
    as_str_injective ReasonCode.receipt_unanchored ReasonCode.receipt_unanchored refl
