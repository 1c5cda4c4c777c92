-- ===== src/Verify/Single/Anchors.antt =====
-- What a change of the unauthenticated `anchors` array can and cannot do to the verdict of
-- src/verify/single.rs.
use atl_cli.Prelude.{
  ℕ, ◌+◌, ◌≤◌, true, false, Option, none, some, List, ◌∷◌, ◌++◌, ◌≡◌, ◌≢◌, refl, sym, ap, ◌∙◌,
  arith, length, if◌then◌else◌, count_if-le-length,
}
use mathlib.Core.Logic.{∥∥₁_elim}
use mathlib.Core.List.{Perm, Permᴰ}
use native.Mathlib.Nat.{ℕ_set}
use atl_cli.Verify.Verdict.{ReasonCode, Status}
use atl_cli.Verify.Anchor.{AnchorVerificationResult}
use atl_cli.Verify.Policy.{AnchorPolicy}
use atl_cli.Verify.Policy.Tally.{is_verified, verified_count}
use atl_cli.Verify.Policy.Axes.{verified_count-insert, length-insert}
use atl_cli.Verify.Single.{SingleVerificationResult, receipt_refutation, receipt_inability, verdict}
use atl_cli.Verify.Single.Verdicts.{verdict_of_counts, verdict-counts}

-- The same receipt result with another list of anchor results.
abbrev pub with_anchors :
    SingleVerificationResult → List AnchorVerificationResult → SingleVerificationResult
with_anchors r xs = record r { anchor_results = xs }

module _ (r : SingleVerificationResult) (xs : List AnchorVerificationResult) where
  refutation-with_anchors : receipt_refutation (with_anchors r xs) ≡ receipt_refutation r
  unfolding receipt_refutation
  refutation-with_anchors = refl

  inability-with_anchors : receipt_inability (with_anchors r xs) ≡ receipt_inability r
  unfolding receipt_inability
  inability-with_anchors = refl

  pub verdict-with_anchors :
      verdict (with_anchors r xs)
      ≡ verdict_of_counts
          (receipt_refutation r)
          (receipt_inability r)
          r.policy
          (length xs)
          (verified_count xs)
  verdict-with_anchors =
      verdict-counts (with_anchors r xs) ∙ rw (refutation-with_anchors, inability-with_anchors) refl

-- One more anchor that is not verified is no matter to a quorum of one.
single_ignores :
    (c i : Option ReasonCode) (p : AnchorPolicy) (n m : ℕ)
    → p ≡ AnchorPolicy.single_anchor
    → m ≤ n
    → verdict_of_counts c i p (n + 1) (m + 0) ≡ verdict_of_counts c i p n m
single_ignores (some _) i p n m e h = refl
single_ignores none (some _) p n m e h = refl
single_ignores none none p n m e h = ground arith

-- No list of anchor results turns a receipt into an invalid one or an invalid receipt into another.
pub anchors_never_refute :
    (r : SingleVerificationResult) (xs ys : List AnchorVerificationResult)
    → (verdict (with_anchors r xs)).status ≡ Status.invalid
    → verdict (with_anchors r ys) ≡ verdict (with_anchors r xs)
anchors_never_refute r xs ys h =
    ground (arith, verdict-with_anchors r xs, verdict-with_anchors r ys)

module _ (r : SingleVerificationResult) (xs ys : List AnchorVerificationResult)
    (a : AnchorVerificationResult) where
  -- Under the relaxed policy, an anchor that is not verified changes nothing in the verdict, status
  -- and reason code, wherever a relay inserts it.
  pub insert_unverified_single :
      r.policy ≡ AnchorPolicy.single_anchor
      → is_verified a ≡ false
      → verdict (with_anchors r (xs ++ a ∷ ys)) ≡ verdict (with_anchors r (xs ++ ys))
  insert_unverified_single p h =
      verdict-with_anchors r (xs ++ a ∷ ys)
      ∙ rw
          (
            verdict-with_anchors r (xs ++ ys),
            length-insert xs ys a,
            verified_count-insert xs ys a,
            h,
          )
          (single_ignores (receipt_refutation r) (receipt_inability r) r.policy (length (xs ++ ys))
            (verified_count (xs ++ ys)) p (count_if-le-length is_verified (xs ++ ys)))

  -- Under the default policy, an inserted anchor that is not verified leaves the verdict on an invalid
  -- receipt as it was and makes every other receipt untrusted, never valid.
  pub insert_unverified_all :
      r.policy ≡ AnchorPolicy.all_anchors
      → is_verified a ≡ false
      → ((verdict (with_anchors r (xs ++ ys))).status ≡ Status.invalid
          → verdict (with_anchors r (xs ++ a ∷ ys)) ≡ verdict (with_anchors r (xs ++ ys)))
        × ((verdict (with_anchors r (xs ++ ys))).status ≢ Status.invalid
            → (verdict (with_anchors r (xs ++ a ∷ ys))).status ≡ Status.untrusted)
  insert_unverified_all p h = (
    λ invalid. anchors_never_refute r (xs ++ ys) (xs ++ a ∷ ys) invalid,
    λ other. ground (
      arith,
      verdict-with_anchors r (xs ++ a ∷ ys),
      verdict-with_anchors r (xs ++ ys),
      verified_count-insert xs ys a,
      length-insert xs ys a,
      count_if-le-length is_verified (xs ++ ys),
    ),
  )

  -- A further verified anchor keeps a valid receipt valid, under either policy.
  pub insert_verified_keeps_valid :
      is_verified a ≡ true
      → (verdict (with_anchors r (xs ++ ys))).status ≡ Status.valid
      → (verdict (with_anchors r (xs ++ a ∷ ys))).status ≡ Status.valid
  insert_verified_keeps_valid h k = ground (
    arith,
    verdict-with_anchors r (xs ++ a ∷ ys),
    verdict-with_anchors r (xs ++ ys),
    verified_count-insert xs ys a,
    length-insert xs ys a,
  )

weight : AnchorVerificationResult → ℕ
weight a = if is_verified a then 1 else 0

sizes-Permᴰ :
    {xs ys : List AnchorVerificationResult}
    → Permᴰ xs ys
    → (length xs ≡ length ys) × (verified_count xs ≡ verified_count ys)
unfolding weight
sizes-Permᴰ Permᴰ.nil = (refl, refl)
sizes-Permᴰ (Permᴰ.cons e p) = omega (arith, sizes-Permᴰ p, ap weight e)
sizes-Permᴰ (Permᴰ.swap e f) = omega (arith, ap weight e, ap weight f)
sizes-Permᴰ (Permᴰ.trans p q) = omega (arith, sizes-Permᴰ p, sizes-Permᴰ q)

-- The verdict does not depend on the order in which the anchors were presented.
pub verdict-Perm :
    (r : SingleVerificationResult) (xs ys : List AnchorVerificationResult)
    → Perm xs ys
    → verdict (with_anchors r xs) ≡ verdict (with_anchors r ys)
verdict-Perm r xs ys p =
    let lengths : length xs ≡ length ys = ∥∥₁_elim p (ℕ_set _ _) (λ q. (sizes-Permᴰ q).0) in
    let counts : verified_count xs ≡ verified_count ys =
      ∥∥₁_elim p (ℕ_set _ _) (λ q. (sizes-Permᴰ q).1) in
    verdict-with_anchors r xs ∙ rw (lengths, counts) (sym (verdict-with_anchors r ys))
