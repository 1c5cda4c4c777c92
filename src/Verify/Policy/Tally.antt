-- ===== src/Verify/Policy/Tally.antt =====
-- What the loop of `TrustAssessment::compute` (src/verify/policy.rs) adds up.
use atl_cli.Prelude.{
  ℕ, ◌+◌, String, str_eq, Bool, true, false, ◌&&◌, ◌||◌, Option, none, some, List, [], ◌∷◌, ◌++◌,
  ◌≡◌, eq_iff, refl, ◌∙◌, sym, arith, length, length-append, count_if, any, filter_map,
  if◌then◌else◌, inl, inr, ◌⊎◌,
}
use mathlib.Core.List.{append_assoc, append-nil}
use atl_cli.Verify.Verdict.{ReasonCode}
use atl_cli.Verify.Anchor.{
  AnchorVerdict, AnchorState, AnchorVerificationResult, is_valid, from_reason,
}
use atl_cli.Verify.Policy.{
  AnchorPolicy, UnresolvedAnchor, Locals, compute, no_tally, tally, tally_verdict, mark_type,
}

abbrev pub is_verified : AnchorVerificationResult → Bool
is_verified a = is_valid a.verdict

abbrev pub verified_count : List AnchorVerificationResult → ℕ
verified_count = count_if is_verified

-- The entry for an anchor with no result, and the entry for a refuted one.
abbrev pub unresolved_entry : AnchorVerificationResult → Option UnresolvedAnchor
unresolved_entry a = elim a.verdict [
  | AnchorVerdict.untrusted reason ↦
      some (record { anchor_type = a.anchor_type; state = from_reason reason; reason = reason })
  | _ ↦ none
]

abbrev pub refuted_entry : AnchorVerificationResult → Option UnresolvedAnchor
refuted_entry a = elim a.verdict [
  | AnchorVerdict.invalid reason ↦
      some (record { anchor_type = a.anchor_type; state = AnchorState.refuted; reason = reason })
  | _ ↦ none
]

abbrev pub is_verified_as : String → AnchorVerificationResult → Bool
is_verified_as kind a = is_valid a.verdict && str_eq a.anchor_type kind

verdict-cases :
    (a : AnchorVerificationResult)
    → (a.verdict ≡ AnchorVerdict.valid)
      ⊎ (((reason : ReasonCode) × (a.verdict ≡ AnchorVerdict.invalid reason))
          ⊎ ((reason : ReasonCode) × (a.verdict ≡ AnchorVerdict.untrusted reason)))
verdict-cases a = by_verdict a.verdict refl
  where
    by_verdict :
        (v : AnchorVerdict)
        → a.verdict ≡ v
        → (a.verdict ≡ AnchorVerdict.valid)
          ⊎ (((reason : ReasonCode) × (a.verdict ≡ AnchorVerdict.invalid reason))
              ⊎ ((reason : ReasonCode) × (a.verdict ≡ AnchorVerdict.untrusted reason)))
    by_verdict AnchorVerdict.valid e = inl e
    by_verdict (AnchorVerdict.invalid reason) e = inr (inl (reason, e))
    by_verdict (AnchorVerdict.untrusted reason) e = inr (inr (reason, e))

tally_step :
    (a : AnchorVerificationResult) (t : Locals)
    → (tally_verdict a.verdict a.anchor_type t).verified_anchors
      ≡ t.verified_anchors + (if is_valid a.verdict then 1 else 0)
unfolding tally_verdict mark_type is_valid
tally_step a t = ground arith

tally-verified :
    (xs : List AnchorVerificationResult) (t : Locals)
    → (tally xs t).verified_anchors ≡ t.verified_anchors + verified_count xs
unfolding tally
tally-verified [] t = omega arith
tally-verified (a ∷ xs) t =
    omega (arith, tally_step a t, tally-verified xs (tally_verdict a.verdict a.anchor_type t))

abbrev size : Locals → ℕ
size t = t.verified_anchors + length t.unresolved + length t.refuted

size-tally_verdict :
    (v : AnchorVerdict) (kind : String) (t : Locals) → size (tally_verdict v kind t) ≡ size t + 1
unfolding tally_verdict mark_type
size-tally_verdict AnchorVerdict.valid kind t = ground arith
size-tally_verdict (AnchorVerdict.invalid reason) kind t =
    omega (arith, length-append {0} t.refuted)
size-tally_verdict (AnchorVerdict.untrusted reason) kind t =
    omega (arith, length-append {0} t.unresolved)

size-tally :
    (xs : List AnchorVerificationResult) (t : Locals) → size (tally xs t) ≡ size t + length xs
unfolding tally
size-tally [] t = omega arith
size-tally (a ∷ xs) t =
    let t' = tally_verdict a.verdict a.anchor_type t in
    omega (arith, size-tally_verdict a.verdict a.anchor_type t, size-tally xs t')

tally-unresolved :
    (xs : List AnchorVerificationResult) (t : Locals)
    → (tally xs t).unresolved ≡ t.unresolved ++ filter_map unresolved_entry xs
unfolding tally tally_verdict mark_type
tally-unresolved [] t = sym (append-nil _)
tally-unresolved (a ∷ xs) t = elim (verdict-cases a) [
  | inl e ↦ rw e (tally-unresolved xs _ ∙ ground arith)
  | inr (inl (reason, e)) ↦ rw e (tally-unresolved xs _)
  | inr (inr (reason, e)) ↦ rw e (
      tally-unresolved xs _
      ∙ append_assoc t.unresolved
          (record { anchor_type = a.anchor_type; state = from_reason reason; reason = reason } ∷ [])
          (filter_map unresolved_entry xs))
]

tally-refuted :
    (xs : List AnchorVerificationResult) (t : Locals)
    → (tally xs t).refuted ≡ t.refuted ++ filter_map refuted_entry xs
unfolding tally tally_verdict mark_type
tally-refuted [] t = sym (append-nil _)
tally-refuted (a ∷ xs) t = elim (verdict-cases a) [
  | inl e ↦ rw e (tally-refuted xs _ ∙ ground arith)
  | inr (inl (reason, e)) ↦ rw e (
      tally-refuted xs _
      ∙ append_assoc t.refuted
          (record { anchor_type = a.anchor_type; state = AnchorState.refuted; reason = reason }
            ∷ [])
          (filter_map refuted_entry xs))
  | inr (inr (reason, e)) ↦ rw e (tally-refuted xs _)
]

kinds_differ : (kind : String) → str_eq kind "rfc3161" ≡ true → str_eq kind "bitcoin_ots" ≡ false
kinds_differ kind h = rw ((eq_iff kind "rfc3161").0 h)

types_step :
    (a : AnchorVerificationResult) (t : Locals)
    → ((tally_verdict a.verdict a.anchor_type t).rfc3161_verified
        ≡ t.rfc3161_verified || is_verified_as "rfc3161" a)
      × ((tally_verdict a.verdict a.anchor_type t).bitcoin_verified
          ≡ t.bitcoin_verified || is_verified_as "bitcoin_ots" a)
unfolding tally_verdict mark_type is_valid
types_step a t = ground (arith, kinds_differ a.anchor_type)

tally-types :
    (xs : List AnchorVerificationResult) (t : Locals)
    → ((tally xs t).rfc3161_verified ≡ t.rfc3161_verified || any (is_verified_as "rfc3161") xs)
      × ((tally xs t).bitcoin_verified
          ≡ t.bitcoin_verified || any (is_verified_as "bitcoin_ots") xs)
unfolding tally
tally-types [] t = ground arith
tally-types (a ∷ xs) t =
    ground (arith, types_step a t, tally-types xs (tally_verdict a.verdict a.anchor_type t))

module _ (anchors : List AnchorVerificationResult) (policy : AnchorPolicy)
    (r : Option ReasonCode) where
  pub compute-verified : (compute anchors policy r).verified_anchors ≡ verified_count anchors
  unfolding compute
  compute-verified = tally-verified anchors _ ∙ omega arith

  pub compute-types :
      (compute anchors policy r).both_anchor_types_verified
      ≡ any (is_verified_as "rfc3161") anchors && any (is_verified_as "bitcoin_ots") anchors
  unfolding compute
  compute-types = ground (arith, tally-types anchors no_tally)

  pub compute-unresolved :
      (compute anchors policy r).unresolved ≡ filter_map unresolved_entry anchors
  unfolding compute
  compute-unresolved = tally-unresolved anchors _

  pub compute-refuted : (compute anchors policy r).refuted ≡ filter_map refuted_entry anchors
  unfolding compute
  compute-refuted = tally-refuted anchors _

  -- Every anchor presented is counted on exactly one of the three sides: verified, unresolved or
  -- refuted.
  pub compute-total :
      let t = compute anchors policy r in
      t.verified_anchors + length t.unresolved + length t.refuted ≡ t.total_anchors
  unfolding compute
  compute-total = size-tally anchors no_tally ∙ omega arith
