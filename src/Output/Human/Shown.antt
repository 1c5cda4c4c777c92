-- ===== src/Output/Human/Shown.antt =====
-- What the output for people (src/output/human.rs) never leaves out.
use atl_cli.Prelude.{
  String, str_eq, eq_iff, Bool, true, ◌||◌, Option, some, List, [], ◌∷◌, ◌++◌, ◌≡◌, ◌⊎◌, inl, inr,
  refl, sym, subst, arith, map, any, filter_map, concat, if◌then◌else◌, All, All-map,
}
use atl_cli.Verify.Verdict.{ReasonCode}
use atl_cli.Verify.Verdict.Codes.{as_str}
use atl_cli.Verify.Anchor.{
  AnchorVerdict, AnchorVerificationResult, from_reason, AnchorState, state_str,
}
use atl_cli.Verify.Policy.{AnchorPolicy, UnresolvedAnchor, TrustAssessment, compute}
use atl_cli.Verify.Policy.Tally.{
  unresolved_entry, refuted_entry, compute-unresolved, compute-refuted,
}
use atl_cli.Output.Human.Assessment.{
  unresolved_line, refuted_line, assessment_head, profile_line, assessment_lines,
}

All-map2 :
    {A : Type 0} {P Q R : A → Type 0} (xs : List A)
    → ((x : A) → P x → Q x → R x)
    → All P xs
    → All Q xs
    → All R xs
All-map2 [] f h k = tt
All-map2 (x ∷ xs) f (h, hs) (k, ks) = (f x h k, All-map2 xs f hs ks)

abbrev pub shown : String → List String → Bool
shown line lines = any (λ other. str_eq line other) lines

shown-append :
    (line : String) (xs ys : List String) → shown line (xs ++ ys) ≡ (shown line xs || shown line ys)
shown-append line [] ys = refl
shown-append line (x ∷ xs) ys = ground (arith, shown-append line xs ys)

shown-head : (line : String) (lines : List String) → shown line (line ∷ lines) ≡ true
shown-head line lines = grind (arith, (eq_iff line line).1 refl)

module _ {A : Type 0} (f : A → Option UnresolvedAnchor) (line : UnresolvedAnchor → String) where
  abbrev lines_of : List A → List String
  lines_of xs = map line (filter_map f xs)

  shown-later :
      (l : String) (x : A) (xs : List A)
      → shown l (lines_of xs) ≡ true
      → shown l (lines_of (x ∷ xs)) ≡ true
  shown-later l x xs h = ground arith

  shown-first :
      (x : A) (xs : List A) (e : UnresolvedAnchor)
      → f x ≡ some e
      → shown (line e) (lines_of (x ∷ xs)) ≡ true
  shown-first x xs e h = grind (arith, shown-head (line e) (lines_of xs))

  -- What is found by a function in a list has its line among those of what is found.
  shown-found :
      (xs : List A)
      → All (λ x. (e : UnresolvedAnchor) → f x ≡ some e → shown (line e) (lines_of xs) ≡ true) xs
  shown-found [] = tt
  shown-found (x ∷ xs) = (
    λ e h. shown-first x xs e h,
    All-map xs (λ y given e h. shown-later (line e) x xs (given e h)) (shown-found xs),
  )

-- How a reader is told what kind of anchor it is.
abbrev pub kind_text : String → String
kind_text kind =
    if str_eq kind "rfc3161"
    then "RFC 3161 (TSA)"
    else if str_eq kind "bitcoin_ots"
    then "Bitcoin OTS"
    else kind

-- An anchor that is not verified has its line, with its type, its state and its reason code: one that
-- says why it is not resolved, or one that says why it is refuted.
abbrev pub IsAccounted : List String → (kind : String) → AnchorVerdict → Type 0
IsAccounted lines kind AnchorVerdict.valid = Unit
IsAccounted lines kind (AnchorVerdict.untrusted reason) =
    shown
      (concat (
        "    - "
        ∷ kind_text kind
        ∷ " not resolved: "
        ∷ state_str (from_reason reason)
        ∷ " ("
        ∷ as_str reason
        ∷ ")"
        ∷ []))
      lines
    ≡ true
IsAccounted lines kind (AnchorVerdict.invalid reason) =
    shown
      (concat
        ("    - " ∷ kind_text kind ∷ " REFUTED: " ∷ "refuted" ∷ " (" ∷ as_str reason ∷ ")" ∷ []))
      lines
    ≡ true

accounted :
    (lines : List String) (a : AnchorVerificationResult)
    → ((e : UnresolvedAnchor)
        → unresolved_entry a ≡ some e
        → shown (unresolved_line e) lines ≡ true)
    → ((e : UnresolvedAnchor) → refuted_entry a ≡ some e → shown (refuted_line e) lines ≡ true)
    → IsAccounted lines a.anchor_type a.verdict
unfolding unresolved_line refuted_line state_str
accounted lines a given refuted = by_verdict a.verdict refl
  where
    by_verdict : (v : AnchorVerdict) → a.verdict ≡ v → IsAccounted lines a.anchor_type v
    by_verdict AnchorVerdict.valid e = tt
    by_verdict (AnchorVerdict.untrusted reason) e =
        given (record { anchor_type = a.anchor_type; state = from_reason reason; reason = reason })
          (rw e)
    by_verdict (AnchorVerdict.invalid reason) e =
        refuted
          (record { anchor_type = a.anchor_type; state = AnchorState.refuted; reason = reason })
          (rw e)

module _ (l : String) where
  pub shown-left : (xs ys : List String) → shown l xs ≡ true → shown l (xs ++ ys) ≡ true
  shown-left xs ys h = ground (arith, shown-append l xs ys)

  pub shown-right : (xs ys : List String) → shown l ys ≡ true → shown l (xs ++ ys) ≡ true
  shown-right xs ys h = ground (arith, shown-append l xs ys)

  -- The assessment shows what its coverage list shows.
  shown-coverage :
      (t : TrustAssessment)
      → (shown l (map unresolved_line t.unresolved) ≡ true)
        ⊎ (shown l (map refuted_line t.refuted) ≡ true)
      → shown l (assessment_lines t) ≡ true
  unfolding assessment_lines
  shown-coverage t (inl h) =
      shown-right (assessment_head t)
        (map unresolved_line t.unresolved ++ (map refuted_line t.refuted ++ profile_line t ∷ []))
        (shown-left (map unresolved_line t.unresolved)
          (map refuted_line t.refuted ++ profile_line t ∷ []) h)
  shown-coverage t (inr h) =
      shown-right (assessment_head t)
        (map unresolved_line t.unresolved ++ (map refuted_line t.refuted ++ profile_line t ∷ []))
        (shown-right (map unresolved_line t.unresolved)
          (map refuted_line t.refuted ++ profile_line t ∷ [])
          (shown-left (map refuted_line t.refuted) (profile_line t ∷ []) h))

module _ (policy : AnchorPolicy) (r : Option ReasonCode)
    (anchors : List AnchorVerificationResult) where
  -- The trust assessment printed for a receipt names every anchor of the receipt that is not verified,
  -- with its type, its state and its reason code, whatever the policy is and whether or not the
  -- receipt is refuted.
  pub assessment_lines-Accounts :
      All
        (λ a. IsAccounted (assessment_lines (compute anchors policy r)) a.anchor_type a.verdict)
        anchors
  assessment_lines-Accounts =
      let t = compute anchors policy r in
      All-map2 anchors
        (λ a given refuted.
          accounted (assessment_lines t) a
            (λ e h. shown-coverage (unresolved_line e) t (
              inl (
                subst (λ es. shown (unresolved_line e) (map unresolved_line es) ≡ true)
                  (sym (compute-unresolved anchors policy r)) (given e h))))
            (λ e h. shown-coverage (refuted_line e) t (
              inr (
                subst (λ es. shown (refuted_line e) (map refuted_line es) ≡ true)
                  (sym (compute-refuted anchors policy r)) (refuted e h)))))
        (shown-found unresolved_entry unresolved_line anchors)
        (shown-found refuted_entry refuted_line anchors)
