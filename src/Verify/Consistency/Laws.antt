-- ===== src/Verify/Consistency/Laws.antt =====
-- What a consistency result of src/verify/consistency.rs says of the receipts of a batch.
use mathlib.Core.List.{Permᴰ}
use atl_cli.Prelude.{
  filter, ℕ, ◌+◌, ◌<◌, String, eq_iff, All-map, str_eq, Bool-cases, inl, inr, ap, ◌∙◌, All-concat,
  if◌then◌else◌, true, Option, none, some, is_some, List, [], ◌∷◌, ◌++◌, ◌≡◌, ◌↔◌, refl, arith,
  length, All, all_iff, count_if, length-append, map,
}
use atl_cli.Core.{SuperProof}
use atl_cli.Verify.Single.{SingleVerificationResult}
use atl_cli.Verify.Consistency.{
  CrossServices, ConsistencyResult, file_name, CrossCheck, LogInstance, consistent,
  verify_consistency, consistency_of, push, group_one, group_into, sort_by_size, insert_by_size,
  cross_checks, checks_of, participants_of, errors_of,
}
use atl_cli.Verify.Consistency.Checks.{Compares, checks_of-Compares, IsUniform, HasGenesis, name_of}
use atl_cli.Verify.Consistency.Order.{takes_part, participants-Perm}

length-insert_by_size :
    (r : SingleVerificationResult) (rs : List SingleVerificationResult)
    → length (insert_by_size r rs) ≡ length rs + 1
unfolding insert_by_size
length-insert_by_size r [] = refl
length-insert_by_size r (x ∷ rs) = ground (arith, length-insert_by_size r rs)

length-sort_by_size : (rs : List SingleVerificationResult) → length (sort_by_size rs) ≡ length rs
unfolding sort_by_size
length-sort_by_size [] = refl
length-sort_by_size (r ∷ rs) =
    omega (arith, length-insert_by_size r (sort_by_size rs), length-sort_by_size rs)

-- How many receipts the log instances hold.
abbrev held : List LogInstance → ℕ
held [] = 0
held (g ∷ gs) = length g.receipts + held gs

-- A log instance holds a receipt, and only receipts that name it.
abbrev IsInstance : LogInstance → Type 0
IsInstance g = (0 < length g.receipts) × IsUniform g

module _ (s : CrossServices) where
  push-IsInstance :
      (genesis : String) (r : SingleVerificationResult) (gs : List LogInstance)
      → HasGenesis genesis r
      → All IsInstance gs
      → All IsInstance (push s genesis r gs)
  unfolding push
  push-IsInstance genesis r [] h hs = ((omega arith, (h, tt)), tt)
  push-IsInstance genesis r (g ∷ gs) h hs = elim (Bool-cases (str_eq genesis g.genesis)) [
    | inl e ↦
        let named : HasGenesis g.genesis r = h ∙ ap some ((eq_iff genesis g.genesis).0 e) in
        let all_named : IsUniform
            (record { genesis = g.genesis; receipts = g.receipts ++ (r ∷ []) }) =
          All-concat (HasGenesis g.genesis) g.receipts hs.0.1 named in
        rw (e) ((omega (arith, length-append g.receipts (r ∷ [])), all_named), hs.1)
    | inr e ↦ ground (arith, push-IsInstance genesis r gs h hs.1)
  ]

  held-push :
      (genesis : String) (r : SingleVerificationResult) (gs : List LogInstance)
      → held (push s genesis r gs) ≡ held gs + 1
  unfolding push
  held-push genesis r [] = refl
  held-push genesis r (g ∷ gs) =
      ground (arith, held-push genesis r gs, length-append g.receipts (r ∷ []))

  group_one-IsInstance :
      (o : Option SuperProof) (r : SingleVerificationResult) (gs : List LogInstance)
      → r.receipt.super_proof ≡ o
      → All IsInstance gs
      → All IsInstance (group_one s o r gs)
  unfolding group_one
  group_one-IsInstance none r gs e h = h
  group_one-IsInstance (some sp) r gs e h =
      push-IsInstance sp.genesis_super_root r gs (ap name_of e) h

  held-group_one :
      (o : Option SuperProof) (r : SingleVerificationResult) (gs : List LogInstance)
      → held (group_one s o r gs) ≡ held gs + (if is_some o then 1 else 0)
  unfolding group_one
  held-group_one none r gs = omega arith
  held-group_one (some sp) r gs = held-push sp.genesis_super_root r gs

  group_into-IsInstance :
      (gs : List LogInstance) (rs : List SingleVerificationResult)
      → All IsInstance gs
      → All IsInstance (group_into s gs rs)
  unfolding group_into
  group_into-IsInstance gs [] h = h
  group_into-IsInstance gs (r ∷ rs) h =
      group_into-IsInstance (group_one s r.receipt.super_proof r gs) rs
        (group_one-IsInstance r.receipt.super_proof r gs refl h)

  held-group_into :
      (gs : List LogInstance) (rs : List SingleVerificationResult)
      → held (group_into s gs rs) ≡ held gs + count_if takes_part rs
  unfolding group_into group_one
  held-group_into gs [] = omega arith
  held-group_into gs (r ∷ rs) = ground (
    arith,
    held-group_one r.receipt.super_proof r gs,
    held-group_into (group_one s r.receipt.super_proof r gs) rs,
  )

  length-participants_of : (gs : List LogInstance) → length (participants_of s gs) ≡ held gs
  unfolding participants_of
  length-participants_of [] = refl
  length-participants_of (g ∷ gs) = omega (
    arith,
    length-append (sort_by_size g.receipts) (participants_of s gs),
    length-sort_by_size g.receipts,
    length-participants_of gs,
  )

  length-cross_checks :
      (base : ℕ) (rs : List SingleVerificationResult)
      → 0 < length rs
      → length (cross_checks s base rs) + 1 ≡ length rs
  unfolding cross_checks
  length-cross_checks base [] h = omega arith
  length-cross_checks base (r ∷ []) h = refl
  length-cross_checks base (a ∷ b ∷ rs) h =
      omega (arith, length-cross_checks (base + 1) (b ∷ rs) (omega arith))

  length-checks_of :
      (base : ℕ) (gs : List LogInstance)
      → All IsInstance gs
      → length (checks_of s base gs) + length gs ≡ held gs
  unfolding checks_of
  length-checks_of base [] h = refl
  length-checks_of base (g ∷ gs) h =
      let sorted : 0 < length (sort_by_size g.receipts) =
        omega (arith, length-sort_by_size g.receipts, h.0.0) in
      omega (
        arith,
        length-append (cross_checks s base (sort_by_size g.receipts))
            (checks_of s (base + length (sort_by_size g.receipts)) gs),
        length-cross_checks base (sort_by_size g.receipts) sorted,
        length-sort_by_size g.receipts,
        length-checks_of (base + length (sort_by_size g.receipts)) gs h.1,
      )

  -- Every receipt that carries a super proof takes part, and no other one does; and there is one check
  -- less than there are participants in each log instance.
  pub verify_consistency-counts :
      (rs : List SingleVerificationResult)
      → ((verify_consistency s rs).receipt_count ≡ count_if takes_part rs)
        × (length (verify_consistency s rs).cross_results
              + (verify_consistency s rs).log_instance_count
            ≡ (verify_consistency s rs).receipt_count)
  unfolding verify_consistency consistency_of
  verify_consistency-counts rs =
      let count : length (participants_of s (group_into s [] rs)) ≡ count_if takes_part rs =
        omega (arith, length-participants_of (group_into s [] rs), held-group_into [] rs) in
      (
        count,
        omega (
          arith,
          length-participants_of (group_into s [] rs),
          length-checks_of 0 (group_into s [] rs) (group_into-IsInstance [] rs tt),
        ),
      )

  -- What a consistency result says of the receipts that it was made from: there is an order of those with
  -- a super proof in which the result names their files, and in which each check compared the two
  -- neighbours at its own two indices.
  pub record IsComparison (rs : List SingleVerificationResult) (c : ConsistencyResult)
      : Type 0 where
    pub order : List SingleVerificationResult
    pub all_take_part : Permᴰ order (filter takes_part rs)
    pub named : c.participants ≡ map (file_name s) order
    pub compared : All (Compares s 0 order) c.cross_results

  -- The participants of a check are the receipts with a super proof, each once, in an order in which
  -- their files are listed, and every cross check compares the receipts at its two indices, which are
  -- neighbours in that order, of one log instance, the first not from a later state of the log than the
  -- second.
  pub verify_consistency-Compares :
      (rs : List SingleVerificationResult) → IsComparison rs (verify_consistency s rs)
  unfolding verify_consistency consistency_of
  verify_consistency-Compares rs = record {
    order = participants_of s (group_into s [] rs);
    all_take_part = participants-Perm s rs;
    named = refl;
    compared =
        checks_of-Compares s 0 (group_into s [] rs)
          (All-map (group_into s [] rs) (λ g h. h.1) (group_into-IsInstance [] rs tt));
  }

  errors_of-valid :
      (cs : List CrossCheck) → All (λ c. c.result.is_valid ≡ true) cs → errors_of s cs ≡ []
  unfolding errors_of
  errors_of-valid [] h = refl
  errors_of-valid (c ∷ cs) h = rw (h.0) (errors_of-valid cs h.1)

  -- The receipts of a batch are consistent exactly if every check between neighbours succeeded, however
  -- many log instances there are.
  pub consistent_iff :
      (rs : List SingleVerificationResult)
      → (consistent (verify_consistency s rs) ≡ true)
        ↔ All (λ c. c.result.is_valid ≡ true) (verify_consistency s rs).cross_results
  unfolding verify_consistency consistency_of consistent
  consistent_iff rs = ground (
    arith,
    all_iff (λ c. c.result.is_valid) (checks_of s 0 (group_into s [] rs)),
    errors_of-valid (checks_of s 0 (group_into s [] rs)),
  )
