-- ===== src/Verify/Consistency/Order.antt =====
-- The receipts that take part in the check of src/verify/consistency.rs are those with a super proof,
-- each once.
use mathlib.Core.List.{Permᴰ, append-nil, append_assoc}
use mathlib.Core.List.Permᴰ
use atl_cli.Prelude.{
  String, str_eq, Bool, true, false, Bool-cases, inl, inr, Option, none, some, is_some, List, [],
  ◌∷◌, ◌++◌, refl, sym, subst, filter, leb, if◌then◌else◌,
}
use atl_cli.Core.{SuperProof}
use atl_cli.Verify.Single.{SingleVerificationResult}
use atl_cli.Verify.Consistency.{
  CrossServices, LogInstance, push, group_one, group_into, insert_by_size, sort_by_size, tree_size,
  participants_of,
}

abbrev pub takes_part : SingleVerificationResult → Bool
takes_part r = is_some r.receipt.super_proof

insert_by_size-Perm :
    (r : SingleVerificationResult) (rs : List SingleVerificationResult)
    → Permᴰ (insert_by_size r rs) (r ∷ rs)
unfolding insert_by_size
insert_by_size-Perm r [] = Permᴰ.refl (r ∷ [])
insert_by_size-Perm r (x ∷ rs) = elim (Bool-cases (leb (tree_size r) (tree_size x))) [
  | inl e ↦ rw (e) (Permᴰ.refl (r ∷ x ∷ rs))
  | inr e ↦ rw (e) (Permᴰ.trans (Permᴰ.cons refl (insert_by_size-Perm r rs)) (Permᴰ.swap refl refl))
]

sort_by_size-Perm : (rs : List SingleVerificationResult) → Permᴰ (sort_by_size rs) rs
unfolding sort_by_size
sort_by_size-Perm [] = Permᴰ.nil
sort_by_size-Perm (r ∷ rs) =
    Permᴰ.trans (insert_by_size-Perm r (sort_by_size rs)) (Permᴰ.cons refl (sort_by_size-Perm rs))

-- The receipts of all log instances.
abbrev receipts_of : List LogInstance → List SingleVerificationResult
receipts_of [] = []
receipts_of (g ∷ gs) = g.receipts ++ receipts_of gs

module _ (s : CrossServices) where
  push-Perm :
      (genesis : String) (r : SingleVerificationResult) (gs : List LogInstance)
      → Permᴰ (receipts_of (push s genesis r gs)) (r ∷ receipts_of gs)
  unfolding push
  push-Perm genesis r [] = Permᴰ.refl (r ∷ [])
  push-Perm genesis r (g ∷ gs) = elim (Bool-cases (str_eq genesis g.genesis)) [
    | inl e ↦ rw (e) (
        subst (λ l. Permᴰ l (r ∷ (g.receipts ++ receipts_of gs)))
          (sym (append_assoc g.receipts (r ∷ []) (receipts_of gs)))
          (Permᴰ.middle r g.receipts (receipts_of gs)))
    | inr e ↦ rw (e) (elim (Bool-cases (s.before genesis g.genesis)) [
      | inl b ↦ rw (b) (Permᴰ.refl (r ∷ (g.receipts ++ receipts_of gs)))
      | inr b ↦ rw (b) (
          Permᴰ.trans (Permᴰ.append_left g.receipts (push-Perm genesis r gs))
            (Permᴰ.middle r g.receipts (receipts_of gs)))
    ])
  ]

  group_one-Perm :
      (o : Option SuperProof) (r : SingleVerificationResult) (gs : List LogInstance)
      → Permᴰ
          (receipts_of (group_one s o r gs))
          (if is_some o then r ∷ receipts_of gs else receipts_of gs)
  unfolding group_one
  group_one-Perm none r gs = Permᴰ.refl (receipts_of gs)
  group_one-Perm (some sp) r gs = push-Perm sp.genesis_super_root r gs

  kept_first :
      (b : Bool) (r : SingleVerificationResult) (kept rest : List SingleVerificationResult)
      → Permᴰ (kept ++ (if b then r ∷ rest else rest)) ((if b then r ∷ kept else kept) ++ rest)
  kept_first true r kept rest = Permᴰ.middle r kept rest
  kept_first false r kept rest = Permᴰ.refl (kept ++ rest)

  group_into-Perm :
      (gs : List LogInstance) (rs : List SingleVerificationResult)
      → Permᴰ (receipts_of (group_into s gs rs)) (filter takes_part rs ++ receipts_of gs)
  unfolding group_into
  group_into-Perm gs [] = Permᴰ.refl (receipts_of gs)
  group_into-Perm gs (r ∷ rs) =
      Permᴰ.trans (group_into-Perm (group_one s r.receipt.super_proof r gs) rs) (
        Permᴰ.trans
          (Permᴰ.append_left (filter takes_part rs) (group_one-Perm r.receipt.super_proof r gs))
          (kept_first (takes_part r) r (filter takes_part rs) (receipts_of gs)))

  participants_of-Perm : (gs : List LogInstance) → Permᴰ (participants_of s gs) (receipts_of gs)
  unfolding participants_of
  participants_of-Perm [] = Permᴰ.nil
  participants_of-Perm (g ∷ gs) =
      Permᴰ.trans (Permᴰ.append_right (participants_of s gs) (sort_by_size-Perm g.receipts))
        (Permᴰ.append_left g.receipts (participants_of-Perm gs))

  -- The participants of the check are the receipts with a super proof, in some order.
  pub participants-Perm :
      (rs : List SingleVerificationResult)
      → Permᴰ (participants_of s (group_into s [] rs)) (filter takes_part rs)
  participants-Perm rs = Permᴰ.trans (participants_of-Perm (group_into s [] rs)) (
      subst (Permᴰ (receipts_of (group_into s [] rs))) (append-nil (filter takes_part rs))
        (group_into-Perm [] rs))
