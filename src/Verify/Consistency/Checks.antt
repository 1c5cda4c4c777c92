-- ===== src/Verify/Consistency/Checks.antt =====
-- What the cross checks compare, in one sorted log instance and in all of them.
use atl_cli.Prelude.{
  ℕ, suc, ◌+◌, ◌≤◌, String, Option, none, some, List, [], ◌∷◌, ◌++◌, ◌≡◌, refl, arith, length, All,
  get_elem?, get_elem?-append, All-map, All-append, subst,
}
use atl_cli.Core.{SuperProof}
use atl_cli.Verify.Single.{SingleVerificationResult}
use atl_cli.Verify.Consistency.{
  CrossServices, CrossCheck, LogInstance, cross_checks, checks_of, participants_of, sort_by_size,
  insert_by_size, tree_size,
}

-- The identifier of the log instance that a receipt names.
abbrev pub name_of : Option SuperProof → Option String
name_of none = none
name_of (some sp) = some sp.genesis_super_root

abbrev pub genesis_of : SingleVerificationResult → Option String
genesis_of r = name_of r.receipt.super_proof

-- Two receipts of one log instance, the first not from a later state of it.
abbrev pub Precedes : SingleVerificationResult → SingleVerificationResult → Type 0
Precedes a b = (genesis_of a ≡ genesis_of b) × (tree_size a ≤ tree_size b)

abbrev Chain : List SingleVerificationResult → Type 0
Chain [] = Unit
Chain (a ∷ []) = Unit
Chain (a ∷ b ∷ rs) = Precedes a b × Chain (b ∷ rs)

abbrev pub HasGenesis : String → SingleVerificationResult → Type 0
HasGenesis g r = genesis_of r ≡ some g

insert_by_size-HasGenesis :
    (g : String) (r : SingleVerificationResult) (rs : List SingleVerificationResult)
    → HasGenesis g r
    → All (HasGenesis g) rs
    → All (HasGenesis g) (insert_by_size r rs)
unfolding insert_by_size
insert_by_size-HasGenesis g r [] h hs = (h, tt)
insert_by_size-HasGenesis g r (x ∷ rs) h hs =
    ground (arith, insert_by_size-HasGenesis g r rs h hs.1)

insert_by_size-Chain :
    (g : String) (r : SingleVerificationResult) (rs : List SingleVerificationResult)
    → HasGenesis g r
    → All (HasGenesis g) rs
    → Chain rs
    → Chain (insert_by_size r rs)
unfolding insert_by_size
insert_by_size-Chain g r [] h hs c = tt
insert_by_size-Chain g r (x ∷ []) h hs c = ground arith
insert_by_size-Chain g r (x ∷ y ∷ rs) h hs c =
    ground (arith, insert_by_size-Chain g r (y ∷ rs) h hs.1 c.1)

sort_by_size-HasGenesis :
    (g : String) (rs : List SingleVerificationResult)
    → All (HasGenesis g) rs
    → All (HasGenesis g) (sort_by_size rs)
unfolding sort_by_size
sort_by_size-HasGenesis g [] h = tt
sort_by_size-HasGenesis g (r ∷ rs) h =
    insert_by_size-HasGenesis g r (sort_by_size rs) h.0 (sort_by_size-HasGenesis g rs h.1)

pub sort_by_size-Chain :
    (g : String) (rs : List SingleVerificationResult)
    → All (HasGenesis g) rs
    → Chain (sort_by_size rs)
unfolding sort_by_size
sort_by_size-Chain g [] h = tt
sort_by_size-Chain g (r ∷ rs) h =
    insert_by_size-Chain g r (sort_by_size rs) h.0 (sort_by_size-HasGenesis g rs h.1)
      (sort_by_size-Chain g rs h.1)

-- Every receipt of a log instance names that instance.
abbrev pub IsUniform : LogInstance → Type 0
IsUniform g = All (HasGenesis g.genesis) g.receipts

module _ (s : CrossServices) where
  -- A check whose two indices, counted from `base`, name neighbours of a list, of one log instance and
  -- in order, and whose result is that of comparing these two.
  pub record Compares (base : ℕ) (rs : List SingleVerificationResult) (c : CrossCheck)
      : Type 0 where
    pub earlier : SingleVerificationResult
    pub later : SingleVerificationResult
    pub offset : ℕ
    pub from : c.from_index ≡ base + offset
    pub to : c.to_index ≡ base + suc offset
    pub earlier_at : get_elem? rs offset ≡ some earlier
    pub later_at : get_elem? rs (suc offset) ≡ some later
    pub precedes : Precedes earlier later
    pub compared : c.result ≡ s.verify_cross_receipts earlier.receipt later.receipt

  Compares-cons :
      (base : ℕ) (r : SingleVerificationResult) (rs : List SingleVerificationResult)
      (c : CrossCheck)
      → Compares (base + 1) rs c
      → Compares base (r ∷ rs) c
  Compares-cons base r rs c h = record {
    earlier = h.earlier;
    later = h.later;
    offset = suc h.offset;
    from = omega (arith, h.from);
    to = omega (arith, h.to);
    earlier_at = h.earlier_at;
    later_at = h.later_at;
    precedes = h.precedes;
    compared = h.compared;
  }

  cross_checks-Compares :
      (base : ℕ) (rs : List SingleVerificationResult)
      → Chain rs
      → All (Compares base rs) (cross_checks s base rs)
  unfolding cross_checks
  cross_checks-Compares base [] h = tt
  cross_checks-Compares base (a ∷ []) h = tt
  cross_checks-Compares base (a ∷ b ∷ rs) h = (
    record {
      earlier = a;
      later = b;
      offset = 0;
      from = omega arith;
      to = omega arith;
      earlier_at = refl;
      later_at = refl;
      precedes = h.0;
      compared = refl;
    },
    All-map (cross_checks s (base + 1) (b ∷ rs)) (λ c. Compares-cons base a (b ∷ rs) c)
        (cross_checks-Compares (base + 1) (b ∷ rs) h.1),
  )

  Compares-append :
      (base : ℕ) (rs others : List SingleVerificationResult) (c : CrossCheck)
      → Compares base rs c
      → Compares base (rs ++ others) c
  Compares-append base rs others c h = record {
    earlier = h.earlier;
    later = h.later;
    offset = h.offset;
    from = h.from;
    to = h.to;
    earlier_at = get_elem?-append rs others h.offset h.earlier_at;
    later_at = get_elem?-append rs others (suc h.offset) h.later_at;
    precedes = h.precedes;
    compared = h.compared;
  }

  Compares-prepend :
      (base : ℕ) (others rs : List SingleVerificationResult) (c : CrossCheck)
      → Compares (base + length others) rs c
      → Compares base (others ++ rs) c
  Compares-prepend base [] rs c h = record {
    earlier = h.earlier;
    later = h.later;
    offset = h.offset;
    from = omega (arith, h.from);
    to = omega (arith, h.to);
    earlier_at = h.earlier_at;
    later_at = h.later_at;
    precedes = h.precedes;
    compared = h.compared;
  }
  Compares-prepend base (r ∷ others) rs c h =
      Compares-cons base r (others ++ rs) c
        (Compares-prepend (base + 1) others rs c (subst (λ n. Compares n rs c) (omega arith) h))

  pub checks_of-Compares :
      (base : ℕ) (gs : List LogInstance)
      → All IsUniform gs
      → All (Compares base (participants_of s gs)) (checks_of s base gs)
  unfolding checks_of participants_of
  checks_of-Compares base [] h = tt
  checks_of-Compares base (g ∷ gs) h =
      All-append (Compares base (participants_of s (g ∷ gs)))
        (cross_checks s base (sort_by_size g.receipts))
        (checks_of s (base + length (sort_by_size g.receipts)) gs)
        (All-map (cross_checks s base (sort_by_size g.receipts))
          (λ c. Compares-append base (sort_by_size g.receipts) (participants_of s gs) c)
          (cross_checks-Compares base (sort_by_size g.receipts)
            (sort_by_size-Chain g.genesis g.receipts h.0)))
        (All-map (checks_of s (base + length (sort_by_size g.receipts)) gs)
          (λ c. Compares-prepend base (sort_by_size g.receipts) (participants_of s gs) c)
          (checks_of-Compares (base + length (sort_by_size g.receipts)) gs h.1))
