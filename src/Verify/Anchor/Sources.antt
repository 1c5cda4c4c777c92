-- ===== src/Verify/Anchor/Sources.antt =====
-- src/verify/anchor.rs: when two block-explorer APIs report the same block header.
use atl_cli.Prelude.{
  ℕ, String, Bool, true, false, ◌&&◌, Option, none, some, List, [], ◌∷◌, ◌≡◌, ◌↔◌, sym, ◌∙◌,
  all_iff, All-map, All-Permᴰ, eq_of_iff, arith, length, all, All, ◌==◌, if◌then◌else◌,
}
use mathlib.Core.List.Permᴰ
use mathlib.Core.List.{Permᴰ}
use atl_cli.Verify.Anchor.{BlockSourceReport}

-- The crates `hex` and `subtle`: the decoder, and the constant-time comparison, which is the equality
-- of two byte strings of one length.
pub record HexBytes : Type 0 where
  pub decode : String → Option (List ℕ)
  pub ct_eq : List ℕ → List ℕ → Bool
  pub ct_eq_iff : (a b : List ℕ) → length a ≡ length b → (ct_eq a b ≡ true) ↔ (a ≡ b)

module _ (x : HexBytes) where
  open x use {decode, ct_eq}

  same_bytes : Option (List ℕ) → Option (List ℕ) → Bool
  same_bytes (some a) (some b) = if length a == length b then ct_eq a b else false
  same_bytes _ _ = false

  -- `same_hex` of `agrees_with`, and the comparison in `check_reported_hash`.
  unfoldable pub same_hex : String → String → Bool
  unfolding same_bytes
  same_hex a b = same_bytes (decode a) (decode b)

  unfoldable pub agrees_with : BlockSourceReport → BlockSourceReport → Bool
  agrees_with s t =
      s.block_timestamp_secs == t.block_timestamp_secs
      && (same_hex s.block_hash t.block_hash && same_hex s.merkle_root t.merkle_root)

  unfoldable pub sources_agree : List BlockSourceReport → Bool
  sources_agree [] = true
  sources_agree (first ∷ rest) = all (λ s. agrees_with s first) (first ∷ rest)

  -- Both texts decode, and to the same bytes.
  abbrev pub SameBytes : Option (List ℕ) → Option (List ℕ) → Type 0
  SameBytes (some a) (some b) = a ≡ b
  SameBytes _ _ = ⊥

  same_bytes_iff : (p q : Option (List ℕ)) → (same_bytes p q ≡ true) ↔ SameBytes p q
  unfolding same_bytes
  same_bytes_iff none q = ground arith
  same_bytes_iff (some a) none = ground arith
  same_bytes_iff (some a) (some b) = ground (arith, x.ct_eq_iff a b)

  SameBytes-sym : (p q : Option (List ℕ)) → SameBytes p q → SameBytes q p
  SameBytes-sym none q h = absurd h
  SameBytes-sym (some a) none h = absurd h
  SameBytes-sym (some a) (some b) h = sym h

  SameBytes-trans : (p q r : Option (List ℕ)) → SameBytes p q → SameBytes q r → SameBytes p r
  SameBytes-trans none q r h k = absurd h
  SameBytes-trans (some a) none r h k = absurd h
  SameBytes-trans (some a) (some b) none h k = absurd k
  SameBytes-trans (some a) (some b) (some c) h k = h ∙ k

  pub same_hex_iff : (a b : String) → (same_hex a b ≡ true) ↔ SameBytes (decode a) (decode b)
  unfolding same_hex
  same_hex_iff a b = same_bytes_iff (decode a) (decode b)

  -- Two reports agree exactly when they give one time, and hashes and Merkle roots that decode to the
  -- same bytes, whatever the case of their digits.
  pub agrees_with_iff :
      (s t : BlockSourceReport)
      → (agrees_with s t ≡ true) ↔ (
          (s.block_timestamp_secs ≡ t.block_timestamp_secs)
          × SameBytes (decode s.block_hash) (decode t.block_hash)
          × SameBytes (decode s.merkle_root) (decode t.merkle_root))
  unfolding agrees_with
  agrees_with_iff s t =
      let (hash_to, hash_from) = same_hex_iff s.block_hash t.block_hash in
      let (root_to, root_from) = same_hex_iff s.merkle_root t.merkle_root in
      (
        (λ h.
            let parts : (s.block_timestamp_secs ≡ t.block_timestamp_secs)
                × (same_hex s.block_hash t.block_hash ≡ true)
                × (same_hex s.merkle_root t.merkle_root ≡ true) =
              ground arith in
            (parts.0, hash_to parts.1, root_to parts.2)),
        λ (e, h, k). let hashes = hash_from h in let roots = root_from k in ground arith,
      )

  agrees_with_sym : (s t : BlockSourceReport) → agrees_with s t ≡ true → agrees_with t s ≡ true
  agrees_with_sym s t h =
      let (time, hash, root) = (agrees_with_iff s t).0 h in
      (agrees_with_iff t s).1 (sym time, SameBytes-sym _ _ hash, SameBytes-sym _ _ root)

  agrees_with_trans :
      (s t u : BlockSourceReport)
      → agrees_with s t ≡ true
      → agrees_with t u ≡ true
      → agrees_with s u ≡ true
  agrees_with_trans s t u h k =
      let (time, hash, root) = (agrees_with_iff s t).0 h in
      let (time', hash', root') = (agrees_with_iff t u).0 k in
      (agrees_with_iff s u).1
        (time ∙ time', SameBytes-trans _ _ _ hash hash', SameBytes-trans _ _ _ root root')

  abbrev pub PairwiseAgree : List BlockSourceReport → Type 0
  PairwiseAgree ss = All (λ s. All (λ t. agrees_with s t ≡ true) ss) ss

  -- Comparing every report with the first one is enough: the test passes exactly when every two
  -- reports agree.
  pub sources_agree_iff :
      (ss : List BlockSourceReport) → (sources_agree ss ≡ true) ↔ PairwiseAgree ss
  unfolding sources_agree
  sources_agree_iff [] = ground arith
  sources_agree_iff (first ∷ rest) =
      let with_first = all_iff (λ s. agrees_with s first) (first ∷ rest) in
      (
        (λ h.
            let agree = with_first.0 h in
            All-map (first ∷ rest)
              (λ s hs.
                All-map (first ∷ rest)
                  (λ t ht. agrees_with_trans s first t hs (agrees_with_sym t first ht)) agree)
              agree),
        λ h. with_first.1 (All-map (first ∷ rest) (λ s hs. hs.0) h),
      )

  PairwiseAgree-Permᴰ :
      {ss ts : List BlockSourceReport} → Permᴰ ss ts → PairwiseAgree ss → PairwiseAgree ts
  PairwiseAgree-Permᴰ {ss} {ts} p h =
      All-Permᴰ (λ s. All (λ t. agrees_with s t ≡ true) ts) p
        (All-map ss (λ s hs. All-Permᴰ (λ t. agrees_with s t ≡ true) p hs) h)

  -- The order in which the sources are listed does not matter.
  pub sources_agree-Permᴰ :
      {ss ts : List BlockSourceReport} → Permᴰ ss ts → sources_agree ss ≡ sources_agree ts
  sources_agree-Permᴰ {ss} {ts} p = eq_of_iff (
    (λ h. (sources_agree_iff ts).1 (PairwiseAgree-Permᴰ p ((sources_agree_iff ss).0 h))),
    λ h. (sources_agree_iff ss).1 (PairwiseAgree-Permᴰ (Permᴰ.symm p) ((sources_agree_iff ts).0 h)),
  )
