-- ===== src/Net/Bitcoin/Cache/Laws.antt =====
-- What a block lookup of src/net/bitcoin.rs establishes, from the network or from the cache.
use atl_cli.Prelude.{
  ℕ, ◌≤◌, String, true, some, some-injective, List, [], ◌∷◌, ◌≡◌, ◌⊎◌, inl, inr, refl, arith, All,
  map, Result, ok, err, Ensures, Ensures-map, All-concat, Result-cases, ◌==◌, Option-cases,
  Bool-cases,
}
use mathlib.Core.Path.{subst, subst₂}
use atl_cli.Verify.Anchor.Sources.{HexBytes}
use atl_cli.Net.Bitcoin.{
  BitcoinBlockInfo, BlockReport, BlockLookup, ApiProvider, source_reports, classify,
  genesis_block_time, blockstream, mempool, blockchain,
}
use atl_cli.Net.Bitcoin.Fetch.{Http, fetch_block_info}
use atl_cli.Net.Bitcoin.Laws.{fetch_block_info-IsChecked}
use atl_cli.Net.Bitcoin.Classify.{classify-corroborated_iff, first_info, length-source_reports}
use atl_cli.Net.Bitcoin.Cache.{
  Answer, Cache, CacheEntry, Moment, get, insert, sort_answers, ask_providers, served, query, store,
  lookup_block,
}
use atl_cli.Net.Bitcoin.Cache.Backed.{
  distinct, IsFirst, IsAnswer, IsReport, IsBacked, IsStored, CacheIsBacked,
}
use atl_cli.Net.Bitcoin.Cache.Reuse.{lookup-hit, lookup-missed}

module _ (x : HexBytes) (moments : ℕ → Moment) where
  abbrev AreAnswers : ℕ → List BlockReport → Type 1
  AreAnswers height = All (λ r. IsAnswer x moments height r.source r.info)

  first_info-IsFirst :
      (height : ℕ) (reports : List BlockReport) (info : BitcoinBlockInfo)
      → AreAnswers height reports
      → first_info reports ≡ some info
      → (info.height ≡ height)
        × (genesis_block_time ≤ info.timestamp_secs)
        × IsFirst (source_reports reports) info
  unfolding source_reports
  first_info-IsFirst height [] info h e = cc
  first_info-IsFirst height (r ∷ reports) info (h, hs) e =
      subst
        (λ i.
          (i.height ≡ height)
          × (genesis_block_time ≤ i.timestamp_secs)
          × IsFirst (source_reports (r ∷ reports)) i)
        (some-injective _ _ e) (h.checked.height_asked, h.checked.after_genesis, (refl, refl, refl))

  source_reports-IsReport :
      (height : ℕ) (reports : List BlockReport)
      → AreAnswers height reports
      → All (IsReport x moments height) (source_reports reports)
  unfolding source_reports
  source_reports-IsReport height [] h = tt
  source_reports-IsReport height (r ∷ reports) (h, hs) = (
    record { info = r.info; answer = h; same = (refl, refl, refl) },
    source_reports-IsReport height reports hs,
  )

  classify-IsBacked :
      (height : ℕ) (reports : List BlockReport) (failures : List String)
      → AreAnswers height reports
      → distinct (map (λ r. r.source) (source_reports reports)) ≡ true
      → IsBacked x moments height (classify x reports failures)
  classify-IsBacked height reports failures answers names =
      by_outcome (classify x reports failures) refl
    where
      by_outcome : (l : BlockLookup) → classify x reports failures ≡ l → IsBacked x moments height l
      by_outcome (BlockLookup.corroborated info kept) e =
          let (enough, agree, first, same) =
            (classify-corroborated_iff x reports failures info kept).0 e in
          let (asked, after, head) = first_info-IsFirst height reports info answers first in
          (
            asked,
            after,
            subst (λ rs. IsFirst rs info) same head,
            subst (All (IsReport x moments height)) same
                (source_reports-IsReport height reports answers),
            rw (← same, length-source_reports reports) enough,
            rw (← same) agree,
            rw (← same) names,
          )
      by_outcome (BlockLookup.uncorroborated _ _) e = tt
      by_outcome (BlockLookup.disagreement _) e = tt
      by_outcome (BlockLookup.unavailable _) e = tt

  -- The reports are checked answers, whichever of the providers answered.
  sorted-AreAnswers :
      (height : ℕ) (answers : List Answer) (reports : List BlockReport) (failures : List String)
      → All (λ a. Ensures (IsAnswer x moments height a.0) a.1) answers
      → AreAnswers height reports
      → AreAnswers height (sort_answers answers reports failures).0
  unfolding sort_answers
  sorted-AreAnswers height [] reports failures h k = k
  sorted-AreAnswers height ((name, ok info) ∷ answers) reports failures (h, hs) k =
      sorted-AreAnswers height answers _ failures hs (All-concat _ reports k h)
  sorted-AreAnswers height ((name, err e) ∷ answers) reports failures (h, hs) k =
      sorted-AreAnswers height answers reports _ hs k

  distinct-sorted :
      (a b c : Result String BitcoinBlockInfo)
      → distinct (
          map
            (λ r. r.source)
            (source_reports
              (sort_answers
                ((blockstream.name, a) ∷ (mempool.name, b) ∷ (blockchain.name, c) ∷ [])
                []
                []).0))
        ≡ true
  unfolding sort_answers source_reports
  distinct-sorted (ok _) (ok _) (ok _) = refl
  distinct-sorted (ok _) (ok _) (err _) = refl
  distinct-sorted (ok _) (err _) (ok _) = refl
  distinct-sorted (ok _) (err _) (err _) = refl
  distinct-sorted (err _) (ok _) (ok _) = refl
  distinct-sorted (err _) (ok _) (err _) = refl
  distinct-sorted (err _) (err _) (ok _) = refl
  distinct-sorted (err _) (err _) (err _) = refl

  fetch-IsAnswer :
      (n : ℕ) (http : Http) (p : ApiProvider) (height : ℕ)
      → (moments n).client ≡ ok http
      → (p ≡ blockstream) ⊎ ((p ≡ mempool) ⊎ (p ≡ blockchain))
      → Ensures
          (IsAnswer x moments height p.name)
          (fetch_block_info x http ((moments n).wall_clock p.name) p height)
  fetch-IsAnswer n http p height built known =
      Ensures-map (fetch_block_info x http ((moments n).wall_clock p.name) p height)
        (λ info c. record {
          provider = p;
          known = known;
          name = refl;
          moment = n;
          http = http;
          connected = built;
          checked = c;
        })
        (fetch_block_info-IsChecked x http ((moments n).wall_clock p.name) p height)

  query-IsBacked : (n : ℕ) (height : ℕ) → IsBacked x moments height (query x (moments n) height)
  unfolding query ask_providers
  query-IsBacked n height = elim (Result-cases (moments n).client) [
    | inl (e, failed) ↦ rw failed tt
    | inr (http, built) ↦ rw built (
        classify-IsBacked height _ _
          (sorted-AreAnswers height _ [] []
            (
              fetch-IsAnswer n http blockstream height built (inl refl),
              (
                fetch-IsAnswer n http mempool height built (inr (inl refl)),
                (fetch-IsAnswer n http blockchain height built (inr (inr refl)), tt),
              ),
            )
            tt)
          (distinct-sorted _ _ _))
  ]

  get-IsStored :
      (height : ℕ) (cache : Cache) (entry : CacheEntry)
      → CacheIsBacked x moments cache
      → get height cache ≡ some entry
      → IsStored x moments (height, entry)
  unfolding get
  get-IsStored height [] entry h e = cc
  get-IsStored height ((k, e') ∷ cache) entry (h, hs) e = elim (Bool-cases (k == height)) [
    | inl same ↦
        let here : e' ≡ entry = ground arith in
        let key : k ≡ height = ground arith in subst₂ (λ n c. IsStored x moments (n, c)) key here h
    | inr other ↦ get-IsStored height cache entry hs (ground arith)
  ]

  insert-IsStored :
      (height : ℕ) (entry : CacheEntry) (cache : Cache)
      → IsStored x moments (height, entry)
      → CacheIsBacked x moments cache
      → CacheIsBacked x moments (insert height entry cache)
  unfolding insert
  insert-IsStored height entry [] s h = (s, tt)
  insert-IsStored height entry ((k, e) ∷ cache) s (h, hs) = elim (Bool-cases (k == height)) [
    | inl same ↦ rw same (s, hs)
    | inr other ↦ rw other (h, insert-IsStored height entry cache s hs)
  ]

  store-IsStored :
      (m : Moment) (height : ℕ) (lookup : BlockLookup) (cache : Cache)
      → IsBacked x moments height lookup
      → CacheIsBacked x moments cache
      → CacheIsBacked x moments (store x m height lookup cache)
  unfolding store
  store-IsStored m height (BlockLookup.corroborated info reports) cache b h =
      elim (Bool-cases m.writable) [
        | inl e ↦ rw e (insert-IsStored height _ cache (b, refl) h)
        | inr e ↦ rw e h
      ]
  store-IsStored m height (BlockLookup.uncorroborated _ _) cache b h = h
  store-IsStored m height (BlockLookup.disagreement _) cache b h = h
  store-IsStored m height (BlockLookup.unavailable _) cache b h = h

  served-IsBacked :
      (m : Moment) (height : ℕ) (cache : Cache) {hit : BlockLookup}
      → CacheIsBacked x moments cache
      → served m height cache ≡ some hit
      → IsBacked x moments height hit
  unfolding served
  served-IsBacked m height cache {hit} h e = elim (Option-cases (get height cache)) [
    | inl missing ↦ absurd (ground arith)
    | inr (entry, found) ↦
        let same : entry.lookup ≡ hit = ground arith in
        subst (IsBacked x moments height) same (get-IsStored height cache entry h found).0
  ]

  -- A lookup keeps the invariant of the cache, and a corroborated answer, whether it comes from the
  -- cache or from the providers, is backed: its hash, Merkle root and time are those of the first of two
  -- or more reports of sources with different names, any two of which agree, and each report is of an
  -- answer in which the provider bound the block to the height that was asked for.
  pub lookup_block-IsBacked :
      (n : ℕ) (height : ℕ) (cache : Cache)
      → CacheIsBacked x moments cache
      → IsBacked x moments height (lookup_block x (moments n) height cache).0
        × CacheIsBacked x moments (lookup_block x (moments n) height cache).1
  lookup_block-IsBacked n height cache h = elim (Option-cases (served (moments n) height cache)) [
    | inl missed ↦ rw (lookup-missed x (moments n) height cache missed) (
      query-IsBacked n height,
      store-IsStored (moments n) height _ cache (query-IsBacked n height) h,
    )
    | inr (hit, found) ↦
        rw (lookup-hit x (moments n) height cache found)
          (served-IsBacked (moments n) height cache h found, h)
  ]
