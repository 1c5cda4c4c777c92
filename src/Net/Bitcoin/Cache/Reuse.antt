-- ===== src/Net/Bitcoin/Cache/Reuse.antt =====
-- When a block lookup of src/net/bitcoin.rs reuses its cache, and when it changes it.
use atl_cli.Prelude.{
  ℕ, ◌-◌, ◌*◌, ◌^◌, ◌≤◌, ◌<◌, true, none, some, ◌≡◌, ◌≢◌, refl, inl, inr, ap, ◌∙◌, arith,
  Option-cases,
}
use atl_cli.Verify.Anchor.Sources.{HexBytes}
use atl_cli.Net.Bitcoin.{BlockLookup}
use atl_cli.Net.Bitcoin.Classify.{outcome, Outcome}
use atl_cli.Net.Bitcoin.Cache.{
  Cache, CacheEntry, Moment, get, served, query, store, lookup_block, cache_entry_is_fresh,
}

module _ (x : HexBytes) where
  pub lookup-hit :
      (m : Moment) (height : ℕ) (cache : Cache) {hit : BlockLookup}
      → served m height cache ≡ some hit
      → lookup_block x m height cache ≡ (hit, cache)
  unfolding lookup_block
  lookup-hit m height cache h = rw (h, lookup_block)

  pub lookup-missed :
      (m : Moment) (height : ℕ) (cache : Cache)
      → served m height cache ≡ none
      → lookup_block x m height cache
        ≡ (query x m height, store x m height (query x m height) cache)
  unfolding lookup_block
  lookup-missed m height cache h = rw (h, lookup_block)

  -- A cached header is reused, with no query, while it is less than 600 seconds old, and is asked for
  -- again once it is 600 seconds old or older.
  pub lookup_block-age :
      (m : Moment) (height : ℕ) (cache : Cache) (entry : CacheEntry)
      → m.readable ≡ true
      → get height cache ≡ some entry
      → (m.read_at - entry.fetched_at < 600 * 10 ^ 9
          → lookup_block x m height cache ≡ (entry.lookup, cache))
        × (600 * 10 ^ 9 ≤ m.read_at - entry.fetched_at
            → (lookup_block x m height cache).0 ≡ query x m height)
  unfolding served cache_entry_is_fresh
  lookup_block-age m height cache entry r e = (
    (λ young. lookup-hit m height cache (ground arith)),
    λ old. ap (λ p. p.0) (lookup-missed m height cache (ground arith)),
  )

  store-unchanged :
      (m : Moment) (height : ℕ) (lookup : BlockLookup) (cache : Cache)
      → outcome lookup ≢ Outcome.corroborated
      → store x m height lookup cache ≡ cache
  unfolding store
  store-unchanged m height (BlockLookup.corroborated _ _) cache h = absurd (h refl)
  store-unchanged m height _ cache h = refl

  -- A cached header that is less than 600 seconds old is the answer, with no query, and the cache is
  -- left as it was.
  pub lookup_block_fresh :
      (m : Moment) (height : ℕ) (cache : Cache) (entry : CacheEntry)
      → m.readable ≡ true
      → get height cache ≡ some entry
      → m.read_at - entry.fetched_at < 600 * 10 ^ 9
      → lookup_block x m height cache ≡ (entry.lookup, cache)
  lookup_block_fresh m height cache entry readable found fresh =
      (lookup_block-age m height cache entry readable found).0 fresh

  -- Nothing but a corroborated answer changes the cache.
  pub lookup_block-unchanged :
      (m : Moment) (height : ℕ) (cache : Cache)
      → outcome (lookup_block x m height cache).0 ≢ Outcome.corroborated
      → (lookup_block x m height cache).1 ≡ cache
  lookup_block-unchanged m height cache h = elim (Option-cases (served m height cache)) [
    | inl missed ↦
        let same = lookup-missed m height cache missed in
        ap (λ p. p.1) same ∙ store-unchanged m height (query x m height) cache (rw same at h)
    | inr (hit, found) ↦ ap (λ p. p.1) (lookup-hit m height cache found)
  ]
