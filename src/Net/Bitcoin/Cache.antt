-- ===== src/Net/Bitcoin/Cache.antt =====
-- src/net/bitcoin.rs: `lookup_block` and its process-wide cache of corroborated headers.
pub mod Backed
pub mod Reuse
pub mod Laws
use Prim.Native.Nat.{◌/◌}
use atl_cli.Prelude.{
  ℕ, ◌+◌, ◌-◌, ◌*◌, ◌^◌, String, Bool, true, false, ◌&&◌, Option, none, some, List, [], ◌∷◌, ◌++◌,
  map, Result, ok, err, ltb, ◌==◌, if◌then◌else◌, concat,
}
use atl_cli.Verify.Anchor.Sources.{HexBytes}
use atl_cli.Net.Bitcoin.{
  ApiProvider, BitcoinBlockInfo, BlockReport, BlockLookup, providers, classify,
}
use atl_cli.Net.Bitcoin.Fetch.{Http, fetch_block_info}

-- Instants and durations are counted in nanoseconds.
abbrev pub cache_ttl_secs : ℕ
cache_ttl_secs = 600

unfoldable pub cache_entry_is_fresh : (age : ℕ) → Bool
cache_entry_is_fresh age = ltb (age / 10 ^ 9) cache_ttl_secs

pub record CacheEntry : Type 0 where
  pub fetched_at : ℕ
  pub lookup : BlockLookup

-- The `HashMap<u64, CacheEntry>`.
abbrev pub Cache : Type 0
Cache = List (ℕ × CacheEntry)

unfoldable pub get : ℕ → Cache → Option CacheEntry
get height [] = none
get height ((h, e) ∷ cache) = if h == height then some e else get height cache

unfoldable pub insert : ℕ → CacheEntry → Cache → Cache
insert height entry [] = (height, entry) ∷ []
insert height entry ((h, e) ∷ cache) =
    if h == height then (height, entry) ∷ cache else (h, e) ∷ insert height entry cache

-- What one call of `lookup_block` meets: whether each lock is free of poison, the monotonic clock at
-- the read and at the write, the HTTP client or the error of its builder, and the wall clock as each
-- provider's answer is checked.
pub record Moment : Type 1 where
  pub readable : Bool
  pub writable : Bool
  pub read_at : ℕ
  pub written_at : ℕ
  pub client : Result String Http
  pub wall_clock : (provider : String) → Option ℕ

abbrev pub Answer : Type 0
Answer = String × Result String BitcoinBlockInfo

-- The loop that sorts the answers into reports and failures.
unfoldable pub sort_answers :
    List Answer → List BlockReport → List String → List BlockReport × List String
sort_answers [] reports failures = (reports, failures)
sort_answers ((name, ok info) ∷ answers) reports failures =
    sort_answers answers (reports ++ record { source = name; info = info } ∷ []) failures
sort_answers ((name, err e) ∷ answers) reports failures =
    sort_answers answers reports (failures ++ concat (name ∷ ": " ∷ e ∷ []) ∷ [])

-- A served entry: found, and still fresh.
pub served : Moment → ℕ → Cache → Option BlockLookup
served m height cache =
    if m.readable
    then elim (get height cache) [
      | none ↦ none
      | some e ↦ if cache_entry_is_fresh (m.read_at - e.fetched_at) then some e.lookup else none
    ]
    else none

module _ (x : HexBytes) where
  ask_providers : Http → Moment → ℕ → List Answer
  ask_providers http m height =
      map (λ p. (p.name, fetch_block_info x http (m.wall_clock p.name) p height)) providers

  -- The answer of a query that the cache does not serve.
  unfoldable pub query : Moment → ℕ → BlockLookup
  unfolding ask_providers
  query m height = elim m.client [
    | err e ↦ BlockLookup.unavailable (concat ("HTTP client error: " ∷ e ∷ []) ∷ [])
    | ok http ↦
        let (reports, failures) = sort_answers (ask_providers http m height) [] [] in
        classify x reports failures
  ]

  -- Only a corroborated header is stored.
  pub store : Moment → ℕ → BlockLookup → Cache → Cache
  store m height (BlockLookup.corroborated info reports) cache =
      if m.writable
      then insert height
          (record { fetched_at = m.written_at; lookup = BlockLookup.corroborated info reports })
          cache
      else cache
  store m height _ cache = cache

  unfoldable pub lookup_block : Moment → ℕ → Cache → BlockLookup × Cache
  unfolding served store
  lookup_block m height cache = elim (served m height cache) [
    | some hit ↦ (hit, cache)
    | none ↦ let lookup = query m height in (lookup, store m height lookup cache)
  ]
