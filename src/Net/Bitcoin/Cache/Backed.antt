-- ===== src/Net/Bitcoin/Cache/Backed.antt =====
-- What it takes for a header to be corroborated (src/net/bitcoin.rs).
use atl_cli.Prelude.{
  ℕ, ◌≤◌, String, str_eq, Bool, true, not, ◌&&◌, List, [], ◌∷◌, ◌≡◌, ◌⊎◌, length, All, any, map, ok,
}
use atl_cli.Verify.Anchor.{BlockSourceReport}
use atl_cli.Verify.Anchor.Sources.{HexBytes, PairwiseAgree}
use atl_cli.Net.Bitcoin.{
  BitcoinBlockInfo, BlockLookup, ApiProvider, genesis_block_time, blockstream, mempool, blockchain,
}
use atl_cli.Net.Bitcoin.Fetch.{Http}
use atl_cli.Net.Bitcoin.Answer.{IsChecked}
use atl_cli.Net.Bitcoin.Classify.{outcome, Outcome}
use atl_cli.Net.Bitcoin.Cache.{Cache, CacheEntry, Moment}

-- No text stands twice in the list.
abbrev pub distinct : List String → Bool
distinct [] = true
distinct (s ∷ ss) = not (any (str_eq s) ss) && distinct ss

-- The report of a header is that header: its hash, its Merkle root and its time.
abbrev pub SameHeader : BlockSourceReport → BitcoinBlockInfo → Type 0
SameHeader r info =
    (r.block_hash ≡ info.block_hash)
    × (r.merkle_root ≡ info.merkle_root)
    × (r.block_timestamp_secs ≡ info.timestamp_secs)

-- The header is the one of the first report.
abbrev pub IsFirst : List BlockSourceReport → BitcoinBlockInfo → Type 0
IsFirst [] info = ⊥
IsFirst (r ∷ _) info = SameHeader r info

-- A header that one of the three providers answered with at a moment of the run, and that passed all the
-- checks of its answer.
pub record IsAnswer (x : HexBytes) (moments : ℕ → Moment) (height : ℕ) (source : String)
    (info : BitcoinBlockInfo) : Type 1 where
  pub provider : ApiProvider
  pub known : (provider ≡ blockstream) ⊎ ((provider ≡ mempool) ⊎ (provider ≡ blockchain))
  pub name : source ≡ provider.name
  pub moment : ℕ
  pub http : Http
  pub connected : (moments moment).client ≡ ok http
  pub checked :
      IsChecked x http
        ((moments moment).wall_clock provider.name)
        provider.two_step
        provider.base_url
        height
        info

-- A report that was made of such a header.
pub record IsReport (x : HexBytes) (moments : ℕ → Moment) (height : ℕ) (r : BlockSourceReport)
    : Type 1 where
  pub info : BitcoinBlockInfo
  pub answer : IsAnswer x moments height r.source info
  pub same : SameHeader r info

module _ (x : HexBytes) (moments : ℕ → Moment) where
  -- What a corroborated lookup promises: the header of the first of two or more reports of sources with
  -- different names, any two of which agree, each of a header that its provider bound to the height that
  -- was asked for; the lookup's header has that height and is no older than the genesis block.
  abbrev pub IsBacked : ℕ → BlockLookup → Type 1
  IsBacked height (BlockLookup.corroborated info reports) =
      (info.height ≡ height)
      × (genesis_block_time ≤ info.timestamp_secs)
      × IsFirst reports info
      × All (IsReport x moments height) reports
      × (2 ≤ length reports)
      × PairwiseAgree x reports
      × (distinct (map (λ r. r.source) reports) ≡ true)
  IsBacked height _ = Unit

  abbrev pub IsStored : ℕ × CacheEntry → Type 1
  IsStored (height, entry) =
      IsBacked height entry.lookup × (outcome entry.lookup ≡ Outcome.corroborated)

  -- The invariant of the cache.
  abbrev pub CacheIsBacked : Cache → Type 1
  CacheIsBacked = All IsStored
