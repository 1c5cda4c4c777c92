-- ===== src/Net/Bitcoin/Answer.antt =====
-- What a header is checked for before src/net/bitcoin.rs accepts it, said of a provider's own answers.
use atl_cli.Prelude.{
  ℕ, ◌≤◌, String, Bool, true, false, Option, none, some, [], ◌∷◌, ◌≡◌, ok, concat, show,
}
use atl_cli.Verify.Anchor.Sources.{HexBytes, same_hex}
use atl_cli.Net.Bitcoin.{
  BitcoinBlockInfo, genesis_block_time, max_future_block_time, saturating_add,
}
use atl_cli.Net.Bitcoin.Fetch.{Http, Response, Value, is_hex64, get_text, get_json, trim}

-- A time no later than two hours past a clock that can be read; the sum is held at the largest `u64`.
abbrev pub IsNotFuture : Option ℕ → ℕ → Type 0
IsNotFuture none secs = ⊥
IsNotFuture (some now) secs = secs ≤ saturating_add now max_future_block_time

-- Where a provider's answer describes a block, and under which names.
abbrev pub Describes : (two_step : Bool) → Response → (String → Value) → Type 0
Describes true response block = block ≡ response.field
Describes false response block = response.first_block ≡ some block

abbrev pub time_key : Bool → String
time_key true = "timestamp"
time_key false = "time"

abbrev pub root_key : Bool → String
root_key true = "merkle_root"
root_key false = "mrkl_root"

-- The request that is answered with the block.
abbrev pub block_url :
    (two_step : Bool) → (base_url : String) → (height : ℕ) → (block_hash : String) → String
block_url true base_url height block_hash = concat (base_url ∷ "/block/" ∷ block_hash ∷ [])
block_url false base_url height block_hash =
    concat (base_url ∷ "/block-height/" ∷ show height ∷ "?format=json" ∷ [])

module _ (x : HexBytes) (http : Http) (now : Option ℕ) where
  -- Where the hash of an accepted header comes from: a two-step provider gave it for the height, and the
  -- block that it then described says that it has this hash; a single-step provider describes the block
  -- with it.
  abbrev pub GivesHash :
      (two_step : Bool)
      → (base_url : String) → ℕ
      → (String → Value)
      → (block_hash : String) → Type 0
  GivesHash true base_url height block block_hash =
      ((body : String) × (get_text x http now
            (concat (base_url ∷ "/block-height/" ∷ show height ∷ []))
          ≡ ok body)
        × (trim body ≡ block_hash))
      × ((id : String) × ((block "id").as_str ≡ some id) × (same_hex x id block_hash ≡ true))
  GivesHash false base_url height block block_hash = (block "hash").as_str ≡ some block_hash

  -- What every accepted header satisfies: it is what the provider's answer says of a block, which says
  -- itself that it is the one of the height that was asked for.
  pub record IsChecked (two_step : Bool) (base_url : String) (height : ℕ) (info : BitcoinBlockInfo)
      : Type 0 where
    pub response : Response
    pub block : String → Value
    pub answered :
        get_json x http now (block_url two_step base_url height info.block_hash) ≡ ok response
    pub described : Describes two_step response block
    pub height_reported : (block "height").as_u64 ≡ some height
    pub time_reported : (block (time_key two_step)).as_u64 ≡ some info.timestamp_secs
    pub root_reported : (block (root_key two_step)).as_str ≡ some info.merkle_root
    pub hash_given : GivesHash two_step base_url height block info.block_hash
    pub height_asked : info.height ≡ height
    pub after_genesis : genesis_block_time ≤ info.timestamp_secs
    pub not_future : IsNotFuture now info.timestamp_secs
    pub hash_form : is_hex64 info.block_hash ≡ true
    pub root_form : is_hex64 info.merkle_root ≡ true
