-- ===== src/Net/Bitcoin.antt =====
-- src/net/bitcoin.rs: block headers from block-explorer APIs. A `u64` is a number below 2 ^ 64.
pub mod Fetch
pub mod Cache
pub mod Classify
pub mod Answer
pub mod Laws
use atl_cli.Prelude.{
  ℕ, ◌+◌, ◌*◌, ◌-◌, ◌^◌, String, Bool, true, false, Option, none, some, List, [], ◌∷◌, map, Result,
  ok, err, ltb, if◌then◌else◌, concat, show,
}
use atl_cli.Verify.Anchor.{BlockSourceReport}
use atl_cli.Verify.Anchor.Sources.{HexBytes, sources_agree}

pub record ApiProvider : Type 0 where
  pub name : String
  pub base_url : String
  pub two_step : Bool
  pub timestamp_field : String

abbrev pub blockstream : ApiProvider
blockstream = record {
  name = "blockstream.info";
  base_url = "https://blockstream.info/api";
  two_step = true;
  timestamp_field = "timestamp";
}

abbrev pub mempool : ApiProvider
mempool = record {
  name = "mempool.space";
  base_url = "https://mempool.space/api";
  two_step = true;
  timestamp_field = "timestamp";
}

abbrev pub blockchain : ApiProvider
blockchain = record {
  name = "blockchain.info";
  base_url = "https://blockchain.info";
  two_step = false;
  timestamp_field = "time";
}

abbrev pub providers : List ApiProvider
providers = blockstream ∷ mempool ∷ blockchain ∷ []

abbrev pub genesis_block_time : ℕ
genesis_block_time = 1_231_006_505

abbrev pub max_future_block_time : ℕ
max_future_block_time = 2 * 60 * 60

abbrev pub u64_max : ℕ
u64_max = 2 ^ 64 - 1

abbrev pub saturating_add : ℕ → ℕ → ℕ
saturating_add a b = if ltb u64_max (a + b) then u64_max else a + b

-- `validate_block_time_against`; `now` is `none` when the clock could not be read.
unfoldable pub validate_block_time : ℕ → Option ℕ → Result String ℕ
validate_block_time secs now =
    if ltb secs genesis_block_time
    then err (
        concat (
          "implausible block time "
          ∷ show secs
          ∷ ": earlier than Bitcoin's genesis block ("
          ∷ show genesis_block_time
          ∷ ")"
          ∷ []))
    else elim now [
      | none ↦ err (
          concat (
            "cannot validate block time "
            ∷ show secs
            ∷ ": the system clock is unreadable, so it cannot be bounded from above"
            ∷ []))
      | some n ↦
          if ltb (saturating_add n max_future_block_time) secs
          then err (
              concat (
                "implausible block time "
                ∷ show secs
                ∷ ": more than "
                ∷ show max_future_block_time
                ∷ "s in the future"
                ∷ []))
          else ok secs
    ]

pub record BitcoinBlockInfo : Type 0 where
  pub height : ℕ
  pub timestamp_secs : ℕ
  pub block_hash : String
  pub merkle_root : String

unfoldable pub to_source_report : BitcoinBlockInfo → String → BlockSourceReport
to_source_report info source = record {
  source = source;
  block_hash = info.block_hash;
  merkle_root = info.merkle_root;
  block_timestamp_secs = info.timestamp_secs;
}

pub record BlockReport : Type 0 where
  pub source : String
  pub info : BitcoinBlockInfo

pub data BlockLookup : Type 0 where
  corroborated : BitcoinBlockInfo → List BlockSourceReport → BlockLookup
  uncorroborated : List BlockSourceReport → (failures : List String) → BlockLookup
  disagreement : List BlockSourceReport → BlockLookup
  unavailable : (failures : List String) → BlockLookup

unfoldable pub source_reports : List BlockReport → List BlockSourceReport
unfolding to_source_report
source_reports reports = map (λ r. to_source_report r.info r.source) reports

unfoldable pub classify : HexBytes → List BlockReport → List String → BlockLookup
classify x [] failures = BlockLookup.unavailable failures
classify x (only ∷ []) failures = BlockLookup.uncorroborated (source_reports (only ∷ [])) failures
classify x (first ∷ second ∷ rest) failures =
    let reports = source_reports (first ∷ second ∷ rest) in
    if sources_agree x reports
    then BlockLookup.corroborated first.info reports
    else BlockLookup.disagreement reports
