-- ===== src/Tests/Network.antt =====
-- The theorems about the block explorers and the network pass, at concrete inputs.
use atl_cli.Prelude.{
  ℕ, ◌≤◌, String, str_eq, if◌then◌else◌, true, false, none, some, List, [], ◌∷◌, ◌≡◌, ◌≢◌, ◌↔◌, ◌⊎◌,
  inl, refl, ap, arith, length, get_elem?, ok,
}
use mathlib.Core.List.{Permᴰ}
use atl_cli.Verify.Verdict.{Status}
use atl_cli.Verify.Anchor.{AnchorVerdict, AnchorVerificationResult, BlockSourceReport, from_facts}
use atl_cli.Verify.Anchor.Sources.{
  HexBytes, agrees_with, same_hex, sources_agree, PairwiseAgree, sources_agree_iff,
}
use atl_cli.Verify.Single.{SingleVerificationResult, verdict}
use atl_cli.Verify.Online.{Services, Session, anchor_from_lookup, verify_anchors_online}
use atl_cli.Verify.Online.Confirm.{
  Confirms, ExactTime, anchor_from_lookup-valid_iff, anchor_from_lookup-time,
}
use atl_cli.Verify.Online.Laws.{
  online, IsSettled, online_valid-IsSettled, online_keeps_settled, online-invalid_iff,
}
use atl_cli.Net.Bitcoin.{
  ApiProvider, BitcoinBlockInfo, BlockLookup, genesis_block_time, validate_block_time, classify,
  source_reports,
}
use atl_cli.Net.Bitcoin.Fetch.{
  Value, Http, hex64, is_hex64, check_reported_height, check_reported_hash, read_block,
  read_first_block, fetch_block_info, trim,
}
use atl_cli.Net.Bitcoin.Answer.{IsNotFuture, IsChecked}
use atl_cli.Net.Bitcoin.Laws.{fetched-IsChecked, validate_block_time_iff}
use atl_cli.Net.Bitcoin.Classify.{
  Outcome, outcome, first_info, classify-corroborated_iff, outcome-Perm,
}
use atl_cli.Net.Bitcoin.Cache.{Moment, lookup_block, get, query, sort_answers}
use atl_cli.Net.Bitcoin.Cache.Backed.{IsBacked, CacheIsBacked}
use atl_cli.Net.Bitcoin.Cache.Laws.{lookup_block-IsBacked}
use atl_cli.Tests.Data.{
  words, same_list, same_list_iff, services, header, first_source, second_source, reports,
  first_report, second_report, confirmed, prepared, refuted_facts, refuted_anchor, waiting,
  wrong_file, moment, session,
}

abbrev sources : List BlockSourceReport
sources = first_source ∷ second_source ∷ []

sources_agree_iff_example : (sources_agree words sources ≡ true) ↔ PairwiseAgree words sources
sources_agree_iff_example = sources_agree_iff words sources

classify-corroborated_iff_example :
    (classify words reports [] ≡ BlockLookup.corroborated header sources) ↔ (
      (2 ≤ length reports)
      × PairwiseAgree words (source_reports reports)
      × (first_info reports ≡ some header)
      × (source_reports reports ≡ sources))
classify-corroborated_iff_example = classify-corroborated_iff words reports [] header sources

outcome-Perm_example :
    outcome (classify words (first_report ∷ second_report ∷ []) [])
    ≡ outcome (classify words (second_report ∷ first_report ∷ []) ("slow" ∷ []))
outcome-Perm_example =
    outcome-Perm words (first_report ∷ second_report ∷ []) (second_report ∷ first_report ∷ []) []
      ("slow" ∷ []) ∣ Permᴰ.swap refl refl ∣₁

abbrev claimed : ℕ
claimed = 1_700_000_000

validate_block_time_iff_example :
    (validate_block_time claimed (some 1_800_000_000) ≡ ok claimed) ↔ (
      (claimed ≡ claimed)
      × (genesis_block_time ≤ claimed)
      × IsNotFuture (some 1_800_000_000) claimed)
validate_block_time_iff_example = validate_block_time_iff claimed claimed (some 1_800_000_000)

abbrev digest : String
digest = "000000000000000000000000000000000000000000000000000000000000abCD"

abbrev value_of : String → Value
value_of key =
    if str_eq key "height"
    then record { as_str = none; as_u64 = some 800_000 }
    else if str_eq key "time"
    then record { as_str = none; as_u64 = some claimed }
    else if str_eq key "timestamp"
    then record { as_str = none; as_u64 = some claimed }
    else record { as_str = some digest; as_u64 = none }

-- A server that answers every request with one block.
abbrev http : Http
http = record {
  Reply = Unit;
  send = λ url. ok tt;
  error_for_status = λ reply. ok reply;
  text = λ reply. ok digest;
  json = λ reply. ok (record { field = value_of; first_block = some value_of });
}

-- A decoder of the digest that the server reports.
abbrev digests : HexBytes
digests = record {
  decode = λ s. if str_eq s digest then some (205 ∷ []) else none;
  ct_eq = same_list;
  ct_eq_iff = same_list_iff;
}

-- A moment with a connection to that server.
abbrev live : Moment
live = record moment { client = ok http }

lookup_block-IsBacked_example :
    IsBacked digests (λ n. live) 800_000 (lookup_block digests live 800_000 []).0
    × CacheIsBacked digests (λ n. live) (lookup_block digests live 800_000 []).1
lookup_block-IsBacked_example = lookup_block-IsBacked digests (λ n. live) 0 800_000 [] tt

cached : get 800_000 session.cache ≡ some (record { fetched_at = 0; lookup = confirmed })
unfolding get
cached = refl

missed : outcome (lookup_block words moment 700_000 session.cache).0 ≢ Outcome.corroborated
unfolding lookup_block get query
missed = ground arith

anchor_from_lookup-valid_iff_example :
    ((anchor_from_lookup services prepared "sha256:cd" confirmed).verdict ≡ AnchorVerdict.valid)
    ↔ Confirms services prepared confirmed
anchor_from_lookup-valid_iff_example =
    anchor_from_lookup-valid_iff services prepared "sha256:cd" confirmed

confirmed_valid :
    (anchor_from_lookup services prepared "sha256:cd" confirmed).verdict ≡ AnchorVerdict.valid
unfolding anchor_from_lookup
confirmed_valid = refl

anchor_from_lookup-time_example :
    ExactTime services prepared confirmed
      (anchor_from_lookup services prepared "sha256:cd" confirmed)
anchor_from_lookup-time_example =
    anchor_from_lookup-time services prepared "sha256:cd" confirmed confirmed_valid

-- A Merkle comparison for the root that the server reports.
abbrev comparing : Services
comparing = record services { verify_against_block = λ attestation root. str_eq root digest }

abbrev answer : BlockLookup
answer =
    BlockLookup.corroborated
      (record {
        height = 800_000;
        timestamp_secs = claimed;
        block_hash = digest;
        merkle_root = digest;
      })
      (record {
        source = "blockstream.info";
        block_hash = digest;
        merkle_root = digest;
        block_timestamp_secs = claimed;
      }
        ∷ record {
          source = "mempool.space";
          block_hash = digest;
          merkle_root = digest;
          block_timestamp_secs = claimed;
        }
        ∷ record {
          source = "blockchain.info";
          block_hash = digest;
          merkle_root = digest;
          block_timestamp_secs = claimed;
        }
        ∷ [])

answered : (lookup_block digests live 800_000 []).0 ≡ answer
unfolding lookup_block get query fetch_block_info read_block read_first_block hex64 is_hex64
    check_reported_height check_reported_hash validate_block_time sort_answers sources_agree
    agrees_with same_hex trim classify source_reports
answered = refl

abbrev settled_anchor : AnchorVerificationResult
settled_anchor = anchor_from_lookup comparing prepared "sha256:cd" answer

settled_valid : settled_anchor.verdict ≡ AnchorVerdict.valid
unfolding anchor_from_lookup
settled_valid = refl

abbrev first_session : Session
first_session = record { lookups = 0; cache = [] }

passed :
    get_elem? (online digests comparing (λ n. live) waiting first_session).anchor_results 0
    ≡ some settled_anchor
unfolding verify_anchors_online from_facts
passed = ap (λ l. some (anchor_from_lookup comparing prepared "sha256:cd" l)) answered

online_valid-IsSettled_example :
    (get_elem? waiting.anchor_results 0 ≡ some settled_anchor)
    ⊎ IsSettled digests comparing (λ n. live) waiting 0
online_valid-IsSettled_example =
    online_valid-IsSettled digests comparing (λ n. live) waiting first_session 0 settled_anchor tt
      passed settled_valid

abbrev refuted : SingleVerificationResult
refuted = record waiting { anchor_results = refuted_anchor ∷ []; anchor_facts = refuted_facts ∷ [] }

online_keeps_settled_example :
    get_elem? (online words services (λ n. moment) refuted session).anchor_results 0
    ≡ get_elem? refuted.anchor_results 0
online_keeps_settled_example =
    online_keeps_settled words services (λ n. moment) refuted session 0 refuted_facts refl
      (inl refl)

online-invalid_iff_example :
    ((verdict (online words services (λ n. moment) wrong_file session)).status ≡ Status.invalid)
    ↔ ((verdict wrong_file).status ≡ Status.invalid)
online-invalid_iff_example = online-invalid_iff words services (λ n. moment) wrong_file session

abbrev provider : ApiProvider
provider = record {
  name = "one";
  base_url = "https://one";
  two_step = false;
  timestamp_field = "time";
}

abbrev fetched_header : BitcoinBlockInfo
fetched_header = record {
  height = 800_000;
  timestamp_secs = claimed;
  block_hash = digest;
  merkle_root = digest;
}

fetched : fetch_block_info words http (some 1_800_000_000) provider 800_000 ≡ ok fetched_header
unfolding fetch_block_info read_first_block hex64 is_hex64 check_reported_height validate_block_time
fetched = refl

fetched-IsChecked_example :
    IsChecked words http (some 1_800_000_000) false "https://one" 800_000 fetched_header
fetched-IsChecked_example =
    fetched-IsChecked words http (some 1_800_000_000) provider 800_000 fetched_header fetched
