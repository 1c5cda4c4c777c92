-- ===== src/Verify/Online.antt =====
-- src/verify/online.rs: settling the `bitcoin_ots` anchors of one receipt against block headers.
pub mod Confirm
pub mod Pass
pub mod Laws
use atl_cli.Prelude.{
  ℕ, ◌*◌, ◌%◌, ◌^◌, suc, String, Bool, true, false, not, Option, none, some, is_some, List, [], ◌∷◌,
  ◌++◌, map, head?, length, set, any, ltb, ◌==◌, if◌then◌else◌, concat, join, show,
}
use atl_cli.Core.{BitcoinAttestation, AnchorFacts, ReceiptAnchor, target_hash}
use atl_cli.Verify.Verdict.{ReasonCode}
use atl_cli.Verify.Anchor.{
  AnchorVerdict, AnchorVerificationResult, AnchorDetails, BitcoinDetails, ClaimedTimeCheck,
  BlockSourceReport, PreparedOts, from_facts,
}
use atl_cli.Verify.Anchor.Sources.{HexBytes}
use atl_cli.Verify.Single.{SingleVerificationResult}
use atl_cli.Net.Bitcoin.{BlockLookup, BitcoinBlockInfo, u64_max}
use atl_cli.Net.Bitcoin.Cache.{Cache, Moment, lookup_block}

-- What this module takes from other code: the timestamp parser and the Merkle comparison of
-- `atl-core`, and two renderings, of a block time by `chrono` and of a quoted text by `Debug`.
pub record Services : Type 0 where
  pub parse_iso8601_to_nanos : String → Option ℕ
  pub verify_against_block : BitcoinAttestation → String → Bool
  pub render_date : ℕ → Option String
  pub quote : String → String

-- `format_block_time`, where `render_date` prints the date of an `i64`, if it has one.
unfoldable pub format_block_time : (ℕ → Option String) → ℕ → String
format_block_time render_date secs =
    let raw = concat (show secs ∷ " seconds since the epoch" ∷ []) in
    if ltb secs (2 ^ 63) then elim (render_date secs) [ none ↦ raw | some date ↦ date ] else raw

abbrev pub nanos_per_sec : ℕ
nanos_per_sec = 1_000_000_000

-- `u64::checked_mul`, and the unchecked product of a release build.
abbrev pub checked_mul : ℕ → ℕ → Option ℕ
checked_mul a b = if ltb u64_max (a * b) then none else some (a * b)

abbrev pub wrapping_mul : ℕ → ℕ → ℕ
wrapping_mul a b = (a * b) % 2 ^ 64

unfoldable pub receipt_requires_network : List AnchorFacts → Bool
receipt_requires_network facts = any (λ f. is_some (from_facts f)) facts

compare_nanos : Option ℕ → Option ℕ → ClaimedTimeCheck
compare_nanos none block = ClaimedTimeCheck.unreadable
compare_nanos (some claimed) none = ClaimedTimeCheck.unreadable
compare_nanos (some claimed) (some block) =
    if claimed == block then ClaimedTimeCheck.matches else ClaimedTimeCheck.contradicted

describe_report : BlockSourceReport → String
describe_report r = concat (
    r.source
    ∷ " reported merkle_root "
    ∷ r.merkle_root
    ∷ " in block "
    ∷ r.block_hash
    ∷ " at "
    ∷ show r.block_timestamp_secs
    ∷ [])

first_source : List BlockSourceReport → String
first_source [] = "one source"
first_source (r ∷ _) = r.source

module _ (s : Services) where
  open s use {parse_iso8601_to_nanos, verify_against_block, render_date, quote}

  unfoldable pub check_claimed_time : String → ℕ → ClaimedTimeCheck
  unfolding compare_nanos
  check_claimed_time receipt_block_time block_timestamp_secs =
      compare_nanos (parse_iso8601_to_nanos receipt_block_time)
        (checked_mul block_timestamp_secs nanos_per_sec)

  module _ (prepared : PreparedOts) (target_hash : String) where
    -- The details of an anchor whose header was not established.
    unconfirmed_details : List BlockSourceReport → BitcoinDetails
    unconfirmed_details reports = record {
      proof_block_height = some prepared.attestation.block_height;
      proof_block_heights = prepared.attested_block_heights;
      receipt_block_height = prepared.receipt_block_height;
      receipt_block_time = prepared.receipt_block_time;
      claimed_time_check = ClaimedTimeCheck.not_compared;
      block_timestamp_secs = none;
      target_hash = target_hash;
      operation_count = some prepared.operation_count;
      computed_root = some prepared.computed_root;
      block_merkle_root = none;
      merkle_match = none;
      block_sources = reports;
    }

    unconfirmed : ReasonCode → String → List BlockSourceReport → AnchorVerificationResult
    unconfirmed reason error reports = record {
      anchor_type = "bitcoin_ots";
      verdict = AnchorVerdict.untrusted reason;
      timestamp_nanos = none;
      error = some error;
      details = AnchorDetails.bitcoin (unconfirmed_details reports);
    }

    confirmed_details : BitcoinBlockInfo → List BlockSourceReport → BitcoinDetails
    confirmed_details info reports = record {
      proof_block_height = some info.height;
      proof_block_heights = prepared.attested_block_heights;
      receipt_block_height = prepared.receipt_block_height;
      receipt_block_time = prepared.receipt_block_time;
      claimed_time_check = check_claimed_time prepared.receipt_block_time info.timestamp_secs;
      block_timestamp_secs = some info.timestamp_secs;
      target_hash = target_hash;
      operation_count = some prepared.operation_count;
      computed_root = some prepared.computed_root;
      block_merkle_root = some (concat ("sha256:" ∷ info.merkle_root ∷ []));
      merkle_match = some (verify_against_block prepared.attestation info.merkle_root);
      block_sources = reports;
    }

    settled :
        AnchorVerdict
        → Option ℕ
        → Option String
        → BitcoinBlockInfo
        → List BlockSourceReport
        → AnchorVerificationResult
    settled verdict timestamp_nanos error info reports = record {
      anchor_type = "bitcoin_ots";
      verdict = verdict;
      timestamp_nanos = timestamp_nanos;
      error = error;
      details = AnchorDetails.bitcoin (confirmed_details info reports);
    }

    -- The last `match`, on the comparison of the times.
    by_claimed_time :
        ClaimedTimeCheck → BitcoinBlockInfo → List BlockSourceReport → AnchorVerificationResult
    by_claimed_time ClaimedTimeCheck.contradicted info reports =
        settled (AnchorVerdict.invalid ReasonCode.bitcoin_claimed_time_contradicts_block) none
          (some (
            concat (
              "the receipt states bitcoin_block_time "
              ∷ prepared.receipt_block_time
              ∷ ", but the header that "
              ∷ show (length reports)
              ∷ " block-explorer APIs agree on for block "
              ∷ show info.height
              ∷ " is timestamped "
              ∷ format_block_time render_date info.timestamp_secs
              ∷ [])))
          info reports
    by_claimed_time ClaimedTimeCheck.unreadable info reports =
        settled (AnchorVerdict.untrusted ReasonCode.bitcoin_claimed_time_unreadable) none
          (some (
            concat (
              "the receipt's bitcoin_block_time "
              ∷ quote prepared.receipt_block_time
              ∷ " could not be read as a timestamp by this build, so it was not compared with the "
              ∷ "block header -- this is a limitation of this verifier, NOT a finding about your "
              ∷ "receipt"
              ∷ [])))
          info reports
    by_claimed_time _ info reports =
        settled AnchorVerdict.valid (some (wrapping_mul info.timestamp_secs nanos_per_sec)) none
          info reports

    mismatched : BitcoinBlockInfo → List BlockSourceReport → AnchorVerificationResult
    mismatched info reports =
        settled (AnchorVerdict.invalid ReasonCode.bitcoin_merkle_root_mismatch) none
          (some (
            concat (
              "Merkle root mismatch: the OTS proof does not match the header that "
              ∷ show (length reports)
              ∷ " block-explorer APIs agree on for block "
              ∷ show info.height
              ∷ [])))
          info reports

    unfoldable pub anchor_from_lookup : BlockLookup → AnchorVerificationResult
    unfolding unconfirmed_details unconfirmed confirmed_details settled by_claimed_time mismatched
        describe_report first_source check_claimed_time
    anchor_from_lookup (BlockLookup.corroborated info reports) =
        if not (verify_against_block prepared.attestation info.merkle_root)
        then mismatched info reports
        else by_claimed_time (check_claimed_time prepared.receipt_block_time info.timestamp_secs)
            info reports
    anchor_from_lookup (BlockLookup.disagreement reports) =
        unconfirmed ReasonCode.bitcoin_providers_disagree
          (concat (
            "block-explorer APIs disagree about block "
            ∷ show prepared.attestation.block_height
            ∷ ", so no block header is established and nothing was compared -- this is NOT a "
            ∷ "finding about your receipt: "
            ∷ join "; " (map describe_report reports)
            ∷ []))
          reports
    anchor_from_lookup (BlockLookup.uncorroborated reports failures) =
        unconfirmed ReasonCode.bitcoin_single_source_only
          (concat (
            "only "
            ∷ first_source reports
            ∷ " reported block "
            ∷ show prepared.attestation.block_height
            ∷ "; a single uncorroborated source cannot establish a block header, so the OTS proof "
            ∷ "was not compared against it. Others did not answer: "
            ∷ join "; " failures
            ∷ []))
          reports
    anchor_from_lookup (BlockLookup.unavailable failures) =
        unconfirmed ReasonCode.bitcoin_block_unavailable
          (concat (
            "no block-explorer API returned block "
            ∷ show prepared.attestation.block_height
            ∷ ": "
            ∷ join "; " failures
            ∷ []))
          []

-- One anchor that the network can still settle: its place, its target hash, and what was prepared.
pub record Pending : Type 0 where
  pub index : ℕ
  pub target_hash : String
  pub prepared : PreparedOts

unfoldable pub pending_from : ℕ → List ReceiptAnchor → List AnchorFacts → List Pending
pending_from i (anchor ∷ anchors) (facts ∷ rest) =
    let later = pending_from (suc i) anchors rest in
    elim (from_facts facts) [
      | none ↦ later
      | some prepared ↦
          record { index = i; target_hash = target_hash anchor; prepared = prepared } ∷ later
    ]
pending_from i _ _ = []

-- A run of the program, as far as it looks blocks up: the lookups made so far, which number the
-- moments at which they are made, and the cache.
pub record Session : Type 0 where
  pub lookups : ℕ
  pub cache : Cache

module _ (x : HexBytes) (s : Services) (moments : ℕ → Moment) where
  -- The loop over the pending anchors.
  unfoldable pub confirm :
      List Pending
      → Session
      → List AnchorVerificationResult
      → List AnchorVerificationResult × Session
  confirm [] session results = (results, session)
  confirm (p ∷ pending) session results =
      let (lookup, cache) =
        lookup_block x (moments session.lookups) p.prepared.attestation.block_height
          session.cache in
      confirm pending (record { lookups = suc session.lookups; cache = cache })
        (set results p.index (anchor_from_lookup s p.prepared p.target_hash lookup))

  unfoldable pub verify_anchors_online :
      SingleVerificationResult → Session → SingleVerificationResult × Session
  unfolding confirm pending_from
  verify_anchors_online r session =
      let (results, session') =
        confirm (pending_from 0 r.receipt.anchors r.anchor_facts) session r.anchor_results in
      (record r { anchor_results = results }, session')
