-- ===== src/Output/Json.antt =====
-- src/output/json.rs: the documents of the JSON output, before their serialization.
pub mod Anchor
pub mod Single
pub mod Batch
pub mod Laws
pub mod Rows
pub mod Relay
use Prim.Native.Nat.{◌/◌}
use Prim.Native.Char.{code}
use Prim.Native.String
use atl_cli.Prelude.{
  ℕ, ◌^◌, String, Bool, true, false, Option, none, some, List, [], ◌∷◌, ltb, ◌==◌, concat,
  if◌then◌else◌,
}
use atl_cli.Error.{CliError}
use atl_cli.Verify.Verdict.{ReasonCode}
use atl_cli.Verify.Verdict.Codes.{as_str}

-- The crates `hex` and `chrono`: the encoder, and a time in seconds as ISO 8601, where it has one; and the
-- text of an error, which the crate `thiserror` derives.
pub record Formats : Type 0 where
  pub hex_encode : List ℕ → String
  pub format_utc : ℕ → Option String
  pub display_error : CliError → String

module _ (formats : Formats) where
  unfoldable pub format_timestamp_secs_iso : ℕ → Option String
  format_timestamp_secs_iso secs = if ltb secs (2 ^ 63) then formats.format_utc secs else none

  unfoldable pub format_timestamp_iso : ℕ → Option String
  format_timestamp_iso nanos =
      let secs = nanos / 1_000_000_000 in
      if ltb secs (2 ^ 63) then formats.format_utc secs else none

  unfoldable pub sha256_text : List ℕ → String
  sha256_text bytes = concat ("sha256:" ∷ formats.hex_encode bytes ∷ [])

pub record ErrorJson : Type 0 where
  pub error_type : String
  pub message : String

-- `replace('_', " ")`.
spaced : String → String
spaced String.[] = ""
spaced (String.◌∷◌ c s) =
    let rest = spaced s in if code c == b'_' then concat (" " ∷ rest ∷ []) else String.◌∷◌ c rest

unfoldable pub describe : ReasonCode → String
unfolding spaced
describe ReasonCode.file_hash_mismatch = "File hash does not match receipt"
describe ReasonCode.tsa_root_not_trusted =
    "TSA certificate chain terminates in a root no trust store names"
describe ReasonCode.tsa_chain_incomplete = "TSA certificate chain is missing an issuer certificate"
describe ReasonCode.tsa_chain_indeterminate =
    "TSA certificate chain could not be evaluated; nothing was refuted"
describe ReasonCode.cms_signature_indeterminate =
    "CMS signature could not be evaluated; nothing was refuted"
describe ReasonCode.tsa_imprint_indeterminate =
    "messageImprint could not be compared; nothing was refuted"
describe ReasonCode.tsa_imprint_malformed =
    "messageImprint is malformed: its hash length contradicts the algorithm it names"
describe ReasonCode.tsa_timestamping_eku_not_checked =
    "the signer's timestamping EKU was never examined; no signer was established"
describe ReasonCode.bitcoin_block_not_checked = "Bitcoin block header was not fetched"
describe ReasonCode.bitcoin_block_unavailable = "no block-explorer API returned the block header"
describe ReasonCode.bitcoin_providers_disagree = concat (
    "block-explorer APIs contradicted each other about the block header; nothing about "
    ∷ "the receipt was refuted" ∷ [])
describe ReasonCode.bitcoin_single_source_only =
    "only one block-explorer API answered, so the block header is uncorroborated"
describe ReasonCode.batch_items_invalid = "One or more items failed verification"
describe ReasonCode.batch_items_untrusted =
    "One or more items could not be verified to completion; none was refuted"
describe ReasonCode.batch_items_unmatched =
    "One or more named files were never verified: no matching receipt or source file"
describe ReasonCode.batch_nothing_verified = "No file in this batch was verified"
describe ReasonCode.receipt_unanchored = concat (
    "No anchor was verified, so ATL v2.0 5.5's floor is unmet. See "
    ∷ "anchor_status.presented for whether any were offered at all" ∷ [])
describe ReasonCode.anchor_quorum_unmet =
    "At least one anchor was verified, but not every anchor the receipt presents was"
describe ReasonCode.batch_items_errored = "One or more items could not be processed"
describe ReasonCode.log_consistency_failed = "Cross-receipt log consistency verification failed"
describe other = spaced (as_str other)

unfoldable pub error_json : ReasonCode → ErrorJson
unfolding describe
error_json reason = record { error_type = as_str reason; message = describe reason }
