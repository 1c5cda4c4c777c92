-- ===== src/Output/Json/Anchor.antt =====
-- src/output/json.rs: what the JSON output says of an anchor.
use atl_cli.Prelude.{
  ℕ, String, Bool, true, false, not, Option, none, some, List, [], map, all, is_empty,
  if◌then◌else◌,
}
use atl_cli.Core.{
  MessageImprint, CmsSignature, TimestampingEku, PathStatus, SelfSignature, TerminalAnchor,
}
use atl_cli.Verify.Verdict.Codes.{as_str}
use atl_cli.Verify.Anchor.{
  AnchorDetails, AnchorVerificationResult, BlockSourceReport, is_valid, reason_code, state,
  state_str, claimed_time_str, rfc3161_trust_state,
}
use atl_cli.Verify.Policy.{
  TrustAssessment, UnresolvedAnchor, evidence_established, refuted_anchors, refuted_by, policy_str,
  requirement, policy_satisfied, max_trust_profile, coverage_complete, accepted_with_gaps,
}
use atl_cli.Output.Json.{Formats, format_timestamp_iso, format_timestamp_secs_iso, sha256_text}

-- `Option::and_then`, `Option::map`, and `bool::then_some` with `flatten`.
abbrev pub and_then : {A B : Type 0} → Option A → (A → Option B) → Option B
and_then none f = none
and_then (some a) f = f a

abbrev pub map_some : {A B : Type 0} → (A → B) → Option A → Option B
map_some f none = none
map_some f (some a) = some (f a)

abbrev pub when : {A : Type 0} → Bool → Option A → Option A
when true o = o
when false o = none

pub record BlockSourceJson : Type 0 where
  pub source : String
  pub block_hash : String
  pub merkle_root : String
  pub block_timestamp : Option String

pub record TerminalAnchorJson : Type 0 where
  pub kind : String
  pub sha256_fingerprint : String
  pub self_signature : Option String

unfoldable pub path_status_str : PathStatus → String
path_status_str PathStatus.complete = "complete"
path_status_str PathStatus.incomplete = "incomplete"
path_status_str PathStatus.indeterminate = "indeterminate"
path_status_str PathStatus.invalid = "invalid"

unfoldable pub message_imprint_str : MessageImprint → String
message_imprint_str MessageImprint.verified = "verified"
message_imprint_str MessageImprint.mismatch = "mismatch"
message_imprint_str MessageImprint.malformed = "malformed"
message_imprint_str MessageImprint.indeterminate = "indeterminate"

unfoldable pub cms_signature_str : CmsSignature → String
cms_signature_str CmsSignature.verified = "verified"
cms_signature_str CmsSignature.refuted = "refuted"
cms_signature_str CmsSignature.indeterminate = "indeterminate"

unfoldable pub timestamping_eku_str : TimestampingEku → String
timestamping_eku_str TimestampingEku.fine = "ok"
timestamping_eku_str TimestampingEku.not_checked = "not_checked"
timestamping_eku_str TimestampingEku.absent = "absent"
timestamping_eku_str TimestampingEku.malformed = "malformed"
timestamping_eku_str TimestampingEku.not_critical = "not_critical"
timestamping_eku_str TimestampingEku.not_exclusive = "not_exclusive"

self_signature_str : SelfSignature → String
self_signature_str SelfSignature.verified = "verified"
self_signature_str SelfSignature.unverifiable = "unverifiable"

pub record BitcoinJson : Type 0 where
  pub block_height : Option ℕ
  pub block_timestamp : Option String
  pub proof_block_height : Option ℕ
  pub proof_block_heights : List ℕ
  pub reported_block_timestamp : Option String
  pub receipt_block_height : Option ℕ
  pub receipt_block_time : Option String
  pub claimed_time_check : Option String
  pub target_hash : Option String
  pub operation_count : Option ℕ
  pub computed_root : Option String
  pub block_merkle_root : Option String
  pub merkle_match : Option Bool
  pub block_sources : List BlockSourceJson

abbrev no_bitcoin : BitcoinJson
no_bitcoin = record {
  block_height = none;
  block_timestamp = none;
  proof_block_height = none;
  proof_block_heights = [];
  reported_block_timestamp = none;
  receipt_block_height = none;
  receipt_block_time = none;
  claimed_time_check = none;
  target_hash = none;
  operation_count = none;
  computed_root = none;
  block_merkle_root = none;
  merkle_match = none;
  block_sources = [];
}

-- The fields of `AnchorResultJson` for an RFC 3161 anchor.
pub record Rfc3161Json : Type 0 where
  pub message_imprint : String
  pub cms_signature : String
  pub chain_valid_at_gen_time : Bool
  pub timestamping_eku_ok : Bool
  pub timestamping_eku : String
  pub path_status : String
  pub terminal_anchor : Option TerminalAnchorJson
  pub revocation : String

-- The fields of a `bitcoin_ots` anchor and of an RFC 3161 anchor are kept in their two groups.
pub record AnchorResultJson : Type 0 where
  pub anchor_type : String
  pub verified : Bool
  pub state : String
  pub reason_code : Option String
  pub timestamp_nanos : Option ℕ
  pub timestamp : Option String
  pub claimed_timestamp_nanos : Option ℕ
  pub claimed_timestamp : Option String
  pub bitcoin : BitcoinJson
  pub error : Option String
  pub trust_state : Option String
  pub rfc3161 : Option Rfc3161Json

pub record AnchorVerificationJson : Type 0 where
  pub all_verified : Bool
  pub results : List AnchorResultJson

module _ (formats : Formats) where
  unfoldable pub terminal_anchor_json : TerminalAnchor → TerminalAnchorJson
  unfolding self_signature_str
  terminal_anchor_json (TerminalAnchor.trusted fingerprint) = record {
    kind = "trusted";
    sha256_fingerprint = sha256_text formats fingerprint;
    self_signature = none;
  }
  terminal_anchor_json (TerminalAnchor.assumed fingerprint signature) = record {
    kind = "assumed";
    sha256_fingerprint = sha256_text formats fingerprint;
    self_signature = some (self_signature_str signature);
  }

  unfoldable pub block_source_json : BlockSourceReport → BlockSourceJson
  block_source_json r = record {
    source = r.source;
    block_hash = r.block_hash;
    merkle_root = r.merkle_root;
    block_timestamp = format_timestamp_secs_iso formats r.block_timestamp_secs;
  }

  -- The `match` that fills `BitcoinJson`, for an anchor that is `established` or not.
  unfoldable pub bitcoin_json : (established : Bool) → AnchorDetails → BitcoinJson
  unfolding block_source_json
  bitcoin_json established (AnchorDetails.bitcoin d) =
      let block_time = and_then d.block_timestamp_secs (format_timestamp_secs_iso formats) in
      record {
        block_height = when established d.proof_block_height;
        block_timestamp = when established block_time;
        proof_block_height = when (not established) d.proof_block_height;
        proof_block_heights = d.proof_block_heights;
        reported_block_timestamp = when (not established) block_time;
        receipt_block_height = some d.receipt_block_height;
        receipt_block_time = some d.receipt_block_time;
        claimed_time_check = some (claimed_time_str d.claimed_time_check);
        target_hash = some d.target_hash;
        operation_count = d.operation_count;
        computed_root = d.computed_root;
        block_merkle_root = d.block_merkle_root;
        merkle_match = d.merkle_match;
        block_sources = map block_source_json d.block_sources;
      }
  bitcoin_json established (AnchorDetails.rfc3161 _) = no_bitcoin
  bitcoin_json established AnchorDetails.unknown = no_bitcoin

  unfoldable pub rfc3161_json : AnchorDetails → Option Rfc3161Json
  unfolding terminal_anchor_json
  rfc3161_json (AnchorDetails.rfc3161 d) = some (record {
    message_imprint = message_imprint_str d.message_imprint;
    cms_signature = cms_signature_str d.cms_signature;
    chain_valid_at_gen_time = d.chain_valid_at_gen_time;
    timestamping_eku_ok = d.timestamping_eku_ok;
    timestamping_eku = timestamping_eku_str d.timestamping_eku;
    path_status = path_status_str d.path_status;
    terminal_anchor = map_some terminal_anchor_json d.terminal_anchor;
    revocation = d.revocation;
  })
  rfc3161_json _ = none

  unfoldable pub anchor_result_json : AnchorVerificationResult → AnchorResultJson
  unfolding bitcoin_json rfc3161_json
  anchor_result_json a =
      let verified = is_valid a.verdict in
      let established_time = when verified a.timestamp_nanos in
      let claimed_time = when (not verified) a.timestamp_nanos in
      record {
        anchor_type = a.anchor_type;
        verified = verified;
        state = state_str (state a.verdict);
        reason_code = map_some as_str (reason_code a.verdict);
        timestamp_nanos = established_time;
        timestamp = and_then established_time (format_timestamp_iso formats);
        claimed_timestamp_nanos = claimed_time;
        claimed_timestamp = and_then claimed_time (format_timestamp_iso formats);
        bitcoin = bitcoin_json verified a.details;
        error = a.error;
        trust_state = rfc3161_trust_state a;
        rfc3161 = rfc3161_json a.details;
      }

  unfoldable pub build_anchor_verification :
      List AnchorVerificationResult → Option AnchorVerificationJson
  unfolding anchor_result_json
  build_anchor_verification anchors =
      if is_empty anchors
      then none
      else some (record {
        all_verified = all (λ (a : AnchorVerificationResult). is_valid a.verdict) anchors;
        results = map anchor_result_json anchors;
      })

pub record UnresolvedAnchorJson : Type 0 where
  pub anchor_type : String
  pub state : String
  pub reason_code : String

unfoldable pub anchor_list : List UnresolvedAnchor → List UnresolvedAnchorJson
anchor_list anchors =
    map
      (λ (a : UnresolvedAnchor). record {
        anchor_type = a.anchor_type;
        state = state_str a.state;
        reason_code = as_str a.reason;
      })
      anchors

pub record EvidenceJson : Type 0 where
  pub established : Bool
  pub verified_anchors : ℕ
  pub refuted_anchors : ℕ
  pub total_anchors : ℕ
  pub refuted_by : Option String

pub record PolicyJson : Type 0 where
  pub profile : String
  pub requirement : String
  pub satisfied : Bool
  pub max_trust_profile : Bool

pub record CoverageJson : Type 0 where
  pub complete : Bool
  pub accepted_with_gaps : Bool
  pub unresolved : List UnresolvedAnchorJson
  pub refuted : List UnresolvedAnchorJson

pub record AssessmentJson : Type 0 where
  pub evidence : EvidenceJson
  pub policy : PolicyJson
  pub coverage : CoverageJson

unfoldable pub build_assessment : TrustAssessment → AssessmentJson
unfolding anchor_list refuted_by refuted_anchors
build_assessment t = record {
  evidence = record {
    established = evidence_established t;
    verified_anchors = t.verified_anchors;
    refuted_anchors = refuted_anchors t;
    total_anchors = t.total_anchors;
    refuted_by = map_some as_str (refuted_by t);
  };
  policy = record {
    profile = policy_str t.policy;
    requirement = requirement t.policy;
    satisfied = policy_satisfied t;
    max_trust_profile = max_trust_profile t;
  };
  coverage = record {
    complete = coverage_complete t;
    accepted_with_gaps = accepted_with_gaps t;
    unresolved = anchor_list t.unresolved;
    refuted = anchor_list t.refuted;
  };
}
