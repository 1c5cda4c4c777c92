-- ===== src/Verify/Anchor.antt =====
-- src/verify/anchor.rs: the verdict on one anchor.
pub mod Prose
pub mod Sources
pub mod Laws
use atl_cli.Prelude.{
  ℕ, String, str_eq, Bool, true, false, Option, none, some, List, [], ◌∷◌, head?, length,
  if◌then◌else◌,
}
use mathlib.Core.Option
use atl_cli.Core.{
  MessageImprint, CmsSignature, TimestampingEku, PathStatus, TerminalAnchor, VerificationError,
  AnchorFacts, AnchorEvidence, ReceiptAnchor, Rfc3161AnchorFacts, BitcoinAttestation,
  BitcoinOtsFacts, anchor_type,
}
use atl_cli.Verify.Verdict.{ReasonCode}

pub data AnchorVerdict : Type 0 where
  valid : AnchorVerdict
  untrusted : ReasonCode → AnchorVerdict
  invalid : ReasonCode → AnchorVerdict

unfoldable pub is_valid : AnchorVerdict → Bool
is_valid AnchorVerdict.valid = true
is_valid _ = false

unfoldable pub reason_code : AnchorVerdict → Option ReasonCode
reason_code AnchorVerdict.valid = none
reason_code (AnchorVerdict.untrusted code) = some code
reason_code (AnchorVerdict.invalid code) = some code

pub data AnchorState : Type 0 where
  verified cryptographically_consistent incomplete not_checked unavailable : AnchorState
  uncorroborated contested unevaluable refuted unresolved : AnchorState

unfoldable pub from_reason : ReasonCode → AnchorState
from_reason ReasonCode.tsa_root_not_trusted = AnchorState.cryptographically_consistent
from_reason ReasonCode.tsa_chain_incomplete = AnchorState.incomplete
from_reason ReasonCode.bitcoin_block_not_checked = AnchorState.not_checked
from_reason ReasonCode.bitcoin_block_unavailable = AnchorState.unavailable
from_reason ReasonCode.bitcoin_single_source_only = AnchorState.uncorroborated
from_reason ReasonCode.bitcoin_providers_disagree = AnchorState.contested
from_reason ReasonCode.tsa_imprint_indeterminate = AnchorState.unevaluable
from_reason ReasonCode.cms_signature_indeterminate = AnchorState.unevaluable
from_reason ReasonCode.tsa_chain_indeterminate = AnchorState.unevaluable
from_reason ReasonCode.tsa_timestamping_eku_not_checked = AnchorState.unevaluable
from_reason ReasonCode.bitcoin_claimed_time_unreadable = AnchorState.unevaluable
from_reason ReasonCode.anchor_type_unsupported = AnchorState.unevaluable
from_reason _ = AnchorState.unresolved

unfoldable pub state : AnchorVerdict → AnchorState
unfolding from_reason
state AnchorVerdict.valid = AnchorState.verified
state (AnchorVerdict.invalid _) = AnchorState.refuted
state (AnchorVerdict.untrusted reason) = from_reason reason

unfoldable pub state_str : AnchorState → String
state_str AnchorState.verified = "verified"
state_str AnchorState.cryptographically_consistent = "cryptographically_consistent"
state_str AnchorState.incomplete = "incomplete"
state_str AnchorState.not_checked = "not_checked"
state_str AnchorState.unavailable = "unavailable"
state_str AnchorState.uncorroborated = "uncorroborated"
state_str AnchorState.contested = "contested"
state_str AnchorState.unevaluable = "unevaluable"
state_str AnchorState.refuted = "refuted"
state_str AnchorState.unresolved = "unresolved"

-- One block-explorer API's report of a block header.
pub record BlockSourceReport : Type 0 where
  pub source : String
  pub block_hash : String
  pub merkle_root : String
  pub block_timestamp_secs : ℕ

pub data ClaimedTimeCheck : Type 0 where
  matches contradicted not_compared unreadable : ClaimedTimeCheck

unfoldable pub claimed_time_str : ClaimedTimeCheck → String
claimed_time_str ClaimedTimeCheck.matches = "matches"
claimed_time_str ClaimedTimeCheck.contradicted = "contradicted"
claimed_time_str ClaimedTimeCheck.not_compared = "not_compared"
claimed_time_str ClaimedTimeCheck.unreadable = "unreadable"

pub record Rfc3161Details : Type 0 where
  pub message_imprint : MessageImprint
  pub cms_signature : CmsSignature
  pub chain_valid_at_gen_time : Bool
  pub chain_diagnostic : Option String
  pub timestamping_eku_ok : Bool
  pub timestamping_eku : TimestampingEku
  pub path_status : PathStatus
  pub terminal_anchor : Option TerminalAnchor
  pub revocation : String

pub record BitcoinDetails : Type 0 where
  pub proof_block_height : Option ℕ
  pub proof_block_heights : List ℕ
  pub receipt_block_height : ℕ
  pub receipt_block_time : String
  pub claimed_time_check : ClaimedTimeCheck
  pub block_timestamp_secs : Option ℕ
  pub target_hash : String
  pub operation_count : Option ℕ
  pub computed_root : Option String
  pub block_merkle_root : Option String
  pub merkle_match : Option Bool
  pub block_sources : List BlockSourceReport

pub data AnchorDetails : Type 0 where
  rfc3161 : Rfc3161Details → AnchorDetails
  bitcoin : BitcoinDetails → AnchorDetails
  unknown : AnchorDetails

pub record AnchorVerificationResult : Type 0 where
  pub anchor_type : String
  pub verdict : AnchorVerdict
  pub timestamp_nanos : Option ℕ
  pub error : Option String
  pub details : AnchorDetails

unfoldable pub rfc3161_trust_word : AnchorVerdict → String
rfc3161_trust_word AnchorVerdict.valid = "trusted"
rfc3161_trust_word (AnchorVerdict.untrusted ReasonCode.tsa_root_not_trusted) = "assumed"
rfc3161_trust_word (AnchorVerdict.untrusted ReasonCode.tsa_chain_indeterminate) = "indeterminate"
rfc3161_trust_word (AnchorVerdict.untrusted ReasonCode.cms_signature_indeterminate) =
    "indeterminate"
rfc3161_trust_word (AnchorVerdict.untrusted ReasonCode.tsa_imprint_indeterminate) = "indeterminate"
rfc3161_trust_word (AnchorVerdict.untrusted ReasonCode.tsa_timestamping_eku_not_checked) =
    "indeterminate"
rfc3161_trust_word (AnchorVerdict.untrusted _) = "incomplete"
rfc3161_trust_word (AnchorVerdict.invalid _) = "failed"

unfoldable pub rfc3161_trust_state : AnchorVerificationResult → Option String
unfolding rfc3161_trust_word
rfc3161_trust_state a = elim a.details [
  | AnchorDetails.rfc3161 _ ↦ some (rfc3161_trust_word a.verdict)
  | _ ↦ none
]

reason_for_imprint : MessageImprint → ReasonCode
reason_for_imprint MessageImprint.mismatch = ReasonCode.tsa_imprint_mismatch
reason_for_imprint MessageImprint.malformed = ReasonCode.tsa_imprint_malformed
reason_for_imprint _ = ReasonCode.tsa_imprint_indeterminate

reason_for_signature : CmsSignature → ReasonCode
reason_for_signature CmsSignature.refuted = ReasonCode.cms_signature_invalid
reason_for_signature _ = ReasonCode.cms_signature_indeterminate

reason_for_eku : TimestampingEku → ReasonCode
reason_for_eku TimestampingEku.absent = ReasonCode.tsa_timestamping_eku_invalid
reason_for_eku TimestampingEku.malformed = ReasonCode.tsa_timestamping_eku_invalid
reason_for_eku TimestampingEku.not_critical = ReasonCode.tsa_timestamping_eku_invalid
reason_for_eku TimestampingEku.not_exclusive = ReasonCode.tsa_timestamping_eku_invalid
reason_for_eku _ = ReasonCode.tsa_timestamping_eku_not_checked

reason_for_path : PathStatus → Bool → ReasonCode
reason_for_path PathStatus.invalid valid_at_gen_time = ReasonCode.tsa_chain_invalid_at_gen_time
reason_for_path PathStatus.complete false = ReasonCode.tsa_chain_invalid_at_gen_time
reason_for_path PathStatus.incomplete valid_at_gen_time = ReasonCode.tsa_chain_incomplete
reason_for_path _ _ = ReasonCode.tsa_chain_indeterminate

reason_for_terminal : Option TerminalAnchor → ReasonCode
reason_for_terminal (some (TerminalAnchor.assumed _ _)) = ReasonCode.tsa_root_not_trusted
reason_for_terminal _ = ReasonCode.tsa_chain_incomplete

unfoldable pub reason_for_finding : VerificationError → ReasonCode
unfolding reason_for_imprint reason_for_signature reason_for_eku reason_for_path reason_for_terminal
reason_for_finding (VerificationError.anchor_target_invalid _ _) = ReasonCode.anchor_target_invalid
reason_for_finding (VerificationError.anchor_target_hash_mismatch _) =
    ReasonCode.anchor_target_hash_mismatch
reason_for_finding (VerificationError.invalid_hash _ _) = ReasonCode.anchor_hash_malformed
reason_for_finding VerificationError.missing_super_proof = ReasonCode.super_proof_missing
reason_for_finding (VerificationError.anchor_payload_undecodable kind _) =
    if str_eq kind "bitcoin_ots"
    then ReasonCode.bitcoin_ots_proof_invalid
    else ReasonCode.tsa_token_unparsable
reason_for_finding (VerificationError.anchor_type_unsupported _ _) =
    ReasonCode.anchor_type_unsupported
reason_for_finding (VerificationError.bitcoin_height_contradicts_proof _ _) =
    ReasonCode.bitcoin_claimed_height_contradicts_proof
reason_for_finding VerificationError.bitcoin_block_not_obtained =
    ReasonCode.bitcoin_block_not_checked
reason_for_finding (VerificationError.rfc3161_message_imprint imprint) = reason_for_imprint imprint
reason_for_finding (VerificationError.rfc3161_cms_signature signature) =
    reason_for_signature signature
reason_for_finding (VerificationError.rfc3161_timestamping_eku eku) = reason_for_eku eku
reason_for_finding (VerificationError.rfc3161_certificate_path status valid_at_gen_time) =
    reason_for_path status valid_at_gen_time
reason_for_finding (VerificationError.rfc3161_terminal_not_trusted terminal) =
    reason_for_terminal terminal
reason_for_finding _ = ReasonCode.receipt_verification_failed

unfoldable pub verdict_from_facts : AnchorFacts → AnchorVerdict
verdict_from_facts facts = elim (head? facts.refutations) [
  | some refutation ↦ AnchorVerdict.invalid (reason_for_finding refutation)
  | none ↦ elim (head? facts.inabilities) [
    | some inability ↦ AnchorVerdict.untrusted (reason_for_finding inability)
    | none ↦ AnchorVerdict.valid
  ]
]

-- What a block header still has to settle about a `bitcoin_ots` anchor.
pub record PreparedOts : Type 0 where
  pub attestation : BitcoinAttestation
  pub computed_root : String
  pub operation_count : ℕ
  pub attested_block_heights : List ℕ
  pub receipt_block_height : ℕ
  pub receipt_block_time : String

prepare : BitcoinOtsFacts → Option BitcoinAttestation → Option String → Option PreparedOts
prepare ots (some attestation) (some computed_root) = some (record {
  attestation = attestation;
  computed_root = computed_root;
  operation_count = length attestation.merkle_path;
  attested_block_heights = ots.attested_block_heights;
  receipt_block_height = ots.receipt_block_height;
  receipt_block_time = ots.receipt_block_time;
})
prepare _ _ _ = none

-- `PreparedOts::from_facts`.
unfoldable pub from_facts : AnchorFacts → Option PreparedOts
unfolding prepare
from_facts facts = if facts.is_refuted then none else elim facts.evidence [
  | AnchorEvidence.bitcoin_ots ots ↦ prepare ots ots.attestation ots.computed_block_merkle_root
  | _ ↦ none
]
