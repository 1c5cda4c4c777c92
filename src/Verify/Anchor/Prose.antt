-- ===== src/Verify/Anchor/Prose.antt =====
-- src/verify/anchor.rs: the prose about an anchor, and the result that carries it.
use atl_cli.Prelude.{
  ℕ, String, str_eq, Option, none, some, or_else, List, [], ◌∷◌, ◌++◌, map, head?, length,
  if◌then◌else◌, concat, join, show,
}
use mathlib.Core.Option
use atl_cli.Core.{
  MessageImprint, CmsSignature, TimestampingEku, PathStatus, SelfSignature, TerminalAnchor,
  VerificationError, Rfc3161AnchorFacts, AnchorEvidence, AnchorFacts, ReceiptAnchor, Receipt,
  anchor_type,
}
use atl_cli.Verify.Anchor.{
  AnchorDetails, BitcoinDetails, ClaimedTimeCheck, AnchorVerificationResult, verdict_from_facts,
}

-- What the prose takes from other crates: the `Debug` of a finding, `TimestampingEku::reason`, and
-- the encoder of the crate `hex`.
pub record Rendering : Type 0 where
  pub debug : VerificationError → String
  pub eku_reason : TimestampingEku → Option String
  pub hex_encode : List ℕ → String

with_detail : String → String → Option String → String
with_detail prefix bare (some detail) = concat (prefix ∷ detail ∷ [])
with_detail prefix bare none = bare

imprint_reasons : MessageImprint → List String
imprint_reasons MessageImprint.verified = []
imprint_reasons MessageImprint.mismatch =
    "messageImprint does not match the receipt's Data Tree root" ∷ []
imprint_reasons MessageImprint.malformed =
    "messageImprint is malformed: its hash length contradicts the hash algorithm it names" ∷ []
imprint_reasons MessageImprint.indeterminate =
    concat (
      "messageImprint could not be compared with the receipt's Data Tree root "
      ∷ "(nothing was refuted): it names a hash algorithm this verifier does not implement" ∷ [])
    ∷ []

signature_reasons : CmsSignature → Option String → List String
signature_reasons CmsSignature.verified diagnostic = []
signature_reasons CmsSignature.refuted diagnostic =
    with_detail "CMS signature invalid: " "CMS signature invalid" diagnostic ∷ []
signature_reasons CmsSignature.indeterminate diagnostic =
    with_detail "CMS signature could not be checked (nothing was refuted): "
      "CMS signature could not be checked (nothing was refuted)" diagnostic
    ∷ []

eku_reasons : Option String → List String
eku_reasons none = []
eku_reasons (some reason) =
    concat ("signer certificate's id-kp-timeStamping EKU is not usable: " ∷ reason ∷ []) ∷ []

path_reasons : PathStatus → Option String → List String
path_reasons PathStatus.invalid diagnostic = "certificate chain invalid at genTime" ∷ []
path_reasons PathStatus.incomplete diagnostic =
    concat (
      "certificate chain incomplete: an issuer certificate is missing from the token "
      ∷ "-- supply it with --tsa-intermediates" ∷ [])
    ∷ []
path_reasons PathStatus.indeterminate diagnostic =
    with_detail "certificate chain could not be evaluated (nothing was refuted): "
      "certificate chain could not be evaluated (nothing was refuted)" diagnostic
    ∷ []
path_reasons PathStatus.complete diagnostic = []

assumed_reason : String → SelfSignature → String
assumed_reason fingerprint SelfSignature.verified = concat (
    "chain terminates in a certificate no trust store names (sha256:" ∷ fingerprint
    ∷ ") -- supply it with --tsa-trust-store" ∷ [])
assumed_reason fingerprint SelfSignature.unverifiable = concat (
    "chain terminates in a self-issued certificate (sha256:" ∷ fingerprint
    ∷ ") whose own signature this verifier cannot check; nothing is refuted -- name it with "
    ∷ "--tsa-trust-store if you trust it from an external source" ∷ [])

terminal_reasons : (List ℕ → String) → Option TerminalAnchor → List String
terminal_reasons hex_encode (some (TerminalAnchor.assumed fingerprint self_signature)) =
    assumed_reason (hex_encode fingerprint) self_signature ∷ []
terminal_reasons hex_encode _ = []

joined_reasons : List String → String
joined_reasons [] = "verification did not reach aggregate success"
joined_reasons (r ∷ rs) = join "; " (r ∷ rs)

show_all : List ℕ → String
show_all heights = join ", " (map show heights)

-- `bitcoin_details`: a block height and a computed root only from a decoded OTS proof.
bitcoin_details : String → ℕ → String → AnchorEvidence → BitcoinDetails
bitcoin_details target_hash receipt_block_height receipt_block_time evidence =
    let bare : BitcoinDetails = record {
      proof_block_height = none;
      proof_block_heights = [];
      receipt_block_height = receipt_block_height;
      receipt_block_time = receipt_block_time;
      claimed_time_check = ClaimedTimeCheck.not_compared;
      block_timestamp_secs = none;
      target_hash = target_hash;
      operation_count = none;
      computed_root = none;
      block_merkle_root = none;
      merkle_match = none;
      block_sources = [];
    } in
    elim evidence [
      | AnchorEvidence.bitcoin_ots ots ↦ record bare {
        proof_block_height = Option.map (λ a. a.block_height) ots.attestation;
        proof_block_heights = ots.attested_block_heights;
        operation_count = Option.map (λ a. length a.merkle_path) ots.attestation;
        computed_root = ots.computed_block_merkle_root;
      }
      | _ ↦ bare
    ]

rfc3161_details : AnchorEvidence → AnchorDetails
rfc3161_details (AnchorEvidence.rfc3161 f) = AnchorDetails.rfc3161 (record {
  message_imprint = f.message_imprint;
  cms_signature = f.cms_signature;
  chain_valid_at_gen_time = f.chain_valid_at_gen_time;
  chain_diagnostic = f.chain_diagnostic;
  timestamping_eku_ok = f.timestamping_eku_ok;
  timestamping_eku = f.timestamping_eku;
  path_status = f.path_status;
  terminal_anchor = f.terminal_anchor;
  revocation = f.revocation;
})
rfc3161_details _ = AnchorDetails.unknown

module _ (r : Rendering) where
  open r use {debug, eku_reason, hex_encode}

  pub summarize_rfc3161 : Rfc3161AnchorFacts → String
  summarize_rfc3161 f = joined_reasons (
      imprint_reasons f.message_imprint
      ++ (signature_reasons f.cms_signature f.diagnostic
          ++ (eku_reasons (eku_reason f.timestamping_eku)
              ++ (path_reasons f.path_status f.chain_diagnostic
                  ++ terminal_reasons hex_encode f.terminal_anchor))))

  pub describe_finding : VerificationError → String
  describe_finding (VerificationError.anchor_target_invalid expected actual) =
      concat ("Invalid target '" ∷ actual ∷ "', expected '" ∷ expected ∷ "'" ∷ [])
  describe_finding (VerificationError.anchor_target_hash_mismatch kind) =
      if str_eq kind "bitcoin_ots"
      then "target_hash does not match super_root"
      else "target_hash does not match proof.root_hash"
  describe_finding (VerificationError.invalid_hash field message) =
      if str_eq field "anchor.target_hash"
      then message
      else concat ("invalid " ∷ field ∷ ": " ∷ message ∷ [])
  describe_finding VerificationError.missing_super_proof = "Receipt has no super_proof"
  describe_finding (VerificationError.anchor_payload_undecodable kind reason) =
      if str_eq kind "bitcoin_ots"
      then concat ("OTS verification failed: " ∷ reason ∷ [])
      else reason
  describe_finding (VerificationError.anchor_type_unsupported kind required_feature) = concat (
      "this build cannot verify " ∷ kind ∷ " anchors: it was compiled without the "
      ∷ required_feature ∷ " feature -- nothing about the anchor was examined" ∷ [])
  describe_finding (VerificationError.bitcoin_height_contradicts_proof claimed attested) = concat (
      "the receipt states bitcoin_block_height "
      ∷ show claimed
      ∷ ", but its own OTS proof attests to no such block (attested: ["
      ∷ show_all attested
      ∷ "])"
      ∷ [])
  describe_finding VerificationError.bitcoin_block_not_obtained = concat (
      "Bitcoin block not fetched: the OTS proof's merkle root was not compared against any "
      ∷ "block header, and neither was the block time the receipt states (re-run with network "
      ∷ "access)" ∷ [])
  describe_finding finding = debug finding

  unfoldable pub error_for_facts : AnchorFacts → Option String
  error_for_facts facts = if facts.is_verified then none else elim facts.evidence [
    | AnchorEvidence.rfc3161 rfc ↦ some (summarize_rfc3161 rfc)
    | _ ↦ Option.map describe_finding (or_else (head? facts.refutations) (head? facts.inabilities))
  ]

  -- The details and the time that a result reports, by the kind of anchor.
  details_from_facts : ReceiptAnchor → AnchorFacts → AnchorDetails × Option ℕ
  details_from_facts (ReceiptAnchor.rfc3161 _ _) facts =
      (rfc3161_details facts.evidence, facts.claimed_timestamp)
  details_from_facts (ReceiptAnchor.bitcoin_ots _ target_hash height time) facts =
      (AnchorDetails.bitcoin (bitcoin_details target_hash height time facts.evidence), none)

  unfoldable pub result_from_facts : ReceiptAnchor → AnchorFacts → AnchorVerificationResult
  unfolding details_from_facts error_for_facts rfc3161_details bitcoin_details
  result_from_facts anchor facts =
      let (details, timestamp_nanos) = details_from_facts anchor facts in
      record {
        anchor_type = anchor_type anchor;
        verdict = verdict_from_facts facts;
        timestamp_nanos = timestamp_nanos;
        error = error_for_facts facts;
        details = details;
      }

  -- `zip` stops at the shorter of the two.
  project : List ReceiptAnchor → List AnchorFacts → List AnchorVerificationResult
  project (a ∷ anchors) (f ∷ facts) = result_from_facts a f ∷ project anchors facts
  project _ _ = []

  unfoldable pub offline_results : Receipt → List AnchorFacts → List AnchorVerificationResult
  unfolding project
  offline_results receipt facts = project receipt.anchors facts
