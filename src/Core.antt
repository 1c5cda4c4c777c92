-- ===== src/Core.antt =====
-- What the program uses of the crate `atl-core`: the finding types as src/verify/single.rs,
-- src/verify/anchor.rs and src/error.rs match them, constructor by constructor, and its opaque
-- structures as the records of what their accessors return. The crate's functions are arguments of
-- the definitions that call them.
use atl_cli.Prelude.{ℕ, String, Bool, true, Option, List, [], ◌≡◌, ◌≢◌, ◌↔◌, Result}

pub data MessageImprint : Type 0 where
  verified mismatch malformed indeterminate : MessageImprint

pub data CmsSignature : Type 0 where
  verified refuted indeterminate : CmsSignature

pub data TimestampingEku : Type 0 where
  fine absent malformed not_critical not_exclusive not_checked : TimestampingEku

pub data PathStatus : Type 0 where
  complete incomplete indeterminate invalid : PathStatus

pub data SelfSignature : Type 0 where
  verified unverifiable : SelfSignature

-- The fingerprint is the certificate's SHA-256, as bytes.
pub data TerminalAnchor : Type 0 where
  trusted : (sha256_fingerprint : List ℕ) → TerminalAnchor
  assumed : (sha256_fingerprint : List ℕ) → SelfSignature → TerminalAnchor

-- `VerificationError`: every arm of the exhaustive matches in `classify_core_error`,
-- `reason_for_finding` and `From<CoreVerificationError>`, with the fields that some arm reads.
pub data VerificationError : Type 0 where
  invalid_receipt : (msg : String) → VerificationError
  invalid_hash : (field message : String) → VerificationError
  signature_failed : VerificationError
  inclusion_proof_failed : (reason : String) → VerificationError
  consistency_proof_failed : (reason : String) → VerificationError
  root_hash_mismatch : VerificationError
  tree_size_mismatch : VerificationError
  super_inclusion_failed : (reason : String) → VerificationError
  super_consistency_failed : (reason : String) → VerificationError
  super_data_mismatch : (field expected actual : String) → VerificationError
  missing_super_proof : VerificationError
  unsupported_version : (version : String) → VerificationError
  metadata_hash_mismatch : (expected actual : String) → VerificationError
  metadata_not_canonicalizable : (path reason : String) → VerificationError
  source_text_not_checked : VerificationError
  no_trust_anchor : VerificationError
  anchor_finding :
      (index : ℕ) (anchor_type : String) (finding : VerificationError) → VerificationError
  anchor_target_invalid : (expected actual : String) → VerificationError
  anchor_target_hash_mismatch : (anchor_type : String) → VerificationError
  anchor_payload_undecodable : (anchor_type reason : String) → VerificationError
  anchor_type_unsupported : (anchor_type required_feature : String) → VerificationError
  bitcoin_height_contradicts_proof : (claimed : ℕ) (attested : List ℕ) → VerificationError
  bitcoin_block_not_obtained : VerificationError
  rfc3161_message_imprint : MessageImprint → VerificationError
  rfc3161_cms_signature : CmsSignature → VerificationError
  rfc3161_timestamping_eku : TimestampingEku → VerificationError
  rfc3161_certificate_path : PathStatus → (valid_at_gen_time : Bool) → VerificationError
  rfc3161_terminal_not_trusted : (terminal : Option TerminalAnchor) → VerificationError

pub record Rfc3161AnchorFacts : Type 0 where
  pub message_imprint : MessageImprint
  pub cms_signature : CmsSignature
  pub diagnostic : Option String
  pub chain_valid_at_gen_time : Bool
  pub chain_diagnostic : Option String
  pub timestamping_eku_ok : Bool
  pub timestamping_eku : TimestampingEku
  pub path_status : PathStatus
  pub terminal_anchor : Option TerminalAnchor
  pub revocation : String

-- `merkle_path` is read for its length alone, and by `verify_against_block`.
pub record BitcoinAttestation : Type 0 where
  pub block_height : ℕ
  pub merkle_path : List String

pub record BitcoinOtsFacts : Type 0 where
  pub attestation : Option BitcoinAttestation
  pub attested_block_heights : List ℕ
  pub computed_block_merkle_root : Option String
  pub receipt_block_height : ℕ
  pub receipt_block_time : String

-- `other` stands for every evidence that neither pattern of the source matches.
pub data AnchorEvidence : Type 0 where
  rfc3161 : Rfc3161AnchorFacts → AnchorEvidence
  bitcoin_ots : BitcoinOtsFacts → AnchorEvidence
  other : AnchorEvidence

-- The accessors of `AnchorFacts`, each list in the order of its iterator.
pub record AnchorFacts : Type 0 where
  pub refutations : List VerificationError
  pub inabilities : List VerificationError
  pub is_verified : Bool
  pub is_refuted : Bool
  pub evidence : AnchorEvidence
  pub claimed_timestamp : Option ℕ

-- What the crate documents of these accessors: the three outcomes partition the fact sets, and a
-- refutation outranks every inability.
pub record IsCoherent (f : AnchorFacts) : Type 0 where
  pub refuted_iff : (f.is_refuted ≡ true) ↔ (f.refutations ≢ [])
  pub verified_iff : (f.is_verified ≡ true) ↔ ((f.refutations ≡ []) × (f.inabilities ≡ []))

-- The two kinds of anchor, with `anchor_type()` and the fields that the source reads.
pub data ReceiptAnchor : Type 0 where
  rfc3161 : (anchor_type target_hash : String) → ReceiptAnchor
  bitcoin_ots :
      (anchor_type target_hash : String) (bitcoin_block_height : ℕ) (bitcoin_block_time : String)
      → ReceiptAnchor

abbrev pub anchor_type : ReceiptAnchor → String
anchor_type (ReceiptAnchor.rfc3161 t _) = t
anchor_type (ReceiptAnchor.bitcoin_ots t _ _ _) = t

abbrev pub target_hash : ReceiptAnchor → String
target_hash (ReceiptAnchor.rfc3161 _ h) = h
target_hash (ReceiptAnchor.bitcoin_ots _ h _ _) = h

pub record SuperProof : Type 0 where
  pub genesis_super_root : String
  pub super_tree_size : ℕ
  pub data_tree_index : ℕ
  pub super_root : String

-- The accessors of `Receipt` that verification and its output read; `entry_id` is `entry().id` as text.
pub record Receipt : Type 0 where
  pub entry_id : String
  pub payload_hash : String
  pub has_super_proof : Bool
  pub super_proof : Option SuperProof
  pub anchors : List ReceiptAnchor

-- The fields of `VerificationResult` that the source reads, and its `receipt_errors()`.
pub record VerificationResult : Type 0 where
  pub inclusion_valid : Bool
  pub super_inclusion_valid : Bool
  pub super_consistency_valid : Bool
  pub receipt_errors : List VerificationError

-- What `verify_cross_receipts` returns: `is_valid()`, one of its fields, and the `Debug` of each error.
pub record CrossReceiptVerificationResult : Type 0 where
  pub is_valid : Bool
  pub history_consistent : Bool
  pub errors : List String

-- `AtlError`, in the cases that the source tells apart; any other is kept by its message.
pub data AtlError : Type 0 where
  unsupported_receipt_version : (version : String) → AtlError
  jcs_input_constraint : (path reason : String) → AtlError
  invalid_receipt_error : (message : String) → AtlError
  other_error : (message : String) → AtlError

-- The functions of atl-core that the verification of a receipt calls, and the crate's trust store.
pub record AtlCore : Type 1 where
  pub Certificate : Type 0
  pub TrustStore : Type 0
  pub new_store : TrustStore
  pub with_anchor_certificate : TrustStore → Certificate → TrustStore
  pub with_intermediate_certificate : TrustStore → Certificate → TrustStore
  pub receipt_spec_version : String
  pub from_json : String → Result AtlError Receipt
  pub verify_receipt : Receipt → Result String VerificationResult
  pub establish_anchor_facts : Receipt → Option TrustStore → List AnchorFacts
