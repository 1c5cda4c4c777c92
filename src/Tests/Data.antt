-- ===== src/Tests/Data.antt =====
-- Concrete data: a hexadecimal decoder, anchors, receipts and block headers.
use atl_cli.Prelude.{
  ℕ, ◌*◌, String, str_eq, Bool, true, false, ◌&&◌, Option, none, some, List, [], ◌∷◌, ◌≡◌, ◌↔◌,
  arith, length, if◌then◌else◌, ◌==◌, ok, err,
}
use atl_cli.Core.{
  VerificationError, BitcoinAttestation, AnchorEvidence, AnchorFacts, IsCoherent, ReceiptAnchor,
  Receipt,
}
use atl_cli.Cli.{VerifyArgs, Host}
use atl_cli.Verify.Verdict.{ReasonCode}
use atl_cli.Verify.Anchor.{
  AnchorVerdict, AnchorDetails, AnchorVerificationResult, BlockSourceReport, PreparedOts,
}
use atl_cli.Verify.Anchor.Prose.{Rendering}
use atl_cli.Verify.Anchor.Sources.{HexBytes}
use atl_cli.Verify.Policy.{AnchorPolicy}
use atl_cli.Verify.Single.{SingleVerificationResult}
use atl_cli.Verify.Online.{Services, Session}
use atl_cli.Verify.Consistency.{CrossServices}
use atl_cli.Net.Bitcoin.{BitcoinBlockInfo, BlockReport, BlockLookup}
use atl_cli.Net.Bitcoin.Cache.{Moment}
use atl_cli.Commands.Single.{Network}

abbrev pub same_list : List ℕ → List ℕ → Bool
same_list [] [] = true
same_list [] (y ∷ ys) = false
same_list (x ∷ xs) [] = false
same_list (x ∷ xs) (y ∷ ys) = (x == y) && same_list xs ys

pub same_list_iff : (xs ys : List ℕ) → length xs ≡ length ys → (same_list xs ys ≡ true) ↔ (xs ≡ ys)
same_list_iff [] [] h = ground arith
same_list_iff [] (y ∷ ys) h = ground arith
same_list_iff (x ∷ xs) [] h = ground arith
same_list_iff (x ∷ xs) (y ∷ ys) h = ground (arith, same_list_iff xs ys)

-- A decoder of two words, in either case.
abbrev pub decode_word : String → Option (List ℕ)
decode_word s =
    if str_eq s "ab"
    then some (171 ∷ [])
    else if str_eq s "AB"
    then some (171 ∷ [])
    else if str_eq s "cd"
    then some (205 ∷ [])
    else none

abbrev pub words : HexBytes
words = record { decode = decode_word; ct_eq = same_list; ct_eq_iff = same_list_iff }

abbrev pub services : Services
services = record {
  parse_iso8601_to_nanos =
      λ s. if str_eq s "2023-11-14" then some (1_700_000_000 * 1_000_000_000) else none;
  verify_against_block = λ attestation root. str_eq root "cd";
  render_date = λ secs. some "a date";
  quote = λ s. s;
}

abbrev pub render : Rendering
render = record { debug = λ e. "finding"; eku_reason = λ e. none; hex_encode = λ bytes. "ab" }

abbrev pub header : BitcoinBlockInfo
header = record {
  height = 800_000;
  timestamp_secs = 1_700_000_000;
  block_hash = "ab";
  merkle_root = "cd";
}

abbrev pub first_source : BlockSourceReport
first_source = record {
  source = "one";
  block_hash = "ab";
  merkle_root = "cd";
  block_timestamp_secs = 1_700_000_000;
}

abbrev pub second_source : BlockSourceReport
second_source = record {
  source = "two";
  block_hash = "AB";
  merkle_root = "cd";
  block_timestamp_secs = 1_700_000_000;
}

abbrev pub first_report : BlockReport
first_report = record { source = "one"; info = header }

abbrev pub second_report : BlockReport
second_report = record { source = "two"; info = record header { block_hash = "AB" } }

abbrev pub reports : List BlockReport
reports = first_report ∷ second_report ∷ []

abbrev pub confirmed : BlockLookup
confirmed = BlockLookup.corroborated header (first_source ∷ second_source ∷ [])

abbrev pub attestation : BitcoinAttestation
attestation = record { block_height = 800_000; merkle_path = "op" ∷ [] }

abbrev pub prepared : PreparedOts
prepared = record {
  attestation = attestation;
  computed_root = "cd";
  operation_count = 1;
  attested_block_heights = 800_000 ∷ [];
  receipt_block_height = 800_000;
  receipt_block_time = "2023-11-14";
}

-- The facts of a Bitcoin anchor that only a block header can settle.
abbrev pub pending_facts : AnchorFacts
pending_facts = record {
  refutations = [];
  inabilities = VerificationError.bitcoin_block_not_obtained ∷ [];
  is_verified = false;
  is_refuted = false;
  evidence = AnchorEvidence.bitcoin_ots (record {
    attestation = some attestation;
    attested_block_heights = 800_000 ∷ [];
    computed_block_merkle_root = some "cd";
    receipt_block_height = 800_000;
    receipt_block_time = "2023-11-14";
  });
  claimed_timestamp = none;
}

pub pending_facts-IsCoherent : IsCoherent pending_facts
pending_facts-IsCoherent = record { refuted_iff = ground arith; verified_iff = ground arith }

-- The facts of an anchor that was refuted offline.
abbrev pub refuted_facts : AnchorFacts
refuted_facts = record pending_facts {
  refutations = VerificationError.anchor_target_hash_mismatch "bitcoin_ots" ∷ [];
  is_refuted = true;
}

abbrev pub verified_anchor : AnchorVerificationResult
verified_anchor = record {
  anchor_type = "rfc3161";
  verdict = AnchorVerdict.valid;
  timestamp_nanos = some 1;
  error = none;
  details = AnchorDetails.unknown;
}

abbrev pub refuted_anchor : AnchorVerificationResult
refuted_anchor = record verified_anchor {
  verdict = AnchorVerdict.invalid ReasonCode.tsa_imprint_mismatch;
  timestamp_nanos = none;
  error = some "no match";
}

abbrev pub pending_anchor : AnchorVerificationResult
pending_anchor = record verified_anchor {
  anchor_type = "bitcoin_ots";
  verdict = AnchorVerdict.untrusted ReasonCode.bitcoin_block_not_checked;
  timestamp_nanos = none;
  error = some "no header";
}

abbrev pub receipt : Receipt
receipt = record {
  entry_id = "e";
  payload_hash = "sha256:ab";
  has_super_proof = true;
  super_proof = some (record {
    genesis_super_root = "sha256:ab";
    super_tree_size = 3;
    data_tree_index = 0;
    super_root = "sha256:ab";
  });
  anchors = ReceiptAnchor.bitcoin_ots "bitcoin_ots" "sha256:cd" 800_000 "2023-11-14" ∷ [];
}

-- A receipt whose one anchor is verified.
abbrev pub anchored : SingleVerificationResult
anchored = record {
  source_path = "a";
  receipt_path = "a.atl";
  file_hash = 171 ∷ [];
  receipt = receipt;
  file_hash_valid = true;
  core_result = record {
    inclusion_valid = true;
    super_inclusion_valid = true;
    super_consistency_valid = true;
    receipt_errors = [];
  };
  anchor_results = verified_anchor ∷ [];
  anchor_facts = [];
  policy = AnchorPolicy.all_anchors;
}

-- The same receipt, presented with a later state of the log.
abbrev pub later : SingleVerificationResult
later = record anchored {
  source_path = "b";
  receipt = record receipt {
    super_proof = some (record {
      genesis_super_root = "sha256:ab";
      super_tree_size = 8;
      data_tree_index = 0;
      super_root = "sha256:ab";
    });
  };
}

-- A receipt whose one anchor waits for a block header.
abbrev pub waiting : SingleVerificationResult
waiting = record anchored {
  anchor_results = pending_anchor ∷ [];
  anchor_facts = pending_facts ∷ [];
}

-- A receipt for another file.
abbrev pub wrong_file : SingleVerificationResult
wrong_file = record anchored { file_hash_valid = false }

-- One minute after the header of the cache was fetched, with no client to fetch another.
abbrev pub moment : Moment
moment = record {
  readable = true;
  writable = true;
  read_at = 60_000_000_000;
  written_at = 60_000_000_000;
  client = err "no client";
  wall_clock = λ provider. some 1_800_000_000;
}

abbrev pub session : Session
session = record {
  lookups = 0;
  cache = (800_000, record { fetched_at = 0; lookup = confirmed }) ∷ [];
}

abbrev pub args : VerifyArgs
args = record {
  source = "a";
  receipt = "a.atl";
  offline = false;
  online = false;
  verbose = false;
  allow_single_anchor = false;
  tsa_trust_store = none;
  tsa_intermediates = none;
}

abbrev pub host : Host
host = record { online_feature = true; has_internet = true }

abbrev pub net : Network
net = record {
  hex_bytes = words;
  services = services;
  moments = λ n. moment;
  session = session;
  build_runtime = ok tt;
}

abbrev pub cross : CrossServices
cross = record {
  verify_cross_receipts = λ a b. record { is_valid = true; history_consistent = true; errors = [] };
  last_component = λ path. some path;
  before = λ a b. false;
  decode = decode_word;
}
