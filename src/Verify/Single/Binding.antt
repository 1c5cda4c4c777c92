-- ===== src/Verify/Single/Binding.antt =====
-- What a verification result of src/verify/single.rs says of the two files that it was made from.
use atl_cli.Prelude.{
  ℕ, ◌≤◌, String, eq_iff, true, Option, ◌≡◌, ◌↔◌, refl, arith, ltb, if◌then◌else◌, ok, err, map_err,
  Ensures, Ensures-bind, Ensures-ok, Ensures-map_err, map_err-ok,
}
use atl_cli.Core.{AtlCore, Receipt}
use atl_cli.Error.{CliError}
use atl_cli.Files.{Files}
use atl_cli.Verify.Verdict.{Status}
use atl_cli.Verify.Anchor.Prose.{Rendering, offline_results}
use atl_cli.Verify.File.{Sha256, max_receipt_size, reading, hash_file, format_hash, compare_hash}
use atl_cli.Verify.File.Laws.{IsStreaming, digest, hash_file-digest, reading-ok}
use atl_cli.Verify.Policy.{AnchorPolicy}
use atl_cli.Verify.Single.{SingleVerificationResult, verdict, receipt_refutation}
use atl_cli.Verify.Single.Load.{load_receipt, verify_single}
use atl_cli.Verify.Single.Verdicts.{verdict-valid_iff}

module _ (core : AtlCore) (fs : Files) where
  -- A receipt read from a path: the file is not over the limit, and its text is the receipt's.
  pub record IsLoaded (path : String) (receipt : Receipt) : Type 0 where
    pub size : ℕ
    pub measured : fs.metadata_len path ≡ ok size
    pub within : size ≤ max_receipt_size
    pub text : String
    pub text_read : fs.read_to_string path ≡ ok text
    pub parsed : core.from_json text ≡ ok receipt

  load_receipt-Ensures : (path : String) → Ensures (IsLoaded path) (load_receipt core fs path)
  unfolding load_receipt
  load_receipt-Ensures path =
      let loaded = IsLoaded path in
      Ensures-bind loaded (reading path (fs.try_exists path)) _ λ found _.
        Ensures-bind loaded (if found then ok tt else err (CliError.receipt_not_found path)) _
          λ _ _. Ensures-bind loaded (reading path (fs.metadata_len path)) _ λ size measured.
            Ensures-bind loaded
              (if ltb max_receipt_size size
                then err (CliError.file_too_large path size max_receipt_size)
                else ok tt)
              _
              λ _ small.
                Ensures-bind loaded (reading path (fs.read_to_string path)) _ λ text text_read.
                  Ensures-map_err loaded _ (core.from_json text) λ receipt parsed. record {
                    size = size;
                    measured = reading-ok path _ measured;
                    within = ground arith;
                    text = text;
                    text_read = reading-ok path _ text_read;
                    parsed = parsed;
                  }

  -- Loading a receipt succeeds only on a file of at most 10 MB, whose text atl-core parses to it.
  pub load_receipt-IsLoaded :
      (path : String) (receipt : Receipt)
      → load_receipt core fs path ≡ ok receipt
      → IsLoaded path receipt
  load_receipt-IsLoaded path receipt h = Ensures-ok (IsLoaded path) (load_receipt-Ensures path) h

module _ (core : AtlCore) (fs : Files) (sha : Sha256) (render : Rendering)
    (source_path receipt_path : String) (trust_store : Option core.TrustStore)
    (policy : AnchorPolicy) where
  -- What a result says of the files: the receipt was loaded from its file, the hash is that of all the
  -- bytes of the source, the comparison is that of the hash with the receipt's, and the anchors are
  -- the projection of the facts that atl-core established.
  pub record IsBound (r : SingleVerificationResult) : Type 0 where
    pub loaded : IsLoaded core fs receipt_path r.receipt
    pub reader : fs.Reader
    pub opened : fs.open_file source_path ≡ ok reader
    pub hashed : r.file_hash ≡ digest sha (fs.contents reader)
    pub compared :
        (r.file_hash_valid ≡ true)
        ↔ (format_hash sha (digest sha (fs.contents reader)) ≡ r.receipt.payload_hash)
    pub checked : core.verify_receipt r.receipt ≡ ok r.core_result
    pub established : r.anchor_facts ≡ core.establish_anchor_facts r.receipt trust_store
    pub projected : r.anchor_results ≡ offline_results render r.receipt r.anchor_facts
    pub asked : r.policy ≡ policy

  module _ (streams : IsStreaming sha) where
    verify_single-Ensures :
        Ensures IsBound
          (verify_single core fs sha render source_path receipt_path trust_store policy)
    unfolding verify_single compare_hash
    verify_single-Ensures =
        Ensures-bind IsBound (load_receipt core fs receipt_path) _ λ receipt loaded.
          Ensures-bind IsBound (hash_file fs sha source_path) _ λ hash hashed.
            Ensures-bind IsBound
              (map_err CliError.verification_failed (core.verify_receipt receipt)) _
              λ result checked.
                let (reader, opened, whole) =
                  hash_file-digest fs sha streams source_path hash hashed in
                record {
                  loaded = load_receipt-IsLoaded core fs receipt_path receipt loaded;
                  reader = reader;
                  opened = opened;
                  hashed = whole;
                  compared = rw (whole) (
                      eq_iff (format_hash sha (digest sha (fs.contents reader)))
                        receipt.payload_hash);
                  checked = map_err-ok _ _ checked;
                  established = refl;
                  projected = refl;
                  asked = refl;
                }

    -- With a hash function that may be fed in pieces, a result is about the two files that were named: the receipt is that of the
    -- receipt file, and the hash that it was compared with is that of all the bytes of the source file.
    pub verify_single-IsBound :
        (r : SingleVerificationResult)
        → verify_single core fs sha render source_path receipt_path trust_store policy ≡ ok r
        → IsBound r
    verify_single-IsBound r h = Ensures-ok IsBound verify_single-Ensures h

    -- A receipt that is found valid names the hash of all the bytes of the source file.
    pub valid_receipt_names_file :
        (r : SingleVerificationResult)
        → verify_single core fs sha render source_path receipt_path trust_store policy ≡ ok r
        → (verdict r).status ≡ Status.valid
        → (reader : fs.Reader) × (fs.open_file source_path ≡ ok reader)
          × (format_hash sha (digest sha (fs.contents reader)) ≡ r.receipt.payload_hash)
    unfolding receipt_refutation
    valid_receipt_names_file r h valid =
        let bound = verify_single-IsBound r h in
        let unrefuted = ((verdict-valid_iff r).0 valid).0 in
        let same : r.file_hash_valid ≡ true = ground arith in
        (bound.reader, bound.opened, bound.compared.0 same)
