-- ===== src/Verify/Single/Load.antt =====
-- src/verify/single.rs: loading a receipt, and verifying one file against it.
use atl_cli.Prelude.{
  String, Option, [], ◌∷◌, concat, ltb, if◌then◌else◌, Result, ok, err, map_err, ◌>>=◌, ◌>>◌,
}
use atl_cli.Core.{AtlError, AtlCore, Receipt}
use atl_cli.Error.{CliError}
use atl_cli.Files.{Files}
use atl_cli.Verify.Anchor.Prose.{Rendering, offline_results}
use atl_cli.Verify.File.{Sha256, max_receipt_size, reading, hash_file, compare_hash}
use atl_cli.Verify.Policy.{AnchorPolicy}
use atl_cli.Verify.Single.{SingleVerificationResult}

-- The closure that maps an error of `Receipt::from_json`.
parse_error : AtlCore → AtlError → CliError
parse_error core (AtlError.unsupported_receipt_version version) =
    CliError.unsupported_receipt_version version core.receipt_spec_version
parse_error core (AtlError.jcs_input_constraint path reason) =
    CliError.invalid_receipt_format
      (concat ("duplicate property name at " ∷ path ∷ ": " ∷ reason ∷ " (RFC 8785 §3.1)" ∷ []))
parse_error core (AtlError.invalid_receipt_error message) = CliError.receipt_parse_error message
parse_error core (AtlError.other_error message) = CliError.receipt_parse_error message

module _ (core : AtlCore) (fs : Files) where
  unfoldable pub load_receipt : String → Result CliError Receipt
  unfolding parse_error
  load_receipt path = do
    found ← reading path (fs.try_exists path)
    (if found then ok tt else err (CliError.receipt_not_found path))
    size ← reading path (fs.metadata_len path)
    (if ltb max_receipt_size size
        then err (CliError.file_too_large path size max_receipt_size)
        else ok tt)
    contents ← reading path (fs.read_to_string path)
    map_err (parse_error core) (core.from_json contents)

  unfoldable pub verify_single :
      Sha256
      → Rendering
      → (source_path receipt_path : String) → Option core.TrustStore
      → AnchorPolicy
      → Result CliError SingleVerificationResult
  unfolding load_receipt
  verify_single sha render source_path receipt_path trust_store policy = do
    receipt ← load_receipt receipt_path
    file_hash ← hash_file fs sha source_path
    let file_hash_valid = compare_hash sha file_hash receipt.payload_hash
    core_result ← map_err CliError.verification_failed (core.verify_receipt receipt)
    let anchor_facts = core.establish_anchor_facts receipt trust_store
    let anchor_results = offline_results render receipt anchor_facts
    ok (record {
      source_path = source_path;
      receipt_path = receipt_path;
      file_hash = file_hash;
      receipt = receipt;
      file_hash_valid = file_hash_valid;
      core_result = core_result;
      anchor_results = anchor_results;
      anchor_facts = anchor_facts;
      policy = policy;
    })
