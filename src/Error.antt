-- ===== src/Error.antt =====
-- src/error.rs: the errors of the program and the exit code of each.
pub mod Conversion
use atl_cli.Prelude.{ℕ, String, Bool, ◌≢◌, arith}
use atl_cli.Verify.Verdict.{ExitCode, Status, exit_code}

-- The wrapped errors of other libraries are kept by their message.
pub data CliError : Type 0 where
  source_not_found : (path : String) → CliError
  receipt_not_found : (path : String) → CliError
  mismatched_input_types : (source_is_dir receipt_is_dir : Bool) → CliError
  file_read_error : (path message : String) → CliError
  file_too_large : (path : String) (size_bytes max_bytes : ℕ) → CliError
  receipt_parse_error : (message : String) → CliError
  invalid_receipt_format : (message : String) → CliError
  unsupported_receipt_version : (version expected : String) → CliError
  file_hash_mismatch : (file_path computed_hash expected_hash : String) → CliError
  metadata_hash_mismatch : (expected actual : String) → CliError
  inclusion_proof_failed : (reason : String) → CliError
  signature_verification_failed : CliError
  super_inclusion_failed : (reason : String) → CliError
  super_consistency_failed : (reason : String) → CliError
  verification_failed : (message : String) → CliError
  trust_not_established : (headline reason_code detail : String) → CliError
  batch_items_unprocessable : (errors total : ℕ) → CliError
  no_receipt_for_file : (path : String) → CliError
  no_file_for_receipt : (path : String) → CliError
  empty_source_directory : (path : String) → CliError
  empty_receipt_directory : (path : String) → CliError
  batch_verification_failed : (valid_count invalid_count error_count : ℕ) → CliError
  consistency_proof_failed : (reason : String) → CliError
  no_internet_connection : CliError
  network_error : (message : String) → CliError
  tsa_verification_failed : (message : String) → CliError
  ots_verification_failed : (message : String) → CliError
  trust_store_error : (message : String) → CliError
  no_trust_anchor : CliError
  io json hex_decode : (message : String) → CliError

-- `CliError::exit_code`.
unfoldable pub error_exit_code : CliError → ExitCode
unfolding exit_code
error_exit_code (CliError.file_hash_mismatch _ _ _) = ExitCode.invalid
error_exit_code (CliError.metadata_hash_mismatch _ _) = ExitCode.invalid
error_exit_code (CliError.inclusion_proof_failed _) = ExitCode.invalid
error_exit_code CliError.signature_verification_failed = ExitCode.invalid
error_exit_code (CliError.super_inclusion_failed _) = ExitCode.invalid
error_exit_code (CliError.super_consistency_failed _) = ExitCode.invalid
error_exit_code (CliError.verification_failed _) = ExitCode.invalid
error_exit_code (CliError.batch_verification_failed _ _ _) = ExitCode.invalid
error_exit_code (CliError.consistency_proof_failed _) = ExitCode.invalid
error_exit_code (CliError.tsa_verification_failed _) = ExitCode.invalid
error_exit_code (CliError.ots_verification_failed _) = ExitCode.invalid
error_exit_code CliError.no_trust_anchor = ExitCode.invalid
error_exit_code (CliError.trust_not_established _ _ _) = exit_code Status.untrusted
error_exit_code (CliError.source_not_found _) = ExitCode.error
error_exit_code (CliError.receipt_not_found _) = ExitCode.error
error_exit_code (CliError.mismatched_input_types _ _) = ExitCode.error
error_exit_code (CliError.file_read_error _ _) = ExitCode.error
error_exit_code (CliError.file_too_large _ _ _) = ExitCode.error
error_exit_code (CliError.receipt_parse_error _) = ExitCode.error
error_exit_code (CliError.invalid_receipt_format _) = ExitCode.error
error_exit_code (CliError.unsupported_receipt_version _ _) = ExitCode.error
error_exit_code (CliError.no_receipt_for_file _) = ExitCode.error
error_exit_code (CliError.no_file_for_receipt _) = ExitCode.error
error_exit_code (CliError.empty_source_directory _) = ExitCode.error
error_exit_code (CliError.empty_receipt_directory _) = ExitCode.error
error_exit_code (CliError.batch_items_unprocessable _ _) = ExitCode.error
error_exit_code CliError.no_internet_connection = ExitCode.error
error_exit_code (CliError.network_error _) = ExitCode.error
error_exit_code (CliError.trust_store_error _) = ExitCode.error
error_exit_code (CliError.io _) = ExitCode.error
error_exit_code (CliError.json _) = ExitCode.error
error_exit_code (CliError.hex_decode _) = ExitCode.error

-- No error ends the process with the exit code of success.
pub error_exit_code-failure : (e : CliError) → error_exit_code e ≢ ExitCode.valid
unfolding error_exit_code exit_code
error_exit_code-failure e = ground arith
