-- ===== src/Error/Conversion.antt =====
-- src/error.rs: the conversions from the errors of atl-core.
use atl_cli.Prelude.{Bool, true, false, String, [], ◌∷◌, ◌≡◌, ◌⊎◌, arith, concat, show}
use atl_cli.Core.{VerificationError}
use atl_cli.Verify.Verdict.{ExitCode}
use atl_cli.Error.{CliError, error_exit_code}

module _ (debug : VerificationError → String) where
  -- `From<CoreVerificationError>`, by the `Debug` of a finding.
  unfoldable pub from_core : VerificationError → CliError
  from_core (VerificationError.invalid_receipt msg) = CliError.invalid_receipt_format msg
  from_core (VerificationError.invalid_hash field message) =
      CliError.invalid_receipt_format (concat ("Invalid hash in " ∷ field ∷ ": " ∷ message ∷ []))
  from_core VerificationError.signature_failed = CliError.signature_verification_failed
  from_core (VerificationError.inclusion_proof_failed reason) =
      CliError.inclusion_proof_failed reason
  from_core (VerificationError.consistency_proof_failed reason) =
      CliError.consistency_proof_failed reason
  from_core VerificationError.root_hash_mismatch = CliError.verification_failed "Root hash mismatch"
  from_core VerificationError.tree_size_mismatch = CliError.verification_failed "Tree size mismatch"
  from_core (VerificationError.super_inclusion_failed reason) =
      CliError.super_inclusion_failed reason
  from_core (VerificationError.super_consistency_failed reason) =
      CliError.super_consistency_failed reason
  from_core (VerificationError.super_data_mismatch field expected actual) =
      CliError.verification_failed (
        concat (
          "Super-Tree data mismatch in " ∷ field ∷ ": expected " ∷ expected ∷ ", got " ∷ actual
          ∷ []))
  from_core VerificationError.missing_super_proof =
      CliError.invalid_receipt_format "Missing super_proof (required in v2.0)"
  from_core (VerificationError.unsupported_version version) =
      CliError.unsupported_receipt_version version "2.0.0"
  from_core (VerificationError.metadata_hash_mismatch expected actual) =
      CliError.metadata_hash_mismatch expected actual
  from_core VerificationError.no_trust_anchor = CliError.no_trust_anchor
  from_core (VerificationError.metadata_not_canonicalizable path reason) =
      CliError.verification_failed (
        concat (
          "metadata at " ∷ path ∷ " has no RFC 8785 canonical form, so metadata_hash was "
          ∷ "never computed and never compared: " ∷ reason ∷ []))
  from_core VerificationError.source_text_not_checked =
      CliError.verification_failed
        "the receipt's bytes were never checked for duplicate property names"
  from_core (VerificationError.anchor_finding index anchor_type finding) =
      CliError.verification_failed
        (concat ("anchor " ∷ show index ∷ " (" ∷ anchor_type ∷ "): " ∷ debug finding ∷ []))
  from_core other = CliError.verification_failed (concat ("anchor finding: " ∷ debug other ∷ []))

  -- A converted error ends the process as a refutation, or says that the receipt could not be read.
  pub from_core-exit_code :
      (e : VerificationError)
      → (error_exit_code (from_core e) ≡ ExitCode.invalid)
        ⊎ (error_exit_code (from_core e) ≡ ExitCode.error)
  unfolding from_core error_exit_code
  from_core-exit_code e = ground arith

unfoldable pub is_verification_failure : CliError → Bool
unfolding error_exit_code
is_verification_failure e = elim (error_exit_code e) [ ExitCode.invalid ↦ true | _ ↦ false ]

unfoldable pub is_runtime_error : CliError → Bool
unfolding error_exit_code
is_runtime_error e = elim (error_exit_code e) [ ExitCode.error ↦ true | _ ↦ false ]
