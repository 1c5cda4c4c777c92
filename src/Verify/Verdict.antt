-- ===== src/Verify/Verdict.antt =====
-- src/verify/verdict.rs: receipt status, reason codes, and the verdict that pairs them.
pub mod Codes
use atl_cli.Prelude.{String, Option, none, some, Bool, true, false}

pub data ReasonCode : Type 0 where
  file_hash_mismatch : ReasonCode
  inclusion_proof_invalid : ReasonCode
  super_inclusion_proof_invalid : ReasonCode
  super_consistency_proof_invalid : ReasonCode
  checkpoint_root_hash_mismatch : ReasonCode
  checkpoint_tree_size_mismatch : ReasonCode
  checkpoint_signature_invalid : ReasonCode
  metadata_hash_mismatch : ReasonCode
  receipt_malformed : ReasonCode
  receipt_verification_failed : ReasonCode
  anchor_target_invalid : ReasonCode
  anchor_hash_malformed : ReasonCode
  anchor_target_hash_mismatch : ReasonCode
  tsa_token_unparsable : ReasonCode
  tsa_imprint_mismatch : ReasonCode
  cms_signature_invalid : ReasonCode
  tsa_timestamping_eku_invalid : ReasonCode
  tsa_imprint_malformed : ReasonCode
  tsa_chain_invalid_at_gen_time : ReasonCode
  super_proof_missing : ReasonCode
  bitcoin_ots_proof_invalid : ReasonCode
  bitcoin_merkle_root_mismatch : ReasonCode
  bitcoin_claimed_height_contradicts_proof : ReasonCode
  bitcoin_claimed_time_contradicts_block : ReasonCode
  tsa_root_not_trusted : ReasonCode
  tsa_chain_incomplete : ReasonCode
  tsa_timestamping_eku_not_checked : ReasonCode
  tsa_imprint_indeterminate : ReasonCode
  cms_signature_indeterminate : ReasonCode
  tsa_chain_indeterminate : ReasonCode
  bitcoin_block_not_checked : ReasonCode
  bitcoin_block_unavailable : ReasonCode
  bitcoin_providers_disagree : ReasonCode
  bitcoin_single_source_only : ReasonCode
  anchor_type_unsupported : ReasonCode
  bitcoin_claimed_time_unreadable : ReasonCode
  receipt_check_incomplete : ReasonCode
  receipt_unanchored : ReasonCode
  anchor_quorum_unmet : ReasonCode
  batch_items_invalid : ReasonCode
  batch_items_errored : ReasonCode
  batch_items_untrusted : ReasonCode
  batch_items_unmatched : ReasonCode
  batch_nothing_verified : ReasonCode
  log_consistency_failed : ReasonCode

pub data Status : Type 0 where
  valid untrusted error invalid : Status

-- error.rs, `ExitCode`.
pub data ExitCode : Type 0 where
  valid invalid error untrusted : ExitCode

unfoldable pub exit_code : Status → ExitCode
exit_code Status.valid = ExitCode.valid
exit_code Status.untrusted = ExitCode.untrusted
exit_code Status.error = ExitCode.error
exit_code Status.invalid = ExitCode.invalid

pub record ReceiptVerdict : Type 0 where
  pub status : Status
  pub reason_code : Option ReasonCode

abbrev pub verdict_valid : ReceiptVerdict
verdict_valid = record { status = Status.valid; reason_code = none }

abbrev pub verdict_invalid : ReasonCode → ReceiptVerdict
verdict_invalid reason = record { status = Status.invalid; reason_code = some reason }

abbrev pub verdict_untrusted : ReasonCode → ReceiptVerdict
verdict_untrusted reason = record { status = Status.untrusted; reason_code = some reason }

abbrev pub verdict_unanchored : ReceiptVerdict
verdict_unanchored = record {
  status = Status.untrusted;
  reason_code = some ReasonCode.receipt_unanchored;
}

abbrev pub verdict_new : Status → ReasonCode → ReceiptVerdict
verdict_new status reason = record { status = status; reason_code = some reason }

abbrev pub is_valid : ReceiptVerdict → Bool
is_valid v = elim v.status [ Status.valid ↦ true | _ ↦ false ]
