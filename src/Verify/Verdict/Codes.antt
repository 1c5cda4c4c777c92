-- ===== src/Verify/Verdict/Codes.antt =====
-- src/verify/verdict.rs: the wire strings of reason codes and statuses, and src/error.rs: the
-- numbers of the exit codes.
use atl_cli.Prelude.{
  ℕ, String, str_eq, Option, none, some, List, [], ◌∷◌, ◌≡◌, refl, sym, ap, ◌∙◌, arith, true, false,
}
use mathlib.Core.Option.{some-injective}
use atl_cli.Verify.Verdict.{ReasonCode, Status, ExitCode, exit_code}

unfoldable pub as_str : ReasonCode → String
as_str ReasonCode.file_hash_mismatch = "file_hash_mismatch"
as_str ReasonCode.inclusion_proof_invalid = "inclusion_proof_invalid"
as_str ReasonCode.super_inclusion_proof_invalid = "super_inclusion_proof_invalid"
as_str ReasonCode.super_consistency_proof_invalid = "super_consistency_proof_invalid"
as_str ReasonCode.checkpoint_root_hash_mismatch = "checkpoint_root_hash_mismatch"
as_str ReasonCode.checkpoint_tree_size_mismatch = "checkpoint_tree_size_mismatch"
as_str ReasonCode.checkpoint_signature_invalid = "checkpoint_signature_invalid"
as_str ReasonCode.metadata_hash_mismatch = "metadata_hash_mismatch"
as_str ReasonCode.receipt_malformed = "receipt_malformed"
as_str ReasonCode.receipt_verification_failed = "receipt_verification_failed"
as_str ReasonCode.anchor_target_invalid = "anchor_target_invalid"
as_str ReasonCode.anchor_hash_malformed = "anchor_hash_malformed"
as_str ReasonCode.anchor_target_hash_mismatch = "anchor_target_hash_mismatch"
as_str ReasonCode.tsa_token_unparsable = "tsa_token_unparsable"
as_str ReasonCode.tsa_imprint_mismatch = "tsa_imprint_mismatch"
as_str ReasonCode.cms_signature_invalid = "cms_signature_invalid"
as_str ReasonCode.tsa_timestamping_eku_invalid = "tsa_timestamping_eku_invalid"
as_str ReasonCode.tsa_chain_invalid_at_gen_time = "tsa_chain_invalid_at_gen_time"
as_str ReasonCode.tsa_imprint_malformed = "tsa_imprint_malformed"
as_str ReasonCode.tsa_timestamping_eku_not_checked = "tsa_timestamping_eku_not_checked"
as_str ReasonCode.super_proof_missing = "super_proof_missing"
as_str ReasonCode.bitcoin_ots_proof_invalid = "bitcoin_ots_proof_invalid"
as_str ReasonCode.bitcoin_merkle_root_mismatch = "bitcoin_merkle_root_mismatch"
as_str ReasonCode.bitcoin_claimed_height_contradicts_proof =
    "bitcoin_claimed_height_contradicts_proof"
as_str ReasonCode.bitcoin_claimed_time_contradicts_block = "bitcoin_claimed_time_contradicts_block"
as_str ReasonCode.tsa_root_not_trusted = "tsa_root_not_trusted"
as_str ReasonCode.tsa_chain_incomplete = "tsa_chain_incomplete"
as_str ReasonCode.tsa_imprint_indeterminate = "tsa_imprint_indeterminate"
as_str ReasonCode.cms_signature_indeterminate = "cms_signature_indeterminate"
as_str ReasonCode.tsa_chain_indeterminate = "tsa_chain_indeterminate"
as_str ReasonCode.bitcoin_block_not_checked = "bitcoin_block_not_checked"
as_str ReasonCode.bitcoin_block_unavailable = "bitcoin_block_unavailable"
as_str ReasonCode.bitcoin_providers_disagree = "bitcoin_providers_disagree"
as_str ReasonCode.bitcoin_single_source_only = "bitcoin_single_source_only"
as_str ReasonCode.bitcoin_claimed_time_unreadable = "bitcoin_claimed_time_unreadable"
as_str ReasonCode.anchor_type_unsupported = "anchor_type_unsupported"
as_str ReasonCode.receipt_check_incomplete = "receipt_check_incomplete"
as_str ReasonCode.receipt_unanchored = "receipt_unanchored"
as_str ReasonCode.anchor_quorum_unmet = "anchor_quorum_unmet"
as_str ReasonCode.batch_items_invalid = "batch_items_invalid"
as_str ReasonCode.batch_items_untrusted = "batch_items_untrusted"
as_str ReasonCode.batch_items_unmatched = "batch_items_unmatched"
as_str ReasonCode.batch_nothing_verified = "batch_nothing_verified"
as_str ReasonCode.batch_items_errored = "batch_items_errored"
as_str ReasonCode.log_consistency_failed = "log_consistency_failed"

unfoldable pub status_str : Status → String
status_str Status.valid = "valid"
status_str Status.untrusted = "untrusted"
status_str Status.error = "error"
status_str Status.invalid = "invalid"

-- The `repr(u8)` discriminants, read by `ExitCode::code`.
unfoldable pub code : ExitCode → ℕ
code ExitCode.valid = 0
code ExitCode.invalid = 1
code ExitCode.error = 2
code ExitCode.untrusted = 3

-- Every reason code, once.
all_codes : List ReasonCode
all_codes =
    ReasonCode.file_hash_mismatch ∷ ReasonCode.inclusion_proof_invalid
    ∷ ReasonCode.super_inclusion_proof_invalid ∷ ReasonCode.super_consistency_proof_invalid
    ∷ ReasonCode.checkpoint_root_hash_mismatch ∷ ReasonCode.checkpoint_tree_size_mismatch
    ∷ ReasonCode.checkpoint_signature_invalid ∷ ReasonCode.metadata_hash_mismatch
    ∷ ReasonCode.receipt_malformed ∷ ReasonCode.receipt_verification_failed
    ∷ ReasonCode.anchor_target_invalid ∷ ReasonCode.anchor_hash_malformed
    ∷ ReasonCode.anchor_target_hash_mismatch ∷ ReasonCode.tsa_token_unparsable
    ∷ ReasonCode.tsa_imprint_mismatch ∷ ReasonCode.cms_signature_invalid
    ∷ ReasonCode.tsa_timestamping_eku_invalid ∷ ReasonCode.tsa_chain_invalid_at_gen_time
    ∷ ReasonCode.tsa_imprint_malformed ∷ ReasonCode.tsa_timestamping_eku_not_checked
    ∷ ReasonCode.super_proof_missing ∷ ReasonCode.bitcoin_ots_proof_invalid
    ∷ ReasonCode.bitcoin_merkle_root_mismatch ∷ ReasonCode.bitcoin_claimed_height_contradicts_proof
    ∷ ReasonCode.bitcoin_claimed_time_contradicts_block ∷ ReasonCode.tsa_root_not_trusted
    ∷ ReasonCode.tsa_chain_incomplete ∷ ReasonCode.tsa_imprint_indeterminate
    ∷ ReasonCode.cms_signature_indeterminate ∷ ReasonCode.tsa_chain_indeterminate
    ∷ ReasonCode.bitcoin_block_not_checked ∷ ReasonCode.bitcoin_block_unavailable
    ∷ ReasonCode.bitcoin_providers_disagree ∷ ReasonCode.bitcoin_single_source_only
    ∷ ReasonCode.bitcoin_claimed_time_unreadable ∷ ReasonCode.anchor_type_unsupported
    ∷ ReasonCode.receipt_check_incomplete ∷ ReasonCode.receipt_unanchored
    ∷ ReasonCode.anchor_quorum_unmet ∷ ReasonCode.batch_items_invalid
    ∷ ReasonCode.batch_items_untrusted ∷ ReasonCode.batch_items_unmatched
    ∷ ReasonCode.batch_nothing_verified ∷ ReasonCode.batch_items_errored
    ∷ ReasonCode.log_consistency_failed ∷ []

find_code : String → List ReasonCode → Option ReasonCode
find_code s [] = none
find_code s (c ∷ cs) = elim (str_eq (as_str c) s) [ true ↦ some c | false ↦ find_code s cs ]

find_code-as_str : (c : ReasonCode) → find_code (as_str c) all_codes ≡ some c
unfolding find_code all_codes as_str
find_code-as_str ReasonCode.file_hash_mismatch = refl
find_code-as_str _ = refl

-- Two reason codes with one wire string are one code, so a script can branch on the string.
pub as_str_injective : (a b : ReasonCode) → as_str a ≡ as_str b → a ≡ b
as_str_injective a b h =
    some-injective a b
      (sym (find_code-as_str a) ∙ ap (λ s. find_code s all_codes) h ∙ find_code-as_str b)

-- A status is recovered from the number that the process exits with.
pub code-exit_code_injective : (s t : Status) → code (exit_code s) ≡ code (exit_code t) → s ≡ t
unfolding code exit_code
code-exit_code_injective s t h = ground arith
