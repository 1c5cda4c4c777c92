-- ===== src/Tests/Programs.antt =====
-- The theorems about a file, a trust store and a run of the program, at concrete inputs.
use atl_cli.Prelude.{true, none, some, [], ◌∷◌, ◌≡◌, refl, Result, ok, concat}
use atl_cli.Error.{CliError}
use atl_cli.Verify.Verdict.{ExitCode}
use atl_cli.Verify.File.{hash_file}
use atl_cli.Verify.File.Laws.{hash_file_whole}
use atl_cli.Verify.TrustStore.{load_trust_material}
use atl_cli.Commands.Execute.{run_program}
use atl_cli.Commands.EndToEnd.{IsVouched, run_program-IsVouched}
use atl_cli.Verify.Single.Load.{verify_single}
use atl_cli.Verify.Single.Binding.{IsBound, verify_single-IsBound}
use atl_cli.Verify.TrustStore.Roles.{KeepsRoles, AsGiven, load_trust_material-AsGiven}
use atl_cli.Commands.Single.{single_error, settle_single}
use atl_cli.Verify.Single.{
  SingleVerificationResult, verdict, receipt_refutation, receipt_inability, assessment,
}
use atl_cli.Cli.{determine_mode_for_receipt}
use atl_cli.Verify.Online.{receipt_requires_network}
use atl_cli.Verify.Anchor.{from_facts, verdict_from_facts}
use atl_cli.Verify.Anchor.Prose.{offline_results, result_from_facts}
use atl_cli.Verify.File.{compare_hash}
use atl_cli.Verify.Policy.{AnchorPolicy, policy_satisfied, from_allow_single_anchor}
use atl_cli.Tests.Data.{receipt, args, render}
use atl_cli.Tests.Disk.{
  disk, sha, verified_facts, core, x509, world, command_line, read_byte, sha-IsStreaming,
}

hash_file_whole_example : hash_file disk sha "a" ≡ ok (171 ∷ [])
hash_file_whole_example =
    hash_file_whole disk sha sha-IsStreaming "a" (171 ∷ []) refl refl (λ q message reached e. cc)

run_single : run_program world (ok (command_line args)) ≡ ExitCode.valid
unfolding run_program hash_file read_byte single_error verdict receipt_refutation settle_single
    determine_mode_for_receipt receipt_requires_network from_facts compare_hash concat
    receipt_inability policy_satisfied assessment offline_results from_allow_single_anchor
    result_from_facts verdict_from_facts
run_single = refl

run_program-IsVouched_example : IsVouched world args
run_program-IsVouched_example =
    run_program-IsVouched world args (command_line args) sha-IsStreaming refl refl run_single

abbrev verified_a : Result CliError SingleVerificationResult
verified_a = verify_single core disk sha render "a" "a.atl" none AnchorPolicy.all_anchors

abbrev result_a : SingleVerificationResult
result_a = record {
  source_path = "a";
  receipt_path = "a.atl";
  file_hash = 171 ∷ [];
  receipt = receipt;
  file_hash_valid = true;
  core_result = record {
    inclusion_valid = true;
    super_inclusion_valid = true;
    super_consistency_valid = true;
    receipt_errors = [];
  };
  anchor_results = offline_results render receipt (verified_facts ∷ []);
  anchor_facts = verified_facts ∷ [];
  policy = AnchorPolicy.all_anchors;
}

verified_a-ok : verified_a ≡ ok result_a
unfolding verify_single hash_file read_byte compare_hash concat
verified_a-ok = refl

verify_single-IsBound_example :
    IsBound core disk sha render "a" "a.atl" none AnchorPolicy.all_anchors result_a
verify_single-IsBound_example =
    verify_single-IsBound core disk sha render "a" "a.atl" none AnchorPolicy.all_anchors
      sha-IsStreaming result_a verified_a-ok

core-KeepsRoles : KeepsRoles core
core-KeepsRoles = record {
  anchors = λ s. s.0;
  intermediates = λ s. s.1;
  new_anchors = refl;
  new_intermediates = refl;
  anchor_added = λ s c. refl;
  anchor_aside = λ s c. refl;
  intermediate_added = λ s c. refl;
  intermediate_aside = λ s c. refl;
}

roots_loaded :
    load_trust_material core x509 disk (some "roots") (some "bridge") ≡ ok (some (3 ∷ [], 3 ∷ []))
unfolding load_trust_material
roots_loaded = refl

load_trust_material-AsGiven_example :
    AsGiven core x509 disk core-KeepsRoles (some "roots") (some "bridge") (some (3 ∷ [], 3 ∷ []))
load_trust_material-AsGiven_example =
    load_trust_material-AsGiven core x509 disk core-KeepsRoles (some "roots") (some "bridge")
      (some (3 ∷ [], 3 ∷ [])) roots_loaded
