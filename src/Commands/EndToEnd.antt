-- ===== src/Commands/EndToEnd.antt =====
-- What exit code 0 of the program says of the files it was given (src/main.rs, src/commands/verify.rs).
use atl_cli.Prelude.{Bool, true, false, Option, ◌≡◌, refl, sym, ◌∙◌, arith, Result, ok, err, ◌>>=◌}
use atl_cli.Error.{CliError, error_exit_code-failure}
use atl_cli.Cli.{Args, Command, VerifyArgs, Host, validate, is_batch_mode}
use atl_cli.Verify.Verdict.{Status, ExitCode}
use atl_cli.Verify.File.{format_hash}
use atl_cli.Verify.File.Laws.{IsStreaming, digest}
use atl_cli.Verify.Policy.{from_allow_single_anchor}
use atl_cli.Verify.Single.{SingleVerificationResult, verdict, receipt_refutation}
use atl_cli.Verify.Single.Load.{verify_single}
use atl_cli.Verify.Single.Binding.{IsLoaded, verify_single-IsBound}
use atl_cli.Verify.Single.Verdicts.{verdict-valid_iff}
use atl_cli.Verify.Online.{verify_anchors_online}
use atl_cli.Verify.TrustStore.{load_trust_material}
use atl_cli.Commands.Single as Single
use atl_cli.Commands.Single.{Network, settle_single, execute_single}
use atl_cli.Commands.Laws.{execute_single-success}
use atl_cli.Commands.Execute.{
  World, detected_host, print_single_result, verify_with, execute_verify, dispatch_command,
  run_program,
}

-- The network pass changes neither the receipt nor what was found of the file.
settle_single-keeps :
    (args : VerifyArgs) (h : Host) (net : Network) (r : SingleVerificationResult)
    → ((settle_single args h net r).0.file_hash_valid ≡ r.file_hash_valid)
      × ((settle_single args h net r).0.receipt ≡ r.receipt)
unfolding settle_single verify_anchors_online
settle_single-keeps args h net r = ground arith

valid-file_hash :
    (r : SingleVerificationResult) → (verdict r).status ≡ Status.valid → r.file_hash_valid ≡ true
unfolding receipt_refutation
valid-file_hash r valid = let unrefuted = ((verdict-valid_iff r).0 valid).0 in ground arith

pub succeeds :
    {A : Type 0} (m : Result CliError A) (f : A → Result CliError (Unit {0}))
    → Single.run (m >>= f) ≡ ExitCode.valid
    → (a : A) × (m ≡ ok a) × (Single.run (f a) ≡ ExitCode.valid)
unfolding Single.run
succeeds (ok a) f h = (a, refl, h)
succeeds (err e) f h = absurd (error_exit_code-failure e h)

module _ (w : World) (verify_args : VerifyArgs) where
  open w use {core, files, sha, render, x509, net}

  -- What stands behind exit code 0 for two files: the trust store of the arguments, the result of the
  -- verification with it, its verdict after the network pass, the receipt of the receipt file, and all
  -- the bytes of the source file, whose hash the receipt names.
  pub record IsVouched : Type 0 where
    pub trust_store : Option core.TrustStore
    pub loaded :
        load_trust_material core x509 files verify_args.tsa_trust_store
          verify_args.tsa_intermediates
        ≡ ok trust_store
    pub result : SingleVerificationResult
    pub verified :
        verify_single core files sha render verify_args.source verify_args.receipt trust_store
          (from_allow_single_anchor verify_args.allow_single_anchor)
        ≡ ok result
    pub valid :
        (verdict (settle_single verify_args (detected_host w) net result).0).status ≡ Status.valid
    pub receipt : IsLoaded core files verify_args.receipt result.receipt
    pub reader : files.Reader
    pub opened : files.open_file verify_args.source ≡ ok reader
    pub named : format_hash sha (digest sha (files.contents reader)) ≡ result.receipt.payload_hash

  vouched :
      IsStreaming sha
      → (args : Args) (batch : Bool) (trust_store : Option core.TrustStore) → batch ≡ false
      → load_trust_material core x509 files verify_args.tsa_trust_store
          verify_args.tsa_intermediates
        ≡ ok trust_store
      → Single.run (verify_with w args verify_args batch trust_store) ≡ ExitCode.valid
      → IsVouched
  unfolding verify_with
  vouched streams args true trust_store e loaded h = cc
  vouched streams args false trust_store e loaded h =
      let policy = from_allow_single_anchor verify_args.allow_single_anchor in
      let (r, verified, valid, _) =
        execute_single-success render (print_single_result w.printers args) verify_args
          (detected_host w) net
          (verify_single core files sha render verify_args.source verify_args.receipt trust_store
            policy)
          h in
      let bound =
        verify_single-IsBound core files sha render verify_args.source verify_args.receipt
          trust_store policy streams r verified in
      let kept = settle_single-keeps verify_args (detected_host w) net r in
      record {
        trust_store = trust_store;
        loaded = loaded;
        result = r;
        verified = verified;
        valid = valid;
        receipt = bound.loaded;
        reader = bound.reader;
        opened = bound.opened;
        named = bound.compared.0 (
            sym kept.0
            ∙ valid-file_hash (settle_single verify_args (detected_host w) net r).0 valid);
      }

  -- With a hash function that may be fed in pieces, the program ends with exit code 0 for a source that
  -- is no directory only if the receipt file is a receipt that names the hash of all the bytes of that
  -- source, and the receipt is valid after the network pass, checked with the trust store that the
  -- arguments name and under the policy that they choose.
  pub run_program-IsVouched :
      (args : Args)
      → IsStreaming sha
      → args.command ≡ Command.verify verify_args
      → files.is_dir verify_args.source ≡ false
      → run_program w (ok args) ≡ ExitCode.valid
      → IsVouched
  unfolding run_program dispatch_command execute_verify is_batch_mode
  run_program-IsVouched args streams verifies single h =
      let (_, _, validated) = succeeds (validate verify_args files) _ (rw (verifies) at h) in
      let (trust_store, loaded, ended) =
        succeeds
          (load_trust_material core x509 files verify_args.tsa_trust_store
            verify_args.tsa_intermediates)
          _ validated in
      vouched streams args (files.is_dir verify_args.source) trust_store single loaded ended
