-- ===== src/Commands/BatchEndToEnd.antt =====
-- What exit code 0 of the program says of two directories (src/main.rs, src/commands/verify.rs).
use atl_cli.Prelude.{Bool, true, false, Option, All, ◌≡◌, ok, Ensures-ok}
use atl_cli.Cli.{Args, Command, VerifyArgs, validate, is_batch_mode}
use atl_cli.Verify.Verdict.{ExitCode}
use atl_cli.Verify.Policy.{AnchorPolicy, from_allow_single_anchor}
use atl_cli.Verify.Batch.{BatchVerificationResult, inconsistent}
use atl_cli.Verify.Batch.Counts.{IsCounted}
use atl_cli.Verify.Batch.Honest.{IsValidReceipt, IsHonest}
use atl_cli.Verify.Batch.Matching.Walks.{ListsNames}
use atl_cli.Verify.Batch.Run.{verify_batch}
use atl_cli.Verify.Batch.Run.Complete.{
  IsComplete, verify_batch-IsComplete, verify_batch-IsCounted, verify_batch-IsHonest,
}
use atl_cli.Verify.TrustStore.{load_trust_material}
use atl_cli.Commands.Single as Single
use atl_cli.Commands.Batch.{settle_batch, execute_batch}
use atl_cli.Commands.BatchAccepted.{
  IsAccepted, IsPassed, IsPassed-IsPresence, settle_batch-IsPassed,
}
use atl_cli.Commands.BatchLaws.{execute_batch-success}
use atl_cli.Commands.EndToEnd.{succeeds}
use atl_cli.Commands.Execute.{
  World, detected_host, print_batch_result, verify_with, execute_verify, dispatch_command,
  run_program,
}

module _ (w : World) (verify_args : VerifyArgs) where
  open w use {core, files, sha, render, x509, cross, net}

  abbrev policy : AnchorPolicy
  policy = from_allow_single_anchor verify_args.allow_single_anchor

  -- What stands behind exit code 0 for two directories: the trust store of the arguments, the batch that
  -- was verified with it, in which no file of either directory is missing and every file's receipt is
  -- accepted, and the items after the network pass, whose receipts all have a valid verdict.
  pub record IsVouchedBatch : Type 0 where
    pub trust_store : Option core.TrustStore
    pub loaded :
        load_trust_material core x509 files verify_args.tsa_trust_store
          verify_args.tsa_intermediates
        ≡ ok trust_store
    pub batch : BatchVerificationResult
    pub verified :
        verify_batch core files sha render trust_store policy cross verify_args.source
          verify_args.receipt
        ≡ ok batch
    pub complete :
        IsComplete core files sha render trust_store policy
          (IsAccepted net)
          verify_args.source
          verify_args.receipt
    pub all_valid :
        All IsValidReceipt (settle_batch verify_args (detected_host w) net batch).0.items
    pub consistent :
        inconsistent (settle_batch verify_args (detected_host w) net batch).0.consistency ≡ false

  vouched_batch :
      ListsNames files
      → (args : Args) (batch : Bool) (trust_store : Option core.TrustStore) → batch ≡ true
      → load_trust_material core x509 files verify_args.tsa_trust_store
          verify_args.tsa_intermediates
        ≡ ok trust_store
      → Single.run (verify_with w args verify_args batch trust_store) ≡ ExitCode.valid
      → IsVouchedBatch
  unfolding verify_with execute_batch
  vouched_batch names args false trust_store e loaded h = cc
  vouched_batch names args true trust_store e loaded h =
      let printing = print_batch_result w.printers args verify_args.source verify_args.receipt in
      let (b, verified, ended) =
        succeeds
          (verify_batch core files sha render trust_store policy cross verify_args.source
            verify_args.receipt)
          _ h in
      let counted =
        Ensures-ok IsCounted
          (verify_batch-IsCounted core files sha render trust_store policy cross verify_args.source
            verify_args.receipt)
          verified in
      let success =
        execute_batch-success printing verify_args (detected_host w) net b counted
          (Ensures-ok (λ c. All IsHonest c.items)
            (verify_batch-IsHonest core files sha render trust_store policy cross verify_args.source
              verify_args.receipt)
            verified)
          ended in
      record {
        trust_store = trust_store;
        loaded = loaded;
        batch = b;
        verified = verified;
        complete =
            verify_batch-IsComplete core files sha render trust_store policy (IsPassed net)
              (IsAccepted net) (IsPassed-IsPresence net) cross verify_args.source
              verify_args.receipt b names verified
              (settle_batch-IsPassed verify_args (detected_host w) net b success.1);
        all_valid = success.1;
        consistent = success.3;
      }

  -- Where listings name their entries, the program ends with exit code 0 for a source that is a
  -- directory only if every file that it lists, but those with the extension of receipts, was verified
  -- against a receipt of its name that the receipt directory lists, no receipt there is left over and no
  -- listed entry of either could not be read, the verdict on every file's receipt is valid after the
  -- network pass, and no log contradicts itself.
  pub run_program-IsVouchedBatch :
      (args : Args)
      → ListsNames files
      → args.command ≡ Command.verify verify_args
      → files.is_dir verify_args.source ≡ true
      → run_program w (ok args) ≡ ExitCode.valid
      → IsVouchedBatch
  unfolding run_program dispatch_command execute_verify is_batch_mode
  run_program-IsVouchedBatch args names verifies directory h =
      let (_, _, validated) = succeeds (validate verify_args files) _ (rw (verifies) at h) in
      let (trust_store, loaded, ended) =
        succeeds
          (load_trust_material core x509 files verify_args.tsa_trust_store
            verify_args.tsa_intermediates)
          _ validated in
      vouched_batch names args (files.is_dir verify_args.source) trust_store directory loaded ended
