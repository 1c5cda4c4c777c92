-- ===== src/Commands/Execute.antt =====
-- The program from its arguments to its exit code: `execute` of src/commands/verify.rs and
-- src/commands/inspect.rs, `dispatch` of src/commands/mod.rs, the choice of a renderer in
-- src/output/mod.rs, and `run` of src/main.rs.
use atl_cli.Prelude.{String, Bool, Option, if◌then◌else◌, Result, ok, err, ◌>>=◌}
use atl_cli.Core.{AtlCore, Receipt}
use atl_cli.Error.{CliError}
use atl_cli.Files.{Files}
use atl_cli.Cli.{
  Args, Command, InspectArgs, VerifyArgs, VerificationMode, Host, validate, is_batch_mode,
  use_color,
}
use atl_cli.Net.Detect.{Connectivity, has_internet_blocking}
use atl_cli.Verify.Verdict.{ExitCode}
use atl_cli.Verify.File.{Sha256}
use atl_cli.Verify.Policy.{from_allow_single_anchor}
use atl_cli.Verify.Anchor.Prose.{Rendering}
use atl_cli.Verify.Single.{SingleVerificationResult}
use atl_cli.Verify.Single.Load.{load_receipt, verify_single}
use atl_cli.Verify.Consistency.{CrossServices}
use atl_cli.Verify.Batch.{BatchVerificationResult}
use atl_cli.Verify.Batch.Run.{verify_batch}
use atl_cli.Verify.TrustStore.{X509, load_trust_material}
use atl_cli.Output.Json.{Formats}
use atl_cli.Output.Json.Single.{SingleResultJson, build_single_result_json}
use atl_cli.Output.Json.Batch.{BatchResultJson, batch_result_json}
use atl_cli.Commands.Single as Single
use atl_cli.Commands.Single.{Network, execute_single}
use atl_cli.Commands.Batch.{execute_batch}

-- The crate `serde_json` with the printing of a document, the renderer of src/output/human.rs, and what
-- the standard output is connected to. Each printing may fail.
pub record Printers : Type 0 where
  pub is_terminal : Bool
  pub formats : Formats
  pub write_single : SingleResultJson → Result CliError (Unit {0})
  pub write_batch : BatchResultJson → Result CliError (Unit {0})
  pub human_single : SingleVerificationResult → (color : Bool) → Result CliError (Unit {0})
  pub human_batch : BatchVerificationResult → (color : Bool) → Result CliError (Unit {0})
  pub write_receipt : Receipt → Result CliError (Unit {0})
  pub human_receipt : Receipt → Result CliError (Unit {0})

unfoldable pub print_single_result :
    Printers → Args → SingleVerificationResult → VerificationMode → Result CliError (Unit {0})
unfolding use_color build_single_result_json
print_single_result printers args r mode =
    if args.quiet
    then ok tt
    else if args.json
    then printers.write_single (build_single_result_json printers.formats r mode)
    else printers.human_single r (use_color args printers.is_terminal)

unfoldable pub print_batch_result :
    Printers
    → Args
    → (source_dir receipt_dir : String) → BatchVerificationResult
    → VerificationMode
    → Result CliError (Unit {0})
unfolding use_color batch_result_json
print_batch_result printers args source_dir receipt_dir b mode =
    if args.quiet
    then ok tt
    else if args.json
    then printers.write_batch (batch_result_json printers.formats b mode source_dir receipt_dir)
    else printers.human_batch b (use_color args printers.is_terminal)

-- Everything that the program runs on.
pub record World : Type 1 where
  pub core : AtlCore
  pub files : Files
  pub sha : Sha256
  pub render : Rendering
  pub x509 : X509 core.Certificate
  pub cross : CrossServices
  pub online_feature : Bool
  pub connectivity : Connectivity
  pub net : Network
  pub printers : Printers

unfoldable pub detected_host : World → Host
unfolding has_internet_blocking
detected_host w = record {
  online_feature = w.online_feature;
  has_internet = has_internet_blocking w.online_feature w.connectivity;
}

module _ (w : World) where
  open w use {core, files, sha, render, x509, cross, net, printers}

  -- `execute_single` and `execute_batch` for the trust store and the arguments.
  unfoldable pub verify_with :
      Args → VerifyArgs → (batch : Bool) → Option core.TrustStore → Result CliError (Unit {0})
  unfolding execute_single execute_batch verify_single verify_batch print_single_result
      print_batch_result detected_host
  verify_with args verify_args batch trust_store =
      let policy = from_allow_single_anchor verify_args.allow_single_anchor in
      if batch
      then execute_batch (print_batch_result printers args verify_args.source verify_args.receipt)
          verify_args (detected_host w) net
          (verify_batch core files sha render trust_store policy cross verify_args.source
            verify_args.receipt)
      else execute_single render (print_single_result printers args) verify_args (detected_host w)
          net
          (verify_single core files sha render verify_args.source verify_args.receipt trust_store
            policy)

  unfoldable pub execute_verify : VerifyArgs → Args → Result CliError (Unit {0})
  unfolding validate load_trust_material is_batch_mode verify_with
  execute_verify verify_args args = do
    _ ← validate verify_args files
    trust_store ←
        load_trust_material core x509 files verify_args.tsa_trust_store
          verify_args.tsa_intermediates
    verify_with args verify_args (is_batch_mode verify_args files) trust_store

  unfoldable pub execute_inspect : InspectArgs → Args → Result CliError (Unit {0})
  unfolding load_receipt
  execute_inspect inspect_args args = do
    receipt ← load_receipt core files inspect_args.receipt
    if args.json
        then printers.write_receipt receipt
        else if args.quiet
        then ok tt
        else printers.human_receipt receipt

  unfoldable pub dispatch_command : Command → Args → Result CliError (Unit {0})
  unfolding execute_verify execute_inspect
  dispatch_command (Command.verify verify_args) args = execute_verify verify_args args
  dispatch_command (Command.inspect inspect_args) args = execute_inspect inspect_args args

  -- `run` of src/main.rs, for what `cli::parse` returns.
  unfoldable pub run_program : Result CliError Args → ExitCode
  unfolding dispatch_command Single.run
  run_program (err e) = ExitCode.error
  run_program (ok args) = Single.run (dispatch_command args.command args)
