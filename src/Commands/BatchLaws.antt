-- ===== src/Commands/BatchLaws.antt =====
-- What the exit code says of the files of a batch (src/commands/verify.rs and src/verify/batch.rs).
use atl_cli.Prelude.{
  false, List, [], ◌∷◌, ◌≡◌, refl, ap, ◌∙◌, sym, suc, inl, inr, length, is_empty, any, All,
  count_if, Result, ok, err, Result-cases,
}
use atl_cli.Error.{CliError, error_exit_code-failure}
use atl_cli.Cli.{VerifyArgs, VerificationMode, Host, determine_mode_for_receipt}
use atl_cli.Verify.Verdict.{ExitCode}
use atl_cli.Verify.Online.{Session}
use atl_cli.Verify.Batch.{
  BatchItemResult, BatchVerificationResult, batch_verdict, inconsistent, is_unmatched, reclassify,
}
use atl_cli.Verify.Batch.Counts.{IsCounted, batch_verdict-valid_iff}
use atl_cli.Verify.Batch.Honest.{IsValidReceipt, IsHonest, items_valid, items-IsHonest}
use atl_cli.Verify.Batch.Reclassify.{reclassify-IsCounted}
use atl_cli.Commands.Single.{ModeOutcome, Network, run}
use atl_cli.Commands.Batch.{
  item_requires_network, online_item, online_items, settle_in, settle_batch, batch_error,
  execute_batch,
}
use atl_cli.Commands.Laws.{batch_error_for-exit_code, success-or_else}

unmatched-online_item :
    (net : Network) (item : BatchItemResult) (session : Session)
    → is_unmatched (online_item net item session).0 ≡ is_unmatched item
unfolding online_item is_unmatched
unmatched-online_item net (BatchItemResult.valid r) session = refl
unmatched-online_item net (BatchItemResult.unanchored r) session = refl
unmatched-online_item net (BatchItemResult.untrusted r) session = refl
unmatched-online_item net (BatchItemResult.invalid r) session = refl
unmatched-online_item net (BatchItemResult.errored _ _ _) session = refl
unmatched-online_item net (BatchItemResult.no_receipt _) session = refl
unmatched-online_item net (BatchItemResult.no_source _) session = refl

unmatched-online_items :
    (net : Network) (items : List BatchItemResult) (session : Session)
    → count_if is_unmatched (online_items net items session) ≡ count_if is_unmatched items
unfolding online_items
unmatched-online_items net [] session = refl
unmatched-online_items net (item ∷ items) session =
    rw
      (
        unmatched-online_item net item session,
        unmatched-online_items net items (online_item net item session).1,
      )
      refl

length-online_items :
    (net : Network) (items : List BatchItemResult) (session : Session)
    → length (online_items net items session) ≡ length items
unfolding online_items
length-online_items net [] session = refl
length-online_items net (item ∷ items) session =
    ap suc (length-online_items net items (online_item net item session).1)

-- What the network pass keeps of a batch: its counters count, and no file is lost.
abbrev Keeps : BatchVerificationResult → BatchVerificationResult → Type 0
Keeps b settled = IsCounted settled × (length settled.items ≡ length b.items)

settle_in-Keeps :
    (net : Network) (b : BatchVerificationResult) (mode : Result CliError VerificationMode)
    (runtime : Result CliError (Unit {0}))
    → IsCounted b
    → Keeps b (settle_in net b mode runtime).0
unfolding settle_in
settle_in-Keeps net b (err error) runtime h = (h, refl)
settle_in-Keeps net b (ok VerificationMode.offline) runtime h = (h, refl)
settle_in-Keeps net b (ok VerificationMode.online) (err error) h = (h, refl)
settle_in-Keeps net b (ok VerificationMode.online) (ok u) h =
    let passed : BatchVerificationResult = record b {
      items = online_items net b.items net.session;
    } in
    let kept : Keeps passed (reclassify passed) =
      reclassify-IsCounted passed
        (h.unmatched ∙ sym (unmatched-online_items net b.items net.session)) in
    (kept.0, kept.1 ∙ length-online_items net b.items net.session)

settle_batch-Keeps :
    (args : VerifyArgs) (host : Host) (net : Network) (b : BatchVerificationResult)
    → IsCounted b
    → Keeps b (settle_batch args host net b).0
unfolding settle_batch
settle_batch-Keeps args host net b h =
    settle_in-Keeps net b (determine_mode_for_receipt args host (any item_requires_network b.items))
      net.build_runtime h

settle_in-IsHonest :
    (net : Network) (b : BatchVerificationResult) (mode : Result CliError VerificationMode)
    (runtime : Result CliError (Unit {0}))
    → All IsHonest b.items
    → All IsHonest (settle_in net b mode runtime).0.items
unfolding settle_in reclassify
settle_in-IsHonest net b (err error) runtime h = h
settle_in-IsHonest net b (ok VerificationMode.offline) runtime h = h
settle_in-IsHonest net b (ok VerificationMode.online) (err error) h = h
settle_in-IsHonest net b (ok VerificationMode.online) (ok u) h =
    items-IsHonest (online_items net b.items net.session)

settle_batch-IsHonest :
    (args : VerifyArgs) (host : Host) (net : Network) (b : BatchVerificationResult)
    → All IsHonest b.items
    → All IsHonest (settle_batch args host net b).0.items
unfolding settle_batch
settle_batch-IsHonest args host net b h =
    settle_in-IsHonest net b
      (determine_mode_for_receipt args host (any item_requires_network b.items)) net.build_runtime h

-- Of a batch whose counters count its items and whose items filed as valid have valid verdicts, success
-- is reported only if it has a file, the verdict on every file's receipt is valid after the network pass,
-- which loses none, and no log instance contradicts itself.
pub execute_batch-success :
    (print_result : BatchVerificationResult → VerificationMode → Result CliError (Unit {0}))
    (args : VerifyArgs) (host : Host) (net : Network) (b : BatchVerificationResult)
    → IsCounted b
    → All IsHonest b.items
    → run (execute_batch print_result args host net (ok b)) ≡ ExitCode.valid
    → (is_empty (settle_batch args host net b).0.items ≡ false)
      × All IsValidReceipt (settle_batch args host net b).0.items
      × (length (settle_batch args host net b).0.items ≡ length b.items)
      × (inconsistent (settle_batch args host net b).0.consistency ≡ false)
unfolding execute_batch batch_error run
execute_batch-success print_result args host net b counted honest h =
    elim (Result-cases (print_result settled deferred.mode)) [
      | inl (failure, e) ↦ absurd (error_exit_code-failure failure (rw (e) at h))
      | inr (u, e) ↦
          let ended_well =
            success-or_else (batch_error settled) deferred.deferred (batch_verdict settled).status
              (batch_error_for-exit_code settled (batch_verdict settled)
                (batch_verdict settled).status)
              (rw (e) at h) in
          let valid = (batch_verdict-valid_iff settled kept.0).0 (rw (ended_well.0) refl) in
          (
            valid.0,
            items_valid settled.items (settle_batch-IsHonest args host net b honest) valid.1,
            kept.1,
            valid.2,
          )
    ]
  where
    settled : BatchVerificationResult
    settled = (settle_batch args host net b).0

    deferred : ModeOutcome
    deferred = (settle_batch args host net b).1

    kept : Keeps b settled
    kept = settle_batch-Keeps args host net b counted
