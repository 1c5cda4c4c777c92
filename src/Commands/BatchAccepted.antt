-- ===== src/Commands/BatchAccepted.antt =====
-- What a batch whose items are all valid after the network pass of src/commands/verify.rs says of the
-- receipts before it.
use atl_cli.Prelude.{
  String, Bool, true, false, List, [], ◌∷◌, map, any, All, All-map, ◌≡◌, ◌⊎◌, inl, inr, refl,
  if◌then◌else◌, Result, ok, err,
}
use atl_cli.Error.{CliError}
use atl_cli.Cli.{VerifyArgs, VerificationMode, Host, determine_mode_for_receipt}
use atl_cli.Verify.Verdict.{Status}
use atl_cli.Verify.Single.{SingleVerificationResult, verdict, presents_no_anchors}
use atl_cli.Verify.Online.{Session, verify_anchors_online}
use atl_cli.Verify.Batch.{
  BatchItemResult, BatchVerificationResult, item_of_status, reclassified, reclassify,
}
use atl_cli.Verify.Batch.Honest.{IsValidReceipt, item_of_status-valid, valid-is_valid_item}
use atl_cli.Verify.Batch.Run.Presence.{IsPresence}
use atl_cli.Commands.Single.{Network}
use atl_cli.Commands.Batch.{
  item_requires_network, online_item, online_items, settle_in, settle_batch,
}

-- What the network pass makes of a receipt: it is left as it is, or its anchors are taken online at some
-- point of the run. After that its verdict is valid.
pub record IsAccepted (net : Network) (r : SingleVerificationResult) : Type 0 where
  pub settled : SingleVerificationResult
  pub from :
      (settled ≡ r)
      ⊎ ((session : Session) × (settled
            ≡ (verify_anchors_online net.hex_bytes net.services net.moments r session).0))
  pub accepted : (verdict settled).status ≡ Status.valid

-- The items of a receipt that is accepted after the network pass.
abbrev pub IsPassed : Network → BatchItemResult → Type 0
IsPassed net (BatchItemResult.valid r) = IsAccepted net r
IsPassed net (BatchItemResult.unanchored r) = IsAccepted net r
IsPassed net (BatchItemResult.untrusted r) = IsAccepted net r
IsPassed net (BatchItemResult.invalid r) = IsAccepted net r
IsPassed net (BatchItemResult.errored _ _ _) = ⊥
IsPassed net (BatchItemResult.no_receipt _) = ⊥
IsPassed net (BatchItemResult.no_source _) = ⊥

item_of_status-IsAccepted :
    (net : Network) (status : Status) (source receipt : String) (r : SingleVerificationResult)
    → IsPassed net (item_of_status status source receipt r)
    → IsAccepted net r
unfolding item_of_status
item_of_status-IsAccepted net Status.valid source receipt r h = h
item_of_status-IsAccepted net Status.error source receipt r h = absurd h
item_of_status-IsAccepted net Status.untrusted source receipt r h =
    by_anchors (presents_no_anchors r) h
  where
    by_anchors :
        (lite : Bool)
        → IsPassed net (if lite then BatchItemResult.unanchored r else BatchItemResult.untrusted r)
        → IsAccepted net r
    by_anchors true k = k
    by_anchors false k = k
item_of_status-IsAccepted net Status.invalid source receipt r h = h

pub IsPassed-IsPresence : (net : Network) → IsPresence (IsPassed net) (IsAccepted net)
IsPassed-IsPresence net = record {
  not_errored = λ s r e h. h;
  not_receipt = λ path h. h;
  not_source = λ path h. h;
  of_status =
      λ source receipt r h. item_of_status-IsAccepted net (verdict r).status source receipt r h;
}

valid-IsPassed : (net : Network) (item : BatchItemResult) → IsValidReceipt item → IsPassed net item
valid-IsPassed net (BatchItemResult.valid r) h = record {
  settled = r;
  from = inl refl;
  accepted = h;
}
valid-IsPassed net (BatchItemResult.unanchored r) h = absurd h
valid-IsPassed net (BatchItemResult.untrusted r) h = absurd h
valid-IsPassed net (BatchItemResult.invalid r) h = absurd h
valid-IsPassed net (BatchItemResult.errored _ _ _) h = h
valid-IsPassed net (BatchItemResult.no_receipt _) h = h
valid-IsPassed net (BatchItemResult.no_source _) h = h

-- A receipt that is filed as valid by a status has that status.
filed_valid :
    (status : Status) (source receipt : String) (r : SingleVerificationResult)
    → IsValidReceipt (item_of_status status source receipt r)
    → status ≡ Status.valid
filed_valid status source receipt r h =
    item_of_status-valid status source receipt r
      (valid-is_valid_item (item_of_status status source receipt r) h)

passed_online :
    (net : Network) (r : SingleVerificationResult) (session : Session) (source receipt : String)
    (settled : SingleVerificationResult)
    → settled ≡ (verify_anchors_online net.hex_bytes net.services net.moments r session).0
    → IsValidReceipt (item_of_status (verdict settled).status source receipt settled)
    → IsAccepted net r
passed_online net r session source receipt settled e h = record {
  settled = settled;
  from = inr (session, e);
  accepted = filed_valid (verdict settled).status source receipt settled h;
}

of_reclassified :
    (net : Network) (item : BatchItemResult) (session : Session)
    → IsValidReceipt (reclassified (online_item net item session).0)
    → IsPassed net item
unfolding reclassified online_item
of_reclassified net (BatchItemResult.valid r) session h = passed_online net r session _ _ _ refl h
of_reclassified net (BatchItemResult.unanchored r) session h = record {
  settled = r;
  from = inl refl;
  accepted = filed_valid (verdict r).status r.source_path r.receipt_path r h;
}
of_reclassified net (BatchItemResult.untrusted r) session h =
    passed_online net r session _ _ _ refl h
of_reclassified net (BatchItemResult.invalid r) session h = passed_online net r session _ _ _ refl h
of_reclassified net (BatchItemResult.errored _ _ _) session h = h
of_reclassified net (BatchItemResult.no_receipt _) session h = h
of_reclassified net (BatchItemResult.no_source _) session h = h

online_items-IsPassed :
    (net : Network) (items : List BatchItemResult) (session : Session)
    → All IsValidReceipt (map reclassified (online_items net items session))
    → All (IsPassed net) items
unfolding online_items
online_items-IsPassed net [] session h = tt
online_items-IsPassed net (item ∷ items) session h = (
  of_reclassified net item session h.0,
  online_items-IsPassed net items (online_item net item session).1 h.1,
)

settle_in-IsPassed :
    (net : Network) (b : BatchVerificationResult) (mode : Result CliError VerificationMode)
    (runtime : Result CliError (Unit {0}))
    → All IsValidReceipt (settle_in net b mode runtime).0.items
    → All (IsPassed net) b.items
unfolding settle_in reclassify
settle_in-IsPassed net b (err error) runtime h = All-map b.items (valid-IsPassed net) h
settle_in-IsPassed net b (ok VerificationMode.offline) runtime h =
    All-map b.items (valid-IsPassed net) h
settle_in-IsPassed net b (ok VerificationMode.online) (err error) h =
    All-map b.items (valid-IsPassed net) h
settle_in-IsPassed net b (ok VerificationMode.online) (ok u) h =
    online_items-IsPassed net b.items net.session h

pub settle_batch-IsPassed :
    (args : VerifyArgs) (h : Host) (net : Network) (b : BatchVerificationResult)
    → All IsValidReceipt (settle_batch args h net b).0.items
    → All (IsPassed net) b.items
unfolding settle_batch
settle_batch-IsPassed args h net b v =
    settle_in-IsPassed net b (determine_mode_for_receipt args h (any item_requires_network b.items))
      net.build_runtime v
