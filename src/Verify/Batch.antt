-- ===== src/Verify/Batch.antt =====
-- src/verify/batch.rs: the classification of the items of a batch, and the batch's verdict.
pub mod Matching
pub mod Counts
pub mod Reclassify
pub mod Honest
pub mod Run
use atl_cli.Prelude.{
  ℕ, ◌+◌, String, Bool, true, false, not, ◌&&◌, ◌||◌, Option, none, some, is_some, List, [], ◌∷◌,
  ◌++◌, map, any, filter, length, ltb, leb, ◌==◌, if◌then◌else◌, count_if, Result, ok, err,
  find_map,
}
use atl_cli.Error.{CliError}
use atl_cli.Verify.Verdict.{
  ReasonCode, Status, ReceiptVerdict, verdict_valid, verdict_invalid, verdict_untrusted,
  verdict_new,
}
use atl_cli.Verify.Policy.{AnchorPolicy, accepted_with_gaps}
use atl_cli.Verify.Single.{SingleVerificationResult, verdict, presents_no_anchors, assessment}
use atl_cli.Verify.Consistency.{CrossServices, ConsistencyResult, consistent, verify_consistency}

pub data BatchItemResult : Type 0 where
  valid unanchored untrusted invalid : SingleVerificationResult → BatchItemResult
  errored : (source : String) (receipt : Option String) (error : CliError) → BatchItemResult
  no_receipt no_source : (path : String) → BatchItemResult

pub record BatchVerificationResult : Type 0 where
  pub items : List BatchItemResult
  pub consistency : Option ConsistencyResult
  pub valid_count : ℕ
  pub unanchored_count : ℕ
  pub untrusted_count : ℕ
  pub invalid_count : ℕ
  pub error_count : ℕ
  pub unmatched_count : ℕ
  pub policy : AnchorPolicy

-- `is_some_and(|c| !c.is_valid())`.
unfoldable pub inconsistent : Option ConsistencyResult → Bool
unfolding consistent
inconsistent none = false
inconsistent (some c) = not (consistent c)

-- `BatchVerificationResult::verdict`.
unfoldable pub batch_verdict : BatchVerificationResult → ReceiptVerdict
unfolding inconsistent
batch_verdict b =
    if ltb 0 b.invalid_count
    then verdict_invalid ReasonCode.batch_items_invalid
    else if inconsistent b.consistency
    then verdict_invalid ReasonCode.log_consistency_failed
    else if ltb 0 b.error_count
    then verdict_new Status.error ReasonCode.batch_items_errored
    else if ltb 0 b.unmatched_count
    then verdict_untrusted ReasonCode.batch_items_unmatched
    else if ltb 0 b.unanchored_count || ltb 0 b.untrusted_count
    then verdict_untrusted ReasonCode.batch_items_untrusted
    else if b.valid_count == 0
    then verdict_untrusted ReasonCode.batch_nothing_verified
    else verdict_valid

item_accepted_with_gaps : BatchItemResult → Bool
unfolding accepted_with_gaps assessment
item_accepted_with_gaps (BatchItemResult.valid r) = accepted_with_gaps (assessment r)
item_accepted_with_gaps _ = false

-- `BatchVerificationResult::accepted_with_gaps`.
unfoldable pub batch_accepted_with_gaps : BatchVerificationResult → Bool
unfolding item_accepted_with_gaps
batch_accepted_with_gaps b = any item_accepted_with_gaps b.items

unfoldable pub total_count : BatchVerificationResult → ℕ
total_count b =
    b.valid_count + b.unanchored_count + b.untrusted_count + b.invalid_count + b.error_count
    + b.unmatched_count

-- The counters that `verify_batch` and `reclassify` increment.
pub record Counters : Type 0 where
  pub valid_count : ℕ
  pub unanchored_count : ℕ
  pub untrusted_count : ℕ
  pub invalid_count : ℕ
  pub error_count : ℕ

abbrev pub no_counters : Counters
no_counters = record {
  valid_count = 0;
  unanchored_count = 0;
  untrusted_count = 0;
  invalid_count = 0;
  error_count = 0;
}

-- One increment, by the item that is recorded beside it.
unfoldable pub counted : BatchItemResult → Counters → Counters
counted (BatchItemResult.valid _) n = record n { valid_count = n.valid_count + 1 }
counted (BatchItemResult.unanchored _) n = record n { unanchored_count = n.unanchored_count + 1 }
counted (BatchItemResult.untrusted _) n = record n { untrusted_count = n.untrusted_count + 1 }
counted (BatchItemResult.invalid _) n = record n { invalid_count = n.invalid_count + 1 }
counted (BatchItemResult.errored _ _ _) n = record n { error_count = n.error_count + 1 }
counted (BatchItemResult.no_receipt _) n = n
counted (BatchItemResult.no_source _) n = n

unfoldable pub count_items : List BatchItemResult → Counters → Counters
unfolding counted
count_items [] n = n
count_items (item ∷ items) n = count_items items (counted item n)

-- The arms on `result.verdict().status`, in `reclassify` and in `verify_batch`, for the paths that
-- an error names.
unfoldable pub item_of_status :
    Status → (source receipt : String) → SingleVerificationResult → BatchItemResult
unfolding presents_no_anchors
item_of_status Status.valid source receipt r = BatchItemResult.valid r
item_of_status Status.error source receipt r =
    BatchItemResult.errored source (some receipt) (CliError.batch_items_unprocessable 1 1)
item_of_status Status.untrusted source receipt r =
    if presents_no_anchors r then BatchItemResult.unanchored r else BatchItemResult.untrusted r
item_of_status Status.invalid source receipt r = BatchItemResult.invalid r

-- The closure that `reclassify` maps over the items.
unfoldable pub reclassified : BatchItemResult → BatchItemResult
unfolding item_of_status
reclassified (BatchItemResult.valid r) =
    item_of_status (verdict r).status r.source_path r.receipt_path r
reclassified (BatchItemResult.unanchored r) =
    item_of_status (verdict r).status r.source_path r.receipt_path r
reclassified (BatchItemResult.untrusted r) =
    item_of_status (verdict r).status r.source_path r.receipt_path r
reclassified (BatchItemResult.invalid r) =
    item_of_status (verdict r).status r.source_path r.receipt_path r
reclassified item = item

unfoldable pub reclassify : BatchVerificationResult → BatchVerificationResult
unfolding reclassified count_items
reclassify b =
    let items = map reclassified b.items in
    let counters = count_items items no_counters in
    record b {
      items = items;
      valid_count = counters.valid_count;
      unanchored_count = counters.unanchored_count;
      untrusted_count = counters.untrusted_count;
      invalid_count = counters.invalid_count;
      error_count = counters.error_count;
    }

-- A pair of files, and what `verify_single` returns for it.
pub record Pair : Type 0 where
  pub source : String
  pub receipt : String
  pub outcome : Result CliError SingleVerificationResult

-- The item that the loop of `verify_batch` records for a pair.
unfoldable pub item_of_pair : Pair → BatchItemResult
unfolding item_of_status
item_of_pair p = elim p.outcome [
  | ok r ↦ item_of_status (verdict r).status p.source p.receipt r
  | err e ↦ BatchItemResult.errored p.source (some p.receipt) e
]

-- What the loop pushes to `consistency_candidates` for a pair.
candidate : Pair → Option SingleVerificationResult
candidate p = elim p.outcome [
  | ok r ↦ elim (verdict r).status [ Status.valid ↦ some r | Status.untrusted ↦ some r | _ ↦ none ]
  | err _ ↦ none
]

unfoldable pub candidates : List Pair → List SingleVerificationResult
unfolding candidate
candidates [] = []
candidates (p ∷ ps) =
    let rest = candidates ps in elim (candidate p) [ none ↦ rest | some r ↦ r ∷ rest ]

-- What is left of a batch's directories after the pairing: the entries that could not be read, and
-- the files without a partner.
pub record Leftovers : Type 0 where
  pub unreadable : List (String × CliError)
  pub unmatched_sources : List String
  pub unmatched_receipts : List String

unfoldable pub batch_items : List Pair → Leftovers → List BatchItemResult
unfolding item_of_pair
batch_items pairs left =
    map item_of_pair pairs
    ++ (map (λ (path, error). BatchItemResult.errored path none error) left.unreadable
        ++ (map BatchItemResult.no_receipt left.unmatched_sources
            ++ map BatchItemResult.no_source left.unmatched_receipts))

unfoldable pub is_unmatched : BatchItemResult → Bool
is_unmatched (BatchItemResult.no_receipt _) = true
is_unmatched (BatchItemResult.no_source _) = true
is_unmatched _ = false

unfoldable pub batch_consistency :
    CrossServices → List SingleVerificationResult → Option ConsistencyResult
unfolding verify_consistency
batch_consistency s rs =
    let participants = filter (λ r. is_some r.receipt.super_proof) rs in
    if leb 2 (length participants) then some (verify_consistency s participants) else none

-- `verify_batch` after the pairing of the files.
unfoldable pub collect_batch :
    CrossServices → List Pair → Leftovers → AnchorPolicy → BatchVerificationResult
unfolding batch_items count_items batch_consistency candidates is_unmatched
collect_batch s pairs left policy =
    let items = batch_items pairs left in
    let counters = count_items items no_counters in
    record {
      items = items;
      consistency = batch_consistency s (candidates pairs);
      valid_count = counters.valid_count;
      unanchored_count = counters.unanchored_count;
      untrusted_count = counters.untrusted_count;
      invalid_count = counters.invalid_count;
      error_count = counters.error_count;
      unmatched_count = count_if is_unmatched items;
      policy = policy;
    }
