-- ===== src/Output/Json/Rows.antt =====
-- How the rows of the JSON output for a batch (src/output/json.rs) go with its summary.
use atl_cli.Prelude.{
  ◌+◌, String, str_eq, Bool, true, ◌||◌, List, [], ◌∷◌, map, count_if, length, length-map, All, ◌≡◌,
  refl, arith,
}
use atl_cli.Cli.{VerificationMode}
use atl_cli.Verify.Verdict.{Status}
use atl_cli.Verify.Verdict.Codes.{status_str}
use atl_cli.Verify.Single.{SingleVerificationResult, verdict}
use atl_cli.Verify.Batch.{BatchItemResult, BatchVerificationResult, item_of_status, reclassified}
use atl_cli.Verify.Batch.Counts.{
  IsCounted, is_valid_item, is_unanchored_item, is_untrusted_item, is_invalid_item, is_error_item,
  total_count-IsCounted,
}
use atl_cli.Output.Json.{Formats}
use atl_cli.Output.Json.Batch.{
  BatchItemJson, batch_item_json, bare_row, item_json, batch_result_json,
}

abbrev pub has_status : String → BatchItemJson → Bool
has_status word row = str_eq row.status word

-- How the words of the rows go with the bucket of an item.
record IsWorded (formats : Formats) (item : BatchItemResult) : Type 0 where
  pub valid : has_status "valid" (item_json formats item) ≡ is_valid_item item
  pub untrusted :
      has_status "untrusted" (item_json formats item)
      ≡ (is_unanchored_item item || is_untrusted_item item)
  pub invalid : has_status "invalid" (item_json formats item) ≡ is_invalid_item item
  pub error : has_status "error" (item_json formats item) ≡ is_error_item item

-- The status of a verified item is the one that its bucket is for.
bucket_status :
    (status : Status) (source receipt : String) (r : SingleVerificationResult)
    (item : BatchItemResult)
    → item_of_status status source receipt r ≡ item
    → (is_valid_item item ≡ true → status ≡ Status.valid)
      × (is_unanchored_item item ≡ true → status ≡ Status.untrusted)
      × (is_untrusted_item item ≡ true → status ≡ Status.untrusted)
      × (is_invalid_item item ≡ true → status ≡ Status.invalid)
unfolding item_of_status
bucket_status Status.valid source receipt r item e = ground arith
bucket_status Status.error source receipt r item e = ground arith
bucket_status Status.untrusted source receipt r item e = ground arith
bucket_status Status.invalid source receipt r item e = ground arith

item_json-IsWorded :
    (formats : Formats) (item : BatchItemResult) → reclassified item ≡ item → IsWorded formats item
unfolding item_json batch_item_json bare_row reclassified status_str
item_json-IsWorded formats (BatchItemResult.valid r) e =
    let s = (bucket_status (verdict r).status r.source_path r.receipt_path r _ e).0 refl in
    record {
      valid = rw (s) refl;
      untrusted = rw (s) refl;
      invalid = rw (s) refl;
      error = rw (s) refl;
    }
item_json-IsWorded formats (BatchItemResult.unanchored r) e =
    let s = (bucket_status (verdict r).status r.source_path r.receipt_path r _ e).1 refl in
    record {
      valid = rw (s) refl;
      untrusted = rw (s) refl;
      invalid = rw (s) refl;
      error = rw (s) refl;
    }
item_json-IsWorded formats (BatchItemResult.untrusted r) e =
    let s = (bucket_status (verdict r).status r.source_path r.receipt_path r _ e).2 refl in
    record {
      valid = rw (s) refl;
      untrusted = rw (s) refl;
      invalid = rw (s) refl;
      error = rw (s) refl;
    }
item_json-IsWorded formats (BatchItemResult.invalid r) e =
    let s = (bucket_status (verdict r).status r.source_path r.receipt_path r _ e).3 refl in
    record {
      valid = rw (s) refl;
      untrusted = rw (s) refl;
      invalid = rw (s) refl;
      error = rw (s) refl;
    }
item_json-IsWorded formats (BatchItemResult.errored _ _ _) e = record {
  valid = refl;
  untrusted = refl;
  invalid = refl;
  error = refl;
}
item_json-IsWorded formats (BatchItemResult.no_receipt _) e = record {
  valid = refl;
  untrusted = refl;
  invalid = refl;
  error = refl;
}
item_json-IsWorded formats (BatchItemResult.no_source _) e = record {
  valid = refl;
  untrusted = refl;
  invalid = refl;
  error = refl;
}

-- The rows of a list of items, counted by their words.
rows-count :
    (formats : Formats) (items : List BatchItemResult)
    → All (λ item. reclassified item ≡ item) items
    → (count_if (has_status "valid") (map (item_json formats) items) ≡ count_if is_valid_item items)
      × (count_if (has_status "untrusted") (map (item_json formats) items)
          ≡ count_if is_unanchored_item items + count_if is_untrusted_item items)
      × (count_if (has_status "invalid") (map (item_json formats) items)
          ≡ count_if is_invalid_item items)
      × (count_if (has_status "error") (map (item_json formats) items)
          ≡ count_if is_error_item items)
rows-count formats [] h = omega arith
rows-count formats (item ∷ items) h =
    ground (arith, item_json-IsWorded formats item h.0, rows-count formats items h.1)

-- In the document for a batch whose items are in the buckets of their verdicts and are counted, the rows
-- with each word are as many as the summary says, and there is a row for every item of the total.
pub batch_json-rows :
    (formats : Formats) (b : BatchVerificationResult) (mode : VerificationMode)
    (source_dir receipt_dir : String)
    → IsCounted b
    → All (λ item. reclassified item ≡ item) b.items
    → let doc = batch_result_json formats b mode source_dir receipt_dir in
      (count_if (has_status "valid") doc.items ≡ doc.summary.valid)
      × (count_if (has_status "untrusted") doc.items
          ≡ doc.summary.unanchored + doc.summary.untrusted)
      × (count_if (has_status "invalid") doc.items ≡ doc.summary.invalid)
      × (count_if (has_status "error") doc.items ≡ doc.summary.errors)
      × (length doc.items ≡ doc.summary.total)
unfolding batch_result_json
batch_json-rows formats b mode source_dir receipt_dir counted filed =
    let rows = rows-count formats b.items filed in
    (
      omega (arith, rows.0, counted.valid),
      omega (arith, rows.1, counted.unanchored, counted.untrusted),
      omega (arith, rows.2, counted.invalid),
      omega (arith, rows.3, counted.error),
      omega (arith, length-map b.items (item_json formats), total_count-IsCounted b counted),
    )
