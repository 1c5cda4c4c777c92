-- ===== src/Verify/Batch/Counts.antt =====
-- What the counters of a batch (src/verify/batch.rs) count, and what its verdict says of its items.
use atl_cli.Prelude.{
  ℕ, ◌+◌, ◌<◌, Bool, true, false, some, List, [], ◌∷◌, ◌≡◌, ◌↔◌, ◌⊎◌, refl, arith, length, count_if,
  All, is_empty,
}
use atl_cli.Verify.Verdict.{ReasonCode, Status, is_valid}
use atl_cli.Verify.Policy.{AnchorPolicy}
use atl_cli.Verify.Consistency.{CrossServices}
use atl_cli.Verify.Batch.{
  BatchItemResult, BatchVerificationResult, Counters, no_counters, counted, count_items, Pair,
  Leftovers, batch_items, collect_batch, batch_verdict, inconsistent, total_count, is_unmatched,
}

abbrev pub is_valid_item : BatchItemResult → Bool
is_valid_item (BatchItemResult.valid _) = true
is_valid_item _ = false

abbrev pub is_unanchored_item : BatchItemResult → Bool
is_unanchored_item (BatchItemResult.unanchored _) = true
is_unanchored_item _ = false

abbrev pub is_untrusted_item : BatchItemResult → Bool
is_untrusted_item (BatchItemResult.untrusted _) = true
is_untrusted_item _ = false

abbrev pub is_invalid_item : BatchItemResult → Bool
is_invalid_item (BatchItemResult.invalid _) = true
is_invalid_item _ = false

abbrev pub is_error_item : BatchItemResult → Bool
is_error_item (BatchItemResult.errored _ _ _) = true
is_error_item _ = false

-- Every counter of a batch counts the items of its kind.
pub record IsCounted (b : BatchVerificationResult) : Type 0 where
  pub valid : b.valid_count ≡ count_if is_valid_item b.items
  pub unanchored : b.unanchored_count ≡ count_if is_unanchored_item b.items
  pub untrusted : b.untrusted_count ≡ count_if is_untrusted_item b.items
  pub invalid : b.invalid_count ≡ count_if is_invalid_item b.items
  pub error : b.error_count ≡ count_if is_error_item b.items
  pub unmatched : b.unmatched_count ≡ count_if is_unmatched b.items

pub count_items-counts :
    (items : List BatchItemResult) (n : Counters)
    → ((count_items items n).valid_count ≡ n.valid_count + count_if is_valid_item items)
      × ((count_items items n).unanchored_count
          ≡ n.unanchored_count + count_if is_unanchored_item items)
      × ((count_items items n).untrusted_count
          ≡ n.untrusted_count + count_if is_untrusted_item items)
      × ((count_items items n).invalid_count ≡ n.invalid_count + count_if is_invalid_item items)
      × ((count_items items n).error_count ≡ n.error_count + count_if is_error_item items)
unfolding count_items counted
count_items-counts [] n = omega arith
count_items-counts (BatchItemResult.valid r ∷ items) n =
    ground (arith, count_items-counts items (counted (BatchItemResult.valid r) n))
count_items-counts (item ∷ items) n = ground (arith, count_items-counts items (counted item n))

-- The six counters of a batch account for every item.
total_kinds :
    (items : List BatchItemResult)
    → count_if is_valid_item items
        + count_if is_unanchored_item items
        + count_if is_untrusted_item items
        + count_if is_invalid_item items
        + count_if is_error_item items
        + count_if is_unmatched items
      ≡ length items
unfolding is_unmatched
total_kinds [] = refl
total_kinds (item ∷ items) = ground (arith, total_kinds items)

pub collect_batch-IsCounted :
    (s : CrossServices) (pairs : List Pair) (left : Leftovers) (policy : AnchorPolicy)
    → IsCounted (collect_batch s pairs left policy)
unfolding collect_batch
collect_batch-IsCounted s pairs left policy =
    let items = batch_items pairs left in
    let h = count_items-counts items no_counters in
    record {
      valid = omega (arith, h.0);
      unanchored = omega (arith, h.1);
      untrusted = omega (arith, h.2);
      invalid = omega (arith, h.3);
      error = omega (arith, h.4);
      unmatched = refl;
    }

pub total_count-IsCounted :
    (b : BatchVerificationResult) → IsCounted b → total_count b ≡ length b.items
unfolding total_count
total_count-IsCounted b h = ground (arith, total_kinds b.items)

others : List BatchItemResult → ℕ
others items =
    count_if is_unanchored_item items
    + count_if is_untrusted_item items
    + count_if is_invalid_item items
    + count_if is_error_item items
    + count_if is_unmatched items

others_iff :
    (items : List BatchItemResult)
    → All (λ item. is_valid_item item ≡ true) items ↔ (others items ≡ 0)
unfolding others is_unmatched
others_iff [] = ground arith
others_iff (item ∷ items) = ground (arith, others_iff items)

is_empty_iff : (items : List BatchItemResult) → (is_empty items ≡ false) ↔ (0 < length items)
is_empty_iff [] = ground arith
is_empty_iff (item ∷ items) = ground arith

-- A batch is valid exactly if it has an item, every item is a valid receipt, and no log instance
-- contradicts itself.
pub batch_verdict-valid_iff :
    (b : BatchVerificationResult)
    → IsCounted b
    → (is_valid (batch_verdict b) ≡ true) ↔ (
        (is_empty b.items ≡ false)
        × All (λ item. is_valid_item item ≡ true) b.items
        × (inconsistent b.consistency ≡ false))
unfolding batch_verdict others
batch_verdict-valid_iff b h =
    ground (arith, others_iff b.items, is_empty_iff b.items, total_kinds b.items)

-- A batch is invalid exactly if some item is an invalid receipt or some log instance contradicts
-- itself, whatever else could not be checked.
pub batch_verdict-invalid_iff :
    (b : BatchVerificationResult)
    → IsCounted b
    → ((batch_verdict b).status ≡ Status.invalid)
      ↔ ((0 < count_if is_invalid_item b.items) ⊎ (inconsistent b.consistency ≡ true))
unfolding batch_verdict
batch_verdict-invalid_iff b h = ground (arith, h.invalid)

-- The verdict says that nothing was verified only of a batch without any file.
pub nothing_verified-empty :
    (b : BatchVerificationResult)
    → IsCounted b
    → (batch_verdict b).reason_code ≡ some ReasonCode.batch_nothing_verified
    → length b.items ≡ 0
unfolding batch_verdict
nothing_verified-empty b h e = ground (arith, total_kinds b.items)
