-- ===== src/Verify/Batch/Reclassify.antt =====
-- What `reclassify` of src/verify/batch.rs changes: nothing in a batch as it comes from
-- `verify_batch`, and never more than the anchors' results call for.
use atl_cli.Prelude.{
  sym, All-append, String, false, none, List, [], ◌∷◌, ◌≡◌, refl, ◌∙◌, Bool-cases, inl, inr, arith,
  map, length, length-map, count_if, All, Result, ok, err,
}
use atl_cli.Error.{CliError}
use atl_cli.Verify.Verdict.{Status}
use atl_cli.Verify.Policy.{AnchorPolicy}
use atl_cli.Verify.Single.{SingleVerificationResult, verdict, presents_no_anchors}
use atl_cli.Verify.Consistency.{CrossServices}
use atl_cli.Verify.Batch.{
  BatchItemResult, BatchVerificationResult, no_counters, Pair, Leftovers, item_of_status,
  item_of_pair, reclassified, reclassify, batch_items, collect_batch, is_unmatched,
}
use atl_cli.Verify.Batch.Counts.{IsCounted, count_items-counts}

-- The bucket of an item whose receipt was loaded does not depend on the paths that an error would
-- name, and is kept when it is sorted again.
reclassified-sorted :
    (status : Status) (source receipt : String) (r : SingleVerificationResult)
    → (verdict r).status ≡ status
    → reclassified (item_of_status status source receipt r) ≡ item_of_status status source receipt r
unfolding reclassified item_of_status
reclassified-sorted Status.valid source receipt r e = rw (e) refl
reclassified-sorted Status.untrusted source receipt r e =
    elim (Bool-cases (presents_no_anchors r)) [
      | inl lite ↦ rw (lite, e, lite) refl
      | inr full ↦ rw (full, e, full) refl
    ]
reclassified-sorted Status.invalid source receipt r e = rw (e) refl
reclassified-sorted Status.error source receipt r e = refl

sorted_outcome :
    (source receipt : String) (o : Result CliError SingleVerificationResult)
    → reclassified (item_of_pair (record { source = source; receipt = receipt; outcome = o }))
      ≡ item_of_pair (record { source = source; receipt = receipt; outcome = o })
unfolding item_of_pair reclassified
sorted_outcome source receipt (ok r) = reclassified-sorted (verdict r).status source receipt r refl
sorted_outcome source receipt (err e) = refl

map_fixed :
    (items : List BatchItemResult)
    → All (λ item. reclassified item ≡ item) items
    → map reclassified items ≡ items
map_fixed [] h = refl
map_fixed (item ∷ items) h = rw (h.0, map_fixed items h.1) refl

map-All {ℓ κ} :
    {A : Type ℓ} {B : Type κ} (P : B → Type 0) (f : A → B) (xs : List A)
    → ((x : A) → P (f x))
    → All P (map f xs)
map-All P f [] h = tt
map-All P f (x ∷ xs) h = (h x, map-All P f xs h)

abbrev pub IsSorted : BatchItemResult → Type 0
IsSorted item = reclassified item ≡ item

pub batch_items-IsSorted :
    (pairs : List Pair) (left : Leftovers) → All IsSorted (batch_items pairs left)
unfolding batch_items reclassified
batch_items-IsSorted pairs left =
    All-append IsSorted (map item_of_pair pairs) _
      (map-All IsSorted item_of_pair pairs (λ p. sorted_outcome p.source p.receipt p.outcome))
      (All-append IsSorted
        (map (λ (path, error). BatchItemResult.errored path none error) left.unreadable) _
        (map-All IsSorted _ left.unreadable (λ e. refl))
        (All-append IsSorted (map BatchItemResult.no_receipt left.unmatched_sources) _
          (map-All IsSorted _ left.unmatched_sources (λ path. refl))
          (map-All IsSorted _ left.unmatched_receipts (λ path. refl))))

-- A batch whose receipts have not changed since `verify_batch` is not changed by `reclassify`.
pub reclassify-collect_batch :
    (s : CrossServices) (pairs : List Pair) (left : Leftovers) (policy : AnchorPolicy)
    → reclassify (collect_batch s pairs left policy) ≡ collect_batch s pairs left policy
unfolding reclassify collect_batch
reclassify-collect_batch s pairs left policy =
    rw (map_fixed (batch_items pairs left) (batch_items-IsSorted pairs left)) refl

sorted_matched :
    (status : Status) (source receipt : String) (r : SingleVerificationResult)
    → is_unmatched (item_of_status status source receipt r) ≡ false
unfolding is_unmatched item_of_status
sorted_matched Status.valid source receipt r = refl
sorted_matched Status.error source receipt r = refl
sorted_matched Status.invalid source receipt r = refl
sorted_matched Status.untrusted source receipt r = ground arith

is_unmatched-reclassified :
    (item : BatchItemResult) → is_unmatched (reclassified item) ≡ is_unmatched item
unfolding reclassified is_unmatched
is_unmatched-reclassified (BatchItemResult.valid r) = sorted_matched _ _ _ r
is_unmatched-reclassified (BatchItemResult.unanchored r) = sorted_matched _ _ _ r
is_unmatched-reclassified (BatchItemResult.untrusted r) = sorted_matched _ _ _ r
is_unmatched-reclassified (BatchItemResult.invalid r) = sorted_matched _ _ _ r
is_unmatched-reclassified (BatchItemResult.errored source receipt e) = refl
is_unmatched-reclassified (BatchItemResult.no_receipt path) = refl
is_unmatched-reclassified (BatchItemResult.no_source path) = refl

unmatched-reclassified :
    (items : List BatchItemResult)
    → count_if is_unmatched (map reclassified items) ≡ count_if is_unmatched items
unmatched-reclassified [] = refl
unmatched-reclassified (item ∷ items) =
    rw (is_unmatched-reclassified item, unmatched-reclassified items) refl

-- After `reclassify` every counter counts the items of its kind, and no file has been lost.
pub reclassify-IsCounted :
    (b : BatchVerificationResult)
    → b.unmatched_count ≡ count_if is_unmatched b.items
    → IsCounted (reclassify b) × (length (reclassify b).items ≡ length b.items)
unfolding reclassify
reclassify-IsCounted b h =
    let items = map reclassified b.items in
    let n = count_items-counts items no_counters in
    (
      record {
        valid = omega (arith, n.0);
        unanchored = omega (arith, n.1);
        untrusted = omega (arith, n.2);
        invalid = omega (arith, n.3);
        error = omega (arith, n.4);
        unmatched = h ∙ sym (unmatched-reclassified b.items);
      },
      length-map b.items reclassified,
    )
