-- ===== src/Verify/Batch/Honest.antt =====
-- Items of a batch (src/verify/batch.rs) that are filed as valid, and the verdicts on their receipts.
use atl_cli.Prelude.{String, true, List, [], ◌∷◌, ◌≡◌, refl, subst, arith, map, All, All-map}
use atl_cli.Verify.Verdict.{Status}
use atl_cli.Verify.Policy.{AnchorPolicy}
use atl_cli.Verify.Single.{SingleVerificationResult, verdict}
use atl_cli.Verify.Consistency.{CrossServices}
use atl_cli.Verify.Batch.{
  BatchItemResult, Pair, Leftovers, item_of_status, reclassified, batch_items, collect_batch,
}
use atl_cli.Verify.Batch.Counts.{is_valid_item}
use atl_cli.Verify.Batch.Reclassify.{IsSorted, batch_items-IsSorted}

-- An item that is filed as valid, of a receipt whose verdict is valid.
abbrev pub IsValidReceipt : BatchItemResult → Type 0
IsValidReceipt (BatchItemResult.valid r) = (verdict r).status ≡ Status.valid
IsValidReceipt _ = ⊥

-- An item that, if it is filed as valid, is of a receipt whose verdict is valid.
abbrev pub IsHonest : BatchItemResult → Type 0
IsHonest (BatchItemResult.valid r) = (verdict r).status ≡ Status.valid
IsHonest _ = Unit

pub item_of_status-valid :
    (status : Status) (source receipt : String) (r : SingleVerificationResult)
    → is_valid_item (item_of_status status source receipt r) ≡ true
    → status ≡ Status.valid
unfolding item_of_status
item_of_status-valid Status.valid source receipt r h = refl
item_of_status-valid Status.error source receipt r h = cc
item_of_status-valid Status.untrusted source receipt r h = ground arith
item_of_status-valid Status.invalid source receipt r h = cc

pub valid-is_valid_item : (item : BatchItemResult) → IsValidReceipt item → is_valid_item item ≡ true
valid-is_valid_item (BatchItemResult.valid r) h = refl
valid-is_valid_item (BatchItemResult.unanchored r) h = absurd h
valid-is_valid_item (BatchItemResult.untrusted r) h = absurd h
valid-is_valid_item (BatchItemResult.invalid r) h = absurd h
valid-is_valid_item (BatchItemResult.errored _ _ _) h = absurd h
valid-is_valid_item (BatchItemResult.no_receipt _) h = absurd h
valid-is_valid_item (BatchItemResult.no_source _) h = absurd h

honest_valid :
    (item : BatchItemResult) → IsHonest item → is_valid_item item ≡ true → IsValidReceipt item
honest_valid (BatchItemResult.valid r) h v = h
honest_valid (BatchItemResult.unanchored r) h v = cc
honest_valid (BatchItemResult.untrusted r) h v = cc
honest_valid (BatchItemResult.invalid r) h v = cc
honest_valid (BatchItemResult.errored _ _ _) h v = cc
honest_valid (BatchItemResult.no_receipt _) h v = cc
honest_valid (BatchItemResult.no_source _) h v = cc

pub items_valid :
    (items : List BatchItemResult)
    → All IsHonest items
    → All (λ item. is_valid_item item ≡ true) items
    → All IsValidReceipt items
items_valid [] h v = tt
items_valid (item ∷ items) h v = (honest_valid item h.0 v.0, items_valid items h.1 v.1)

-- What is filed by the verdict on its receipt is honest.
item_of_status-IsHonest :
    (status : Status) (source receipt : String) (r : SingleVerificationResult)
    → (verdict r).status ≡ status
    → IsHonest (item_of_status status source receipt r)
unfolding item_of_status
item_of_status-IsHonest Status.valid source receipt r e = e
item_of_status-IsHonest Status.error source receipt r e = tt
item_of_status-IsHonest Status.untrusted source receipt r e = ground arith
item_of_status-IsHonest Status.invalid source receipt r e = tt

pub reclassified-IsHonest : (item : BatchItemResult) → IsHonest (reclassified item)
unfolding reclassified
reclassified-IsHonest (BatchItemResult.valid r) = item_of_status-IsHonest _ _ _ r refl
reclassified-IsHonest (BatchItemResult.unanchored r) = item_of_status-IsHonest _ _ _ r refl
reclassified-IsHonest (BatchItemResult.untrusted r) = item_of_status-IsHonest _ _ _ r refl
reclassified-IsHonest (BatchItemResult.invalid r) = item_of_status-IsHonest _ _ _ r refl
reclassified-IsHonest (BatchItemResult.errored _ _ _) = tt
reclassified-IsHonest (BatchItemResult.no_receipt _) = tt
reclassified-IsHonest (BatchItemResult.no_source _) = tt

pub items-IsHonest : (items : List BatchItemResult) → All IsHonest (map reclassified items)
items-IsHonest [] = tt
items-IsHonest (item ∷ items) = (reclassified-IsHonest item, items-IsHonest items)

sorted-IsHonest : (item : BatchItemResult) → IsSorted item → IsHonest item
sorted-IsHonest item e = subst IsHonest e (reclassified-IsHonest item)

pub collect_batch-IsHonest :
    (s : CrossServices) (pairs : List Pair) (left : Leftovers) (policy : AnchorPolicy)
    → All IsHonest (collect_batch s pairs left policy).items
unfolding collect_batch
collect_batch-IsHonest s pairs left policy =
    All-map (batch_items pairs left) sorted-IsHonest (batch_items-IsSorted pairs left)
