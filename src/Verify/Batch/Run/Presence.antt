-- ===== src/Verify/Batch/Run/Presence.antt =====
-- Which items of a batch (src/verify/batch.rs) say that nothing is missing.
use atl_cli.Prelude.{String, true, Option, List, [], ◌∷◌, ◌++◌, ◌≡◌, refl, map, All, Result, ok}
use atl_cli.Error.{CliError}
use atl_cli.Files.{path_file_name}
use atl_cli.Verify.Verdict.{Status}
use atl_cli.Verify.Single.{SingleVerificationResult, verdict}
use atl_cli.Verify.Batch.{BatchItemResult, item_of_status}
use atl_cli.Verify.Batch.Counts.{is_valid_item}
use atl_cli.Verify.Batch.Honest.{item_of_status-valid}
use atl_cli.Verify.Batch.Matching.{source_name}
use atl_cli.Verify.Batch.Matching.Pairing.{listed}

-- The receipt for a source file, and the result of its verification, of which a property is known.
pub record IsVerified (P : SingleVerificationResult → Type 0) (receipts : List String)
    (verify : String → String → Result CliError SingleVerificationResult) (source : String)
    : Type 0 where
  pub receipt : String
  pub named : source_name receipt ≡ path_file_name source
  pub present : listed receipt receipts ≡ true
  pub result : SingleVerificationResult
  pub verified : verify source receipt ≡ ok result
  pub known : P result

-- The items that do not say that something is missing: an item that was not read, or has no partner, is
-- no such item, and one of a verified pair has a result with the property.
pub record IsPresence (Good : BatchItemResult → Type 0) (P : SingleVerificationResult → Type 0)
    : Type 0 where
  pub not_errored :
      (s : String) (r : Option String) (e : CliError) → ¬ Good (BatchItemResult.errored s r e)
  pub not_receipt : (path : String) → ¬ Good (BatchItemResult.no_receipt path)
  pub not_source : (path : String) → ¬ Good (BatchItemResult.no_source path)
  pub of_status :
      (source receipt : String) (r : SingleVerificationResult)
      → Good (item_of_status (verdict r).status source receipt r)
      → P r

pub All-split :
    {A : Type 0} (P : A → Type 0) (xs ys : List A) → All P (xs ++ ys) → All P xs × All P ys
All-split P [] ys h = (tt, h)
All-split P (x ∷ xs) ys (p, h) = ((p, (All-split P xs ys h).0), (All-split P xs ys h).1)

pub none_good :
    {A : Type 0} (Good : BatchItemResult → Type 0) (f : A → BatchItemResult) (xs : List A)
    → ((x : A) → ¬ Good (f x))
    → All Good (map f xs)
    → xs ≡ []
none_good Good f [] h v = refl
none_good Good f (x ∷ xs) h v = absurd (h x v.0)

pub valid-IsPresence :
    IsPresence (λ item. is_valid_item item ≡ true) (λ r. (verdict r).status ≡ Status.valid)
valid-IsPresence = record {
  not_errored = λ s r e h. cc;
  not_receipt = λ path h. cc;
  not_source = λ path h. cc;
  of_status = λ source receipt r h. item_of_status-valid (verdict r).status source receipt r h;
}
