-- ===== src/Verify/Batch/Run/Complete.antt =====
-- What a batch verdict of src/verify/batch.rs says of the files of the two directories.
use atl_cli.Prelude.{
  ◌+◌, String, true, Option, none, some, List, [], ◌∷◌, ◌≡◌, refl, ap, ◌∙◌, arith, map, length, All,
  All-append, All-Permᴰ, length-append, length-map, length-Permᴰ, Result, ok, err, Ensures,
  Ensures-bind, Ensures-ok,
}
use atl_cli.Core.{AtlCore}
use atl_cli.Error.{CliError}
use atl_cli.Files.{Files}
use atl_cli.Verify.Verdict.{Status, is_valid}
use atl_cli.Verify.Anchor.Prose.{Rendering}
use atl_cli.Verify.File.{Sha256}
use atl_cli.Verify.Policy.{AnchorPolicy}
use atl_cli.Verify.Single.{SingleVerificationResult, verdict}
use atl_cli.Verify.Single.Load.{verify_single}
use atl_cli.Verify.Consistency.{CrossServices}
use atl_cli.Verify.Batch.{
  BatchItemResult, BatchVerificationResult, Pair, item_of_pair, batch_items, collect_batch,
  batch_verdict, total_count,
}
use atl_cli.Verify.Batch.Counts.{
  IsCounted, is_valid_item, collect_batch-IsCounted, total_count-IsCounted, batch_verdict-valid_iff,
}
use atl_cli.Verify.Batch.Honest.{IsHonest, collect_batch-IsHonest}
use atl_cli.Verify.Batch.Matching.{UnreadableEntry, FileMatching, match_files_to_receipts}
use atl_cli.Verify.Batch.Matching.Pairing.{IsPair, sources_of}
use atl_cli.Verify.Batch.Matching.Walks.{ListsNames, IsSurvey, match_files_to_receipts-IsSurvey}
use atl_cli.Verify.Batch.Run.Presence.{
  IsVerified, IsPresence, All-split, none_good, valid-IsPresence,
}
use atl_cli.Verify.Batch.Run.{verify_pair, leftovers, verify_batch}

module _ (core : AtlCore) (fs : Files) (sha : Sha256) (render : Rendering)
    (trust_store : Option core.TrustStore) (policy : AnchorPolicy) where
  abbrev verify : String → String → Result CliError SingleVerificationResult
  verify source receipt = verify_single core fs sha render source receipt trust_store policy

  abbrev pairs : List (String × String) → List Pair
  pairs ms = map (verify_pair core fs sha render trust_store policy) ms

  -- What is known of the two directories of a batch in which nothing is missing.
  pub record IsComplete (P : SingleVerificationResult → Type 0) (source_dir receipt_dir : String)
      : Type 0 where
    pub matching : FileMatching
    pub survey : IsSurvey fs source_dir receipt_dir matching
    pub all_read : matching.unreadable ≡ []
    pub all_used : matching.unmatched_receipts ≡ []
    pub all_verified : All (IsVerified P survey.receipts.files verify) survey.sources.files

  module _ (Good : BatchItemResult → Type 0) (P : SingleVerificationResult → Type 0)
      (presence : IsPresence Good P) where
    item-IsVerified :
        (receipts : List String) (source receipt : String)
        (outcome : Result CliError SingleVerificationResult)
        → IsPair receipts (source, receipt)
        → verify source receipt ≡ outcome
        → Good (item_of_pair (record { source = source; receipt = receipt; outcome = outcome }))
        → IsVerified P receipts verify source
    unfolding item_of_pair
    item-IsVerified receipts source receipt (ok r) (_, named, present) e h = record {
      receipt = receipt;
      named = named;
      present = present;
      result = r;
      verified = e;
      known = presence.of_status source receipt r h;
    }
    item-IsVerified receipts source receipt (err failure) p e h =
        absurd (presence.not_errored source (some receipt) failure h)

    items-IsVerified :
        (receipts : List String) (ms : List (String × String))
        → All (IsPair receipts) ms
        → All Good (map item_of_pair (pairs ms))
        → All (IsVerified P receipts verify) (sources_of ms)
    unfolding verify_pair
    items-IsVerified receipts [] h v = tt
    items-IsVerified receipts ((source, receipt) ∷ ms) h v = (
      item-IsVerified receipts source receipt (verify source receipt) h.0 refl v.0,
      items-IsVerified receipts ms h.1 v.1,
    )

    none_unread :
        (xs : List UnreadableEntry)
        → All Good (
            map
              (λ (path, error). BatchItemResult.errored path none error)
              (map (λ (e : UnreadableEntry). (e.path, e.error)) xs))
        → xs ≡ []
    none_unread [] h = refl
    none_unread (x ∷ xs) h = absurd (presence.not_errored x.path none x.error h.0)

    complete :
        (source_dir receipt_dir : String) (m : FileMatching)
        → IsSurvey fs source_dir receipt_dir m
        → All Good
            (batch_items (pairs m.matched) (leftovers core fs sha render trust_store policy m))
        → IsComplete P source_dir receipt_dir
    unfolding batch_items leftovers
    complete source_dir receipt_dir m s v =
        let verified = IsVerified P s.receipts.files verify in
        let pieces = All-split Good (map item_of_pair (pairs m.matched)) _ v in
        let walked =
          All-split Good
            (map (λ (path, error). BatchItemResult.errored path none error)
              (map (λ (e : UnreadableEntry). (e.path, e.error)) m.unreadable))
            _ pieces.1 in
        let unpaired =
          All-split Good (map BatchItemResult.no_receipt m.unmatched_sources) _ walked.1 in
        let none_alone =
          none_good Good BatchItemResult.no_receipt m.unmatched_sources presence.not_receipt
            unpaired.0 in
        record {
          matching = m;
          survey = s;
          all_read = none_unread m.unreadable walked.0;
          all_used =
              none_good Good BatchItemResult.no_source m.unmatched_receipts presence.not_source
                unpaired.1;
          all_verified = All-Permᴰ verified s.matching.sources_placed (
              All-append verified (sources_of m.matched) m.unmatched_sources
                (items-IsVerified s.receipts.files m.matched s.matching.pairs_named pieces.0)
                (rw (none_alone) tt));
        }

    -- A batch whose items say that nothing is missing leaves no file of its directories out.
    pub verify_batch-IsComplete :
        (cross : CrossServices) (source_dir receipt_dir : String) (b : BatchVerificationResult)
        → ListsNames fs
        → verify_batch core fs sha render trust_store policy cross source_dir receipt_dir ≡ ok b
        → All Good b.items
        → IsComplete P source_dir receipt_dir
    unfolding verify_batch collect_batch
    verify_batch-IsComplete cross source_dir receipt_dir b names h good =
        Ensures-ok (λ c. All Good c.items → IsComplete P source_dir receipt_dir)
          (Ensures-bind _ (match_files_to_receipts fs source_dir receipt_dir) _ λ m matched good.
            complete source_dir receipt_dir m
              (Ensures-ok (IsSurvey fs source_dir receipt_dir)
                (match_files_to_receipts-IsSurvey fs source_dir receipt_dir names) matched)
              good)
          h good

  pub verify_batch-IsCounted :
      (cross : CrossServices) (source_dir receipt_dir : String)
      → Ensures IsCounted
          (verify_batch core fs sha render trust_store policy cross source_dir receipt_dir)
  unfolding verify_batch
  verify_batch-IsCounted cross source_dir receipt_dir =
      Ensures-bind IsCounted (match_files_to_receipts fs source_dir receipt_dir) _ λ m _.
        collect_batch-IsCounted cross (pairs m.matched)
          (leftovers core fs sha render trust_store policy m) policy

  -- What `verify_batch` files as valid has a valid verdict.
  pub verify_batch-IsHonest :
      (cross : CrossServices) (source_dir receipt_dir : String)
      → Ensures
          (λ b. All IsHonest b.items)
          (verify_batch core fs sha render trust_store policy cross source_dir receipt_dir)
  unfolding verify_batch
  verify_batch-IsHonest cross source_dir receipt_dir =
      Ensures-bind (λ b. All IsHonest b.items) (match_files_to_receipts fs source_dir receipt_dir) _
        λ m _.
          collect_batch-IsHonest cross (pairs m.matched)
            (leftovers core fs sha render trust_store policy m) policy

  -- Where listings name their entries, a batch is found valid only if every file that the source
  -- directory lists, but those with the extension of receipts, is verified against a receipt of its name
  -- that the receipt directory lists, and its verdict is valid, if no receipt there is left over, and if
  -- no entry of either listing could not be read.
  pub valid_batch_is_complete :
      (cross : CrossServices) (source_dir receipt_dir : String) (b : BatchVerificationResult)
      → ListsNames fs
      → verify_batch core fs sha render trust_store policy cross source_dir receipt_dir ≡ ok b
      → is_valid (batch_verdict b) ≡ true
      → IsComplete (λ r. (verdict r).status ≡ Status.valid) source_dir receipt_dir
  valid_batch_is_complete cross source_dir receipt_dir b names h valid =
      let counted = Ensures-ok IsCounted (verify_batch-IsCounted cross source_dir receipt_dir) h in
      verify_batch-IsComplete (λ item. is_valid_item item ≡ true)
        (λ r. (verdict r).status ≡ Status.valid) valid-IsPresence cross source_dir receipt_dir b
        names h ((batch_verdict-valid_iff b counted).0 valid).1

  -- Where listings name their entries, the total of a batch is the number of the files that the source
  -- directory lists, but those with the extension of receipts, of the receipts listed in the receipt
  -- directory that are in no pair of the matching, and of the listed entries of both that could not be
  -- read.
  pub total_count-verify_batch :
      (cross : CrossServices) (source_dir receipt_dir : String) (b : BatchVerificationResult)
      → ListsNames fs
      → verify_batch core fs sha render trust_store policy cross source_dir receipt_dir ≡ ok b
      → (m : FileMatching) × (s : IsSurvey fs source_dir receipt_dir m) × (match_files_to_receipts
            fs source_dir receipt_dir
          ≡ ok m)
        × (total_count b
            ≡ length s.sources.files
              + length m.unmatched_receipts
              + length s.sources.unreadable
              + length s.receipts.unreadable)
  unfolding verify_batch collect_batch batch_items leftovers
  total_count-verify_batch cross source_dir receipt_dir b names h =
      Ensures-ok
        (λ c.
          (m : FileMatching) × (s : IsSurvey fs source_dir receipt_dir m) × (match_files_to_receipts
              fs source_dir receipt_dir
            ≡ ok m)
          × (total_count c
              ≡ length s.sources.files
                + length m.unmatched_receipts
                + length s.sources.unreadable
                + length s.receipts.unreadable))
        (Ensures-bind _ (match_files_to_receipts fs source_dir receipt_dir) _ λ m matched.
          let left = leftovers core fs sha render trust_store policy m in
          let s =
            Ensures-ok (IsSurvey fs source_dir receipt_dir)
              (match_files_to_receipts-IsSurvey fs source_dir receipt_dir names) matched in
          (
            m,
            s,
            matched,
            total_count-IsCounted (collect_batch cross (pairs m.matched) left policy)
                  (collect_batch-IsCounted cross (pairs m.matched) left policy)
                ∙ size m s,
          ))
        h
    where
      size :
          (m : FileMatching) (s : IsSurvey fs source_dir receipt_dir m)
          → length
              (batch_items (pairs m.matched) (leftovers core fs sha render trust_store policy m))
            ≡ length s.sources.files
              + length m.unmatched_receipts
              + length s.sources.unreadable
              + length s.receipts.unreadable
      size m s =
          let placed = length-append (sources_of m.matched) m.unmatched_sources in
          let paired = length-Permᴰ s.matching.sources_placed in
          let read = ap length s.unreadable_kept in
          let both = length-append s.sources.unreadable s.receipts.unreadable in
          let mapped = length-map m.matched (λ (source, receipt). source) in
          simp (length-append, length-map) (omega (arith, placed, paired, read, both, mapped))
