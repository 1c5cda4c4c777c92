-- ===== src/Verify/Batch/Matching/Walks.antt =====
-- The walks of src/verify/batch.rs take exactly the files of a listing.
use mathlib.Core.Path.{fun_ext}
use atl_cli.Prelude.{
  String, str_eq, any, Bool, true, false, not, ◌&&◌, List, [], ◌∷◌, ◌++◌, ◌≡◌, refl, ap, subst, ◌∙◌,
  arith, filter, All, is_empty, Result, ok, err, ◌>>=◌, Ensures, Ensures-bind, Ensures-ok,
  if◌then◌else◌, Bool-cases, inl, inr,
}
use atl_cli.Error.{CliError}
use atl_cli.Files.{Files, FileType, DirEntry}
use atl_cli.Verify.File.{reading}
use atl_cli.Verify.File.Laws.{reading-ok}
use atl_cli.Verify.Batch.Matching.{
  EntryKind, Walk, by_type, is_used, is_atl, classify_entry, place_entry, visit, walk_entries,
  walk_directory, has_atl_extension, FileMatching, pair_files, match_files_to_receipts,
}
use atl_cli.Verify.Batch.Matching.Listing.{
  Kind, kind_of_target, kind_of_type, kind_of_entry, file_of, files_of, failure_of, failures_of,
  is_receipt,
}
use atl_cli.Verify.Batch.Matching.Pairing.{IsNamed, IsMatching, pair_files-IsMatching}

-- What is documented of a listing: an entry that is read has a name.
abbrev pub IsNamedEntry : Result String DirEntry → Type 0
IsNamedEntry (ok entry) = IsNamed entry.path
IsNamedEntry (err message) = Unit

abbrev pub ListsNames : Files → Type 0
ListsNames fs =
    (dir : String) (entries : List (Result String DirEntry))
    → fs.read_dir dir ≡ ok entries
    → All IsNamedEntry entries

module _ (fs : Files) (dir : String) (keep : String → Bool) where
  -- What one entry adds to the walk behind it.
  abbrev Adds : (path : String) → Kind → Walk → Walk → Type 0
  Adds path kind w after =
      (after.files ≡ file_of fs keep path kind ++ w.files)
      × (after.unreadable ≡ failure_of fs path kind ++ w.unreadable)

  place-file :
      (path : String) (w : Walk)
      → Adds path Kind.a_file w (place_entry fs dir keep path (ok EntryKind.regular_file) w)
  unfolding place_entry
  place-file path w = elim (Bool-cases (keep path)) [
    | inl e ↦ rw (e) (refl, refl)
    | inr e ↦ rw (e) (refl, refl)
  ]

  place-target :
      (path : String) (target : Result String Bool) (w : Walk)
      → Adds path (kind_of_target target) w (
          place_entry fs dir keep path
            (reading path target >>= λ resolves.
              ok (if resolves then EntryKind.regular_file else EntryKind.skip))
            w)
  unfolding place_entry reading
  place-target path (ok true) w = place-file path w
  place-target path (ok false) w = (refl, refl)
  place-target path (err message) w = (refl, refl)

  place-kind :
      (path : String) (kind : Result String FileType) (w : Walk)
      → Adds path
          (kind_of_type kind (fs.metadata_is_file path))
          w
          (place_entry fs dir keep path (reading path kind >>= λ t. by_type fs path t) w)
  unfolding place_entry reading by_type
  place-kind path (err message) w = (refl, refl)
  place-kind path (ok FileType.file) w = place-file path w
  place-kind path (ok FileType.dir) w = (refl, refl)
  place-kind path (ok FileType.other) w = place-target path (fs.metadata_is_file path) w

  visit-entry :
      (entry : DirEntry) (w : Walk)
      → Adds entry.path (kind_of_entry fs entry) w (visit fs dir keep (ok entry) w)
  unfolding visit classify_entry
  visit-entry entry w = place-kind entry.path entry.file_type w

  -- A walk has exactly the files of its listing with a path of the kind that is asked for, each once and
  -- in their order, and reports every entry that could not be read, with its path and its error: nothing
  -- else is passed over but what is no file, or a file with another kind of path.
  pub walk_entries-accounts :
      (entries : List (Result String DirEntry))
      → ((walk_entries fs dir keep entries).files ≡ files_of fs keep entries)
        × ((walk_entries fs dir keep entries).unreadable ≡ failures_of fs dir entries)
  unfolding walk_entries visit
  walk_entries-accounts [] = (refl, refl)
  walk_entries-accounts (err message ∷ entries) =
      let rest = walk_entries-accounts entries in
      (
        rest.0,
        ap (λ l. record { path = dir; error = CliError.file_read_error dir message } ∷ l) rest.1,
      )
  walk_entries-accounts (ok entry ∷ entries) =
      let rest = walk_entries-accounts entries in
      let added = visit-entry entry (walk_entries fs dir keep entries) in
      (
        added.0 ∙ ap (λ l. file_of fs keep entry.path (kind_of_entry fs entry) ++ l) rest.0,
        added.1 ∙ ap (λ l. failure_of fs entry.path (kind_of_entry fs entry) ++ l) rest.1,
      )

  place_entry-IsNamed :
      (path : String) (kind : Result CliError EntryKind) (w : Walk)
      → IsNamed path
      → All IsNamed w.files
      → All IsNamed (place_entry fs dir keep path kind w).files
  unfolding place_entry
  place_entry-IsNamed path (ok EntryKind.skip) w n h = h
  place_entry-IsNamed path (ok EntryKind.regular_file) w n h = add_kept (keep path)
    where
      add_kept :
          (k : Bool) → All IsNamed (if k then record w { files = path ∷ w.files } else w).files
      add_kept true = (n, h)
      add_kept false = h
  place_entry-IsNamed path (err error) w n h = h

  visit-IsNamed :
      (entry : Result String DirEntry) (w : Walk)
      → IsNamedEntry entry
      → All IsNamed w.files
      → All IsNamed (visit fs dir keep entry w).files
  unfolding visit
  visit-IsNamed (err message) w n h = h
  visit-IsNamed (ok entry) w n h = place_entry-IsNamed entry.path (classify_entry fs entry) w n h

  walk_entries-IsNamed :
      (entries : List (Result String DirEntry))
      → All IsNamedEntry entries
      → All IsNamed (walk_entries fs dir keep entries).files
  unfolding walk_entries
  walk_entries-IsNamed [] h = tt
  walk_entries-IsNamed (entry ∷ entries) h =
      visit-IsNamed entry (walk_entries fs dir keep entries) h.0 (walk_entries-IsNamed entries h.1)

-- A walk of a directory: a listing that was opened, with its files and the entries that failed.
pub record IsWalk (fs : Files) (dir : String) (keep : String → Bool) (w : Walk) : Type 0 where
  pub entries : List (Result String DirEntry)
  pub opened : fs.read_dir dir ≡ ok entries
  pub listed : w.files ≡ files_of fs keep entries
  pub failed : w.unreadable ≡ failures_of fs dir entries
  pub named : All IsNamed w.files

walk_directory-Ensures :
    (fs : Files) (dir : String) (keep : String → Bool)
    → ListsNames fs
    → Ensures (IsWalk fs dir keep) (walk_directory fs dir keep)
unfolding walk_directory
walk_directory-Ensures fs dir keep names =
    Ensures-bind (IsWalk fs dir keep) (reading dir (fs.read_dir dir)) _ λ entries opened.
      let listing = reading-ok dir (fs.read_dir dir) opened in
      record {
        entries = entries;
        opened = listing;
        listed = (walk_entries-accounts fs dir keep entries).0;
        failed = (walk_entries-accounts fs dir keep entries).1;
        named = walk_entries-IsNamed fs dir keep entries (names dir entries listing);
      }

has_atl_extension-is_receipt : (path : String) → has_atl_extension path ≡ is_receipt path
unfolding has_atl_extension is_atl
has_atl_extension-is_receipt path = ground arith

-- What the matching of the files of two directories says: the files are those of a walk of each, the
-- entries that could not be read are those of both walks, and neither directory was empty.
pub record IsSurvey (fs : Files) (source_dir receipt_dir : String) (m : FileMatching) : Type 0 where
  pub sources : Walk
  pub receipts : Walk
  pub sources_walked : IsWalk fs source_dir (λ path. not (is_receipt path)) sources
  pub receipts_walked : IsWalk fs receipt_dir is_receipt receipts
  pub some_source : (is_empty sources.files && is_empty sources.unreadable) ≡ false
  pub matching : IsMatching sources.files receipts.files m
  pub unused :
      m.unmatched_receipts
      ≡ filter (λ r. not (any (λ (source, used). str_eq used r) m.matched)) receipts.files
  pub unreadable_kept : m.unreadable ≡ sources.unreadable ++ receipts.unreadable

-- Every file of the two directories is in one pair or unmatched, and an entry that could not be read is
-- kept with its error.
pub match_files_to_receipts-IsSurvey :
    (fs : Files) (source_dir receipt_dir : String)
    → ListsNames fs
    → Ensures
        (IsSurvey fs source_dir receipt_dir)
        (match_files_to_receipts fs source_dir receipt_dir)
unfolding match_files_to_receipts pair_files is_used
match_files_to_receipts-IsSurvey fs source_dir receipt_dir names =
    let survey = IsSurvey fs source_dir receipt_dir in
    let no_receipts = λ (path : String). not (has_atl_extension path) in
    Ensures-bind survey (walk_directory fs source_dir no_receipts) _ λ sources walked.
      Ensures-bind survey
        (if is_empty sources.files && is_empty sources.unreadable
          then err (CliError.empty_source_directory source_dir)
          else ok tt)
        _
        λ _ some_source.
          Ensures-bind survey (walk_directory fs receipt_dir has_atl_extension) _ λ receipts found.
            Ensures-bind survey
              (if is_empty receipts.files && is_empty (sources.unreadable ++ receipts.unreadable)
                then err (CliError.empty_receipt_directory receipt_dir)
                else ok tt)
              _
              λ _ _.
                let walk =
                  Ensures-ok (IsWalk fs source_dir no_receipts)
                    (walk_directory-Ensures fs source_dir no_receipts names) walked in
                record {
                  sources = sources;
                  receipts = receipts;
                  sources_walked =
                      subst (λ keep. IsWalk fs source_dir (λ path. not (keep path)) sources)
                        (fun_ext has_atl_extension-is_receipt) walk;
                  receipts_walked =
                      subst (λ keep. IsWalk fs receipt_dir keep receipts)
                        (fun_ext has_atl_extension-is_receipt)
                        (Ensures-ok (IsWalk fs receipt_dir has_atl_extension)
                          (walk_directory-Ensures fs receipt_dir has_atl_extension names) found);
                  some_source = ground arith;
                  matching =
                      pair_files-IsMatching sources.files receipts.files
                        (sources.unreadable ++ receipts.unreadable) walk.named;
                  unused = refl;
                  unreadable_kept = refl;
                }
