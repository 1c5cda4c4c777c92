-- ===== src/Verify/Batch/Matching.antt =====
-- src/verify/batch.rs: the walk over the two directories of a batch, and the pairing of their files.
pub mod Listing
pub mod Pairing
pub mod Walks
use atl_cli.Prelude.{
  ℕ, String, str_eq, Bool, true, false, not, ◌&&◌, Option, none, some, List, [], ◌∷◌, ◌++◌, map,
  any, filter, is_empty, if◌then◌else◌, Result, ok, err, ◌>>=◌, ◌>>◌,
}
use atl_cli.Error.{CliError}
use atl_cli.Files.{Files, FileType, DirEntry, path_file_name, extension, file_stem}
use atl_cli.Verify.File.{reading}

-- `== Some(OsStr::new("atl"))`.
is_atl : Option String → Bool
is_atl none = false
is_atl (some ext) = str_eq ext "atl"

unfoldable pub strip_atl_suffix : String → Option String
unfolding is_atl extension file_stem
strip_atl_suffix name = if is_atl (extension name) then file_stem name else none

unfoldable pub has_atl_extension : String → Bool
unfolding is_atl extension
has_atl_extension path = is_atl (extension path)

pub record UnreadableEntry : Type 0 where
  pub path : String
  pub error : CliError

pub data EntryKind : Type 0 where
  regular_file skip : EntryKind

pub record Walk : Type 0 where
  pub files : List String
  pub unreadable : List UnreadableEntry

module _ (fs : Files) where
  by_type : String → FileType → Result CliError EntryKind
  by_type path FileType.dir = ok EntryKind.skip
  by_type path FileType.file = ok EntryKind.regular_file
  by_type path FileType.other = do
    resolves ← reading path (fs.metadata_is_file path)
    ok (if resolves then EntryKind.regular_file else EntryKind.skip)

  unfoldable pub classify_entry : DirEntry → Result CliError EntryKind
  unfolding by_type
  classify_entry entry = do kind ← reading entry.path entry.file_type; by_type entry.path kind

  module _ (dir : String) (keep : String → Bool) where
    -- The arms on `classify_entry`, before what the later rounds find.
    unfoldable pub place_entry : (path : String) → Result CliError EntryKind → Walk → Walk
    place_entry path (ok EntryKind.skip) w = w
    place_entry path (ok EntryKind.regular_file) w =
        if keep path then record w { files = path ∷ w.files } else w
    place_entry path (err error) w = record w {
      unreadable = record { path = path; error = error } ∷ w.unreadable;
    }

    -- One round of the loop of `walk_directory`.
    unfoldable pub visit : Result String DirEntry → Walk → Walk
    unfolding place_entry
    visit (err message) w = record w {
      unreadable =
          record { path = dir; error = CliError.file_read_error dir message } ∷ w.unreadable;
    }
    visit (ok entry) w = place_entry entry.path (classify_entry entry) w

    unfoldable pub walk_entries : List (Result String DirEntry) → Walk
    unfolding visit
    walk_entries [] = record { files = []; unreadable = [] }
    walk_entries (entry ∷ entries) = visit entry (walk_entries entries)

    unfoldable pub walk_directory : Result CliError Walk
    unfolding walk_entries
    walk_directory = do entries ← reading dir (fs.read_dir dir); ok (walk_entries entries)

-- The name of the source file that a receipt's own name stands for.
unfoldable pub source_name : String → Option String
unfolding path_file_name strip_atl_suffix
source_name receipt_path = elim (path_file_name receipt_path) [
  | none ↦ none
  | some name ↦ strip_atl_suffix name
]

-- The `HashMap` from source names to receipts, the latest insertion first.
abbrev pub ReceiptMap : Type 0
ReceiptMap = List (String × String)

unfoldable pub lookup : String → ReceiptMap → Option String
lookup name [] = none
lookup name ((key, receipt) ∷ entries) =
    let rest = lookup name entries in if str_eq key name then some receipt else rest

insert_name : Option String → String → ReceiptMap → ReceiptMap
insert_name none receipt entries = entries
insert_name (some name) receipt entries = (name, receipt) ∷ entries

-- The loop that fills the map.
unfoldable pub receipt_map : List String → ReceiptMap → ReceiptMap
unfolding insert_name
receipt_map [] entries = entries
receipt_map (receipt ∷ receipts) entries =
    receipt_map receipts (insert_name (source_name receipt) receipt entries)

pub record FileMatching : Type 0 where
  pub matched : List (String × String)
  pub unmatched_sources : List String
  pub unmatched_receipts : List String
  pub unreadable : List UnreadableEntry

pub record Matches : Type 0 where
  pub matched : List (String × String)
  pub unmatched_sources : List String

-- What the loop over the sources does with one of them, by its name and the receipt for that name.
place_source : String → Option (Option String) → Matches → Matches
place_source source none m = m
place_source source (some none) m = record m { unmatched_sources = source ∷ m.unmatched_sources }
place_source source (some (some receipt)) m = record m { matched = (source, receipt) ∷ m.matched }

found_for : ReceiptMap → Option String → Option (Option String)
unfolding lookup
found_for entries none = none
found_for entries (some name) = some (lookup name entries)

unfoldable pub match_sources : ReceiptMap → List String → Matches
unfolding place_source found_for
match_sources entries [] = record { matched = []; unmatched_sources = [] }
match_sources entries (source ∷ sources) =
    place_source source (found_for entries (path_file_name source)) (match_sources entries sources)

unfoldable pub is_used : List (String × String) → String → Bool
is_used matched receipt = any (λ (source, used). str_eq used receipt) matched

-- `match_files_to_receipts` after the two walks.
unfoldable pub pair_files : List String → List String → List UnreadableEntry → FileMatching
unfolding match_sources receipt_map is_used
pair_files sources receipts unreadable =
    let m = match_sources (receipt_map receipts []) sources in
    record {
      matched = m.matched;
      unmatched_sources = m.unmatched_sources;
      unmatched_receipts = filter (λ r. not (is_used m.matched r)) receipts;
      unreadable = unreadable;
    }

unfoldable pub match_files_to_receipts :
    Files → (source_dir receipt_dir : String) → Result CliError FileMatching
unfolding walk_directory has_atl_extension pair_files
match_files_to_receipts fs source_dir receipt_dir = do
  sources ← walk_directory fs source_dir (λ path. not (has_atl_extension path))
  (if is_empty sources.files && is_empty sources.unreadable
      then err (CliError.empty_source_directory source_dir)
      else ok tt)
  receipts ← walk_directory fs receipt_dir has_atl_extension
  let unreadable = sources.unreadable ++ receipts.unreadable
  (if is_empty receipts.files && is_empty unreadable
      then err (CliError.empty_receipt_directory receipt_dir)
      else ok tt)
  ok (pair_files sources.files receipts.files unreadable)
