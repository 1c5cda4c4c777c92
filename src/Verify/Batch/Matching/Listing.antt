-- ===== src/Verify/Batch/Matching/Listing.antt =====
-- What a listing of a directory holds for src/verify/batch.rs, said of the file system's own answers.
use atl_cli.Prelude.{
  String, str_eq, none, some, Bool, true, false, List, [], ◌∷◌, ◌++◌, Result, ok, err,
  if◌then◌else◌,
}
use atl_cli.Error.{CliError}
use atl_cli.Files.{Files, FileType, DirEntry, extension}
use atl_cli.Verify.Batch.Matching.{UnreadableEntry}

-- What the file system says that an entry is: a file, if need be behind a link; something that is no
-- file; or an entry about which it answers with an error.
pub data Kind : Type 0 where
  a_file no_file : Kind
  unknown : (message : String) → Kind

abbrev pub kind_of_target : Result String Bool → Kind
kind_of_target (ok true) = Kind.a_file
kind_of_target (ok false) = Kind.no_file
kind_of_target (err message) = Kind.unknown message

abbrev pub kind_of_type : Result String FileType → (target : Result String Bool) → Kind
kind_of_type (err message) target = Kind.unknown message
kind_of_type (ok FileType.file) target = Kind.a_file
kind_of_type (ok FileType.dir) target = Kind.no_file
kind_of_type (ok FileType.other) target = kind_of_target target

module _ (fs : Files) where
  abbrev pub kind_of_entry : DirEntry → Kind
  kind_of_entry entry = kind_of_type entry.file_type (fs.metadata_is_file entry.path)

  -- The files that a listing names with a path of the kind that is asked for, in their order.
  abbrev pub file_of : (keep : String → Bool) → (path : String) → Kind → List String
  file_of keep path Kind.a_file = if keep path then path ∷ [] else []
  file_of keep path _ = []

  abbrev pub files_of : (keep : String → Bool) → List (Result String DirEntry) → List String
  files_of keep [] = []
  files_of keep (err message ∷ entries) = files_of keep entries
  files_of keep (ok entry ∷ entries) =
      file_of keep entry.path (kind_of_entry entry) ++ files_of keep entries

  -- The entries of a listing that could not be read, each with the path and the error to report.
  abbrev pub failure_of : (path : String) → Kind → List UnreadableEntry
  failure_of path (Kind.unknown message) =
      record { path = path; error = CliError.file_read_error path message } ∷ []
  failure_of path _ = []

  abbrev pub failures_of : (dir : String) → List (Result String DirEntry) → List UnreadableEntry
  failures_of dir [] = []
  failures_of dir (err message ∷ entries) =
      record { path = dir; error = CliError.file_read_error dir message } ∷ failures_of dir entries
  failures_of dir (ok entry ∷ entries) =
      failure_of entry.path (kind_of_entry entry) ++ failures_of dir entries

-- A file with the extension of receipts.
abbrev pub is_receipt : (path : String) → Bool
is_receipt path = elim (extension path) [ none ↦ false | some ext ↦ str_eq ext "atl" ]
