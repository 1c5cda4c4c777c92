-- ===== src/Files.antt =====
-- What the program asks of the file system through `std::fs` and `std::path`, in one state of it.
use Prim.Native.Char.{code}
use atl_cli.Prelude.{
  ℕ, String, str_eq, Bool, Option, none, some, List, ◌++◌, ◌≡◌, length, if◌then◌else◌, ◌==◌, Result,
}

-- One `read` of a reader: the bytes that it fills, and the reader behind them. It takes the bytes that
-- come next, and takes none only at the end of the file.
pub record Reading {R : Type 0} (contents : R → List ℕ) (r : R) : Type 0 where
  pub bytes : List ℕ
  pub next : R
  pub advances : contents r ≡ bytes ++ contents next
  pub ends : length bytes ≡ 0 → length (contents r) ≡ 0

pub data FileType : Type 0 where
  dir file other : FileType

-- An entry of a listing, with `entry.path()` and `entry.file_type()`.
pub record DirEntry : Type 0 where
  pub path : String
  pub file_type : Result String FileType

-- `contents` is what lies ahead of a reader; no operation of the program looks at it.
pub record Files : Type 1 where
  pub Reader : Type 0
  pub contents : Reader → List ℕ
  pub open_file : String → Result String Reader
  pub read : (r : Reader) → Result String (Reading contents r)
  pub try_exists : String → Result String Bool
  pub is_dir : String → Bool
  pub is_file : String → Bool
  pub metadata_len : String → Result String ℕ
  pub metadata_is_file : String → Result String Bool
  pub read_to_string : String → Result String String
  pub read_bytes : String → Result String (List ℕ)
  pub read_dir : String → Result String (List (Result String DirEntry))

-- The text before and after the last occurrence of a character.
unfoldable pub split_last : ℕ → String → Option (String × String)
split_last mark String.[] = none
split_last mark (String.◌∷◌ c s) =
    let rest = split_last mark s in
    elim rest [
      | some (before, after) ↦ some (String.◌∷◌ c before, after)
      | none ↦ if code c == mark then some ("", s) else none
    ]

-- `Path::file_name` of a path without a trailing separator.
unfoldable pub path_file_name : String → Option String
unfolding split_last
path_file_name path =
    let name : String = elim (split_last b'/' path) [ none ↦ path | some (_, name) ↦ name ] in
    if str_eq name ""
    then none
    else if str_eq name "."
    then none
    else if str_eq name ".."
    then none
    else some name

-- `rsplit_file_at_dot`: the stem and the extension of a file name.
unfoldable pub stem_and_extension : String → String × Option String
unfolding split_last
stem_and_extension name = elim (split_last b'.' name) [
  | none ↦ (name, none)
  | some (before, after) ↦ if str_eq before "" then (name, none) else (before, some after)
]

-- `Path::extension`.
unfoldable pub extension : String → Option String
unfolding path_file_name stem_and_extension
extension path = elim (path_file_name path) [
  | none ↦ none
  | some name ↦ (stem_and_extension name).1
]

-- `Path::file_stem`.
unfoldable pub file_stem : String → Option String
unfolding path_file_name stem_and_extension
file_stem path = elim (path_file_name path) [
  | none ↦ none
  | some name ↦ some (stem_and_extension name).0
]
