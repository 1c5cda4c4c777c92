-- ===== src/Verify/Batch/Matching/Pairing.antt =====
-- The pairing of src/verify/batch.rs puts every file of the two directories in exactly one place.
use mathlib.Core.List.{Permᴰ}
use mathlib.Core.List.Permᴰ
use atl_cli.Prelude.{
  String, str_eq, eq_iff, Bool, true, not, ◌&&◌, Option, none, some, some-injective, List, [], ◌∷◌,
  ◌++◌, ◌≡◌, ◌≢◌, refl, sym, subst, ap, ◌∙◌, inl, inr, arith, map, any, filter, All, All-map,
  Bool-cases,
}
use atl_cli.Files.{path_file_name}
use atl_cli.Verify.Batch.Matching.{
  source_name, ReceiptMap, lookup, insert_name, receipt_map, Matches, FileMatching, place_source,
  found_for, match_sources, is_used, pair_files, UnreadableEntry,
}

abbrev pub IsNamed : String → Type 0
IsNamed path = path_file_name path ≢ none

abbrev pub listed : String → List String → Bool
listed r rs = any (λ q. str_eq r q) rs

-- A map that holds only receipts of a list, each under the name that it stands for.
abbrev IsEntry : List String → String × String → Type 0
IsEntry receipts (name, receipt) =
    (source_name receipt ≡ some name) × (listed receipt receipts ≡ true)

lookup-IsEntry :
    (receipts : List String) (entries : ReceiptMap) (name receipt : String)
    → All (IsEntry receipts) entries
    → lookup name entries ≡ some receipt
    → IsEntry receipts (name, receipt)
unfolding lookup
lookup-IsEntry receipts [] name receipt h e = cc
lookup-IsEntry receipts ((key, held) ∷ entries) name receipt h e =
    elim (Bool-cases (str_eq key name)) [
      | inl same ↦
          let found : held ≡ receipt = some-injective _ _ (rw (lookup, same) at e) in
          let named : key ≡ name = (eq_iff key name).0 same in
          subst (λ r. IsEntry receipts (name, r)) found (h.0.0 ∙ ap some named, h.0.1)
      | inr other ↦ lookup-IsEntry receipts entries name receipt h.1 (rw (lookup, other) at e)
    ]

-- Names that the receipts of a list stand for are keys of the map made from it.
abbrev IsKey : ReceiptMap → String → Type 0
IsKey entries name = lookup name entries ≢ none

insert_name-keeps :
    (o : Option String) (receipt : String) (entries : ReceiptMap) (name : String)
    → IsKey entries name
    → IsKey (insert_name o receipt entries) name
unfolding insert_name lookup
insert_name-keeps none receipt entries name h = h
insert_name-keeps (some key) receipt entries name h = ground arith

receipt_map-keeps :
    (receipts : List String) (entries : ReceiptMap) (name : String)
    → IsKey entries name
    → IsKey (receipt_map receipts entries) name
unfolding receipt_map
receipt_map-keeps [] entries name h = h
receipt_map-keeps (receipt ∷ receipts) entries name h =
    receipt_map-keeps receipts (insert_name (source_name receipt) receipt entries) name
      (insert_name-keeps (source_name receipt) receipt entries name h)

insert_name-IsKey :
    (o : Option String) (receipt : String) (entries : ReceiptMap) (name : String)
    → o ≡ some name
    → IsKey (insert_name o receipt entries) name
unfolding insert_name lookup
insert_name-IsKey none receipt entries name e = cc
insert_name-IsKey (some key) receipt entries name e =
    ground (arith, eq_iff key name, some-injective key name e)

receipt_map-IsKey :
    (receipts : List String) (entries : ReceiptMap) (name : String)
    → All (λ r. source_name r ≡ some name → IsKey (receipt_map receipts entries) name) receipts
unfolding receipt_map
receipt_map-IsKey [] entries name = tt
receipt_map-IsKey (receipt ∷ receipts) entries name = (
  λ e.
      receipt_map-keeps receipts _ name
        (insert_name-IsKey (source_name receipt) receipt entries name e),
  receipt_map-IsKey receipts (insert_name (source_name receipt) receipt entries) name,
)

insert_name-IsEntry :
    (all_receipts : List String) (o : Option String) (receipt : String) (entries : ReceiptMap)
    → source_name receipt ≡ o
    → listed receipt all_receipts ≡ true
    → All (IsEntry all_receipts) entries
    → All (IsEntry all_receipts) (insert_name o receipt entries)
unfolding insert_name
insert_name-IsEntry all_receipts none receipt entries e l h = h
insert_name-IsEntry all_receipts (some key) receipt entries e l h = ((e, l), h)

receipt_map-IsEntry :
    (all_receipts receipts : List String) (entries : ReceiptMap)
    → All (λ r. listed r all_receipts ≡ true) receipts
    → All (IsEntry all_receipts) entries
    → All (IsEntry all_receipts) (receipt_map receipts entries)
unfolding receipt_map
receipt_map-IsEntry all_receipts [] entries l h = h
receipt_map-IsEntry all_receipts (receipt ∷ receipts) entries l h =
    receipt_map-IsEntry all_receipts receipts (insert_name (source_name receipt) receipt entries)
      l.1 (insert_name-IsEntry all_receipts (source_name receipt) receipt entries refl l.0 h)

listed-All : (rs : List String) → All (λ r. listed r rs ≡ true) rs
listed-All [] = tt
listed-All (r ∷ rs) = (ground (arith, eq_iff r r), All-map rs (λ q h. ground arith) (listed-All rs))

-- A source file and the receipt that its name asks for, one of the directory's receipts.
abbrev pub IsPair : List String → String × String → Type 0
IsPair receipts (source, receipt) =
    (path_file_name source ≢ none)
    × (source_name receipt ≡ path_file_name source)
    × (listed receipt receipts ≡ true)

-- No receipt of the directory is for this source file.
abbrev pub IsAlone : List String → String → Type 0
IsAlone receipts source = All (λ r. source_name r ≢ path_file_name source) receipts

module _ (receipts : List String) where
  abbrev entries : ReceiptMap
  entries = receipt_map receipts []

  abbrev Placed : Matches → Type 0
  Placed m = All (IsPair receipts) m.matched × All (IsAlone receipts) m.unmatched_sources

  alone :
      (name : String) → lookup name entries ≡ none → All (λ r. source_name r ≢ some name) receipts
  alone name missing =
      All-map receipts (λ r key e. key e missing) (receipt_map-IsKey receipts [] name)

  place_named :
      (source name : String) (o : Option String) (m : Matches)
      → path_file_name source ≡ some name
      → lookup name entries ≡ o
      → Placed m
      → Placed (place_source source (some o) m)
  unfolding place_source
  place_named source name none m n found h = (h.0, (rw (n) (alone name found), h.1))
  place_named source name (some receipt) m n found h =
      let entry =
        lookup-IsEntry receipts entries name receipt
          (receipt_map-IsEntry receipts receipts [] (listed-All receipts) tt) found in
      ((((λ e. cc), entry.0 ∙ sym n, entry.1), h.0), h.1)

  place_source-Placed :
      (source : String) (o : Option String) (m : Matches)
      → path_file_name source ≡ o
      → Placed m
      → Placed (place_source source (found_for entries o) m)
  unfolding place_source found_for
  place_source-Placed source none m n h = h
  place_source-Placed source (some name) m n h =
      place_named source name (lookup name entries) m n refl h

  match_sources-Placed : (sources : List String) → Placed (match_sources entries sources)
  unfolding match_sources
  match_sources-Placed [] = (tt, tt)
  match_sources-Placed (source ∷ sources) =
      place_source-Placed source (path_file_name source) (match_sources entries sources) refl
        (match_sources-Placed sources)

abbrev pub sources_of : List (String × String) → List String
sources_of ps = map (λ (source, receipt). source) ps

abbrev Distributes : Matches → List String → Type 0
Distributes m sources = Permᴰ (sources_of m.matched ++ m.unmatched_sources) sources

place_source-Perm :
    (held : ReceiptMap) (source : String) (o : Option String) (m : Matches) (sources : List String)
    → o ≢ none
    → Distributes m sources
    → Distributes (place_source source (found_for held o) m) (source ∷ sources)
unfolding place_source found_for
place_source-Perm held source none m sources h p = absurd (h refl)
place_source-Perm held source (some name) m sources h p = go (lookup name held)
  where
    go : (o : Option String) → Distributes (place_source source (some o) m) (source ∷ sources)
    go (some receipt) = Permᴰ.cons refl p
    go none =
        Permᴰ.trans (Permᴰ.middle source (sources_of m.matched) m.unmatched_sources)
          (Permᴰ.cons refl p)

match_sources-Perm :
    (held : ReceiptMap) (sources : List String)
    → All IsNamed sources
    → Distributes (match_sources held sources) sources
unfolding match_sources
match_sources-Perm held [] h = Permᴰ.nil
match_sources-Perm held (source ∷ sources) h =
    place_source-Perm held source (path_file_name source) (match_sources held sources) sources h.0
      (match_sources-Perm held sources h.1)

-- A receipt of a list is among the unused ones exactly if it is not used.
listed_unused :
    (matched : List (String × String)) (r : String) (rs : List String)
    → listed r (filter (λ q. not (is_used matched q)) rs) ≡ (not (is_used matched r) && listed r rs)
listed_unused matched r [] = ground arith
listed_unused matched r (q ∷ rs) = elim (Bool-cases (str_eq r q)) [
  | inl e ↦
      let same : is_used matched r ≡ is_used matched q = ap (is_used matched) ((eq_iff r q).0 e) in
      ground (arith, listed_unused matched r rs)
  | inr e ↦ ground (arith, listed_unused matched r rs)
]

-- What the pairing of the files of two directories says: every source file is in one pair or is
-- unmatched, every receipt is in a pair or is unmatched and not both, a pair belongs together by
-- name, and an unmatched source file has no receipt.
pub record IsMatching (sources receipts : List String) (m : FileMatching) : Type 0 where
  pub sources_placed : Permᴰ (sources_of m.matched ++ m.unmatched_sources) sources
  pub pairs_named : All (IsPair receipts) m.matched
  pub sources_alone : All (IsAlone receipts) m.unmatched_sources
  pub receipts_placed :
      All (λ r. listed r m.unmatched_receipts ≡ not (is_used m.matched r)) receipts

-- Of source files that have names, every one is in one pair or unmatched, and every receipt is in a
-- pair or unmatched and not both; a pair belongs together by name and holds a receipt of the directory,
-- and for an unmatched source file there is none.
pub pair_files-IsMatching :
    (sources receipts : List String) (unreadable : List UnreadableEntry)
    → All IsNamed sources
    → IsMatching sources receipts (pair_files sources receipts unreadable)
unfolding pair_files
pair_files-IsMatching sources receipts unreadable h = record {
  sources_placed = match_sources-Perm (receipt_map receipts []) sources h;
  pairs_named = (match_sources-Placed receipts sources).0;
  sources_alone = (match_sources-Placed receipts sources).1;
  receipts_placed =
      All-map receipts
        (λ r l. ground (
          arith,
          listed_unused (match_sources (receipt_map receipts []) sources).matched r receipts,
        ))
        (listed-All receipts);
}
