-- ===== src/Verify/Consistency.antt =====
-- src/verify/consistency.rs: whether the receipts of one log instance tell one history.
pub mod Checks
pub mod Order
pub mod Laws
use Prim.Native.Char.{code}
use Prim.Native.String
use atl_cli.Prelude.{
  ℕ, zero, suc, ◌+◌, String, str_eq, Bool, not, ◌&&◌, all, Option, none, some, List, [], ◌∷◌, ◌++◌,
  map, length, is_empty, ◌==◌, if◌then◌else◌, leb, concat,
}
use atl_cli.Core.{CrossReceiptVerificationResult, Receipt, SuperProof}
use atl_cli.Verify.Single.{SingleVerificationResult}

pub record CrossCheck : Type 0 where
  pub from_index : ℕ
  pub to_index : ℕ
  pub result : CrossReceiptVerificationResult

pub record ConsistencyResult : Type 0 where
  pub log_instance_count : ℕ
  pub history_consistent : Bool
  pub genesis_super_root : Option (List ℕ)
  pub receipt_count : ℕ
  pub participants : List String
  pub cross_results : List CrossCheck
  pub errors : List String

-- `ConsistencyResult::is_valid`.
unfoldable pub consistent : ConsistencyResult → Bool
consistent c = c.history_consistent && is_empty c.errors

-- `ConsistencyResult::checked`.
unfoldable pub checked : ConsistencyResult → Bool
checked c = not (is_empty c.cross_results)

-- What the check takes from other crates: `verify_cross_receipts` of atl-core, the last component of
-- a path, the order of strings, and the decoder of the crate `hex`.
pub record CrossServices : Type 0 where
  pub verify_cross_receipts : Receipt → Receipt → CrossReceiptVerificationResult
  pub last_component : String → Option String
  pub before : String → String → Bool
  pub decode : String → Option (List ℕ)

-- `strip_prefix` of a string.
strip_prefix : (prefix s : String) → Option String
strip_prefix String.[] s = some s
strip_prefix (String.◌∷◌ c prefix) String.[] = none
strip_prefix (String.◌∷◌ c prefix) (String.◌∷◌ d s) =
    let rest = strip_prefix prefix s in if code c == code d then rest else none

zeros : ℕ → List ℕ
zeros zero = []
zeros (suc n) = 0 ∷ zeros n

bytes_of : Option (List ℕ) → List ℕ
unfolding zeros
bytes_of none = zeros 32
bytes_of (some decoded) = if length decoded == 32 then decoded else zeros 32

unfoldable pub parse_hash : (String → Option (List ℕ)) → String → List ℕ
unfolding strip_prefix bytes_of
parse_hash decode hash = elim (strip_prefix "sha256:" hash) [
  | none ↦ bytes_of (decode hash)
  | some hex_part ↦ bytes_of (decode hex_part)
]

-- A log instance: its genesis identifier, and the receipts that carry it.
pub record LogInstance : Type 0 where
  pub genesis : String
  pub receipts : List SingleVerificationResult

module _ (s : CrossServices) where
  -- `entry(genesis).or_default().push(result)` on the ordered map.
  unfoldable pub push : String → SingleVerificationResult → List LogInstance → List LogInstance
  push genesis r [] = record { genesis = genesis; receipts = r ∷ [] } ∷ []
  push genesis r (group ∷ groups) =
      let rest = push genesis r groups in
      if str_eq genesis group.genesis
      then record { genesis = group.genesis; receipts = group.receipts ++ (r ∷ []) } ∷ groups
      else if s.before genesis group.genesis
      then record { genesis = genesis; receipts = r ∷ [] } ∷ group ∷ groups
      else group ∷ rest

  -- A receipt without a super proof is passed over.
  group_one : Option SuperProof → SingleVerificationResult → List LogInstance → List LogInstance
  unfolding push
  group_one none r groups = groups
  group_one (some sp) r groups = push sp.genesis_super_root r groups

  -- The loop that fills `log_instances`, from a map that is already there.
  unfoldable pub group_into : List LogInstance → List SingleVerificationResult → List LogInstance
  unfolding group_one
  group_into groups [] = groups
  group_into groups (r ∷ rs) = group_into (group_one r.receipt.super_proof r groups) rs

-- The key of `sort_by_key`.
unfoldable pub tree_size : SingleVerificationResult → ℕ
tree_size r = elim r.receipt.super_proof [ none ↦ 0 | some sp ↦ sp.super_tree_size ]

insert_by_size :
    SingleVerificationResult → List SingleVerificationResult → List SingleVerificationResult
unfolding tree_size
insert_by_size r [] = r ∷ []
insert_by_size r (x ∷ xs) =
    let rest = insert_by_size r xs in
    if leb (tree_size r) (tree_size x) then r ∷ x ∷ xs else x ∷ rest

-- The stable `sort_by_key`.
unfoldable pub sort_by_size : List SingleVerificationResult → List SingleVerificationResult
unfolding insert_by_size
sort_by_size [] = []
sort_by_size (r ∷ rs) = insert_by_size r (sort_by_size rs)

module _ (s : CrossServices) where
  -- `file_name(...).unwrap_or_default()` of a receipt's source.
  unfoldable pub file_name : SingleVerificationResult → String
  file_name r = elim (s.last_component r.source_path) [ none ↦ "" | some name ↦ name ]

  -- The checks of the neighbours in a sorted log instance whose first receipt has the index `base`.
  unfoldable pub cross_checks : ℕ → List SingleVerificationResult → List CrossCheck
  cross_checks base [] = []
  cross_checks base (a ∷ []) = []
  cross_checks base (a ∷ b ∷ rs) =
      record {
        from_index = base;
        to_index = base + 1;
        result = s.verify_cross_receipts a.receipt b.receipt;
      }
      ∷ cross_checks (base + 1) (b ∷ rs)

  -- The loop over the log instances: the participants and the checks, from the index `base`.
  unfoldable pub participants_of : List LogInstance → List SingleVerificationResult
  participants_of [] = []
  participants_of (g ∷ gs) = sort_by_size g.receipts ++ participants_of gs

  unfoldable pub checks_of : ℕ → List LogInstance → List CrossCheck
  unfolding cross_checks
  checks_of base [] = []
  checks_of base (g ∷ gs) =
      let sorted = sort_by_size g.receipts in
      cross_checks base sorted ++ checks_of (base + length sorted) gs

  unfoldable pub errors_of : List CrossCheck → List String
  errors_of [] = []
  errors_of (c ∷ cs) =
      let rest = errors_of cs in
      if c.result.is_valid
      then rest
      else map (λ e. concat ("Cross-receipt error: " ∷ e ∷ [])) c.result.errors ++ rest

  named_genesis : List LogInstance → Option (List ℕ)
  named_genesis [] = none
  named_genesis (g ∷ []) = some (parse_hash s.decode g.genesis)
  named_genesis (g ∷ h ∷ gs) = none

  -- The result for the log instances of a batch.
  unfoldable pub consistency_of : List LogInstance → ConsistencyResult
  unfolding participants_of checks_of errors_of named_genesis file_name
  consistency_of groups =
      let participants = participants_of groups in
      let cross_results = checks_of 0 groups in
      record {
        log_instance_count = length groups;
        history_consistent = all (λ c. c.result.is_valid) cross_results;
        genesis_super_root = named_genesis groups;
        receipt_count = length participants;
        participants = map file_name participants;
        cross_results = cross_results;
        errors = errors_of cross_results;
      }

  -- `verify_consistency`, which never fails.
  unfoldable pub verify_consistency : List SingleVerificationResult → ConsistencyResult
  unfolding group_into consistency_of
  verify_consistency results = consistency_of (group_into s [] results)
