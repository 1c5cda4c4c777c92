-- ===== src/Verify/File.antt =====
-- src/verify/file.rs: the hash of a file, read in chunks.
pub mod Laws
use mathlib.Core.Logic.{dite}
use mathlib.Core.WellFounded.{Acc, WellFounded}
use native.Mathlib.Decide.{dec_lt}
use atl_cli.Prelude.{
  ℕ, zero, suc, ◌+◌, ◌*◌, ◌<◌, String, str_eq, Bool, List, [], ◌∷◌, ◌++◌, ◌≡◌, ap, arith, length,
  length-append, concat, if◌then◌else◌, Result, ok, err, ◌>>=◌, ◌>>◌,
}
use atl_cli.Error.{CliError}
use atl_cli.Files.{Files, Reading}

abbrev pub max_receipt_size : ℕ
max_receipt_size = 10 * 1024 * 1024

-- The crates `sha2` and `hex`.
pub record Sha256 : Type 1 where
  pub Hasher : Type 0
  pub new : Hasher
  pub update : Hasher → List ℕ → Hasher
  pub finalize : Hasher → List ℕ
  pub hex_encode : List ℕ → String

-- `CliError::file_read_error`, on a call that may fail.
unfoldable pub reading {ℓ} : {A : Type ℓ} → String → Result String A → Result CliError A
reading path (ok a) = ok a
reading path (err message) = err (CliError.file_read_error path message)

module _ (fs : Files) where
  open fs use {Reader, contents, open_file, read, try_exists}

  abbrev Shorter : Reader → Reader → Type 0
  Shorter a b = length (contents a) < length (contents b)

  Acc-below : (k : ℕ) (r : Reader) → length (contents r) < k → Acc Shorter r
  Acc-below zero r h = absurd (omega arith)
  Acc-below (suc k) r h = Acc.intro r (λ q s. Acc-below k q (omega (arith, s, h)))

  shorter_wf : WellFounded Shorter
  unfolding Acc-below
  shorter_wf = record { apply = λ r. Acc-below (suc (length (contents r))) r (omega arith) }

  next_Shorter : {r : Reader} (got : Reading contents r) → 0 < length got.bytes → Shorter got.next r
  next_Shorter {r} got h =
      omega (arith, h, length-append got.bytes (contents got.next), ap length got.advances)

  module _ (sha : Sha256) (path : String) where
    open sha use {Hasher, new, update, finalize}

    -- The loop of `hash_file`: it ends because every read but the last takes a byte from the file.
    hash_loop : (r : Reader) → Acc Shorter r → Hasher → Result CliError (List ℕ)
    unfolding dec_lt next_Shorter
    hash_loop r (Acc.intro _ smaller) hasher = elim (read r) [
      | err message ↦ err (CliError.file_read_error path message)
      | ok got ↦
          dite (dec_lt 0 (length got.bytes))
            (λ more.
              hash_loop got.next (smaller got.next (next_Shorter got more))
                (update hasher got.bytes))
            (λ _. ok (finalize hasher))
    ]

    unfoldable pub hash_file : Result CliError (List ℕ)
    unfolding hash_loop shorter_wf reading
    hash_file = do
      found ← reading path (try_exists path)
      (if found then ok tt else err (CliError.source_not_found path))
      reader ← reading path (open_file path)
      hash_loop reader (shorter_wf.apply reader) new

module _ (sha : Sha256) where
  unfoldable pub format_hash : List ℕ → String
  format_hash hash = concat ("sha256:" ∷ sha.hex_encode hash ∷ [])

  unfoldable pub compare_hash : List ℕ → String → Bool
  unfolding format_hash
  compare_hash computed expected = str_eq (format_hash computed) expected
