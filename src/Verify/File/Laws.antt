-- ===== src/Verify/File/Laws.antt =====
-- The chunked hash of src/verify/file.rs is the hash of the whole file.
use mathlib.Core.Logic.{dif_pos, dif_neg}
use mathlib.Core.WellFounded.{Acc}
use native.Mathlib.Bridge.{le_prop}
use native.Mathlib.Decide.{dec_lt}
use atl_cli.Prelude.{
  ℕ, ◌<◌, String, true, List, [], ◌∷◌, ◌++◌, ◌≡◌, ◌≢◌, refl, sym, ap, ◌∙◌, ◌⊎◌, arith, length, inl,
  inr, Result, ok, err, Result-cases, Ensures, Ensures-bind, Ensures-ok, if◌then◌else◌,
}
use atl_cli.Error.{CliError}
use atl_cli.Files.{Files, Reading}
use atl_cli.Verify.File.{Sha256, Shorter, shorter_wf, next_Shorter, hash_loop, hash_file, reading}

-- What the crate documents of a hasher: feeding it in pieces is feeding it their concatenation.
pub record IsStreaming (sha : Sha256) : Type 0 where
  pub update_nothing : (h : sha.Hasher) → sha.update h [] ≡ h
  pub update-update :
      (h : sha.Hasher) (a b : List ℕ) → sha.update (sha.update h a) b ≡ sha.update h (a ++ b)

-- The hash of a list of bytes, in one piece.
abbrev pub digest : Sha256 → List ℕ → List ℕ
digest sha bytes = sha.finalize (sha.update sha.new bytes)

nil_of_length : (xs : List ℕ) → length xs ≡ 0 → xs ≡ []
nil_of_length [] h = refl
nil_of_length (x ∷ xs) h = absurd (omega arith)

pub reading-ok {ℓ} :
    {A : Type ℓ} (path : String) (m : Result String A) {a : A} → reading path m ≡ ok a → m ≡ ok a
unfolding reading
reading-ok path (ok a) h = ground arith
reading-ok path (err message) h = cc

module _ (fs : Files) where
  -- A reader that is reached from another one by reading on: one of the same open file.
  pub data ReadsOn (last : fs.Reader) : fs.Reader → Type 0 where
    here : (r : fs.Reader) → r ≡ last → ReadsOn last r
    further :
        (r : fs.Reader) (got : Reading fs.contents r)
        → fs.read r ≡ ok got
        → ReadsOn last got.next
        → ReadsOn last r

module _ (fs : Files) (sha : Sha256) (streams : IsStreaming sha) (path : String) where
  -- A read of the file that failed, and the error that reports it.
  pub record HasFailed (start : fs.Reader) (result : Result CliError (List ℕ)) : Type 0 where
    pub reader : fs.Reader
    pub reached : ReadsOn fs reader start
    pub message : String
    pub failed : fs.read reader ≡ err message
    pub reported : result ≡ err (CliError.file_read_error path message)

  updated :
      (r : fs.Reader) (h : sha.Hasher) (got : Reading fs.contents r)
      → sha.update (sha.update h got.bytes) (fs.contents got.next) ≡ sha.update h (fs.contents r)
  updated r h got =
      streams.update-update h got.bytes (fs.contents got.next)
      ∙ ap (sha.update h) (sym got.advances)

  ended :
      (r : fs.Reader) (h : sha.Hasher) (got : Reading fs.contents r)
      → ¬ (0 < length got.bytes)
      → sha.update h (fs.contents r) ≡ h
  ended r h got no_more =
      ap (sha.update h) (nil_of_length (fs.contents r) (got.ends (omega arith)))
      ∙ streams.update_nothing h

  -- The loop hashes all that lies ahead of the reader, unless a read fails.
  hash_loop-digest :
      (r : fs.Reader) (w : Acc (Shorter fs) r) (h : sha.Hasher)
      → (hash_loop fs sha path r w h ≡ ok (sha.finalize (sha.update h (fs.contents r))))
        ⊎ HasFailed r (hash_loop fs sha path r w h)
  unfolding hash_loop
  hash_loop-digest r (Acc.intro _ smaller) h = elim (Result-cases (fs.read r)) [
    | inl (message, e) ↦ inr (record {
      reader = r;
      reached = ReadsOn.here r refl;
      message = message;
      failed = e;
      reported = rw (hash_loop, e) refl;
    })
    | inr (got, e) ↦
        rw (hash_loop, e)
          (elim (dec_lt 0 (length got.bytes)) [
            | yes more ↦
                rw (dif_pos (dec_lt 0 (length got.bytes)) le_prop more)
                  (elim (hash_loop-digest got.next (smaller got.next (next_Shorter fs got more))
                    (sha.update h got.bytes)) [
                      | inl done ↦ inl (done ∙ ap (λ u. ok (sha.finalize u)) (updated r h got))
                      | inr failed ↦ inr (record {
                        reader = failed.reader;
                        reached = ReadsOn.further r got e failed.reached;
                        message = failed.message;
                        failed = failed.failed;
                        reported = failed.reported;
                      })
                    ])
            | no none_left ↦
                rw (dif_neg (dec_lt 0 (length got.bytes)) none_left)
                  (inl (ap (λ u. ok (sha.finalize u)) (sym (ended r h got none_left))))
          ])
  ]

  -- A file that is hashed was opened, and its hash is that of all its bytes in one piece.
  pub hash_file-digest :
      (d : List ℕ)
      → hash_file fs sha path ≡ ok d
      → (r : fs.Reader) × (fs.open_file path ≡ ok r) × (d ≡ digest sha (fs.contents r))
  unfolding hash_file reading
  hash_file-digest d h = Ensures-ok IsDigest hashed h
    where
      IsDigest : List ℕ → Type 0
      IsDigest d = (r : fs.Reader) × (fs.open_file path ≡ ok r) × (d ≡ digest sha (fs.contents r))

      of_loop :
          (r : fs.Reader)
          → fs.open_file path ≡ ok r
          → Ensures IsDigest (hash_loop fs sha path r ((shorter_wf fs).apply r) sha.new)
      of_loop r opened = elim (hash_loop-digest r ((shorter_wf fs).apply r) sha.new) [
        | inl done ↦ rw (done) (r, opened, refl)
        | inr failed ↦ rw (failed.reported) tt
      ]

      hashed : Ensures IsDigest (hash_file fs sha path)
      hashed = Ensures-bind IsDigest (reading path (fs.try_exists path)) _ λ found _.
          Ensures-bind IsDigest (if found then ok tt else err (CliError.source_not_found path)) _
            λ _ _.
              Ensures-bind IsDigest (reading path (fs.open_file path)) _
                λ r opened. of_loop r (reading-ok path (fs.open_file path) opened)

  -- With a hash function that may be fed in pieces, a file that exists and opens, and of which no read
  -- fails, whatever happens to reads of other files, is hashed: the loop ends, and gives the hash of all
  -- the bytes of the file in one piece, however they were cut into chunks.
  pub hash_file_whole :
      (r : fs.Reader)
      → fs.try_exists path ≡ ok true
      → fs.open_file path ≡ ok r
      → ((q : fs.Reader) (message : String) → ReadsOn fs q r → fs.read q ≢ err message)
      → hash_file fs sha path ≡ ok (digest sha (fs.contents r))
  unfolding hash_file reading
  hash_file_whole r exists opened readable =
      rw (exists, opened)
        (elim (hash_loop-digest r ((shorter_wf fs).apply r) sha.new) [
          | inl done ↦ done
          | inr failed ↦ absurd (readable failed.reader failed.message failed.reached failed.failed)
        ])
