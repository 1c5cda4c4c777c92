-- ===== src/Verify/TrustStore/Loaded.antt =====
-- What a trust store loaded by src/verify/trust_store.rs holds.
use mathlib.Core.List.{Permᴰ}
use mathlib.Core.List.Permᴰ
use atl_cli.Prelude.{
  String, Bool, true, false, List, [], ◌∷◌, ◌++◌, ◌≡◌, refl, subst, ap, ◌∙◌, arith, is_empty, map,
  filter, ◌⊎◌, inl, inr, if◌then◌else◌, Result, ok, err, Ensures, Ensures-bind, Ensures-ok,
  Ensures-map,
}
use atl_cli.Core.{AtlCore}
use atl_cli.Files.{Files, DirEntry}
use atl_cli.Verify.File.{reading}
use atl_cli.Verify.File.Laws.{reading-ok}
use atl_cli.Verify.TrustStore.{
  rank, path_leb, insert_path, sort_paths, is_candidate, found_some, candidate_files,
  list_certificate_files, X509, load_certs_from_file, load_all, certificate_files,
  load_certificates,
}

-- Of two paths one comes first.
path_leb_total : (p q : String) → path_leb p q ≡ false → path_leb q p ≡ true
unfolding path_leb rank
path_leb_total String.[] q h = cc
path_leb_total (String.◌∷◌ c p) String.[] h = refl
path_leb_total (String.◌∷◌ c p) (String.◌∷◌ d q) h = ground (arith, path_leb_total p q)

abbrev pub IsSorted : List String → Type 0
IsSorted [] = Unit
IsSorted (p ∷ []) = Unit
IsSorted (p ∷ q ∷ qs) = (path_leb p q ≡ true) × IsSorted (q ∷ qs)

insert_path-IsSorted :
    (path : String) (qs : List String) → IsSorted qs → IsSorted (insert_path path qs)
unfolding insert_path
insert_path-IsSorted path [] h = tt
insert_path-IsSorted path (q ∷ []) h = ground (arith, path_leb_total path q)
insert_path-IsSorted path (q ∷ r ∷ qs) h =
    ground (arith, path_leb_total path q, insert_path-IsSorted path (r ∷ qs) h.1)

sort_paths-IsSorted : (paths : List String) → IsSorted (sort_paths paths)
unfolding sort_paths
sort_paths-IsSorted [] = tt
sort_paths-IsSorted (path ∷ paths) =
    insert_path-IsSorted path (sort_paths paths) (sort_paths-IsSorted paths)

insert_path-Perm : (path : String) (qs : List String) → Permᴰ (insert_path path qs) (path ∷ qs)
unfolding insert_path
insert_path-Perm path [] = Permᴰ.cons refl Permᴰ.nil
insert_path-Perm path (q ∷ qs) = place (path_leb path q) (insert_path-Perm path qs)
  where
    place :
        (b : Bool)
        → Permᴰ (insert_path path qs) (path ∷ qs)
        → Permᴰ (if b then path ∷ q ∷ qs else q ∷ insert_path path qs) (path ∷ q ∷ qs)
    place true rest = Permᴰ.refl (path ∷ q ∷ qs)
    place false rest = Permᴰ.trans (Permᴰ.cons refl rest) (Permᴰ.swap refl refl)

sort_paths-Perm : (paths : List String) → Permᴰ (sort_paths paths) paths
unfolding sort_paths
sort_paths-Perm [] = Permᴰ.nil
sort_paths-Perm (path ∷ paths) =
    Permᴰ.trans (insert_path-Perm path (sort_paths paths)) (Permᴰ.cons refl (sort_paths-Perm paths))

found_some-ok :
    {A : Type 0} {u : Unit {0}} (message : String) (xs : List A)
    → found_some message xs ≡ ok u
    → is_empty xs ≡ false
unfolding found_some
found_some-ok message [] h = cc
found_some-ok message (x ∷ xs) h = refl

module _ (fs : Files) (dir : String) where
  abbrev candidate_paths : List DirEntry → List String
  candidate_paths entries = filter (is_candidate fs) (map (λ (e : DirEntry). e.path) entries)

  -- A listing without an unreadable entry, and its candidate_paths.
  abbrev IsListed : List (Result String DirEntry) → List String → Type 0
  IsListed listing found =
      (entries : List DirEntry) × (listing ≡ map ok entries) × (found ≡ candidate_paths entries)

  candidate_files-IsListed :
      (listing : List (Result String DirEntry))
      → Ensures (IsListed listing) (candidate_files fs dir listing)
  unfolding candidate_files reading
  candidate_files-IsListed [] = ([], refl, refl)
  candidate_files-IsListed (err message ∷ listing) = tt
  candidate_files-IsListed (ok e ∷ listing) =
      Ensures-bind (IsListed (ok e ∷ listing)) (candidate_files fs dir listing) _ λ rest found.
        let (entries, all_read, kept) =
          Ensures-ok (IsListed listing) (candidate_files-IsListed listing) found in
        (
          e ∷ entries,
          ap (λ l. ok e ∷ l) all_read,
          ap (λ l. if is_candidate fs e.path then e.path ∷ l else l) kept,
        )

  -- The files of a directory of certificates: every entry of it was read, and the files are those of the
  -- entries that are neither hidden nor anything but a file, in order, and there is one.
  pub record IsDirectory (files : List String) : Type 0 where
    pub entries : List DirEntry
    pub all_read : fs.read_dir dir ≡ ok (map ok entries)
    pub kept : Permᴰ files (candidate_paths entries)
    pub sorted : IsSorted files
    pub some_file : is_empty files ≡ false

  list_certificate_files-IsDirectory :
      (role : String) → Ensures IsDirectory (list_certificate_files fs dir role)
  unfolding list_certificate_files
  list_certificate_files-IsDirectory role =
      Ensures-bind IsDirectory (reading dir (fs.read_dir dir)) _ λ listing opened.
        Ensures-bind IsDirectory (candidate_files fs dir listing) _ λ found listed.
          Ensures-bind IsDirectory (found_some _ (sort_paths found)) _ λ u some_file.
            let (entries, all_read, kept) =
              Ensures-ok (IsListed listing) (candidate_files-IsListed listing) listed in
            record {
              entries = entries;
              all_read = reading-ok dir (fs.read_dir dir) opened ∙ ap ok all_read;
              kept = subst (Permᴰ (sort_paths found)) kept (sort_paths-Perm found);
              sorted = sort_paths-IsSorted found;
              some_file = found_some-ok _ (sort_paths found) some_file;
            }

module _ (core : AtlCore) (x509 : X509 core.Certificate) (fs : Files) where
  -- The certificates of files, each of which was parsed as a whole, in the order of the files.
  abbrev IsParsed : List String → List core.Certificate → Type 0
  IsParsed [] certs = certs ≡ []
  IsParsed (file ∷ files) certs =
      (own rest : List core.Certificate) × (load_certs_from_file core x509 fs file ≡ ok own)
      × (certs ≡ own ++ rest)
      × IsParsed files rest

  load_all-IsParsed : (files : List String) → Ensures (IsParsed files) (load_all core x509 fs files)
  unfolding load_all
  load_all-IsParsed [] = refl
  load_all-IsParsed (file ∷ files) =
      Ensures-bind (IsParsed (file ∷ files)) (load_certs_from_file core x509 fs file) _
        λ own parsed.
          Ensures-bind (IsParsed (file ∷ files)) (load_all core x509 fs files) _ λ rest found.
            (own, rest, parsed, refl, Ensures-ok (IsParsed files) (load_all-IsParsed files) found)

  -- The files that a path names: itself, or those of the directory.
  abbrev pub AreFilesOf : String → List String → Type 0
  AreFilesOf path files =
      ((fs.is_dir path ≡ false) × (files ≡ path ∷ []))
      ⊎ ((fs.is_dir path ≡ true) × IsDirectory fs path files)

  -- The certificates of a path: all those of all its files, and at least one.
  pub record AreCertificatesOf (path : String) (certs : List core.Certificate) : Type 0 where
    pub files : List String
    pub of_path : AreFilesOf path files
    pub parsed : IsParsed files certs
    pub some_certificate : is_empty certs ≡ false

  certificate_files-AreFilesOf :
      (path role : String) → Ensures (AreFilesOf path) (certificate_files core x509 fs path role)
  unfolding certificate_files
  certificate_files-AreFilesOf path role = pick (fs.is_dir path) refl
    where
      pick :
          (b : Bool)
          → fs.is_dir path ≡ b
          → Ensures
              (AreFilesOf path)
              (if b then list_certificate_files fs path role else ok (path ∷ []))
      pick false e = inl (e, refl)
      pick true e =
          Ensures-map (list_certificate_files fs path role) (λ files d. inr (e, d))
            (list_certificate_files-IsDirectory fs path role)

  pub load_certificates-AreCertificatesOf :
      (path role : String)
      → Ensures (AreCertificatesOf path) (load_certificates core x509 fs path role)
  unfolding load_certificates
  load_certificates-AreCertificatesOf path role =
      let wanted = AreCertificatesOf path in
      Ensures-bind wanted (certificate_files core x509 fs path role) _ λ files named.
        Ensures-bind wanted (load_all core x509 fs files) _ λ certs loaded.
          Ensures-bind wanted (found_some _ certs) _ λ u some_certificate. record {
            files = files;
            of_path = Ensures-ok (AreFilesOf path) (certificate_files-AreFilesOf path role) named;
            parsed = Ensures-ok (IsParsed files) (load_all-IsParsed files) loaded;
            some_certificate = found_some-ok _ certs some_certificate;
          }
