-- ===== src/Verify/TrustStore.antt =====
-- src/verify/trust_store.rs: the certificates that `--tsa-trust-store` and `--tsa-intermediates` name.
pub mod Loaded
pub mod Roles
use Prim.Native.Char.{code}
use Prim.Native.String
use atl_cli.Prelude.{
  ℕ, zero, suc, ◌+◌, String, Bool, true, false, ◌&&◌, ◌||◌, Option, none, some, List, [], ◌∷◌, ◌++◌,
  is_empty, ltb, ◌==◌, concat, if◌then◌else◌, Result, ok, err, map_err, ◌>>=◌, ◌>>◌,
}
use atl_cli.Core.{AtlCore}
use atl_cli.Error.{CliError}
use atl_cli.Files.{Files, DirEntry, path_file_name}
use atl_cli.Verify.File.{reading}

-- `slice[..min(len, n)]`.
take : {A : Type 0} → ℕ → List A → List A
take zero xs = []
take (suc n) [] = []
take (suc n) (x ∷ xs) = x ∷ take n xs

-- Whether a list starts with as many bytes `-`.
starts_with_dashes : ℕ → List ℕ → Bool
starts_with_dashes zero bytes = true
starts_with_dashes (suc n) [] = false
starts_with_dashes (suc n) (b ∷ bytes) = b == b'-' && starts_with_dashes n bytes

-- `windows(5).any(|w| w == b"-----")`.
has_boundary : List ℕ → Bool
unfolding starts_with_dashes
has_boundary [] = false
has_boundary (b ∷ bytes) = starts_with_dashes 5 (b ∷ bytes) || has_boundary bytes

abbrev scan_limit : ℕ
scan_limit = 4096

unfoldable pub looks_like_pem : List ℕ → Bool
unfolding has_boundary take
looks_like_pem bytes = has_boundary (take scan_limit bytes)

-- `file_name().and_then(to_str).is_some_and(|name| name.starts_with('.'))`.
hidden_name : Option String → Bool
hidden_name none = false
hidden_name (some String.[]) = false
hidden_name (some (String.◌∷◌ c s)) = code c == b'.'

unfoldable pub is_hidden : String → Bool
unfolding hidden_name path_file_name
is_hidden path = hidden_name (path_file_name path)

-- The order of two paths of one directory: that of their characters, with the separator first.
rank : ℕ → ℕ
rank c = if c == b'/' then 0 else suc c

unfoldable pub path_leb : String → String → Bool
unfolding rank
path_leb String.[] q = true
path_leb (String.◌∷◌ c p) String.[] = false
path_leb (String.◌∷◌ c p) (String.◌∷◌ d q) =
    let rest = path_leb p q in
    if code c == code d then rest else ltb (rank (code c)) (rank (code d))

insert_path : String → List String → List String
insert_path path [] = path ∷ []
insert_path path (q ∷ qs) =
    let rest = insert_path path qs in if path_leb path q then path ∷ q ∷ qs else q ∷ rest

-- `sort` of a list of paths.
unfoldable pub sort_paths : List String → List String
unfolding insert_path
sort_paths [] = []
sort_paths (path ∷ paths) = insert_path path (sort_paths paths)

-- The refusal of an empty list.
unfoldable pub found_some : {A : Type 0} → String → List A → Result CliError (Unit {0})
found_some message [] = err (CliError.trust_store_error message)
found_some message (x ∷ xs) = ok tt

module _ (fs : Files) where
  unfoldable pub is_candidate : String → Bool
  unfolding is_hidden
  is_candidate path = if is_hidden path then false else fs.is_file path

  -- The loop of `list_certificate_files`.
  unfoldable pub candidate_files :
      (dir : String) → List (Result String DirEntry) → Result CliError (List String)
  unfolding is_candidate reading
  candidate_files dir [] = ok []
  candidate_files dir (entry ∷ entries) = do
    e ← reading dir entry
    rest ← candidate_files dir entries
    ok (if is_candidate e.path then e.path ∷ rest else rest)

  unfoldable pub list_certificate_files : (dir role : String) → Result CliError (List String)
  unfolding candidate_files sort_paths found_some
  list_certificate_files dir role = do
    listing ← reading dir (fs.read_dir dir)
    found ← candidate_files dir listing
    found_some (concat ("no certificate files found in " ∷ role ∷ " directory: " ∷ dir ∷ []))
        (sort_paths found)
    ok (sort_paths found)

-- The two parsers of the crate `x509_cert`.
pub record X509 (Certificate : Type 0) : Type 0 where
  pub load_pem_chain : List ℕ → Result String (List Certificate)
  pub from_der : List ℕ → Result String Certificate

module _ (core : AtlCore) (x509 : X509 core.Certificate) where
  unfoldable pub parse_certificates :
      (path : String) → List ℕ → Result CliError (List core.Certificate)
  unfolding looks_like_pem
  parse_certificates path bytes =
      if looks_like_pem bytes
      then map_err
          (λ e.
            CliError.trust_store_error
              (concat ("failed to parse PEM certificate(s) in '" ∷ path ∷ "': " ∷ e ∷ [])))
          (x509.load_pem_chain bytes)
      else (map_err
            (λ e.
              CliError.trust_store_error
                (concat ("failed to parse DER certificate in '" ∷ path ∷ "': " ∷ e ∷ [])))
            (x509.from_der bytes)
          >>= λ cert. ok (cert ∷ []))

  module _ (fs : Files) where
    unfoldable pub load_certs_from_file : String → Result CliError (List core.Certificate)
    unfolding parse_certificates
    load_certs_from_file path = do
      bytes ← reading path (fs.read_bytes path)
      parse_certificates path bytes

    -- The loop of `load_certificates`.
    unfoldable pub load_all : List String → Result CliError (List core.Certificate)
    unfolding load_certs_from_file
    load_all [] = ok []
    load_all (file ∷ files) = do
      certs ← load_certs_from_file file
      rest ← load_all files
      ok (certs ++ rest)

    unfoldable pub certificate_files : (path role : String) → Result CliError (List String)
    unfolding list_certificate_files
    certificate_files path role =
        if fs.is_dir path then list_certificate_files fs path role else ok (path ∷ [])

    unfoldable pub load_certificates :
        (path role : String) → Result CliError (List core.Certificate)
    unfolding certificate_files load_all found_some
    load_certificates path role = do
      files ← certificate_files path role
      certs ← load_all files
      found_some (concat ("no certificates found under " ∷ role ∷ " path: " ∷ path ∷ [])) certs
      ok certs

    -- `Iterator::fold` over the certificates.
    unfoldable pub add_all :
        (core.TrustStore → core.Certificate → core.TrustStore)
        → core.TrustStore
        → List core.Certificate
        → core.TrustStore
    add_all add store [] = store
    add_all add store (cert ∷ certs) = add_all add (add store cert) certs

    unfoldable pub load_tsa_trust_store : String → Result CliError core.TrustStore
    unfolding load_certificates add_all
    load_tsa_trust_store path = do
      certs ← load_certificates path "trust store"
      ok (add_all core.with_anchor_certificate core.new_store certs)

    unfoldable pub load_tsa_intermediates :
        core.TrustStore → String → Result CliError core.TrustStore
    unfolding load_certificates add_all
    load_tsa_intermediates store path = do
      certs ← load_certificates path "intermediates"
      ok (add_all core.with_intermediate_certificate store certs)

    anchor_store : Option String → Result CliError core.TrustStore
    unfolding load_tsa_trust_store
    anchor_store none = ok core.new_store
    anchor_store (some path) = load_tsa_trust_store path

    add_intermediates : Option String → core.TrustStore → Result CliError core.TrustStore
    unfolding load_tsa_intermediates
    add_intermediates none store = ok store
    add_intermediates (some path) store = load_tsa_intermediates store path

    -- `load_trust_material` of src/commands/verify.rs, for the two paths that the arguments give.
    unfoldable pub load_trust_material :
        (anchors intermediates : Option String) → Result CliError (Option core.TrustStore)
    unfolding anchor_store add_intermediates
    load_trust_material none none = ok none
    load_trust_material anchors intermediates = do
      store ← anchor_store anchors
      full ← add_intermediates intermediates store
      ok (some full)
