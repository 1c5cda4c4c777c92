-- ===== src/Verify/TrustStore/Roles.antt =====
-- The roles of the certificates in a trust store loaded by src/verify/trust_store.rs.
use atl_cli.Prelude.{
  String, Option, none, some, List, [], ◌∷◌, ◌++◌, ◌≡◌, ◌≢◌, refl, sym, subst, ap, ◌∙◌, ok, ◌>>=◌,
  Ensures, Ensures-bind, Ensures-ok,
}
use atl_cli.Core.{AtlCore}
use atl_cli.Files.{Files}
use atl_cli.Verify.TrustStore.{
  X509, add_all, load_certificates, load_tsa_trust_store, load_tsa_intermediates, anchor_store,
  add_intermediates, load_trust_material,
}
use atl_cli.Verify.TrustStore.Loaded.{AreCertificatesOf, load_certificates-AreCertificatesOf}

-- What atl-core documents of a trust store: it keeps the certificates of each role, in the order in which
-- they were added, and adding to one role leaves the other as it is.
pub record KeepsRoles (core : AtlCore) : Type 0 where
  pub anchors : core.TrustStore → List core.Certificate
  pub intermediates : core.TrustStore → List core.Certificate
  pub new_anchors : anchors core.new_store ≡ []
  pub new_intermediates : intermediates core.new_store ≡ []
  pub anchor_added :
      (s : core.TrustStore) (c : core.Certificate)
      → anchors (core.with_anchor_certificate s c) ≡ anchors s ++ (c ∷ [])
  pub anchor_aside :
      (s : core.TrustStore) (c : core.Certificate)
      → intermediates (core.with_anchor_certificate s c) ≡ intermediates s
  pub intermediate_added :
      (s : core.TrustStore) (c : core.Certificate)
      → intermediates (core.with_intermediate_certificate s c) ≡ intermediates s ++ (c ∷ [])
  pub intermediate_aside :
      (s : core.TrustStore) (c : core.Certificate)
      → anchors (core.with_intermediate_certificate s c) ≡ anchors s

append_assoc : {A : Type 0} (xs ys zs : List A) → (xs ++ ys) ++ zs ≡ xs ++ (ys ++ zs)
append_assoc [] ys zs = refl
append_assoc (x ∷ xs) ys zs = ap (λ l. x ∷ l) (append_assoc xs ys zs)

append-nil : {A : Type 0} (xs : List A) → xs ++ [] ≡ xs
append-nil [] = refl
append-nil (x ∷ xs) = ap (λ l. x ∷ l) (append-nil xs)

module _ (core : AtlCore) (x509 : X509 core.Certificate) (fs : Files)
    (roles : KeepsRoles core) where
  open roles use {anchors, intermediates}

  added :
      (role : core.TrustStore → List core.Certificate)
      (add : core.TrustStore → core.Certificate → core.TrustStore)
      → ((s : core.TrustStore) (c : core.Certificate) → role (add s c) ≡ role s ++ (c ∷ []))
      → (s : core.TrustStore) (certs : List core.Certificate)
      → role (add_all core x509 fs add s certs) ≡ role s ++ certs
  unfolding add_all
  added role add adds s [] = sym (append-nil (role s))
  added role add adds s (c ∷ certs) =
      added role add adds (add s c) certs
      ∙ ap (λ l. l ++ certs) (adds s c)
      ∙ append_assoc (role s) (c ∷ []) certs

  untouched :
      (role : core.TrustStore → List core.Certificate)
      (add : core.TrustStore → core.Certificate → core.TrustStore)
      → ((s : core.TrustStore) (c : core.Certificate) → role (add s c) ≡ role s)
      → (s : core.TrustStore) (certs : List core.Certificate)
      → role (add_all core x509 fs add s certs) ≡ role s
  unfolding add_all
  untouched role add keeps s [] = refl
  untouched role add keeps s (c ∷ certs) = untouched role add keeps (add s c) certs ∙ keeps s c

  -- The certificates of a role: those of the path that was given for it, or none.
  abbrev pub AreGiven : Option String → List core.Certificate → Type 0
  AreGiven none certs = certs ≡ []
  AreGiven (some path) certs = AreCertificatesOf core x509 fs path certs

  abbrev IsAnchored : Option String → core.TrustStore → Type 0
  IsAnchored given s = AreGiven given (anchors s) × (intermediates s ≡ [])

  anchor_store-IsAnchored :
      (given : Option String) → Ensures (IsAnchored given) (anchor_store core x509 fs given)
  unfolding anchor_store load_tsa_trust_store
  anchor_store-IsAnchored none = (roles.new_anchors, roles.new_intermediates)
  anchor_store-IsAnchored (some path) =
      Ensures-bind (IsAnchored (some path)) (load_certificates core x509 fs path "trust store") _
        λ certs loaded. (
          subst (AreCertificatesOf core x509 fs path)
              (sym (
                added anchors core.with_anchor_certificate roles.anchor_added core.new_store certs
                ∙ ap (λ l. l ++ certs) roles.new_anchors))
              (Ensures-ok (AreCertificatesOf core x509 fs path)
                (load_certificates-AreCertificatesOf core x509 fs path "trust store") loaded),
          untouched intermediates core.with_anchor_certificate roles.anchor_aside core.new_store
                certs
              ∙ roles.new_intermediates,
        )

  abbrev AreRoles : Option String → Option String → core.TrustStore → Type 0
  AreRoles given bridging s = AreGiven given (anchors s) × AreGiven bridging (intermediates s)

  add_intermediates-AreRoles :
      (given bridging : Option String) (s : core.TrustStore)
      → IsAnchored given s
      → Ensures (AreRoles given bridging) (add_intermediates core x509 fs bridging s)
  unfolding add_intermediates load_tsa_intermediates
  add_intermediates-AreRoles given none s h = h
  add_intermediates-AreRoles given (some path) s h =
      Ensures-bind (AreRoles given (some path))
        (load_certificates core x509 fs path "intermediates") _
        λ certs loaded. (
          subst (AreGiven given)
              (sym (
                untouched anchors core.with_intermediate_certificate roles.intermediate_aside s
                  certs))
              h.0,
          subst (AreCertificatesOf core x509 fs path)
              (sym (
                added intermediates core.with_intermediate_certificate roles.intermediate_added s
                  certs
                ∙ ap (λ l. l ++ certs) h.1))
              (Ensures-ok (AreCertificatesOf core x509 fs path)
                (load_certificates-AreCertificatesOf core x509 fs path "intermediates") loaded),
        )

  -- What the two paths make of the trust store: there is none exactly if neither path was given, and
  -- otherwise each role has the certificates of its own path.
  abbrev pub AsGiven : Option String → Option String → Option core.TrustStore → Type 0
  AsGiven given bridging none = (given ≡ none) × (bridging ≡ none)
  AsGiven given bridging (some s) = ((given ≡ none) → bridging ≢ none) × AreRoles given bridging s

  both_loaded :
      (given bridging : Option String)
      → ((given ≡ none) → bridging ≢ none)
      → Ensures (AsGiven given bridging) (
          anchor_store core x509 fs given >>= λ s.
          add_intermediates core x509 fs bridging s >>= λ full. ok (some full))
  both_loaded given bridging some_path =
      Ensures-bind (AsGiven given bridging) (anchor_store core x509 fs given) _ λ s anchored.
        Ensures-bind (AsGiven given bridging) (add_intermediates core x509 fs bridging s) _
          λ full bridged. (
            some_path,
            Ensures-ok (AreRoles given bridging)
                (add_intermediates-AreRoles given bridging s
                  (Ensures-ok (IsAnchored given) (anchor_store-IsAnchored given) anchored))
                bridged,
          )

  loaded-AsGiven :
      (given bridging : Option String)
      → Ensures (AsGiven given bridging) (load_trust_material core x509 fs given bridging)
  unfolding load_trust_material
  loaded-AsGiven none none = (refl, refl)
  loaded-AsGiven none (some path) = both_loaded none (some path) (λ e f. cc)
  loaded-AsGiven (some path) bridging = both_loaded (some path) bridging (λ e. cc)

  -- Every certificate of the trust store is from the path that was given for its role: the anchors are
  -- all the certificates of the first path, the intermediates all those of the second, each in the order
  -- of the sorted files, and there is no trust store exactly if neither path is given.
  pub load_trust_material-AsGiven :
      (given bridging : Option String) (store : Option core.TrustStore)
      → load_trust_material core x509 fs given bridging ≡ ok store
      → AsGiven given bridging store
  load_trust_material-AsGiven given bridging store h =
      Ensures-ok (AsGiven given bridging) (loaded-AsGiven given bridging) h
