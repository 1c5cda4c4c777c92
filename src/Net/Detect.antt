-- ===== src/Net/Detect.antt =====
-- src/net/detect.rs: the connectivity probe.
use atl_cli.Prelude.{
  ℕ, String, Bool, true, false, ◌&&◌, ◌≡◌, refl, ◌↔◌, arith, List, [], ◌∷◌, map, any, is_empty, leb,
  ltb, if◌then◌else◌, Result, ok, err,
}

abbrev connectivity_endpoints : List String
connectivity_endpoints =
    "https://www.google.com/generate_204" ∷ "https://www.cloudflare.com/cdn-cgi/trace"
    ∷ "https://detectportal.firefox.com/success.txt" ∷ []

-- The crates `tokio`, `reqwest` and `futures`: the runtime, a client for an endpoint, the status code of
-- its answer, and whether the first success among checks was met.
pub record Connectivity : Type 0 where
  pub build_runtime : Result String (Unit {0})
  pub build_client : String → Result String (Unit {0})
  pub get : String → Result String ℕ
  pub select_ok : List (Result (Unit {0}) (Unit {0})) → Result (Unit {0}) (Unit {0})

-- `is_success` of a status code.
is_success : ℕ → Bool
is_success code = leb 200 code && ltb code 300

answered : Result String ℕ → Bool
unfolding is_success
answered (ok code) = is_success code
answered (err _) = false

unfoldable pub check_endpoint : Connectivity → String → Bool
unfolding answered
check_endpoint c url = elim (c.build_client url) [ ok _ ↦ answered (c.get url) | err _ ↦ false ]

check : Connectivity → String → Result (Unit {0}) (Unit {0})
unfolding check_endpoint
check c url = if check_endpoint c url then ok tt else err tt

abbrev pub is_ok : Result (Unit {0}) (Unit {0}) → Bool
is_ok (ok _) = true
is_ok (err _) = false

unfoldable pub has_internet : Connectivity → Bool
unfolding check
has_internet c =
    let checks = map (check c) connectivity_endpoints in
    if is_empty checks then false else is_ok (c.select_ok checks)

-- Both versions of `has_internet_blocking`, by the feature `online` of the build.
unfoldable pub has_internet_blocking : (online_feature : Bool) → Connectivity → Bool
unfolding has_internet
has_internet_blocking online_feature c =
    if online_feature then elim c.build_runtime [ ok _ ↦ has_internet c | err _ ↦ false ] else false

-- What `futures` documents of `select_ok`: it is a success exactly if one of the checks is.
abbrev pub Selects : Connectivity → Type 0
Selects c =
    (checks : List (Result (Unit {0}) (Unit {0})))
    → c.select_ok checks ≡ (if any is_ok checks then ok tt else err tt)

any-check :
    (c : Connectivity) (urls : List String)
    → any is_ok (map (check c) urls) ≡ any (check_endpoint c) urls
unfolding check
any-check c [] = refl
any-check c (url ∷ urls) = ground (arith, any-check c urls)

-- The probe finds a connection exactly if the build has the feature, the runtime starts, and some
-- endpoint answers.
pub has_internet_blocking_iff :
    (online_feature : Bool) (c : Connectivity)
    → Selects c
    → (has_internet_blocking online_feature c ≡ true) ↔ (
        (online_feature ≡ true)
        × (c.build_runtime ≡ ok tt)
        × (any (check_endpoint c) connectivity_endpoints ≡ true))
unfolding has_internet_blocking has_internet
has_internet_blocking_iff online_feature c selects =
    ground
      (arith, selects (map (check c) connectivity_endpoints), any-check c connectivity_endpoints)
