-- ===== src/Net/Bitcoin/Laws.antt =====
-- What an accepted block header has been checked for (src/net/bitcoin.rs).
use atl_cli.Prelude.{
  ℕ, ◌≤◌, String, Bool, true, false, Option, none, some, [], ◌∷◌, ◌≡◌, ◌↔◌, refl, sym, ap, ◌∙◌,
  arith, ok, err, Ensures, Ensures-bind, Ensures-map, Ensures-ok, Result, Result-cases, ok_or,
  if◌then◌else◌, inl, inr, concat, show,
}
use atl_cli.Verify.Anchor.Sources.{HexBytes, same_hex}
use atl_cli.Net.Bitcoin.{ApiProvider, BitcoinBlockInfo, validate_block_time, genesis_block_time}
use atl_cli.Net.Bitcoin.Fetch.{
  Http, Response, Value, is_hex64, hex64, check_reported_height, check_reported_hash, read_block,
  read_first_block, fetch_block_info, fetch_two_step, fetch_single_step, get_text, get_json, trim,
}
use atl_cli.Net.Bitcoin.Answer.{
  IsNotFuture, Describes, time_key, root_key, block_url, GivesHash, IsChecked,
}

-- A block time is accepted exactly when the clock is readable and the time lies between the genesis
-- block's and two hours past the clock, and it is then returned as it came.
pub validate_block_time_iff :
    (secs t : ℕ) (now : Option ℕ)
    → (validate_block_time secs now ≡ ok t)
      ↔ ((t ≡ secs) × (genesis_block_time ≤ secs) × IsNotFuture now secs)
unfolding validate_block_time
validate_block_time_iff secs t none = ground arith
validate_block_time_iff secs t (some now) = ground arith

hex64-Ensures :
    (v : Value) (field : String)
    → Ensures (λ t. (v.as_str ≡ some t) × (is_hex64 t ≡ true)) (hex64 v field)
unfolding hex64
hex64-Ensures v field = ground arith

validate_block_time-Ensures :
    (secs : ℕ) (now : Option ℕ)
    → Ensures
        (λ t. (t ≡ secs) × (genesis_block_time ≤ t) × IsNotFuture now t)
        (validate_block_time secs now)
unfolding validate_block_time
validate_block_time-Ensures secs none = ground arith
validate_block_time-Ensures secs (some now) = ground arith

check_reported_height-ok :
    (v : Value) (height : ℕ) → check_reported_height v height ≡ ok tt → v.as_u64 ≡ some height
unfolding check_reported_height
check_reported_height-ok v height h = ground arith

guard_ok :
    (b : Bool) (message : String)
    → ◌≡◌ {A = Result String (Unit {0})} (if b then ok tt else err message) (ok tt)
    → b ≡ true
guard_ok true message h = refl
guard_ok false message h = cc

ok_or-ok :
    {A : Type 0} (message : String) (o : Option A) {a : A} → ok_or message o ≡ ok a → o ≡ some a
ok_or-ok message none h = cc
ok_or-ok message (some a) h = ground arith

module _ (x : HexBytes) (http : Http) (now : Option ℕ) where
  check_reported_hash-ok :
      (v : Value) (hash : String)
      → check_reported_hash x v hash ≡ ok tt
      → (id : String) × (v.as_str ≡ some id) × (same_hex x id hash ≡ true)
  unfolding check_reported_hash
  check_reported_hash-ok v hash h = elim (Result-cases (hex64 v "id")) [
    | inl (message, e) ↦ absurd (ground arith)
    | inr (id, e) ↦ (id, (Ensures-ok _ (hex64-Ensures v "id") e).0, ground arith)
  ]

  -- What is read of a described block, however it was asked for.
  record IsRead (two_step : Bool) (height : ℕ) (block : String → Value) (info : BitcoinBlockInfo)
      : Type 0 where
    pub height_reported : (block "height").as_u64 ≡ some height
    pub time_reported : (block (time_key two_step)).as_u64 ≡ some info.timestamp_secs
    pub root_reported : (block (root_key two_step)).as_str ≡ some info.merkle_root
    pub height_asked : info.height ≡ height
    pub after_genesis : genesis_block_time ≤ info.timestamp_secs
    pub not_future : IsNotFuture now info.timestamp_secs
    pub root_form : is_hex64 info.merkle_root ≡ true

  abbrev IsTwoStep : ℕ → String → Response → BitcoinBlockInfo → Type 0
  IsTwoStep height hash response info =
      IsRead true height response.field info
      × (info.block_hash ≡ hash)
      × ((id : String) × ((response.field "id").as_str ≡ some id) × (same_hex x id hash ≡ true))

  read_block-IsRead :
      (height : ℕ) (hash : String) (response : Response)
      → Ensures (IsTwoStep height hash response) (read_block x http now height hash response)
  unfolding read_block
  read_block-IsRead height hash response =
      let read = IsTwoStep height hash response in
      Ensures-bind read (check_reported_hash x (response.field "id") hash) _ λ u same.
        Ensures-bind read (check_reported_height (response.field "height") height) _ λ v bound.
          Ensures-bind read (ok_or _ (response.field "timestamp").as_u64) _ λ secs told.
            Ensures-bind read (validate_block_time secs now) _ λ t accepted.
              Ensures-bind read (hex64 (response.field "merkle_root") "merkle_root") _ λ root given.
                let (is_told, after, before) =
                  Ensures-ok _ (validate_block_time-Ensures secs now) accepted in
                let (reported, form) = Ensures-ok _ (hex64-Ensures _ _) given in
                (
                  record {
                    height_reported = check_reported_height-ok _ height bound;
                    time_reported = ok_or-ok _ _ told ∙ ap some (sym is_told);
                    root_reported = reported;
                    height_asked = refl;
                    after_genesis = after;
                    not_future = before;
                    root_form = form;
                  },
                  refl,
                  check_reported_hash-ok _ hash same,
                )

  abbrev IsSingleStep : ℕ → Response → BitcoinBlockInfo → Type 0
  IsSingleStep height response info =
      (block : String → Value) × (response.first_block ≡ some block)
      × IsRead false height block info
      × ((block "hash").as_str ≡ some info.block_hash)
      × (is_hex64 info.block_hash ≡ true)

  read_first_block-IsRead :
      (height : ℕ) (response : Response)
      → Ensures (IsSingleStep height response) (read_first_block x http now height response)
  unfolding read_first_block
  read_first_block-IsRead height response =
      let read = IsSingleStep height response in
      Ensures-bind read (ok_or _ response.first_block) _ λ block found.
        Ensures-bind read (check_reported_height (block "height") height) _ λ v bound.
          Ensures-bind read (ok_or _ (block "time").as_u64) _ λ secs told.
            Ensures-bind read (validate_block_time secs now) _ λ t accepted.
              Ensures-bind read (hex64 (block "hash") "blocks[0].hash") _ λ hash given.
                Ensures-bind read (hex64 (block "mrkl_root") "blocks[0].mrkl_root") _ λ root given'.
                  let (is_told, after, before) =
                    Ensures-ok _ (validate_block_time-Ensures secs now) accepted in
                  let (hash_reported, hash_form) = Ensures-ok _ (hex64-Ensures _ _) given in
                  let (root_reported, root_form) = Ensures-ok _ (hex64-Ensures _ _) given' in
                  (
                    block,
                    ok_or-ok _ _ found,
                    record {
                      height_reported = check_reported_height-ok _ height bound;
                      time_reported = ok_or-ok _ _ told ∙ ap some (sym is_told);
                      root_reported = root_reported;
                      height_asked = refl;
                      after_genesis = after;
                      not_future = before;
                      root_form = root_form;
                    },
                    hash_reported,
                    hash_form,
                  )

  -- The parts of `IsChecked`, put together.
  checked_of :
      (two_step : Bool) (url : String) (height : ℕ) (response : Response) (block : String → Value)
      (info : BitcoinBlockInfo)
      → get_json x http now (block_url two_step url height info.block_hash) ≡ ok response
      → Describes two_step response block
      → IsRead two_step height block info
      → GivesHash x http now two_step url height block info.block_hash
      → is_hex64 info.block_hash ≡ true
      → IsChecked x http now two_step url height info
  checked_of two_step url height response block info answered described read given form = record {
    response = response;
    block = block;
    answered = answered;
    described = described;
    height_reported = read.height_reported;
    time_reported = read.time_reported;
    root_reported = read.root_reported;
    hash_given = given;
    height_asked = read.height_asked;
    after_genesis = read.after_genesis;
    not_future = read.not_future;
    hash_form = form;
    root_form = read.root_form;
  }

  fetch_two_step-IsChecked :
      (url : String) (height : ℕ)
      → Ensures (IsChecked x http now true url height) (fetch_two_step x http now url height)
  unfolding fetch_two_step
  fetch_two_step-IsChecked url height =
      let checked = IsChecked x http now true url height in
      Ensures-bind checked
        (get_text x http now (concat (url ∷ "/block-height/" ∷ show height ∷ []))) _
        λ body got. Ensures-bind checked (if is_hex64 (trim body) then ok tt else err _) _ λ _ form.
          Ensures-bind checked (get_json x http now (concat (url ∷ "/block/" ∷ trim body ∷ []))) _
            λ response answered.
              Ensures-map (read_block x http now height (trim body) response)
                (λ info (read, same, given).
                  checked_of true url height response response.field info (rw (same) answered) refl
                    read ((body, got, sym same), rw (same) given)
                    (rw (same) (guard_ok (is_hex64 (trim body)) _ form)))
                (read_block-IsRead height (trim body) response)

  fetch_single_step-IsChecked :
      (url : String) (height : ℕ)
      → Ensures (IsChecked x http now false url height) (fetch_single_step x http now url height)
  unfolding fetch_single_step
  fetch_single_step-IsChecked url height =
      Ensures-bind (IsChecked x http now false url height)
        (get_json x http now (concat (url ∷ "/block-height/" ∷ show height ∷ "?format=json" ∷ [])))
        _
        λ response answered.
          Ensures-map (read_first_block x http now height response)
            (λ info (block, found, read, given, form).
              checked_of false url height response block info answered found read given form)
            (read_first_block-IsRead height response)

  by_steps :
      (two_step : Bool) (url : String) (height : ℕ)
      → Ensures (IsChecked x http now two_step url height) (
          if two_step
          then fetch_two_step x http now url height
          else fetch_single_step x http now url height)
  by_steps true url height = fetch_two_step-IsChecked url height
  by_steps false url height = fetch_single_step-IsChecked url height

  pub fetch_block_info-IsChecked :
      (p : ApiProvider) (height : ℕ)
      → Ensures
          (IsChecked x http now p.two_step p.base_url height)
          (fetch_block_info x http now p height)
  unfolding fetch_block_info
  fetch_block_info-IsChecked p height = by_steps p.two_step p.base_url height

  -- Whatever a provider answers, a header that is accepted from it is what the answer to the request for
  -- the block says: the block states itself that it has the height that was asked for, and its time,
  -- Merkle root and hash are those of the header. The time is plausible, hash and root have 64
  -- hexadecimal digits, and a two-step provider gave the hash for that height before it described the
  -- block, which states that same hash.
  pub fetched-IsChecked :
      (p : ApiProvider) (height : ℕ) (info : BitcoinBlockInfo)
      → fetch_block_info x http now p height ≡ ok info
      → IsChecked x http now p.two_step p.base_url height info
  fetched-IsChecked p height info fetched =
      Ensures-ok (IsChecked x http now p.two_step p.base_url height)
        (fetch_block_info-IsChecked p height) fetched
