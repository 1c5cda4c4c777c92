-- ===== src/Net/Bitcoin/Fetch.antt =====
-- src/net/bitcoin.rs: asking one provider for one block. The HTTP client and the JSON values of the
-- crates `reqwest` and `serde_json` are parameters.
use Prim.Native.Char.{Char, code}
use Prim.Native.String.{len}
use atl_cli.Prelude.{
  ℕ, String, str_eq, Bool, true, not, ◌&&◌, ◌||◌, Option, none, some, [], ◌∷◌, Result, ok, err,
  ◌>>=◌, ◌>>◌, map_err, ok_or, leb, ◌==◌, if◌then◌else◌, concat, show,
}
use atl_cli.Verify.Anchor.Sources.{HexBytes, same_hex}
use atl_cli.Net.Bitcoin.{ApiProvider, BitcoinBlockInfo, validate_block_time}

-- `serde_json::Value` through `as_str` and `as_u64`, which are `None` on a value of another kind.
pub record Value : Type 0 where
  pub as_str : Option String
  pub as_u64 : Option ℕ

-- A decoded response through `response["key"]`, and through `response["blocks"].get(0)`.
pub record Response : Type 0 where
  pub field : String → Value
  pub first_block : Option (String → Value)

-- One HTTP client: an error is the `Display` of the client's own.
pub record Http : Type 1 where
  pub Reply : Type 0
  pub send : String → Result String Reply
  pub error_for_status : Reply → Result String Reply
  pub text : Reply → Result String String
  pub json : Reply → Result String Response

abbrev prefixed : String → String → String
prefixed p e = concat (p ∷ e ∷ [])

is_ascii_hexdigit : Char → Bool
is_ascii_hexdigit c =
    (leb b'0' (code c) && leb (code c) b'9')
    || ((leb b'a' (code c) && leb (code c) b'f') || (leb b'A' (code c) && leb (code c) b'F'))

all_chars : (Char → Bool) → String → Bool
all_chars p String.[] = true
all_chars p (String.◌∷◌ c s) = p c && all_chars p s

-- `len() != 64 || !chars().all(is_ascii_hexdigit)`, negated.
unfoldable pub is_hex64 : String → Bool
unfolding all_chars is_ascii_hexdigit
is_hex64 s = not (not (len s == 64) || not (all_chars is_ascii_hexdigit s))

-- The characters with the Unicode property `White_Space`.
is_whitespace : Char → Bool
is_whitespace c =
    let n = code c in
    (leb 0x9 n && leb n 0xd)
    || (n == 0x20
        || (n == 0x85
            || (n == 0xa0
                || (n == 0x1680
                    || ((leb 0x2000 n && leb n 0x200a)
                        || (n == 0x2028
                            || (n == 0x2029 || (n == 0x202f || (n == 0x205f || n == 0x3000)))))))))

trim_start : String → String
trim_start String.[] = String.[]
trim_start (String.◌∷◌ c s) =
    let rest = trim_start s in if is_whitespace c then rest else String.◌∷◌ c s

trim_end : String → String
trim_end String.[] = String.[]
trim_end (String.◌∷◌ c s) =
    let rest = trim_end s in
    if is_whitespace c && str_eq rest "" then String.[] else String.◌∷◌ c rest

-- `str::trim`.
unfoldable pub trim : String → String
unfolding trim_start trim_end is_whitespace
trim s = trim_end (trim_start s)

unfoldable pub hex64 : Value → String → Result String String
hex64 value field = elim value.as_str [
  | none ↦ err (concat ("Missing '" ∷ field ∷ "' field" ∷ []))
  | some t ↦ if is_hex64 t then ok t else err (concat ("Invalid " ∷ field ∷ " format: " ∷ t ∷ []))
]

unfoldable pub check_reported_height : Value → ℕ → Result String (Unit {0})
check_reported_height value requested = elim value.as_u64 [
  | none ↦ err "Missing 'height' field: the response is not bound to any block height"
  | some reported ↦
      if reported == requested
      then ok tt
      else err (
          concat (
            "response describes block "
            ∷ show reported
            ∷ ", not the requested block "
            ∷ show requested
            ∷ []))
]

module _ (x : HexBytes) where
  unfoldable pub check_reported_hash : Value → String → Result String (Unit {0})
  check_reported_hash value expected = do
    reported ← hex64 value "id"
    (if same_hex x reported expected
        then ok tt
        else err (
            concat (
              "response describes block " ∷ reported ∷ ", not the block " ∷ expected
              ∷ " returned for this height" ∷ [])))

  module _ (http : Http) (now : Option ℕ) where
    open http use {send, error_for_status, text, json}

    -- The two requests of a two-step provider.
    pub get_text : String → Result String String
    get_text url = do
      reply ← map_err (prefixed "HTTP error: ") (send url)
      good ← map_err (prefixed "HTTP status error: ") (error_for_status reply)
      map_err (prefixed "Read error: ") (text good)

    pub get_json : String → Result String Response
    get_json url = do
      reply ← map_err (prefixed "HTTP error: ") (send url)
      good ← map_err (prefixed "HTTP status error: ") (error_for_status reply)
      map_err (prefixed "JSON error: ") (json good)

    -- What is checked of the block that a two-step provider describes.
    unfoldable pub read_block : ℕ → String → Response → Result String BitcoinBlockInfo
    read_block height block_hash response = do
      check_reported_hash (response.field "id") block_hash
      check_reported_height (response.field "height") height
      secs ← ok_or "Missing 'timestamp' field" (response.field "timestamp").as_u64
      timestamp ← validate_block_time secs now
      merkle_root ← hex64 (response.field "merkle_root") "merkle_root"
      ok (record {
        height = height;
        timestamp_secs = timestamp;
        block_hash = block_hash;
        merkle_root = merkle_root;
      })

    unfoldable pub fetch_two_step : String → ℕ → Result String BitcoinBlockInfo
    unfolding get_text get_json
    fetch_two_step base_url height = do
      body ← get_text (concat (base_url ∷ "/block-height/" ∷ show height ∷ []))
      let block_hash = trim body
      (if is_hex64 block_hash
          then ok tt
          else err (concat ("Invalid block hash format: " ∷ block_hash ∷ [])))
      response ← get_json (concat (base_url ∷ "/block/" ∷ block_hash ∷ []))
      read_block height block_hash response

    -- What is checked of the block that a single-step provider describes.
    unfoldable pub read_first_block : ℕ → Response → Result String BitcoinBlockInfo
    read_first_block height response = do
      block ← ok_or "Missing 'blocks[0]'" response.first_block
      check_reported_height (block "height") height
      secs ← ok_or "Missing 'blocks[0].time'" (block "time").as_u64
      timestamp ← validate_block_time secs now
      block_hash ← hex64 (block "hash") "blocks[0].hash"
      merkle_root ← hex64 (block "mrkl_root") "blocks[0].mrkl_root"
      ok (record {
        height = height;
        timestamp_secs = timestamp;
        block_hash = block_hash;
        merkle_root = merkle_root;
      })

    unfoldable pub fetch_single_step : String → ℕ → Result String BitcoinBlockInfo
    unfolding get_json
    fetch_single_step base_url height = do
      response ← get_json (concat (base_url ∷ "/block-height/" ∷ show height ∷ "?format=json" ∷ []))
      read_first_block height response

    unfoldable pub fetch_block_info : ApiProvider → ℕ → Result String BitcoinBlockInfo
    unfolding fetch_two_step fetch_single_step
    fetch_block_info provider height =
        if provider.two_step
        then fetch_two_step provider.base_url height
        else fetch_single_step provider.base_url height
