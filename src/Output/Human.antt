-- ===== src/Output/Human.antt =====
-- src/output/human.rs: the lines of the output for people, and the parts of a line that have a color.
pub mod Assessment
pub mod BatchPage
pub mod BatchSummary
pub mod Blocks
pub mod Details
pub mod Hints
pub mod Page
pub mod PageLaws
pub mod Remedies
pub mod Shown
use Prim.Native.Nat.{◌/◌}
use atl_cli.Prelude.{
  ℕ, ◌-◌, ◌^◌, String, str_eq, Bool, true, false, Option, none, some, List, [], ◌∷◌, ltb, concat,
  show, if◌then◌else◌,
}

pub data Style : Type 0 where
  green_bold red_bold yellow_bold green red yellow dimmed : Style

-- The crates `colored` and `chrono`.
pub record Terminal : Type 0 where
  pub paint : Style → String → String
  pub format_utc : ℕ → Option String

-- `i64::try_from(secs).unwrap_or(i64::MAX)`.
clamped : ℕ → ℕ
clamped secs = if ltb secs (2 ^ 63) then secs else 2 ^ 63 - 1

or_units : Option String → (amount : ℕ) → (units : String) → String
or_units none amount units = concat (show amount ∷ units ∷ [])
or_units (some text) amount units = text

module _ (terminal : Terminal) where
  unfoldable pub status_text : (text : String) → (is_success color : Bool) → String
  status_text text is_success color =
      if color
      then (if is_success
          then terminal.paint Style.green_bold text
          else terminal.paint Style.red_bold text)
      else text

  unfoldable pub pending_text : (text : String) → (color : Bool) → String
  pending_text text color = if color then terminal.paint Style.yellow_bold text else text

  unfoldable pub format_timestamp_nanos : ℕ → String
  unfolding clamped or_units
  format_timestamp_nanos nanos =
      or_units (terminal.format_utc (clamped (nanos / 1_000_000_000))) nanos " ns"

  unfoldable pub format_timestamp_secs : ℕ → String
  unfolding clamped or_units
  format_timestamp_secs secs = or_units (terminal.format_utc (clamped secs)) secs " s"

unfoldable pub format_anchor_type : String → String
format_anchor_type kind =
    if str_eq kind "rfc3161"
    then "RFC 3161 (TSA)"
    else if str_eq kind "bitcoin_ots"
    then "Bitcoin OTS"
    else kind
