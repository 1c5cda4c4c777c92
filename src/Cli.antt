-- ===== src/Cli.antt =====
-- src/cli/args.rs: the arguments of `verify`, their validation, and the choice between offline and
-- online verification.
use atl_cli.Prelude.{
  Option, ◌&&◌, ◌>>◌, String, Bool, true, false, not, ◌≡◌, ◌↔◌, arith, if◌then◌else◌, Result, ok,
  err, ◌>>=◌,
}
use atl_cli.Error.{CliError}
use atl_cli.Files.{Files}
use atl_cli.Verify.File.{reading}

pub data VerificationMode : Type 0 where
  offline online : VerificationMode

pub record VerifyArgs : Type 0 where
  pub source : String
  pub receipt : String
  pub offline : Bool
  pub online : Bool
  pub verbose : Bool
  pub allow_single_anchor : Bool
  pub tsa_trust_store : Option String
  pub tsa_intermediates : Option String

pub record InspectArgs : Type 0 where
  pub receipt : String

pub data Command : Type 0 where
  verify : VerifyArgs → Command
  inspect : InspectArgs → Command

pub record Args : Type 0 where
  pub command : Command
  pub quiet : Bool
  pub json : Bool
  pub no_color : Bool

-- `Args::use_color`, by what `is_terminal` of the standard output returns.
unfoldable pub use_color : Args → (is_terminal : Bool) → Bool
use_color args is_terminal = not args.no_color && is_terminal

-- What the choice of the mode depends on: the feature `online` of the build, and the connectivity probe
-- of src/net/detect.rs.
pub record Host : Type 0 where
  pub online_feature : Bool
  pub has_internet : Bool

-- `Args::determine_mode`.
unfoldable pub determine_mode : VerifyArgs → Host → Result CliError VerificationMode
determine_mode args host =
    if args.offline
    then ok VerificationMode.offline
    else if args.online
    then (if host.online_feature
        then (if host.has_internet
            then ok VerificationMode.online
            else err CliError.no_internet_connection)
        else err (CliError.network_error "online feature not enabled"))
    else if host.online_feature
    then (if host.has_internet then ok VerificationMode.online else ok VerificationMode.offline)
    else ok VerificationMode.offline

-- `Args::determine_mode_for_receipt`.
unfoldable pub determine_mode_for_receipt :
    VerifyArgs → Host → Bool → Result CliError VerificationMode
determine_mode_for_receipt args host needs_network =
    if args.offline
    then ok VerificationMode.offline
    else if not needs_network
    then ok VerificationMode.offline
    else if args.online
    then (if host.online_feature
        then (if host.has_internet
            then ok VerificationMode.online
            else err CliError.no_internet_connection)
        else err (CliError.network_error "online feature not enabled"))
    else if host.online_feature
    then (if host.has_internet then ok VerificationMode.online else ok VerificationMode.offline)
    else ok VerificationMode.offline

eq_bool : Bool → Bool → Bool
eq_bool true b = b
eq_bool false b = not b

unfoldable pub is_batch_mode : VerifyArgs → Files → Bool
is_batch_mode args fs = fs.is_dir args.source

-- `VerifyArgs::validate`, without the warning about the extension, which is printed.
unfoldable pub validate : VerifyArgs → Files → Result CliError (Unit {0})
unfolding eq_bool
validate args fs = do
  source_found ← reading args.source (fs.try_exists args.source)
  (if source_found then ok tt else err (CliError.source_not_found args.source))
  receipt_found ← reading args.receipt (fs.try_exists args.receipt)
  (if receipt_found then ok tt else err (CliError.receipt_not_found args.receipt))
  (if eq_bool (fs.is_dir args.source) (fs.is_dir args.receipt)
      then ok tt
      else err (CliError.mismatched_input_types (fs.is_dir args.source) (fs.is_dir args.receipt)))

-- The program goes online exactly if it may, has something to ask, and finds a connection.
pub determine_mode-online_iff :
    (args : VerifyArgs) (host : Host) (needs_network : Bool)
    → (determine_mode_for_receipt args host needs_network ≡ ok VerificationMode.online) ↔ (
        (args.offline ≡ false)
        × (needs_network ≡ true)
        × (host.online_feature ≡ true)
        × (host.has_internet ≡ true))
unfolding determine_mode_for_receipt
determine_mode-online_iff args host needs_network = ground arith

-- The choice for a receipt that needs the network is the choice for any run.
pub determine_mode-needed :
    (args : VerifyArgs) (host : Host)
    → determine_mode_for_receipt args host true ≡ determine_mode args host
unfolding determine_mode_for_receipt determine_mode
determine_mode-needed args host = ground arith

-- Arguments that pass the validation name two files or two directories.
pub validate-IsMatched :
    (args : VerifyArgs) (fs : Files)
    → validate args fs ≡ ok tt
    → (fs.try_exists args.source ≡ ok true)
      × (fs.try_exists args.receipt ≡ ok true)
      × (fs.is_dir args.source ≡ fs.is_dir args.receipt)
unfolding validate eq_bool reading
validate-IsMatched args fs h = ground arith
