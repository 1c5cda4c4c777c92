-- ===== src/Tests/Disk.antt =====
-- A file system with one file and its receipt, and what the program runs on there.
use atl_cli.Prelude.{
  ℕ, String, str_eq, true, false, not, some, List, [], ◌∷◌, ◌++◌, ◌≡◌, refl, ap, arith, Result, ok,
}
use atl_cli.Core.{AtlCore, AnchorFacts, AnchorEvidence}
use atl_cli.Files.{Files, Reading, FileType, DirEntry}
use atl_cli.Cli.{VerifyArgs, Args, Command}
use atl_cli.Verify.File.{Sha256}
use atl_cli.Verify.File.Laws.{IsStreaming}
use atl_cli.Verify.TrustStore.{X509}
use atl_cli.Commands.Execute.{World}
use atl_cli.Output.Json.{Formats}
use atl_cli.Tests.Data.{receipt, pending_facts, net, cross, render}

-- A file is the list of its bytes, and a read takes one.
unfoldable pub read_byte : (r : List ℕ) → Reading (λ (l : List ℕ). l) r
read_byte [] = record { bytes = []; next = []; advances = refl; ends = λ h. h }
read_byte (b ∷ bs) = record {
  bytes = b ∷ [];
  next = bs;
  advances = refl;
  ends = λ h. absurd (omega (arith, h));
}

abbrev pub listing : List (Result String DirEntry)
listing =
    ok (record { path = "d/a"; file_type = ok FileType.file })
    ∷ ok (record { path = "d/a.atl"; file_type = ok FileType.file })
    ∷ []

-- A file system with one directory, of a file and its receipt.
abbrev pub disk : Files
disk = record {
  Reader = List ℕ;
  contents = λ l. l;
  open_file = λ path. ok (171 ∷ []);
  read = λ r. ok (read_byte r);
  try_exists = λ path. ok true;
  is_dir = λ path. str_eq path "d";
  is_file = λ path. not (str_eq path "d");
  metadata_len = λ path. ok 1;
  metadata_is_file = λ path. ok true;
  read_to_string = λ path. ok "{}";
  read_bytes = λ path. ok (48 ∷ []);
  read_dir = λ path. ok listing;
}

abbrev pub sha : Sha256
sha = record {
  Hasher = List ℕ;
  new = [];
  update = λ h bytes. h ++ bytes;
  finalize = λ h. h;
  hex_encode = λ bytes. "ab";
}

append_nil : (xs : List ℕ) → xs ++ [] ≡ xs
append_nil [] = refl
append_nil (x ∷ xs) = ap (λ l. x ∷ l) (append_nil xs)

append_append : (xs ys zs : List ℕ) → (xs ++ ys) ++ zs ≡ xs ++ (ys ++ zs)
append_append [] ys zs = refl
append_append (x ∷ xs) ys zs = ap (λ l. x ∷ l) (append_append xs ys zs)

pub sha-IsStreaming : IsStreaming sha
sha-IsStreaming = record { update_nothing = append_nil; update-update = append_append }

abbrev pub verified_facts : AnchorFacts
verified_facts = record pending_facts {
  inabilities = [];
  is_verified = true;
  evidence = AnchorEvidence.other;
}

abbrev pub core : AtlCore
core = record {
  Certificate = ℕ;
  TrustStore = List ℕ × List ℕ;
  new_store = ([], []);
  with_anchor_certificate = λ s c. (s.0 ++ (c ∷ []), s.1);
  with_intermediate_certificate = λ s c. (s.0, s.1 ++ (c ∷ []));
  receipt_spec_version = "2.0.0";
  from_json = λ text. ok receipt;
  verify_receipt = λ r. ok (record {
    inclusion_valid = true;
    super_inclusion_valid = true;
    super_consistency_valid = true;
    receipt_errors = [];
  });
  establish_anchor_facts = λ r store. verified_facts ∷ [];
}

abbrev pub x509 : X509 ℕ
x509 = record { load_pem_chain = λ bytes. ok (1 ∷ 2 ∷ []); from_der = λ bytes. ok 3 }

abbrev pub formats : Formats
formats = record {
  hex_encode = λ bytes. "ab";
  format_utc = λ secs. some "a time";
  display_error = λ e. "an error";
}

abbrev pub world : World
world = record {
  core = core;
  files = disk;
  sha = sha;
  render = render;
  x509 = x509;
  cross = cross;
  online_feature = true;
  connectivity = record {
    build_runtime = ok tt;
    build_client = λ url. ok tt;
    get = λ url. ok 204;
    select_ok = λ checks. ok tt;
  };
  net = net;
  printers = record {
    is_terminal = false;
    formats = formats;
    write_single = λ doc. ok tt;
    write_batch = λ doc. ok tt;
    human_single = λ r color. ok tt;
    human_batch = λ b color. ok tt;
    write_receipt = λ r. ok tt;
    human_receipt = λ r. ok tt;
  };
}

abbrev pub command_line : VerifyArgs → Args
command_line verify_args = record {
  command = Command.verify verify_args;
  quiet = false;
  json = true;
  no_color = true;
}
