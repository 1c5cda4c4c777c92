-- ===== src/Lib.antt =====
-- A verification library for the receipt verifier `atl`: what its verdicts, its network pass, its
-- batches and its exit codes are worth.
--
-- The program reads a file and a receipt, asks the crate atl-core for the facts about the receipt and
-- its anchors, projects these facts to verdicts, settles what is left of the Bitcoin anchors with
-- block explorers, and ends with an exit code.
--
--   Prelude     lists, options, results with the `?` operator, text, tests on numbers and strings.
--   Core        the types that the program takes from atl-core: findings, facts, receipts. The law
--               `IsCoherent` is what that crate documents of a fact set's three outcomes.
--   Files       what the program asks of the file system, in one state of it (`Files`), and the parts
--               of a path's name as `std::path` defines them.
--   Error       src/error.rs: `CliError` and `CliError::exit_code` (`error_exit_code`); Conversion
--               holds `From<CoreVerificationError>` (`from_core`).
--   Verify.Verdict      src/verify/verdict.rs: reason codes, statuses, exit codes, wire strings.
--   Verify.Anchor       src/verify/anchor.rs: verdicts and states of anchors, `verdict_from_facts`,
--                       `PreparedOts::from_facts`; Prose holds the words and `result_from_facts`;
--                       Sources holds `agrees_with` and `sources_agree`.
--   Verify.Policy       src/verify/policy.rs: `TrustAssessment::compute` and its axes.
--   Verify.File         src/verify/file.rs: `hash_file`, whose loop is a recursion on the bytes left.
--   Verify.TrustStore   src/verify/trust_store.rs; Roles says which certificates become anchors.
--   Verify.Single       src/verify/single.rs: `verdict`, `receipt_refutation`, `receipt_inability`;
--                       Load holds `load_receipt` and `verify_single`, Binding what a result says of
--                       the two files.
--   Verify.Online       src/verify/online.rs: `anchor_from_lookup` and `verify_anchors_online`, with
--                       the number of lookups made and the cache as explicit state (`Session`).
--   Verify.Consistency  src/verify/consistency.rs: `verify_consistency`; Order is about who takes part.
--   Verify.Batch        src/verify/batch.rs: `BatchVerificationResult::verdict` (`batch_verdict`),
--                       `reclassify`, and `verify_batch` after the pairing (`collect_batch`); Matching
--                       holds the walks over the directories and the pairing, with what a listing
--                       holds by the file system's own answers in Listing; Run holds all of
--                       `verify_batch`; Honest is about the verdicts behind the items filed as valid.
--   Net.Bitcoin         src/net/bitcoin.rs: `validate_block_time_against` (`validate_block_time`),
--                       `classify`; Fetch holds the two shapes of a provider's answer, and Answer what
--                       an accepted header has to do with it; Cache holds `lookup_block`, where a
--                       `Moment` gives the clocks, locks and client that it meets, and Backed says what
--                       a corroborated header rests on.
--   Net.Detect          src/net/detect.rs: the connectivity probe.
--   Cli         src/cli/args.rs: `determine_mode`, `determine_mode_for_receipt` and `validate`.
--   Output.Json src/output/json.rs: the documents of the JSON output, for an anchor, a receipt and a
--               batch (`print_batch_result` builds `batch_result_json`).
--   Output.Human        src/output/human.rs: the pages about one receipt (Page, with its parts in Details,
--               Assessment, Blocks and Hints) and about a batch (BatchSummary, BatchPage), each a
--               function to a list of lines.
--   Commands    src/commands/verify.rs and src/main.rs: `settle_single`, `single_error`,
--               `execute_single`, their counterparts for a batch, and the exit code (`run`); Execute
--               holds `execute` of both commands, `dispatch` and all of `run` (`run_program`), on a
--               `World` of everything outside; EndToEnd, BatchEndToEnd and BatchAccepted are about whole
--               runs.
--   Tests       concrete receipts, headers and batches, and each theorem at one of them.
--
-- Bounds: a `u64` is a natural number whose products are checked (`checked_mul`) or wrapped
-- (`wrapping_mul`) where the source checks or wraps them; counts of items, and times below 2^64, are
-- plain natural numbers. Every loop is a recursion on a list, but that of `hash_file`, which recurs on
-- how many bytes are left to read, so no definition has fuel.
--
-- Parameters: the file system (`Files`), whose reads take the bytes that come next and whose listings
-- name their entries (`ListsNames`), and which does not change during a run; the crates atl-core
-- (`AtlCore`, with `KeepsRoles` for its trust store), sha2 (`IsStreaming`) and hex; the parsers of
-- certificates; HTTP, JSON, clocks and locks, `select_ok` of the crate futures, the decoder of
-- hexadecimal digits with its comparison (`HexBytes`), the parser and the printer of dates, the colors
-- of a terminal (`Terminal`), the derived `Debug` of the types of atl-core (`Printer`), the Merkle check
-- of an OpenTimestamps proof, the comparison of two receipts, the last component of a path in
-- src/verify/consistency.rs, the text of an error, and the writing of a document. What `verify_single`
-- returned for a pair of files is a field of `Pair`. Paths and names are texts: the bytes of a name
-- that is not UTF-8 are not told apart, and a path has no trailing separator.
--
-- Not modelled: the printing of a receipt's fields in src/commands/inspect.rs, which decides nothing;
-- the parsing of the command line, which is the crate clap's.
pub mod Prelude
pub mod Core
pub mod Files
pub mod Error
pub mod Verify
pub mod Net
pub mod Cli
pub mod Output
pub mod Commands
pub mod Tests
