-- ===== src/Verify/Batch/Run.antt =====
-- src/verify/batch.rs: `verify_batch`, from the two directories to the counted items.
pub mod Presence
pub mod Complete
use atl_cli.Prelude.{String, Option, map, Result, ok, ◌>>=◌}
use atl_cli.Core.{AtlCore}
use atl_cli.Error.{CliError}
use atl_cli.Files.{Files}
use atl_cli.Verify.Anchor.Prose.{Rendering}
use atl_cli.Verify.File.{Sha256}
use atl_cli.Verify.Policy.{AnchorPolicy}
use atl_cli.Verify.Single.Load.{verify_single}
use atl_cli.Verify.Consistency.{CrossServices}
use atl_cli.Verify.Batch.{BatchVerificationResult, Pair, Leftovers, collect_batch}
use atl_cli.Verify.Batch.Matching.{UnreadableEntry, FileMatching, match_files_to_receipts}

module _ (core : AtlCore) (fs : Files) (sha : Sha256) (render : Rendering)
    (trust_store : Option core.TrustStore) (policy : AnchorPolicy) where
  unfoldable pub verify_pair : String × String → Pair
  unfolding verify_single
  verify_pair (source, receipt) = record {
    source = source;
    receipt = receipt;
    outcome = verify_single core fs sha render source receipt trust_store policy;
  }

  unfoldable pub leftovers : FileMatching → Leftovers
  leftovers m = record {
    unreadable = map (λ (e : UnreadableEntry). (e.path, e.error)) m.unreadable;
    unmatched_sources = m.unmatched_sources;
    unmatched_receipts = m.unmatched_receipts;
  }

  unfoldable pub verify_batch :
      CrossServices → (source_dir receipt_dir : String) → Result CliError BatchVerificationResult
  unfolding match_files_to_receipts collect_batch verify_pair leftovers
  verify_batch cross source_dir receipt_dir = do
    m ← match_files_to_receipts fs source_dir receipt_dir
    ok (collect_batch cross (map verify_pair m.matched) (leftovers m) policy)
