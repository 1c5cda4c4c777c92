-- ===== src/Tests/Documents.antt =====
-- The theorems about the JSON output, at concrete inputs.
use atl_cli.Prelude.{
  show, List, some, ◌+◌, true, false, none, [], ◌∷◌, ◌≡◌, ◌↔◌, refl, length, count_if, All, concat,
}
use atl_cli.Cli.{VerificationMode}
use atl_cli.Verify.Verdict.{Status, ExitCode, exit_code}
use atl_cli.Verify.File.{hash_file}
use atl_cli.Verify.Anchor as Anchor
use atl_cli.Verify.Policy.Tally.{is_verified}
use atl_cli.Output.Json.Single.{SingleResultJson, build_single_result_json}
use atl_cli.Output.Json.Anchor.{AnchorResultJson, anchor_result_json}
use atl_cli.Output.Json.Batch.{BatchResultJson, batch_result_json}
use atl_cli.Output.Json.Laws.{single_json-accepted, anchor_json-established}
use atl_cli.Output.Json.Relay.{Agrees, added_anchor-Agrees}
use atl_cli.Output.Json.Rows.{has_status, batch_json-rows}
use atl_cli.Verify.Single.Anchors.{with_anchors}
use atl_cli.Verify.Batch.{collect_batch, reclassified}
use atl_cli.Verify.Batch.Counts.{IsCounted, collect_batch-IsCounted}
use atl_cli.Verify.Batch.Run.{verify_pair}
use atl_cli.Verify.Single.{
  SingleVerificationResult, presents_no_anchors, verdict, receipt_refutation, receipt_inability,
  assessment,
}
use atl_cli.Verify.Anchor.{from_facts, verdict_from_facts}
use atl_cli.Verify.Anchor.Prose.{offline_results, result_from_facts}
use atl_cli.Verify.File.{compare_hash, reading}
use atl_cli.Output.Human.Details.{Printer}
use atl_cli.Output.Human.Page.{single_result_lines}
use atl_cli.Output.Human.BatchPage.{cross_section, first_failure, break_line}
use atl_cli.Verify.Consistency.{CrossCheck}
use atl_cli.Output.Human.PageLaws.{single_result_lines-Accounts}
use atl_cli.Output.Human.Hints.{trust_hints, hints_by_reason}
use atl_cli.Output.Human.Shown.{IsAccounted}
use atl_cli.Verify.Policy.{unsatisfied_reason, AnchorPolicy, policy_satisfied}
use atl_cli.Tests.Data.{words, anchored, verified_anchor, refuted_anchor, cross}
use atl_cli.Tests.Disk.{formats, read_byte}
use atl_cli.Tests.Directories.{batch_a}

abbrev doc : SingleResultJson
doc = build_single_result_json formats anchored VerificationMode.offline

single_json-accepted_example :
    ((doc.status ≡ "valid") ↔ (doc.errors ≡ []))
    × ((doc.reason_code ≡ none) ↔ (doc.errors ≡ []))
    × ((exit_code (verdict anchored).status ≡ ExitCode.valid) ↔ (doc.errors ≡ []))
single_json-accepted_example = single_json-accepted formats anchored VerificationMode.offline

abbrev refuted_doc : AnchorResultJson
refuted_doc = anchor_result_json formats refuted_anchor

anchor_json-established_example :
    ((refuted_doc.verified ≡ false)
      → (refuted_doc.timestamp_nanos ≡ none)
        × (refuted_doc.timestamp ≡ none)
        × (refuted_doc.bitcoin.block_height ≡ none)
        × (refuted_doc.bitcoin.block_timestamp ≡ none))
    × ((refuted_doc.verified ≡ true)
        → (refuted_doc.claimed_timestamp_nanos ≡ none)
          × (refuted_doc.claimed_timestamp ≡ none)
          × (refuted_doc.bitcoin.proof_block_height ≡ none)
          × (refuted_doc.bitcoin.reported_block_timestamp ≡ none))
    × ((refuted_doc.verified ≡ true) ↔ (refuted_doc.reason_code ≡ none))
    × ((refuted_doc.verified ≡ true) ↔ (refuted_doc.state ≡ "verified"))
anchor_json-established_example = anchor_json-established formats refuted_anchor

unverified : is_verified refuted_anchor ≡ false
unfolding Anchor.is_valid
unverified = refl

added_anchor-Agrees_example :
    Agrees
      (build_single_result_json formats
        (with_anchors anchored (verified_anchor ∷ []))
        VerificationMode.offline)
      (build_single_result_json formats
        (with_anchors anchored (refuted_anchor ∷ verified_anchor ∷ []))
        VerificationMode.offline)
added_anchor-Agrees_example =
    added_anchor-Agrees formats anchored VerificationMode.offline [] (verified_anchor ∷ [])
      refuted_anchor unverified

batch_a-IsCounted : IsCounted batch_a
batch_a-IsCounted = collect_batch-IsCounted cross _ _ AnchorPolicy.all_anchors

batch_a-filed : All (λ item. reclassified item ≡ item) batch_a.items
unfolding collect_batch reclassified verify_pair reading hash_file read_byte verdict
    receipt_refutation compare_hash concat receipt_inability policy_satisfied assessment
    offline_results result_from_facts verdict_from_facts
batch_a-filed = (refl, tt)

abbrev batch_doc : BatchResultJson
batch_doc = batch_result_json formats batch_a VerificationMode.offline "d" "d"

batch_json-rows_example :
    (count_if (has_status "valid") batch_doc.items ≡ batch_doc.summary.valid)
    × (count_if (has_status "untrusted") batch_doc.items
        ≡ batch_doc.summary.unanchored + batch_doc.summary.untrusted)
    × (count_if (has_status "invalid") batch_doc.items ≡ batch_doc.summary.invalid)
    × (count_if (has_status "error") batch_doc.items ≡ batch_doc.summary.errors)
    × (length batch_doc.items ≡ batch_doc.summary.total)
batch_json-rows_example =
    batch_json-rows formats batch_a VerificationMode.offline "d" "d" batch_a-IsCounted batch_a-filed

abbrev relayed : SingleVerificationResult
relayed = with_anchors anchored (refuted_anchor ∷ [])

-- A receipt whose anchors were all refuted is not accepted, and has no hint.
relayed_status : (verdict relayed).status ≡ Status.untrusted
unfolding verdict receipt_refutation receipt_inability policy_satisfied assessment
    unsatisfied_reason
relayed_status = refl

relayed_hints : trust_hints formats.hex_encode relayed ≡ []
unfolding trust_hints hints_by_reason verdict receipt_refutation receipt_inability policy_satisfied
    assessment unsatisfied_reason presents_no_anchors
relayed_hints = refl

abbrev printer : Printer
printer = record {
  terminal = record { paint = λ style text. text; format_utc = λ secs. some "a time" };
  hex_encode = formats.hex_encode;
  hex_bytes = words;
  debug_imprint = λ x. "Verified";
  debug_signature = λ x. "Verified";
  debug_eku = λ x. "Verified";
  debug_path = λ x. "Complete";
  debug_revocation = λ x. x;
}

abbrev mixed : SingleVerificationResult
mixed = with_anchors anchored (refuted_anchor ∷ verified_anchor ∷ [])

single_result_lines-Accounts_example :
    All
      (λ a. IsAccounted (single_result_lines printer false mixed) a.anchor_type a.verdict)
      mixed.anchor_results
single_result_lines-Accounts_example = single_result_lines-Accounts printer false mixed refl

abbrev two_instances : List CrossCheck
two_instances =
    record {
      from_index = 0;
      to_index = 1;
      result = record { is_valid = true; history_consistent = true; errors = [] };
    }
    ∷ record {
      from_index = 2;
      to_index = 3;
      result = record { is_valid = false; history_consistent = false; errors = [] };
    }
    ∷ []

-- The numbers of the row of a broken history, and those of the sentence about it.
broken_rows :
    cross_section printer.terminal false (first_failure 0 two_instances) two_instances
    ≡ "" ∷ "    Cross-checks:" ∷ "      [1] → [2]: ✓ same log instance"
      ∷ "      [3] → [4]: ✗ history not proven  ← BREAK" ∷ []
unfolding cross_section first_failure concat show
broken_rows = refl

broken_sentence :
    break_line printer.terminal false (first_failure 0 two_instances)
    ≡ "    → Log was tampered between [2] and [3]"
unfolding break_line first_failure concat show
broken_sentence = refl
