-- ===== src/Output/Human/Remedies.antt =====
-- When the output for people has a hint on what would finish a check.
use atl_cli.Prelude.{Bool, true, false, Option, some}
use atl_cli.Verify.Verdict.{ReasonCode}
use atl_cli.Verify.Anchor.{AnchorVerdict, AnchorVerificationResult}
use atl_cli.Verify.Single.{verdict}

abbrev pub is_without_result : AnchorVerdict → Bool
is_without_result (AnchorVerdict.untrusted _) = true
is_without_result _ = false

abbrev pub is_untrusted : AnchorVerificationResult → Bool
is_untrusted a = is_without_result a.verdict

abbrev pub is_quorum_unmet : Option ReasonCode → Bool
is_quorum_unmet (some ReasonCode.anchor_quorum_unmet) = true
is_quorum_unmet _ = false
