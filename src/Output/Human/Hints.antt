-- ===== src/Output/Human/Hints.antt =====
-- src/output/human.rs: what would finish a check that could not be finished (`print_trust_hint`).
use atl_cli.Prelude.{String, Option, none, some, List, [], ◌∷◌, ◌++◌, concat, if◌then◌else◌, ℕ}
use atl_cli.Core.{TerminalAnchor}
use atl_cli.Verify.Verdict.{ReasonCode}
use atl_cli.Verify.Verdict.Codes.{as_str}
use atl_cli.Verify.Anchor.{AnchorVerdict, AnchorDetails, AnchorVerificationResult}
use atl_cli.Verify.Single.{SingleVerificationResult, verdict, presents_no_anchors}

assumed_fingerprint : (List ℕ → String) → Option TerminalAnchor → Option String
assumed_fingerprint hex_encode (some (TerminalAnchor.assumed fingerprint _)) =
    some (hex_encode fingerprint)
assumed_fingerprint hex_encode _ = none

-- The crate hex encodes a fingerprint.
unfoldable pub untrusted_root_fingerprint :
    (hex_encode : List ℕ → String) → AnchorDetails → Option String
unfolding assumed_fingerprint
untrusted_root_fingerprint hex_encode (AnchorDetails.rfc3161 d) =
    assumed_fingerprint hex_encode d.terminal_anchor
untrusted_root_fingerprint hex_encode _ = none

root_hint : Option String → List String
root_hint (some fingerprint) =
    concat ("  - The TSA chain ends at certificate sha256:" ∷ fingerprint ∷ [])
    ∷ "    Supply it with --tsa-trust-store to complete the check."
    ∷ []
root_hint none =
    "  - The TSA chain ends at a certificate no trust store names."
    ∷ "    Supply that root with --tsa-trust-store." ∷ []

-- What is said of an anchor without a result, by its reason.
unfoldable pub hint : (root : Option String) → ReasonCode → List String
unfolding root_hint
hint root ReasonCode.tsa_root_not_trusted = root_hint root
hint root ReasonCode.tsa_chain_incomplete =
    "  - The token's certificate chain is missing an issuer certificate."
    ∷ "    Supply it with --tsa-intermediates, and the root it leads to with --tsa-trust-store."
    ∷ []
hint root ReasonCode.batch_items_unmatched =
    "  - One or more files you named were never verified: a source file with"
    ∷ "    no matching receipt, or a receipt with no matching source file. The"
    ∷ "    convention is <name> alongside <name>.atl. See the Unmatched rows above." ∷ []
hint root ReasonCode.batch_nothing_verified =
    "  - Nothing in this batch was verified. No file reached a verification"
    ∷ "    result at all, so there is no evidence to report either way." ∷ []
hint root ReasonCode.tsa_timestamping_eku_not_checked =
    "  - The signer certificate's timestamping EKU was never examined, because"
    ∷ "    no signer certificate could be established for this token. Nothing about"
    ∷ "    the EKU was refuted." ∷ []
hint root ReasonCode.tsa_imprint_indeterminate =
    "  - The token's messageImprint could NOT be compared with this receipt's"
    ∷ "    root hash -- nothing about it was refuted. It names a hash algorithm this"
    ∷ "    verifier does not implement. No additional certificate will help." ∷ []
hint root ReasonCode.cms_signature_indeterminate =
    "  - The token's own CMS signature could NOT be checked -- nothing about it"
    ∷ "    was refuted. It uses cryptography this verifier does not implement"
    ∷ "    (see the Detail line above). No additional certificate will help." ∷ []
hint root ReasonCode.tsa_chain_indeterminate =
    "  - The token's certificate chain could NOT be checked -- nothing about it"
    ∷ "    was refuted. See the Detail line above for what stopped the check"
    ∷ "    (commonly a signature algorithm this verifier does not implement, such"
    ∷ "    as SHA-1 on a long-lived root). If you trust the terminal certificate"
    ∷ "    from an external source, naming it with --tsa-trust-store settles it." ∷ []
hint root ReasonCode.bitcoin_block_not_checked =
    "  - No block header was obtained for this anchor, so its OTS proof was"
    ∷ "    never compared against one. Re-run with network access." ∷ []
hint root ReasonCode.bitcoin_block_unavailable =
    "  - No block header was obtained for this anchor, so its OTS proof was"
    ∷ "    never compared against one. Re-run with network access." ∷ []
hint root ReasonCode.bitcoin_providers_disagree =
    "  - The block-explorer APIs returned DIFFERENT headers for this block, so"
    ∷ "    no header is established and nothing was compared. Nothing about your"
    ∷ "    receipt is refuted by this -- the sources this verifier depends on do not"
    ∷ "    agree with each other. See the per-source rows above. This can mean a chain"
    ∷ "    fork, a stale index, or a compromised endpoint; no certificate and no"
    ∷ "    retry will settle it, and it is worth investigating." ∷ []
hint root ReasonCode.bitcoin_single_source_only =
    "  - Only one block-explorer API answered, so its report of the block header"
    ∷ "    is uncorroborated. One endpoint's word cannot establish what Bitcoin"
    ∷ "    contains, so the OTS proof was not compared against it. Re-run when more"
    ∷ "    than one provider is reachable; no certificate is involved." ∷ []
hint root ReasonCode.bitcoin_claimed_time_unreadable =
    "  - The receipt's own bitcoin_block_time could not be read as a timestamp by"
    ∷ "    this build, so ATL v2.0 §5.5.2 step 5 could not compare it with the block"
    ∷ "    header. This is a limitation of this verifier, NOT a finding about your"
    ∷ "    receipt: nothing about it was refuted. No certificate is involved." ∷ []
hint root other = concat ("  - Missing trust material (" ∷ as_str other ∷ ")." ∷ []) ∷ []

unfoldable pub hint_for : (root : Option String) → AnchorVerdict → List String
unfolding hint
hint_for root (AnchorVerdict.untrusted code) = hint root code
hint_for root _ = []

unfoldable pub quorum_hint : List String
quorum_hint =
    "  - At least one anchor IS verified, so ATL v2.0 §5.5's floor is met. What is"
    ∷ "    unmet is the '--allow-single-anchor'-off default, which asks that EVERY anchor"
    ∷ "    the receipt presents be verified. Re-run with --allow-single-anchor to be told"
    ∷ "    §5.5's answer instead, and see the Coverage list above for the anchors that"
    ∷ "    did not come through."
    ∷ "    Note that this profile is defined over the anchors PRESENTED, and a receipt's"
    ∷ "    anchors are signed and hashed by nothing -- so anybody who relayed this receipt"
    ∷ "    could have appended one and produced this outcome. It is not a finding about"
    ∷ "    the receipt: --allow-single-anchor cannot be moved that way." ∷ []

unfoldable pub lite_hint : List String
lite_hint =
    "  - The receipt as it reached this tool carries no anchors at all"
    ∷ "    (Receipt-Lite), so nothing external attests to when this existed. ATL v2.0"
    ∷ "    §5.5 requires at least one verified anchor. No certificate and no network"
    ∷ "    access can supply one: ask the log operator for an anchored receipt"
    ∷ "    (Receipt-TSA or Receipt-Full)." ∷ []

module _ (hex_encode : List ℕ → String) where
  unfoldable pub anchor_hints : List AnchorVerificationResult → List String
  unfolding hint_for untrusted_root_fingerprint
  anchor_hints [] = []
  anchor_hints (a ∷ anchors) =
      hint_for (untrusted_root_fingerprint hex_encode a.details) a.verdict ++ anchor_hints anchors

  unfoldable pub hints_by_reason : Option ReasonCode → SingleVerificationResult → List String
  unfolding quorum_hint lite_hint anchor_hints
  hints_by_reason (some ReasonCode.anchor_quorum_unmet) r = quorum_hint
  hints_by_reason _ r = if presents_no_anchors r then lite_hint else anchor_hints r.anchor_results

  -- The lines of `print_trust_hint` behind its headline, and all of them.
  unfoldable pub trust_hints : SingleVerificationResult → List String
  unfolding hints_by_reason
  trust_hints r = hints_by_reason (verdict r).reason_code r

  unfoldable pub trust_hint_lines : SingleVerificationResult → List String
  unfolding trust_hints
  trust_hint_lines r =
      ""
      ∷ "The RECEIPT was NOT disproved. This verifier could not establish trust in it:"
      ∷ trust_hints r
