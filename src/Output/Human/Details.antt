-- ===== src/Output/Human/Details.antt =====
-- src/output/human.rs: the section about the anchors, and the details of an anchor.
use atl_cli.Prelude.{
  ℕ, suc, String, Bool, true, false, Option, none, some, List, [], ◌∷◌, ◌++◌, concat, show,
  if◌then◌else◌,
}
use atl_cli.Core.{
  MessageImprint, CmsSignature, TimestampingEku, PathStatus, SelfSignature, TerminalAnchor,
}
use atl_cli.Verify.Anchor.{
  is_valid, AnchorDetails, Rfc3161Details, BitcoinDetails, AnchorVerificationResult,
}
use atl_cli.Verify.Anchor.Sources.{HexBytes}
use atl_cli.Output.Human.{Style, Terminal, format_timestamp_nanos, format_anchor_type}
use atl_cli.Output.Human.Assessment.{anchor_status_lines}
use atl_cli.Output.Human.Blocks.{block_sources_lines, bitcoin_block_line, receipt_claim_lines}

-- The terminal, the crate hex, the decoder of hexadecimal digits, and what the derived `Debug` of
-- the types of atl-core writes.
pub record Printer : Type 0 where
  pub terminal : Terminal
  pub hex_encode : List ℕ → String
  pub hex_bytes : HexBytes
  pub debug_imprint : MessageImprint → String
  pub debug_signature : CmsSignature → String
  pub debug_eku : TimestampingEku → String
  pub debug_path : PathStatus → String
  pub debug_revocation : String → String

show_bool : Bool → String
show_bool true = "true"
show_bool false = "false"

chain_lines : PathStatus → Option String → List String
chain_lines PathStatus.complete diagnostic = []
chain_lines _ none = []
chain_lines _ (some detail) = concat ("      Chain: " ∷ detail ∷ []) ∷ []

self_signature_text : SelfSignature → String
self_signature_text SelfSignature.verified = "self-signature verified"
self_signature_text SelfSignature.unverifiable = "self-signature NOT checkable here"

chain_steps : Option ℕ → Option String → List String
chain_steps (some count) (some root) =
    concat ("              ↓ OTS proof (" ∷ show count ∷ " operations)" ∷ [])
    ∷ concat ("        Computed Root:     " ∷ root ∷ [])
    ∷ []
chain_steps _ _ = "              ↓ OTS proof (no attestation selected)" ∷ []

module _ (p : Printer) (color : Bool) where
  terminal_line : Option TerminalAnchor → String
  unfolding self_signature_text
  terminal_line (some (TerminalAnchor.trusted fingerprint)) =
      concat ("      Terminal Anchor: Trusted (sha256:" ∷ p.hex_encode fingerprint ∷ ")" ∷ [])
  terminal_line (some (TerminalAnchor.assumed fingerprint self_signature)) = concat (
      "      Terminal Anchor: present but not in any supplied trust store "
      ∷ "(sha256:"
      ∷ p.hex_encode fingerprint
      ∷ ", "
      ∷ self_signature_text self_signature
      ∷ ") -- pass it to --tsa-trust-store"
      ∷ [])
  terminal_line none = "      Terminal Anchor: none reached"

  timestamp_lines : Option ℕ → (verified : Bool) → List String
  timestamp_lines none verified = []
  timestamp_lines (some ts) verified =
      concat (
        (if verified then "      Timestamp: " else "      Claimed genTime (not established): ")
        ∷ format_timestamp_nanos p.terminal ts
        ∷ [])
      ∷ []

  -- The first arm of `print_anchor_details`.
  unfoldable pub rfc3161_lines : AnchorVerificationResult → Rfc3161Details → List String
  unfolding show_bool chain_lines terminal_line timestamp_lines
  rfc3161_lines a d =
      concat (
        "      Facts: imprint="
        ∷ p.debug_imprint d.message_imprint
        ∷ " cms_signature="
        ∷ p.debug_signature d.cms_signature
        ∷ " chain_at_gen_time="
        ∷ show_bool d.chain_valid_at_gen_time
        ∷ " timestamping_eku="
        ∷ p.debug_eku d.timestamping_eku
        ∷ " path_status="
        ∷ p.debug_path d.path_status
        ∷ " revocation="
        ∷ p.debug_revocation d.revocation
        ∷ [])
      ∷ (chain_lines d.path_status d.chain_diagnostic
          ++ terminal_line d.terminal_anchor
            ∷ timestamp_lines a.timestamp_nanos (is_valid a.verdict))

  mark : Style → String → String
  mark style text = if color then p.terminal.paint style text else text

  match_lines : Option String → Option Bool → List String
  unfolding mark
  match_lines (some root) (some true) =
      concat ("              " ∷ mark Style.green "✓" ∷ " (verified)" ∷ [])
      ∷ concat ("        Block Merkle Root: " ∷ root ∷ [])
      ∷ []
  match_lines (some root) (some false) =
      concat ("              " ∷ mark Style.red_bold "✗" ∷ " (mismatch)" ∷ [])
      ∷ concat ("        Block Merkle Root: " ∷ root ∷ [])
      ∷ []
  match_lines _ _ = concat ("              " ∷ mark Style.yellow "?" ∷ " (not confirmed)" ∷ []) ∷ []

  block_lines : (verified : Bool) → Option ℕ → Option ℕ → List String
  block_lines verified none secs = []
  block_lines verified (some height) secs =
      concat ("        " ∷ bitcoin_block_line p.terminal verified height secs ∷ []) ∷ []

  -- The second arm of `print_anchor_details`.
  unfoldable pub bitcoin_lines : AnchorVerificationResult → BitcoinDetails → List String
  unfolding chain_steps match_lines block_lines
  bitcoin_lines a d =
      ""
      ∷ "      Verification Chain:"
      ∷ concat ("        Target Hash:       " ∷ d.target_hash ∷ [])
      ∷ (chain_steps d.operation_count d.computed_root
          ++ (match_lines d.block_merkle_root d.merkle_match
              ++ "              ↓"
                ∷ (block_lines (is_valid a.verdict) d.proof_block_height d.block_timestamp_secs
                    ++ (receipt_claim_lines d.receipt_block_height d.proof_block_heights
                          d.receipt_block_time d.claimed_time_check
                        ++ block_sources_lines p.terminal p.hex_bytes d.block_sources))))

  anchor_detail_lines : AnchorVerificationResult → AnchorDetails → List String
  unfolding rfc3161_lines bitcoin_lines
  anchor_detail_lines a (AnchorDetails.rfc3161 d) = rfc3161_lines a d
  anchor_detail_lines a (AnchorDetails.bitcoin d) = bitcoin_lines a d
  anchor_detail_lines a AnchorDetails.unknown = []

  error_lines : Option String → List String
  error_lines none = []
  error_lines (some error) = concat ("      Detail: " ∷ error ∷ []) ∷ []

  anchor_list_lines : (i : ℕ) → List AnchorVerificationResult → List String
  unfolding anchor_detail_lines error_lines
  anchor_list_lines i [] = []
  anchor_list_lines i (a ∷ anchors) =
      concat ("  [" ∷ show (suc i) ∷ "] " ∷ format_anchor_type a.anchor_type ∷ [])
      ∷ (anchor_status_lines p.terminal "      Status: " a color
          ++ (error_lines a.error
              ++ (anchor_detail_lines a a.details ++ anchor_list_lines (suc i) anchors)))

  unfoldable pub anchor_section_lines : List AnchorVerificationResult → List String
  unfolding anchor_list_lines
  anchor_section_lines [] = []
  anchor_section_lines (a ∷ anchors) = "Anchor Verification:" ∷ anchor_list_lines 0 (a ∷ anchors)
