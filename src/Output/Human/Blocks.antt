-- ===== src/Output/Human/Blocks.antt =====
-- src/output/human.rs: what the output for people says of a block, and of who reported it.
use atl_cli.Prelude.{
  ℕ, String, Bool, true, false, not, Option, none, some, List, [], ◌∷◌, ◌++◌, map, any, length,
  concat, join, show, ◌==◌, is_empty, if◌then◌else◌,
}
use atl_cli.Verify.Anchor.{BlockSourceReport, ClaimedTimeCheck}
use atl_cli.Verify.Anchor.Sources.{HexBytes, sources_agree}
use atl_cli.Output.Human.{Terminal, format_timestamp_secs}

module _ (terminal : Terminal) where
  -- A row of a disagreement.
  unfoldable pub source_line : BlockSourceReport → String
  source_line s = concat (
      "          - "
      ∷ s.source
      ∷ ": merkle_root "
      ∷ s.merkle_root
      ∷ " in block "
      ∷ s.block_hash
      ∷ " at "
      ∷ format_timestamp_secs terminal s.block_timestamp_secs
      ∷ [])

  disagreement_lines : List BlockSourceReport → List String
  unfolding source_line
  disagreement_lines sources =
      "        SOURCES DISAGREE about this block:"
      ∷ (map source_line sources
          ++ ("          Nothing about this receipt is refuted by this: the sources this"
              ∷ "          verifier depends on do not agree with each other." ∷ []))

  unfoldable pub block_sources_lines : HexBytes → List BlockSourceReport → List String
  unfolding disagreement_lines sources_agree
  block_sources_lines x sources =
      if is_empty sources
      then "        Reported by:       (no block-explorer API answered)" ∷ []
      else concat (
          "        Reported by:       "
          ∷ join ", " (map (λ (s : BlockSourceReport). s.source) sources)
          ∷ " ("
          ∷ show (length sources)
          ∷ " source"
          ∷ (if length sources == 1 then "" else "s")
          ∷ ")"
          ∷ [])
        ∷ (if not (sources_agree x sources) then disagreement_lines sources else [])

  unfoldable pub bitcoin_block_line : (verified : Bool) → (block_height : ℕ) → Option ℕ → String
  bitcoin_block_line true height (some secs) =
      concat ("Block #" ∷ show height ∷ " @ " ∷ format_timestamp_secs terminal secs ∷ [])
  bitcoin_block_line true height none = concat ("Block #" ∷ show height ∷ [])
  bitcoin_block_line false height (some secs) = concat (
      "Block #"
      ∷ show height
      ∷ " @ "
      ∷ format_timestamp_secs terminal secs
      ∷ " (as reported by the sources below; this block does NOT "
      ∷ "date this receipt)"
      ∷ [])
  bitcoin_block_line false height none =
      concat ("Block #" ∷ show height ∷ " (claimed by the proof, not confirmed)" ∷ [])

-- The line about the height that a receipt states.
unfoldable pub height_claim_line : ℕ → List ℕ → String
height_claim_line claimed heights =
    if is_empty heights
    then concat (
        "        Receipt states:    block #"
        ∷ show claimed
        ∷ " (NOT compared: no "
        ∷ "attestation was read from the proof)"
        ∷ [])
    else if any (λ h. h == claimed) heights
    then concat
        ("        Receipt states:    block #" ∷ show claimed ∷ " (attested by the OTS proof)" ∷ [])
    else concat (
        "        Receipt states:    block #"
        ∷ show claimed
        ∷ " -- CONTRADICTED by the "
        ∷ "receipt's own OTS proof, which attests to "
        ∷ join ", " (map (λ h. concat ("#" ∷ show h ∷ [])) heights)
        ∷ [])

time_claim_remark : ClaimedTimeCheck → String
time_claim_remark ClaimedTimeCheck.matches = " (agrees with the header the sources below report)"
time_claim_remark ClaimedTimeCheck.contradicted =
    " -- CONTRADICTED by the header the sources below report"
time_claim_remark ClaimedTimeCheck.not_compared =
    " (NOT compared: no block header was obtained, and no OTS proof carries a block time)"
time_claim_remark ClaimedTimeCheck.unreadable = concat (
    " (NOT compared: this build could not read it as a timestamp -- a limit of this "
    ∷ "verifier, not a finding about the receipt)" ∷ [])

unfoldable pub receipt_claim_lines : ℕ → List ℕ → String → ClaimedTimeCheck → List String
unfolding height_claim_line time_claim_remark
receipt_claim_lines claimed_height heights claimed_time check =
    height_claim_line claimed_height heights
    ∷ concat
        ("        Receipt states:    block time " ∷ claimed_time ∷ time_claim_remark check ∷ [])
    ∷ []
