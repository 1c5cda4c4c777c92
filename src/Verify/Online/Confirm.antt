-- ===== src/Verify/Online/Confirm.antt =====
-- What a block lookup decides about one anchor (src/verify/online.rs, `anchor_from_lookup`).
use atl_cli.Prelude.{
  ℕ, ◌*◌, ◌≤◌, String, true, false, Option, none, some, ◌≡◌, ◌≢◌, ◌↔◌, ◌⊎◌, arith,
}
use atl_cli.Verify.Anchor.{AnchorVerdict, AnchorVerificationResult, PreparedOts}
use atl_cli.Verify.Anchor.Laws.{is_invalid}
use atl_cli.Net.Bitcoin.{BlockLookup, u64_max}
use atl_cli.Verify.Online.{Services, nanos_per_sec, anchor_from_lookup}

-- The block's time in nanoseconds fits a `u64`, and the claimed time is that instant.
abbrev pub SameInstant : Option ℕ → ℕ → Type 0
SameInstant none secs = ⊥
SameInstant (some claimed) secs =
    (secs * nanos_per_sec ≤ u64_max) × (claimed ≡ secs * nanos_per_sec)

-- The block's time in nanoseconds fits a `u64`, and the claimed time is another instant.
abbrev pub OtherInstant : Option ℕ → ℕ → Type 0
OtherInstant none secs = ⊥
OtherInstant (some claimed) secs =
    (secs * nanos_per_sec ≤ u64_max) × (claimed ≢ secs * nanos_per_sec)

module _ (s : Services) (p : PreparedOts) where
  open s use {parse_iso8601_to_nanos, verify_against_block}

  -- The header confirms the proof's root and the receipt's time.
  abbrev pub Confirms : BlockLookup → Type 0
  Confirms (BlockLookup.corroborated info _) =
      (verify_against_block p.attestation info.merkle_root ≡ true)
      × SameInstant (parse_iso8601_to_nanos p.receipt_block_time) info.timestamp_secs
  Confirms _ = ⊥

  -- The header contradicts the proof's root, or else the receipt's time.
  abbrev pub Contradicts : BlockLookup → Type 0
  Contradicts (BlockLookup.corroborated info _) =
      (verify_against_block p.attestation info.merkle_root ≡ false)
      ⊎ OtherInstant (parse_iso8601_to_nanos p.receipt_block_time) info.timestamp_secs
  Contradicts _ = ⊥

  abbrev pub ExactTime : BlockLookup → AnchorVerificationResult → Type 0
  ExactTime (BlockLookup.corroborated info _) a =
      a.timestamp_nanos ≡ some (info.timestamp_secs * nanos_per_sec)
  ExactTime _ a = ⊥

  module _ (target_hash : String) where
    -- An anchor is verified online exactly when a corroborated header has the Merkle root that the
    -- proof computes and the very instant, to the nanosecond, that the receipt claims.
    pub anchor_from_lookup-valid_iff :
        (l : BlockLookup)
        → ((anchor_from_lookup s p target_hash l).verdict ≡ AnchorVerdict.valid) ↔ Confirms l
    unfolding anchor_from_lookup
    anchor_from_lookup-valid_iff (BlockLookup.corroborated info reports) = ground arith
    anchor_from_lookup-valid_iff _ = ground arith

    -- An anchor is refuted online exactly when a corroborated header contradicts it; sources that
    -- disagree, answer alone or fail never refute one.
    pub anchor_from_lookup-invalid_iff :
        (l : BlockLookup)
        → (is_invalid (anchor_from_lookup s p target_hash l).verdict ≡ true) ↔ Contradicts l
    unfolding anchor_from_lookup
    anchor_from_lookup-invalid_iff (BlockLookup.corroborated info reports) = ground arith
    anchor_from_lookup-invalid_iff _ = ground arith

    -- The product that a verified anchor publishes as its time does not overflow a `u64`, although it
    -- is computed with no check: it is the exact number of nanoseconds.
    pub anchor_from_lookup-time :
        (l : BlockLookup)
        → (anchor_from_lookup s p target_hash l).verdict ≡ AnchorVerdict.valid
        → ExactTime l (anchor_from_lookup s p target_hash l)
    unfolding anchor_from_lookup
    anchor_from_lookup-time (BlockLookup.corroborated info reports) h = ground arith
    anchor_from_lookup-time _ h = ground arith
