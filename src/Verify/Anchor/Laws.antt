-- ===== src/Verify/Anchor/Laws.antt =====
-- Facts about the verdict on one anchor (src/verify/anchor.rs).
use atl_cli.Prelude.{Bool, true, false, none, ◌≡◌, ◌≢◌, ◌↔◌, arith}
use atl_cli.Core.{AnchorFacts, IsCoherent, ReceiptAnchor}
use atl_cli.Verify.Verdict.{ReasonCode}
use atl_cli.Verify.Anchor.{
  AnchorVerdict, AnchorState, state, from_reason, verdict_from_facts, from_facts,
}
use atl_cli.Verify.Anchor.Prose.{Rendering, result_from_facts, error_for_facts}

abbrev pub is_invalid : AnchorVerdict → Bool
is_invalid (AnchorVerdict.invalid _) = true
is_invalid _ = false

from_reason-ne :
    (c : ReasonCode)
    → (from_reason c ≢ AnchorState.verified) × (from_reason c ≢ AnchorState.refuted)
unfolding from_reason
from_reason-ne c = ground arith

-- The published state says "verified" for an accepted anchor only, and "refuted" for a refuted one
-- only.
pub state_iff :
    (v : AnchorVerdict)
    → ((state v ≡ AnchorState.verified) ↔ (v ≡ AnchorVerdict.valid))
      × ((state v ≡ AnchorState.refuted) ↔ (is_invalid v ≡ true))
unfolding state
state_iff AnchorVerdict.valid = ground arith
state_iff (AnchorVerdict.invalid c) = ground arith
state_iff (AnchorVerdict.untrusted c) = ground (arith, from_reason-ne c)

module _ (f : AnchorFacts) (coherent : IsCoherent f) where
  -- The verdict reports the crate's own three outcomes: valid exactly for a verified fact set, invalid
  -- exactly for a refuted one.
  pub verdict_from_facts_iff :
      ((verdict_from_facts f ≡ AnchorVerdict.valid) ↔ (f.is_verified ≡ true))
      × ((is_invalid (verdict_from_facts f) ≡ true) ↔ (f.is_refuted ≡ true))
  unfolding verdict_from_facts
  verdict_from_facts_iff = ground arith

  -- An anchor that is refuted or verified offline is never looked up.
  pub from_facts-refuted : f.is_refuted ≡ true → from_facts f ≡ none
  unfolding from_facts
  from_facts-refuted h = ground arith

-- An offline result explains itself exactly when it is not accepted.
pub result-error_iff :
    (r : Rendering) (a : ReceiptAnchor) (f : AnchorFacts)
    → IsCoherent f
    → ((result_from_facts r a f).error ≡ none)
      ↔ ((result_from_facts r a f).verdict ≡ AnchorVerdict.valid)
unfolding result_from_facts error_for_facts
result-error_iff r a f coherent = ground (arith, verdict_from_facts_iff f coherent)
