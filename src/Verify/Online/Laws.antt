-- ===== src/Verify/Online/Laws.antt =====
-- What the online pass of src/verify/online.rs can change about a receipt.
use atl_cli.Prelude.{
  ℕ, true, false, none, some, some-injective, subst, ◌≡◌, ◌≢◌, ◌↔◌, ◌⊎◌, inl, inr, refl, sym, ◌∙◌,
  ap, arith, length, All-map, get_elem?,
}
use atl_cli.Core.{AnchorFacts, AnchorEvidence}
use atl_cli.Verify.Verdict.{Status}
use atl_cli.Verify.Anchor.{AnchorVerdict, AnchorVerificationResult, PreparedOts, from_facts}
use atl_cli.Verify.Anchor.Sources.{HexBytes}
use atl_cli.Verify.Single.{SingleVerificationResult, verdict}
use atl_cli.Verify.Single.Anchors.{with_anchors, anchors_never_refute}
use atl_cli.Net.Bitcoin.{BlockLookup}
use atl_cli.Net.Bitcoin.Cache.{Moment}
use atl_cli.Net.Bitcoin.Cache.Backed.{IsBacked, CacheIsBacked}
use atl_cli.Verify.Online.{
  Services, Pending, Session, pending_from, verify_anchors_online, receipt_requires_network,
}
use atl_cli.Verify.Online.Confirm.{Confirms, anchor_from_lookup-valid_iff}
use atl_cli.Verify.Online.Pass.{
  IsPrepared, pending-IsPrepared, pending-none, length-confirm, confirm-elsewhere, confirm-cache,
  confirm-IsAnswered,
}

-- Evidence in which no block header could be compared with anything.
abbrev pub HasNoProof : AnchorEvidence → Type 0
HasNoProof (AnchorEvidence.bitcoin_ots ots) =
    (ots.attestation ≡ none) ⊎ (ots.computed_block_merkle_root ≡ none)
HasNoProof _ = Unit

nothing_prepared :
    (f : AnchorFacts) (evidence : AnchorEvidence)
    → f.evidence ≡ evidence
    → HasNoProof evidence
    → from_facts f ≡ none
unfolding from_facts
nothing_prepared f (AnchorEvidence.bitcoin_ots ots) e h = ground arith
nothing_prepared f _ e h = ground arith

nothing_to_ask :
    (f : AnchorFacts) → (f.is_refuted ≡ true) ⊎ HasNoProof f.evidence → from_facts f ≡ none
unfolding from_facts
nothing_to_ask f (inl refuted) = rw (refuted) refl
nothing_to_ask f (inr nothing) = nothing_prepared f f.evidence refl nothing

module _ (x : HexBytes) (s : Services) (moments : ℕ → Moment) where
  abbrev pub online : SingleVerificationResult → Session → SingleVerificationResult
  online r session = (verify_anchors_online x s moments r session).0

  -- The evidence behind an anchor that became verified online: the facts at its place, what was
  -- prepared from them, and a header that confirms it and is backed by agreeing sources.
  pub record IsSettled (r : SingleVerificationResult) (i : ℕ) : Type 1 where
    pub facts : AnchorFacts
    pub found : get_elem? r.anchor_facts i ≡ some facts
    pub prepared : PreparedOts
    pub derived : from_facts facts ≡ some prepared
    pub lookup : BlockLookup
    pub backed : IsBacked x moments prepared.attestation.block_height lookup
    pub confirms : Confirms s prepared lookup

  -- An anchor that is verified after the online pass was already verified before it, or it was
  -- confirmed, from facts that left it pending, by a header that is the one of the first of two or more
  -- reports of different sources, any two of which agree, each of an answer that the provider bound to
  -- the height of the proof.
  pub online_valid-IsSettled :
      (r : SingleVerificationResult) (session : Session) (i : ℕ) (a : AnchorVerificationResult)
      → CacheIsBacked x moments session.cache
      → get_elem? (online r session).anchor_results i ≡ some a
      → a.verdict ≡ AnchorVerdict.valid
      → (get_elem? r.anchor_results i ≡ some a) ⊎ IsSettled r i
  unfolding verify_anchors_online
  online_valid-IsSettled r session i a c h v =
      elim (confirm-IsAnswered x s moments (IsPrepared 0 r.anchor_facts) _ session r.anchor_results
        i a (pending-IsPrepared 0 r.receipt.anchors r.anchor_facts) c h) [
          | inl old ↦ inl old
          | inr w ↦
              let place : w.listed.place ≡ i = omega (arith, w.listed.offset, w.place) in
              inr (record {
                facts = w.listed.source;
                found =
                    subst (λ j. get_elem? r.anchor_facts j ≡ some w.listed.source) place
                      w.listed.found;
                prepared = w.pending.prepared;
                derived = w.listed.prepared;
                lookup = w.lookup;
                backed = w.backed;
                confirms =
                    (anchor_from_lookup-valid_iff s w.pending.prepared w.pending.target_hash
                        w.lookup).0
                      (ap (λ t. t.verdict) w.answered ∙ v);
              })
        ]

  -- The online pass leaves the result of an anchor as it was if the anchor was refuted offline, or if
  -- its facts hold no Bitcoin attestation or no block root computed from the proof.
  pub online_keeps_settled :
      (r : SingleVerificationResult) (session : Session) (i : ℕ) (f : AnchorFacts)
      → get_elem? r.anchor_facts i ≡ some f
      → (f.is_refuted ≡ true) ⊎ HasNoProof f.evidence
      → get_elem? (online r session).anchor_results i ≡ get_elem? r.anchor_results i
  unfolding verify_anchors_online
  online_keeps_settled r session i f found closed =
      confirm-elsewhere x s moments _ session r.anchor_results i (
        All-map _ (λ p w e. elsewhere p w e)
          (pending-IsPrepared 0 r.receipt.anchors r.anchor_facts))
    where
      elsewhere : (p : Pending) → IsPrepared 0 r.anchor_facts p → p.index ≢ i
      elsewhere p w e =
          let place : w.place ≡ i = omega (arith, w.offset) in
          let same : get_elem? r.anchor_facts i ≡ some w.source =
            subst (λ j. get_elem? r.anchor_facts j ≡ some w.source) place w.found in
          let source : f ≡ w.source = some-injective _ _ (sym found ∙ same) in
          cc (ap from_facts source, nothing_to_ask f closed, w.prepared)

  -- A receipt with nothing to ask about is not changed by the online pass, and no lookup is made for
  -- it.
  pub online_without_pending :
      (r : SingleVerificationResult) (session : Session)
      → receipt_requires_network r.anchor_facts ≡ false
      → verify_anchors_online x s moments r session ≡ (r, session)
  unfolding verify_anchors_online
  online_without_pending r session h = rw (pending-none 0 r.receipt.anchors r.anchor_facts h) refl

  -- The online pass keeps the number of reported anchors.
  pub length-online :
      (r : SingleVerificationResult) (session : Session)
      → length (online r session).anchor_results ≡ length r.anchor_results
  unfolding verify_anchors_online
  length-online r session =
      length-confirm x s moments (pending_from 0 r.receipt.anchors r.anchor_facts) session
        r.anchor_results

  pub online-cache :
      (r : SingleVerificationResult) (session : Session)
      → CacheIsBacked x moments session.cache
      → CacheIsBacked x moments (verify_anchors_online x s moments r session).1.cache
  unfolding verify_anchors_online
  online-cache r session c =
      confirm-cache x s moments (pending_from 0 r.receipt.anchors r.anchor_facts) session
        r.anchor_results c

  -- The online pass replaces the anchor results and nothing else.
  pub online-with_anchors :
      (r : SingleVerificationResult) (session : Session)
      → online r session ≡ with_anchors r (online r session).anchor_results
  unfolding verify_anchors_online
  online-with_anchors r session = refl

  -- Going online neither makes a receipt invalid nor redeems an invalid one.
  pub online-invalid_iff :
      (r : SingleVerificationResult) (session : Session)
      → ((verdict (online r session)).status ≡ Status.invalid)
        ↔ ((verdict r).status ≡ Status.invalid)
  unfolding verify_anchors_online
  online-invalid_iff r session = (
    λ h.
        ap (λ v. v.status)
          (anchors_never_refute r (online r session).anchor_results r.anchor_results h)
        ∙ h,
    λ h.
        ap (λ v. v.status)
          (anchors_never_refute r r.anchor_results (online r session).anchor_results h)
        ∙ h,
  )
