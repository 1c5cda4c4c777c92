-- ===== src/Verify/Online/Pass.antt =====
-- The loop over the pending anchors (src/verify/online.rs, `verify_anchors_online`).
use atl_cli.Prelude.{
  ℕ, suc, ◌+◌, false, some, List, [], ◌∷◌, ◌≡◌, ◌≢◌, ◌⊎◌, inl, inr, refl, ◌∙◌, arith, length,
  length-set, get_elem?, get_elem?-set, get_elem?-set_ne, Option-cases, All, All-map,
}
use atl_cli.Core.{AnchorFacts, ReceiptAnchor}
use atl_cli.Verify.Anchor.{AnchorVerificationResult, from_facts}
use atl_cli.Verify.Anchor.Sources.{HexBytes}
use atl_cli.Net.Bitcoin.{BlockLookup}
use atl_cli.Net.Bitcoin.Cache.{Moment, lookup_block}
use atl_cli.Net.Bitcoin.Cache.Backed.{IsBacked, CacheIsBacked}
use atl_cli.Net.Bitcoin.Cache.Laws.{lookup_block-IsBacked}
use atl_cli.Verify.Online.{
  Services, Pending, Session, pending_from, confirm, anchor_from_lookup, receipt_requires_network,
}

-- A pending anchor stands at the place of the facts that it was prepared from.
pub record IsPrepared (k : ℕ) (facts : List AnchorFacts) (p : Pending) : Type 0 where
  pub place : ℕ
  pub offset : p.index ≡ k + place
  pub source : AnchorFacts
  pub found : get_elem? facts place ≡ some source
  pub prepared : from_facts source ≡ some p.prepared

IsPrepared-suc :
    {k : ℕ} {f : AnchorFacts} {facts : List AnchorFacts} {p : Pending}
    → IsPrepared (suc k) facts p
    → IsPrepared k (f ∷ facts) p
IsPrepared-suc w = record {
  place = suc w.place;
  offset = omega (arith, w.offset);
  source = w.source;
  found = w.found;
  prepared = w.prepared;
}

pub pending-IsPrepared :
    (k : ℕ) (anchors : List ReceiptAnchor) (facts : List AnchorFacts)
    → All (IsPrepared k facts) (pending_from k anchors facts)
unfolding pending_from
pending-IsPrepared k [] facts = tt
pending-IsPrepared k (a ∷ anchors) [] = tt
pending-IsPrepared k (a ∷ anchors) (f ∷ facts) =
    let later : All (IsPrepared k (f ∷ facts)) (pending_from (suc k) anchors facts) =
      All-map _ (λ p. IsPrepared-suc) (pending-IsPrepared (suc k) anchors facts) in
    elim (Option-cases (from_facts f)) [
      | inl nothing ↦ rw (nothing, pending_from) later
      | inr (prepared, found) ↦
          rw (found, pending_from)
            (
              record {
                place = 0;
                offset = omega arith;
                source = f;
                found = refl;
                prepared = found;
              },
              later,
            )
    ]

-- With nothing prepared there is nothing pending.
pub pending-none :
    (k : ℕ) (anchors : List ReceiptAnchor) (facts : List AnchorFacts)
    → receipt_requires_network facts ≡ false
    → pending_from k anchors facts ≡ []
unfolding pending_from receipt_requires_network
pending-none k [] facts h = refl
pending-none k (a ∷ anchors) [] h = refl
pending-none k (a ∷ anchors) (f ∷ facts) h = ground (arith, pending-none (suc k) anchors facts)

module _ (x : HexBytes) (s : Services) (moments : ℕ → Moment) where
  -- The answer that a pending anchor is given in some session.
  abbrev answer : Pending → Session → BlockLookup
  answer p session =
      (lookup_block x (moments session.lookups) p.prepared.attestation.block_height session.cache).0

  pub length-confirm :
      (ps : List Pending) (session : Session) (rs : List AnchorVerificationResult)
      → length (confirm x s moments ps session rs).0 ≡ length rs
  unfolding confirm
  length-confirm [] session rs = refl
  length-confirm (p ∷ ps) session rs = length-confirm ps _ _ ∙ length-set rs p.index _

  pub confirm-lookups :
      (ps : List Pending) (session : Session) (rs : List AnchorVerificationResult)
      → (confirm x s moments ps session rs).1.lookups ≡ session.lookups + length ps
  unfolding confirm
  confirm-lookups [] session rs = omega arith
  confirm-lookups (p ∷ ps) session rs = confirm-lookups ps _ _ ∙ omega arith

  pub confirm-cache :
      (ps : List Pending) (session : Session) (rs : List AnchorVerificationResult)
      → CacheIsBacked x moments session.cache
      → CacheIsBacked x moments (confirm x s moments ps session rs).1.cache
  unfolding confirm
  confirm-cache [] session rs h = h
  confirm-cache (p ∷ ps) session rs h =
      let kept =
        lookup_block-IsBacked x moments session.lookups p.prepared.attestation.block_height
          session.cache h in
      confirm-cache ps _ _ kept.1

  -- A place that no pending anchor names is left alone.
  pub confirm-elsewhere :
      (ps : List Pending) (session : Session) (rs : List AnchorVerificationResult) (i : ℕ)
      → All (λ p. p.index ≢ i) ps
      → get_elem? (confirm x s moments ps session rs).0 i ≡ get_elem? rs i
  unfolding confirm
  confirm-elsewhere [] session rs i h = refl
  confirm-elsewhere (p ∷ ps) session rs i (h, hs) =
      confirm-elsewhere ps _ _ i hs ∙ get_elem?-set_ne rs p.index i _ h

  -- Where a result of the loop comes from: it was there before, or it is the answer to a pending
  -- anchor of that place, from a lookup that is backed if it is corroborated.
  pub record IsAnswered (Q : Pending → Type 0) (i : ℕ) (a : AnchorVerificationResult) : Type 1 where
    pub pending : Pending
    pub lookup : BlockLookup
    pub listed : Q pending
    pub place : pending.index ≡ i
    pub answered : anchor_from_lookup s pending.prepared pending.target_hash lookup ≡ a
    pub backed : IsBacked x moments pending.prepared.attestation.block_height lookup

  pub confirm-IsAnswered :
      (Q : Pending → Type 0) (ps : List Pending) (session : Session)
      (rs : List AnchorVerificationResult) (i : ℕ) (a : AnchorVerificationResult)
      → All Q ps
      → CacheIsBacked x moments session.cache
      → get_elem? (confirm x s moments ps session rs).0 i ≡ some a
      → (get_elem? rs i ≡ some a) ⊎ IsAnswered Q i a
  unfolding confirm
  confirm-IsAnswered Q [] session rs i a q c h = inl h
  confirm-IsAnswered Q (p ∷ ps) session rs i a (q, qs) c h =
      let kept =
        lookup_block-IsBacked x moments session.lookups p.prepared.attestation.block_height
          session.cache c in
      elim (confirm-IsAnswered Q ps _ _ i a qs kept.1 h) [
        | inr later ↦ inr later
        | inl now ↦ elim (get_elem?-set rs p.index i _ a now) [
          | inl old ↦ inl old
          | inr (same, new) ↦ inr (record {
            pending = p;
            lookup = answer p session;
            listed = q;
            place = same;
            answered = new;
            backed = kept.0;
          })
        ]
      ]
