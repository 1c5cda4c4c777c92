-- ===== src/Net/Bitcoin/Classify.antt =====
-- How src/net/bitcoin.rs, `classify`, turns the providers' answers into one of four outcomes.
use mathlib.Core.List.Permᴰ
use mathlib.Core.List.{Perm, Permᴰ}
use mathlib.Core.Logic.{∥∥₁_elim}
use atl_cli.Prelude.{
  ◌≤◌, String, true, List, [], ◌∷◌, ◌≡◌, ◌↔◌, refl, sym, ◌∙◌, arith, length, length-map,
  length-Permᴰ, if◌then◌else◌, Option, some, none, ◌==◌,
}
use atl_cli.Verify.Anchor.{BlockSourceReport}
use atl_cli.Verify.Anchor.Sources.{
  HexBytes, sources_agree, PairwiseAgree, sources_agree_iff, sources_agree-Permᴰ,
}
use atl_cli.Net.Bitcoin.{
  BitcoinBlockInfo, BlockReport, BlockLookup, to_source_report, source_reports, classify,
}

-- Which of the four outcomes a lookup is.
pub data Outcome : Type 0 where
  corroborated uncorroborated disagreement unavailable : Outcome

Outcome-set : IsSet Outcome
Outcome-set = hlevel

abbrev pub outcome : BlockLookup → Outcome
outcome (BlockLookup.corroborated _ _) = Outcome.corroborated
outcome (BlockLookup.uncorroborated _ _) = Outcome.uncorroborated
outcome (BlockLookup.disagreement _) = Outcome.disagreement
outcome (BlockLookup.unavailable _) = Outcome.unavailable

abbrev pub first_info : List BlockReport → Option BitcoinBlockInfo
first_info [] = none
first_info (r ∷ _) = some r.info

pub length-source_reports :
    (reports : List BlockReport) → length (source_reports reports) ≡ length reports
unfolding source_reports
length-source_reports reports = length-map reports (λ r. to_source_report r.info r.source)

module _ (x : HexBytes) where
  corroborated_by_test :
      (reports : List BlockReport) (failures : List String) (info : BitcoinBlockInfo)
      (kept : List BlockSourceReport)
      → (classify x reports failures ≡ BlockLookup.corroborated info kept) ↔ (
          (2 ≤ length reports)
          × (sources_agree x (source_reports reports) ≡ true)
          × (first_info reports ≡ some info)
          × (source_reports reports ≡ kept))
  unfolding classify
  corroborated_by_test [] failures info kept = ground arith
  corroborated_by_test (only ∷ []) failures info kept = ground arith
  corroborated_by_test (first ∷ second ∷ rest) failures info kept = ground arith

  -- A header is corroborated exactly when at least two reports were received and every two of them
  -- agree; the header is then the first report's, and every report is kept.
  pub classify-corroborated_iff :
      (reports : List BlockReport) (failures : List String) (info : BitcoinBlockInfo)
      (kept : List BlockSourceReport)
      → (classify x reports failures ≡ BlockLookup.corroborated info kept) ↔ (
          (2 ≤ length reports)
          × PairwiseAgree x (source_reports reports)
          × (first_info reports ≡ some info)
          × (source_reports reports ≡ kept))
  classify-corroborated_iff reports failures info kept =
      let (to, from) = corroborated_by_test reports failures info kept in
      let (agree_to, agree_from) = sources_agree_iff x (source_reports reports) in
      (
        (λ h. let (n, a, i, k) = to h in (n, agree_to a, i, k)),
        λ (n, a, i, k). from (n, agree_from a, i, k),
      )

  outcome-classify :
      (reports : List BlockReport) (failures : List String)
      → outcome (classify x reports failures) ≡ (
          if length reports == 0
          then Outcome.unavailable
          else if length reports == 1
          then Outcome.uncorroborated
          else if sources_agree x (source_reports reports)
          then Outcome.corroborated
          else Outcome.disagreement)
  unfolding classify
  outcome-classify [] failures = refl
  outcome-classify (only ∷ []) failures = refl
  outcome-classify (first ∷ second ∷ rest) failures = ground arith

  outcome-Permᴰ :
      {rs ts : List BlockReport} (fs gs : List String)
      → Permᴰ rs ts
      → outcome (classify x rs fs) ≡ outcome (classify x ts gs)
  unfolding source_reports
  outcome-Permᴰ {rs} {ts} fs gs p =
      outcome-classify rs fs
      ∙ rw
          (
            length-Permᴰ p,
            sources_agree-Permᴰ x (Permᴰ.map (λ r. to_source_report r.info r.source) p),
          )
          (sym (outcome-classify ts gs))

  -- Which of the four outcomes is reached does not depend on the order in which the providers are
  -- listed, nor on how the others failed.
  pub outcome-Perm :
      (rs ts : List BlockReport) (fs gs : List String)
      → Perm rs ts
      → outcome (classify x rs fs) ≡ outcome (classify x ts gs)
  outcome-Perm rs ts fs gs p = ∥∥₁_elim p (Outcome-set _ _) (outcome-Permᴰ fs gs)
