-- ===== src/Output/Human/PageLaws.antt =====
-- What the page about one receipt (src/output/human.rs) never leaves out.
use atl_cli.Prelude.{String, Bool, true, ◌++◌, ◌≡◌, sym, subst, All, All-map}
use atl_cli.Verify.Anchor.{AnchorVerdict}
use atl_cli.Verify.Single.{SingleVerificationResult, assessment, receipt_refutation}
use atl_cli.Output.Human.Assessment.{assessment_lines}
use atl_cli.Output.Human.Details.{Printer}
use atl_cli.Output.Human.Page.{page_head, receipt_lines, page_tail, single_result_lines}
use atl_cli.Output.Human.Shown.{
  IsAccounted, shown, shown-left, shown-right, assessment_lines-Accounts,
}

module _ (p : Printer) (color : Bool) (r : SingleVerificationResult)
    (h : r.file_hash_valid ≡ true) where
  page_lines :
      single_result_lines p color r
      ≡ page_head p color r
        ++ (receipt_lines p color r ++ (assessment_lines (assessment r) ++ page_tail p color r))
  unfolding single_result_lines
  page_lines = rw h

  shown-page :
      (l : String)
      → shown l (assessment_lines (assessment r)) ≡ true
      → shown l (single_result_lines p color r) ≡ true
  shown-page l k =
      let behind = shown-left l (assessment_lines (assessment r)) (page_tail p color r) k in
      let below =
        shown-right l (receipt_lines p color r)
          (assessment_lines (assessment r) ++ page_tail p color r) behind in
      let whole =
        shown-right l (page_head p color r)
          (receipt_lines p color r ++ (assessment_lines (assessment r) ++ page_tail p color r))
          below in
      subst (λ lines. shown l lines ≡ true) (sym page_lines) whole

  IsAccounted-page :
      (kind : String) (v : AnchorVerdict)
      → IsAccounted (assessment_lines (assessment r)) kind v
      → IsAccounted (single_result_lines p color r) kind v
  IsAccounted-page kind AnchorVerdict.valid k = tt
  IsAccounted-page kind (AnchorVerdict.untrusted reason) k = shown-page _ k
  IsAccounted-page kind (AnchorVerdict.invalid reason) k = shown-page _ k

  -- The page about a receipt whose file has the receipt's hash has a line for every anchor that is not
  -- verified, with its type, its state and its reason code, whatever the verdict is: also where the
  -- receipt is accepted.
  pub single_result_lines-Accounts :
      All
        (λ a. IsAccounted (single_result_lines p color r) a.anchor_type a.verdict)
        r.anchor_results
  unfolding assessment
  single_result_lines-Accounts =
      All-map r.anchor_results (λ a k. IsAccounted-page a.anchor_type a.verdict k)
        (assessment_lines-Accounts r.policy (receipt_refutation r) r.anchor_results)
