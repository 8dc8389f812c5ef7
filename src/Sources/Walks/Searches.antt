-- ===== src/Sources/Walks/Searches.antt =====
-- When the fetch of sources/unstop.py may call itself exhaustive, told from the pages that it reads.
use job_aggregator.Prelude.{
  ◌↔◌, ◌≡◌, ◌≤◌, ◌+◌, ◌&&◌, ◌++◌, ◌∷◌, ℕ, zero, suc, String, Bool, true, false, Option, List, [],
  All, arith, inl, inr, length, map, refl, sym, ◌∙◌,
}
use job_aggregator.Pipeline.Normalize.{UrlLib}
use job_aggregator.Sources.Base.{RawPosting, SourceResult}
use job_aggregator.Sources.Http.{Outcome, value, read_pages, Outcome-cases}
use job_aggregator.Sources.Http.Pages.{Reads, read_pages-Reads}
use job_aggregator.Sources.Walks.{fetch_walks, term_walk, terms_of, unstop_walks}
use job_aggregator.Sources.Walks.Merge.{all_done, is_done, fetch_walks-exhaustive}

module _ {A : Type 0} (fetch_page : ℕ → Outcome (List A × Bool)) where
  -- The pages from `offset` on are read one by one, within the cap, to the one that is the last of the
  -- API.
  abbrev pub IsReadOut : ℕ → ℕ → Type 0
  IsReadOut left offset =
      (bs : List (List A)) × Reads fetch_page offset bs true × (length bs ≤ left)

  read_pages-out :
      (left offset : ℕ) (items : List A)
      → is_done (read_pages fetch_page left offset items) ≡ true
      → IsReadOut left offset
  read_pages-out left offset items h =
      elim (Outcome-cases (read_pages fetch_page left offset items)) [
        | inl ((out, true), x) ↦
            let (bs, reads, _, few) = read_pages-Reads fetch_page left offset items out true x in
            (bs, reads, few)
        | inl ((out, false), x) ↦ absurd (ground (arith, h, x))
        | inr (inl (e, x)) ↦ absurd (ground (arith, h, x))
        | inr (inr (e, x)) ↦ absurd (ground (arith, h, x))
      ]

  out-read_pages :
      (left offset : ℕ) (items : List A) (bs : List (List A))
      → Reads fetch_page offset bs true
      → length bs ≤ left
      → is_done (read_pages fetch_page left offset items) ≡ true
  unfolding read_pages
  out-read_pages left offset items [] reads few = cc
  out-read_pages zero offset items (b ∷ bs) reads few = absurd (omega (arith, few))
  out-read_pages (suc left) offset items (b ∷ bs) reads few = elim reads [
    | inl (x, _, _) ↦ rw (x, read_pages) refl
    | inr (x, more) ↦
        rw (x, read_pages)
          (out-read_pages left (offset + 1) (items ++ b) bs more (omega (arith, few)))
  ]

module _ {A : Type 0} (key : A → String)
    (fetch_page : String → Option String → ℕ → Outcome (List A × Bool)) (max_pages : ℕ) where
  -- Each search of an opportunity is read out.
  abbrev pub AreReadOut : String → List (Option String) → Type 0
  AreReadOut opp terms = All (λ term. IsReadOut (fetch_page opp term) max_pages 0) terms

  all_done-append :
      (xs ys : List (String × Outcome (List A × Bool)))
      → all_done key (xs ++ ys) ≡ (all_done key xs && all_done key ys)
  all_done-append [] ys = refl
  all_done-append ((label, walk) ∷ xs) ys = ground (arith, all_done-append xs ys)

  and_both : (a b : Bool) → (a && b) ≡ true → (a ≡ true) × (b ≡ true)
  and_both a b h = ground arith

  both_and : (a b : Bool) → a ≡ true → b ≡ true → (a && b) ≡ true
  both_and a b h k = ground (arith, h, k)

  term_walks-done :
      (opp : String) (terms : List (Option String))
      → (all_done key (map (term_walk key fetch_page max_pages opp) terms) ≡ true)
        ↔ AreReadOut opp terms
  term_walks-done opp [] = ((λ h. tt), λ h. refl)
  term_walks-done opp (term ∷ terms) = (
    (λ h.
        let (first, rest) = and_both _ _ h in
        (
          read_pages-out (fetch_page opp term) max_pages 0 [] first,
          (term_walks-done opp terms).0 rest,
        )),
    λ h.
        let (bs, reads, few) = h.0 in
        both_and _ _ (out-read_pages (fetch_page opp term) max_pages 0 [] bs reads few)
          ((term_walks-done opp terms).1 (h.1)),
  )

  unstop_walks-done :
      (search_terms opportunities : List String)
      → (all_done key (unstop_walks key fetch_page max_pages search_terms opportunities) ≡ true)
        ↔ All (λ opp. AreReadOut opp (terms_of key search_terms)) opportunities
  unfolding unstop_walks
  unstop_walks-done terms [] = ((λ h. tt), λ h. refl)
  unstop_walks-done terms (opp ∷ opps) =
      let walks = map (term_walk key fetch_page max_pages opp) (terms_of key terms) in
      let more = unstop_walks key fetch_page max_pages terms opps in
      (
        (λ h.
            let (first, rest) = and_both _ _ (sym (all_done-append walks more) ∙ h) in
            (
              (term_walks-done opp (terms_of key terms)).0 first,
              (unstop_walks-done terms opps).0 rest,
            )),
        λ h.
            all_done-append walks more
            ∙ both_and _ _ ((term_walks-done opp (terms_of key terms)).1 (h.0))
                ((unstop_walks-done terms opps).1 (h.1)),
      )

  -- A fetch of Unstop that succeeded calls itself exhaustive exactly when, for each opportunity and each
  -- search term, pages were read one by one from the first to the one that the API gave as its last,
  -- within the page cap. So one search that failed, stopped at the cap or was cut short by an error on a
  -- later page makes it windowed.
  pub unstop_walks-exhaustive :
      (lib : UrlLib) (ascii_fold : List ℕ → List ℕ) (sha256 : List ℕ → String)
      (all_failed : List String → String) (mapper : A → Option RawPosting) (duration_ms : ℕ)
      (search_terms opportunities : List String) (res : SourceResult)
      → fetch_walks key lib ascii_fold sha256 all_failed "unstop" mapper duration_ms
          (unstop_walks key fetch_page max_pages search_terms opportunities)
        ≡ value res
      → res.succeeded ≡ true
      → (res.exhaustive ≡ true)
        ↔ All (λ opp. AreReadOut opp (terms_of key search_terms)) opportunities
  unstop_walks-exhaustive lib fold sha256 all_failed mapper ms terms opps res h good =
      let same =
        fetch_walks-exhaustive key lib fold sha256 all_failed "unstop" mapper ms
          (unstop_walks key fetch_page max_pages terms opps) res h good in
      let (there, back) = unstop_walks-done terms opps in
      ((λ e. there (sym same ∙ e)), λ all. same ∙ back all)
