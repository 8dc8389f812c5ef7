-- ===== src/Dashboard/Listing/Pages.antt =====
-- The pages of the list together.
use job_aggregator.Prelude.{
  ℕ, zero, suc, ◌+◌, ◌-◌, ◌*◌, ◌≤◌, String, Bool, true, List, [], ◌++◌, ◌≡◌, refl, ap, sym, ◌∙◌,
  arith, count, drop, filter, length, length-filter, length-take, take,
}
use job_aggregator.Storage.{Row}
use job_aggregator.Storage.Query.Pages.{count-true, take-add, take_all}
use job_aggregator.Dashboard.Listing.{JobQuery, SortOption, is_listed, query_jobs}

module _ (like : String → String → Bool) (order : SortOption → List Row → List Row)
    (reorders : (key : SortOption) (p : Row → Bool) (rows : List Row)
      → count p (order key rows) ≡ count p rows)
    (rows : List Row) (query : JobQuery) where
  abbrev pub list_page : ℕ → List Row
  list_page n = (query_jobs like order rows (record query { page = n })).0

  -- The first k pages.
  abbrev pub list_pages : ℕ → List Row
  list_pages zero = []
  list_pages (suc k) = list_pages k ++ list_page (suc k)

  list_pages-eq-take :
      (k : ℕ) → list_pages k ≡ take (k * 50) (order query.sort (filter (is_listed like query) rows))
  unfolding query_jobs is_listed
  list_pages-eq-take zero = refl
  list_pages-eq-take (suc k) =
      let l = order query.sort (filter (is_listed like query) rows) in
      let back : suc k - 1 ≡ k = omega arith in
      rw back (
        ap (λ (front : List Row). front ++ take 50 (drop (k * 50) l)) (list_pages-eq-take k)
        ∙ take-add (k * 50) 50 l
        ∙ (let more : k * 50 + 50 ≡ suc k * 50 = omega arith in ap (λ n. take n l) more))

  -- With an ORDER BY that only reorders, a page has at most 50 rows, the total counts the matching rows, and as many pages as hold the
  -- total show every matching row exactly as often as it is stored, and no other row.
  pub count-list_pages :
      (k : ℕ) (p : Row → Bool)
      → (length (list_page k) ≤ 50)
        × ((query_jobs like order rows query).1 ≡ length (filter (is_listed like query) rows))
        × ((query_jobs like order rows query).1 ≤ k * 50
            → count p (list_pages k) ≡ count p (filter (is_listed like query) rows))
  unfolding query_jobs is_listed
  count-list_pages k p =
      let kept = filter (is_listed like query) rows in
      let l = order query.sort kept in
      let cut = length-take 50 (drop ((k - 1) * 50) l) in
      let n = length-filter (is_listed like query) rows in
      let size : length l ≡ length kept =
        sym (count-true l) ∙ reorders query.sort (λ r. true) kept ∙ count-true kept in
      (
        omega (arith, cut),
        sym n,
        λ enough.
            ap (count p)
              (list_pages-eq-take k ∙ take_all (k * 50) l (omega (arith, size, n, enough)))
            ∙ reorders query.sort p kept,
      )
