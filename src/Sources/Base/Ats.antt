-- ===== src/Sources/Base/Ats.antt =====
-- What run_ats reports for each company.
use job_aggregator.Prelude.{
  ℕ, suc, ◌+◌, String, Bool, true, false, not, List, [], ◌∷◌, ◌++◌, ◌≡◌, refl, ap, sym, ◌∙◌, ◌⊎◌,
  inl, inr, map, any, length, count, eqb, arith, if◌then◌else◌,
}
use mathlib.Core.List.{append_assoc, append-nil}
use job_aggregator.Models.{Job}
use job_aggregator.Pipeline.Normalize.{UrlLib}
use job_aggregator.Sources.Base.{
  failed_result, RawPosting, AtsRun, ats_sub_name, add_company, visit_company, visit_companies,
  no_companies, run_ats,
}

-- A company is fetched when its call returns postings, an empty list included.
abbrev pub is_fetched : List RawPosting ⊎ String → Bool
is_fetched (inl raws) = true
is_fetched (inr error) = false

abbrev pub n_postings : List RawPosting ⊎ String → ℕ
n_postings (inl raws) = length raws
n_postings (inr error) = 0

module _ (lib : UrlLib) (ascii_fold : List ℕ → List ℕ) (sha256 : List ℕ → String) (source : String)
    (fetch_one : String → List RawPosting ⊎ String) where
  -- The entry that a company is to have.
  abbrev pub entry_of : String → String × Bool × ℕ
  entry_of company =
      (ats_sub_name source company, is_fetched (fetch_one company), n_postings (fetch_one company))

  length-map_jobs :
      (raws : List RawPosting) (f : RawPosting → Job) → length (map f raws) ≡ length raws
  length-map_jobs [] f = refl
  length-map_jobs (r ∷ raws) f = ap suc (length-map_jobs raws f)

  add_company-entry :
      (s : AtsRun) (company : String) (answer : List RawPosting ⊎ String)
      → ((add_company lib ascii_fold sha256 source s company answer).sub_results
          ≡ s.sub_results
            ++ (ats_sub_name source company, is_fetched answer, n_postings answer) ∷ [])
        × ((add_company lib ascii_fold sha256 source s company answer).n_ok
            ≡ s.n_ok + (if is_fetched answer then 1 else 0))
  unfolding add_company
  add_company-entry s company (inl raws) = (rw (length-map_jobs raws _), refl)
  add_company-entry s company (inr error) = (refl, omega arith)

  visit_company-entry :
      (s : AtsRun) (company : String)
      → ((visit_company lib ascii_fold sha256 source fetch_one s company).sub_results
          ≡ s.sub_results ++ entry_of company ∷ [])
        × ((visit_company lib ascii_fold sha256 source fetch_one s company).n_ok
            ≡ s.n_ok + (if is_fetched (fetch_one company) then 1 else 0))
  unfolding visit_company
  visit_company-entry s company = add_company-entry s company (fetch_one company)

  visit_companies-entries :
      (companies : List String) (s : AtsRun)
      → ((visit_companies lib ascii_fold sha256 source fetch_one s companies).sub_results
          ≡ s.sub_results ++ map entry_of companies)
        × ((visit_companies lib ascii_fold sha256 source fetch_one s companies).n_ok
            ≡ s.n_ok + count (λ c. is_fetched (fetch_one c)) companies)
  unfolding visit_companies
  visit_companies-entries [] s = (sym (append-nil s.sub_results), omega arith)
  visit_companies-entries (c ∷ companies) s =
      let s' = visit_company lib ascii_fold sha256 source fetch_one s c in
      let (entry, more) = visit_company-entry s c in
      let (entries, total) = visit_companies-entries companies s' in
      (
        entries ∙ ap (λ l. l ++ map entry_of companies) entry ∙ append_assoc s.sub_results _ _,
        ground (arith, more, total),
      )

  any-count : (p : String → Bool) (l : List String) → any p l ≡ not (eqb (count p l) 0)
  any-count p [] = refl
  any-count p (x ∷ l) = ground (arith, any-count p l)

  -- The result is a success exactly when some company was fetched. It then has one entry for each
  -- company, in order, that says whether it was fetched and how many postings it gave; otherwise it
  -- has no entry. The number of its jobs is the number that it reports.
  pub run_ats-entries :
      (all_failed : List String → String) (companies : List String)
      → ((run_ats lib ascii_fold sha256 all_failed source companies fetch_one).succeeded
          ≡ any (λ c. is_fetched (fetch_one c)) companies)
        × ((run_ats lib ascii_fold sha256 all_failed source companies fetch_one).sub_results ≡ (
            if any (λ c. is_fetched (fetch_one c)) companies then map entry_of companies else []))
        × (length (run_ats lib ascii_fold sha256 all_failed source companies fetch_one).jobs
            ≡ (run_ats lib ascii_fold sha256 all_failed source companies fetch_one).n_fetched)
  unfolding run_ats failed_result
  run_ats-entries all_failed companies =
      let (entries, total) =
        visit_companies-entries companies (no_companies lib ascii_fold sha256) in
      let some_ok = any-count (λ c. is_fetched (fetch_one c)) companies in
      (ground (arith, total, some_ok), ground (arith, entries, total, some_ok), ground arith)
