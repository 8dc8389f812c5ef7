-- ===== src/Sources/Base.antt =====
-- sources/base.py: the outcome of a fetch, and the two builders of it.
pub mod Ats
use Prim.Native.String.{◌++◌ as text_append}
use job_aggregator.Prelude.{
  ℕ, zero, suc, ◌+◌, String, Bool, true, false, not, ◌&&◌, Option, none, some, List, [], ◌∷◌, ◌++◌,
  map, length, coalesce, eqb, is_some, ◌||◌, ◌⊎◌, inl, inr, if◌then◌else◌,
}
use job_aggregator.Models.{Job}
use job_aggregator.Models.Amount.{ℤ}
use job_aggregator.Pipeline.Dedup.{codes, content_hash}
use job_aggregator.Pipeline.Normalize.{UrlLib, clean_text, canonical_url}

pub record RawPosting : Type 0 where
  pub source : String
  pub title : String
  pub company : String
  pub url : String
  pub source_native_id : Option String
  pub location : Option String
  pub is_remote : Option Bool
  pub description : Option String
  pub salary_min : Option ℤ
  pub salary_max : Option ℤ
  pub salary_currency : Option String
  pub salary_period : Option String
  pub posted_at : Option ℕ
  pub uid_location : Option String

pub record SourceResult : Type 0 where
  pub source : String
  pub succeeded : Bool
  pub jobs : List Job
  pub n_fetched : ℕ
  pub duration_ms : ℕ
  pub error : Option String
  pub sub_results : List (String × Bool × ℕ)
  pub exhaustive : Bool

-- SourceResult.ok
unfoldable pub succeeded_result : String → List Job → ℕ → Bool → SourceResult
succeeded_result source jobs duration_ms exhaustive = record {
  source = source;
  succeeded = true;
  jobs = jobs;
  n_fetched = length jobs;
  duration_ms = duration_ms;
  error = none;
  sub_results = [];
  exhaustive = exhaustive;
}

-- SourceResult.failed, called with no jobs
unfoldable pub failed_result : String → String → ℕ → SourceResult
failed_result source error duration_ms = record {
  source = source;
  succeeded = false;
  jobs = [];
  n_fetched = 0;
  duration_ms = duration_ms;
  error = some error;
  sub_results = [];
  exhaustive = true;
}

abbrev pub codes_of : Option String → Option (List ℕ)
codes_of none = none
codes_of (some t) = some (codes t)

unfoldable pub ats_sub_name : String → String → String
ats_sub_name source company = text_append source (text_append "_" company)

-- The variables of the loop of run_ats.
pub record AtsRun : Type 0 where
  pub jobs : List Job
  pub failed : List String
  pub sub_results : List (String × Bool × ℕ)
  pub n_ok : ℕ

module _ (lib : UrlLib) (ascii_fold : List ℕ → List ℕ) (sha256 : List ℕ → String) where
  unfoldable pub to_job : RawPosting → Job
  to_job raw = record {
    job_uid =
        content_hash ascii_fold sha256 (codes raw.company) (codes raw.title)
          (codes_of (if is_some raw.uid_location then raw.uid_location else raw.location));
    source = raw.source;
    source_native_id = raw.source_native_id;
    title = coalesce (clean_text lib (some raw.title)) (lib.strip raw.title);
    company = coalesce (clean_text lib (some raw.company)) (lib.strip raw.company);
    location = raw.location;
    is_remote = raw.is_remote;
    url = canonical_url lib raw.url;
    description = raw.description;
    salary_min = raw.salary_min;
    salary_max = raw.salary_max;
    salary_currency = raw.salary_currency;
    salary_period = raw.salary_period;
    salary_raw = none;
    salary_parsed = is_some raw.salary_min || is_some raw.salary_max;
    salary_bucket = none;
    posted_at = raw.posted_at;
    match_score = none;
    is_internship = false;
  }

  abbrev pub map_some : {A : Type 0} → (A → Option RawPosting) → List A → List Job
  map_some mapper [] = []
  map_some mapper (item ∷ items) =
      let rest = map_some mapper items in
      elim (mapper item) [ none ↦ rest | some raw ↦ to_job raw ∷ rest ]

  unfoldable pub build_result :
      {A : Type 0} → String → List A → (A → Option RawPosting) → ℕ → Bool → SourceResult
  unfolding succeeded_result failed_result
  build_result source [] mapper duration_ms exhaustive =
      failed_result source "suspicious empty: source returned 0 items" duration_ms
  build_result source (item ∷ items) mapper duration_ms exhaustive =
      succeeded_result source (map_some mapper (item ∷ items)) duration_ms exhaustive

  -- The loop body behind the call: the postings, or the text of the SourceError.
  unfoldable pub add_company : String → AtsRun → String → List RawPosting ⊎ String → AtsRun
  unfolding ats_sub_name
  add_company source s company (inr error) = record s {
    failed = s.failed ++ text_append company (text_append ": " error) ∷ [];
    sub_results = s.sub_results ++ (ats_sub_name source company, false, 0) ∷ [];
  }
  add_company source s company (inl raws) =
      let company_jobs = map to_job raws in
      record s {
        n_ok = s.n_ok + 1;
        jobs = s.jobs ++ company_jobs;
        sub_results =
            s.sub_results ++ (ats_sub_name source company, true, length company_jobs) ∷ [];
      }

  unfoldable pub visit_company :
      String → (String → List RawPosting ⊎ String) → AtsRun → String → AtsRun
  unfolding add_company
  visit_company source fetch_one s company = add_company source s company (fetch_one company)

  unfoldable pub visit_companies :
      String → (String → List RawPosting ⊎ String) → AtsRun → List String → AtsRun
  unfolding visit_company
  visit_companies source fetch_one s [] = s
  visit_companies source fetch_one s (company ∷ companies) =
      visit_companies source fetch_one (visit_company source fetch_one s company) companies

  abbrev pub no_companies : AtsRun
  no_companies = record { jobs = []; failed = []; sub_results = []; n_ok = 0 }

  -- "; ".join(failed) or None
  abbrev pub join_errors : List String → Option String
  join_errors [] = none
  join_errors (e ∷ []) = some e
  join_errors (e ∷ (f ∷ l)) =
      some (text_append e (text_append "; " (coalesce (join_errors (f ∷ l)) "")))

  -- ATS_REQUIRE_ALL_COMPANIES is False, so the strict branch is never taken. `all_failed` is the
  -- text of the error when every company failed.
  unfoldable pub run_ats :
      (List String → String)
      → String
      → List String
      → (String → List RawPosting ⊎ String)
      → SourceResult
  unfolding visit_companies failed_result
  run_ats all_failed source companies fetch_one =
      let s = visit_companies source fetch_one no_companies companies in
      if eqb s.n_ok 0 then failed_result source (all_failed s.failed) 0 else record {
        source = source;
        succeeded = true;
        jobs = s.jobs;
        n_fetched = length s.jobs;
        duration_ms = 0;
        error = join_errors s.failed;
        sub_results = s.sub_results;
        exhaustive = true;
      }
