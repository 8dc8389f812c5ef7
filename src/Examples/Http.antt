-- ===== src/Examples/Http.antt =====
-- The laws of the retry loop, of a page walk and of a merged fetch, at example answers.
use job_aggregator.Prelude.{
  ◌==◌, coalesce, some, All, ℕ, zero, suc, ◌<◌, ◌↔◌, ◌≡◌, String, Bool, true, false, Option, none,
  List, [], ◌∷◌, refl, length, inr, arith, is_some, contains,
}
use job_aggregator.Sources.Base.{RawPosting, SourceResult, build_result}
use job_aggregator.Sources.Http.{
  Answer, unreachable, replied, Outcome, value, source_error, pause, settle, is_retryable,
  read_pages, request_with_retry,
}
use job_aggregator.Sources.Http.Pages.{read_pages-source_error}
use job_aggregator.Sources.Http.Retry.{request_with_retry-settles}
use job_aggregator.Sources.Walks.{
  unstop_walks, fetch_walks, add_walks, add_walk, add_items, add_item, finish_walks,
}
use job_aggregator.Sources.Walks.Searches.{AreReadOut, unstop_walks-exhaustive}
use job_aggregator.Examples.Postings.{urls, no_fold, digest}

-- A dead connection, then a page.
abbrev respond : ℕ → Answer
respond zero = unreachable "timeout"
respond (suc n) = replied (record { status_code = 200; retry_after = none; body = "[]" })

first-paused : (i : ℕ) → i < 1 → is_some (pause (respond i) i) ≡ true
unfolding pause
first-paused zero h = refl
first-paused (suc i) h = absurd (omega (arith, h))

request_with_retry-settles_example :
    ((request_with_retry respond 3).0 ≡ settle (respond 1))
    × (length (request_with_retry respond 3).1 ≡ 1)
request_with_retry-settles_example =
    request_with_retry-settles respond 3 1 (omega arith) first-paused
      (inr (unfold pause is_retryable in refl))

abbrev fetch_page : ℕ → Outcome (List String × Bool)
fetch_page zero = value ("a" ∷ [], false)
fetch_page (suc n) = source_error "HTTP 500"

read_pages-source_error_example :
    (read_pages fetch_page 3 0 [] ≡ source_error "HTTP 500")
    ↔ (fetch_page 0 ≡ source_error "HTTP 500")
read_pages-source_error_example = read_pages-source_error fetch_page 2 "HTTP 500"

-- Two searches of one page each: the first ends on the last page, the second at the page cap.
abbrev search_page : String → Option String → ℕ → Outcome (List String × Bool)
search_page opp term n = value (coalesce term "" ∷ [], coalesce term "" == "go")

abbrev own_key : String → String
own_key item = item

abbrev no_posting : String → Option RawPosting
no_posting item = none

abbrev join_errors_of : List String → String
join_errors_of errors = "all failed"

abbrev fetched : SourceResult
fetched = record {
  source = "unstop";
  succeeded = true;
  jobs = [];
  n_fetched = 0;
  duration_ms = 80;
  error = none;
  sub_results = [];
  exhaustive = false;
}

unstop-fetched :
    fetch_walks own_key urls no_fold digest join_errors_of "unstop" no_posting 80
      (unstop_walks own_key search_page 1 ("go" ∷ "rust" ∷ []) ("jobs" ∷ []))
    ≡ value fetched
unfolding fetch_walks add_walks add_walk add_items add_item finish_walks build_result contains
    unstop_walks read_pages
unstop-fetched = refl

unstop_walks-exhaustive_example :
    (fetched.exhaustive ≡ true)
    ↔ All (λ opp. AreReadOut own_key search_page 1 opp (some "go" ∷ some "rust" ∷ [])) ("jobs" ∷ [])
unstop_walks-exhaustive_example =
    unstop_walks-exhaustive own_key search_page 1 urls no_fold digest join_errors_of no_posting 80
      ("go" ∷ "rust" ∷ []) ("jobs" ∷ []) fetched unstop-fetched refl
