-- ===== src/Examples/Sources.antt =====
-- The laws of fetch outcomes and of the closure sweep at example answers.
use job_aggregator.Prelude.{
  arith, ℕ, ◌<◌, eqb, String, true, false, none, some, List, [], ◌∷◌, ◌≡◌, ◌⊎◌, inl, inr, refl, any,
  map, contains, ◌==◌, if◌then◌else◌,
}
use job_aggregator.Models.{JobStatus}
use job_aggregator.Errors.{Error, ok, raise, other}
use job_aggregator.Pipeline.Runner.Fetch.{Fetch, fetch_one, fetch_all, fetch_all-eq-map}
use job_aggregator.Storage.{Row, find}
use job_aggregator.Storage.Runs.{Runs}
use job_aggregator.Pipeline.Runner.Outcomes.{
  no_outcomes, record_source_runs, outcomes, reports_ok, succeeded_iff,
}
use job_aggregator.Sources.Base.{RawPosting, SourceResult}
use job_aggregator.Sources.Closure.{RegStatus, Site, Sweep, before_sweep, sweep_rows}
use job_aggregator.Sources.Closure.Budget.{IsWithin, sweep_rows-IsWithin}
use job_aggregator.Sources.Closure.Rows.{Restamped, sweep_rows-acted}
use job_aggregator.Examples.{posting, stored_row}

abbrev lever : SourceResult
lever = record {
  source = "lever";
  succeeded = true;
  jobs = [];
  n_fetched = 3;
  duration_ms = 900;
  error = some "beta: HTTP 500";
  sub_results = ("lever_acme", true, 3) ∷ ("lever_beta", false, 0) ∷ [];
  exhaustive = true;
}

abbrev no_runs : Runs
no_runs = record { last_run_id = 0; runs = []; source_runs = [] }

succeeded_iff_example :
    contains (record_source_runs 1 (no_outcomes no_runs) (lever ∷ [])).succeeded "lever_beta"
    ≡ any (λ res. reports_ok "lever_beta" (outcomes res)) (lever ∷ [])
succeeded_iff_example = succeeded_iff 1 "lever_beta" no_runs (lever ∷ [])

abbrev fetch_board : String → List RawPosting ⊎ String
fetch_board company = if company == "acme" then inl [] else inr "HTTP 500"

abbrev first_error : List String → String
first_error errors = "all companies failed"

-- Every posting answers that it is finished.
abbrev pub finished_site : Site
finished_site = record {
  lower = λ t. t;
  closed_job = λ t. true;
  status_tag = λ t. none;
  value_of = λ t. none;
  is_number = λ t. true;
  id_in_url = λ source url. some "7";
  parse_url = λ t. record { scheme = "https"; host = "unstop.com"; path = "/a" };
  ends_with = λ t part. false;
  fill = λ t id. t;
  answer = λ n target. some (record {
    status_code = 200;
    is_redirect = false;
    location_path = "";
    location_query = "";
    body = "";
    reg_status = RegStatus.word "FINISHED";
  });
}

abbrev due : List Row
due =
    stored_row (posting "a" "unstop" "https://unstop.com/a") JobStatus.active true
    ∷ stored_row (posting "b" "unstop" "https://unstop.com/b") JobStatus.active false
    ∷ []

abbrev start : Sweep
start = before_sweep finished_site (λ n. n) 1 due 0

start-IsWithin : IsWithin 1 start
start-IsWithin = record { counted = refl; bounded = omega arith }

sweep_rows-IsWithin_example : IsWithin 1 (sweep_rows finished_site (λ n. n) 1 start due)
sweep_rows-IsWithin_example = sweep_rows-IsWithin finished_site (λ n. n) 1 due start start-IsWithin

abbrev blocked_start : Sweep
blocked_start = record start { blocked = "unstop" ∷ [] }

find_due :
    find "a" start.rows
    ≡ some (stored_row (posting "a" "unstop" "https://unstop.com/a") JobStatus.active true)
unfolding find
find_due = refl

sweep_rows-acted_example :
    (r : Row) × (find "a" (sweep_rows finished_site (λ n. n) 5 start due).rows ≡ some r)
    × Restamped (stored_row (posting "a" "unstop" "https://unstop.com/a") JobStatus.active true) r
sweep_rows-acted_example =
    sweep_rows-acted finished_site (λ n. n) 5 due start "a"
      (stored_row (posting "a" "unstop" "https://unstop.com/a") JobStatus.active true) find_due refl

-- Two fetches, of which the second ends first, and raises.
abbrev board_fetch : Fetch
board_fetch = record { name = "lever"; answer = ok lever; elapsed_ms = 900 }

abbrev broken_fetch : Fetch
broken_fetch = record { name = "adzuna"; answer = raise (other "boom"); elapsed_ms = 40 }

abbrev boom : Error → String
boom e = "boom"

both_ended : (i : ℕ) → i < 2 → any (λ j. eqb j i) (1 ∷ 0 ∷ []) ≡ true
both_ended i h = ground arith

fetch_all-eq-map_example :
    fetch_all boom (1 ∷ 0 ∷ []) (board_fetch ∷ broken_fetch ∷ [])
    ≡ map (fetch_one boom) (board_fetch ∷ broken_fetch ∷ [])
fetch_all-eq-map_example =
    fetch_all-eq-map boom (1 ∷ 0 ∷ []) (board_fetch ∷ broken_fetch ∷ []) both_ended
