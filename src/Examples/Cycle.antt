-- ===== src/Examples/Cycle.antt =====
-- The laws of a whole cycle at the example rows and sources.
use job_aggregator.Prelude.{
  false, All, arith, ℕ, String, true, none, some, List, [], ◌∷◌, ◌≡◌, refl,
}
use job_aggregator.Errors.{Error, Result, ok}
use job_aggregator.Storage.{Row, find}
use job_aggregator.Storage.Runs.{current_run, latest}
use job_aggregator.Storage.Upsert.Provenance.{KeepsUserColumns}
use job_aggregator.Sources.Base.{SourceResult}
use job_aggregator.Pipeline.Runner.{Env}
use job_aggregator.Pipeline.Runner.Cycle.{World, run_cycle}
use job_aggregator.Pipeline.Runner.Cycle.Lock.{IsFree, run_cycle-IsFree}
use job_aggregator.Pipeline.Runner.Cycle.Rows.{run_cycle-KeepsUserColumns}
use job_aggregator.Models.{JobStatus}
use job_aggregator.Pipeline.Dedup.{
  norm_location, tokens, split, chunk, join, lower, canonical_place, is_one_of, is_alnum,
}
use job_aggregator.Pipeline.Salary.{salary_bucket, floor_of, representative_inr}
use job_aggregator.Pipeline.Signals.{says_unpaid, states_unpaid, stated_amounts, flatten}
use job_aggregator.Pipeline.Filters.{
  detect_internship, score_and_filter, verdict, salary_gate, kept, hard_drop_reason, excluded_by,
  lacks_level, lacks_role, lacks_skill, too_senior, is_unpaid, is_too_long, location_ok, reading,
  anchored, matches, search_word, stands, required_years, place_words, posting_text,
}
use job_aggregator.Pipeline.Runner.Refilter.{retire_failing_jobs, failing, still_passes, fill_pay}
use job_aggregator.Pipeline.Runner.Refilter.Clean.{Passes, retire_failing_jobs-twice}
use job_aggregator.Storage.{update}
use job_aggregator.Storage.Retire.{
  refilter_candidates, candidate_job, is_candidate, best_description, retire_jobs, set_deleted,
}
use job_aggregator.Examples.{new_row, stored_row, applied_row, table, posting}
use job_aggregator.Examples.Postings.{fractions, plain_text, no_patterns, no_fold, settings}
use job_aggregator.Examples.Runs.{idle_tables}
use job_aggregator.Examples.Sources.{finished_site}

abbrev pub env : Env (ℕ × ℕ)
env = record {
  float = fractions;
  text = plain_text;
  re = no_patterns;
  ascii_fold = no_fold;
  raw_text = λ job. "";
  now = λ n. 4_000_000_000_000_000;
  julianday = λ t. t;
  by_score = λ rows. rows;
  by_recency = λ rows. rows;
  by_last_check = λ rows. rows;
  site = finished_site;
}

abbrev world : World
world = record { rows = table; runs = idle_tables; ticks = 0 }

-- One board shows the applied posting again, at another link.
abbrev board : SourceResult
board = record {
  source = "lever";
  succeeded = true;
  jobs = posting "a" "lever:acme" "https://acme.dev/moved" ∷ [];
  n_fetched = 1;
  duration_ms = 400;
  error = none;
  sub_results = [];
  exhaustive = true;
}

abbrev fetch : ℕ → Result (List SourceResult) × ℕ
fetch ticks = (ok (board ∷ []), ticks)

abbrev pub no_text : Error → String
no_text e = ""

find-applied_in_world : find "a" world.rows ≡ some applied_row
unfolding find
find-applied_in_world = refl

run_cycle-KeepsUserColumns_example :
    (r : Row) × (find "a"
        (run_cycle env settings no_text fetch (ok (true ∷ [])) "manual" world).0.rows
      ≡ some r)
    × KeepsUserColumns applied_row r
run_cycle-KeepsUserColumns_example =
    run_cycle-KeepsUserColumns env settings no_text fetch (ok (true ∷ [])) "manual" world "a"
      applied_row find-applied_in_world

pub idle_tables-IsFree : IsFree idle_tables
unfolding current_run latest
idle_tables-IsFree = (refl, (omega arith, (omega arith, tt)))

run_cycle-IsFree_example :
    IsFree (run_cycle env settings no_text fetch (ok (true ∷ [])) "manual" world).0.runs
run_cycle-IsFree_example =
    run_cycle-IsFree env settings no_text fetch (ok (true ∷ [])) "manual" world idle_tables-IsFree

-- A new posting whose title is excluded.
abbrev senior_row : Row
senior_row =
    stored_row (record (posting "s" "adzuna" "https://jobs.dev/s") { title = "Senior Engineer" })
      JobStatus.new false

abbrev retired_table : List Row × ℕ
retired_table = (new_row ∷ record senior_row { status = JobStatus.deleted } ∷ [], 1)

refilter_table : retire_failing_jobs env settings (new_row ∷ senior_row ∷ []) ≡ some retired_table
unfolding retire_failing_jobs failing still_passes fill_pay refilter_candidates candidate_job
    is_candidate best_description retire_jobs set_deleted update salary_bucket floor_of
    representative_inr detect_internship score_and_filter verdict salary_gate kept hard_drop_reason
    excluded_by lacks_level lacks_role lacks_skill too_senior is_unpaid is_too_long location_ok
    reading anchored matches search_word stands required_years place_words is_alnum norm_location
    tokens split chunk join lower says_unpaid states_unpaid stated_amounts flatten posting_text
    canonical_place is_one_of
refilter_table = refl

retire_failing_jobs-twice_example :
    All (Passes env settings) (refilter_candidates retired_table.0)
    × (retire_failing_jobs env settings retired_table.0 ≡ some (retired_table.0, 0))
retire_failing_jobs-twice_example =
    retire_failing_jobs-twice env settings (new_row ∷ senior_row ∷ []) retired_table refilter_table
