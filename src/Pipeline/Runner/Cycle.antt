-- ===== src/Pipeline/Runner/Cycle.antt =====
-- run_cycle of pipeline/runner.py with _sweep_closures and _notify. An error of SQLite is not
-- modelled; a notifier's own failure is ignored by the code and changes nothing.
pub mod Lock
pub mod Completed
pub mod Keeps
pub mod Survival
pub mod Rows
use job_aggregator.Prelude.{
  ℕ, ◌+◌, String, Bool, Option, none, some, List, [], ◌∷◌, map, is_some, if◌then◌else◌,
}
use job_aggregator.Clock.{minus_days}
use job_aggregator.Config.{Config}
use job_aggregator.Errors.{Error, overflow_error, run_in_progress, Result, ok, raise, ◌>>=◌}
use job_aggregator.Models.{Job}
use job_aggregator.Pipeline.Runner.{Env}
use job_aggregator.Pipeline.Runner.Ingest.{filter_and_upsert}
use job_aggregator.Pipeline.Runner.Outcomes.{
  Tally, no_outcomes, record_source_runs, windowed_names, run_status,
}
use job_aggregator.Pipeline.Runner.Refilter.{retire_failing_jobs}
use job_aggregator.Pipeline.Stale.{expire_stale}
use job_aggregator.Sources.Base.{SourceResult}
use job_aggregator.Sources.Closure.{sweep}
use job_aggregator.Storage.{Row}
use job_aggregator.Storage.Retire.{jobs_new_in_run, recent_active_jobs}
use job_aggregator.Storage.Runs.{Runs, Counts, current_run, start_run, finish_run}

-- The database and the clock readings so far, which outlive the call.
pub record World : Type 0 where
  pub rows : List Row
  pub runs : Runs
  pub ticks : ℕ

-- The variables of the function.
pub record Cycle : Type 0 where
  pub world : World
  pub open world use *
  pub succeeded : List String
  pub n_ok : ℕ
  pub n_err : ℕ
  pub n_new : ℕ
  pub n_updated : ℕ
  pub n_filtered : ℕ
  pub n_expired : ℕ
  pub errors : List (String × String)

-- What the function returns, and what it handed to each notifier.
pub record RunSummary : Type 0 where
  pub run_id : ℕ
  pub status : String
  pub counts : Counts
  pub n_filtered_out : ℕ
  pub source_errors : List (String × String)
  pub payloads : List (List Job)

abbrev pub counts_of : Cycle → Counts
counts_of c = record {
  n_sources_ok = c.n_ok;
  n_sources_err = c.n_err;
  n_new = c.n_new;
  n_updated = c.n_updated;
  n_expired = c.n_expired;
}

-- A step on the variables, and the exception that ends the `try` block there.
abbrev pub Step : Type 0
Step = Cycle × Option Error

abbrev pub and_then : Step → (Cycle → Step) → Step
and_then (c, some e) next = (c, some e)
and_then (c, none) next = next c

module _ {F : Type 0} (env : Env F) (cfg : Config F) where
  unfoldable pub record_step : ℕ → List SourceResult → Cycle → Step
  record_step run_id results c =
      let t = record_source_runs run_id (no_outcomes c.runs) results in
      (
        record c {
          world = record c.world { runs = t.runs };
          succeeded = t.succeeded;
          n_ok = t.n_ok;
          n_err = t.n_err;
          errors = t.errors;
        },
        none,
      )

  -- The three counts are assigned only when the call returns.
  unfoldable pub ingest_step : ℕ → List SourceResult → Cycle → Step
  ingest_step run_id results c =
      let (p, failure) =
        filter_and_upsert env cfg run_id
          (record { rows = c.rows; ticks = c.ticks; n_new = 0; n_updated = 0; n_filtered = 0 })
          results in
      let world' = record c.world { rows = p.rows; ticks = p.ticks } in
      elim failure [
        | some e ↦ (record c { world = world' }, some e)
        | none ↦ (
          record c {
            world = world';
            n_new = p.n_new;
            n_updated = p.n_updated;
            n_filtered = p.n_filtered;
          },
          none,
        )
      ]

  unfoldable pub refilter_step : Cycle → Step
  refilter_step c = elim (retire_failing_jobs env cfg c.rows) [
    | none ↦ (c, some overflow_error)
    | some out ↦ (record c { world = record c.world { rows = out.0 } }, none)
  ]

  -- The second cutoff reads the clock only when the first one did not raise.
  unfoldable pub expire_step : ℕ → List SourceResult → Cycle → Step
  expire_step run_id results c =
      let read = if is_some (minus_days (env.now c.ticks) cfg.schedule.grace_days) then 2 else 1 in
      let later = record c.world { ticks = c.ticks + read } in
      elim (expire_stale env.julianday c.rows run_id c.succeeded cfg.schedule.grace_days
        cfg.schedule.windowed_retire_days (env.now c.ticks) (env.now (c.ticks + 1))
        (windowed_names results)) [
          | none ↦ (record c { world = later }, some overflow_error)
          | some out ↦ (record c { world = record later { rows = out.0 }; n_expired = out.1 }, none)
        ]

  -- _sweep_closures: an exception of the sweep costs the sweep only.
  unfoldable pub sweep_step : Cycle → Step
  sweep_step c =
      elim (sweep env.site env.now cfg.schedule.closure_checks_per_run env.by_last_check c.rows
        c.ticks) [
          | none ↦ (record c { world = record c.world { ticks = c.ticks + 1 } }, none)
          | some s ↦ (record c { world = record c.world { rows = s.rows; ticks = s.ticks } }, none)
        ]

  -- Everything between start_run and the notifications.
  unfoldable pub steps : ℕ → List SourceResult → Cycle → Step
  unfolding record_step ingest_step refilter_step expire_step sweep_step
  steps run_id results c =
      and_then
        (and_then
          (and_then (and_then (record_step run_id results c) (ingest_step run_id results))
            refilter_step)
          (expire_step run_id results))
        sweep_step

  -- The payload of a notifier whose scope is the recent jobs, or the new ones of this run.
  unfoldable pub payload : ℕ → List Row → Bool → List Job
  payload run_id rows recent =
      if recent
      then recent_active_jobs env.by_recency rows cfg.rss.max_items
      else jobs_new_in_run env.by_score rows run_id

  -- The `except` block. An error of finish_run is logged there, and `e` is raised again.
  unfoldable pub fail_run : (Error → String) → ℕ → Cycle → Error → World × Result RunSummary
  fail_run error_text run_id c e =
      elim (finish_run c.runs run_id "failed" (counts_of c) (env.now c.ticks)
        (some (error_text e))) [
          | raise e' ↦ (c.world, raise e)
          | ok runs' ↦ (record c.world { runs = runs'; ticks = c.ticks + 1 }, raise e)
        ]

  -- The end of the `try` block. `scopes` are the scopes of the notifiers, once they are built.
  unfoldable pub close_run :
      (Error → String) → Result (List Bool) → ℕ → Cycle → World × Result RunSummary
  unfolding payload fail_run
  close_run error_text (raise e) run_id c = fail_run error_text run_id c e
  close_run error_text (ok scopes) run_id c =
      let status = run_status c.n_ok c.n_err in
      elim (finish_run c.runs run_id status (counts_of c) (env.now c.ticks) none) [
        | raise e ↦ fail_run error_text run_id c e
        | ok runs' ↦ (
          record c.world { runs = runs'; ticks = c.ticks + 1 },
          ok (record {
            run_id = run_id;
            status = status;
            counts = counts_of c;
            n_filtered_out = c.n_filtered;
            source_errors = c.errors;
            payloads = map (payload run_id c.rows) scopes;
          }),
        )
      ]

  abbrev pub begun : World → Cycle
  begun w = record {
    world = w;
    succeeded = [];
    n_ok = 0;
    n_err = 0;
    n_new = 0;
    n_updated = 0;
    n_filtered = 0;
    n_expired = 0;
    errors = [];
  }

  -- The rest of the run, from where the steps ended.
  unfoldable pub after_steps :
      (Error → String) → Result (List Bool) → ℕ → Step → World × Result RunSummary
  unfolding close_run fail_run
  after_steps error_text scopes run_id (c, some e) = fail_run error_text run_id c e
  after_steps error_text scopes run_id (c, none) = close_run error_text scopes run_id c

  unfoldable pub after_fetch :
      (Error → String)
      → Result (List Bool)
      → ℕ
      → Cycle
      → Result (List SourceResult)
      → World × Result RunSummary
  unfolding after_steps steps fail_run
  after_fetch error_text scopes run_id c (raise e) = fail_run error_text run_id c e
  after_fetch error_text scopes run_id c (ok results) =
      after_steps error_text scopes run_id (steps run_id results c)

  -- The `try` block and its `except`. `fetch` builds and runs the sources, reading the clock.
  unfoldable pub run_body :
      (Error → String)
      → (ℕ → Result (List SourceResult) × ℕ)
      → Result (List Bool)
      → ℕ
      → World
      → World × Result RunSummary
  unfolding after_fetch
  run_body error_text fetch scopes run_id w =
      after_fetch error_text scopes run_id (begun (record w { ticks = (fetch w.ticks).1 }))
        (fetch w.ticks).0

  unfoldable pub after_start :
      (Error → String)
      → (ℕ → Result (List SourceResult) × ℕ)
      → Result (List Bool)
      → World
      → Result (Runs × ℕ)
      → World × Result RunSummary
  unfolding run_body
  after_start error_text fetch scopes w (raise e) = (w, raise e)
  after_start error_text fetch scopes w (ok (runs', run_id)) =
      run_body error_text fetch scopes run_id (record w { runs = runs'; ticks = w.ticks + 1 })

  unfoldable pub run_cycle :
      (Error → String)
      → (ℕ → Result (List SourceResult) × ℕ)
      → Result (List Bool)
      → String
      → World
      → World × Result RunSummary
  unfolding after_start
  run_cycle error_text fetch scopes trigger w = elim (current_run w.runs) [
    | some r ↦ (w, raise run_in_progress)
    | none ↦ after_start error_text fetch scopes w (start_run w.runs trigger (env.now w.ticks))
  ]
