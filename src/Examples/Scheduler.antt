-- ===== src/Examples/Scheduler.antt =====
-- The laws of the scheduler at the example tables.
use job_aggregator.Pipeline.Runner.Ingest.{filter_and_upsert}
use job_aggregator.Pipeline.Runner.Refilter.{retire_failing_jobs, failing}
use job_aggregator.Pipeline.Stale.{expire_stale, expire_sources}
use job_aggregator.Scheduler.CatchUp.{run_locked-caught_up}
use job_aggregator.Clock.{day, minus_days}
use job_aggregator.Config.{Config}
use job_aggregator.Storage.Runs.{
  Run, RunStatus, current_run, latest, start_run, finish_run, finished, update_runs, run_status_of,
}
use job_aggregator.Pipeline.Runner.Cycle.{
  World, RunSummary, run_cycle, after_start, run_body, after_fetch, after_steps, steps, record_step,
  ingest_step, refilter_step, expire_step, sweep_step, close_run, fail_run, payload,
}
use job_aggregator.Pipeline.Runner.Outcomes.{run_status, record_source_runs, windowed_names}
use job_aggregator.Sources.Closure.{sweep, sweep_rows}
use job_aggregator.Storage.Retire.{jobs_new_in_run, refilter_candidates, retire_jobs}
use job_aggregator.Prelude.{
  ap, ◌+◌, some, none, contains, sorted, leb, ◌&&◌, ◌≢◌, ℕ, true, false, ◌⊎◌, [], ◌∷◌, ◌≡◌, refl,
}
use job_aggregator.Errors.{Error, ok, raise}
use job_aggregator.Pipeline.Runner.Cycle.Lock.{IsFree}
use job_aggregator.Storage.Runs.Lock.{IsIdle}
use job_aggregator.Scheduler.{
  answer, is_catch_up_due, ran, busy, failed, Process, Outside, run_locked, start,
}
use job_aggregator.Scheduler.Busy.{run_locked-busy, start-IsFree}
use job_aggregator.Examples.{table}
use job_aggregator.Examples.Cycle.{idle_tables-IsFree, env, no_text}
use job_aggregator.Examples.Postings.{settings}
use job_aggregator.Examples.Runs.{run_of, idle_tables, busy_tables, busy-HasIds}

-- No source is enabled, and one notifier takes the new jobs.
abbrev outside : Outside (ℕ × ℕ)
outside = record {
  env = env;
  error_text = no_text;
  connects = true;
  loaded = ok settings;
  fetch = λ cfg ticks. (ok [], ticks);
  scopes = λ cfg. ok (false ∷ []);
}

-- A process that starts after a crash, and one between two runs with no postings.
abbrev crashed : Process
crashed = record { world = record { rows = table; runs = busy_tables; ticks = 0 }; locked = false }

abbrev waiting : Process
waiting = record { world = record { rows = []; runs = idle_tables; ticks = 0 }; locked = false }

run_locked-busy_example :
    ((crashed.locked ≡ true) ⊎ ((outside.connects ≡ true) × ¬ IsIdle crashed.runs)
      → run_locked outside "manual" crashed ≡ (busy, crashed))
    × ((crashed.locked ≡ false) × (outside.connects ≡ false)
        → run_locked outside "manual" crashed ≡ (failed, crashed))
    × ((crashed.locked ≡ false) × IsIdle crashed.runs
        → ((run_locked outside "manual" crashed).0 ≢ busy)
          × IsFree (run_locked outside "manual" crashed).1.runs
          × ((run_locked outside "manual" crashed).1.locked ≡ false))
run_locked-busy_example = run_locked-busy outside "manual" crashed busy-HasIds

start-IsFree_example :
    ((cfg : Config (ℕ × ℕ))
      → outside.connects ≡ true
      → outside.loaded ≡ ok cfg
      → IsFree (start outside (ok settings) crashed).0.runs
        × ((run_locked outside "startup_catchup" (start outside (ok settings) crashed).0).0 ≢ busy))
    × ((e : Error)
        → (outside.connects ≡ false) ⊎ (outside.loaded ≡ raise e)
        → (e' : Error) × (start outside (ok settings) crashed ≡ (crashed, raise e')))
start-IsFree_example = start-IsFree outside (ok settings) crashed busy-HasIds refl

-- What that cycle leaves and returns: five readings of the clock, and no posting to notify of.
abbrev finished_run : Run
finished_run = record {
  run_id = 3;
  started_at = 4_000_000_000_000_000;
  finished_at = some 4_000_000_000_000_000;
  status = RunStatus.success;
  trigger = "manual";
  n_sources_ok = 0;
  n_sources_err = 0;
  n_new = 0;
  n_updated = 0;
  n_expired = 0;
  error = none;
}

abbrev after : World
after = record {
  rows = [];
  runs = record {
    last_run_id = 3;
    runs = run_of 1 RunStatus.success ∷ run_of 2 RunStatus.success ∷ finished_run ∷ [];
    source_runs = [];
  };
  ticks = 5;
}

abbrev summary : RunSummary
summary = record {
  run_id = 3;
  status = "success";
  counts = record { n_sources_ok = 0; n_sources_err = 0; n_new = 0; n_updated = 0; n_expired = 0 };
  n_filtered_out = 0;
  source_errors = [];
  payloads = [] ∷ [];
}

run_cycle-ended :
    run_cycle env settings no_text
      (outside.fetch settings)
      (outside.scopes settings)
      "manual"
      waiting.world
    ≡ (after, ok summary)
unfolding run_cycle after_start run_body after_fetch after_steps steps record_step ingest_step
    refilter_step expire_step sweep_step close_run fail_run payload current_run latest start_run
    finish_run finished update_runs run_status_of run_status record_source_runs contains
    filter_and_upsert retire_failing_jobs refilter_candidates expire_stale expire_sources minus_days
    sweep sorted jobs_new_in_run sweep_rows retire_jobs failing windowed_names
run_cycle-ended = refl

success_ne_failed : summary.status ≢ "failed"
success_ne_failed = λ same. cc

after_run : run_locked outside "manual" waiting ≡ (ran 3, record { world = after; locked = false })
unfolding run_locked current_run run_cycle
after_run = ap (answer outside) run_cycle-ended

run_locked-caught_up_example :
    (cfg : Config (ℕ × ℕ)) × (s : RunSummary) × (outside.loaded ≡ ok cfg)
    × (run_cycle env cfg no_text (outside.fetch cfg) (outside.scopes cfg) "manual" waiting.world
        ≡ (after, ok s))
    × (s.run_id ≡ 3)
    × (false ≡ false)
    × ((s.status ≡ "failed")
        ⊎ ((tick : ℕ) × (after.ticks ≡ tick + 1)
            × ((cfg' : Config (ℕ × ℕ)) (now : ℕ)
                → is_catch_up_due cfg' after.runs now
                  ≡ (cfg'.schedule.catch_up_on_startup && leb (env.now tick + day) now))))
run_locked-caught_up_example =
    run_locked-caught_up outside "manual" waiting 3 (record { world = after; locked = false })
      idle_tables-IsFree after_run
