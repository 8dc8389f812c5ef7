-- ===== src/Examples/Runs.antt =====
-- The laws of the runs tables at an example history.
use job_aggregator.Prelude.{arith, ℕ, true, none, some, List, [], ◌∷◌, ◌≢◌, refl}
use job_aggregator.Storage.Runs.{Run, Runs, SourceRun, RunStatus, running, success, Counts}
use job_aggregator.Storage.Runs.Lock.{HasIds, IsOpen}

abbrev pub run_of : ℕ → RunStatus → Run
run_of id status = record {
  run_id = id;
  started_at = 1000;
  finished_at = some 2000;
  status = status;
  trigger = "manual";
  n_sources_ok = 1;
  n_sources_err = 0;
  n_new = 2;
  n_updated = 0;
  n_expired = 0;
  error = none;
}

abbrev history : List Run
history = run_of 1 success ∷ run_of 2 success ∷ []

abbrev pub idle_tables : Runs
idle_tables = record { last_run_id = 2; runs = history; source_runs = [] }

abbrev pub busy_tables : Runs
busy_tables = record {
  last_run_id = 3;
  runs = run_of 1 success ∷ run_of 3 running ∷ [];
  source_runs = [];
}

abbrev counts : Counts
counts = record { n_sources_ok = 1; n_sources_err = 0; n_new = 2; n_updated = 0; n_expired = 0 }

history-HasIds : HasIds 2 history
history-HasIds = (omega arith, (omega arith, tt))

success_ne_running : success ≢ running
success_ne_running = λ e. cc

busy-IsOpen : IsOpen 3 busy_tables.runs
busy-IsOpen = (λ on. cc, (λ on. refl, tt))

pub busy-HasIds : HasIds 3 busy_tables.runs
busy-HasIds = (omega arith, (omega arith, tt))

abbrev outcome : SourceRun
outcome = record {
  run_id = 3;
  source = "lever:acme";
  succeeded = true;
  n_fetched = some 12;
  duration_ms = some 340;
  error = none;
}
