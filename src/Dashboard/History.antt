-- ===== src/Dashboard/History.antt =====
-- dashboard/routes_runs.py and dashboard/deps.py: the page of runs, the answer to "run now", what the
-- poll of the current run reads, and the HTTP status of an error.
pub mod Current
use job_aggregator.Prelude.{
  ℕ, String, Bool, true, Option, none, some, List, [], ◌∷◌, ◌==◌, eqb, filter, take,
}
use job_aggregator.Errors.{Result, ok, raise, run_in_progress, other}
use job_aggregator.Storage.Runs.{Run, RunStatus, Runs, SourceRun, is_running, latest}
use job_aggregator.Scheduler.{Ran, busy, failed, ran}

abbrev pub runs_history_limit : ℕ
runs_history_limit = 50

-- `order` is ORDER BY started_at DESC.
unfoldable pub list_runs : (List Run → List Run) → Runs → List Run
list_runs order t = take runs_history_limit (order t.runs)

-- `order` is ORDER BY source.
unfoldable pub source_runs_of : (List SourceRun → List SourceRun) → Runs → ℕ → List SourceRun
source_runs_of order t run_id = order (filter (λ s. eqb s.run_id run_id) t.source_runs)

abbrev pub or_latest : List Run → Option Run → Option Run
or_latest runs none = latest (λ r. true) runs
or_latest runs (some r) = some r

-- The running run if there is one, else the newest.
unfoldable pub shown_run : Runs → Option Run
shown_run t = or_latest t.runs (latest is_running t.runs)

-- The run_id and the status word, for the answer of trigger_now.
unfoldable pub run_now : Ran → Result (ℕ × String)
run_now busy = raise run_in_progress
run_now failed = raise (other "the run failed — see the runs page / server log")
run_now (ran run_id) = ok (run_id, "running")

-- What the poll answers, `none` for "idle".
pub record CurrentRun : Type 0 where
  pub run_id : ℕ
  pub status : RunStatus
  pub trigger : String
  pub n_new : ℕ
  pub n_updated : ℕ
  pub n_expired : ℕ
  pub sources : List SourceRun

unfoldable pub current_run_status : (List SourceRun → List SourceRun) → Runs → Option CurrentRun
unfolding shown_run source_runs_of
current_run_status order t = elim (shown_run t) [
  | none ↦ none
  | some r ↦ some (record {
    run_id = r.run_id;
    status = r.status;
    trigger = r.trigger;
    n_new = r.n_new;
    n_updated = r.n_updated;
    n_expired = r.n_expired;
    sources = source_runs_of order t r.run_id;
  })
]

pub data ErrorCode : Type 0 where
  config_invalid not_found run_conflict storage_error notify_failed : ErrorCode
  source_fetch_failed source_parse_failed agent_failed render_failed internal : ErrorCode

-- _STATUS_BY_CODE
unfoldable pub status_for : ErrorCode → ℕ
status_for config_invalid = 422
status_for not_found = 404
status_for run_conflict = 409
status_for storage_error = 500
status_for notify_failed = 500
status_for source_fetch_failed = 502
status_for source_parse_failed = 502
status_for agent_failed = 500
status_for render_failed = 500
status_for internal = 500
