-- ===== src/Storage/Runs.antt =====
-- storage/runs_repo.py: the runs and source_runs tables.
pub mod Latest
pub mod Lock
pub mod Newest
pub mod Sources
use job_aggregator.Prelude.{
  ℕ, zero, suc, ◌+◌, String, Bool, true, false, not, ◌&&◌, ◌||◌, Option, none, some, List, [], ◌∷◌,
  ◌++◌, ◌==◌, eqb, leb, ltb, count, map, coalesce, contains, if◌then◌else◌,
}
use job_aggregator.Models.Amount.{ℤ}
use job_aggregator.Errors.{Result, ok, raise, value_error}
use job_aggregator.Storage.Retire.{limited}

pub data RunStatus : Type 0 where
  running success partial failed : RunStatus

pub record Run : Type 0 where
  pub run_id : ℕ
  pub started_at : ℕ
  pub finished_at : Option ℕ
  pub status : RunStatus
  pub trigger : String
  pub n_sources_ok : ℕ
  pub n_sources_err : ℕ
  pub n_new : ℕ
  pub n_updated : ℕ
  pub n_expired : ℕ
  pub error : Option String

pub record SourceRun : Type 0 where
  pub run_id : ℕ
  pub source : String
  pub succeeded : Bool
  pub n_fetched : Option ℕ
  pub duration_ms : Option ℕ
  pub error : Option String

-- The two tables, and the last run_id that AUTOINCREMENT gave out.
pub record Runs : Type 0 where
  pub last_run_id : ℕ
  pub runs : List Run
  pub source_runs : List SourceRun

abbrev pub is_running : Run → Bool
is_running r = elim (r.status) [ running ↦ true | _ ↦ false ]

abbrev pub is_success : Run → Bool
is_success r = elim (r.status) [ success ↦ true | _ ↦ false ]

-- status IN ('success', 'partial')
abbrev pub is_completed : Run → Bool
is_completed r = elim (r.status) [ success ↦ true | partial ↦ true | _ ↦ false ]

abbrev pub valid_triggers : List String
valid_triggers = "schedule" ∷ "manual" ∷ "startup_catchup" ∷ []

-- _VALID_RUN_STATUSES: the status of a word, `none` for any other word.
unfoldable pub run_status_of : String → Option RunStatus
run_status_of word =
    if "running" == word
    then some running
    else if "success" == word
    then some success
    else if "partial" == word
    then some partial
    else if "failed" == word
    then some failed
    else none

unfoldable pub start_run : Runs → String → ℕ → Result (Runs × ℕ)
start_run t trigger now =
    let run_id = suc t.last_run_id in
    if contains valid_triggers trigger
    then ok (
      record t {
        last_run_id = run_id;
        runs =
            t.runs
            ++ record {
              run_id = run_id;
              started_at = now;
              finished_at = none;
              status = running;
              trigger = trigger;
              n_sources_ok = 0;
              n_sources_err = 0;
              n_new = 0;
              n_updated = 0;
              n_expired = 0;
              error = none;
            }
              ∷ [];
      },
      run_id,
    )
    else raise value_error

-- What finish_run writes beside the status.
pub record Counts : Type 0 where
  pub n_sources_ok : ℕ
  pub n_sources_err : ℕ
  pub n_new : ℕ
  pub n_updated : ℕ
  pub n_expired : ℕ

unfoldable pub finished : RunStatus → Counts → ℕ → Option String → Run → Run
finished status c now error r = record r {
  finished_at = some now;
  status = status;
  n_sources_ok = c.n_sources_ok;
  n_sources_err = c.n_sources_err;
  n_new = c.n_new;
  n_updated = c.n_updated;
  n_expired = c.n_expired;
  error = error;
}

unfoldable pub update_runs : (Run → Bool) → (Run → Run) → List Run → List Run
update_runs test change [] = []
update_runs test change (r ∷ runs) = (if test r then change r else r) ∷ update_runs test change runs

unfoldable pub finish_run : Runs → ℕ → String → Counts → ℕ → Option String → Result Runs
unfolding run_status_of finished update_runs
finish_run t run_id word c now error = elim (run_status_of word) [
  | none ↦ raise value_error
  | some status ↦ ok (record t {
    runs = update_runs (λ r. eqb r.run_id run_id) (finished status c now error) t.runs;
  })
]

-- INSERT .. ON CONFLICT(run_id, source) DO UPDATE
unfoldable pub upsert_source_run : SourceRun → List SourceRun → List SourceRun
upsert_source_run x [] = x ∷ []
upsert_source_run x (y ∷ rows) =
    if eqb y.run_id x.run_id && y.source == x.source then x ∷ rows else y ∷ upsert_source_run x rows

unfoldable pub record_source_run : Runs → SourceRun → Runs
unfolding upsert_source_run
record_source_run t x = record t { source_runs = upsert_source_run x t.source_runs }

-- The run that comes first under ORDER BY run_id DESC.
unfoldable pub prefer : Run → Option Run → Run
prefer r none = r
prefer r (some best) = if ltb best.run_id r.run_id then r else best

-- SELECT * FROM runs WHERE (test) ORDER BY run_id DESC LIMIT 1
unfoldable pub latest : (Run → Bool) → List Run → Option Run
unfolding prefer
latest test [] = none
latest test (r ∷ runs) =
    let best = latest test runs in if test r then some (prefer r best) else best

unfoldable pub current_run : Runs → Option Run
unfolding latest
current_run t = latest is_running t.runs

unfoldable pub last_successful_run : Runs → Option Run
unfolding latest
last_successful_run t = latest is_success t.runs

unfoldable pub last_completed_run : Runs → Option Run
unfolding latest
last_completed_run t = latest is_completed t.runs

-- ORDER BY run_id DESC
unfoldable pub insert_run : Run → List Run → List Run
insert_run r [] = r ∷ []
insert_run r (s ∷ runs) = if leb s.run_id r.run_id then r ∷ (s ∷ runs) else s ∷ insert_run r runs

unfoldable pub newest_first : List Run → List Run
unfolding insert_run
newest_first [] = []
newest_first (r ∷ runs) = insert_run r (newest_first runs)

unfoldable pub recent_runs : Runs → ℤ → List Run
unfolding newest_first
recent_runs t limit = limited limit (newest_first t.runs)

abbrev pub abandoned : String
abandoned = "abandoned: process restarted while a run was in progress"

unfoldable pub reaped : ℕ → Run → Run
reaped now r = record r {
  status = failed;
  finished_at = some now;
  error = some (coalesce r.error abandoned);
}

-- The runs that a crash left 'running' are failed; returns how many.
unfoldable pub reconcile_orphan_runs : Runs → ℕ → Runs × ℕ
unfolding reaped update_runs
reconcile_orphan_runs t now =
    (record t { runs = update_runs is_running (reaped now) t.runs }, count is_running t.runs)
