-- ===== src/Scheduler.antt =====
-- scheduler/scheduler.py: the run lock of the process, the catch-up decision, and the jobs that
-- start() hands to APScheduler, which calls them back.
pub mod Busy
pub mod CatchUp
use job_aggregator.Prelude.{
  ℕ, ◌+◌, String, Bool, true, false, Option, none, some, List, [], ◌∷◌, leb, coalesce,
  if◌then◌else◌,
}
use job_aggregator.Clock.{day}
use job_aggregator.Config.{Config}
use job_aggregator.Errors.{Error, Result, ok, raise, other}
use job_aggregator.Pipeline.Runner.{Env}
use job_aggregator.Pipeline.Runner.Cycle.{World, RunSummary, run_cycle}
use job_aggregator.Sources.Base.{SourceResult}
use job_aggregator.Storage.Runs.{Run, Runs, current_run, last_completed_run, reconcile_orphan_runs}

-- The answer of trigger_now: "busy", "failed", or a run_id.
pub data Ran : Type 0 where
  busy failed : Ran
  ran : ℕ → Ran

-- The database, and whether a thread holds the lock.
pub record Process : Type 0 where
  pub world : World
  pub open world use *
  pub locked : Bool

-- What the calls into other code give: whether the connection opens, the stored configuration, what
-- its sources deliver and the scopes of its notifiers.
pub record Outside (F : Type 0) : Type 0 where
  pub env : Env F
  pub error_text : Error → String
  pub connects : Bool
  pub loaded : Result (Config F)
  pub fetch : Config F → ℕ → Result (List SourceResult) × ℕ
  pub scopes : Config F → Result (List Bool)

-- finished_at or started_at
unfoldable pub run_finished_at : Option Run → Option ℕ
run_finished_at none = none
run_finished_at (some r) = some (coalesce r.finished_at r.started_at)

-- CATCH_UP_THRESHOLD is 24 hours.
unfoldable pub should_catch_up : Option ℕ → ℕ → Bool
should_catch_up none now = true
should_catch_up (some last) now = leb (last + day) now

unfoldable pub is_catch_up_due : {F : Type 0} → Config F → Runs → ℕ → Bool
unfolding run_finished_at should_catch_up
is_catch_up_due cfg t now =
    if cfg.schedule.catch_up_on_startup
    then should_catch_up (run_finished_at (last_completed_run t)) now
    else false

module _ {F : Type 0} (out : Outside F) where
  open out use {env, error_text, connects, loaded, fetch, scopes}

  -- The answer for what run_cycle returned or raised, behind the `finally` that releases the lock.
  unfoldable pub answer : World × Result RunSummary → Ran × Process
  answer (w, ok summary) = (ran summary.run_id, record { world = w; locked = false })
  answer (w, raise e) = (failed, record { world = w; locked = false })

  -- The rest of the `try` block, from the configuration that was loaded.
  unfoldable pub run_loaded : Result (Config F) → String → World → Ran × Process
  unfolding answer
  run_loaded (raise e) trigger w = (failed, record { world = w; locked = false })
  run_loaded (ok cfg) trigger w =
      answer (run_cycle env cfg error_text (fetch cfg) (scopes cfg) trigger w)

  -- The `try` block with the lock held.
  unfoldable pub run_holding : String → World → Ran × Process
  unfolding run_loaded
  run_holding trigger w =
      if connects
      then elim (current_run w.runs) [
        | some r ↦ (busy, record { world = w; locked = false })
        | none ↦ run_loaded loaded trigger w
      ]
      else (failed, record { world = w; locked = false })

  unfoldable pub run_locked : String → Process → Ran × Process
  unfolding run_holding
  run_locked trigger p = if p.locked then (busy, p) else run_holding trigger p.world

  unfoldable pub trigger_now : String → Process → Ran × Process
  unfolding run_locked
  trigger_now = run_locked

  -- The clock is read for the check only when catching up is enabled.
  abbrev pub checked : Config F → Process → Process
  checked cfg p = record p {
    world = record p.world {
      ticks = if cfg.schedule.catch_up_on_startup then p.ticks + 1 else p.ticks;
    };
  }

  -- catch_up_on_startup and _catch_up_if_due open a connection and load the configuration again:
  -- `again` is what that gives. The triggers of the runs that catch_up_on_startup submits.
  unfoldable pub catch_up_on_startup : Result (Config F) → Process → Process × Result (List String)
  unfolding is_catch_up_due
  catch_up_on_startup (raise e) p = (p, raise e)
  catch_up_on_startup (ok cfg) p = (
    checked cfg p,
    ok (if is_catch_up_due cfg p.runs (env.now p.ticks) then "startup_catchup" ∷ [] else []),
  )

  -- The periodic poll, which runs the cycle itself.
  unfoldable pub catch_up_if_due :
      Result (Config F) → String → Process → Process × Result (Option Ran)
  unfolding run_locked
  catch_up_if_due (raise e) trigger p = (p, raise e)
  catch_up_if_due (ok cfg) trigger p =
      if is_catch_up_due cfg p.runs (env.now p.ticks)
      then (
        (run_locked trigger (checked cfg p)).1,
        ok (some (run_locked trigger (checked cfg p)).0),
      )
      else (checked cfg p, ok none)

  -- The rest of start(), from the configuration that was loaded: the abandoned runs are failed, and a
  -- catch-up is submitted when one is due.
  unfoldable pub start_loaded :
      Result (Config F) → Result (Config F) → Process → Process × Result (List String)
  unfolding catch_up_on_startup
  start_loaded (raise e) again p = (p, raise e)
  start_loaded (ok cfg) again p =
      let runs' = (reconcile_orphan_runs p.runs (env.now p.ticks)).0 in
      catch_up_on_startup again
        (record p { world = record p.world { runs = runs'; ticks = p.ticks + 1 } })

  -- start(), which raises without a connection.
  unfoldable pub start : Result (Config F) → Process → Process × Result (List String)
  unfolding start_loaded
  start again p = if connects then start_loaded loaded again p else (p, raise (other "connect"))
