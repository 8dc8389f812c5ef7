-- ===== src/Scheduler/Busy.antt =====
-- When a run is refused, and what is left behind.
use job_aggregator.Prelude.{
  String, arith, ap, sym, ◌∙◌, true, false, ◌⊎◌, inl, inr, ◌≡◌, ◌≢◌, refl, Bool-cases, Option-cases,
}
use mathlib.Core.Path.{subst}
use job_aggregator.Config.{Config}
use job_aggregator.Errors.{Error, Result, ok, raise, other}
use job_aggregator.Pipeline.Runner.Cycle.{World, RunSummary}
use job_aggregator.Pipeline.Runner.Cycle.Lock.{IsFree, run_cycle-IsFree}
use job_aggregator.Storage.Runs.{current_run}
use job_aggregator.Storage.Runs.Lock.{
  IsIdle, HasIds, reconcile_orphan_runs-IsIdle, reconcile_orphan_runs-HasIds,
}
use job_aggregator.Scheduler.{
  busy, failed, catch_up_on_startup, start_loaded, Process, Outside, answer, run_loaded,
  run_holding, run_locked, start,
}

module _ {F : Type 0} (out : Outside F) where
  answer-IsFree :
      (a : World × Result RunSummary)
      → IsFree a.0.runs
      → ((answer out a).0 ≢ busy) × IsFree (answer out a).1.runs × ((answer out a).1.locked ≡ false)
  unfolding answer
  answer-IsFree (w, ok summary) h = ((λ e. cc), h, refl)
  answer-IsFree (w, raise e) h = ((λ e. cc), h, refl)

  run_loaded-IsFree :
      (loaded : Result (Config F)) (trigger : String) (w : World)
      → IsFree w.runs
      → ((run_loaded out loaded trigger w).0 ≢ busy)
        × IsFree (run_loaded out loaded trigger w).1.runs
        × ((run_loaded out loaded trigger w).1.locked ≡ false)
  unfolding run_loaded
  run_loaded-IsFree (raise e) trigger w free = ((λ same. cc), free, refl)
  run_loaded-IsFree (ok cfg) trigger w free =
      answer-IsFree _ (
        run_cycle-IsFree out.env cfg out.error_text (out.fetch cfg) (out.scopes cfg) trigger w free)

  run_holding-IsFree :
      (trigger : String) (w : World)
      → IsFree w.runs
      → ((run_holding out trigger w).0 ≢ busy)
        × IsFree (run_holding out trigger w).1.runs
        × ((run_holding out trigger w).1.locked ≡ false)
  unfolding run_holding
  run_holding-IsFree trigger w free = elim (Bool-cases out.connects) [
    | inl on ↦ rw (on, free.0, run_holding) (run_loaded-IsFree out.loaded trigger w free)
    | inr off ↦ rw (off, run_holding) ((λ same. cc), free, refl)
  ]

  -- Where no run_id is above the last one given out: a run is refused with "busy" when another thread
  -- holds the lock or, with the connection open, the database has a running run; then the process is as
  -- it was. With the lock free and no connection the answer is "failed" and the process is as it was,
  -- also when a run is running. With the lock free and no running run the call is not refused, and
  -- whether it loaded no configuration or ran a cycle that raised, afterwards the lock is free and no
  -- run is running.
  pub run_locked-busy :
      (trigger : String) (p : Process)
      → HasIds p.runs.last_run_id p.runs.runs
      → ((p.locked ≡ true) ⊎ ((out.connects ≡ true) × ¬ IsIdle p.runs)
          → run_locked out trigger p ≡ (busy, p))
        × ((p.locked ≡ false) × (out.connects ≡ false) → run_locked out trigger p ≡ (failed, p))
        × ((p.locked ≡ false) × IsIdle p.runs
            → ((run_locked out trigger p).0 ≢ busy)
              × IsFree (run_locked out trigger p).1.runs
              × ((run_locked out trigger p).1.locked ≡ false))
  unfolding run_locked run_holding
  run_locked-busy trigger p ids = (
    (λ why. elim (Bool-cases p.locked) [
      | inl held ↦ rw (held, run_locked) refl
      | inr free ↦ elim why [
        | inl held ↦ absurd (cc)
        | inr (on, active) ↦ elim (Option-cases (current_run p.runs)) [
          | inl idle ↦ absurd (active idle)
          | inr (r, running) ↦ rw (free, on, running, run_locked, run_holding) refl
        ]
      ]
    ]),
    (λ h. rw (h.0, h.1, run_locked, run_holding) refl),
    (λ h. rw (h.0, run_locked) (run_holding-IsFree trigger p.world (h.1, ids))),
  )

  catch_up_on_startup-kept :
      (again : Result (Config F)) (p : Process)
      → ((catch_up_on_startup out again p).0.runs ≡ p.runs)
        × ((catch_up_on_startup out again p).0.locked ≡ p.locked)
  unfolding catch_up_on_startup
  catch_up_on_startup-kept (raise e) p = (refl, refl)
  catch_up_on_startup-kept (ok cfg) p = (refl, refl)

  start_loaded-IsFree :
      (loaded again : Result (Config F)) (p : Process)
      → HasIds p.runs.last_run_id p.runs.runs
      → p.locked ≡ false
      → ((cfg : Config F)
          → loaded ≡ ok cfg
          → IsFree (start_loaded out loaded again p).0.runs
            × ((start_loaded out loaded again p).0.locked ≡ false))
        × ((e : Error) → loaded ≡ raise e → start_loaded out loaded again p ≡ (p, raise e))
  unfolding start_loaded
  start_loaded-IsFree (raise e) again p ids free =
      ((λ cfg k. cc), λ e' k. ap (λ (x : Error). (p, raise x)) (ground (arith, k)))
  start_loaded-IsFree (ok cfg) again p ids free =
      let now = out.env.now p.ticks in
      let kept = catch_up_on_startup-kept again _ in
      (
        (λ cfg' k. (
          subst IsFree (sym kept.0) (
            (reconcile_orphan_runs-IsIdle p.runs now now).0,
            reconcile_orphan_runs-HasIds p.runs now ids,
          ),
          kept.1 ∙ free,
        )),
        λ e' k. cc,
      )

  -- From a process whose lock is free and whose run_ids are at most the last one given out, however
  -- many runs a crash left running: when the connection opens and the configuration loads, start()
  -- leaves tables in which no run is running, so that a catch-up that is then called is not refused
  -- as busy, also when the catch-up check of start() itself raises. Without a connection, or with a
  -- configuration that fails to load, start() raises and leaves the process as it was.
  pub start-IsFree :
      (again : Result (Config F)) (p : Process)
      → HasIds p.runs.last_run_id p.runs.runs
      → p.locked ≡ false
      → ((cfg : Config F)
          → out.connects ≡ true
          → out.loaded ≡ ok cfg
          → IsFree (start out again p).0.runs
            × ((run_locked out "startup_catchup" (start out again p).0).0 ≢ busy))
        × ((e : Error)
            → (out.connects ≡ false) ⊎ (out.loaded ≡ raise e)
            → (e' : Error) × (start out again p ≡ (p, raise e')))
  unfolding start
  start-IsFree again p ids unlocked =
      let (loads, fails) = start_loaded-IsFree out.loaded again p ids unlocked in
      (
        (λ cfg on k.
            let same : start out again p ≡ start_loaded out out.loaded again p =
              rw (on, start) refl in
            let (free, released) = loads cfg k in
            let p' = (start_loaded out out.loaded again p).0 in
            rw same (free, ((run_locked-busy "startup_catchup" p' free.1).2 (released, free.0)).0)),
        λ e why. elim (Bool-cases out.connects) [
          | inl on ↦ elim why [ inl off ↦ absurd (cc) | inr k ↦ (e, rw (on, start) (fails e k)) ]
          | inr off ↦ (other "connect", rw (off, start) refl)
        ],
      )
