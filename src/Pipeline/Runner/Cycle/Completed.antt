-- ===== src/Pipeline/Runner/Cycle/Completed.antt =====
-- A cycle that is not answered with "failed" leaves its run as the last completed one.
use job_aggregator.Prelude.{
  true, ◌⊎◌, ℕ, ◌+◌, String, Bool, none, some, List, ◌≡◌, refl, ap, true, ◌∙◌, inl, inr,
}
use job_aggregator.Config.{Config}
use job_aggregator.Errors.{Error, Result, ok, raise, Result-cases}
use job_aggregator.Pipeline.Runner.{Env}
use job_aggregator.Pipeline.Runner.Outcomes.{no_outcomes, record_source_runs-runs, run_status}
use job_aggregator.Pipeline.Runner.Cycle.{
  World, Cycle, Step, RunSummary, steps, fail_run, close_run, after_steps, after_fetch, after_start,
  run_body, run_cycle, begun, counts_of,
}
use job_aggregator.Pipeline.Runner.Cycle.Lock.{IsFree, run_cycle-idle, run_status-cases, steps-runs}
use job_aggregator.Sources.Base.{SourceResult}
use job_aggregator.Storage.Runs.{
  Run, Runs, RunStatus, finish_run, finished, start_run, run_status_of, last_completed_run,
  is_completed,
}
use job_aggregator.Storage.Runs.Newest.{IsNewest, finish_run-completed, start_run-IsNewest}

-- `r` is the last completed run, finished at the last clock reading.
pub record IsCompleted (now : ℕ → ℕ) (id : ℕ) (w : World) : Type 0 where
  pub run : Run
  pub tick : ℕ
  pub last : last_completed_run w.runs ≡ some run
  pub same : run.run_id ≡ id
  pub at : run.finished_at ≡ some (now tick)
  pub read : w.ticks ≡ tick + 1

-- What a result says of the run `id`.
abbrev pub Completes : (ℕ → ℕ) → ℕ → World × Result RunSummary → Type 0
Completes now id (w, raise e) = Unit
Completes now id (w, ok s) = (s.run_id ≡ id) × ((s.status ≡ "failed") ⊎ IsCompleted now id w)

IsNewest-runs : (id : ℕ) (t t' : Runs) → t'.runs ≡ t.runs → IsNewest id t → IsNewest id t'
IsNewest-runs id t t' same h = record {
  older = h.older;
  newest = h.newest;
  last = h.last;
  split = same ∙ h.split;
  ids = h.ids;
  above = h.above;
  same = h.same;
}

module _ {F : Type 0} (env : Env F) (cfg : Config F) where
  fail_run-Completes :
      (error_text : Error → String) (id : ℕ) (c : Cycle) (e : Error)
      → Completes env.now id (fail_run env cfg error_text id c e)
  unfolding fail_run
  fail_run-Completes error_text id c e =
      elim (Result-cases
        (finish_run c.runs id "failed" (counts_of c) (env.now c.ticks) (some (error_text e)))) [
          | inl (t, done) ↦ rw (done, fail_run) tt
          | inr (e', failed) ↦ rw (failed, fail_run) tt
        ]

  close_run-word :
      (error_text : Error → String) (scopes : List Bool) (id : ℕ) (c : Cycle) (status : RunStatus)
      → run_status_of (run_status c.n_ok c.n_err) ≡ some status
      → ((r : Run) → is_completed (finished status (counts_of c) (env.now c.ticks) none r) ≡ true)
      → IsNewest id c.runs
      → Completes env.now id (close_run env cfg error_text (ok scopes) id c)
  unfolding close_run
  close_run-word error_text scopes id c status known completed h =
      let (t', r, done, last, same, at) =
        finish_run-completed c.runs id (run_status c.n_ok c.n_err) status (counts_of c)
          (env.now c.ticks) none known completed h in
      rw (done, close_run)
        (
          refl,
          inr (record { run = r; tick = c.ticks; last = last; same = same; at = at; read = refl }),
        )

  close_run-failed :
      (error_text : Error → String) (scopes : List Bool) (id : ℕ) (c : Cycle)
      → run_status c.n_ok c.n_err ≡ "failed"
      → Completes env.now id (close_run env cfg error_text (ok scopes) id c)
  unfolding close_run
  close_run-failed error_text scopes id c same =
      elim (Result-cases
        (finish_run c.runs id (run_status c.n_ok c.n_err) (counts_of c) (env.now c.ticks) none)) [
          | inl (t, done) ↦ rw (done, close_run) (refl, inl same)
          | inr (e, failed) ↦ rw (failed, close_run) (fail_run-Completes error_text id c e)
        ]

  close_run-Completes :
      (error_text : Error → String) (scopes : Result (List Bool)) (id : ℕ) (c : Cycle)
      → IsNewest id c.runs
      → Completes env.now id (close_run env cfg error_text scopes id c)
  unfolding close_run
  close_run-Completes error_text (raise e) id c h = fail_run-Completes error_text id c e
  close_run-Completes error_text (ok scopes) id c h = elim (run_status-cases c.n_ok c.n_err) [
    | inl e ↦
        close_run-word error_text scopes id c RunStatus.success
          (ap run_status_of e ∙ unfold run_status_of in refl) (λ r. unfold finished in refl) h
    | inr (inl e) ↦ close_run-failed error_text scopes id c e
    | inr (inr e) ↦
        close_run-word error_text scopes id c RunStatus.partial
          (ap run_status_of e ∙ unfold run_status_of in refl) (λ r. unfold finished in refl) h
  ]

  after_steps-Completes :
      (error_text : Error → String) (scopes : Result (List Bool)) (id : ℕ) (s : Step)
      → IsNewest id s.0.runs
      → Completes env.now id (after_steps env cfg error_text scopes id s)
  unfolding after_steps
  after_steps-Completes error_text scopes id (c, some e) h = fail_run-Completes error_text id c e
  after_steps-Completes error_text scopes id (c, none) h =
      close_run-Completes error_text scopes id c h

  after_fetch-Completes :
      (error_text : Error → String) (scopes : Result (List Bool)) (id : ℕ) (c : Cycle)
      (fetched : Result (List SourceResult))
      → IsNewest id c.runs
      → Completes env.now id (after_fetch env cfg error_text scopes id c fetched)
  unfolding after_fetch
  after_fetch-Completes error_text scopes id c (raise e) h = fail_run-Completes error_text id c e
  after_fetch-Completes error_text scopes id c (ok results) h =
      let runs : (steps env cfg id results c).0.runs.runs ≡ c.runs.runs =
        ap (λ (t : Runs). t.runs) (steps-runs env cfg id results c)
        ∙ (record_source_runs-runs id results (no_outcomes c.runs)).0 in
      after_steps-Completes error_text scopes id (steps env cfg id results c)
        (IsNewest-runs id c.runs (steps env cfg id results c).0.runs runs h)

  module _ (error_text : Error → String) (fetch : ℕ → Result (List SourceResult) × ℕ)
      (scopes : Result (List Bool)) (trigger : String) (w : World) where
    after_start-Completes :
        (started : Result (Runs × ℕ))
        → start_run w.runs trigger (env.now w.ticks) ≡ started
        → IsFree w.runs
        → (id : ℕ) × Completes env.now id (after_start env cfg error_text fetch scopes w started)
    unfolding after_start run_body
    after_start-Completes (raise e) same free = (0, tt)
    after_start-Completes (ok (runs', id)) same free = (
      id,
      after_fetch-Completes error_text scopes id
          (begun env cfg (record w { runs = runs'; ticks = (fetch (w.ticks + 1)).1 }))
          (fetch (w.ticks + 1)).0
          (start_run-IsNewest w.runs trigger (env.now w.ticks) runs' id free.1 same),
    )

    -- From free tables, a cycle that returns a summary whose status is not "failed" leaves its run
    -- as the last completed one, finished at the last reading of the clock.
    pub run_cycle-Completes :
        IsFree w.runs
        → (id : ℕ) × Completes env.now id (run_cycle env cfg error_text fetch scopes trigger w)
    run_cycle-Completes free =
        rw (run_cycle-idle env cfg error_text fetch scopes trigger w free.0)
          (after_start-Completes _ refl free)
