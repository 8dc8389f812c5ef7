-- ===== src/Pipeline/Runner/Cycle/Lock.antt =====
-- The run lock over a whole cycle.
use job_aggregator.Prelude.{
  ◌⊎◌, ℕ, ◌+◌, String, Bool, Option, none, some, List, ◌≡◌, ◌≢◌, refl, ◌∙◌, arith, contains,
  Bool-cases, inl, inr,
}
use mathlib.Core.Path.{subst}
use job_aggregator.Config.{Config}
use job_aggregator.Errors.{value_error, Error, Result, ok, raise}
use job_aggregator.Pipeline.Runner.{Env}
use job_aggregator.Pipeline.Runner.Outcomes.{
  no_outcomes, record_source_runs, record_source_runs-runs, run_status,
}
use job_aggregator.Pipeline.Runner.Cycle.{
  World, Cycle, Step, and_then, record_step, ingest_step, refilter_step, expire_step, sweep_step,
  steps, fail_run, close_run, after_steps, after_fetch, after_start, run_body, run_cycle, begun,
  counts_of,
}
use job_aggregator.Sources.Base.{SourceResult}
use job_aggregator.Storage.Runs.{
  Runs, RunStatus, running, current_run, start_run, finish_run, run_status_of, valid_triggers,
  Counts,
}
use job_aggregator.Storage.Runs.Lock.{HasIds, IsIdle, IsOpen, start_run-current, finish_run-IsIdle}

-- The tables have no running run but `id`, and no run_id beyond the last one.
abbrev IsRun : ℕ → Runs → Type 0
IsRun id t = IsOpen id t.runs × HasIds t.last_run_id t.runs

-- The tables are free for the next cycle: no run is running and no run_id is above the last one.
abbrev pub IsFree : Runs → Type 0
IsFree t = IsIdle t × HasIds t.last_run_id t.runs

finish_run-IsFree :
    (t : Runs) (id : ℕ) (word : String) (status : RunStatus) (c : Counts) (now : ℕ)
    (error : Option String)
    → run_status_of word ≡ some status
    → status ≢ running
    → IsRun id t
    → (t' : Runs) × (finish_run t id word c now error ≡ ok t') × IsFree t'
finish_run-IsFree t id word status c now error known final h =
    let (t', done, idle, ids) =
      finish_run-IsIdle t id word status c now error known final h.0 h.1 in
    (t', done, (idle, ids))

pub run_status-cases :
    (n_ok n_err : ℕ)
    → (run_status n_ok n_err ≡ "success")
      ⊎ (run_status n_ok n_err ≡ "failed")
      ⊎ (run_status n_ok n_err ≡ "partial")
unfolding run_status
run_status-cases n_ok n_err = ground arith

-- run_status answers with a final status.
run_status-final :
    (n_ok n_err : ℕ)
    → (status : RunStatus) × (run_status_of (run_status n_ok n_err) ≡ some status)
      × (status ≢ running)
unfolding run_status_of
run_status-final n_ok n_err = elim (run_status-cases n_ok n_err) [
  | inl e ↦ (RunStatus.success, rw e, λ same. cc)
  | inr (inl e) ↦ (RunStatus.failed, rw e, λ same. cc)
  | inr (inr e) ↦ (RunStatus.partial, rw e, λ same. cc)
]

and_then-runs :
    (s : Step) (next : Cycle → Step)
    → ((c : Cycle) → (next c).0.runs ≡ c.runs)
    → (and_then s next).0.runs ≡ s.0.runs
and_then-runs (c, some e) next keeps = refl
and_then-runs (c, none) next keeps = keeps c

module _ {F : Type 0} (env : Env F) (cfg : Config F) where
  ingest_step-runs :
      (id : ℕ) (results : List SourceResult) (c : Cycle)
      → (ingest_step env cfg id results c).0.runs ≡ c.runs
  unfolding ingest_step
  ingest_step-runs id results c = ground arith

  refilter_step-runs : (c : Cycle) → (refilter_step env cfg c).0.runs ≡ c.runs
  unfolding refilter_step
  refilter_step-runs c = ground arith

  expire_step-runs :
      (id : ℕ) (results : List SourceResult) (c : Cycle)
      → (expire_step env cfg id results c).0.runs ≡ c.runs
  unfolding expire_step
  expire_step-runs id results c = ground arith

  sweep_step-runs : (c : Cycle) → (sweep_step env cfg c).0.runs ≡ c.runs
  unfolding sweep_step
  sweep_step-runs c = ground arith

  pub steps-runs :
      (id : ℕ) (results : List SourceResult) (c : Cycle)
      → (steps env cfg id results c).0.runs
        ≡ (record_source_runs id (no_outcomes c.runs) results).runs
  unfolding steps record_step
  steps-runs id results c =
      let s₁ = record_step env cfg id results c in
      let s₂ = and_then s₁ (ingest_step env cfg id results) in
      let s₃ = and_then s₂ (refilter_step env cfg) in
      let s₄ = and_then s₃ (expire_step env cfg id results) in
      and_then-runs s₄ (sweep_step env cfg) sweep_step-runs
      ∙ and_then-runs s₃ (expire_step env cfg id results) (expire_step-runs id results)
      ∙ and_then-runs s₂ (refilter_step env cfg) refilter_step-runs
      ∙ and_then-runs s₁ (ingest_step env cfg id results) (ingest_step-runs id results)

  steps-IsRun :
      (id : ℕ) (results : List SourceResult) (c : Cycle)
      → IsRun id c.runs
      → IsRun id (steps env cfg id results c).0.runs
  steps-IsRun id results c h =
      let (runs, last) = record_source_runs-runs id results (no_outcomes c.runs) in
      rw (steps-runs id results c, runs, last) h

  fail_run-IsFree :
      (error_text : Error → String) (id : ℕ) (c : Cycle) (e : Error)
      → IsRun id c.runs
      → IsFree (fail_run env cfg error_text id c e).0.runs
  unfolding fail_run current_run
  fail_run-IsFree error_text id c e h =
      let (t', done, free) =
        finish_run-IsFree c.runs id "failed" RunStatus.failed (counts_of c) (env.now c.ticks)
          (some (error_text e)) (unfold run_status_of in refl) (λ same. cc) h in
      rw (done, fail_run) free

  close_run-IsFree :
      (error_text : Error → String) (scopes : Result (List Bool)) (id : ℕ) (c : Cycle)
      → IsRun id c.runs
      → IsFree (close_run env cfg error_text scopes id c).0.runs
  unfolding close_run current_run
  close_run-IsFree error_text (raise e) id c h = fail_run-IsFree error_text id c e h
  close_run-IsFree error_text (ok scopes) id c h =
      let (status, known, final) = run_status-final c.n_ok c.n_err in
      let (t', done, free) =
        finish_run-IsFree c.runs id (run_status c.n_ok c.n_err) status (counts_of c)
          (env.now c.ticks) none known final h in
      rw (done, close_run) free

  after_steps-IsFree :
      (error_text : Error → String) (scopes : Result (List Bool)) (id : ℕ) (s : Step)
      → IsRun id s.0.runs
      → IsFree (after_steps env cfg error_text scopes id s).0.runs
  unfolding after_steps
  after_steps-IsFree error_text scopes id (c, some e) h = fail_run-IsFree error_text id c e h
  after_steps-IsFree error_text scopes id (c, none) h = close_run-IsFree error_text scopes id c h

  after_fetch-IsFree :
      (error_text : Error → String) (scopes : Result (List Bool)) (id : ℕ) (c : Cycle)
      (fetched : Result (List SourceResult))
      → IsRun id c.runs
      → IsFree (after_fetch env cfg error_text scopes id c fetched).0.runs
  unfolding after_fetch
  after_fetch-IsFree error_text scopes id c (raise e) h = fail_run-IsFree error_text id c e h
  after_fetch-IsFree error_text scopes id c (ok results) h =
      after_steps-IsFree error_text scopes id (steps env cfg id results c)
        (steps-IsRun id results c h)

  module _ (error_text : Error → String) (fetch : ℕ → Result (List SourceResult) × ℕ)
      (scopes : Result (List Bool)) (trigger : String) (w : World) where
    -- Where no run is running the cycle goes on to start one.
    pub run_cycle-idle :
        IsIdle w.runs
        → run_cycle env cfg error_text fetch scopes trigger w
          ≡ after_start env cfg error_text fetch scopes w
              (start_run w.runs trigger (env.now w.ticks))
    unfolding run_cycle
    run_cycle-idle idle = rw (idle, run_cycle)

    after_start-IsFree :
        (started : Result (Runs × ℕ))
        → start_run w.runs trigger (env.now w.ticks) ≡ started
        → IsFree w.runs
        → IsFree (after_start env cfg error_text fetch scopes w started).0.runs
    unfolding after_start run_body start_run
    after_start-IsFree (raise e) same free = free
    after_start-IsFree (ok (runs', id)) same free =
        let h : IsRun id runs' = elim (Bool-cases (contains valid_triggers trigger)) [
          | inl valid ↦
              let (out, r, started, _, _, _, ids, alone) =
                start_run-current w.runs trigger (env.now w.ticks) free.1 valid free.0 in
              let e : out ≡ (runs', id) = cc in
              subst (λ (o : Runs × ℕ). IsRun o.1 o.0) e (alone, ids)
          | inr invalid ↦
              let e : start_run w.runs trigger (env.now w.ticks) ≡ raise value_error =
                rw (invalid, start_run) in
              absurd (cc)
        ] in
        after_fetch-IsFree error_text scopes id
          (begun env cfg (record w { runs = runs'; ticks = (fetch (w.ticks + 1)).1 }))
          (fetch (w.ticks + 1)).0 h

    -- From tables with no running run and no run_id above the last one given out, a cycle ends
    -- with such tables again, by whichever of its exits: a trigger that is refused, a failed fetch, an exception of a step, an
    -- exception when the notifiers are built, or a run that is finished. The next cycle can start.
    pub run_cycle-IsFree :
        IsFree w.runs → IsFree (run_cycle env cfg error_text fetch scopes trigger w).0.runs
    run_cycle-IsFree free = rw (run_cycle-idle free.0) (after_start-IsFree _ refl free)
