-- ===== src/Scheduler/CatchUp.antt =====
-- When the catch-up runs, after a run that completed.
use job_aggregator.Prelude.{
  ℕ, ◌+◌, String, Bool, true, false, ◌&&◌, ◌⊎◌, Bool-cases, some, ◌≡◌, refl, ap, leb, inl, inr,
  if◌then◌else◌,
}
use mathlib.Core.Path.{subst, sym, ◌∙◌}
use job_aggregator.Clock.{day}
use job_aggregator.Config.{Config}
use job_aggregator.Errors.{ok, raise, Result}
use job_aggregator.Pipeline.Runner.Cycle.{World, RunSummary, run_cycle}
use job_aggregator.Pipeline.Runner.Cycle.Lock.{IsFree}
use job_aggregator.Pipeline.Runner.Cycle.Completed.{Completes, run_cycle-Completes}
use job_aggregator.Storage.Runs.{Run, Runs, last_completed_run}
use job_aggregator.Scheduler.{
  Ran, busy, failed, ran, Process, Outside, answer, run_loaded, run_holding, run_locked,
  is_catch_up_due, should_catch_up, run_finished_at,
}

false_ne_true : false ≡ true → ⊥
false_ne_true e = cc

if_and : (a b : Bool) → (if a then b else false) ≡ (a && b)
if_and true b = refl
if_and false b = refl

is_catch_up_due-finished :
    {F : Type 0} (cfg : Config F) (t : Runs) (now : ℕ) (r : Run) (finish : ℕ)
    → last_completed_run t ≡ some r
    → r.finished_at ≡ some finish
    → is_catch_up_due cfg t now ≡ (cfg.schedule.catch_up_on_startup && leb (finish + day) now)
unfolding is_catch_up_due should_catch_up run_finished_at
is_catch_up_due-finished cfg t now r finish last at =
    rw (last, is_catch_up_due, run_finished_at, at)
      (if_and cfg.schedule.catch_up_on_startup (leb (finish + day) now))

-- The run_id of an answer.
abbrev id_of : Ran → ℕ
id_of busy = 0
id_of failed = 0
id_of (ran id) = id

abbrev has_run : Ran → Bool
has_run busy = false
has_run failed = false
has_run (ran id) = true

module _ {F : Type 0} (out : Outside F) where
  answer-ran :
      (a : World × Result RunSummary) (id : ℕ) (q : Process)
      → answer out a ≡ (ran id, q)
      → (s : RunSummary) × (a ≡ (q.world, ok s)) × (s.run_id ≡ id) × (q.locked ≡ false)
  unfolding answer
  answer-ran (w, ok s) id q e =
      let left : record { world = w; locked = false } ≡ q = ap (λ (o : Ran × Process). o.1) e in
      (
        s,
        ap (λ (x : Process). (x.world, ok s)) left,
        ap (λ (o : Ran × Process). id_of o.0) e,
        sym (ap (λ (x : Process). x.locked) left),
      )
  answer-ran (w, raise k) id q e =
      absurd (false_ne_true (ap (λ (o : Ran × Process). has_run o.0) e))

  run_loaded-ran :
      (loaded : Result (Config F)) (trigger : String) (w : World) (id : ℕ) (q : Process)
      → run_loaded out loaded trigger w ≡ (ran id, q)
      → (cfg : Config F) × (s : RunSummary) × (loaded ≡ ok cfg)
        × (run_cycle out.env cfg out.error_text (out.fetch cfg) (out.scopes cfg) trigger w
            ≡ (q.world, ok s))
        × (s.run_id ≡ id)
        × (q.locked ≡ false)
  unfolding run_loaded
  run_loaded-ran (raise k) trigger w id q e =
      absurd (false_ne_true (ap (λ (o : Ran × Process). has_run o.0) e))
  run_loaded-ran (ok cfg) trigger w id q e =
      let (s, ended, same, released) = answer-ran _ id q e in (cfg, s, refl, ended, same, released)

  run_locked-ran :
      (trigger : String) (p : Process) (id : ℕ) (q : Process)
      → IsFree p.runs
      → run_locked out trigger p ≡ (ran id, q)
      → run_loaded out out.loaded trigger p.world ≡ (ran id, q)
  unfolding run_locked run_holding
  run_locked-ran trigger p id q free e = elim (Bool-cases p.locked) [
    | inl held ↦
        let same : run_locked out trigger p ≡ (busy, p) = rw (held, run_locked) refl in
        absurd (false_ne_true (ap (λ (o : Ran × Process). has_run o.0) (sym same ∙ e)))
    | inr unlocked ↦ elim (Bool-cases out.connects) [
      | inl on ↦
          let same : run_locked out trigger p ≡ run_loaded out out.loaded trigger p.world =
            rw (unlocked, on, free.0, run_locked, run_holding) refl in
          sym same ∙ e
      | inr off ↦
          let same : run_locked out trigger p
              ≡ (failed, record { world = p.world; locked = false }) =
            rw (unlocked, off, run_locked, run_holding) refl in
          absurd (false_ne_true (ap (λ (o : Ran × Process). has_run o.0) (sym same ∙ e)))
    ]
  ]

  -- A call from free tables that is answered with a run_id has loaded a configuration and run a cycle
  -- that returned a summary with this run_id, and releases the lock. Unless the summary's status is
  -- "failed", a catch-up with any configuration is then due exactly when that configuration enables
  -- catching up and a day has passed since the last clock reading of the cycle, when the run was
  -- finished.
  pub run_locked-caught_up :
      (trigger : String) (p : Process) (id : ℕ) (q : Process)
      → IsFree p.runs
      → run_locked out trigger p ≡ (ran id, q)
      → (cfg : Config F) × (s : RunSummary) × (out.loaded ≡ ok cfg)
        × (run_cycle out.env cfg out.error_text (out.fetch cfg) (out.scopes cfg) trigger p.world
            ≡ (q.world, ok s))
        × (s.run_id ≡ id)
        × (q.locked ≡ false)
        × ((s.status ≡ "failed")
            ⊎ ((tick : ℕ) × (q.ticks ≡ tick + 1)
                × ((cfg' : Config F) (now : ℕ)
                    → is_catch_up_due cfg' q.runs now
                      ≡ (cfg'.schedule.catch_up_on_startup && leb (out.env.now tick + day) now))))
  run_locked-caught_up trigger p id q free answered =
      let (cfg, s, loaded, done, same, released) =
        run_loaded-ran out.loaded trigger p.world id q
          (run_locked-ran trigger p id q free answered) in
      let (id', h) =
        run_cycle-Completes out.env cfg out.error_text (out.fetch cfg) (out.scopes cfg) trigger
          p.world free in
      let ends : Completes out.env.now id' (q.world, ok s) =
        subst (Completes out.env.now id') done h in
      (
        cfg,
        s,
        loaded,
        done,
        same,
        released,
        elim (ends.1) [
          | inl bad ↦ inl bad
          | inr c ↦ inr (
            c.tick,
            c.read,
            λ cfg' now.
                is_catch_up_due-finished cfg' q.runs now c.run (out.env.now c.tick) c.last c.at,
          )
        ],
      )
