-- ===== src/Storage/Runs/Newest.antt =====
-- The run that was started last, once it is finished, as last_completed_run sees it.
use job_aggregator.Prelude.{
  ℕ, suc, ◌<◌, String, Bool, true, Option, none, some, List, [], ◌∷◌, ◌++◌, ◌≡◌, refl, eqb,
  contains, arith, Bool-cases, inl, inr,
}
use mathlib.Core.Path.{subst}
use job_aggregator.Errors.{ok, raise, value_error}
use job_aggregator.Storage.Runs.{
  Run, Runs, RunStatus, running, Counts, is_completed, latest, prefer, last_completed_run,
  start_run, finish_run, finished, run_status_of, update_runs, valid_triggers,
}
use job_aggregator.Storage.Runs.Lock.{HasIds}

-- `id` belongs to the last row, and is above the other run_ids.
pub record IsNewest (id : ℕ) (t : Runs) : Type 0 where
  pub older : List Run
  pub newest : Run
  pub last : ℕ
  pub split : t.runs ≡ older ++ newest ∷ []
  pub ids : HasIds last older
  pub above : last < newest.run_id
  pub same : newest.run_id ≡ id

latest-update :
    (test : Run → Bool) (change : Run → Run) (last : ℕ) (runs : List Run) (r : Run)
    → HasIds last runs
    → last < r.run_id
    → test (change r) ≡ true
    → (change r).run_id ≡ r.run_id
    → latest test (update_runs (λ s. eqb s.run_id r.run_id) change (runs ++ r ∷ []))
      ≡ some (change r)
unfolding latest update_runs prefer
latest-update test change last [] r h new on keeps = ground arith
latest-update test change last (s ∷ runs) r h new on keeps =
    ground (arith, latest-update test change last runs r h.1)

-- A run that was started last and is finished with the word of a completed status is the one that
-- last_completed_run answers with, with the given finish time.
pub finish_run-completed :
    (t : Runs) (id : ℕ) (word : String) (status : RunStatus) (c : Counts) (now : ℕ)
    (error : Option String)
    → run_status_of word ≡ some status
    → ((r : Run) → is_completed (finished status c now error r) ≡ true)
    → IsNewest id t
    → (t' : Runs) × (r : Run) × (finish_run t id word c now error ≡ ok t')
      × (last_completed_run t' ≡ some r)
      × (r.run_id ≡ id)
      × (r.finished_at ≡ some now)
unfolding last_completed_run finish_run
finish_run-completed t id word status c now error known completed h =
    let change = finished status c now error in
    (
      record t { runs = update_runs (λ r. eqb r.run_id id) change t.runs },
      change h.newest,
      rw (known, finish_run),
      rw (h.split, ← h.same)
          (latest-update is_completed change h.last h.older h.newest h.ids h.above
            (completed h.newest) (unfold finished in refl)),
      unfold finished in h.same,
      unfold finished in refl,
    )

-- The tables after a valid trigger.
abbrev begun : Runs → String → ℕ → Runs × ℕ
begun t trigger now = (
  record t {
    last_run_id = suc t.last_run_id;
    runs =
        t.runs
        ++ record {
          run_id = suc t.last_run_id;
          started_at = now;
          finished_at = none;
          status = running;
          trigger = trigger;
          n_sources_ok = 0;
          n_sources_err = 0;
          n_new = 0;
          n_updated = 0;
          n_expired = 0;
          error = none;
        }
          ∷ [];
  },
  suc t.last_run_id,
)

start_run-begun :
    (t : Runs) (trigger : String) (now : ℕ) (out : Runs × ℕ)
    → start_run t trigger now ≡ ok out
    → begun t trigger now ≡ out
unfolding start_run
start_run-begun t trigger now out same = elim (Bool-cases (contains valid_triggers trigger)) [
  | inl valid ↦
      let e : start_run t trigger now ≡ ok (begun t trigger now) = rw (valid, start_run) refl in cc
  | inr invalid ↦
      let e : start_run t trigger now ≡ raise value_error = rw (invalid, start_run) refl in
      absurd (cc)
]

-- The run that start_run adds has the last row and a run_id above all the others.
pub start_run-IsNewest :
    (t : Runs) (trigger : String) (now : ℕ) (t' : Runs) (id : ℕ)
    → HasIds t.last_run_id t.runs
    → start_run t trigger now ≡ ok (t', id)
    → IsNewest id t'
start_run-IsNewest t trigger now t' id ids same =
    subst (λ (o : Runs × ℕ). IsNewest o.1 o.0) (start_run-begun t trigger now (t', id) same)
      (record {
        older = t.runs;
        newest = _;
        last = t.last_run_id;
        split = refl;
        ids = ids;
        above = omega arith;
        same = refl;
      })
