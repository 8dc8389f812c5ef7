-- ===== src/Storage/Runs/Lock.antt =====
-- The run lock: which operations make current_run answer, and which end the running run.
use job_aggregator.Prelude.{
  ℕ, suc, ◌≤◌, ◌<◌, String, true, ◌↔◌, Option, none, some, List, [], ◌∷◌, ◌++◌, ◌≡◌, ◌≢◌, refl, ap₂,
  eqb, count, All, contains, arith,
}
use job_aggregator.Errors.{ok}
use job_aggregator.Storage.Runs.{
  Run, Runs, RunStatus, running, Counts, is_running, prefer, latest, current_run, start_run,
  finish_run, finished, run_status_of, update_runs, reconcile_orphan_runs, reaped, valid_triggers,
}
use job_aggregator.Storage.Runs.Latest.{latest-none, count_of_latest-none}

-- Every run_id was given out by AUTOINCREMENT.
abbrev pub HasIds : ℕ → List Run → Type 0
HasIds last = All (λ (r : Run). r.run_id ≤ last)

-- No run is running.
abbrev pub IsIdle : Runs → Type 0
IsIdle t = current_run t ≡ none

-- No run but `id` is running.
abbrev pub IsOpen : ℕ → List Run → Type 0
IsOpen id = All (λ (r : Run). is_running r ≡ true → r.run_id ≡ id)

HasIds-append :
    (last : ℕ) (runs : List Run) (r : Run)
    → HasIds last runs
    → r.run_id ≤ suc last
    → HasIds (suc last) (runs ++ r ∷ [])
HasIds-append last [] r h new = (new, tt)
HasIds-append last (s ∷ runs) r h new = (omega arith, HasIds-append last runs r h.1 new)

IsOpen-append :
    (runs : List Run) (r : Run) → count is_running runs ≡ 0 → IsOpen r.run_id (runs ++ r ∷ [])
IsOpen-append [] r h = (λ _. refl, tt)
IsOpen-append (s ∷ runs) r h = (λ on. ground arith, IsOpen-append runs r (ground arith))

latest-append :
    (last : ℕ) (runs : List Run) (r : Run)
    → HasIds last runs
    → last < r.run_id
    → is_running r ≡ true
    → latest is_running (runs ++ r ∷ []) ≡ some r
unfolding latest prefer
latest-append last [] r h new on = rw on
latest-append last (s ∷ runs) r h new on = ground (arith, latest-append last runs r h.1)

-- In an idle table with no run_id above the last one given out, a valid trigger starts a run with a run_id above every one that was given out;
-- current_run then answers with that run, and no other run is running.
pub start_run-current :
    (t : Runs) (trigger : String) (now : ℕ)
    → HasIds t.last_run_id t.runs
    → contains valid_triggers trigger ≡ true
    → IsIdle t
    → (out : Runs × ℕ) × (r : Run) × (start_run t trigger now ≡ ok out)
      × (current_run out.0 ≡ some r)
      × (r.run_id ≡ out.1)
      × (t.last_run_id < out.1)
      × HasIds out.0.last_run_id out.0.runs
      × IsOpen out.1 out.0.runs
unfolding start_run current_run
start_run-current t trigger now ids valid idle =
    let r : Run = record {
      run_id = suc t.last_run_id;
      started_at = now;
      finished_at = none;
      status = running;
      trigger = trigger;
      n_sources_ok = 0;
      n_sources_err = 0;
      n_new = 0;
      n_updated = 0;
      n_expired = 0;
      error = none;
    } in
    (
      (record t { last_run_id = suc t.last_run_id; runs = t.runs ++ r ∷ [] }, suc t.last_run_id),
      r,
      rw valid,
      latest-append t.last_run_id t.runs r ids (omega arith) refl,
      refl,
      omega arith,
      HasIds-append t.last_run_id t.runs r ids (omega arith),
      IsOpen-append t.runs r (count_of_latest-none is_running t.runs idle),
    )

module _ (status : RunStatus) (c : Counts) (now : ℕ) (error : Option String) (id : ℕ) where
  count-update :
      (runs : List Run)
      → status ≢ running
      → IsOpen id runs
      → count is_running (update_runs (λ r. eqb r.run_id id) (finished status c now error) runs) ≡ 0
  unfolding update_runs finished
  count-update [] s h = refl
  count-update (r ∷ runs) s h = ground (arith, count-update runs s h.1, h.0, s)

  HasIds-update :
      (last : ℕ) (runs : List Run)
      → HasIds last runs
      → HasIds last (update_runs (λ r. eqb r.run_id id) (finished status c now error) runs)
  unfolding update_runs finished
  HasIds-update last [] h = tt
  HasIds-update last (r ∷ runs) h = (ground arith, HasIds-update last runs h.1)

-- Finishing a run, when no other run is running and no run_id is above the last one given out,
-- with the word of a final status succeeds and leaves the table idle.
pub finish_run-IsIdle :
    (t : Runs) (id : ℕ) (word : String) (status : RunStatus) (c : Counts) (now : ℕ)
    (error : Option String)
    → run_status_of word ≡ some status
    → status ≢ running
    → IsOpen id t.runs
    → HasIds t.last_run_id t.runs
    → (t' : Runs) × (finish_run t id word c now error ≡ ok t')
      × IsIdle t'
      × HasIds t'.last_run_id t'.runs
unfolding current_run finish_run update_runs
finish_run-IsIdle t id word status c now error known final alone ids = (
  record t { runs = update_runs (λ r. eqb r.run_id id) (finished status c now error) t.runs },
  rw (known, finish_run),
  latest-none is_running _ (count-update status c now error id t.runs final alone),
  HasIds-update status c now error id t.last_run_id t.runs ids,
)

count-reaped :
    (now : ℕ) (runs : List Run) → count is_running (update_runs is_running (reaped now) runs) ≡ 0
unfolding update_runs reaped
count-reaped now [] = refl
count-reaped now (r ∷ runs) = ground (arith, count-reaped now runs)

HasIds-reaped :
    (now last : ℕ) (runs : List Run)
    → HasIds last runs
    → HasIds last (update_runs is_running (reaped now) runs)
unfolding update_runs reaped
HasIds-reaped now last [] h = tt
HasIds-reaped now last (r ∷ runs) h = (ground arith, HasIds-reaped now last runs h.1)

-- Reconciling keeps every run_id at most the last one that was given out.
pub reconcile_orphan_runs-HasIds :
    (t : Runs) (now : ℕ)
    → HasIds t.last_run_id t.runs
    → HasIds (reconcile_orphan_runs t now).0.last_run_id (reconcile_orphan_runs t now).0.runs
unfolding reconcile_orphan_runs
reconcile_orphan_runs-HasIds t now h = HasIds-reaped now t.last_run_id t.runs h

update_runs-none :
    (now : ℕ) (runs : List Run)
    → count is_running runs ≡ 0
    → update_runs is_running (reaped now) runs ≡ runs
unfolding update_runs
update_runs-none now [] h = refl
update_runs-none now (r ∷ runs) h =
    ap₂ ◌∷◌ (ground arith) (update_runs-none now runs (ground arith))

-- After the startup reconciliation no run is running, so no abandoned run blocks the next cycle.
-- It returns how many it reaped; where it reaps none the table stays as it is, so a second call
-- changes nothing.
pub reconcile_orphan_runs-IsIdle :
    (t : Runs) (now now' : ℕ)
    → IsIdle (reconcile_orphan_runs t now).0
      × (((reconcile_orphan_runs t now).1 ≡ 0) ↔ IsIdle t)
      × (reconcile_orphan_runs (reconcile_orphan_runs t now).0 now'
          ≡ ((reconcile_orphan_runs t now).0, 0))
unfolding reconcile_orphan_runs current_run
reconcile_orphan_runs-IsIdle t now now' = (
  latest-none is_running _ (count-reaped now t.runs),
  (latest-none is_running t.runs, count_of_latest-none is_running t.runs),
  λ i. (
    record t { runs = update_runs-none now' _ (count-reaped now t.runs) i },
    count-reaped now t.runs i,
  ),
)
