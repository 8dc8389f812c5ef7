-- ===== src/Pipeline/Runner/Cycle/Rows.antt =====
-- What a whole cycle keeps of the rows that were stored before it.
use job_aggregator.Prelude.{
  ℕ, ◌+◌, String, Bool, none, some, List, ◌≡◌, arith, Option-cases, inl, inr,
}
use job_aggregator.Config.{Config}
use job_aggregator.Errors.{Error, Result, ok, raise}
use job_aggregator.Storage.{Row, find}
use job_aggregator.Storage.Runs.{Runs, current_run, start_run}
use job_aggregator.Storage.Upsert.Provenance.{KeepsUserColumns}
use job_aggregator.Sources.Base.{SourceResult}
use job_aggregator.Pipeline.Runner.{Env}
use job_aggregator.Pipeline.Runner.Cycle.{
  World, Cycle, Step, and_then, record_step, ingest_step, refilter_step, expire_step, sweep_step,
  steps, fail_run, close_run, after_steps, after_fetch, after_start, run_body, run_cycle, begun,
}
use job_aggregator.Pipeline.Runner.Cycle.Keeps.{KeepsRows, KeepsRows-refl}
use job_aggregator.Pipeline.Runner.Cycle.Survival.{
  KeepsRows-at, and_then-KeepsRows, ingest_step-KeepsRows, refilter_step-KeepsRows,
  expire_step-KeepsRows, sweep_step-KeepsRows,
}

module _ {F : Type 0} (env : Env F) (cfg : Config F) where
  steps-KeepsRows :
      (run_id : ℕ) (results : List SourceResult) (c : Cycle)
      → KeepsRows c.rows (steps env cfg run_id results c).0.rows
  unfolding steps record_step
  steps-KeepsRows run_id results c =
      let s₁ = record_step env cfg run_id results c in
      let s₂ = and_then s₁ (ingest_step env cfg run_id results) in
      let s₃ = and_then s₂ (refilter_step env cfg) in
      let s₄ = and_then s₃ (expire_step env cfg run_id results) in
      let k₂ =
        and_then-KeepsRows c.rows s₁ (ingest_step env cfg run_id results) (KeepsRows-refl c.rows)
          (ingest_step-KeepsRows env cfg run_id results) in
      let k₃ =
        and_then-KeepsRows c.rows s₂ (refilter_step env cfg) k₂ (refilter_step-KeepsRows env cfg) in
      let k₄ =
        and_then-KeepsRows c.rows s₃ (expire_step env cfg run_id results) k₃
          (expire_step-KeepsRows env cfg run_id results) in
      and_then-KeepsRows c.rows s₄ (sweep_step env cfg) k₄ (sweep_step-KeepsRows env cfg)

  module _ (error_text : Error → String) (fetch : ℕ → Result (List SourceResult) × ℕ)
      (scopes : Result (List Bool)) where
    fail_run-rows :
        (run_id : ℕ) (c : Cycle) (e : Error)
        → (fail_run env cfg error_text run_id c e).0.rows ≡ c.rows
    unfolding fail_run
    fail_run-rows run_id c e = ground arith

    close_run-rows :
        (run_id : ℕ) (c : Cycle) (scopes : Result (List Bool))
        → (close_run env cfg error_text scopes run_id c).0.rows ≡ c.rows
    unfolding close_run
    close_run-rows run_id c (raise e) = fail_run-rows run_id c e
    close_run-rows run_id c (ok l) = ground (arith, fail_run-rows run_id c)

    after_steps-rows :
        (run_id : ℕ) (s : Step) → (after_steps env cfg error_text scopes run_id s).0.rows ≡ s.0.rows
    unfolding after_steps
    after_steps-rows run_id (c, some e) = fail_run-rows run_id c e
    after_steps-rows run_id (c, none) = close_run-rows run_id c scopes

    after_fetch-KeepsRows :
        (run_id : ℕ) (c : Cycle) (fetched : Result (List SourceResult))
        → KeepsRows c.rows (after_fetch env cfg error_text scopes run_id c fetched).0.rows
    unfolding after_fetch
    after_fetch-KeepsRows run_id c (raise e) =
        KeepsRows-at c.rows c.rows _ (fail_run-rows run_id c e) (KeepsRows-refl c.rows)
    after_fetch-KeepsRows run_id c (ok results) =
        KeepsRows-at c.rows (steps env cfg run_id results c).0.rows _
          (after_steps-rows run_id (steps env cfg run_id results c))
          (steps-KeepsRows run_id results c)

    after_start-KeepsRows :
        (w : World) (started : Result (Runs × ℕ))
        → KeepsRows w.rows (after_start env cfg error_text fetch scopes w started).0.rows
    unfolding after_start run_body
    after_start-KeepsRows w (raise e) = KeepsRows-refl w.rows
    after_start-KeepsRows w (ok (runs', id)) =
        after_fetch-KeepsRows id
          (begun env cfg (record w { runs = runs'; ticks = (fetch (w.ticks + 1)).1 }))
          (fetch (w.ticks + 1)).0

    -- A row that is stored before a cycle is found after it, whatever was fetched and by whichever
    -- exit the cycle ends, with the source, the first-seen time, the flags applied, bookmarked,
    -- hidden and seen, the notes and the extra context that it had.
    pub run_cycle-KeepsUserColumns :
        (trigger : String) (w : World) (uid : String) (r : Row)
        → find uid w.rows ≡ some r
        → (r' : Row) × (find uid (run_cycle env cfg error_text fetch scopes trigger w).0.rows
            ≡ some r')
          × KeepsUserColumns r r'
    unfolding run_cycle
    run_cycle-KeepsUserColumns trigger w =
        let started = start_run w.runs trigger (env.now w.ticks) in
        let kept : KeepsRows w.rows (run_cycle env cfg error_text fetch scopes trigger w).0.rows =
          elim (Option-cases (current_run w.runs)) [
            | inl idle ↦
                KeepsRows-at w.rows (after_start env cfg error_text fetch scopes w started).0.rows _
                  (rw (idle, run_cycle)) (after_start-KeepsRows w started)
            | inr (r, busy) ↦
                KeepsRows-at w.rows w.rows _ (rw (busy, run_cycle)) (KeepsRows-refl w.rows)
          ] in
        kept
