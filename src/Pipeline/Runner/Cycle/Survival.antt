-- ===== src/Pipeline/Runner/Cycle/Survival.antt =====
-- What each step of a cycle keeps of the rows that were stored before it.
use mathlib.Core.Path.{subst}
use job_aggregator.Clock.{minus_days}
use job_aggregator.Models.Amount.{pos}
use job_aggregator.Prelude.{
  of_some, leb, filter, if◌then◌else◌, ℕ, ◌+◌, String, none, some, List, [], ◌∷◌, ◌≡◌, refl, sym,
  ap, ◌==◌, arith, contains, Bool-cases, Option-cases, inl, inr,
}
use job_aggregator.Config.{Config}
use job_aggregator.Models.{Job}
use job_aggregator.Storage.{Row}
use job_aggregator.Storage.Retire.{retire_jobs, refilter_candidates}
use job_aggregator.Pipeline.Stale.{expire_stale}
use job_aggregator.Pipeline.Runner.Outcomes.{windowed_names}
use job_aggregator.Storage.Upsert.{UpsertOutcome}
use job_aggregator.Storage.Upsert.{upsert_job}
use job_aggregator.Sources.Base.{SourceResult}
use job_aggregator.Sources.Closure.{
  Site, Sweep, Verdict, stamped, record_verdict, check_row, is_over, visit_row, sweep_rows, sweep,
  before_sweep, is_due,
}
use job_aggregator.Sources.Closure.Rows.{find-record_verdict}
use job_aggregator.Pipeline.Runner.{Env}
use job_aggregator.Pipeline.Runner.Ingest.{
  Progress, counted, prepare, judge, ingest_job, ingest_jobs, filter_and_upsert,
}
use job_aggregator.Pipeline.Runner.Refilter.{retire_failing_jobs, failing}
use job_aggregator.Pipeline.Runner.Cycle.{
  Cycle, Step, and_then, ingest_step, refilter_step, expire_step, sweep_step,
}
use job_aggregator.Pipeline.Runner.Cycle.Keeps.{
  KeepsRows, KeepsRows-refl, KeepsRows-trans, upsert-KeepsRows, retire_jobs-KeepsRows,
  expire_stale-KeepsRows,
}

pub KeepsRows-at : (a b c : List Row) → c ≡ b → KeepsRows a b → KeepsRows a c
KeepsRows-at a b c same h = subst (KeepsRows a) (sym same) h

record_verdict-KeepsRows :
    (rows : List Row) (u : String) (v : Verdict) (at : ℕ)
    → KeepsRows rows (record_verdict rows u v at)
record_verdict-KeepsRows rows u v at uid r h =
    let found = (find-record_verdict rows u uid v at).0 in
    elim (Bool-cases (u == uid)) [
      | inl e ↦ (
        stamped v at r,
        rw (found, e, h),
        unfold stamped in
            record {
              source = refl;
              first_seen_at = refl;
              applied = refl;
              bookmarked = refl;
              hidden = refl;
              seen = refl;
              notes = refl;
              extra_context = refl;
            },
      )
      | inr e ↦ let (r', here, kept) = KeepsRows-refl rows uid r h in (r', rw (found, e) here, kept)
    ]

module _ (site : Site) (now : ℕ → ℕ) (limit : ℕ) where
  visit_row-KeepsRows :
      (s : Sweep) (due : Row) → KeepsRows s.rows (visit_row site now limit s due).rows
  unfolding visit_row check_row
  visit_row-KeepsRows s due = elim (Bool-cases (contains s.blocked due.source)) [
    | inl skip ↦ rw skip (KeepsRows-refl s.rows)
    | inr check ↦ rw check (record_verdict-KeepsRows s.rows due.job_uid _ _)
  ]

  sweep_rows-KeepsRows :
      (due : List Row) (s : Sweep) → KeepsRows s.rows (sweep_rows site now limit s due).rows
  unfolding sweep_rows
  sweep_rows-KeepsRows [] s = KeepsRows-refl s.rows
  sweep_rows-KeepsRows (d ∷ due) s = elim (Bool-cases (is_over site now limit s)) [
    | inl over ↦ rw over (KeepsRows-refl s.rows)
    | inr more ↦ rw more (
        KeepsRows-trans s.rows (visit_row site now limit s d).rows _ (visit_row-KeepsRows s d)
          (sweep_rows-KeepsRows due (visit_row site now limit s d)))
  ]

sweep-KeepsRows :
    (site : Site) (now : ℕ → ℕ) (limit : ℕ) (order : List Row → List Row) (rows : List Row)
    (ticks : ℕ) (s : Sweep)
    → sweep site now limit order rows ticks ≡ some s
    → KeepsRows rows s.rows
unfolding sweep
sweep-KeepsRows site now limit order rows ticks s h = elim (Bool-cases (leb limit 0)) [
  | inl off ↦
      let same : before_sweep site now limit rows ticks ≡ s = of_some (rw off at h) in
      KeepsRows-at rows rows s.rows (ap (λ (x : Sweep). x.rows) (sym same)) (KeepsRows-refl rows)
  | inr on ↦ elim (Option-cases (minus_days (now ticks) (pos 3))) [
    | inl e ↦ absurd (ground arith)
    | inr (cutoff, e) ↦
        let start = before_sweep site now limit rows (ticks + 1) in
        let due = order (filter (is_due cutoff) rows) in
        let same : sweep_rows site now limit start due ≡ s = of_some (rw (on, e) at h) in
        KeepsRows-at rows (sweep_rows site now limit start due).rows s.rows
          (ap (λ (x : Sweep). x.rows) (sym same)) (sweep_rows-KeepsRows site now limit due start)
  ]
]

pub and_then-KeepsRows :
    (rows : List Row) (s : Step) (next : Cycle → Step)
    → KeepsRows rows s.0.rows
    → ((c : Cycle) → KeepsRows c.rows (next c).0.rows)
    → KeepsRows rows (and_then s next).0.rows
and_then-KeepsRows rows (c, some e) next h keeps = h
and_then-KeepsRows rows (c, none) next h keeps =
    KeepsRows-trans rows c.rows (next c).0.rows h (keeps c)

rows-counted : (o : UpsertOutcome) (p : Progress) → (counted o p).rows ≡ p.rows
rows-counted o p = ground arith

module _ {F : Type 0} (env : Env F) (cfg : Config F) where
  ingest_job-KeepsRows :
      (run_id : ℕ) (p : Progress) (job : Job)
      → KeepsRows p.rows (ingest_job env cfg run_id p job).0.rows
  unfolding ingest_job
  ingest_job-KeepsRows run_id p job = elim (Option-cases (prepare env cfg job)) [
    | inl e ↦ KeepsRows-at p.rows p.rows _ (rw (e, ingest_job)) (KeepsRows-refl p.rows)
    | inr (ready, e) ↦ elim (Option-cases (judge env cfg ready)) [
      | inl e' ↦ KeepsRows-at p.rows p.rows _ (rw (e, e', ingest_job)) (KeepsRows-refl p.rows)
      | inr (job', e') ↦
          KeepsRows-at p.rows (upsert_job p.rows job' run_id (env.now p.ticks)).0 _
            (rw (e, e', ingest_job) (rows-counted _ _))
            (upsert-KeepsRows p.rows job' run_id (env.now p.ticks))
    ]
  ]

  ingest_jobs-KeepsRows :
      (run_id : ℕ) (jobs : List Job) (p : Progress)
      → KeepsRows p.rows (ingest_jobs env cfg run_id p jobs).0.rows
  unfolding ingest_jobs
  ingest_jobs-KeepsRows run_id [] p = KeepsRows-refl p.rows
  ingest_jobs-KeepsRows run_id (job ∷ jobs) p =
      let step = ingest_job env cfg run_id p job in
      let first = ingest_job-KeepsRows run_id p job in
      elim (Option-cases (step.1)) [
        | inl e ↦
            KeepsRows-at p.rows (ingest_jobs env cfg run_id step.0 jobs).0.rows _
              (rw (e, ingest_jobs))
              (KeepsRows-trans p.rows step.0.rows _ first
                (ingest_jobs-KeepsRows run_id jobs step.0))
        | inr (x, e) ↦ KeepsRows-at p.rows step.0.rows _ (rw (e, ingest_jobs)) first
      ]

  filter_and_upsert-KeepsRows :
      (run_id : ℕ) (results : List SourceResult) (p : Progress)
      → KeepsRows p.rows (filter_and_upsert env cfg run_id p results).0.rows
  unfolding filter_and_upsert
  filter_and_upsert-KeepsRows run_id [] p = KeepsRows-refl p.rows
  filter_and_upsert-KeepsRows run_id (res ∷ results) p =
      let jobs = if res.succeeded then res.jobs else [] in
      let step = ingest_jobs env cfg run_id p jobs in
      let first = ingest_jobs-KeepsRows run_id jobs p in
      elim (Option-cases (step.1)) [
        | inl e ↦
            KeepsRows-at p.rows (filter_and_upsert env cfg run_id step.0 results).0.rows _
              (rw (e, filter_and_upsert))
              (KeepsRows-trans p.rows step.0.rows _ first
                (filter_and_upsert-KeepsRows run_id results step.0))
        | inr (x, e) ↦ KeepsRows-at p.rows step.0.rows _ (rw (e, filter_and_upsert)) first
      ]

  pub ingest_step-KeepsRows :
      (run_id : ℕ) (results : List SourceResult) (c : Cycle)
      → KeepsRows c.rows (ingest_step env cfg run_id results c).0.rows
  unfolding ingest_step
  ingest_step-KeepsRows run_id results c =
      let start : Progress = record {
        rows = c.rows;
        ticks = c.ticks;
        n_new = 0;
        n_updated = 0;
        n_filtered = 0;
      } in
      KeepsRows-at c.rows (filter_and_upsert env cfg run_id start results).0.rows _ (ground arith)
        (filter_and_upsert-KeepsRows run_id results start)

  pub refilter_step-KeepsRows : (c : Cycle) → KeepsRows c.rows (refilter_step env cfg c).0.rows
  unfolding refilter_step retire_failing_jobs
  refilter_step-KeepsRows c = elim (Option-cases (failing env cfg (refilter_candidates c.rows))) [
    | inl e ↦ KeepsRows-at c.rows c.rows _ (rw (e, refilter_step)) (KeepsRows-refl c.rows)
    | inr (uids, e) ↦
        KeepsRows-at c.rows (retire_jobs c.rows uids).0 _ (rw (e, refilter_step))
          (retire_jobs-KeepsRows c.rows uids)
  ]

  pub expire_step-KeepsRows :
      (run_id : ℕ) (results : List SourceResult) (c : Cycle)
      → KeepsRows c.rows (expire_step env cfg run_id results c).0.rows
  unfolding expire_step
  expire_step-KeepsRows run_id results c =
      elim (Option-cases (
        expire_stale env.julianday c.rows run_id c.succeeded cfg.schedule.grace_days
          cfg.schedule.windowed_retire_days (env.now c.ticks) (env.now (c.ticks + 1))
          (windowed_names results))) [
            | inl e ↦ KeepsRows-at c.rows c.rows _ (rw (e, expire_step)) (KeepsRows-refl c.rows)
            | inr (out, e) ↦ KeepsRows-at c.rows out.0 _ (rw (e, expire_step)) (
                expire_stale-KeepsRows env.julianday c.rows run_id c.succeeded
                  cfg.schedule.grace_days cfg.schedule.windowed_retire_days (env.now c.ticks)
                  (env.now (c.ticks + 1)) (windowed_names results) out e)
          ]

  pub sweep_step-KeepsRows : (c : Cycle) → KeepsRows c.rows (sweep_step env cfg c).0.rows
  unfolding sweep_step
  sweep_step-KeepsRows c =
      elim (Option-cases (
        sweep env.site env.now cfg.schedule.closure_checks_per_run env.by_last_check c.rows
          c.ticks)) [
            | inl e ↦ KeepsRows-at c.rows c.rows _ (rw (e, sweep_step)) (KeepsRows-refl c.rows)
            | inr (s, e) ↦ KeepsRows-at c.rows s.rows _ (rw (e, sweep_step)) (
                sweep-KeepsRows env.site env.now cfg.schedule.closure_checks_per_run
                  env.by_last_check c.rows c.ticks s e)
          ]
