-- ===== src/Pipeline/Runner/Ingest.antt =====
-- _filter_and_upsert of pipeline/runner.py.
use job_aggregator.Prelude.{ℕ, ◌+◌, Option, none, some, List, [], ◌∷◌, ◌>>=◌, if◌then◌else◌}
use job_aggregator.Errors.{Error, overflow_error}
use job_aggregator.Models.{Job}
use job_aggregator.Config.{Config}
use job_aggregator.Pipeline.Salary.{normalize_salary, salary_bucket}
use job_aggregator.Pipeline.Filters.{detect_internship, score_and_filter}
use job_aggregator.Pipeline.Runner.{Env}
use job_aggregator.Sources.Base.{SourceResult}
use job_aggregator.Storage.{Row}
use job_aggregator.Storage.Upsert.{UpsertOutcome, inserted, updated, upsert_job}

-- The table, the clock readings so far, and the counts.
pub record Progress : Type 0 where
  pub rows : List Row
  pub ticks : ℕ
  pub n_new : ℕ
  pub n_updated : ℕ
  pub n_filtered : ℕ

abbrev pub counted : UpsertOutcome → Progress → Progress
counted inserted p = record p { n_new = p.n_new + 1 }
counted updated p = record p { n_updated = p.n_updated + 1 }

module _ {F : Type 0} (env : Env F) (cfg : Config F) where
  -- The flag, the pay in INR per month and the bucket; `none` is an exception of the conversion.
  unfoldable pub prepare : Job → Option Job
  prepare job = do
    paid ←
        normalize_salary env.float env.text env.raw_text cfg.salary
          (record job { is_internship = detect_internship env.text job.title })
    some (record paid { salary_bucket = some (salary_bucket cfg.salary paid) })

  -- The kept job with its score, or none for a job that is filtered out.
  unfoldable pub judge : Job → Option Job
  judge job =
      let v = score_and_filter env.float env.text env.re env.ascii_fold cfg job in
      if v.keep then some (record job { match_score = some v.score }) else none

  -- What is stored beside the exception, if any: the writes before it stay.
  unfoldable pub ingest_job : ℕ → Progress → Job → Progress × Option Error
  ingest_job run_id p job = elim (prepare job) [
    | none ↦ (p, some overflow_error)
    | some ready ↦ elim (judge ready) [
      | none ↦ (record p { n_filtered = p.n_filtered + 1 }, none)
      | some job' ↦
          let stored = upsert_job p.rows job' run_id (env.now p.ticks) in
          (counted stored.1 (record p { rows = stored.0; ticks = p.ticks + 1 }), none)
    ]
  ]

  unfoldable pub ingest_jobs : ℕ → Progress → List Job → Progress × Option Error
  ingest_jobs run_id p [] = (p, none)
  ingest_jobs run_id p (job ∷ jobs) =
      let step = ingest_job run_id p job in
      elim (step.1) [ some e ↦ (step.0, some e) | none ↦ ingest_jobs run_id step.0 jobs ]

  -- The jobs of the results that succeeded, in order.
  unfoldable pub filter_and_upsert : ℕ → Progress → List SourceResult → Progress × Option Error
  unfolding ingest_jobs
  filter_and_upsert run_id p [] = (p, none)
  filter_and_upsert run_id p (res ∷ results) =
      let step = ingest_jobs run_id p (if res.succeeded then res.jobs else []) in
      elim (step.1) [ some e ↦ (step.0, some e) | none ↦ filter_and_upsert run_id step.0 results ]
