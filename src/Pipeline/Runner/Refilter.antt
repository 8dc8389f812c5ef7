-- ===== src/Pipeline/Runner/Refilter.antt =====
-- _retire_failing_jobs of pipeline/runner.py. The reasons that it counts go to the log only.
pub mod Clean
use job_aggregator.Prelude.{
  ℕ, String, Bool, true, false, Option, none, some, List, [], ◌∷◌, ◌>>=◌, if◌then◌else◌,
}
use job_aggregator.Models.{Job, SalaryBucket}
use job_aggregator.Config.{Config}
use job_aggregator.Pipeline.Salary.{salary_bucket}
use job_aggregator.Pipeline.Signals.{stated_monthly_pay_inr}
use job_aggregator.Pipeline.Filters.{detect_internship, score_and_filter}
use job_aggregator.Pipeline.Runner.{Env}
use job_aggregator.Storage.{Row}
use job_aggregator.Storage.Retire.{refilter_candidates, retire_jobs}

abbrev pub is_unknown_bucket : SalaryBucket → Bool
is_unknown_bucket SalaryBucket.unknown = true
is_unknown_bucket _ = false

module _ {F : Type 0} (env : Env F) (cfg : Config F) where
  -- The pay that the text states, where the columns state none.
  unfoldable pub fill_pay : Job → Option Job
  fill_pay job =
      let bucketed = record job { salary_bucket = some (salary_bucket cfg.salary job) } in
      if is_unknown_bucket (salary_bucket cfg.salary job)
      then (do
        stated ← stated_monthly_pay_inr env.float env.text env.re job.description
        some (elim stated [
          | none ↦ bucketed
          | some n ↦
              let paid = record job {
                salary_min = some n;
                salary_max = some n;
                salary_currency = some "INR";
                salary_period = some "month";
                salary_parsed = true;
              } in
              record paid { salary_bucket = some (salary_bucket cfg.salary paid) }
        ]))
      else some bucketed

  -- Whether today's filters keep a stored job; `none` is an exception.
  unfoldable pub still_passes : Job → Option Bool
  unfolding fill_pay
  still_passes job = do
    ready ← fill_pay (record job { is_internship = detect_internship env.text job.title })
    some (score_and_filter env.float env.text env.re env.ascii_fold cfg ready).keep

  unfoldable pub failing : List Job → Option (List String)
  failing [] = some []
  failing (job ∷ jobs) =
      let rest = failing jobs in
      do keep ← still_passes job; uids ← rest; some (if keep then uids else job.job_uid ∷ uids)

  unfoldable pub retire_failing_jobs : List Row → Option (List Row × ℕ)
  unfolding failing
  retire_failing_jobs rows = do
    uids ← failing (refilter_candidates rows)
    some (retire_jobs rows uids)
