-- ===== src/Pipeline/Filters/Gates.antt =====
-- The chain of early returns against the list of its conditions.
use job_aggregator.Prelude.{
  ℕ, Bool, true, false, not, ◌&&◌, Option, some, List, ◌≡◌, is_some, arith,
}
use job_aggregator.Models.{Job, SalaryBucket}
use job_aggregator.Python.{Float, Text}
use job_aggregator.Config.{Config, keep_and_flag, drop}
use job_aggregator.Pipeline.Signals.{Patterns}
use job_aggregator.Pipeline.Filters.{
  Reading, reading, excluded_by, lacks_level, lacks_role, lacks_skill, too_senior, is_unpaid,
  is_too_long, location_ok, hard_drop_reason, salary_gate, kept, score_and_filter,
}

module _ {F : Type 0} (float : Float F) (text : Text) (re : Patterns) (ascii_fold : List ℕ → List ℕ)
    (cfg : Config F) where
  -- The posting fails no gate, whatever the order in which the gates are tried.
  abbrev pub clears : Job → Reading → Bool
  clears job d =
      not (is_some (excluded_by float text re ascii_fold cfg d))
      && not (lacks_level float text re ascii_fold cfg d)
      && not (lacks_role float text re ascii_fold cfg job d)
      && not (lacks_skill float text re ascii_fold cfg d)
      && not (is_some (too_senior float text re ascii_fold cfg job d))
      && not (is_unpaid float text re ascii_fold cfg job)
      && not (is_too_long float text re ascii_fold cfg job)
      && location_ok ascii_fold cfg job

  -- The salary bucket does not drop the posting.
  abbrev pub affordable : Option SalaryBucket → Bool
  affordable (some SalaryBucket.fail) = false
  affordable (some SalaryBucket.pass) = true
  affordable _ = elim (cfg.salary.on_missing) [ drop ↦ false | keep_and_flag ↦ true ]

  hard_drop_reason-none :
      (job : Job) (d : Reading)
      → not (is_some (hard_drop_reason float text re ascii_fold cfg job d)) ≡ clears job d
  unfolding hard_drop_reason
  hard_drop_reason-none job d = ground arith

  salary_gate-keep :
      (job : Job) (d : Reading)
      → (salary_gate float text re ascii_fold cfg job d).keep ≡ affordable job.salary_bucket
  unfolding salary_gate kept
  salary_gate-keep job d = ground arith

  -- A job is kept exactly when it clears all eight gates and its salary bucket does not drop it.
  pub score_and_filter-keep :
      (job : Job)
      → (score_and_filter float text re ascii_fold cfg job).keep
        ≡ (clears job (reading float text re ascii_fold cfg job) && affordable job.salary_bucket)
  unfolding score_and_filter
  score_and_filter-keep job =
      let d = reading float text re ascii_fold cfg job in
      ground (arith, hard_drop_reason-none job d, salary_gate-keep job d)
