-- ===== src/Pipeline/Filters/Scores.antt =====
-- Bounds of the score, and what the internship flag does to it.
use job_aggregator.Prelude.{
  ◌⊎◌, refl, ◌+◌, none, true, ℕ, ◌≤◌, Bool, false, List, ◌≡◌, length, arith,
}
use job_aggregator.Models.{Job}
use job_aggregator.Python.{Float, Text}
use job_aggregator.Config.{Config}
use job_aggregator.Pipeline.Signals.{Patterns}
use job_aggregator.Pipeline.Filters.{
  verdict, too_senior, lacks_role, is_unpaid, hard_drop_reason, is_too_long, location_ok, Reading,
  reading, salary_gate, kept, raw_score, score_and_filter,
}

module _ {F : Type 0} (float : Float F) (text : Text) (re : Patterns) (ascii_fold : List ℕ → List ℕ)
    (cfg : Config F) where
  raw_score-le : (job : Job) (d : Reading) → raw_score float text re ascii_fold cfg job d ≤ 95
  unfolding raw_score
  raw_score-le job d = ground arith

  salary_gate-score :
      (job : Job) (d : Reading)
      → ((salary_gate float text re ascii_fold cfg job d).score ≤ 95)
        × (((salary_gate float text re ascii_fold cfg job d).keep ≡ true)
            ⊎ ((salary_gate float text re ascii_fold cfg job d).score ≡ 0)
              × (length (salary_gate float text re ascii_fold cfg job d).reasons ≡ 1))
  unfolding salary_gate kept
  salary_gate-score job d = ground (arith, raw_score-le job d)

  -- The score is at most 95; the job is kept, or has score 0 and exactly one reason.
  pub score_and_filter-score :
      (job : Job)
      → ((score_and_filter float text re ascii_fold cfg job).score ≤ 95)
        × (((score_and_filter float text re ascii_fold cfg job).keep ≡ true)
            ⊎ ((score_and_filter float text re ascii_fold cfg job).score ≡ 0)
              × (length (score_and_filter float text re ascii_fold cfg job).reasons ≡ 1))
  unfolding score_and_filter
  score_and_filter-score job =
      ground (arith, salary_gate-score job (reading float text re ascii_fold cfg job))

  abbrev pub as_internship : Bool → Job → Job
  as_internship b job = record job { is_internship = b }

  reading-internship :
      (job : Job)
      → reading float text re ascii_fold cfg (as_internship true job)
        ≡ reading float text re ascii_fold cfg (as_internship false job)
  unfolding reading
  reading-internship job = refl

  is_unpaid-internship :
      (job : Job)
      → is_unpaid float text re ascii_fold cfg (as_internship true job)
        ≡ is_unpaid float text re ascii_fold cfg (as_internship false job)
  unfolding is_unpaid
  is_unpaid-internship job = refl

  location_ok-internship :
      (job : Job)
      → location_ok ascii_fold cfg (as_internship true job)
        ≡ location_ok ascii_fold cfg (as_internship false job)
  unfolding location_ok
  location_ok-internship job = refl

  is_too_long-uncapped :
      (job : Job)
      → cfg.keywords.max_internship_months ≡ 0
      → is_too_long float text re ascii_fold cfg job ≡ false
  unfolding is_too_long
  is_too_long-uncapped job h = ground arith

  lacks_role-internship :
      (job : Job) (d : Reading)
      → lacks_role float text re ascii_fold cfg (as_internship false job) d ≡ false
      → lacks_role float text re ascii_fold cfg (as_internship true job) d ≡ false
  unfolding lacks_role
  lacks_role-internship job d h = ground arith

  too_senior-internship :
      (job : Job) (d : Reading)
      → too_senior float text re ascii_fold cfg (as_internship true job) d ≡ none
  unfolding too_senior
  too_senior-internship job d = refl

  hard_drop_reason-internship :
      (job : Job) (d : Reading)
      → cfg.keywords.max_internship_months ≡ 0
      → hard_drop_reason float text re ascii_fold cfg (as_internship false job) d ≡ none
      → hard_drop_reason float text re ascii_fold cfg (as_internship true job) d ≡ none
  unfolding hard_drop_reason
  hard_drop_reason-internship job d uncapped h = ground (
    arith,
    is_unpaid-internship job,
    location_ok-internship job,
    is_too_long-uncapped (as_internship true job) uncapped,
    lacks_role-internship job d,
    too_senior-internship job d,
  )

  salary_gate-internship :
      (job : Job) (d : Reading)
      → (salary_gate float text re ascii_fold cfg (as_internship false job) d).keep ≡ true
      → ((salary_gate float text re ascii_fold cfg (as_internship true job) d).keep ≡ true)
        × ((salary_gate float text re ascii_fold cfg (as_internship false job) d).score + 20
            ≤ (salary_gate float text re ascii_fold cfg (as_internship true job) d).score)
  unfolding salary_gate kept raw_score
  salary_gate-internship job d h = ground arith

  verdict-internship :
      (job : Job) (d : Reading)
      → cfg.keywords.max_internship_months ≡ 0
      → (verdict float text re ascii_fold cfg (as_internship false job) d).keep ≡ true
      → ((verdict float text re ascii_fold cfg (as_internship true job) d).keep ≡ true)
        × ((verdict float text re ascii_fold cfg (as_internship false job) d).score + 20
            ≤ (verdict float text re ascii_fold cfg (as_internship true job) d).score)
  unfolding verdict
  verdict-internship job d uncapped h =
      ground (arith, hard_drop_reason-internship job d uncapped, salary_gate-internship job d)

  -- With the duration cap off, a posting that is kept as a full-time role is also kept as an
  -- internship with the same salary bucket, and scores at least 20 more.
  pub score_and_filter-internship :
      (job : Job)
      → cfg.keywords.max_internship_months ≡ 0
      → (score_and_filter float text re ascii_fold cfg (as_internship false job)).keep ≡ true
      → ((score_and_filter float text re ascii_fold cfg (as_internship true job)).keep ≡ true)
        × ((score_and_filter float text re ascii_fold cfg (as_internship false job)).score + 20
            ≤ (score_and_filter float text re ascii_fold cfg (as_internship true job)).score)
  unfolding score_and_filter reading
  score_and_filter-internship job uncapped h =
      verdict-internship job (reading float text re ascii_fold cfg job) uncapped h
