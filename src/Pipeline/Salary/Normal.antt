-- ===== src/Pipeline/Salary/Normal.antt =====
-- Normalising a job's pay a second time.
use mathlib.Core.Path.{subst}
use job_aggregator.Prelude.{
  String, Bool, true, false, not, ◌&&◌, ◌||◌, Option, none, some, List, ◌≡◌, refl, sym, is_some,
  arith, inl, inr, Option-cases, of_some, if◌then◌else◌,
}
use job_aggregator.Models.{Job}
use job_aggregator.Models.Amount.{ℤ, pos}
use job_aggregator.Python.{Float, Text}
use job_aggregator.Config.{SalaryConfig}
use job_aggregator.Pipeline.Salary.{
  convert_optional, convert_bounds, to_inr_month, period_to_month, normalize_salary,
}

-- A whole amount that a float holds exactly survives two products with 1.0 and round.
abbrev pub IsExact : {F : Type 0} → Float F → Option ℤ → Type 0
IsExact float none = Unit
IsExact float (some v) =
    float.round
      (float.mul (float.mul (float.of_int v) (float.of_int (pos 1))) (float.of_int (pos 1)))
    ≡ some v

-- The casing of the two words that the code writes.
pub record KnowsCase (text : Text) : Type 0 where
  pub upper_inr : text.upper "INR" ≡ "INR"
  pub lower_month : text.lower "month" ≡ "month"

module _ {F : Type 0} (float : Float F) (text : Text) where
  convert_optional-inr :
      (rates : List (String × F)) (o : Option ℤ)
      → KnowsCase text
      → IsExact float o
      → convert_optional
          (λ v. to_inr_month float text v (text.upper "INR") (text.lower "month") rates)
          o
        ≡ some o
  unfolding to_inr_month period_to_month
  convert_optional-inr rates none case exact = refl
  convert_optional-inr rates (some v) case exact =
      rw (case.upper_inr, case.lower_month) (rw (case.upper_inr) (ground (arith, exact)))

  convert_bounds-inr :
      (rates : List (String × F)) (mn mx : Option ℤ)
      → KnowsCase text
      → IsExact float mn
      → IsExact float mx
      → convert_bounds float text mn mx (some "INR") (some "month") rates
        ≡ some (mn, mx, is_some mn || is_some mx)
  unfolding convert_bounds
  convert_bounds-inr rates mn mx case ex_min ex_max = ground (
    arith,
    case.upper_inr,
    convert_optional-inr rates mn case ex_min,
    convert_optional-inr rates mx case ex_max,
  )

  -- What a successful conversion says of the bounds.
  convert_bounds-some :
      (rates : List (String × F)) (mn mx : Option ℤ) (currency period : Option String)
      (c : Option ℤ × Option ℤ × Bool)
      → convert_bounds float text mn mx currency period rates ≡ some c
      → c.2 ≡ true
      → ((is_some c.0 || is_some c.1) ≡ true) × ((is_some mn || is_some mx) ≡ true)
  unfolding convert_bounds
  convert_bounds-some rates mn mx currency none c h parsed = ground arith
  convert_bounds-some rates mn mx none (some period) c h parsed = ground arith
  convert_bounds-some rates mn mx (some currency) (some period) c h parsed = ground arith

  -- The job that normalisation leaves.
  abbrev noted : (Job → String) → SalaryConfig F → Job → (Option ℤ × Option ℤ × Bool) → Job
  noted raw_text cfg job c =
      if c.2
      then record job {
        salary_raw =
            if not (is_some job.salary_raw) && (is_some job.salary_min || is_some job.salary_max)
            then some (raw_text job)
            else job.salary_raw;
        salary_min = c.0;
        salary_max = c.1;
        salary_currency = some cfg.currency;
        salary_period = some "month";
        salary_parsed = true;
      }
      else record job { salary_parsed = false }

  normalize-noted :
      (raw_text : Job → String) (cfg : SalaryConfig F) (job : Job) (c : Option ℤ × Option ℤ × Bool)
      → KnowsCase text
      → cfg.currency ≡ "INR"
      → convert_bounds float text job.salary_min job.salary_max job.salary_currency
          job.salary_period cfg.fx_rates
        ≡ some c
      → IsExact float (noted raw_text cfg job c).salary_min
      → IsExact float (noted raw_text cfg job c).salary_max
      → normalize_salary float text raw_text cfg (noted raw_text cfg job c)
        ≡ some (noted raw_text cfg job c)
  unfolding normalize_salary
  normalize-noted raw_text cfg job (mn, mx, false) case in_inr h ex_min ex_max = rw h
  normalize-noted raw_text cfg job (mn, mx, true) case in_inr h ex_min ex_max = ground (
    arith,
    in_inr,
    convert_bounds-inr cfg.fx_rates mn mx case ex_min ex_max,
    convert_bounds-some cfg.fx_rates job.salary_min job.salary_max job.salary_currency
        job.salary_period (mn, mx, true) h refl,
  )

  noted_of_some :
      (raw_text : Job → String) (cfg : SalaryConfig F) (job job' : Job)
      → normalize_salary float text raw_text cfg job ≡ some job'
      → (c : Option ℤ × Option ℤ × Bool) × (convert_bounds float text job.salary_min job.salary_max
            job.salary_currency job.salary_period cfg.fx_rates
          ≡ some c)
        × (noted raw_text cfg job c ≡ job')
  unfolding normalize_salary
  noted_of_some raw_text cfg job job' h =
      elim (Option-cases (
        convert_bounds float text job.salary_min job.salary_max job.salary_currency
          job.salary_period cfg.fx_rates)) [ inl e ↦ cc | inr (c, e) ↦ (c, e, of_some (rw e at h)) ]

  -- Where the currency is INR, normalising a normalised job again changes nothing.
  pub normalize_salary-twice :
      (raw_text : Job → String) (cfg : SalaryConfig F) (job job' : Job)
      → KnowsCase text
      → cfg.currency ≡ "INR"
      → normalize_salary float text raw_text cfg job ≡ some job'
      → IsExact float job'.salary_min
      → IsExact float job'.salary_max
      → normalize_salary float text raw_text cfg job' ≡ some job'
  normalize_salary-twice raw_text cfg job job' case in_inr h ex_min ex_max =
      let (c, e, same) = noted_of_some raw_text cfg job job' h in
      subst (λ j. normalize_salary float text raw_text cfg j ≡ some j) same
        (normalize-noted raw_text cfg job c case in_inr e
          (subst (λ (j : Job). IsExact float j.salary_min) (sym same) ex_min)
          (subst (λ (j : Job). IsExact float j.salary_max) (sym same) ex_max))
