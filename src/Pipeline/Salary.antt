-- ===== src/Pipeline/Salary.antt =====
-- pipeline/salary.py, and _normalize_salary of pipeline/runner.py.
pub mod Normal
pub mod Bucket
use job_aggregator.Prelude.{
  ℕ, String, Bool, true, false, not, ◌&&◌, ◌||◌, Option, none, some, List, [], ◌∷◌, ◌==◌, is_some,
  coalesce, ◌>>=◌, if◌then◌else◌,
}
use job_aggregator.Models.{Job, SalaryBucket}
use job_aggregator.Models.Amount.{ℤ, pos, at_least}
use job_aggregator.Python.{Float, Text}
use job_aggregator.Config.{SalaryConfig}

-- The top of a stated range, else its bottom.
unfoldable pub representative_inr : Option ℤ → Option ℤ → Option ℤ
representative_inr mn (some mx) = some mx
representative_inr mn none = mn

-- rates[key]
unfoldable pub rate_of {ℓ} : {A : Type ℓ} → String → List (String × A) → Option A
rate_of key [] = none
rate_of key ((k, v) ∷ rates) = if k == key then some v else rate_of key rates

-- A conversion under `None if v is None else ...`; the outer `none` is an exception.
abbrev pub convert_optional : (ℤ → Option ℤ) → Option ℤ → Option (Option ℤ)
convert_optional f none = some none
convert_optional f (some v) = f v >>= λ w. some (some w)

module _ {F : Type 0} (float : Float F) (text : Text) where
  open float use {of_int, mul, div, round}
  open text use {upper, lower}

  -- _PERIOD_TO_MONTH.get(period, 1.0)
  unfoldable pub period_to_month : String → F
  period_to_month period =
      if period == "month"
      then of_int (pos 1)
      else if period == "year"
      then div (of_int (pos 1)) (of_int (pos 12))
      else if period == "week"
      then div (of_int (pos 52)) (of_int (pos 12))
      else if period == "day"
      then div (of_int (pos 260)) (of_int (pos 12))
      else if period == "hour"
      then div (of_int (pos 2080)) (of_int (pos 12))
      else of_int (pos 1)

  -- `none` is an exception: a missing rate, or a product that is no finite number.
  unfoldable pub to_inr_month : ℤ → String → String → List (String × F) → Option ℤ
  unfolding period_to_month rate_of
  to_inr_month amount currency period rates = do
    fx ← (if upper currency == "INR" then some (of_int (pos 1)) else rate_of (upper currency) rates)
    round (mul (mul (of_int amount) fx) (period_to_month period))

  -- The bounds and whether they are in INR per month.
  unfoldable pub convert_bounds :
      Option ℤ
      → Option ℤ
      → Option String
      → Option String
      → List (String × F)
      → Option (Option ℤ × Option ℤ × Bool)
  unfolding to_inr_month
  convert_bounds mn mx currency none rates = some (mn, mx, false)
  convert_bounds mn mx none (some period) rates = some (mn, mx, false)
  convert_bounds mn mx (some currency) (some period) rates =
      if not (upper currency == "INR") && not (is_some (rate_of (upper currency) rates))
      then some (mn, mx, false)
      else do
        conv_min ← convert_optional (λ v. to_inr_month v (upper currency) (lower period) rates) mn
        conv_max ← convert_optional (λ v. to_inr_month v (upper currency) (lower period) rates) mx
        some (conv_min, conv_max, is_some conv_min || is_some conv_max)

  -- `raw_text` is the f-string that keeps the figure as it was stated.
  unfoldable pub normalize_salary : (Job → String) → SalaryConfig F → Job → Option Job
  unfolding convert_bounds
  normalize_salary raw_text cfg job = do
    converted ←
        convert_bounds job.salary_min job.salary_max job.salary_currency job.salary_period
          cfg.fx_rates
    let raw_present = is_some job.salary_min || is_some job.salary_max
    some (
        if converted.2
        then record job {
          salary_raw =
              if not (is_some job.salary_raw) && raw_present
              then some (raw_text job)
              else job.salary_raw;
          salary_min = converted.0;
          salary_max = converted.1;
          salary_currency = some cfg.currency;
          salary_period = some "month";
          salary_parsed = true;
        }
        else record job { salary_parsed = false })

-- The floor that applies to the posting.
unfoldable pub floor_of : {F : Type 0} → SalaryConfig F → Job → ℕ
floor_of cfg job =
    if job.is_internship
    then cfg.min_internship
    else if coalesce job.is_remote false
    then cfg.min_remote
    else cfg.min_in_office

abbrev pub bucket_at : ℕ → Option ℤ → SalaryBucket
bucket_at floor none = SalaryBucket.unknown
bucket_at floor (some rep) = if at_least floor rep then SalaryBucket.pass else SalaryBucket.fail

unfoldable pub salary_bucket : {F : Type 0} → SalaryConfig F → Job → SalaryBucket
unfolding floor_of representative_inr
salary_bucket cfg job =
    if not job.salary_parsed || not (is_some job.salary_min) && not (is_some job.salary_max)
    then SalaryBucket.unknown
    else bucket_at (floor_of cfg job) (representative_inr job.salary_min job.salary_max)
