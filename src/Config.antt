-- ===== src/Config.antt =====
-- config/schema.py: the settings that the pipeline reads. Fields that the schema bounds below by 0
-- are natural numbers. `F` is the float type of the exchange rates.
use job_aggregator.Prelude.{ℕ, String, Bool, List}
use job_aggregator.Models.Amount.{ℤ}

pub record Keywords : Type 0 where
  pub roles : List String
  pub bonus : List String
  pub must_have : List String
  pub level_required : List String
  pub exclude : List String
  pub require_level : Bool
  pub intern_queries : List String
  pub max_experience_years : ℕ
  pub max_internship_months : ℕ

pub data OnMissing : Type 0 where
  keep_and_flag drop : OnMissing

pub record SalaryConfig (F : Type 0) : Type 0 where
  pub currency : String
  pub period : String
  pub min_remote : ℕ
  pub min_in_office : ℕ
  pub min_internship : ℕ
  pub on_missing : OnMissing
  pub demote_in_office_if_unknown : Bool
  pub fx_rates : List (String × F)

pub record ScheduleConfig : Type 0 where
  pub run_hour_local : ℕ
  pub hours_old : ℤ
  pub grace_days : ℤ
  pub catch_up_on_startup : Bool
  pub windowed_retire_days : ℤ
  pub closure_checks_per_run : ℕ

pub record RssConfig : Type 0 where
  pub enabled : Bool
  pub path : String
  pub max_items : ℤ

pub record Config (F : Type 0) : Type 0 where
  pub keywords : Keywords
  pub locations : List String
  pub remote_preferred : Bool
  pub salary : SalaryConfig F
  pub schedule : ScheduleConfig
  pub rss : RssConfig
