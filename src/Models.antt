-- ===== src/Models.antt =====
-- models/job.py: the job as a source delivers it, its status in the table, and its salary bucket.
-- A datetime is the count of microseconds since datetime.min in UTC; a match score, which
-- score_and_filter makes from an integer, is that integer.
pub mod Amount
use job_aggregator.Prelude.{ℕ, String, Bool, true, false, Option}
use job_aggregator.Models.Amount.{ℤ}

pub data JobStatus : Type 0 where
  new active stale deleted : JobStatus

pub data SalaryBucket : Type 0 where
  pass unknown fail : SalaryBucket

pub record Job : Type 0 where
  pub job_uid : String
  pub source : String
  pub source_native_id : Option String
  pub title : String
  pub company : String
  pub location : Option String
  pub is_remote : Option Bool
  pub url : String
  pub description : Option String
  pub salary_min : Option ℤ
  pub salary_max : Option ℤ
  pub salary_currency : Option String
  pub salary_period : Option String
  pub salary_raw : Option String
  pub salary_parsed : Bool
  pub salary_bucket : Option SalaryBucket
  pub posted_at : Option ℕ
  pub match_score : Option ℕ
  pub is_internship : Bool

-- Equality of the stored status words.
abbrev pub is_new : JobStatus → Bool
is_new JobStatus.new = true
is_new _ = false

abbrev pub is_stale : JobStatus → Bool
is_stale JobStatus.stale = true
is_stale _ = false

abbrev pub is_deleted : JobStatus → Bool
is_deleted JobStatus.deleted = true
is_deleted _ = false

-- status IN ('new', 'active')
abbrev pub is_live : JobStatus → Bool
is_live JobStatus.new = true
is_live JobStatus.active = true
is_live _ = false
