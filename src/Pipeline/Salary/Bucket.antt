-- ===== src/Pipeline/Salary/Bucket.antt =====
-- The salary buckets under two settings.
use job_aggregator.Prelude.{refl, inl, inl, ◌⊎◌, ℕ, ◌≤◌, Option, none, some, ◌≡◌, arith}
use job_aggregator.Models.{Job, SalaryBucket}
use job_aggregator.Models.Amount.{ℤ, pos, negsuc}
use job_aggregator.Config.{SalaryConfig}
use job_aggregator.Pipeline.Salary.{floor_of, salary_bucket, representative_inr, bucket_at}

-- Every floor of `low` is at most that of `high`.
pub record LowerFloors {F : Type 0} (low high : SalaryConfig F) : Type 0 where
  pub remote : low.min_remote ≤ high.min_remote
  pub in_office : low.min_in_office ≤ high.min_in_office
  pub internship : low.min_internship ≤ high.min_internship

floor_of-le :
    {F : Type 0} (low high : SalaryConfig F) (job : Job)
    → LowerFloors low high
    → floor_of low job ≤ floor_of high job
unfolding floor_of
floor_of-le low high job h = ground arith

bucket_at-lower :
    (m n : ℕ) (rep : Option ℤ)
    → m ≤ n
    → (bucket_at m rep ≡ bucket_at n rep)
      ⊎ ((bucket_at n rep ≡ SalaryBucket.fail) × (bucket_at m rep ≡ SalaryBucket.pass))
bucket_at-lower m n none h = inl refl
bucket_at-lower m n (some (pos k)) h = ground arith
bucket_at-lower m n (some (negsuc k)) h = inl refl

-- Lowering floors leaves the bucket of a posting as it was, or turns fail into pass: no posting
-- loses a pass, and pay does not become known or unknown.
pub salary_bucket-lower :
    {F : Type 0} (low high : SalaryConfig F) (job : Job)
    → LowerFloors low high
    → (salary_bucket low job ≡ salary_bucket high job)
      ⊎ ((salary_bucket high job ≡ SalaryBucket.fail) × (salary_bucket low job ≡ SalaryBucket.pass))
unfolding salary_bucket representative_inr
salary_bucket-lower low high job h = ground (
  arith,
  floor_of-le low high job h,
  bucket_at-lower (floor_of low job) (floor_of high job)
      (representative_inr job.salary_min job.salary_max),
)
