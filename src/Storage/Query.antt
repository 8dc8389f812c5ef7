-- ===== src/Storage/Query.antt =====
-- _build_where, get_jobs, count_jobs and count_by_status of storage/jobs_repo.py. LIKE and ORDER BY
-- are SQLite's.
pub mod Pages
pub mod Visible
use Prim.Native.String.{◌++◌}
use job_aggregator.Prelude.{
  ℕ, zero, String, Bool, true, false, not, ◌&&◌, ◌||◌, Option, none, some, List, [], ◌∷◌, ◌==◌, ◌+◌,
  filter, count, length, any, eqb, min, max, take, drop, holds, if◌then◌else◌,
}
use job_aggregator.Models.{Job, JobStatus, SalaryBucket, is_deleted, is_stale}
use job_aggregator.Models.Amount.{ℤ, pos, negsuc}
use job_aggregator.Storage.{Row}

abbrev pub max_page_limit : ℕ
max_page_limit = 200

-- The filter arguments of get_jobs and count_jobs.
pub record Filters : Type 0 where
  pub q : Option String
  pub source : Option String
  pub remote : Option Bool
  pub bucket : Option String
  pub status : Option (List String)
  pub include_hidden : Bool
  pub applied : Option Bool
  pub bookmarked : Option Bool

abbrev pub status_value : JobStatus → String
status_value JobStatus.new = "new"
status_value JobStatus.active = "active"
status_value JobStatus.stale = "stale"
status_value JobStatus.deleted = "deleted"

abbrev pub bucket_value : SalaryBucket → String
bucket_value SalaryBucket.pass = "pass"
bucket_value SalaryBucket.unknown = "unknown"
bucket_value SalaryBucket.fail = "fail"

abbrev pub same_bool : Bool → Bool → Bool
same_bool true b = b
same_bool false b = not b

-- A clause that stands in the WHERE only when its argument is given.
abbrev pub given {ℓ} : {A : Type ℓ} → Option A → (A → Bool) → Bool
given none clause = true
given (some a) clause = clause a

-- The clause on the status: the listed words, or what is listed by default.
unfoldable pub status_clause : Option (List String) → Bool → Row → Bool
status_clause (some words) include_hidden r = any (λ w. w == status_value r.status) words
status_clause none include_hidden r =
    if include_hidden
    then not (is_deleted r.status)
    else not (is_deleted r.status) && (not (is_stale r.status) || r.applied || r.bookmarked)

-- _SORT_SQL
pub data SortKey : Type 0 where
  score posted company : SortKey

unfoldable pub sort_key : String → SortKey
sort_key sort = if sort == "posted" then posted else if sort == "company" then company else score

-- max(1, min(limit, MAX_PAGE_LIMIT))
unfoldable pub clamp_limit : ℤ → ℕ
clamp_limit (pos n) = max 1 (min n max_page_limit)
clamp_limit (negsuc n) = 1

-- max(0, offset)
unfoldable pub clamp_offset : ℤ → ℕ
clamp_offset (pos n) = n
clamp_offset (negsuc n) = 0

module _ (like : String → String → Bool) where
  -- The WHERE clause.
  unfoldable pub matches : Filters → Row → Bool
  unfolding status_clause
  matches f r =
      given f.q (λ q. q == "" || like r.title ("%" ++ q ++ "%") || like r.company ("%" ++ q ++ "%"))
      && given f.source (λ s. r.source == s)
      && given f.bucket (λ b. holds (λ v. bucket_value v == b) r.salary_bucket)
      && given f.remote (λ b. holds (same_bool b) r.is_remote)
      && given f.applied (same_bool r.applied)
      && given f.bookmarked (same_bool r.bookmarked)
      && status_clause f.status f.include_hidden r
      && (f.include_hidden || not r.hidden)

  unfoldable pub get_jobs :
      (SortKey → List Row → List Row) → List Row → Filters → String → ℤ → ℤ → List Row
  unfolding sort_key clamp_limit clamp_offset matches
  get_jobs order rows f sort limit offset =
      take (clamp_limit limit)
        (drop (clamp_offset offset) (order (sort_key sort) (filter (matches f) rows)))

  unfoldable pub count_jobs : List Row → Filters → ℕ
  unfolding matches
  count_jobs rows f = count (matches f) rows

-- The entry of a status in the dict of counts; a status with no row has none.
unfoldable pub count_by_status : List Row → JobStatus → Option ℕ
count_by_status rows s =
    let n = count (λ r. status_value r.status == status_value s) rows in
    if eqb n 0 then none else some n
