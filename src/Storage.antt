-- ===== src/Storage.antt =====
-- storage/: the jobs table. A row is the posting's own columns, which are the fields of `Job`, and
-- the persistence columns. The table is the list of its rows in insertion order.
pub mod Table
pub mod Flags
pub mod Query
pub mod Retire
pub mod Runs
pub mod Upsert
use job_aggregator.Prelude.{ℕ, String, Bool, Option, none, some, List, [], ◌∷◌, ◌==◌, if◌then◌else◌}
use job_aggregator.Models.{Job, JobStatus}

pub record Row : Type 0 where
  pub job : Job
  pub open job use *
  pub first_seen_at : ℕ
  pub last_seen_at : ℕ
  pub last_seen_cycle : ℕ
  pub status : JobStatus
  pub applied : Bool
  pub bookmarked : Bool
  pub hidden : Bool
  pub seen : Bool
  pub notes : Option String
  pub extra_context : Option String
  pub full_description : Option String
  pub closure_checked_at : Option ℕ

-- SELECT * FROM jobs WHERE job_uid = ?
unfoldable pub find : String → List Row → Option Row
find uid [] = none
find uid (r ∷ rows) = if r.job_uid == uid then some r else find uid rows

-- UPDATE jobs SET (change) WHERE (test)
unfoldable pub update : (Row → Bool) → (Row → Row) → List Row → List Row
update test change [] = []
update test change (r ∷ rows) = (if test r then change r else r) ∷ update test change rows
