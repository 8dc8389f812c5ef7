-- ===== src/Storage/Upsert.antt =====
-- upsert_job of storage/jobs_repo.py: INSERT .. ON CONFLICT(job_uid) DO UPDATE as one pass over
-- the table.
pub mod Lookup
pub mod Provenance
use job_aggregator.Prelude.{
  ℕ, String, Bool, true, false, not, ◌&&◌, ◌||◌, Option, none, some, List, [], ◌∷◌, ◌==◌, eqb,
  is_some, if◌then◌else◌,
}
use job_aggregator.Models.{Job, JobStatus}
use job_aggregator.Storage.{Row, find}

pub data UpsertOutcome : Type 0 where
  inserted updated : UpsertOutcome

-- a IS NOT b on nullable text
abbrev pub is_not : Option String → Option String → Bool
is_not none none = false
is_not none (some b) = true
is_not (some a) none = true
is_not (some a) (some b) = not (a == b)

-- The condition _RELINKED, `old` being the stored row.
unfoldable pub relinked : Job → ℕ → Row → Bool
relinked job run_id old =
    job.source == old.source
    && not old.applied
    && not old.bookmarked
    && not (eqb old.last_seen_cycle run_id)
    && (is_not job.source_native_id old.source_native_id
        || not (is_some job.source_native_id) && not (job.url == old.url))

-- The row of the INSERT; the columns it does not name take their defaults.
unfoldable pub insert_row : Job → ℕ → ℕ → Row
insert_row job run_id now = record {
  job = job;
  first_seen_at = now;
  last_seen_at = now;
  last_seen_cycle = run_id;
  status = JobStatus.new;
  applied = false;
  bookmarked = false;
  hidden = false;
  seen = false;
  notes = none;
  extra_context = none;
  full_description = none;
  closure_checked_at = none;
}

-- The DO UPDATE clause. Every SET expression reads the row as it was.
unfoldable pub refresh_row : Job → ℕ → ℕ → Row → Row
unfolding relinked
refresh_row job run_id now old =
    let moved = relinked job run_id old in
    record old {
      job = record job {
        job_uid = old.job_uid;
        source = old.source;
        url = if moved then job.url else old.url;
        source_native_id = if moved then job.source_native_id else old.source_native_id;
      };
      last_seen_at = now;
      last_seen_cycle = run_id;
      status = JobStatus.active;
      full_description = if moved then none else old.full_description;
      closure_checked_at = if moved then none else old.closure_checked_at;
    }

unfoldable pub upsert_row : Job → ℕ → ℕ → List Row → List Row
upsert_row job run_id now [] = insert_row job run_id now ∷ []
upsert_row job run_id now (r ∷ rows) =
    if r.job_uid == job.job_uid
    then refresh_row job run_id now r ∷ rows
    else r ∷ upsert_row job run_id now rows

-- The new table, and "new" on INSERT or "updated" on conflict.
unfoldable pub upsert_job : List Row → Job → ℕ → ℕ → List Row × UpsertOutcome
unfolding upsert_row find
upsert_job rows job run_id now =
    (upsert_row job run_id now rows, if is_some (find job.job_uid rows) then updated else inserted)
