-- ===== src/Storage/Upsert/Provenance.antt =====
-- What a re-fetch may not change: the user's columns, first-seen provenance, and the link and
-- cached description of a row that the user acted on.
use job_aggregator.Prelude.{ℕ, true, false, ◌||◌, some, List, ◌≡◌, refl, arith}
use text.Mathlib.TextPositions.{eq_refl}
use job_aggregator.Models.{Job}
use job_aggregator.Storage.{Row, find}
use job_aggregator.Storage.Upsert.{relinked, refresh_row, upsert_job}
use job_aggregator.Storage.Upsert.Lookup.{find-upsert}

-- `new` has the user's columns and the first-seen provenance of `old`.
pub record KeepsUserColumns (old new : Row) : Type 0 where
  pub source : new.source ≡ old.source
  pub first_seen_at : new.first_seen_at ≡ old.first_seen_at
  pub applied : new.applied ≡ old.applied
  pub bookmarked : new.bookmarked ≡ old.bookmarked
  pub hidden : new.hidden ≡ old.hidden
  pub seen : new.seen ≡ old.seen
  pub notes : new.notes ≡ old.notes
  pub extra_context : new.extra_context ≡ old.extra_context

-- `new` links to the posting that `old` links to, with the same cached description.
pub record SameLink (old new : Row) : Type 0 where
  pub url : new.url ≡ old.url
  pub source_native_id : new.source_native_id ≡ old.source_native_id
  pub full_description : new.full_description ≡ old.full_description
  pub closure_checked_at : new.closure_checked_at ≡ old.closure_checked_at

pub refresh_row-KeepsUserColumns :
    (job : Job) (run_id now : ℕ) (old : Row) → KeepsUserColumns old (refresh_row job run_id now old)
unfolding refresh_row
refresh_row-KeepsUserColumns job run_id now old = record {
  source = refl;
  first_seen_at = refl;
  applied = refl;
  bookmarked = refl;
  hidden = refl;
  seen = refl;
  notes = refl;
  extra_context = refl;
}

-- The link of a row is kept whenever the condition for a new link is not met.
pub refresh_row-SameLink :
    (job : Job) (run_id now : ℕ) (old : Row)
    → relinked job run_id old ≡ false
    → SameLink old (refresh_row job run_id now old)
unfolding refresh_row
refresh_row-SameLink job run_id now old h = record {
  url = rw h;
  source_native_id = rw h;
  full_description = rw h;
  closure_checked_at = rw h;
}

relinked_acted :
    (job : Job) (run_id : ℕ) (old : Row)
    → (old.applied || old.bookmarked) ≡ true
    → relinked job run_id old ≡ false
unfolding relinked
relinked_acted job run_id old h = ground arith

relinked_same_run :
    (job : Job) (run_id now : ℕ) (old : Row) (job' : Job)
    → relinked job' run_id (refresh_row job run_id now old) ≡ false
unfolding refresh_row relinked
relinked_same_run job run_id now old job' = ground arith

module _ (rows : List Row) (job : Job) (run_id now : ℕ) (old : Row)
    (stored : find job.job_uid rows ≡ some old) where
  find-upsert_stored :
      find job.job_uid (upsert_job rows job run_id now).0 ≡ some (refresh_row job run_id now old)
  find-upsert_stored = rw (find-upsert job run_id now job.job_uid rows, eq_refl job.job_uid, stored)

  -- A stored row survives the re-fetch of its posting: the row is still there, with the user's
  -- columns, the source and the first-seen time that it had.
  pub upsert-KeepsUserColumns :
      (new : Row) × (find job.job_uid (upsert_job rows job run_id now).0 ≡ some new)
      × KeepsUserColumns old new
  upsert-KeepsUserColumns = (
    refresh_row job run_id now old,
    find-upsert_stored,
    refresh_row-KeepsUserColumns job run_id now old,
  )

  -- The link, the posting id, the cached description and the closure check of a row that the
  -- user applied to or bookmarked are those that it had.
  pub upsert-SameLink :
      (old.applied || old.bookmarked) ≡ true
      → (new : Row) × (find job.job_uid (upsert_job rows job run_id now).0 ≡ some new)
        × SameLink old new
  upsert-SameLink acted = (
    refresh_row job run_id now old,
    find-upsert_stored,
    refresh_row-SameLink job run_id now old (relinked_acted job run_id old acted),
  )

  -- A second sighting in the same run, whatever it links to, does not move the link again.
  pub upsert-upsert_same_run :
      (job' : Job) (now' : ℕ)
      → job'.job_uid ≡ job.job_uid
      → (new : Row) × (find job'.job_uid
            (upsert_job (upsert_job rows job run_id now).0 job' run_id now').0
          ≡ some new)
        × SameLink (refresh_row job run_id now old) new
  upsert-upsert_same_run job' now' same = (
    refresh_row job' run_id now' (refresh_row job run_id now old),
    rw (
      find-upsert job' run_id now' job'.job_uid _,
      eq_refl job'.job_uid,
      same,
      find-upsert_stored,
    ),
    refresh_row-SameLink job' run_id now' _ (relinked_same_run job run_id now old job'),
  )
