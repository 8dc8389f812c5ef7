-- ===== src/Storage/Query/Visible.antt =====
-- What the dashboard's default view lists.
use job_aggregator.Prelude.{
  ℕ, ◌+◌, String, Bool, true, false, not, ◌&&◌, ◌||◌, Option, none, some, List, [], ◌∷◌, ◌≡◌, refl,
  count, to_ℕ, length, arith, ◌==◌,
}
use job_aggregator.Models.{JobStatus, is_deleted}
use job_aggregator.Storage.{Row}
use job_aggregator.Storage.Query.{Filters, matches, count_by_status, status_value}

-- No filter but the flag that shows hidden rows.
abbrev pub unfiltered : Bool → Filters
unfiltered include_hidden = record {
  q = none;
  source = none;
  remote = none;
  bucket = none;
  status = none;
  include_hidden = include_hidden;
  applied = none;
  bookmarked = none;
}

-- Whether the default view lists a row with this status and these flags.
abbrev pub is_listed : JobStatus → Bool → Bool → Bool
is_listed JobStatus.deleted acted hidden = false
is_listed JobStatus.stale acted hidden = acted && not hidden
is_listed _ acted hidden = not hidden

-- The view with no filter lists exactly the rows that are new, active, or stale and applied or
-- bookmarked, and not hidden; asked for hidden rows it lists all that are not deleted.
pub matches-unfiltered :
    (like : String → String → Bool) (r : Row)
    → (matches like (unfiltered false) r ≡ is_listed r.status (r.applied || r.bookmarked) r.hidden)
      × (matches like (unfiltered true) r ≡ not (is_deleted r.status))
unfolding matches
matches-unfiltered like r = ground arith

-- The number that count_by_status reports for a status, 0 where it reports none.
abbrev pub reported : Option ℕ → ℕ
reported none = 0
reported (some n) = n

one_status :
    (s : JobStatus)
    → to_ℕ (status_value s == "new")
        + to_ℕ (status_value s == "active")
        + to_ℕ (status_value s == "stale")
        + to_ℕ (status_value s == "deleted")
      ≡ 1
one_status JobStatus.new = refl
one_status _ = refl

count_statuses :
    (rows : List Row)
    → count (λ r. status_value r.status == "new") rows
        + count (λ r. status_value r.status == "active") rows
        + count (λ r. status_value r.status == "stale") rows
        + count (λ r. status_value r.status == "deleted") rows
      ≡ length rows
count_statuses [] = refl
count_statuses (r ∷ rows) = omega (arith, one_status r.status, count_statuses rows)

-- The reported counts add up to the number of rows of the table.
pub count_by_status-total :
    (rows : List Row)
    → reported (count_by_status rows JobStatus.new)
        + reported (count_by_status rows JobStatus.active)
        + reported (count_by_status rows JobStatus.stale)
        + reported (count_by_status rows JobStatus.deleted)
      ≡ length rows
unfolding count_by_status
count_by_status-total rows = ground (arith, count_statuses rows)
