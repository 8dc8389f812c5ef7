-- ===== src/Storage/Retire.antt =====
-- refilter_candidates, retire_jobs, jobs_new_in_run and recent_active_jobs of
-- storage/jobs_repo.py. A stored row decodes to the job that it holds, `_row_to_job`.
pub mod Laws
use job_aggregator.Prelude.{
  ℕ, zero, ◌+◌, String, Bool, true, false, not, ◌&&◌, ◌||◌, Option, none, some, List, [], ◌∷◌, ◌==◌,
  filter, map, eqb, coalesce, take, if◌then◌else◌,
}
use job_aggregator.Models.{Job, JobStatus, is_deleted, is_new, is_live}
use job_aggregator.Models.Amount.{ℤ, pos, negsuc}
use job_aggregator.Storage.{Row, update}
use job_aggregator.Storage.Table.{rowcount}

abbrev pub row_to_job : Row → Job
row_to_job r = r.job

-- status != 'deleted' AND applied = 0 AND bookmarked = 0
unfoldable pub is_candidate : Row → Bool
is_candidate r = not (is_deleted r.status) && not r.applied && not r.bookmarked

-- row["full_description"] or job.description
unfoldable pub best_description : Option String → Option String → Option String
best_description none d = d
best_description (some t) d = if t == "" then d else some t

unfoldable pub candidate_job : Row → Job
unfolding best_description
candidate_job r = record (row_to_job r) {
  description = best_description r.full_description r.description;
}

unfoldable pub refilter_candidates : List Row → List Job
unfolding is_candidate candidate_job
refilter_candidates rows = map candidate_job (filter is_candidate rows)

unfoldable pub set_deleted : Row → Row
set_deleted r = record r { status = JobStatus.deleted }

-- executemany over the job_uids, and the rows that it changed
unfoldable pub retire_jobs : List Row → List String → List Row × ℕ
unfolding is_candidate set_deleted
retire_jobs rows [] = (rows, 0)
retire_jobs rows (uid ∷ uids) =
    let own : Row → Bool = λ r. r.job_uid == uid && is_candidate r in
    let rest = retire_jobs (update own set_deleted rows) uids in
    (rest.0, rowcount own rows + rest.1)

-- LIMIT n: a negative limit is none
unfoldable pub limited {ℓ} : {A : Type ℓ} → ℤ → List A → List A
limited (pos n) rows = take n rows
limited (negsuc n) rows = rows

-- `order` is the statement's ORDER BY, which SQLite carries out.
module _ (order : List Row → List Row) where
  unfoldable pub jobs_new_in_run : List Row → ℕ → List Job
  jobs_new_in_run rows run_id =
      map row_to_job (order (filter (λ r. is_new r.status && eqb r.last_seen_cycle run_id) rows))

  unfoldable pub recent_active_jobs : List Row → ℤ → List Job
  unfolding limited
  recent_active_jobs rows limit =
      map row_to_job (limited limit (order (filter (λ r. is_live r.status && not r.hidden) rows)))
