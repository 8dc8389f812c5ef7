-- ===== src/Storage/Upsert/Lookup.antt =====
-- What a lookup by job_uid sees after upsert_job, and that the primary key stays a key.
use job_aggregator.Prelude.{
  ℕ, ◌+◌, String, Option, none, some, List, [], ◌∷◌, ◌≡◌, refl, arith, ◌==◌, eq_iff, if◌then◌else◌,
  inl, inr, Bool-cases, length, is_some,
}
use job_aggregator.Models.{Job}
use job_aggregator.Storage.{Row, find}
use job_aggregator.Storage.Table.{IsKeyed}
use job_aggregator.Storage.Upsert.{
  UpsertOutcome, inserted, updated, insert_row, refresh_row, upsert_row, upsert_job,
}

module _ (job : Job) (run_id now : ℕ) where
  -- The row that the upsert leaves for the posting, from the row that was stored.
  abbrev pub merged : Option Row → Row
  merged none = insert_row job run_id now
  merged (some old) = refresh_row job run_id now old

  find-upsert_row :
      (uid : String) (rows : List Row)
      → find uid (upsert_row job run_id now rows)
        ≡ (if job.job_uid == uid then some (merged (find job.job_uid rows)) else find uid rows)
  unfolding find upsert_row insert_row refresh_row
  find-upsert_row uid [] = refl
  find-upsert_row uid (r ∷ rows) = ground (
    arith,
    eq_iff r.job_uid job.job_uid,
    eq_iff r.job_uid uid,
    eq_iff job.job_uid uid,
    find-upsert_row uid rows,
  )

  -- After an upsert a lookup of the posting's own job_uid finds the merged row, and a lookup of
  -- any other job_uid finds what it found before.
  pub find-upsert :
      (uid : String) (rows : List Row)
      → find uid (upsert_job rows job run_id now).0
        ≡ (if job.job_uid == uid then some (merged (find job.job_uid rows)) else find uid rows)
  unfolding upsert_job
  find-upsert uid rows = find-upsert_row uid rows

  IsKeyed-upsert_row : (rows : List Row) → IsKeyed rows → IsKeyed (upsert_row job run_id now rows)
  unfolding upsert_row find
  IsKeyed-upsert_row [] h = (refl, tt)
  IsKeyed-upsert_row (r ∷ rows) h = elim (Bool-cases (r.job_uid == job.job_uid)) [
    | inl e ↦ rw e (unfold refresh_row in h)
    | inr e ↦ rw e (
      ground (
        arith,
        find-upsert_row r.job_uid rows,
        eq_iff job.job_uid r.job_uid,
        eq_iff r.job_uid job.job_uid,
        h.0,
      ),
      IsKeyed-upsert_row rows h.1,
    )
  ]

  -- A table with one row for each job_uid keeps one row for each job_uid.
  pub IsKeyed-upsert : (rows : List Row) → IsKeyed rows → IsKeyed (upsert_job rows job run_id now).0
  unfolding upsert_job
  IsKeyed-upsert rows h = IsKeyed-upsert_row rows h

  abbrev pub inserted_rows : UpsertOutcome → ℕ
  inserted_rows inserted = 1
  inserted_rows updated = 0

  length-upsert_row :
      (rows : List Row)
      → length (upsert_row job run_id now rows)
        ≡ length rows
          + inserted_rows (if is_some (find job.job_uid rows) then updated else inserted)
  unfolding upsert_row find
  length-upsert_row [] = refl
  length-upsert_row (r ∷ rows) = ground (arith, length-upsert_row rows)

  -- The table grows by one row when the outcome is "new", and by none when it is "updated".
  pub length-upsert :
      (rows : List Row)
      → length (upsert_job rows job run_id now).0
        ≡ length rows + inserted_rows (upsert_job rows job run_id now).1
  unfolding upsert_job
  length-upsert rows = length-upsert_row rows
