-- ===== src/Pipeline/Stale.antt =====
-- expire_stale of pipeline/stale.py. `julianday` is SQLite's function on the stored instants.
pub mod Rows
pub mod Guard
use job_aggregator.Prelude.{
  ℕ, zero, ◌+◌, String, Bool, true, ◌&&◌, Option, none, some, List, [], ◌∷◌, ◌==◌, ltb, ◌>>=◌,
  coalesce, contains, sorted, if◌then◌else◌,
}
use job_aggregator.Clock.{minus_days}
use job_aggregator.Models.{JobStatus, is_live, is_stale}
use job_aggregator.Models.Amount.{ℤ}
use job_aggregator.Storage.{Row, update}
use job_aggregator.Storage.Table.{rowcount}

-- The cutoffs that one pass works with.
pub record Expiry : Type 0 where
  pub run_id : ℕ
  pub cutoff : ℕ
  pub retire : ℕ
  pub windowed : List String

abbrev pub set_status : JobStatus → Row → Row
set_status s r = record r { status = s }

module _ (julianday : ℕ → ℕ) (e : Expiry) where
  -- The WHERE clause of the soft UPDATE, which for a windowed source asks for the posting's age.
  unfoldable pub soft_due : String → Row → Bool
  soft_due source r =
      r.source == source
      && ltb r.last_seen_cycle e.run_id
      && is_live r.status
      && (if contains e.windowed source
          then ltb (julianday (coalesce r.posted_at r.first_seen_at)) (julianday e.retire)
          else true)

  -- The WHERE clause of the hard UPDATE.
  unfoldable pub hard_due : String → Row → Bool
  hard_due source r =
      r.source == source && is_stale r.status && ltb (julianday r.last_seen_at) (julianday e.cutoff)

  -- The loop body: both UPDATEs for one source, and the rows that they changed.
  unfoldable pub expire_source : List Row → String → List Row × ℕ
  expire_source rows source =
      let softened = update (soft_due source) (set_status JobStatus.stale) rows in
      (
        update (hard_due source) (set_status JobStatus.deleted) softened,
        rowcount (soft_due source) rows + rowcount (hard_due source) softened,
      )

  unfoldable pub expire_sources : List Row → List String → ℕ → List Row × ℕ
  expire_sources rows [] n = (rows, n)
  expire_sources rows (source ∷ sources) n =
      let step = expire_source rows source in expire_sources step.0 sources (n + step.1)

-- The whole function. The clock is read for each cutoff; `none` is an OverflowError of the cutoffs, raised before any UPDATE.
unfoldable pub expire_stale :
    (ℕ → ℕ) → List Row → ℕ → List String → ℤ → ℤ → ℕ → ℕ → List String → Option (List Row × ℕ)
unfolding expire_sources
expire_stale julianday rows run_id succeeded grace_days windowed_retire_days now now' windowed = do
  cutoff ← minus_days now grace_days
  retire ← minus_days now' windowed_retire_days
  let e : Expiry = record { run_id = run_id; cutoff = cutoff; retire = retire; windowed = windowed }
  some (expire_sources julianday e rows (sorted succeeded) 0)
