-- ===== src/Pipeline/Stale/Guard.antt =====
-- Which rows expire_stale may not touch, and that a second pass finds nothing to do.
use job_aggregator.Prelude.{
  ℕ, String, true, false, ◌⊎◌, Option, some, List, [], ◌∷◌, ◌≡◌, refl, ap, ap₂, ltb, arith, map,
  total, coalesce, contains, ◌∙◌,
}
use mathlib.Core.Path.{subst}
use job_aggregator.Models.{JobStatus, is_live}
use job_aggregator.Models.Amount.{ℤ}
use job_aggregator.Storage.{Row, find}
use job_aggregator.Storage.Table.{find-map}
use job_aggregator.Pipeline.Stale.{Expiry, expire_stale, set_status}
use job_aggregator.Pipeline.Stale.Rows.{HasCutoffs, expired, expired_changes, expire_stale-rows}

module _ (julianday : ℕ → ℕ) (rows : List Row) (succeeded : List String)
    (grace_days retire_days : ℤ) (now now' : ℕ) (e : Expiry)
    (cutoffs : HasCutoffs now now' grace_days retire_days e) where
  abbrev pass : List Row → Option (List Row × ℕ)
  pass rows =
      expire_stale julianday rows e.run_id succeeded grace_days retire_days now now' e.windowed

  -- The pass returns, and a lookup of `uid` then finds `r`.
  abbrev pub Finds : String → Row → Type 0
  Finds uid r =
      (out : List Row × ℕ) × (expire_stale julianday rows e.run_id succeeded grace_days retire_days
          now now' e.windowed
        ≡ some out)
      × (find uid out.0 ≡ some r)

  job_uid-expired : (r : Row) → (expired julianday e succeeded r).job_uid ≡ r.job_uid
  job_uid-expired r = ground arith

  Finds-expired :
      (uid : String) (r : Row)
      → find uid rows ≡ some r
      → Finds uid (expired julianday e succeeded r)
  Finds-expired uid r h = (
    (map (expired julianday e succeeded) rows, total (expired_changes julianday e succeeded) rows),
    expire_stale-rows julianday rows succeeded grace_days retire_days now now' e cutoffs,
    rw (find-map (expired julianday e succeeded) job_uid-expired uid rows, h),
  )

  -- The stale guard: a row whose source did not succeed in this cycle is found as it was.
  pub expire_stale-failed_source :
      (uid : String) (r : Row)
      → find uid rows ≡ some r
      → contains succeeded r.source ≡ false
      → Finds uid r
  expire_stale-failed_source uid r h unseen =
      let e : expired julianday e succeeded r ≡ r = rw unseen in rw e at (Finds-expired uid r h)

  -- A visible row survives as it is when its posting was seen in this cycle, and also when its
  -- source is windowed and the posting is not older than the retirement cutoff.
  pub expire_stale-alive :
      (uid : String) (r : Row)
      → find uid rows ≡ some r
      → is_live r.status ≡ true
      → (r.last_seen_cycle ≡ e.run_id)
        ⊎ (contains e.windowed r.source ≡ true)
          × (ltb (julianday (coalesce r.posted_at r.first_seen_at)) (julianday e.retire) ≡ false)
      → Finds uid r
  expire_stale-alive uid r h live why =
      let same : expired julianday e succeeded r ≡ r = ground arith in
      rw same at (Finds-expired uid r h)

  -- Whatever the pass does to a row, everything but its status stays; a status only moves on
  -- from new or active to stale and from there to deleted, so a deleted row stays deleted.
  pub expire_stale-status :
      (uid : String) (r : Row)
      → find uid rows ≡ some r
      → (s : JobStatus) × Finds uid (set_status s r)
        × ((s ≡ r.status)
            ⊎ (s ≡ JobStatus.deleted)
            ⊎ (s ≡ JobStatus.stale) × (is_live r.status ≡ true))
  expire_stale-status uid r h = (
    (expired julianday e succeeded r).status,
    let same : expired julianday e succeeded r
            ≡ set_status (expired julianday e succeeded r).status r =
          ground arith in
        subst (Finds uid) same (Finds-expired uid r h),
    ground arith,
  )

  expired_twice :
      (r : Row)
      → expired julianday e succeeded (expired julianday e succeeded r)
        ≡ expired julianday e succeeded r
  expired_twice r = ground arith

  changes_twice :
      (r : Row) → expired_changes julianday e succeeded (expired julianday e succeeded r) ≡ 0
  changes_twice r = ground arith

  map-expired_twice :
      (l : List Row)
      → map (expired julianday e succeeded) (map (expired julianday e succeeded) l)
        ≡ map (expired julianday e succeeded) l
  map-expired_twice [] = refl
  map-expired_twice (r ∷ l) = ap₂ ◌∷◌ (expired_twice r) (map-expired_twice l)

  total-expired_twice :
      (l : List Row)
      → total (expired_changes julianday e succeeded) (map (expired julianday e succeeded) l) ≡ 0
  total-expired_twice [] = refl
  total-expired_twice (r ∷ l) = omega (arith, changes_twice r, total-expired_twice l)

  -- A second pass with the same cutoffs changes no row and returns 0.
  pub expire_stale-twice :
      (out : List Row × ℕ) × (expire_stale julianday rows e.run_id succeeded grace_days retire_days
          now now' e.windowed
        ≡ some out)
      × (expire_stale julianday out.0 e.run_id succeeded grace_days retire_days now now' e.windowed
          ≡ some (out.0, 0))
  expire_stale-twice = (
    (map (expired julianday e succeeded) rows, total (expired_changes julianday e succeeded) rows),
    expire_stale-rows julianday rows succeeded grace_days retire_days now now' e cutoffs,
    expire_stale-rows julianday _ succeeded grace_days retire_days now now' e cutoffs
        ∙ ap some (λ i. (map-expired_twice rows i, total-expired_twice rows i)),
  )
