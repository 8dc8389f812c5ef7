-- ===== src/Pipeline/Stale/Rows.antt =====
-- The loop of UPDATEs against a description of what one pass does to one row.
use job_aggregator.Prelude.{
  ℕ, ◌+◌, String, Bool, true, ◌&&◌, some, List, [], ◌∷◌, ◌==◌, ◌≡◌, refl, ap, ap₂, ltb, eq_iff,
  arith, map, total, to_ℕ, coalesce, contains, contains-sorted, sorted, if◌then◌else◌, fun_ext, sym,
  ◌∙◌,
}
use job_aggregator.Clock.{minus_days}
use job_aggregator.Models.{JobStatus}
use job_aggregator.Models.Amount.{ℤ}
use job_aggregator.Storage.{Row, update}
use job_aggregator.Pipeline.Stale.{
  Expiry, set_status, soft_due, hard_due, expire_source, expire_sources, expire_stale,
}

module _ (julianday : ℕ → ℕ) (e : Expiry) where
  -- Not seen in this cycle; for a windowed source also posted before the retirement cutoff.
  abbrev pub is_missing : Row → Bool
  is_missing r =
      ltb r.last_seen_cycle e.run_id
      && (if contains e.windowed r.source
          then ltb (julianday (coalesce r.posted_at r.first_seen_at)) (julianday e.retire)
          else true)

  -- Last seen before the grace window.
  abbrev pub is_old : Row → Bool
  is_old r = ltb (julianday r.last_seen_at) (julianday e.cutoff)

  -- The status of a row after the pass, when its source succeeded.
  abbrev pub status_after : JobStatus → Bool → Bool → JobStatus
  status_after JobStatus.deleted missing old = JobStatus.deleted
  status_after JobStatus.stale missing old = if old then JobStatus.deleted else JobStatus.stale
  status_after s missing old =
      if missing then (if old then JobStatus.deleted else JobStatus.stale) else s

  -- How many status changes the pass makes to the row.
  abbrev pub changes : JobStatus → Bool → Bool → ℕ
  changes JobStatus.deleted missing old = 0
  changes JobStatus.stale missing old = to_ℕ old
  changes s missing old = if missing then 1 + to_ℕ old else 0

  abbrev pub expire_row : Row → Row
  expire_row r = set_status (status_after r.status (is_missing r) (is_old r)) r

  abbrev pub row_changes : Row → ℕ
  row_changes r = changes r.status (is_missing r) (is_old r)

  -- One row under the loop body for one source.
  visit : String → Row → Row
  visit source r = if r.source == source then expire_row r else r

  visit_changes : String → Row → ℕ
  visit_changes source r = if r.source == source then row_changes r else 0

  expire_source-rows :
      (source : String) (rows : List Row)
      → (expire_source julianday e rows source).0 ≡ map (visit source) rows
  unfolding expire_source soft_due hard_due update visit
  expire_source-rows source [] = refl
  expire_source-rows source (r ∷ rows) =
      ap₂ ◌∷◌ (ground (arith, eq_iff r.source source)) (expire_source-rows source rows)

  expire_source-changes :
      (source : String) (rows : List Row)
      → (expire_source julianday e rows source).1 ≡ total (visit_changes source) rows
  unfolding expire_source soft_due hard_due update visit_changes
  expire_source-changes source [] = refl
  expire_source-changes source (r ∷ rows) =
      ground (arith, eq_iff r.source source, expire_source-changes source rows)

  -- One row under the whole pass.
  abbrev pub expired : List String → Row → Row
  expired sources r = if contains sources r.source then expire_row r else r

  abbrev pub expired_changes : List String → Row → ℕ
  expired_changes sources r = if contains sources r.source then row_changes r else 0

  expired-visit :
      (source : String) (sources : List String) (r : Row)
      → expired sources (visit source r) ≡ expired (source ∷ sources) r
  unfolding visit contains
  expired-visit source sources r = ground (arith, eq_iff r.source source, eq_iff source r.source)

  changes-visit :
      (source : String) (sources : List String) (r : Row)
      → visit_changes source r + expired_changes sources (visit source r)
        ≡ expired_changes (source ∷ sources) r
  unfolding visit visit_changes contains
  changes-visit source sources r = ground (arith, eq_iff r.source source, eq_iff source r.source)

  map-visit :
      (source : String) (sources : List String) (rows : List Row)
      → map (expired sources) (map (visit source) rows) ≡ map (expired (source ∷ sources)) rows
  map-visit source sources [] = refl
  map-visit source sources (r ∷ rows) =
      ap₂ ◌∷◌ (expired-visit source sources r) (map-visit source sources rows)

  total-visit :
      (source : String) (sources : List String) (rows : List Row)
      → total (visit_changes source) rows
          + total (expired_changes sources) (map (visit source) rows)
        ≡ total (expired_changes (source ∷ sources)) rows
  total-visit source sources [] = refl
  total-visit source sources (r ∷ rows) =
      omega (arith, changes-visit source sources r, total-visit source sources rows)

  map-expired-nil : (rows : List Row) → map (expired []) rows ≡ rows
  unfolding contains
  map-expired-nil [] = refl
  map-expired-nil (r ∷ rows) = ap (◌∷◌ r) (map-expired-nil rows)

  total-expired-nil : (rows : List Row) → total (expired_changes []) rows ≡ 0
  unfolding contains
  total-expired-nil [] = refl
  total-expired-nil (r ∷ rows) = omega (arith, total-expired-nil rows)

  pub expire_sources-rows :
      (sources : List String) (rows : List Row) (n : ℕ)
      → (expire_sources julianday e rows sources n).0 ≡ map (expired sources) rows
  unfolding expire_sources
  expire_sources-rows [] rows n = sym (map-expired-nil rows)
  expire_sources-rows (source ∷ sources) rows n =
      expire_sources-rows sources _ _
      ∙ ap (map (expired sources)) (expire_source-rows source rows)
      ∙ map-visit source sources rows

  expire_sources-changes :
      (sources : List String) (rows : List Row) (n : ℕ)
      → (expire_sources julianday e rows sources n).1 ≡ n + total (expired_changes sources) rows
  unfolding expire_sources
  expire_sources-changes [] rows n = omega (arith, total-expired-nil rows)
  expire_sources-changes (source ∷ sources) rows n = omega (
    arith,
    expire_sources-changes sources (expire_source julianday e rows source).0
        (n + (expire_source julianday e rows source).1),
    ap (total (expired_changes sources)) (expire_source-rows source rows),
    expire_source-changes source rows,
    total-visit source sources rows,
  )

  expired-sorted :
      (sources : List String) (r : Row) → expired (sorted sources) r ≡ expired sources r
  expired-sorted sources r = rw contains-sorted

  expired_changes-sorted :
      (sources : List String) (r : Row)
      → expired_changes (sorted sources) r ≡ expired_changes sources r
  expired_changes-sorted sources r = rw contains-sorted

-- The cutoffs that expire_stale computes from its two readings of the clock.
abbrev pub HasCutoffs : ℕ → ℕ → ℤ → ℤ → Expiry → Type 0
HasCutoffs now now' grace_days windowed_retire_days e =
    (minus_days now grace_days ≡ some e.cutoff)
    × (minus_days now' windowed_retire_days ≡ some e.retire)

-- When both cutoffs are representable, the pass maps every row of a succeeded source to its status
-- after the pass, leaves every other row as it is, and returns the number of status changes.
pub expire_stale-rows :
    (julianday : ℕ → ℕ) (rows : List Row) (succeeded : List String) (grace_days retire_days : ℤ)
    (now now' : ℕ) (e : Expiry)
    → HasCutoffs now now' grace_days retire_days e
    → expire_stale julianday rows e.run_id succeeded grace_days retire_days now now' e.windowed
      ≡ some (
        map (expired julianday e succeeded) rows,
        total (expired_changes julianday e succeeded) rows,
      )
unfolding expire_stale
expire_stale-rows julianday rows succeeded grace_days retire_days now now' e h =
    rw (h.0, h.1) (ap some (λ i. (rows_eq i, count_eq i)))
  where
    rows_eq :
        (expire_sources julianday e rows (sorted succeeded) 0).0
        ≡ map (expired julianday e succeeded) rows
    rows_eq =
        expire_sources-rows julianday e (sorted succeeded) rows 0
        ∙ ap (λ (f : Row → Row). map f rows) (fun_ext (expired-sorted julianday e succeeded))

    count_eq :
        (expire_sources julianday e rows (sorted succeeded) 0).1
        ≡ total (expired_changes julianday e succeeded) rows
    count_eq = omega (
      arith,
      expire_sources-changes julianday e (sorted succeeded) rows 0,
      ap (λ (f : Row → ℕ). total f rows) (fun_ext (expired_changes-sorted julianday e succeeded)),
    )
