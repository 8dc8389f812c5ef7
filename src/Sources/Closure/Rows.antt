-- ===== src/Sources/Closure/Rows.antt =====
-- What a sweep may do to the stored rows.
use job_aggregator.Prelude.{
  contains, ℕ, String, true, false, ◌||◌, ◌⊎◌, some, List, [], ◌∷◌, ◌==◌, ◌≡◌, refl, ap, ◌∙◌, arith,
  Bool-cases, inl, inr, if◌then◌else◌,
}
use job_aggregator.Storage.{Row, find}
use job_aggregator.Storage.Table.{map_found, find-update_own}
use job_aggregator.Sources.Closure.{
  Site, Sweep, Verdict, is_closed, stamped, record_verdict, check_row, is_over, visit_row,
  sweep_rows,
}

-- `new` is `old` with another stamp of the closure check, and nothing else changed.
abbrev pub Restamped : Row → Row → Type 0
Restamped old new = new ≡ record old { closure_checked_at = new.closure_checked_at }

job_uid-stamped : (v : Verdict) (now : ℕ) (r : Row) → (stamped v now r).job_uid ≡ r.job_uid
unfolding stamped
job_uid-stamped v now r = refl

-- A verdict reaches the row with the job_uid and no other. A posting that the user applied to or
-- bookmarked keeps its status whatever the verdict, and any row keeps it unless the verdict is
-- closed.
pub find-record_verdict :
    (rows : List Row) (uid j : String) (v : Verdict) (now : ℕ)
    → (find j (record_verdict rows uid v now)
        ≡ (if uid == j then map_found (stamped v now) (find j rows) else find j rows))
      × ((r : Row)
          → ((r.applied || r.bookmarked) ≡ true) ⊎ (is_closed v ≡ false)
          → Restamped r (stamped v now r))
unfolding record_verdict
find-record_verdict rows uid j v now = (
  find-update_own (stamped v now) (job_uid-stamped v now) uid j rows,
  λ r why. unfold stamped in ground arith,
)

record_verdict-acted :
    (rows : List Row) (u : String) (v : Verdict) (at : ℕ) (uid : String) (r : Row)
    → find uid rows ≡ some r
    → (r.applied || r.bookmarked) ≡ true
    → (r' : Row) × (find uid (record_verdict rows u v at) ≡ some r') × Restamped r r'
record_verdict-acted rows u v at uid r h acted =
    let (found, keeps) = find-record_verdict rows u uid v at in
    elim (Bool-cases (u == uid)) [
      | inl e ↦ (stamped v at r, rw (found, e, h), keeps r (inl acted))
      | inr e ↦ (r, rw (found, e, h), refl)
    ]

module _ (site : Site) (now : ℕ → ℕ) (limit : ℕ) where
  visit_row-acted :
      (s : Sweep) (due : Row) (uid : String) (r : Row)
      → find uid s.rows ≡ some r
      → (r.applied || r.bookmarked) ≡ true
      → (r' : Row) × (find uid (visit_row site now limit s due).rows ≡ some r') × Restamped r r'
  unfolding visit_row check_row
  visit_row-acted s due uid r h acted = elim (Bool-cases (contains s.blocked due.source)) [
    | inl skip ↦ rw skip (r, h, refl)
    | inr check ↦ rw check (record_verdict-acted s.rows due.job_uid _ _ uid r h acted)
  ]

  -- No sweep changes anything but the stamp of a row that the user applied to or bookmarked.
  pub sweep_rows-acted :
      (due : List Row) (s : Sweep) (uid : String) (r : Row)
      → find uid s.rows ≡ some r
      → (r.applied || r.bookmarked) ≡ true
      → (r' : Row) × (find uid (sweep_rows site now limit s due).rows ≡ some r') × Restamped r r'
  unfolding sweep_rows
  sweep_rows-acted [] s uid r h acted = (r, h, refl)
  sweep_rows-acted (d ∷ due) s uid r h acted = elim (Bool-cases (is_over site now limit s)) [
    | inl over ↦ rw over (r, h, refl)
    | inr more ↦
        let (r₁, h₁, p₁) = visit_row-acted s d uid r h acted in
        let acted₁ : (r₁.applied || r₁.bookmarked) ≡ true =
          ap (λ (x : Row). x.applied || x.bookmarked) p₁ ∙ acted in
        let (r₂, h₂, p₂) = sweep_rows-acted due (visit_row site now limit s d) uid r₁ h₁ acted₁ in
        rw more (
          r₂,
          h₂,
          p₂ ∙ ap (λ (x : Row). record x { closure_checked_at = r₂.closure_checked_at }) p₁,
        )
  ]
