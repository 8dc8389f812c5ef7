-- ===== src/Sources/Closure/Budget.antt =====
-- How many requests a sweep sends, and to whom.
use job_aggregator.Prelude.{
  ℕ, ◌≤◌, String, true, false, List, [], ◌∷◌, ◌==◌, ◌≡◌, refl, ◌∙◌, length, count, contains,
  contains-add, eq_iff, arith, Bool-cases, inl, inr,
}
use job_aggregator.Storage.{Row}
use job_aggregator.Sources.Closure.{Site, Sweep, check_row, is_over, visit_row, sweep_rows}

-- The budget used is the number of requests sent, and is within the limit.
pub record IsWithin (limit : ℕ) (s : Sweep) : Type 0 where
  pub counted : length s.requests ≡ s.checks
  pub bounded : s.checks ≤ limit

module _ (site : Site) (now : ℕ → ℕ) (limit : ℕ) where
  visit_row-IsWithin :
      (s : Sweep) (r : Row)
      → is_over site now limit s ≡ false
      → IsWithin limit s
      → IsWithin limit (visit_row site now limit s r)
  unfolding visit_row check_row is_over
  visit_row-IsWithin s r more h = ground arith

  -- A sweep sends at most `limit` requests, whatever the sites answer.
  pub sweep_rows-IsWithin :
      (due : List Row) (s : Sweep)
      → IsWithin limit s
      → IsWithin limit (sweep_rows site now limit s due)
  unfolding sweep_rows
  sweep_rows-IsWithin [] s h = h
  sweep_rows-IsWithin (r ∷ due) s h = elim (Bool-cases (is_over site now limit s)) [
    | inl over ↦ rw over h
    | inr more ↦ rw more (sweep_rows-IsWithin due _ (visit_row-IsWithin s r more h))
  ]

  visit_row-blocked :
      (source : String) (s : Sweep) (r : Row)
      → contains s.blocked source ≡ true
      → (contains (visit_row site now limit s r).blocked source ≡ true)
        × (count (λ x. x == source) (visit_row site now limit s r).requests
            ≡ count (λ x. x == source) s.requests)
  unfolding visit_row check_row
  visit_row-blocked source s r h =
      ground (arith, contains-add s.blocked r.source source, eq_iff r.source source)

  -- A site that is blocked gets no further request for the rest of the sweep.
  pub sweep_rows-blocked :
      (source : String) (due : List Row) (s : Sweep)
      → contains s.blocked source ≡ true
      → count (λ x. x == source) (sweep_rows site now limit s due).requests
        ≡ count (λ x. x == source) s.requests
  unfolding sweep_rows
  sweep_rows-blocked source [] s h = refl
  sweep_rows-blocked source (r ∷ due) s h =
      let (still, same) = visit_row-blocked source s r h in
      elim (Bool-cases (is_over site now limit s)) [
        | inl over ↦ rw over
        | inr more ↦ rw more (sweep_rows-blocked source due _ still ∙ same)
      ]
