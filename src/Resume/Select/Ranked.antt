-- ===== src/Resume/Select/Ranked.antt =====
-- The ranking is a stable sort, and the selection takes the best.
use job_aggregator.Prelude.{
  ℕ, ◌≤◌, List, [], ◌∷◌, ◌≡◌, refl, ap, ◌∙◌, All, arith, eqb, filter, if◌then◌else◌, leb,
  Bool-cases, inl, inr,
}
use job_aggregator.Resume.Select.{insert_ranked, ranked}

module _ {A : Type 0} (rank : A → ℕ) where
  -- No entry has a lower rank than a later one.
  abbrev pub IsRanked : List A → Type 0
  IsRanked [] = Unit
  IsRanked (x ∷ xs) = All (λ y. rank y ≤ rank x) xs × IsRanked xs

  All-insert_ranked :
      (n : ℕ) (x : A) (ys : List A)
      → rank x ≤ n
      → All (λ y. rank y ≤ n) ys
      → All (λ y. rank y ≤ n) (insert_ranked rank x ys)
  unfolding insert_ranked
  All-insert_ranked n x [] le h = (le, tt)
  All-insert_ranked n x (y ∷ ys) le h = elim (Bool-cases (leb (rank y) (rank x))) [
    | inl e ↦ rw (e, insert_ranked) (le, h)
    | inr e ↦ rw (e, insert_ranked) (h.0, All-insert_ranked n x ys le h.1)
  ]

  All-le : (m n : ℕ) (ys : List A) → m ≤ n → All (λ y. rank y ≤ m) ys → All (λ y. rank y ≤ n) ys
  All-le m n [] le h = tt
  All-le m n (y ∷ ys) le h = (omega arith, All-le m n ys le h.1)

  insert_ranked-IsRanked : (x : A) (ys : List A) → IsRanked ys → IsRanked (insert_ranked rank x ys)
  unfolding insert_ranked
  insert_ranked-IsRanked x [] h = (tt, tt)
  insert_ranked-IsRanked x (y ∷ ys) h = elim (Bool-cases (leb (rank y) (rank x))) [
    | inl e ↦
        rw (e, insert_ranked) ((ground arith, All-le (rank y) (rank x) ys (ground arith) h.0), h)
    | inr e ↦
        rw (e, insert_ranked)
          (All-insert_ranked (rank y) x ys (ground arith) h.0, insert_ranked-IsRanked x ys h.1)
  ]

  filter-insert_ranked :
      (k : ℕ) (x : A) (ys : List A)
      → filter (λ y. eqb (rank y) k) (insert_ranked rank x ys)
        ≡ filter (λ y. eqb (rank y) k) (x ∷ ys)
  unfolding insert_ranked
  filter-insert_ranked k x [] = refl
  filter-insert_ranked k x (y ∷ ys) = ground (arith, filter-insert_ranked k x ys)

  -- The ranking puts no entry behind one of lower rank, and the entries of each rank are those of
  -- the list in their order: it is the stable sort in descending order.
  pub ranked-IsRanked :
      (xs : List A)
      → IsRanked (ranked rank xs)
        × ((k : ℕ)
            → filter (λ y. eqb (rank y) k) (ranked rank xs) ≡ filter (λ y. eqb (rank y) k) xs)
  unfolding ranked
  ranked-IsRanked [] = (tt, λ k. refl)
  ranked-IsRanked (x ∷ xs) =
      let (sorted, stable) = ranked-IsRanked xs in
      (
        insert_ranked-IsRanked x (ranked rank xs) sorted,
        λ k.
            filter-insert_ranked k x (ranked rank xs)
            ∙ ap (λ rest. if eqb (rank x) k then x ∷ rest else rest) (stable k),
      )
