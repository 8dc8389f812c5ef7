-- ===== src/Storage/Runs/Latest.antt =====
-- What ORDER BY run_id DESC LIMIT 1 returns.
use job_aggregator.Prelude.{
  ℕ, ◌≤◌, Bool, true, false, inl, inr, Bool-cases, Option, none, some, List, [], ◌∷◌, ◌≡◌, refl,
  ltb, count, All, arith,
}
use mathlib.Core.List.{Memᴰ}
use job_aggregator.Storage.Runs.{Run, prefer, latest}

-- No run that passes the test has a run_id above `n`.
abbrev pub Below : (Run → Bool) → ℕ → List Run → Type 0
Below test n = All (λ (s : Run). test s ≡ true → s.run_id ≤ n)

-- `r` is one of the runs, passes the test, and no run that passes it has a greater run_id.
pub record IsLatest (test : Run → Bool) (runs : List Run) (r : Run) : Type 0 where
  pub stored : Memᴰ r runs
  pub passes : test r ≡ true
  pub newest : Below test r.run_id runs

-- An answer is right: a run when it is the latest that passes, none when no run passes.
abbrev pub Answers : (Run → Bool) → List Run → Option Run → Type 0
Answers test runs none = All (λ (s : Run). test s ≡ false) runs
Answers test runs (some r) = IsLatest test runs r

module _ (test : Run → Bool) where
  Below-le : (m n : ℕ) (runs : List Run) → m ≤ n → Below test m runs → Below test n runs
  Below-le m n [] le h = tt
  Below-le m n (s ∷ runs) le h = (λ passes. omega (arith, h.0 passes), Below-le m n runs le h.1)

  Below-of_none :
      (n : ℕ) (runs : List Run) → All (λ (s : Run). test s ≡ false) runs → Below test n runs
  Below-of_none n [] h = tt
  Below-of_none n (s ∷ runs) h = (λ passes. cc, Below-of_none n runs h.1)

  prefer-Answers :
      (r : Run) (runs : List Run) (best : Option Run)
      → test r ≡ true
      → Answers test runs best
      → IsLatest test (r ∷ runs) (prefer r best)
  unfolding prefer
  prefer-Answers r runs none p h = record {
    stored = Memᴰ.head refl;
    passes = p;
    newest = (λ _. omega arith, Below-of_none r.run_id runs h);
  }
  prefer-Answers r runs (some b) p h = elim (Bool-cases (ltb b.run_id r.run_id)) [
    | inl e ↦ rw e (record {
      stored = Memᴰ.head refl;
      passes = p;
      newest = (λ _. omega arith, Below-le b.run_id r.run_id runs (ground arith) h.newest);
    })
    | inr e ↦ rw e (record {
      stored = Memᴰ.tail h.stored;
      passes = h.passes;
      newest = (λ _. ground arith, h.newest);
    })
  ]

  skip-Answers :
      (r : Run) (runs : List Run) (best : Option Run)
      → test r ≡ false
      → Answers test runs best
      → Answers test (r ∷ runs) best
  skip-Answers r runs none p h = (p, h)
  skip-Answers r runs (some b) p h = record {
    stored = Memᴰ.tail h.stored;
    passes = h.passes;
    newest = (λ passes. cc, h.newest);
  }

  -- The query answers with the run of the greatest run_id among those that pass the test, and
  -- with none exactly when no run passes it.
  pub latest-Answers : (runs : List Run) → Answers test runs (latest test runs)
  unfolding latest
  latest-Answers [] = tt
  latest-Answers (r ∷ runs) = elim (Bool-cases (test r)) [
    | inl p ↦ rw p (prefer-Answers r runs (latest test runs) p (latest-Answers runs))
    | inr p ↦ rw p (skip-Answers r runs (latest test runs) p (latest-Answers runs))
  ]

  -- The query answers none when no run passes the test, and only then.
  pub latest-none : (runs : List Run) → count test runs ≡ 0 → latest test runs ≡ none
  unfolding latest
  latest-none [] h = refl
  latest-none (r ∷ runs) h = ground (arith, latest-none runs)

  pub count_of_latest-none : (runs : List Run) → latest test runs ≡ none → count test runs ≡ 0
  unfolding latest
  count_of_latest-none [] h = refl
  count_of_latest-none (r ∷ runs) h = ground (arith, count_of_latest-none runs)
