-- ===== src/Pipeline/Runner/Fetch.antt =====
-- _fetch_all and _fetch_one of pipeline/runner.py. The order in which as_completed yields the
-- futures is a list of the sources' numbers.
use job_aggregator.Prelude.{
  ◌≤◌, ℕ, zero, suc, ◌+◌, ◌<◌, String, Bool, true, false, ◌||◌, Option, none, some, List, [], ◌∷◌,
  ◌≡◌, refl, sym, ◌∙◌, ap, ap₂, arith, any, eqb, length, map, if◌then◌else◌,
}
use job_aggregator.Errors.{Error, Result, ok, raise}
use job_aggregator.Sources.Base.{SourceResult}

-- A source: its name, and what its fetch returns or raises, with the milliseconds that took.
pub record Fetch : Type 0 where
  pub name : String
  pub answer : Result SourceResult
  pub elapsed_ms : ℕ

module _ (error_text : Error → String) where
  unfoldable pub fetch_one : Fetch → SourceResult
  fetch_one source = elim (source.answer) [
    | ok res ↦ res
    | raise e ↦ record {
      source = source.name;
      succeeded = false;
      jobs = [];
      n_fetched = 0;
      duration_ms = source.elapsed_ms;
      error = some (error_text e);
      sub_results = [];
      exhaustive = true;
    }
  ]

  -- results[i] = the result of the i-th source
  unfoldable pub set_slot : ℕ → List Fetch → List (Option SourceResult) → List (Option SourceResult)
  unfolding fetch_one
  set_slot i [] slots = slots
  set_slot i (f ∷ fetches) [] = []
  set_slot zero (f ∷ fetches) (s ∷ slots) = some (fetch_one f) ∷ slots
  set_slot (suc i) (f ∷ fetches) (s ∷ slots) = s ∷ set_slot i fetches slots

  unfoldable pub set_slots :
      List ℕ → List Fetch → List (Option SourceResult) → List (Option SourceResult)
  unfolding set_slot
  set_slots [] fetches slots = slots
  set_slots (i ∷ order) fetches slots = set_slots order fetches (set_slot i fetches slots)

  -- [r for r in results if r is not None]
  unfoldable pub present : List (Option SourceResult) → List SourceResult
  present [] = []
  present (none ∷ slots) = present slots
  present (some r ∷ slots) = r ∷ present slots

  abbrev pub empty_slots : List Fetch → List (Option SourceResult)
  empty_slots = map (λ f. none)

  unfoldable pub fetch_all : List ℕ → List Fetch → List SourceResult
  unfolding set_slots present
  fetch_all order fetches = present (set_slots order fetches (empty_slots fetches))

  -- The slots with those numbers, counted from `k`, that pass the test are filled.
  abbrev filled :
      (ℕ → Bool) → ℕ → List Fetch → List (Option SourceResult) → List (Option SourceResult)
  filled p k [] slots = slots
  filled p k (f ∷ fetches) [] = []
  filled p k (f ∷ fetches) (s ∷ slots) =
      (if p k then some (fetch_one f) else s) ∷ filled p (k + 1) fetches slots

  filled_none :
      (p : ℕ → Bool) (k : ℕ) (fetches : List Fetch) (slots : List (Option SourceResult))
      → ((i : ℕ) → k ≤ i → p i ≡ false)
      → filled p k fetches slots ≡ slots
  filled_none p k [] slots h = refl
  filled_none p k (f ∷ fetches) [] h = refl
  filled_none p k (f ∷ fetches) (s ∷ slots) h =
      rw (h k (omega arith))
        (ap (◌∷◌ s) (filled_none p (k + 1) fetches slots (λ i le. h i (omega arith))))

  set_slot-filled :
      (i k : ℕ) (fetches : List Fetch) (slots : List (Option SourceResult))
      → set_slot i fetches slots ≡ filled (eqb (k + i)) k fetches slots
  unfolding set_slot
  set_slot-filled i k [] slots = refl
  set_slot-filled i k (f ∷ fetches) [] = refl
  set_slot-filled zero k (f ∷ fetches) (s ∷ slots) =
      let here : eqb (k + 0) k ≡ true = ground arith in
      rw here (
        ap (◌∷◌ (some (fetch_one f)))
          (sym (filled_none (eqb (k + 0)) (k + 1) fetches slots (λ i le. ground arith))))
  set_slot-filled (suc i) k (f ∷ fetches) (s ∷ slots) =
      let other : eqb (k + suc i) k ≡ false = ground arith in
      let next : (k + 1) + i ≡ k + suc i = omega arith in
      rw other (ap (◌∷◌ s) (rw next at (set_slot-filled i (k + 1) fetches slots)))

  filled-filled :
      (p q : ℕ → Bool) (k : ℕ) (fetches : List Fetch) (slots : List (Option SourceResult))
      → filled p k fetches (filled q k fetches slots) ≡ filled (λ i. q i || p i) k fetches slots
  filled-filled p q k [] slots = refl
  filled-filled p q k (f ∷ fetches) [] = refl
  filled-filled p q k (f ∷ fetches) (s ∷ slots) =
      ap₂ ◌∷◌ (ground arith) (filled-filled p q (k + 1) fetches slots)

  set_slots-filled :
      (order : List ℕ) (fetches : List Fetch) (slots : List (Option SourceResult))
      → set_slots order fetches slots ≡ filled (λ i. any (λ j. eqb j i) order) 0 fetches slots
  unfolding set_slots
  set_slots-filled [] fetches slots = sym (filled_none _ 0 fetches slots (λ i le. refl))
  set_slots-filled (j ∷ order) fetches slots =
      let z : 0 + j ≡ j = omega arith in
      set_slots-filled order fetches (set_slot j fetches slots)
      ∙ ap (filled (λ i. any (λ j. eqb j i) order) 0 fetches)
          (rw z at (set_slot-filled j 0 fetches slots))
      ∙ filled-filled _ _ 0 fetches slots

  present-filled :
      (p : ℕ → Bool) (k : ℕ) (fetches : List Fetch)
      → ((i : ℕ) → i < k + length fetches → p i ≡ true)
      → present (filled p k fetches (empty_slots fetches)) ≡ map fetch_one fetches
  unfolding present
  present-filled p k [] h = refl
  present-filled p k (f ∷ fetches) h =
      rw (h k (omega arith))
        (ap (◌∷◌ (fetch_one f)) (present-filled p (k + 1) fetches (λ i le. h i (omega arith))))

  -- Where every source completes, whatever the order in which they do, the result of the fetch is
  -- the sources' results in the order of the sources: the postings that come first, and with them
  -- the first-seen provenance, do not depend on timing.
  pub fetch_all-eq-map :
      (order : List ℕ) (fetches : List Fetch)
      → ((i : ℕ) → i < length fetches → any (λ j. eqb j i) order ≡ true)
      → fetch_all order fetches ≡ map fetch_one fetches
  unfolding fetch_all
  fetch_all-eq-map order fetches complete =
      ap present (set_slots-filled order fetches (empty_slots fetches))
      ∙ present-filled _ 0 fetches (λ i h. complete i (omega arith))
