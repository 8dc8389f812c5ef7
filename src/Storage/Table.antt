-- ===== src/Storage/Table.antt =====
-- The jobs table as a keyed store: what a lookup by the primary key sees of an UPDATE.
use job_aggregator.Prelude.{
  eq_iff, map, ℕ, String, Bool, Option, none, some, List, [], ◌∷◌, ◌≡◌, refl, arith, ◌==◌,
  if◌then◌else◌, inl, inr, Bool-cases, count,
}
use job_aggregator.Storage.{Row, find, update}

-- The PRIMARY KEY constraint: no two rows have one job_uid.
abbrev pub IsKeyed : List Row → Type 0
IsKeyed [] = Unit
IsKeyed (r ∷ rows) = (find r.job_uid rows ≡ none) × IsKeyed rows

abbrev pub map_found : (Row → Row) → Option Row → Option Row
map_found f none = none
map_found f (some r) = some (f r)

-- cursor.rowcount of the UPDATE
abbrev pub rowcount : (Row → Bool) → List Row → ℕ
rowcount = count

module _ (test : Row → Bool) (change : Row → Row)
    (keeps : (r : Row) → (change r).job_uid ≡ r.job_uid) where
  abbrev pub updated : Row → Row
  updated r = if test r then change r else r

  job_uid-updated : (r : Row) → (updated r).job_uid ≡ r.job_uid
  job_uid-updated r = ground (arith, keeps r)

  pub find-update :
      (uid : String) (rows : List Row)
      → find uid (update test change rows) ≡ map_found updated (find uid rows)
  unfolding find update
  find-update uid [] = refl
  find-update uid (r ∷ rows) = elim (Bool-cases (r.job_uid == uid)) [
    | inl e ↦ rw (job_uid-updated r, e)
    | inr e ↦ rw (job_uid-updated r, e) (find-update uid rows)
  ]

  pub IsKeyed-update : (rows : List Row) → IsKeyed rows → IsKeyed (update test change rows)
  unfolding update
  IsKeyed-update [] h = tt
  IsKeyed-update (r ∷ rows) h =
      (rw (job_uid-updated r) (rw (find-update r.job_uid rows, h.0)), IsKeyed-update rows h.1)

-- A change of every row that keeps the keys is seen at each lookup.
pub find-map :
    (f : Row → Row)
    → ((r : Row) → (f r).job_uid ≡ r.job_uid)
    → (uid : String) (rows : List Row) → find uid (map f rows) ≡ map_found f (find uid rows)
unfolding find
find-map f keeps uid [] = refl
find-map f keeps uid (r ∷ rows) = ground (arith, keeps r, find-map f keeps uid rows)

-- An UPDATE of the row with one job_uid.
pub find-update_own :
    (change : Row → Row)
    → ((r : Row) → (change r).job_uid ≡ r.job_uid)
    → (uid j : String) (rows : List Row)
    → find j (update (λ r. r.job_uid == uid) change rows)
      ≡ (if uid == j then map_found change (find j rows) else find j rows)
unfolding find update
find-update_own change keeps uid j [] = ground arith
find-update_own change keeps uid j (r ∷ rows) = ground (
  arith,
  keeps r,
  eq_iff r.job_uid uid,
  eq_iff r.job_uid j,
  eq_iff uid j,
  find-update_own change keeps uid j rows,
)
