-- ===== src/Storage/Flags/Laws.antt =====
-- What a lookup sees of set_user_flag, and that a flag survives the posting's next upsert.
use text.Mathlib.TextPositions.{eq_refl}
use job_aggregator.Prelude.{
  ℕ, String, Bool, Option, some, List, [], ◌∷◌, ◌==◌, ◌≡◌, ◌≢◌, refl, ltb, arith, is_some,
  if◌then◌else◌, contains,
}
use job_aggregator.Models.{Job}
use job_aggregator.Storage.{Row, find, update}
use job_aggregator.Storage.Table.{map_found, find-update_own, rowcount}
use job_aggregator.Storage.Upsert.{refresh_row, upsert_job}
use job_aggregator.Storage.Upsert.Lookup.{find-upsert}
use job_aggregator.Storage.Flags.{
  UserField, Value, applied, bookmarked, hidden, seen, notes, extra_context, full_description,
  field_of, truth, as_text, set_field, set_user_flag,
}

abbrev pub user_flag_fields : List String
user_flag_fields =
    "applied" ∷ "bookmarked" ∷ "hidden" ∷ "seen" ∷ "notes" ∷ "extra_context" ∷ "full_description"
    ∷ []

-- The value of a column, as it is written: 0 or 1 for the flags, nullable text for the others.
pub data Cell : Type 0 where
  bit : Bool → Cell
  words : Option String → Cell

abbrev pub cell : UserField → Row → Cell
cell applied r = bit r.applied
cell bookmarked r = bit r.bookmarked
cell hidden r = bit r.hidden
cell seen r = bit r.seen
cell notes r = words r.notes
cell extra_context r = words r.extra_context
cell full_description r = words r.full_description

abbrev pub coerced : UserField → Value → Cell
coerced applied v = bit (truth v)
coerced bookmarked v = bit (truth v)
coerced hidden v = bit (truth v)
coerced seen v = bit (truth v)
coerced _ v = words (as_text v)

-- A name is refused exactly when it is not on the whitelist.
pub set_user_flag-eq-none :
    (rows : List Row) (uid name : String) (v : Value)
    → is_some (set_user_flag rows uid name v) ≡ contains user_flag_fields name
unfolding set_user_flag field_of contains
set_user_flag-eq-none rows uid name v = ground arith

job_uid-set_field :
    (field : UserField) (v : Value) (r : Row) → (set_field field v r).job_uid ≡ r.job_uid
unfolding set_field
job_uid-set_field applied v r = refl
job_uid-set_field _ v r = refl

pub rowcount-own :
    (uid : String) (rows : List Row)
    → ltb 0 (rowcount (λ r. r.job_uid == uid) rows) ≡ is_some (find uid rows)
unfolding find
rowcount-own uid [] = refl
rowcount-own uid (r ∷ rows) = ground (arith, rowcount-own uid rows)

-- A whitelisted call changes the one column of the row with the job_uid, leaves every other row,
-- and returns True exactly when there is such a row.
pub find-set_user_flag :
    (rows : List Row) (uid name : String) (v : Value) (field : UserField) (j : String)
    → field_of name ≡ some field
    → (out : List Row × Bool) × (set_user_flag rows uid name v ≡ some out)
      × (find j out.0
          ≡ (if uid == j then map_found (set_field field v) (find j rows) else find j rows))
      × (out.1 ≡ is_some (find uid rows))
unfolding set_user_flag
find-set_user_flag rows uid name v field j h = (
  (
    update (λ r. r.job_uid == uid) (set_field field v) rows,
    ltb 0 (rowcount (λ r. r.job_uid == uid) rows),
  ),
  rw (h, set_user_flag),
  find-update_own (set_field field v) (job_uid-set_field field v) uid j rows,
  rowcount-own uid rows,
)

-- The column holds what was set, and the other user columns hold what they held.
cell-set_field :
    (field : UserField) (v : Value) (r : Row) → cell field (set_field field v r) ≡ coerced field v
unfolding set_field
cell-set_field applied v r = refl
cell-set_field _ v r = refl

cell-refresh_row :
    (field : UserField) (job : Job) (run_id now : ℕ) (r : Row)
    → field ≢ full_description
    → cell field (refresh_row job run_id now r) ≡ cell field r
unfolding refresh_row
cell-refresh_row full_description job run_id now r h = absurd (h refl)
cell-refresh_row _ job run_id now r h = refl

-- A flag, note or context that the user sets on a stored row is still there after the row's
-- posting is fetched again.
pub upsert-set_user_flag :
    (rows : List Row) (name : String) (v : Value) (field : UserField) (job : Job) (run_id now : ℕ)
    (old : Row)
    → field_of name ≡ some field
    → field ≢ full_description
    → find job.job_uid rows ≡ some old
    → (out : List Row × Bool) × (set_user_flag rows job.job_uid name v ≡ some out)
      × (new : Row) × (find job.job_uid (upsert_job out.0 job run_id now).0 ≡ some new)
      × (cell field new ≡ coerced field v)
upsert-set_user_flag rows name v field job run_id now old known short stored =
    let (out, set, found, _) = find-set_user_flag rows job.job_uid name v field job.job_uid known in
    let here : find job.job_uid out.0 ≡ some (set_field field v old) =
      rw (found, eq_refl job.job_uid, stored) in
    (
      out,
      set,
      refresh_row job run_id now (set_field field v old),
      rw (find-upsert job run_id now job.job_uid out.0, eq_refl job.job_uid, here),
      rw (cell-refresh_row field job run_id now (set_field field v old) short)
          (cell-set_field field v old),
    )
