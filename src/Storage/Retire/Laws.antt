-- ===== src/Storage/Retire/Laws.antt =====
-- retire_jobs against a description of what it does to one row.
use job_aggregator.Prelude.{
  ◌+◌, String, Bool, true, not, ◌&&◌, ◌||◌, some, List, [], ◌∷◌, ◌==◌, ◌≡◌, refl, ap, ap₂, sym, ◌∙◌,
  map, eq_iff, arith, count, contains, if◌then◌else◌,
}
use job_aggregator.Models.{JobStatus, is_deleted}
use job_aggregator.Storage.{Row, find, update}
use job_aggregator.Storage.Table.{rowcount, find-map}
use job_aggregator.Storage.Retire.{is_candidate, set_deleted, retire_jobs}

-- One row under the whole call.
abbrev pub retired : List String → Row → Row
retired uids r = if contains uids r.job_uid && is_candidate r then set_deleted r else r

-- A listed row that is not deleted and that the user neither applied to nor bookmarked.
abbrev pub is_due : List String → Row → Bool
is_due uids r =
    contains uids r.job_uid && (not (is_deleted r.status) && not r.applied && not r.bookmarked)

-- The row under the call, written out.
abbrev pub deleted_if_due : List String → Row → Row
deleted_if_due uids r = if is_due uids r then record r { status = JobStatus.deleted } else r

own_retired : String → Row → Row
own_retired uid r = if r.job_uid == uid && is_candidate r then set_deleted r else r

update-own_retired :
    (uid : String) (rows : List Row)
    → update (λ r. r.job_uid == uid && is_candidate r) set_deleted rows ≡ map (own_retired uid) rows
unfolding update own_retired
update-own_retired uid [] = refl
update-own_retired uid (r ∷ rows) = ap₂ ◌∷◌ refl (update-own_retired uid rows)

retired-own :
    (uid : String) (uids : List String) (r : Row)
    → retired uids (own_retired uid r) ≡ retired (uid ∷ uids) r
unfolding own_retired contains is_candidate set_deleted
retired-own uid uids r = ground (arith, eq_iff uid r.job_uid, eq_iff r.job_uid uid)

map-retired-own :
    (uid : String) (uids : List String) (rows : List Row)
    → map (retired uids) (map (own_retired uid) rows) ≡ map (retired (uid ∷ uids)) rows
map-retired-own uid uids [] = refl
map-retired-own uid uids (r ∷ rows) =
    ap₂ ◌∷◌ (retired-own uid uids r) (map-retired-own uid uids rows)

map-retired-nil : (rows : List Row) → rows ≡ map (retired []) rows
unfolding contains
map-retired-nil [] = refl
map-retired-nil (r ∷ rows) = ap (◌∷◌ r) (map-retired-nil rows)

pub retire_jobs-map :
    (rows : List Row) (uids : List String) → (retire_jobs rows uids).0 ≡ map (retired uids) rows
unfolding retire_jobs
retire_jobs-map rows [] = map-retired-nil rows
retire_jobs-map rows (uid ∷ uids) =
    retire_jobs-map (update (λ r. r.job_uid == uid && is_candidate r) set_deleted rows) uids
    ∙ ap (map (retired uids)) (update-own_retired uid rows)
    ∙ map-retired-own uid uids rows

count-own :
    (uid : String) (uids : List String) (rows : List Row)
    → rowcount (λ r. r.job_uid == uid && is_candidate r) rows
        + count (is_due uids) (map (own_retired uid) rows)
      ≡ count (is_due (uid ∷ uids)) rows
unfolding own_retired contains is_candidate set_deleted
count-own uid uids [] = refl
count-own uid uids (r ∷ rows) =
    ground (arith, eq_iff uid r.job_uid, eq_iff r.job_uid uid, count-own uid uids rows)

count-nil : (rows : List Row) → count (is_due []) rows ≡ 0
unfolding contains
count-nil [] = refl
count-nil (r ∷ rows) = ground (arith, count-nil rows)

pub retire_jobs-count :
    (rows : List Row) (uids : List String) → (retire_jobs rows uids).1 ≡ count (is_due uids) rows
unfolding retire_jobs
retire_jobs-count rows [] = sym (count-nil rows)
retire_jobs-count rows (uid ∷ uids) =
    let own : Row → Bool = λ r. r.job_uid == uid && is_candidate r in
    ap (◌+◌ (rowcount own rows)) (retire_jobs-count (update own set_deleted rows) uids)
    ∙ ap (λ (l : List Row). rowcount own rows + count (is_due uids) l) (update-own_retired uid rows)
    ∙ count-own uid uids rows

-- The call gives the status deleted to exactly the rows with a listed job_uid that are not deleted
-- yet and that the user neither applied to nor bookmarked, changes nothing else, and returns the
-- number of these rows, also when a job_uid is listed twice.
pub retire_jobs-rows :
    (rows : List Row) (uids : List String)
    → ((retire_jobs rows uids).0 ≡ map (deleted_if_due uids) rows)
      × ((retire_jobs rows uids).1 ≡ count (is_due uids) rows)
unfolding is_candidate set_deleted
retire_jobs-rows rows uids = (retire_jobs-map rows uids, retire_jobs-count rows uids)

job_uid-retired : (uids : List String) (r : Row) → (retired uids r).job_uid ≡ r.job_uid
unfolding set_deleted
job_uid-retired uids r = ground arith

-- A row that the user applied to or bookmarked is found as it was, whatever the list holds.
pub retire_jobs-acted :
    (rows : List Row) (uids : List String) (uid : String) (r : Row)
    → find uid rows ≡ some r
    → (r.applied || r.bookmarked) ≡ true
    → find uid (retire_jobs rows uids).0 ≡ some r
unfolding is_candidate
retire_jobs-acted rows uids uid r h acted =
    let same : retired uids r ≡ r = ground arith in
    rw (retire_jobs-map rows uids, find-map (retired uids) (job_uid-retired uids) uid rows, h)
      (ap some same)
