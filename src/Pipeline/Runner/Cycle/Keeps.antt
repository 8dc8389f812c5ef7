-- ===== src/Pipeline/Runner/Cycle/Keeps.antt =====
-- What a cycle keeps of every row that was stored before it.
use mathlib.Core.Path.{subst}
use job_aggregator.Clock.{minus_days}
use job_aggregator.Prelude.{
  Option-cases, of_some, sorted, map, ℕ, String, ◌&&◌, some, List, ◌≡◌, refl, ◌∙◌, ◌==◌, arith,
  contains, Bool-cases, inl, inr, eq_iff,
}
use job_aggregator.Models.{Job, JobStatus}
use job_aggregator.Models.Amount.{ℤ}
use job_aggregator.Storage.{Row, find}
use job_aggregator.Storage.Table.{find-map}
use job_aggregator.Storage.Retire.{retire_jobs, set_deleted, is_candidate}
use job_aggregator.Storage.Retire.Laws.{retired, retire_jobs-map}
use job_aggregator.Storage.Upsert.{upsert_job, refresh_row}
use job_aggregator.Storage.Upsert.Lookup.{find-upsert}
use job_aggregator.Storage.Upsert.Provenance.{KeepsUserColumns, refresh_row-KeepsUserColumns}
use job_aggregator.Pipeline.Stale.{Expiry, expire_sources, expire_stale, set_status}
use job_aggregator.Pipeline.Stale.Rows.{expired, expire_sources-rows}

-- Every row of `before` is in `after`, with the user's columns and the first-seen provenance.
abbrev pub KeepsRows : List Row → List Row → Type 0
KeepsRows before after =
    (uid : String) (r : Row)
    → find uid before ≡ some r
    → (r' : Row) × (find uid after ≡ some r') × KeepsUserColumns r r'

unchanged : (r : Row) → KeepsUserColumns r r
unchanged r = record {
  source = refl;
  first_seen_at = refl;
  applied = refl;
  bookmarked = refl;
  hidden = refl;
  seen = refl;
  notes = refl;
  extra_context = refl;
}

KeepsUserColumns-trans :
    (r s t : Row) → KeepsUserColumns r s → KeepsUserColumns s t → KeepsUserColumns r t
KeepsUserColumns-trans r s t h k = record {
  source = k.source ∙ h.source;
  first_seen_at = k.first_seen_at ∙ h.first_seen_at;
  applied = k.applied ∙ h.applied;
  bookmarked = k.bookmarked ∙ h.bookmarked;
  hidden = k.hidden ∙ h.hidden;
  seen = k.seen ∙ h.seen;
  notes = k.notes ∙ h.notes;
  extra_context = k.extra_context ∙ h.extra_context;
}

pub KeepsRows-refl : (rows : List Row) → KeepsRows rows rows
KeepsRows-refl rows uid r h = (r, h, unchanged r)

pub KeepsRows-trans : (a b c : List Row) → KeepsRows a b → KeepsRows b c → KeepsRows a c
KeepsRows-trans a b c h k uid r stored =
    let (s, here, kept) = h uid r stored in
    let (t, there, still) = k uid s here in (t, there, KeepsUserColumns-trans r s t kept still)

-- A change of each row that keeps its key and these columns.
pub KeepsRows-map :
    (f : Row → Row) (rows : List Row)
    → ((r : Row) → (f r).job_uid ≡ r.job_uid)
    → ((r : Row) → KeepsUserColumns r (f r))
    → KeepsRows rows (map f rows)
KeepsRows-map f rows key keeps uid r h = (f r, rw (find-map f key uid rows, h), keeps r)

pub upsert-KeepsRows :
    (rows : List Row) (job : Job) (run_id now : ℕ)
    → KeepsRows rows (upsert_job rows job run_id now).0
upsert-KeepsRows rows job run_id now uid r h = elim (Bool-cases (job.job_uid == uid)) [
  | inl e ↦
      let same : job.job_uid ≡ uid = ground (arith, eq_iff job.job_uid uid) in
      (
        refresh_row job run_id now r,
        rw (find-upsert job run_id now uid rows, e, same, h),
        refresh_row-KeepsUserColumns job run_id now r,
      )
  | inr e ↦ (r, rw (find-upsert job run_id now uid rows, e) h, unchanged r)
]

set_status-keeps : (s : JobStatus) (r : Row) → KeepsUserColumns r (set_status s r)
set_status-keeps s r = record {
  source = refl;
  first_seen_at = refl;
  applied = refl;
  bookmarked = refl;
  hidden = refl;
  seen = refl;
  notes = refl;
  extra_context = refl;
}

retired-keeps : (uids : List String) (r : Row) → KeepsUserColumns r (retired uids r)
unfolding set_deleted
retired-keeps uids r = elim (Bool-cases (contains uids r.job_uid && is_candidate r)) [
  | inl e ↦ rw e (set_status-keeps JobStatus.deleted r)
  | inr e ↦ rw e (unchanged r)
]

retired-key : (uids : List String) (r : Row) → (retired uids r).job_uid ≡ r.job_uid
unfolding set_deleted
retired-key uids r = ground arith

pub retire_jobs-KeepsRows :
    (rows : List Row) (uids : List String) → KeepsRows rows (retire_jobs rows uids).0
retire_jobs-KeepsRows rows uids =
    rw (retire_jobs-map rows uids)
      (KeepsRows-map (retired uids) rows (retired-key uids) (retired-keeps uids))

module _ (julianday : ℕ → ℕ) (e : Expiry) (sources : List String) where
  expired-key : (r : Row) → (expired julianday e sources r).job_uid ≡ r.job_uid
  expired-key r = ground arith

  expired-keeps : (r : Row) → KeepsUserColumns r (expired julianday e sources r)
  expired-keeps r = elim (Bool-cases (contains sources r.source)) [
    | inl h ↦ rw h (set_status-keeps _ r)
    | inr h ↦ rw h (unchanged r)
  ]

  expire_sources-KeepsRows :
      (rows : List Row) (n : ℕ) → KeepsRows rows (expire_sources julianday e rows sources n).0
  expire_sources-KeepsRows rows n =
      rw (expire_sources-rows julianday e sources rows n)
        (KeepsRows-map (expired julianday e sources) rows expired-key expired-keeps)

pub expire_stale-KeepsRows :
    (julianday : ℕ → ℕ) (rows : List Row) (run_id : ℕ) (succeeded : List String)
    (grace_days retire_days : ℤ) (now now' : ℕ) (windowed : List String) (out : List Row × ℕ)
    → expire_stale julianday rows run_id succeeded grace_days retire_days now now' windowed
      ≡ some out
    → KeepsRows rows out.0
unfolding expire_stale
expire_stale-KeepsRows julianday rows run_id succeeded grace_days retire_days now now' windowed out
      h =
    elim (Option-cases (minus_days now grace_days)) [
      | inl e ↦ absurd (ground arith)
      | inr (cutoff, e) ↦ elim (Option-cases (minus_days now' retire_days)) [
        | inl e' ↦ absurd (ground arith)
        | inr (retire, e') ↦
            let x : Expiry = record {
              run_id = run_id;
              cutoff = cutoff;
              retire = retire;
              windowed = windowed;
            } in
            let same : expire_sources julianday x rows (sorted succeeded) 0 ≡ out =
              of_some (rw (e, e') at h) in
            subst (λ (o : List Row × ℕ). KeepsRows rows o.0) same
              (expire_sources-KeepsRows julianday x (sorted succeeded) rows 0)
      ]
    ]
