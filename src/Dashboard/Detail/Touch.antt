-- ===== src/Dashboard/Detail/Touch.antt =====
-- What opening a posting may do to the stored rows.
use text.Mathlib.TextPositions.{eq_refl}
use job_aggregator.Prelude.{
  ℕ, String, Bool, true, false, ◌||◌, Option, none, some, List, ◌==◌, ◌≡◌, refl, ap, ◌∙◌, arith,
}
use job_aggregator.Storage.{Row, find, update}
use job_aggregator.Storage.Flags.{full_description, plain, set_field}
use job_aggregator.Storage.Table.{find-update_own}
use job_aggregator.Sources.Closure.{Verdict, record_verdict, stamped}
use job_aggregator.Dashboard.Detail.{recorded}

-- `new` is `old` with another text, stamp and status, and with the same status when the user
-- applied to the posting or bookmarked it.
pub record IsReopened (old new : Row) : Type 0 where
  pub same : new ≡ record old {
    full_description = new.full_description;
    closure_checked_at = new.closure_checked_at;
    status = new.status;
  }
  pub guarded : (old.applied || old.bookmarked) ≡ true → new.status ≡ old.status

pub IsReopened-refl : (r : Row) → IsReopened r r
IsReopened-refl r = record { same = refl; guarded = λ acted. refl }

abbrev acted : Row → Bool
acted r = r.applied || r.bookmarked

pub IsReopened-trans : (a b c : Row) → IsReopened a b → IsReopened b c → IsReopened a c
IsReopened-trans a b c h k = record {
  same =
      k.same
      ∙ ap
          (λ (x : Row). record x {
            full_description = c.full_description;
            closure_checked_at = c.closure_checked_at;
            status = c.status;
          })
          (h.same);
  guarded = λ on. k.guarded (ap acted (h.same) ∙ on) ∙ h.guarded on;
}

-- The one row with the job_uid is reopened, and no other row changes.
pub record Touches (uid : String) (old new : List Row) : Type 0 where
  pub own :
      (r : Row) → find uid old ≡ some r → (r' : Row) × (find uid new ≡ some r') × IsReopened r r'
  pub others : (j : String) → (uid == j) ≡ false → find j new ≡ find j old

pub Touches-refl : (uid : String) (rows : List Row) → Touches uid rows rows
Touches-refl uid rows = record { own = λ r h. (r, h, IsReopened-refl r); others = λ j h. refl }

pub Touches-trans :
    (uid : String) (a b c : List Row) → Touches uid a b → Touches uid b c → Touches uid a c
Touches-trans uid a b c h k = record {
  own = λ r e.
      let (r₁, e₁, t₁) = h.own r e in
      let (r₂, e₂, t₂) = k.own r₁ e₁ in (r₂, e₂, IsReopened-trans r r₁ r₂ t₁ t₂);
  others = λ j e. k.others j e ∙ h.others j e;
}

pub Touches-update :
    (change : Row → Row)
    → ((r : Row) → (change r).job_uid ≡ r.job_uid)
    → ((r : Row) → IsReopened r (change r))
    → (uid : String) (rows : List Row)
    → Touches uid rows (update (λ r. r.job_uid == uid) change rows)
Touches-update change keeps reopens uid rows = record {
  own =
      λ r e. (change r, rw (find-update_own change keeps uid uid rows, eq_refl uid, e), reopens r);
  others = λ j e. rw (find-update_own change keeps uid j rows, e);
}

IsReopened-set_field :
    (text : String) (r : Row) → IsReopened r (set_field full_description (plain text) r)
unfolding set_field
IsReopened-set_field text r = record { same = refl; guarded = λ on. refl }

pub Touches-set_field :
    (text uid : String) (rows : List Row)
    → Touches uid rows
        (update (λ r. r.job_uid == uid) (set_field full_description (plain text)) rows)
Touches-set_field text =
    Touches-update (set_field full_description (plain text)) (λ r. unfold set_field in refl)
      (IsReopened-set_field text)

IsReopened-stamped : (v : Verdict) (now : ℕ) (r : Row) → IsReopened r (stamped v now r)
unfolding stamped
IsReopened-stamped v now r = record { same = refl; guarded = λ on. ground (arith, on) }

pub Touches-recorded :
    (v : Option Verdict) (now : ℕ) (uid : String) (rows : List Row)
    → Touches uid rows (recorded rows uid v now)
unfolding record_verdict
Touches-recorded none now uid rows = Touches-refl uid rows
Touches-recorded (some v) now uid rows =
    Touches-update (stamped v now) (λ r. unfold stamped in refl) (IsReopened-stamped v now) uid rows
