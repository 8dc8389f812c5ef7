-- ===== src/Dashboard/Detail/Open.antt =====
-- What opening a posting does.
use job_aggregator.Prelude.{
  ◌-◌, ltb, ◌*◌, leb, ◌+◌, holds, of_some, ℕ, ◌⊎◌, ◌≤◌, given, String, Bool, true, false, not, ◌||◌,
  Option, none, some, List, [], ◌==◌, ◌≡◌, refl, ap, ◌∙◌, arith, Bool-cases, inl, inr, length,
}
use job_aggregator.Clock.{day, minus_days}
use job_aggregator.Errors.{Error, Result, ok, raise}
use job_aggregator.Storage.{Row, find}
use job_aggregator.Dashboard.Detail.{
  row_description, is_closed, Viewer, Opened, Detail, effective_description, recheck_due,
  check_opened, show, detail_of, open_row, job_detail, recorded,
}
use job_aggregator.Dashboard.Detail.Touch.{Touches, Touches-refl, Touches-recorded}

module _ (viewer : Viewer) where
  -- What is known of the posting before the closed state is checked.
  record IsOpened (rows : List Row) (r : Row) (o : Opened) : Type 0 where
    pub touches : Touches r.job_uid rows o.rows
    pub few : length o.requests ≤ 1
    pub unread : o.verdict ≡ none → o.requests ≡ []

  -- What the first step comes to: it opens the row, or the page raises.
  abbrev Reads : List Row → Row → Result Opened → Type 0
  Reads rows r out =
      ((o : Opened) × (out ≡ ok o) × IsOpened rows r o)
      ⊎ ((e : Error) × (viewer.fetch_page r.url ≡ raise e) × (out ≡ raise e))

  -- The outcome of an open.
  record IsAnswer (rows : List Row) (uid : String) (o : Opened) (now : ℕ) (d : Detail)
      : Type 0 where
    pub written : d.rows ≡ recorded o.rows uid o.verdict now
    pub sent : d.requests ≡ o.requests

  show-IsAnswer :
      (enabled : Bool) (rows : List Row) (uid : String) (now : ℕ) (r : Row) (o : Opened)
      → find uid rows ≡ some r
      → Touches uid rows o.rows
      → (d : Detail) × (show viewer enabled uid now r o ≡ ok d) × IsAnswer rows uid o now d
  unfolding show detail_of
  show-IsAnswer enabled rows uid now r o h touches = elim (Bool-cases (holds is_closed o.verdict)) [
    | inl e ↦
        let (r₁, h₁, _) = touches.own r h in
        let (r₂, h₂, _) = (Touches-recorded o.verdict now uid o.rows).own r₁ h₁ in
        rw (e, h₂) (_, refl, record { written = refl; sent = refl })
    | inr e ↦ rw e (_, refl, record { written = refl; sent = refl })
  ]

  recheck_due-answers :
      (at : Option ℕ) (now : ℕ)
      → day ≤ now
      → (due : Bool) × (recheck_due at now ≡ ok due)
        × ((c : ℕ) → at ≡ some c → now ≤ c + day → due ≡ false)
  unfolding recheck_due minus_days
  recheck_due-answers none now h = (true, refl, λ c e. cc)
  recheck_due-answers (some at) now h =
      let within : leb (1 * day) now ≡ true = ground arith in
      (
        ltb at (now - 1 * day),
        rw (within, recheck_due) refl,
        λ c e near. let same : at ≡ c = of_some e in ground (arith, same, near),
      )

  job_detail-steps :
      (enabled : Bool) (rows : List Row) (uid : String) (now : ℕ) (r : Row) (o : Opened)
      (due : Bool) (d : Detail)
      → find uid rows ≡ some r
      → effective_description viewer rows r ≡ ok o
      → recheck_due r.closure_checked_at now ≡ ok due
      → show viewer enabled uid now r (check_opened viewer r due o) ≡ ok d
      → job_detail viewer enabled rows uid now ≡ ok d
  unfolding job_detail open_row
  job_detail-steps enabled rows uid now r o due d h opened known shown =
      rw (h, job_detail, open_row, opened, known) shown

  -- Within a day of the last check of a posting, opening it again sends no request, when its
  -- description is cached or it is not of Internshala.
  pub job_detail-quiet :
      (enabled : Bool) (rows : List Row) (uid : String) (now at : ℕ) (r : Row)
      → find uid rows ≡ some r
      → day ≤ now
      → r.closure_checked_at ≡ some at
      → now ≤ at + day
      → (given r.full_description || not (r.source == "internshala")) ≡ true
      → (d : Detail) × (job_detail viewer enabled rows uid now ≡ ok d)
        × (d.requests ≡ [])
        × (d.rows ≡ rows)
  unfolding effective_description check_opened
  job_detail-quiet enabled rows uid now at r h later checked near cached =
      let (due, known, fresh) = recheck_due-answers r.closure_checked_at now later in
      let off : due ≡ false = fresh at checked near in
      let known' : recheck_due r.closure_checked_at now ≡ ok false = known ∙ ap ok off in
      let o : Opened = record {
        rows = rows;
        description = row_description r;
        verdict = none;
        requests = [];
      } in
      let (d, shown, answer) = show-IsAnswer enabled rows uid now r o h (Touches-refl uid rows) in
      let opened : effective_description viewer rows r ≡ ok o =
        rw (cached, effective_description) refl in
      (
        d,
        job_detail-steps enabled rows uid now r o false d h opened known' shown,
        answer.sent,
        answer.written,
      )
