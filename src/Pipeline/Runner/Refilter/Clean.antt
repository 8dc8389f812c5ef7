-- ===== src/Pipeline/Runner/Refilter/Clean.antt =====
-- What the refilter leaves in the table.
use mathlib.Core.Path.{subst}
use text.Mathlib.TextPositions.{eq_refl}
use job_aggregator.Prelude.{
  ℕ, String, true, false, ◌⊎◌, inl, inr, some, List, [], ◌∷◌, ◌≡◌, refl, sym, ap, ◌∙◌, map,
  contains, All, arith, Bool-cases, Option-cases, of_some,
}
use job_aggregator.Models.{Job}
use job_aggregator.Config.{Config}
use job_aggregator.Pipeline.Runner.{Env}
use job_aggregator.Pipeline.Runner.Refilter.{still_passes, failing, retire_failing_jobs}
use job_aggregator.Storage.{Row}
use job_aggregator.Storage.Retire.{
  is_candidate, candidate_job, refilter_candidates, set_deleted, retire_jobs,
}
use job_aggregator.Storage.Retire.Laws.{retired, retire_jobs-map}

candidates-yes :
    (r : Row) (rows : List Row)
    → is_candidate r ≡ true
    → refilter_candidates (r ∷ rows) ≡ candidate_job r ∷ refilter_candidates rows
unfolding refilter_candidates
candidates-yes r rows c = rw c

candidates-no :
    (r : Row) (rows : List Row)
    → is_candidate r ≡ false
    → refilter_candidates (r ∷ rows) ≡ refilter_candidates rows
unfolding refilter_candidates
candidates-no r rows c = rw c

deleted_row : (r : Row) → is_candidate (set_deleted r) ≡ false
unfolding is_candidate set_deleted
deleted_row r = refl

module _ {F : Type 0} (env : Env F) (cfg : Config F) where
  -- Today's filters keep the job.
  abbrev pub Passes : Job → Type 0
  Passes job = still_passes env cfg job ≡ some true

  -- The job passes or is on the list.
  abbrev IsJudged : List String → Job → Type 0
  IsJudged uids job = Passes job ⊎ (contains uids job.job_uid ≡ true)

  IsJudged-cons :
      (uid : String) (uids : List String) (jobs : List Job)
      → All (IsJudged uids) jobs
      → All (IsJudged (uid ∷ uids)) jobs
  unfolding contains
  IsJudged-cons uid uids [] h = tt
  IsJudged-cons uid uids (job ∷ jobs) h =
      (elim (h.0) [ inl p ↦ inl p | inr on ↦ inr (ground arith) ], IsJudged-cons uid uids jobs h.1)

  failing-IsJudged :
      (jobs : List Job) (uids : List String)
      → failing env cfg jobs ≡ some uids
      → All (IsJudged uids) jobs
  unfolding failing
  failing-IsJudged [] uids h = tt
  failing-IsJudged (job ∷ jobs) uids h = elim (Option-cases (still_passes env cfg job)) [
    | inl e ↦ absurd (ground arith)
    | inr (keep, e) ↦ elim (Option-cases (failing env cfg jobs)) [
      | inl e' ↦ absurd (ground arith)
      | inr (rest, e') ↦
          let later = failing-IsJudged jobs rest e' in
          elim (Bool-cases keep) [
            | inl k ↦
                let same : rest ≡ uids = of_some (rw (e, e', k) at h) in
                (inl (e ∙ ap some k), subst (λ l. All (IsJudged l) jobs) same later)
            | inr k ↦
                let same : job.job_uid ∷ rest ≡ uids = of_some (rw (e, e', k) at h) in
                (
                  inr (
                      subst (λ l. contains l job.job_uid ≡ true) same
                        (unfold contains in rw (eq_refl job.job_uid) refl)),
                  subst (λ l. All (IsJudged l) jobs) same
                      (IsJudged-cons job.job_uid rest jobs later),
                )
          ]
    ]
  ]

  -- The candidates that are left all pass.
  left-Passes :
      (uids : List String) (rows : List Row)
      → All (IsJudged uids) (refilter_candidates rows)
      → All Passes (refilter_candidates (map (retired uids) rows))
  unfolding candidate_job
  left-Passes uids [] h = unfold refilter_candidates in tt
  left-Passes uids (r ∷ rows) h =
      let left = map (retired uids) rows in
      elim (Bool-cases (is_candidate r)) [
        | inl c ↦
            let (judged, h') = subst (All (IsJudged uids)) (candidates-yes r rows c) h in
            elim (Bool-cases (contains uids r.job_uid)) [
              | inl on ↦
                  let same : retired uids r ≡ set_deleted r = rw (on, c) in
                  subst (All Passes)
                    (sym (
                      ap (λ x. refilter_candidates (x ∷ left)) same
                      ∙ candidates-no (set_deleted r) left (deleted_row r)))
                    (left-Passes uids rows h')
              | inr off ↦
                  let same : retired uids r ≡ r = rw off in
                  subst (All Passes)
                    (sym (ap (λ x. refilter_candidates (x ∷ left)) same ∙ candidates-yes r left c))
                    (elim judged [ inl p ↦ p | inr on ↦ absurd (cc) ], left-Passes uids rows h')
            ]
        | inr c ↦
            let same : retired uids r ≡ r = ground arith in
            subst (All Passes)
              (sym (ap (λ x. refilter_candidates (x ∷ left)) same ∙ candidates-no r left c))
              (left-Passes uids rows (subst (All (IsJudged uids)) (candidates-no r rows c) h))
      ]

  failing-nil : (jobs : List Job) → All Passes jobs → failing env cfg jobs ≡ some []
  unfolding failing
  failing-nil [] h = refl
  failing-nil (job ∷ jobs) h = rw (h.0, failing-nil jobs h.1)

  -- Where the refilter returns, today's filters keep every job that it left and that it looks at,
  -- and a second refilter changes no row and retires none.
  pub retire_failing_jobs-twice :
      (rows : List Row) (out : List Row × ℕ)
      → retire_failing_jobs env cfg rows ≡ some out
      → All Passes (refilter_candidates out.0)
        × (retire_failing_jobs env cfg out.0 ≡ some (out.0, 0))
  unfolding retire_failing_jobs
  retire_failing_jobs-twice rows out h =
      elim (Option-cases (failing env cfg (refilter_candidates rows))) [
        | inl e ↦ absurd (ground arith)
        | inr (uids, e) ↦
            let same : retire_jobs rows uids ≡ out = of_some (rw e at h) in
            let clean : All Passes (refilter_candidates out.0) =
              subst (λ l. All Passes (refilter_candidates l))
                (sym (retire_jobs-map rows uids) ∙ ap (λ (o : List Row × ℕ). o.0) same)
                (left-Passes uids rows (failing-IsJudged (refilter_candidates rows) uids e)) in
            (clean, rw (failing-nil (refilter_candidates out.0) clean) (unfold retire_jobs in refl))
      ]
