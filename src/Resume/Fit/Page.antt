-- ===== src/Resume/Fit/Page.antt =====
-- How far trimming may go.
use mathlib.Core.Path.{subst}
use job_aggregator.Prelude.{
  ◌⊎◌, ℕ, zero, suc, ◌≤◌, ◌<◌, String, Option, none, some, List, [], ◌∷◌, ◌++◌, ◌≡◌, refl, ap, ◌∙◌,
  sym, arith, length, length-append, leb, ltb, min, Bool-cases, of_some, inl, inr,
}
use job_aggregator.Errors.{Result, ok, raise}
use job_aggregator.Resume.{Project, Profile, Flag, dropped_bullet, dropped_project}
use job_aggregator.Resume.Tailor.{TailoredResume}
use job_aggregator.Resume.Fit.{
  Engine, Built, Round, finished, again, go_on, round, build_within, build_pdf, compile,
  drop_middle, fits, size, trim_for_one_page, trim_last, trim_projects, trimmed,
}
use job_aggregator.Resume.Fit.Cut.{
  IsTrimmed, IsTrimmed-refl, IsTrimmed-trans, IsCut-drop_middle, length-drop_middle, IsSplit,
  split_last-IsSplit, IsTrimmed-front, IsTrimmed-last, size-append,
}

-- A step of trimming: fewer bullets or projects, and two projects at least, if there were.
pub record IsStep (old new : List Project) : Type 0 where
  pub cut : IsTrimmed old new
  pub smaller : size new < size old
  pub floor : min 2 (length old) ≤ length new

-- What a successful step left.
left : {a b : List Project × Flag} → some a ≡ some b → a.0 ≡ b.0
left h = ap (λ (x : List Project × Flag). x.0) (of_some h)

trim_last-IsStep :
    (front : List Project) (last : Project) (new : List Project) (flag : Flag)
    → trim_last (length (front ++ last ∷ [])) front last ≡ some (new, flag)
    → IsStep (front ++ last ∷ []) new
unfolding trim_last
trim_last-IsStep front last new flag h =
    let n = length (front ++ last ∷ []) in
    let cut : Project = record last { bullets = drop_middle last.bullets } in
    elim (Bool-cases (leb 3 (length last.bullets))) [
      | inl e ↦
          let taken : trim_last n front last ≡ some (front ++ cut ∷ [], dropped_bullet last.name) =
            rw (e, trim_last) refl in
          subst (IsStep (front ++ last ∷ [])) (left (sym taken ∙ h)) (record {
            cut = IsTrimmed-last front last cut (IsCut-drop_middle last last.bullets e);
            smaller = omega (
              arith,
              size-append front last,
              size-append front cut,
              length-drop_middle last.bullets e,
            );
            floor = omega (arith, length-append front (last ∷ []), length-append front (cut ∷ []));
          })
      | inr e ↦ elim (Bool-cases (ltb 2 n)) [
        | inl more ↦
            let taken : trim_last n front last ≡ some (front, dropped_project last.name) =
              rw (e, more, trim_last) refl in
            subst (IsStep (front ++ last ∷ [])) (left (sym taken ∙ h)) (record {
              cut = IsTrimmed-front front last;
              smaller = omega (arith, size-append front last);
              floor = ground (arith, length-append front (last ∷ []), more);
            })
        | inr few ↦
            let refused : trim_last n front last ≡ none = rw (e, few, trim_last) refl in absurd (cc)
      ]
    ]

trim_projects-IsStep :
    (projects : List Project) (split : Option (List Project × Project)) (new : List Project)
    (flag : Flag)
    → IsSplit projects split
    → trim_projects projects split ≡ some (new, flag)
    → IsStep projects new
trim_projects-IsStep projects none new flag is h = absurd (cc)
trim_projects-IsStep projects (some (front, last)) new flag is h =
    subst (λ ps. IsStep ps new) (sym is)
      (trim_last-IsStep front last new flag
        (ap (λ ps. trim_last (length ps) front last) (sym is) ∙ h))

trimmed-projects :
    (t t' : TailoredResume) (out : Option (List Project × Flag))
    → trimmed t out ≡ some t'
    → (flag : Flag) × (out ≡ some (t'.projects, flag))
trimmed-projects t t' none h = absurd (cc)
trimmed-projects t t' (some (projects, flag)) h =
    (flag, ap (λ ps. some (ps, flag)) (ap (λ (x : TailoredResume). x.projects) (of_some h)))

trim_for_one_page-IsStep :
    (t t' : TailoredResume) → trim_for_one_page t ≡ some t' → IsStep t.projects t'.projects
unfolding trim_for_one_page
trim_for_one_page-IsStep t t' h =
    let (flag, e) = trimmed-projects t t' _ h in
    trim_projects-IsStep t.projects _ t'.projects flag (split_last-IsSplit t.projects) e

-- What is left of the projects when the loop ends.
pub record IsFitted (old new : List Project) : Type 0 where
  pub cut : IsTrimmed old new
  pub floor : min 2 (length old) ≤ length new

module _ (trim : String → String) (preamble : Option String) (engine : Engine)
    (profile : Profile) where
  -- What one round comes to.
  abbrev IsNext : TailoredResume → Round → Type 0
  IsNext t (finished built) = built.tailored ≡ t
  IsNext t (again t') = IsStep t.projects t'.projects

  go_on-IsNext :
      (t : TailoredResume) (next : Option TailoredResume)
      → ((t' : TailoredResume) → next ≡ some t' → IsStep t.projects t'.projects)
      → IsNext t (go_on t next)
  go_on-IsNext t none h = refl
  go_on-IsNext t (some t') h = h t' refl

  round-IsNext :
      (t : TailoredResume) (pages : Result (Option ℕ))
      → IsNext t (round trim preamble engine profile t pages)
  unfolding round
  round-IsNext t (raise e) = refl
  round-IsNext t (ok pages) = elim (Bool-cases (fits pages)) [
    | inl e ↦ rw e refl
    | inr e ↦ rw e (go_on-IsNext t (trim_for_one_page t) (trim_for_one_page-IsStep t))
  ]

  Round-cases :
      (r : Round)
      → ((built : Built) × (r ≡ finished built)) ⊎ ((t : TailoredResume) × (r ≡ again t))
  Round-cases (finished built) = inl (built, refl)
  Round-cases (again t) = inr (t, refl)

  -- The loop ends within as many rounds as there are projects and bullets, whatever the engine
  -- answers.
  build_within-IsFitted :
      (n : ℕ) (t : TailoredResume)
      → size t.projects < n
      → (built : Built) × (build_within trim preamble engine profile n t ≡ some built)
        × IsFitted t.projects built.tailored.projects
  unfolding build_within
  build_within-IsFitted zero t h = absurd (omega arith)
  build_within-IsFitted (suc n) t h =
      let pages = compile trim preamble engine profile t in
      let r = round trim preamble engine profile t pages in
      let next : IsNext t r = round-IsNext t pages in
      elim (Round-cases r) [
        | inl (built, e) ↦
            let same : built.tailored ≡ t = subst (IsNext t) e next in
            (
              built,
              rw (e, build_within) refl,
              subst (λ (x : TailoredResume). IsFitted t.projects x.projects) (sym same)
                  (record { cut = IsTrimmed-refl t.projects; floor = omega arith }),
            )
        | inr (t', e) ↦
            let step : IsStep t.projects t'.projects = subst (IsNext t) e next in
            let fewer : size t'.projects < n = omega (arith, step.smaller) in
            let (built, ends, fit) = build_within-IsFitted n t' fewer in
            (
              built,
              rw (e, build_within) ends,
              record {
                cut = IsTrimmed-trans _ t'.projects _ (step.cut) (fit.cut);
                floor = omega (arith, step.floor, fit.floor);
              },
            )
      ]

  -- The loop that trims a résumé to one page ends, whatever page counts or errors the engine
  -- gives. What is left are the first projects in their order, each with bullets of its own among
  -- which its first and its last are kept, and two projects at least when there were two.
  pub build_pdf-IsFitted :
      (t : TailoredResume)
      → (built : Built) × (build_pdf trim preamble engine profile t ≡ some built)
        × IsFitted t.projects built.tailored.projects
  unfolding build_pdf
  build_pdf-IsFitted t = build_within-IsFitted (suc (size t.projects)) t (omega arith)
