-- ===== src/Resume/Fit.antt =====
-- resume/render.py: the trimming of a résumé to one page. `Engine` is _compile of a document: a
-- RenderError, or the number of pages that the log names.
pub mod Cut
pub mod Page
use job_aggregator.Prelude.{
  ℕ, zero, suc, ◌+◌, String, Bool, true, false, Option, none, some, List, [], ◌∷◌, ◌++◌,
  if◌then◌else◌, leb, length, ltb, total,
}
use job_aggregator.Errors.{Result, ok, raise, ◌>>=◌}
use job_aggregator.Resume.{Project, Profile, Flag, dropped_bullet, dropped_project}
use job_aggregator.Resume.Latex.{render_latex}
use job_aggregator.Resume.Tailor.{TailoredResume}

abbrev pub middle_bullet_min : ℕ
middle_bullet_min = 3

abbrev pub min_projects_when_fitting : ℕ
min_projects_when_fitting = 2

-- [bullets[0], *bullets[2:]]
unfoldable pub drop_middle : List String → List String
drop_middle [] = []
drop_middle (b ∷ []) = b ∷ []
drop_middle (b ∷ (c ∷ bullets)) = b ∷ bullets

-- The list without its last entry, and that entry.
abbrev pub snoc : Project → Option (List Project × Project) → List Project × Project
snoc p none = ([], p)
snoc p (some (front, last)) = (p ∷ front, last)

unfoldable pub split_last : List Project → Option (List Project × Project)
split_last [] = none
split_last (p ∷ projects) = some (snoc p (split_last projects))

-- One step of trimming; `none` when nothing more may go.
unfoldable pub trim_last : ℕ → List Project → Project → Option (List Project × Flag)
unfolding drop_middle
trim_last n front last =
    if leb middle_bullet_min (length last.bullets)
    then some
        (front ++ record last { bullets = drop_middle last.bullets } ∷ [], dropped_bullet last.name)
    else if ltb min_projects_when_fitting n
    then some (front, dropped_project last.name)
    else none

abbrev pub trim_projects :
    List Project → Option (List Project × Project) → Option (List Project × Flag)
trim_projects projects none = none
trim_projects projects (some (front, last)) = trim_last (length projects) front last

abbrev pub trimmed : TailoredResume → Option (List Project × Flag) → Option TailoredResume
trimmed t none = none
trimmed t (some (projects, flag)) =
    some (record t { projects = projects; flags = t.flags ++ flag ∷ [] })

unfoldable pub trim_for_one_page : TailoredResume → Option TailoredResume
trim_for_one_page t = trimmed t (trim_projects t.projects (split_last t.projects))

abbrev pub Engine : Type 0
Engine = String → Result (Option ℕ)

-- pages is None or pages <= 1
abbrev pub fits : Option ℕ → Bool
fits none = true
fits (some n) = leb n 1

-- What each step of trimming lowers.
abbrev pub size : List Project → ℕ
size projects = total (λ (p : Project). suc (length p.bullets)) projects

-- The résumé as it was trimmed, and whether a PDF was written.
pub record Built : Type 0 where
  pub tailored : TailoredResume
  pub outcome : Result Bool

pub data Round : Type 0 where
  finished : Built → Round
  again : TailoredResume → Round

abbrev pub go_on : TailoredResume → Option TailoredResume → Round
go_on t none = finished (record { tailored = t; outcome = ok true })
go_on t (some t') = again t'

module _ (trim : String → String) (preamble : Option String) (engine : Engine)
    (profile : Profile) where
  unfoldable pub compile : TailoredResume → Result (Option ℕ)
  compile t = render_latex trim preamble profile t >>= engine

  -- One round of the `while` loop: it ends with a result, or goes on with a shorter résumé.
  unfoldable pub round : TailoredResume → Result (Option ℕ) → Round
  round t (raise e) = finished (record { tailored = t; outcome = raise e })
  round t (ok pages) =
      if fits pages
      then finished (record { tailored = t; outcome = ok true })
      else go_on t (trim_for_one_page t)

  -- The loop with a bound on its rounds, `none` when it is used up.
  unfoldable pub build_within : ℕ → TailoredResume → Option Built
  build_within zero t = none
  build_within (suc n) t = elim (round t (compile t)) [
    | finished built ↦ some built
    | again t' ↦ build_within n t'
  ]

  unfoldable pub build_pdf : TailoredResume → Option Built
  build_pdf t = build_within (suc (size t.projects)) t
