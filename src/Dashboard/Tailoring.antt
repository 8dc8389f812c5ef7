-- ===== src/Dashboard/Tailoring.antt =====
-- dashboard/routes_jobs.py: tailoring from the dashboard, and the routes that serve a tailored PDF.
pub mod Served
use Prim.Native.String
use Prim.Native.String.{◌++◌ as text_append}
use job_aggregator.Prelude.{
  ℕ, zero, suc, String, Bool, true, false, not, ◌&&◌, ◌||◌, Option, none, some, List, [], ◌∷◌, ◌++◌,
  ◌==◌, any, coalesce, contains, eqb, if◌then◌else◌, is_some, leb, length,
}
use job_aggregator.Errors.{Error, Result, ok, raise, ◌>>=◌, not_found, other}
use job_aggregator.Paths.{find_resume, resume_name}
use job_aggregator.Pipeline.Dedup.{Word, codes, is_alnum, word_eq}
use job_aggregator.Resume.{Profile}
use job_aggregator.Resume.Fit.{Built}
use job_aggregator.Resume.Tailor.{Backend, TailoredResume, tailor_resume}
use job_aggregator.Resume.Words.{Reader}
use job_aggregator.Storage.{Row, find}
use job_aggregator.Dashboard.Detail.{row_description}
use job_aggregator.Dashboard.Launch.{Desk, effective_context}
use job_aggregator.Dashboard.Render.{Event, Html, html_to_text}

-- One or more of [a-z0-9-], and what follows them.
unfoldable pub skip_slug : Word → Word
skip_slug [] = []
skip_slug (c ∷ w) = let rest = skip_slug w in if is_alnum c || eqb c 45 then rest else c ∷ w

abbrev pub starts_slug : Word → Bool
starts_slug [] = false
starts_slug (c ∷ w) = is_alnum c || eqb c 45

-- The rest behind an underscore.
abbrev pub after_underscore : Word → Option Word
after_underscore [] = none
after_underscore (c ∷ w) = if eqb c 95 then some w else none

-- A part of slug characters and its underscore.
unfoldable pub slug_part : Word → Option Word
unfolding skip_slug
slug_part w = if starts_slug w then after_underscore (skip_slug w) else none

module _ (is_digit : ℕ → Bool) where
  -- The four, two and two digits of a date with their dashes, and ".pdf"; `$` also matches before
  -- a newline at the end.
  unfoldable pub is_dated_pdf : Word → Bool
  is_dated_pdf (a ∷ (b ∷ (c ∷ (d ∷ (e ∷ (f ∷ (g ∷ (h ∷ (i ∷ (j ∷ suffix)))))))))) =
      is_digit a
      && is_digit b
      && is_digit c
      && is_digit d
      && eqb e 45
      && is_digit f
      && is_digit g
      && eqb h 45
      && is_digit i
      && is_digit j
      && (word_eq suffix (codes ".pdf") || word_eq suffix (codes ".pdf\n"))
  is_dated_pdf _ = false

  -- _RESUME_NAME_RE
  unfoldable pub is_resume_name : Word → Bool
  is_resume_name w = elim (slug_part w) [
    | none ↦ false
    | some w₁ ↦ elim (slug_part w₁) [ none ↦ false | some w₂ ↦ is_dated_pdf w₂ ]
  ]

  -- The name of the file that is served; `files` are the names in the résumés folder.
  unfoldable pub resume_file : List Word → Word → Result Word
  resume_file files name =
      if not (is_resume_name name) || not (any (word_eq name) files)
      then raise not_found
      else ok name

-- What the routes use: load_profile, the texts and the HTML of descriptions, the model, the names of
-- files, build_pdf, which may also fail, and the uid pattern.
pub record Workshop : Type 0 where
  pub desk : Desk
  pub reader : Reader
  pub html : Html
  pub feed : String → List Event
  pub load_profile : Result Profile
  pub tailor_with_llm : Bool
  pub try_build_backend : Option Backend
  pub max_projects : ℕ
  pub lower : Word → Word
  pub today : Word
  pub build_pdf : TailoredResume → Built
  pub is_job_uid : String → Bool

-- The preview: the résumé as trimmed, whether there is a PDF, and the name of its file.
pub record Preview : Type 0 where
  pub rows : List Row
  pub tailored : TailoredResume
  pub pdf_ready : Bool
  pub pdf_name : Word

module _ (w : Workshop) where
  open w use {
    desk, reader, html, feed, load_profile, tailor_with_llm, try_build_backend, max_projects, lower,
    today, build_pdf, is_job_uid,
  }

  unfoldable pub tailor_backend : Option Backend
  tailor_backend = if tailor_with_llm then try_build_backend else none

  abbrev pub plain_text : Option String → String
  plain_text none = html_to_text html none
  plain_text (some raw) = html_to_text html (some (raw, feed raw))

  unfoldable pub build_jd : Row → String → String
  unfolding row_description
  build_jd r extra_context =
      let jd = text_append r.title (text_append "\n" (plain_text (row_description r))) in
      if desk.strip extra_context == ""
      then jd
      else text_append jd (text_append "\n\nAdditional context:\n" (desk.strip extra_context))

  -- Building the PDF after tailoring: a RenderError leaves the preview.
  unfoldable pub preview_of : List Row → TailoredResume → Word → Preview
  preview_of rows tailored name =
      let built = build_pdf tailored in
      record {
        rows = rows;
        tailored = built.tailored;
        pdf_ready = elim (built.outcome) [ ok b ↦ true | raise e ↦ false ];
        pdf_name = name;
      }

  unfoldable pub tailor_stored : List Row → String → Row → Option String → Result Preview
  unfolding build_jd tailor_backend preview_of
  tailor_stored rows uid r extra_context = do
    profile ← load_profile
    kept ← effective_context desk rows uid extra_context
    ok (
        preview_of kept.0
          (tailor_resume reader profile (build_jd r kept.1) max_projects tailor_backend)
          (resume_name lower (codes r.company) (codes r.title) today))

  unfoldable pub job_tailor : List Row → String → Option String → Result Preview
  job_tailor rows uid extra_context = elim (find uid rows) [
    | none ↦ raise not_found
    | some r ↦ tailor_stored rows uid r extra_context
  ]

  -- text.strip() or word
  abbrev pub stripped_or : String → String → String
  stripped_or text word = if desk.strip text == "" then word else desk.strip text

  unfoldable pub tailor_pasted_posting : List Row → String → String → String → Result Preview
  unfolding preview_of tailor_backend
  tailor_pasted_posting rows description company title =
      let role = stripped_or title "role" in
      do
        profile ← load_profile
        ok (
            preview_of rows
              (tailor_resume reader profile
                (text_append role (text_append "\n" (plain_text (some description)))) max_projects
                tailor_backend)
              (resume_name lower (codes (stripped_or company "company")) (codes role) today))

  -- The name of the newest file of the job.
  unfoldable pub job_resume_pdf : List Word → List Row → String → Result Word
  job_resume_pdf files rows uid =
      if not (is_job_uid uid) then raise not_found else elim (find uid rows) [
        | none ↦ raise not_found
        | some r ↦ elim (find_resume lower files (codes r.company) (codes r.title)) [
          | none ↦ raise not_found
          | some name ↦ ok name
        ]
      ]
