-- ===== src/Examples/Details.antt =====
-- The laws of the detail view, of tailoring and of the apply routes at example rows.
use job_aggregator.Prelude.{
  ◌&&◌, leb, Bool, ℕ, ◌+◌, ◌*◌, true, false, none, some, List, [], ◌∷◌, ◌≡◌, ◌==◌, refl, any, arith,
}
use job_aggregator.Errors.{ok}
use job_aggregator.Models.{JobStatus}
use job_aggregator.Models.Amount.{pos}
use job_aggregator.Pipeline.Dedup.{Word, codes, is_alnum, word_eq}
use job_aggregator.Paths.{resume_name, slug}
use job_aggregator.Paths.Names.{IsSlug, slug-IsSlug}
use job_aggregator.Resume.Latex.{esc}
use job_aggregator.Resume.Latex.Escape.{spelled, esc-eq-spelled}
use job_aggregator.Resume.Fit.{Built, build_pdf}
use job_aggregator.Resume.Fit.Page.{IsFitted, build_pdf-IsFitted}
use job_aggregator.Resume.Tailor.{TailoredResume, tailor_resume}
use job_aggregator.Storage.{Row, find}
use job_aggregator.Dashboard.Detail.{Viewer, Detail, job_detail}
use job_aggregator.Dashboard.Detail.Open.{job_detail-quiet}
use job_aggregator.Dashboard.Launch.{Desk, Launch}
use job_aggregator.Dashboard.Tailoring.{resume_file}
use job_aggregator.Dashboard.Tailoring.Served.{IsDate, date, resume_file-resume_name}
use job_aggregator.Examples.{posting, stored_row}
use job_aggregator.Examples.Apply.{host}
use job_aggregator.Examples.Dashboard.{html}
use job_aggregator.Examples.Resume.{profile, reader}
use job_aggregator.Examples.Sources.{finished_site}

abbrev viewer : Viewer
viewer = record {
  site = finished_site;
  fetch_page = λ url. ok none;
  contents = λ page. none;
  feed = λ text. [];
  html = html;
}

-- An applied row, checked half a day before noon of day 100.
abbrev half_checked : Row
half_checked =
    record (stored_row (posting "a" "unstop" "https://unstop.com/a") JobStatus.active true) {
      closure_checked_at = some (100 * 86_400_000_000);
    }

abbrev checked_rows : List Row
checked_rows = half_checked ∷ []

found : find "a" checked_rows ≡ some half_checked
unfolding find
found = refl

abbrev noon : ℕ
noon = 100 * 86_400_000_000 + 43_200_000_000

-- Two days later, when the check is due again.
abbrev two_days_later : ℕ
two_days_later = 102 * 86_400_000_000

job_detail-quiet_example :
    (d : Detail) × (job_detail viewer true checked_rows "a" noon ≡ ok d)
    × (d.requests ≡ [])
    × (d.rows ≡ checked_rows)
job_detail-quiet_example =
    job_detail-quiet viewer true checked_rows "a" noon (100 * 86_400_000_000) half_checked found
      (omega arith) refl (omega arith) refl

abbrev desk : Desk
desk = record {
  strip = λ t. t;
  splitlines = λ t. "engine: agentic" ∷ "ConfigError: no profile" ∷ "bye" ∷ [];
  in_docker = false;
  display = some ":0";
  wayland_display = none;
  has_playwright = true;
  has_cryptography = true;
  tectonic = none;
  pdflatex = some "/usr/bin/pdflatex";
  opens_log = none;
  spawned = ok 41;
  opens_registry = none;
  returncode = some (pos 1);
  log_text = some "log";
  is_error_line = λ line. line == "ConfigError: no profile";
  host = host;
}

esc-eq-spelled_example : esc "C# & {R}" ≡ spelled "C# & {R}"
esc-eq-spelled_example = esc-eq-spelled "C# & {R}" refl

abbrev tailored : TailoredResume
tailored = tailor_resume reader profile "databases" 4 none

build_pdf-IsFitted_example :
    (built : Built) × (build_pdf (λ t. t) (some "preamble") (λ tex. ok (some 2)) profile tailored
      ≡ some built)
    × IsFitted tailored.projects built.tailored.projects
build_pdf-IsFitted_example =
    build_pdf-IsFitted (λ t. t) (some "preamble") (λ tex. ok (some 2)) profile tailored

slug-IsSlug_example : IsSlug (slug (λ t. t) (codes "acme/../etc"))
slug-IsSlug_example = slug-IsSlug (λ t. t) (codes "acme/../etc")

abbrev is_digit : ℕ → Bool
is_digit c = leb 48 c && leb c 57

abbrev stamp : Word
stamp = codes "2026-11-26"

stamp-IsDate : IsDate is_digit stamp
stamp-IsDate = date 50 48 50 54 49 49 50 54 refl refl refl refl refl refl refl refl

abbrev own_name : Word
own_name = resume_name (λ t. t) (codes "acme") (codes "role") stamp

own_name-there : any (word_eq own_name) (own_name ∷ []) ≡ true
unfolding resume_name slug is_alnum
own_name-there = refl

resume_file-resume_name_example : resume_file is_digit (own_name ∷ []) own_name ≡ ok own_name
resume_file-resume_name_example =
    resume_file-resume_name is_digit (λ t. t) (codes "acme") (codes "role") stamp (own_name ∷ [])
      stamp-IsDate own_name-there
