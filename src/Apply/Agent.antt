-- ===== src/Apply/Agent.antt =====
-- apply/agent.py: the applicant's data from the profile, and the run of one application. The
-- session store and the browser are parameters.
use Prim.Native.String.{◌++◌ as text_append}
use job_aggregator.Prelude.{
  ℕ, String, Bool, true, false, not, ◌||◌, Option, none, some, List, [], ◌∷◌, ◌++◌, ◌==◌, coalesce,
  contains, given, if◌then◌else◌, map, take,
}
use job_aggregator.Errors.{Result, ok, raise, ◌>>=◌, other}
use job_aggregator.Models.{Job}
use job_aggregator.Pipeline.Signals.{concat_map, is_nil}
use job_aggregator.Resume.{Project, SkillGroup, Profile, Link, Education, Experience}
use job_aggregator.Resume.Tailor.{Backend, TailoredResume, tailor_resume}
use job_aggregator.Resume.Words.{Reader, join_texts}
use job_aggregator.Apply.Ats.{AtsForm, ats_forms, match_ats}
use job_aggregator.Apply.Driver.{Selectors}
use job_aggregator.Apply.Fields.{ApplicationFields}

-- What fill_form gives: the outcome of one fill, where `State` is a session's storage state.
pub record FillResult (State : Type 0) : Type 0 where
  pub filled : List String
  pub unfilled : List String
  pub needs_login : Bool
  pub new_state : Option State

-- The flags of the result: those of the résumé, and the one for a session that was not saved.
pub record ApplyResult : Type 0 where
  pub job_uid : String
  pub url : String
  pub ats : Option String
  pub resume_pdf : String
  pub filled : List String
  pub unfilled : List String
  pub needs_login : Bool
  pub submitted : Bool
  pub tailored : TailoredResume
  pub unsaved : List String

-- The text methods and (urlparse(url).netloc or "").lower().
pub record Names : Type 0 where
  pub strip : String → String
  pub lower : String → String
  pub split : String → List String
  pub rstrip : String → String
  pub netloc : String → String

module _ (names : Names) where
  open names use {strip, lower, split, rstrip, netloc}

  unfoldable pub detect_ats : String → Option AtsForm
  unfolding match_ats
  detect_ats url = if netloc url == "" then none else match_ats (netloc url) ats_forms

  abbrev pub split_parts : List String → String × String
  split_parts [] = ("", "")
  split_parts (first ∷ []) = (first, "")
  split_parts (first ∷ (second ∷ more)) = (first, join_texts " " (second ∷ more))

  unfoldable pub split_name : String → String × String
  split_name full = split_parts (split (strip full))

  unfoldable pub link_for : List Link → List String → Option String
  link_for [] labels = none
  link_for (l ∷ links) labels =
      let rest = link_for links labels in
      if contains labels (lower (strip l.label)) then some l.url else rest

  abbrev pub line_of : List String → String
  line_of parts = join_texts "" parts

  abbrev pub when : Bool → List String → List String
  when true lines = lines
  when false lines = []

  abbrev pub education_line : Education → List String
  education_line e =
      let grade : String = if given e.grade then text_append ", " (coalesce e.grade "") else "" in
      line_of ("Education: " ∷ e.degree ∷ ", " ∷ e.institution ∷ grade ∷ []) ∷ []

  abbrev pub bullet_line : String → String
  bullet_line bullet = text_append "    • " bullet

  abbrev pub experience_lines : Experience → List String
  experience_lines e =
      let dates : String =
        if given e.start || given e.end
        then line_of (" (" ∷ coalesce e.start "" ∷ " to " ∷ coalesce e.end "" ∷ ")" ∷ [])
        else "" in
      line_of ("Experience: " ∷ e.title ∷ ", " ∷ e.company ∷ dates ∷ []) ∷ map bullet_line e.bullets

  abbrev pub skill_text : SkillGroup → String
  skill_text s = line_of (s.category ∷ ": " ∷ join_texts ", " s.items ∷ [])

  abbrev pub project_lines : Project → List String
  project_lines p =
      let tech : String =
        if is_nil p.tech then "" else line_of (" [" ∷ join_texts ", " p.tech ∷ "]" ∷ []) in
      rstrip (line_of ("- " ∷ p.name ∷ ": " ∷ coalesce p.tagline "" ∷ tech ∷ []))
      ∷ map bullet_line (take 2 p.bullets)

  unfoldable pub build_background : Profile → String
  build_background profile = join_texts "\n" (
      when (given profile.summary) (coalesce profile.summary "" ∷ [])
      ++ (when (given profile.ambitions) (text_append "Aim: " (coalesce profile.ambitions "") ∷ [])
          ++ (concat_map education_line profile.education
              ++ (concat_map experience_lines profile.experience
                  ++ (when (not (is_nil profile.skills)) (
                        text_append "Skills — " (join_texts "; " (map skill_text profile.skills))
                        ∷ [])
                      ++ (when (not (is_nil profile.projects))
                            ("Projects:" ∷ concat_map project_lines profile.projects)
                          ++ when (not (is_nil profile.achievements)) (
                              text_append "Achievements: " (join_texts "; " profile.achievements)
                              ∷ [])))))))

  unfoldable pub build_fields : Profile → String → Option String → ApplicationFields
  unfolding build_background link_for split_name
  build_fields profile resume_pdf extra_context =
      let c = profile.contact in
      let name = split_name c.name in
      record {
        full_name = c.name;
        first_name = name.0;
        last_name = name.1;
        email = c.email;
        resume_path = resume_pdf;
        phone = c.phone;
        location = c.location;
        linkedin = link_for c.links ("linkedin" ∷ []);
        github = link_for c.links ("github" ∷ []);
        cover_note = none;
        extra_context = extra_context;
        background = some (build_background profile);
      }

  unfoldable pub application_jd : Job → Option String → String
  application_jd job none = text_append job.title (text_append "\n" (coalesce job.description ""))
  application_jd job (some context) =
      let jd = text_append job.title (text_append "\n" (coalesce job.description "")) in
      if strip context == ""
      then jd
      else text_append jd (text_append "\n\nAdditional context:\n" (strip context))

-- What a run uses: load_state; save_state, which saves (`none`), raises a ConfigError (its text) or
-- another exception; build_pdf on the file
-- for the job, which gives the résumé as trimmed, and fill_form of the driver.
pub record Outside (State : Type 0) : Type 0 where
  pub load_state : String → Result (Option State)
  pub save_state : String → State → Result (Option String)
  pub resume_path : String → String → String
  pub build_pdf : TailoredResume → String → Result TailoredResume
  pub fill_form :
      String → ApplicationFields → Option Selectors → Option State → Result (FillResult State)

module _ {State : Type 0} (names : Names) (reader : Reader) (outside : Outside State) where
  open outside use {load_state, save_state, resume_path, build_pdf, fill_form}

  abbrev pub flags_of : Option String → List String
  flags_of none = []
  flags_of (some message) = text_append "session not saved — " message ∷ []

  -- The flag for a session that a ConfigError kept from being saved.
  abbrev pub save_flags : String → Option State → Result (List String)
  save_flags domain none = ok []
  save_flags domain (some state) = do saved ← save_state domain state; ok (flags_of saved)

  unfoldable pub result_of :
      Job → Option AtsForm → String → TailoredResume → FillResult State → List String → ApplyResult
  result_of job ats pdf tailored filled unsaved = record {
    job_uid = job.job_uid;
    url = job.url;
    ats = elim ats [ none ↦ none | some form ↦ some form.name ];
    resume_pdf = pdf;
    filled = filled.filled;
    unfilled = filled.unfilled;
    needs_login = filled.needs_login;
    submitted = false;
    tailored = tailored;
    unsaved = unsaved;
  }

  -- From the tailored résumé on.
  unfoldable pub fill_job : Job → Profile → Option String → TailoredResume → Result ApplyResult
  fill_job job profile extra_context tailored =
      let pdf = resume_path job.company job.title in
      let ats = detect_ats names job.url in
      do
        trimmed ← build_pdf tailored pdf
        state ← load_state (names.netloc job.url)
        filled ←
            fill_form job.url (build_fields names profile pdf extra_context)
              (elim ats [ none ↦ none | some form ↦ some form.selectors ]) state
        unsaved ← save_flags (names.netloc job.url) filled.new_state
        ok (result_of job ats pdf trimmed filled unsaved)

  -- `auto_submit` and `enabled` are of cfg.apply.
  unfoldable pub apply_to_job :
      Bool → Bool → ℕ → Option Backend → Job → Profile → Option String → Result ApplyResult
  apply_to_job auto_submit enabled max_projects backend job profile extra_context =
      if auto_submit
      then raise
          (other "apply.auto_submit is not supported — you always review and submit yourself")
      else if not enabled
      then raise (other "apply.enabled is false — the browser apply agent is opt-in")
      else fill_job job profile extra_context (
          tailor_resume reader profile (application_jd names job extra_context) max_projects
            backend)
