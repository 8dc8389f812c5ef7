-- ===== src/Resume/Tailor.antt =====
-- resume/tailor.py: the reply of the model in sections, tailor_resume, and the share of the numbers
-- that the résumé keeps. `Backend` is backend.complete on the prompt for the given projects,
-- skills, posting and number of projects; the prompt's text is not modelled.
pub mod Truth
pub mod Kept
use job_aggregator.Prelude.{
  ℕ, String, Bool, true, false, not, ◌&&◌, ◌||◌, Option, none, some, List, [], ◌∷◌, ◌++◌, ◌==◌, any,
  coalesce, count, eqb, filter, if◌then◌else◌, is_some, length, map, sorted, take,
}
use job_aggregator.Pipeline.Dedup.{Word, word_eq}
use job_aggregator.Pipeline.Signals.{concat_map, is_nil}
use job_aggregator.Resume.{
  Project, SkillGroup, Profile, Flag, no_skills_row, keyword_ranking, tailoring_skipped,
  lost_numbers,
}
use job_aggregator.Resume.Guard.{
  Sections, has_number, guard_bullets, guard_skills, section, put_section,
}
use job_aggregator.Resume.Select.{select_projects, select_skills}
use job_aggregator.Resume.Words.{Reader, after_prefix, jd_keywords, join_texts, known_tech, numbers}
use job_aggregator.Pipeline.Dedup.{codes}

-- What the call gives: AgentError with its text, or the completion.
pub data Reply : Type 0 where
  agent_error answered : String → Reply

abbrev pub Backend : Type 0
Backend = List Project → List SkillGroup → String → ℕ → Reply

-- The fraction `kept / facts`.
pub record Share : Type 0 where
  pub kept : ℕ
  pub facts : ℕ

pub record TailoredResume : Type 0 where
  pub projects : List Project
  pub skills : List SkillGroup
  pub summary : String
  pub preservation : Share
  pub jd_keywords : List String
  pub flags : List Flag
  pub used_llm : Bool
  pub needs : List String

-- _MAX_CANDIDATES
abbrev pub max_candidates : ℕ
max_candidates = 40

-- sections.setdefault(name, [])
unfoldable pub open_section : String → Sections → Sections
unfolding section
open_section name sections =
    if is_some (section name sections) then sections else sections ++ (name, []) ∷ []

-- sections.pop(name, [])[0], and what is left
unfoldable pub drop_section : String → Sections → Sections
drop_section name [] = []
drop_section name ((key, lines) ∷ sections) =
    let rest = drop_section name sections in if key == name then sections else (key, lines) ∷ rest

-- {p.name: p for p in projects}.get(name): the last project with the name.
unfoldable pub project_of : String → List Project → Option Project
project_of name [] = none
project_of name (p ∷ projects) = elim (project_of name projects) [
  | some later ↦ some later
  | none ↦ if p.name == name then some p else none
]

-- The sections of known projects, in order.
unfoldable pub chosen : List Project → Sections → List (Project × List String)
unfolding project_of
chosen projects [] = []
chosen projects ((name, lines) ∷ sections) =
    let rest = chosen projects sections in
    elim (project_of name projects) [ none ↦ rest | some p ↦ (p, lines) ∷ rest ]

-- A set of numbers, without repetitions.
unfoldable pub distinct : List Word → List Word
distinct [] = []
distinct (n ∷ ns) = let rest = distinct ns in if has_number rest n then rest else n ∷ rest

-- What the code path through the model leaves in the variables of tailor_resume.
pub record Draft : Type 0 where
  pub tailored : List Project
  pub skills : List SkillGroup
  pub flags : List Flag
  pub used_llm : Bool
  pub needs : List String

module _ (reader : Reader) where
  open reader use {strip, splitlines, drop_prefix}

  -- _strip_bullet
  unfoldable pub strip_bullet : String → String
  strip_bullet line = strip (drop_prefix line)

  -- The body of the loop of _parse_rewrite: a header, or a line of the current section.
  unfoldable pub parse_line :
      String → Sections × Option String → Option String → Sections × Option String
  unfolding open_section section put_section strip_bullet
  parse_line stripped (sections, current) (some header) =
      (open_section (strip header) sections, some (strip header))
  parse_line stripped (sections, none) none = (sections, none)
  parse_line stripped (sections, some name) none =
      if stripped == "" || is_some (after_prefix (codes "(") stripped)
      then (sections, some name)
      else (
        put_section name (coalesce (section name sections) [] ++ strip_bullet stripped ∷ [])
            sections,
        some name,
      )

  unfoldable pub parse_lines : List String → Sections × Option String → Sections × Option String
  unfolding parse_line after_prefix
  parse_lines [] out = out
  parse_lines (line ∷ lines) out =
      parse_lines lines (parse_line (strip line) out (after_prefix (codes "### ") (strip line)))

  unfoldable pub parse_rewrite : String → List Project → Sections
  unfolding parse_lines strip_bullet
  parse_rewrite raw (p ∷ []) =
      let sections = (parse_lines (splitlines raw) ([], none)).0 in
      if is_nil sections
      then (
        p.name,
        map (λ l. strip_bullet (strip l)) (filter (λ l. not (strip l == "")) (splitlines raw)),
      )
        ∷ []
      else sections
  parse_rewrite raw projects = (parse_lines (splitlines raw) ([], none)).0

  -- The loop over the chosen projects.
  unfoldable pub rewrite_all : List String → List (Project × List String) → List Project × List Flag
  unfolding guard_bullets
  rewrite_all tech [] = ([], [])
  rewrite_all tech ((p, lines) ∷ picks) =
      let (bullets, flags) = guard_bullets reader p lines tech in
      let (projects, more) = rewrite_all tech picks in
      (record p { bullets = bullets } ∷ projects, flags ++ more)

  -- The skills of a reply that named a project: the row of the model, or those selected before.
  unfoldable pub reply_skills :
      List SkillGroup → List SkillGroup × List Flag → List SkillGroup × List Flag
  reply_skills selected ([], flags) = (selected, flags ++ no_skills_row ∷ [])
  reply_skills selected (g ∷ groups, flags) = (g ∷ groups, flags)

  -- The sections without the two reserved ones, which are popped unless a project has their name.
  abbrev pub reserved : String → List Project → Sections → List String × Sections
  reserved name candidates sections =
      if is_some (project_of name candidates)
      then ([], sections)
      else (coalesce (section name sections) [], drop_section name sections)

  -- The variables after the loop, whose projects and flags are given with the skills of the reply.
  unfoldable pub draft_with :
      List SkillGroup
      → List String
      → List Flag
      → List Project × List Flag
      → List SkillGroup × List Flag
      → Draft
  unfolding reply_skills
  draft_with selected needs flags ([], gflags) rows = record {
    tailored = [];
    skills = selected;
    flags = flags;
    used_llm = false;
    needs = needs;
  }
  draft_with selected needs flags (p ∷ tailored, gflags) rows =
      let (skills, sflags) = reply_skills selected rows in
      record {
        tailored = p ∷ tailored;
        skills = skills;
        flags = flags ++ (gflags ++ sflags);
        used_llm = true;
        needs = needs;
      }

  -- The block for a backend, with the sections and the flags that the call left.
  unfoldable pub draft_of : Profile → List SkillGroup → ℕ → Sections → List Flag → Draft
  unfolding draft_with chosen rewrite_all guard_skills known_tech
  draft_of profile selected max_projects sections flags =
      let candidates = take max_candidates profile.projects in
      let (needs, sections₁) = reserved "NEEDS" candidates sections in
      let (skill_lines, sections₂) = reserved "SKILLS" candidates sections₁ in
      draft_with selected needs flags
        (rewrite_all (known_tech reader profile) (take max_projects (chosen candidates sections₂)))
        (guard_skills reader skill_lines profile.skills)

  unfoldable pub read_reply : Profile → List SkillGroup → ℕ → Reply → Draft
  unfolding draft_of parse_rewrite
  read_reply profile selected max_projects (agent_error text) =
      draft_of profile selected max_projects [] (tailoring_skipped text ∷ [])
  read_reply profile selected max_projects (answered raw) =
      draft_of profile selected max_projects
        (parse_rewrite raw (take max_candidates profile.projects)) []

  abbrev pub no_draft : List SkillGroup → Draft
  no_draft selected = record {
    tailored = [];
    skills = selected;
    flags = [];
    used_llm = false;
    needs = [];
  }

  -- if backend is not None and profile.projects
  unfoldable pub drafted : Profile → List SkillGroup → String → ℕ → Option Backend → Draft
  unfolding read_reply
  drafted profile selected jd max_projects none = no_draft selected
  drafted profile selected jd max_projects (some complete) =
      if is_nil profile.projects
      then no_draft selected
      else read_reply profile selected max_projects
          (complete (take max_candidates profile.projects) profile.skills jd max_projects)

  -- _preservation
  unfoldable pub preservation : List String → List String → Share
  unfolding distinct
  preservation original tailored =
      let src = distinct (concat_map (numbers reader) original) in
      let out = concat_map (numbers reader) tailored in
      if is_nil src
      then record { kept = 1; facts = 1 }
      else record { kept = count (has_number out) src; facts = length src }

  -- The bullets of the profile's project with this name, which is always there.
  unfoldable pub source_bullets : Profile → Project → List String
  unfolding project_of
  source_bullets profile p = elim (project_of p.name profile.projects) [
    | none ↦ []
    | some source ↦ source.bullets
  ]

  -- The flags of the projects that kept none of their numbers.
  unfoldable pub lost_flags : Profile → List Project → List Flag
  unfolding source_bullets numbers join_texts
  lost_flags profile [] = []
  lost_flags profile (p ∷ projects) =
      let source = numbers reader (join_texts " " (source_bullets profile p)) in
      let own = numbers reader (join_texts " " p.bullets) in
      let rest = lost_flags profile projects in
      if not (is_nil source) && not (any (has_number source) own)
      then lost_numbers p.name ∷ rest
      else rest

  -- The projects of the draft, or of the ranking by keywords when there are none.
  unfoldable pub tailored_projects : Profile → List String → ℕ → List Project → List Project
  unfolding select_projects
  tailored_projects profile keywords max_projects [] =
      select_projects reader profile.projects keywords max_projects
  tailored_projects profile keywords max_projects (p ∷ projects) = p ∷ projects

  unfoldable pub tailor_resume : Profile → String → ℕ → Option Backend → TailoredResume
  unfolding drafted tailored_projects preservation source_bullets lost_flags select_skills
      jd_keywords
  tailor_resume profile jd max_projects backend =
      let keywords = jd_keywords reader jd in
      let selected = select_skills reader profile.skills keywords in
      let d = drafted profile selected jd max_projects backend in
      let projects = tailored_projects profile keywords max_projects d.tailored in
      let fallback =
        if is_nil d.tailored && (is_some backend && not d.used_llm)
        then keyword_ranking ∷ []
        else [] in
      record {
        projects = projects;
        skills = d.skills;
        summary = coalesce profile.summary "";
        preservation =
            preservation (concat_map (source_bullets profile) projects)
              (concat_map (λ (p : Project). p.bullets) projects);
        jd_keywords = sorted keywords;
        flags = d.flags ++ (fallback ++ lost_flags profile projects);
        used_llm = d.used_llm;
        needs = d.needs;
      }
