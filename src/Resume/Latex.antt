-- ===== src/Resume/Latex.antt =====
-- resume/render.py: the LaTeX document of a tailored résumé.
pub mod Escape
use Prim.Native.String
use Prim.Native.String.{◌++◌ as text_append}
use Prim.Native.Char.{code}
use job_aggregator.Prelude.{
  given, ℕ, String, Bool, true, false, not, Option, none, some, List, [], ◌∷◌, ◌++◌, ◌==◌, coalesce,
  eqb, filter, if◌then◌else◌, map,
}
use job_aggregator.Errors.{Result, ok, raise, other}
use job_aggregator.Pipeline.Signals.{is_nil}
use job_aggregator.Resume.{Project, SkillGroup, Profile, Link, Contact, Education, Experience}
use job_aggregator.Resume.Tailor.{TailoredResume}
use job_aggregator.Resume.Words.{join_texts}

-- _LATEX_REPLACEMENTS: a character by its code point, and what takes its place.
abbrev pub latex_replacements : List (ℕ × String)
latex_replacements =
    (92, "\\textbackslash{}")
    ∷ (38, "\\&")
    ∷ (37, "\\%")
    ∷ (36, "\\$")
    ∷ (35, "\\#")
    ∷ (95, "\\_")
    ∷ (123, "\\{")
    ∷ (125, "\\}")
    ∷ (126, "\\textasciitilde{}")
    ∷ (94, "\\textasciicircum{}")
    ∷ []

-- text.replace(target, repl), for a target of one character
unfoldable pub replace : ℕ → String → String → String
replace k repl String.[] = ""
replace k repl (String.◌∷◌ c t) =
    let rest = replace k repl t in
    if eqb (code c) k then text_append repl rest else String.◌∷◌ c rest

unfoldable pub replace_all : List (ℕ × String) → String → String
replace_all [] t = t
replace_all ((k, repl) ∷ more) t = replace_all more (replace k repl t)

unfoldable pub esc : String → String
unfolding replace_all replace
esc t = replace_all latex_replacements t

-- The parts of a text, one after the other.
abbrev pub texts : List String → String
texts parts = join_texts "" parts

unfoldable pub print_bullets : List String → String
print_bullets items = texts (
    "    \\resumeItemListStart\n"
    ∷ join_texts "\n" (map (λ b. texts ("      \\resumeItem{" ∷ esc b ∷ "}" ∷ [])) items)
    ∷ "\n    \\resumeItemListEnd"
    ∷ [])

unfoldable pub print_link : Link → String
print_link l = texts ("\\hrefuline{" ∷ esc l.url ∷ "}{" ∷ esc l.label ∷ "}" ∷ [])

unfoldable pub header : Contact → String
header c =
    let phone : List String = if given c.phone then esc (coalesce c.phone "") ∷ [] else [] in
    let mail = texts ("\\hrefuline{mailto:" ∷ esc c.email ∷ "}{" ∷ esc c.email ∷ "}" ∷ []) in
    texts (
      "\\begin{center}\n    {\\large \\scshape "
      ∷ esc c.name
      ∷ "} \\\\ \\vspace{3pt}\n    \\small\n    "
      ∷ join_texts " $|$\n    " (phone ++ (mail ∷ map print_link c.links))
      ∷ "\n\\end{center}"
      ∷ [])

unfoldable pub print_project : Project → String
print_project p =
    let tagline : String =
      if given p.tagline
      then texts (" \\textmd{\\textnormal{--- " ∷ esc (coalesce p.tagline "") ∷ "}}" ∷ [])
      else "" in
    let heading = texts (
      "  \\resumeProjectHeading\n    {\\hrefuline{"
      ∷ esc (coalesce p.url "")
      ∷ "}{"
      ∷ esc p.name
      ∷ tagline
      ∷ "}}"
      ∷ []) in
    let tech : List String =
      if is_nil p.tech
      then []
      else texts ("  \\techstack{" ∷ esc (join_texts ", " p.tech) ∷ "}" ∷ []) ∷ [] in
    join_texts "\n" (heading ∷ (tech ++ print_bullets p.bullets ∷ []))

-- A section between the macros that open and close a list of headings.
unfoldable pub print_section : String → List String → String
print_section name blocks = texts (
    "\\section{"
    ∷ name
    ∷ "}\n\\resumeSubHeadingListStart\n\n"
    ∷ join_texts "\n\n" blocks
    ∷ "\n\n\\resumeSubHeadingListEnd"
    ∷ [])

abbrev pub print_projects : TailoredResume → String
print_projects tailored = print_section "Projects" (map print_project tailored.projects)

-- A name as a link, when there is a URL.
unfoldable pub named : String → Option String → String
named name url =
    if given url
    then texts ("\\hrefplain{" ∷ esc (coalesce url "") ∷ "}{" ∷ esc name ∷ "}" ∷ [])
    else esc name

-- `trim` is str.strip(" -").
module _ (trim : String → String) where
  unfoldable pub dates : Option String → Option String → String
  dates start end = esc (trim (texts (coalesce start "" ∷ " -- " ∷ coalesce end "" ∷ [])))

  unfoldable pub print_experience : Experience → String
  print_experience e =
      let bullets : String =
        if is_nil e.bullets then "" else text_append "\n" (print_bullets e.bullets) in
      texts (
        "  \\resumeSubheading\n    {"
        ∷ named e.company e.url
        ∷ "}{"
        ∷ dates e.start e.end
        ∷ "}\n    {"
        ∷ esc e.title
        ∷ "}{"
        ∷ esc (coalesce e.location "")
        ∷ "}"
        ∷ bullets
        ∷ [])

  unfoldable pub print_education : Education → String
  print_education e =
      let degree : String =
        if given e.grade then texts (e.degree ∷ ", " ∷ coalesce e.grade "" ∷ []) else e.degree in
      texts (
        "  \\resumeEduHeading\n    {"
        ∷ named e.institution e.url
        ∷ "}{"
        ∷ dates e.start e.end
        ∷ "}\n    {"
        ∷ esc degree
        ∷ "}{"
        ∷ esc (coalesce e.location "")
        ∷ "}"
        ∷ [])

  abbrev pub print_experiences : List Experience → String
  print_experiences items =
      if is_nil items then "" else print_section "Experience" (map print_experience items)

  abbrev pub print_educations : List Education → String
  print_educations items =
      if is_nil items then "" else print_section "Education" (map print_education items)

unfoldable pub print_skills : List SkillGroup → String
print_skills groups =
    let row = λ (g : SkillGroup).
      texts ("\\textbf{" ∷ esc g.category ∷ "} & " ∷ esc (join_texts ", " g.items) ∷ []) in
    if is_nil groups
    then ""
    else texts (
        "\\section{Technical Skills}\n\\begin{itemize}[leftmargin=0.0in, label={}]\n\\small{\\item{\n\\begin{tabularx}{\\linewidth}{@{}l@{\\hspace{1.5em}}X@{}}\n  "
        ∷ join_texts " \\\\[2pt]\n  " (map row groups)
        ∷ " \\\\\n\\end{tabularx}\n}}\n\\end{itemize}"
        ∷ [])

unfoldable pub print_achievements : List String → String
print_achievements items =
    if is_nil items
    then ""
    else texts (
        "\\section{Achievements}\n\\resumeSubHeadingListStart\n  \\item\n"
        ∷ print_bullets items
        ∷ "\n\\resumeSubHeadingListEnd"
        ∷ [])

-- `preamble` is the template before its \begin{document}, `none` when it has none: a RenderError.
unfoldable pub render_latex :
    (String → String) → Option String → Profile → TailoredResume → Result String
render_latex trim none profile tailored = raise (other "template has no \\begin{document}")
render_latex trim (some preamble) profile tailored =
    let sections =
      header profile.contact
      ∷ print_experiences trim profile.experience
      ∷ print_projects tailored
      ∷ print_educations trim profile.education
      ∷ print_skills tailored.skills
      ∷ print_achievements profile.achievements
      ∷ [] in
    ok (
      texts (
        preamble
        ∷ "\\begin{document}\n\n"
        ∷ join_texts "\n\n" (filter (λ s. not (s == "")) sections)
        ∷ "\n\n\\end{document}\n"
        ∷ []))
