-- ===== src/Paths.antt =====
-- paths.py: the file names of tailored résumés, as lists of code points. `lower` is str.lower, and
-- the résumés folder is the list of the names in it.
pub mod Names
use job_aggregator.Prelude.{
  ℕ, zero, suc, ◌+◌, String, Bool, true, false, not, ◌&&◌, ◌||◌, Option, none, some, List, [], ◌∷◌,
  ◌++◌, eqb, filter, if◌then◌else◌, length, reverse, take, ltb,
}
use job_aggregator.Pipeline.Dedup.{Word, codes, is_alnum}
use job_aggregator.Pipeline.Signals.{is_nil}

abbrev pub slug_max : ℕ
slug_max = 48

-- _SLUG_RE.sub("-", text); the Bool says whether the last character belongs to a run.
unfoldable pub dashed : Bool → Word → Word
dashed in_run [] = []
dashed in_run (c ∷ w) =
    let after = dashed false w in
    let inside = dashed true w in
    if is_alnum c then c ∷ after else if in_run then inside else 45 ∷ inside

unfoldable pub strip_left : Word → Word
strip_left [] = []
strip_left (c ∷ w) = let rest = strip_left w in if eqb c 45 then rest else c ∷ w

-- text.strip("-")
unfoldable pub strip_dashes : Word → Word
unfolding strip_left
strip_dashes w = reverse (strip_left (reverse (strip_left w)))

-- text or "unknown"
abbrev pub or_unknown : Word → Word
or_unknown [] = codes "unknown"
or_unknown (c ∷ w) = c ∷ w

-- What stands before the date in the name of a job's résumés.
abbrev pub underscore : ℕ
underscore = 95

unfoldable pub has_prefix : Word → Word → Bool
has_prefix [] w = true
has_prefix (p ∷ prefix) [] = false
has_prefix (p ∷ prefix) (c ∷ w) = eqb p c && has_prefix prefix w

unfoldable pub has_suffix : Word → Word → Bool
unfolding has_prefix
has_suffix suffix w = has_prefix (reverse suffix) (reverse w)

-- fnmatch of the pattern prefix*.pdf
abbrev pub is_match : Word → Word → Bool
is_match prefix name =
    has_prefix prefix name
    && has_suffix (codes ".pdf") name
    && not (ltb (length name) (length prefix + 4))

module _ (lower : Word → Word) where
  unfoldable pub slug : Word → Word
  unfolding dashed strip_dashes
  slug text = or_unknown (strip_dashes (take slug_max (strip_dashes (dashed false (lower text)))))

  unfoldable pub name_prefix : Word → Word → Word
  name_prefix company title = slug company ++ underscore ∷ (slug title ++ underscore ∷ [])

  -- The file of resume_path; `stamp` is the date in ISO form.
  unfoldable pub resume_name : Word → Word → Word → Word
  unfolding name_prefix
  resume_name company title stamp = name_prefix company title ++ (stamp ++ codes ".pdf")

-- Names by code points.
unfoldable pub word_ltb : Word → Word → Bool
word_ltb v [] = false
word_ltb [] (d ∷ w) = true
word_ltb (c ∷ v) (d ∷ w) = ltb c d || eqb c d && word_ltb v w

-- sorted(names)[-1], `none` for no names
unfoldable pub greatest : List Word → Option Word
unfolding word_ltb
greatest [] = none
greatest (name ∷ names) = elim (greatest names) [
  | none ↦ some name
  | some best ↦ some (if word_ltb best name then name else best)
]

unfoldable pub find_resume : (Word → Word) → List Word → Word → Word → Option Word
unfolding name_prefix has_prefix has_suffix greatest
find_resume lower names company title =
    greatest (filter (is_match (name_prefix lower company title)) names)
