-- ===== src/Resume/Words.antt =====
-- resume/tailor.py: the words, numbers and technology names of a text. A text is read as its code
-- points; the character classes of `re` and the text methods of Python are parameters.
use Prim.Native.Char.{code}
use Prim.Native.String.{◌++◌ as text_append}
use job_aggregator.Prelude.{
  ℕ, String, Bool, true, false, not, ◌&&◌, ◌||◌, Option, none, some, List, [], ◌∷◌, ◌++◌, contains,
  add, coalesce, eqb, filter, if◌then◌else◌, leb, length, map, reverse,
}
use job_aggregator.Pipeline.Dedup.{Word, codes}
use job_aggregator.Pipeline.Signals.{concat_map}
use job_aggregator.Resume.{Project, SkillGroup, Profile}

-- Python's text methods, and the patterns of the module that have a character class or a set of
-- separators only: re.findall, re.split and re.sub with them.
pub record Reader : Type 0 where
  pub strip : String → String
  pub casefold : String → String
  pub splitlines : String → List String
  -- \w and \d, and the comparison of characters under re.IGNORECASE
  pub is_word : ℕ → Bool
  pub is_digit : ℕ → Bool
  pub same_letter : ℕ → ℕ → Bool
  -- _TOKEN_RE.findall(text.lower())
  pub findall_tokens : String → List String
  -- _TECH_SPLIT_RE.split, _NAME_LIKE_RE.search
  pub split_tech : String → List String
  pub name_like : String → Bool
  -- _BULLET_PREFIX_RE.sub("", line)
  pub drop_prefix : String → String
  -- text.strip("*"), text.rstrip(".")
  pub strip_stars : String → String
  pub drop_dots : String → String
  -- _SKILL_ITEM_SPLIT_RE.split
  pub split_items : String → List String

abbrev pub stopwords : List String
stopwords =
    "the" ∷ "and" ∷ "for" ∷ "with" ∷ "you" ∷ "our" ∷ "are" ∷ "will" ∷ "have" ∷ "who" ∷ "this"
    ∷ "that" ∷ "your" ∷ "their" ∷ "from" ∷ "was" ∷ "were" ∷ "has" ∷ "had" ∷ "not" ∷ "but" ∷ "all"
    ∷ "any" ∷ "can" ∷ "job" ∷ "role" ∷ "team" ∷ "work" ∷ "working" ∷ "experience" ∷ "years" ∷ "year"
    ∷ "strong" ∷ "good" ∷ "using" ∷ "used" ∷ "use" ∷ "including" ∷ "etc" ∷ "such" ∷ "must"
    ∷ "should" ∷ "well" ∷ "able" ∷ "looking" ∷ "candidate" ∷ "candidates" ∷ "responsibilities"
    ∷ "requirements" ∷ "skills" ∷ "ability" ∷ "knowledge" ∷ "understanding" ∷ "plus" ∷ "preferred"
    ∷ "required" ∷ "we" ∷ "a" ∷ "an" ∷ "in" ∷ "on" ∷ "of" ∷ "to" ∷ "as" ∷ "is" ∷ "or" ∷ "at" ∷ "be"
    ∷ "by" ∷ "it" ∷ []

-- set(texts), and the union of two sets
unfoldable pub add_all : List String → List String → List String
add_all s [] = s
add_all s (x ∷ xs) = add_all (add s x) xs

-- sep.join(texts)
unfoldable pub join_texts : String → List String → String
join_texts sep [] = ""
join_texts sep (x ∷ []) = x
join_texts sep (x ∷ (y ∷ xs)) = text_append x (text_append sep (join_texts sep (y ∷ xs)))

abbrev pub text_length : String → ℕ
text_length t = length (codes t)

-- The rest of the text behind the mark, when it starts with it.
unfoldable pub after_prefix : List ℕ → String → Option String
after_prefix [] t = some t
after_prefix (k ∷ mark) String.[] = none
after_prefix (k ∷ mark) (String.◌∷◌ c t) =
    let rest = after_prefix mark t in if eqb k (code c) then rest else none

-- text.partition(":"), `none` where there is no colon.
unfoldable pub partition : String → Option (String × String)
partition String.[] = none
partition (String.◌∷◌ c t) =
    let rest = partition t in
    if eqb (code c) 58
    then some ("", t)
    else elim rest [ none ↦ none | some (before, after) ↦ some (String.◌∷◌ c before, after) ]

-- A number that _NUMBER_RE is in the middle of: its characters, the last one first and without
-- commas, and whether the point was read.
pub data Scan : Type 0 where
  outside : Scan
  inside : Word → Bool → Scan

-- n.rstrip("."), of a number with at most one point
abbrev pub drop_point : Word → Word
drop_point [] = []
drop_point (c ∷ w) = if eqb c 46 then w else c ∷ w

abbrev pub emit : Scan → List Word → List Word
emit outside found = found
emit (inside w pointed) found = reverse (drop_point w) ∷ found

module _ (reader : Reader) where
  open reader use {strip, is_word, is_digit, same_letter, findall_tokens, split_tech, name_like}

  -- What one character makes of the number, and the number that ends before it.
  unfoldable pub scan_char : ℕ → Scan → Scan × Scan
  scan_char c outside = (if is_digit c then inside (c ∷ []) false else outside, outside)
  scan_char c (inside w pointed) =
      if is_digit c
      then (inside (c ∷ w) pointed, outside)
      else if pointed
      then (outside, inside w pointed)
      else if eqb c 44
      then (inside w pointed, outside)
      else if eqb c 46
      then (inside (46 ∷ w) true, outside)
      else (outside, inside w pointed)

  unfoldable pub scan_numbers : Scan → List ℕ → List Word
  unfolding scan_char
  scan_numbers s [] = emit s []
  scan_numbers s (c ∷ text) = let (s', ended) = scan_char c s in emit ended (scan_numbers s' text)

  -- _numbers
  unfoldable pub numbers : String → List Word
  unfolding scan_numbers
  numbers text = scan_numbers outside (codes text)

  -- [\w+#]
  unfoldable pub is_name_char : ℕ → Bool
  is_name_char c = is_word c || eqb c 43 || eqb c 35

  -- (?![\w+#])
  unfoldable pub ends : List ℕ → Bool
  unfolding is_name_char
  ends [] = true
  ends (c ∷ t) = not (is_name_char c)

  -- [\d.]*(?![\w+#])
  unfoldable pub version_ends : List ℕ → Bool
  unfolding ends
  version_ends [] = true
  version_ends (c ∷ t) =
      let rest = version_ends t in ends (c ∷ t) || (is_digit c || eqb c 46) && rest

  -- (?:\d[\d.]*)?(?![\w+#])
  unfoldable pub term_ends : List ℕ → Bool
  unfolding version_ends ends
  term_ends [] = true
  term_ends (c ∷ t) = ends (c ∷ t) || is_digit c && version_ends t

  unfoldable pub term_stands : (ℕ → ℕ → Bool) → List ℕ → List ℕ → Bool
  unfolding term_ends
  term_stands same [] t = term_ends t
  term_stands same (k ∷ term) [] = false
  term_stands same (k ∷ term) (c ∷ t) = same k c && term_stands same term t

  -- re.search of the pattern; `free` says that the lookbehind (?<![\w+#]) holds here.
  unfoldable pub search_term : (ℕ → ℕ → Bool) → List ℕ → Bool → List ℕ → Bool
  unfolding term_stands is_name_char
  search_term same term free [] = free && term_stands same term []
  search_term same term free (c ∷ t) =
      free && term_stands same term (c ∷ t) || search_term same term (not (is_name_char c)) t

  unfoldable pub mentions : String → String → Bool → Bool
  unfolding search_term
  mentions text term ignore_case =
      search_term (if ignore_case then same_letter else eqb) (codes term) true (codes text)

  -- _tokens
  unfoldable pub tokens : String → List String
  unfolding add_all
  tokens text =
      add_all []
        (filter (λ t. leb 2 (text_length t) && not (contains stopwords t)) (findall_tokens text))

  unfoldable pub jd_keywords : String → List String
  unfolding tokens
  jd_keywords = tokens

  -- [project.name, project.tagline or "", *project.tech, *project.tags]
  abbrev pub project_parts : Project → List String
  project_parts p = p.name ∷ coalesce p.tagline "" ∷ (p.tech ++ p.tags)

  unfoldable pub project_names : Project → String → Bool
  unfolding mentions join_texts
  project_names p term =
      mentions (join_texts " " (project_parts p ++ p.bullets)) term (leb 4 (text_length term))

  unfoldable pub known_tech : Profile → List String
  unfolding add_all
  known_tech profile =
      let items =
        concat_map (λ (p : Project). p.tech) profile.projects
        ++ concat_map (λ (g : SkillGroup). g.items) profile.skills in
      add_all [] (
        filter (λ t. leb 2 (text_length t) && name_like t)
          (map strip (concat_map split_tech items)))
