-- ===== src/Resume/Guard.antt =====
-- resume/tailor.py: the guards on what the model wrote.
pub mod Bullets
pub mod Skills
use job_aggregator.Prelude.{
  ℕ, String, Bool, true, false, not, ◌&&◌, ◌||◌, Option, none, some, List, [], ◌∷◌, ◌++◌, ◌==◌, any,
  coalesce, contains, filter, if◌then◌else◌, length, map, max, min, sorted, take,
}
use job_aggregator.Pipeline.Dedup.{Word, word_eq}
use job_aggregator.Pipeline.Signals.{concat_map, is_nil}
use job_aggregator.Resume.{
  Project, SkillGroup, Flag, unsupported_facts, added_tech, kept_originals, dropped_skills,
}
use job_aggregator.Resume.Select.{max_skill_groups, max_skills_per_group}
use job_aggregator.Resume.Words.{Reader, add_all, numbers, mentions, project_names, partition}

-- A model's sections in the order of their first header: a dict[str, list[str]].
abbrev pub Sections : Type 0
Sections = List (String × List String)

abbrev pub max_bullets_per_project : ℕ
max_bullets_per_project = 3

abbrev pub has_number : List Word → Word → Bool
has_number s n = any (word_eq n) s

-- ns <= s
unfoldable pub covers : List Word → List Word → Bool
covers s [] = true
covers s (n ∷ ns) = has_number s n && covers s ns

-- The variables of the loop of _guard_bullets.
pub record Guarded : Type 0 where
  pub kept : List String
  pub rejected : Bool
  pub added : List String

-- picked[category], where the key may be missing
unfoldable pub section : String → Sections → Option (List String)
section name [] = none
section name ((key, lines) ∷ sections) = if key == name then some lines else section name sections

-- sections[name] = lines
unfoldable pub put_section : String → List String → Sections → Sections
put_section name lines [] = (name, lines) ∷ []
put_section name lines ((key, old) ∷ sections) =
    let rest = put_section name lines sections in
    if key == name then (key, lines) ∷ sections else (key, old) ∷ rest

module _ (reader : Reader) where
  open reader use {strip, casefold, split_tech, strip_stars, drop_dots, split_items}

  -- The body of the loop for a text that is not empty.
  unfoldable pub guard_text : List Word → List String → String → Guarded → Guarded
  unfolding covers mentions numbers add_all
  guard_text source_numbers foreign text g =
      let named = filter (λ t. mentions reader text t false) foreign in
      if not (is_nil named)
      then record g { added = add_all g.added named }
      else if covers source_numbers (numbers reader text)
      then record g { kept = g.kept ++ text ∷ [] }
      else record g { rejected = true }

  unfoldable pub guard_texts : List Word → List String → List String → Guarded → Guarded
  unfolding guard_text
  guard_texts source_numbers foreign [] g = g
  guard_texts source_numbers foreign (candidate ∷ candidates) g =
      let text = strip candidate in
      guard_texts source_numbers foreign candidates
        (if text == "" then g else guard_text source_numbers foreign text g)

  abbrev pub source_numbers_of : Project → List Word
  source_numbers_of p = concat_map (numbers reader) p.bullets

  -- The technologies that the project does not name.
  abbrev pub foreign_tech : Project → List String → List String
  foreign_tech p tech = sorted (filter (λ t. not (project_names reader p t)) tech)

  unfoldable pub guard_bullets : Project → List String → List String → List String × List Flag
  unfolding guard_texts
  guard_bullets p candidates tech =
      let g =
        guard_texts (source_numbers_of p) (foreign_tech p tech) candidates
          (record { kept = []; rejected = false; added = [] }) in
      let kept = take (min (max (length p.bullets) 1) max_bullets_per_project) g.kept in
      let flags =
        (if g.rejected then unsupported_facts p.name ∷ [] else [])
        ++ (if is_nil g.added then [] else added_tech p.name (sorted g.added) ∷ []) in
      if is_nil kept then (p.bullets, flags ++ kept_originals p.name ∷ []) else (kept, flags)

  -- The names that an item stands for, which are not empty.
  unfoldable pub item_names : String → List String
  item_names item = filter (λ t. not (t == "")) (map strip (item ∷ split_tech item))

  -- allowed.get(name.casefold()): the first name of the group with that spelling.
  unfoldable pub canonical_name : String → List String → Option String
  canonical_name name [] = none
  canonical_name name (n ∷ names) =
      if casefold n == casefold name then some n else canonical_name name names

  -- by_category.get(word.casefold()): the last group with that category.
  unfoldable pub group_of : String → List SkillGroup → Option SkillGroup
  group_of word [] = none
  group_of word (g ∷ groups) = elim (group_of word groups) [
    | some later ↦ some later
    | none ↦ if casefold g.category == casefold word then some g else none
  ]

  -- The body of the loop over the items of a row, with what the lookup of the name gave.
  unfoldable pub pick_item :
      String → Option String → List String × List String → List String × List String
  pick_item name none (items, dropped) =
      (items, if name == "" then dropped else dropped ++ name ∷ [])
  pick_item name (some n) (items, dropped) =
      (if contains items n then items else items ++ n ∷ [], dropped)

  -- The loop: the items picked, and the names dropped.
  unfoldable pub pick_items :
      List String → List String → List String × List String → List String × List String
  unfolding canonical_name pick_item
  pick_items allowed [] out = out
  pick_items allowed (raw ∷ raws) out =
      let name = strip (drop_dots (strip_stars (strip raw))) in
      pick_items allowed raws (pick_item name (canonical_name name allowed) out)

  -- The row of a known category: `rest` is what follows the colon.
  unfoldable pub pick_row : SkillGroup → String → Sections × List String → Sections × List String
  unfolding pick_items item_names section put_section
  pick_row g rest (picked, dropped) =
      let (items, dropped') =
        pick_items (concat_map item_names g.items) (split_items rest)
          (coalesce (section g.category picked) [], dropped) in
      (put_section g.category items picked, dropped')

  unfoldable pub guard_group :
      String → Option SkillGroup → String → Sections × List String → Sections × List String
  unfolding pick_row
  guard_group line none rest (picked, dropped) = (picked, dropped ++ strip line ∷ [])
  guard_group line (some g) rest out = pick_row g rest out

  unfoldable pub guard_split :
      List SkillGroup
      → String
      → Option (String × String)
      → Sections × List String
      → Sections × List String
  unfolding guard_group group_of
  guard_split skills line none (picked, dropped) = (picked, dropped ++ strip line ∷ [])
  guard_split skills line (some (category, rest)) out =
      guard_group line (group_of (strip (strip_stars (strip category))) skills) rest out

  unfoldable pub guard_line :
      List SkillGroup → String → Sections × List String → Sections × List String
  unfolding guard_split partition
  guard_line skills line out = guard_split skills line (partition line) out

  unfoldable pub guard_lines :
      List SkillGroup → List String → Sections × List String → Sections × List String
  unfolding guard_line
  guard_lines skills [] out = out
  guard_lines skills (line ∷ lines) out = guard_lines skills lines (guard_line skills line out)

  -- The rows with items, each cut to the cap.
  unfoldable pub capped_groups : Sections → List SkillGroup
  capped_groups [] = []
  capped_groups ((category, items) ∷ picked) =
      let rest = capped_groups picked in
      if is_nil items
      then rest
      else record { category = category; items = take max_skills_per_group items } ∷ rest

  unfoldable pub guard_skills : List String → List SkillGroup → List SkillGroup × List Flag
  unfolding guard_lines capped_groups
  guard_skills lines skills =
      let (picked, dropped) = guard_lines skills lines ([], []) in
      (
        take max_skill_groups (capped_groups picked),
        if is_nil dropped then [] else dropped_skills (take 5 dropped) ∷ [],
      )
