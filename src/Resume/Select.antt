-- ===== src/Resume/Select.antt =====
-- resume/tailor.py: the selection by keywords that needs no model.
pub mod Ranked
use job_aggregator.Prelude.{
  ℕ, String, Bool, true, false, ◌||◌, List, [], ◌∷◌, count, coalesce, contains, filter,
  if◌then◌else◌, leb, take,
}
use job_aggregator.Pipeline.Signals.{concat_map, is_nil}
use job_aggregator.Resume.{Project, SkillGroup, Profile}
use job_aggregator.Resume.Words.{Reader, add_all, tokens, project_parts}

-- sorted(xs, key=rank, reverse=True), which keeps the order of equal ranks.
module _ {A : Type 0} (rank : A → ℕ) where
  unfoldable pub insert_ranked : A → List A → List A
  insert_ranked x [] = x ∷ []
  insert_ranked x (y ∷ ys) = if leb (rank y) (rank x) then x ∷ (y ∷ ys) else y ∷ insert_ranked x ys

  unfoldable pub ranked : List A → List A
  unfolding insert_ranked
  ranked [] = []
  ranked (x ∷ xs) = insert_ranked x (ranked xs)

-- The two sets have a member in common.
unfoldable pub touches : List String → List String → Bool
touches keywords [] = false
touches keywords (t ∷ ts) = contains keywords t || touches keywords ts

-- _MAX_SKILL_GROUPS and _MAX_SKILLS_PER_GROUP
abbrev pub max_skill_groups : ℕ
max_skill_groups = 4

abbrev pub max_skills_per_group : ℕ
max_skills_per_group = 8

module _ (reader : Reader) where
  unfoldable pub project_terms : Project → List String
  unfolding add_all tokens
  project_terms p = add_all [] (concat_map (tokens reader) (project_parts reader p))

  unfoldable pub score_project : Project → List String → ℕ
  unfolding project_terms
  score_project p keywords = count (contains keywords) (project_terms p)

  unfoldable pub select_projects : List Project → List String → ℕ → List Project
  unfolding ranked score_project
  select_projects projects keywords max_projects =
      take max_projects (ranked (λ p. score_project p keywords) projects)

  unfoldable pub is_relevant : List String → String → Bool
  unfolding touches tokens
  is_relevant keywords item = touches keywords (tokens reader item)

  unfoldable pub reorder_skills : List SkillGroup → List String → List SkillGroup
  unfolding ranked is_relevant
  reorder_skills skills keywords =
      ranked (λ (g : SkillGroup). count (is_relevant keywords) g.items) skills

  -- The relevant items of each group that has some.
  unfoldable pub pick_skills : List String → List SkillGroup → List SkillGroup
  unfolding is_relevant
  pick_skills keywords [] = []
  pick_skills keywords (g ∷ groups) =
      let items = take max_skills_per_group (filter (is_relevant keywords) g.items) in
      let rest = pick_skills keywords groups in
      if is_nil items then rest else record { category = g.category; items = items } ∷ rest

  unfoldable pub select_skills : List SkillGroup → List String → List SkillGroup
  unfolding reorder_skills pick_skills
  select_skills skills keywords =
      let picked = take max_skill_groups (pick_skills keywords (reorder_skills skills keywords)) in
      if is_nil picked then reorder_skills skills keywords else picked
