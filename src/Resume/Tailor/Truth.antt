-- ===== src/Resume/Tailor/Truth.antt =====
-- Where the projects and the skills of a tailored résumé come from.
use job_aggregator.Prelude.{
  ℕ, zero, suc, ◌≤◌, String, false, ◌⊎◌, is_some, inl, inr, ◌≡◌, refl, Option, none, some, not,
  List, [], ◌∷◌, ◌==◌, sym, ◌∙◌, All, arith, leb, length, length-take, take, Bool-cases,
  Option-cases, of_some,
}
use mathlib.Core.List.{Memᴰ}
use mathlib.Core.Path.{subst}
use job_aggregator.Pipeline.Signals.{is_nil}
use job_aggregator.Resume.{Project, SkillGroup, Profile, Flag, tailoring_skipped, keyword_ranking}
use job_aggregator.Resume.Guard.{Sections, section}
use job_aggregator.Resume.Guard.Bullets.{IsSupported, All-take, All-map, guard_bullets-IsSupported}
use job_aggregator.Resume.Guard.Skills.{IsRow, guard_skills-IsRow}
use job_aggregator.Resume.Select.{
  insert_ranked, ranked, select_projects, select_skills, score_project,
}
use job_aggregator.Resume.Tailor.{
  Backend, Draft, Reply, agent_error, answered, chosen, draft_of, draft_with, drafted, project_of,
  read_reply, reply_skills, reserved, rewrite_all, tailor_resume, tailored_projects, no_draft,
  drop_section,
}
use job_aggregator.Resume.Words.{Reader, known_tech, jd_keywords}

module _ {A : Type 0} (P : A → Type 0) where
  All-insert_ranked :
      (rank : A → ℕ) (x : A) (ys : List A) → P x → All P ys → All P (insert_ranked rank x ys)
  unfolding insert_ranked
  All-insert_ranked rank x [] new h = (new, tt)
  All-insert_ranked rank x (y ∷ ys) new h = elim (Bool-cases (leb (rank y) (rank x))) [
    | inl e ↦ rw (e, insert_ranked) (new, h)
    | inr e ↦ rw (e, insert_ranked) (h.0, All-insert_ranked rank x ys new h.1)
  ]

  All-ranked : (rank : A → ℕ) (xs : List A) → All P xs → All P (ranked rank xs)
  unfolding ranked
  All-ranked rank [] h = tt
  All-ranked rank (x ∷ xs) h =
      All-insert_ranked rank x (ranked rank xs) h.0 (All-ranked rank xs h.1)

All-stored : {A : Type 0} (xs : List A) → All (λ x. Memᴰ x xs) xs
All-stored [] = tt
All-stored (x ∷ xs) = (
  Memᴰ.head refl,
  All-map (λ y. Memᴰ y xs) (λ y. Memᴰ y (x ∷ xs)) xs (λ y m. Memᴰ.tail m) (All-stored xs),
)

take-nil : {A : Type 0} (n : ℕ) → Path (List A) (take n []) []
take-nil zero = refl
take-nil (suc n) = refl

module _ (P : Project → Type 0) where
  project_of-holds :
      (name : String) (projects : List Project) (p : Project)
      → All P projects
      → project_of name projects ≡ some p
      → P p
  unfolding project_of
  project_of-holds name [] p known h = absurd (cc)
  project_of-holds name (x ∷ projects) p known h = elim (Option-cases (project_of name projects)) [
    | inr (y, e) ↦
        let e' : project_of name (x ∷ projects) ≡ some y = rw (e, project_of) refl in
        project_of-holds name projects p known.1 (e ∙ sym e' ∙ h)
    | inl e ↦ elim (Bool-cases (x.name == name)) [
      | inl b ↦
          let e' : project_of name (x ∷ projects) ≡ some x = rw (e, b, project_of) refl in
          subst P (of_some (sym e' ∙ h)) known.0
      | inr b ↦
          let e' : project_of name (x ∷ projects) ≡ none = rw (e, b, project_of) refl in absurd (cc)
    ]
  ]

  All-chosen :
      (projects : List Project) (sections : Sections)
      → All P projects
      → All (λ (c : Project × List String). P c.0) (chosen projects sections)
  unfolding chosen
  All-chosen projects [] h = tt
  All-chosen projects ((name, lines) ∷ sections) h =
      elim (Option-cases (project_of name projects)) [
        | inl e ↦ rw (e, chosen) (All-chosen projects sections h)
        | inr (p, e) ↦
            rw (e, chosen) (project_of-holds name projects p h e, All-chosen projects sections h)
      ]

module _ (reader : Reader) (profile : Profile) where
  -- A project of the profile, with its own bullets or with at most three that the project supports.
  pub record IsTruthful (q : Project) : Type 0 where
    pub source : Project
    pub stored : Memᴰ source profile.projects
    pub same : q ≡ record source { bullets = q.bullets }
    pub truthful :
        (q.bullets ≡ source.bullets)
        ⊎ (All (IsSupported reader source (known_tech reader profile)) q.bullets
            × (length q.bullets ≤ 3))

  rewrite_all-IsTruthful :
      (picks : List (Project × List String))
      → All (λ (c : Project × List String). Memᴰ c.0 profile.projects) picks
      → All IsTruthful (rewrite_all reader (known_tech reader profile) picks).0
        × (length (rewrite_all reader (known_tech reader profile) picks).0 ≡ length picks)
  unfolding rewrite_all
  rewrite_all-IsTruthful [] h = (tt, refl)
  rewrite_all-IsTruthful ((p, lines) ∷ picks) h =
      let (rest, size) = rewrite_all-IsTruthful picks h.1 in
      (
        (
          record {
            source = p;
            stored = h.0;
            same = refl;
            truthful = elim (guard_bullets-IsSupported reader p (known_tech reader profile) lines) [
              | inl own ↦ inl own
              | inr (supported, three, _, _) ↦ inr (supported, three)
            ];
          },
          rest,
        ),
        omega arith,
      )

  -- What the model's reply can contribute.
  record IsDraft (max_projects : ℕ) (selected : List SkillGroup) (d : Draft) : Type 0 where
    projects : All IsTruthful d.tailored
    size : length d.tailored ≤ max_projects
    skills :
        (d.skills ≡ selected) ⊎ (All (IsRow reader profile.skills) d.skills × (length d.skills ≤ 4))
    used : d.used_llm ≡ not (is_nil d.tailored)

  abbrev IsOurs : Project → Type 0
  IsOurs p = Memᴰ p profile.projects

  reply_skills-IsRow :
      (selected : List SkillGroup) (rows : List SkillGroup × List Flag)
      → All (IsRow reader profile.skills) rows.0
      → length rows.0 ≤ 4
      → ((reply_skills reader selected rows).0 ≡ selected)
        ⊎ (All (IsRow reader profile.skills) (reply_skills reader selected rows).0
            × (length (reply_skills reader selected rows).0 ≤ 4))
  unfolding reply_skills
  reply_skills-IsRow selected ([], flags) h n = inl refl
  reply_skills-IsRow selected (g ∷ groups, flags) h n = inr (h, n)

  draft_with-IsDraft :
      (n : ℕ) (selected : List SkillGroup) (needs : List String) (flags : List Flag)
      (out : List Project × List Flag) (rows : List SkillGroup × List Flag)
      → All IsTruthful out.0
      → length out.0 ≤ n
      → All (IsRow reader profile.skills) rows.0
      → length rows.0 ≤ 4
      → IsDraft n selected (draft_with reader selected needs flags out rows)
  unfolding draft_with
  draft_with-IsDraft n selected needs flags ([], gflags) rows h size hr four = record {
    projects = tt;
    size = omega arith;
    skills = inl refl;
    used = refl;
  }
  draft_with-IsDraft n selected needs flags (p ∷ tailored, gflags) rows h size hr four = record {
    projects = h;
    size = size;
    skills = reply_skills-IsRow selected rows hr four;
    used = refl;
  }

  draft_of-IsDraft :
      (selected : List SkillGroup) (n : ℕ) (sections : Sections) (flags : List Flag)
      → IsDraft n selected (draft_of reader profile selected n sections flags)
  unfolding draft_of
  draft_of-IsDraft selected n sections flags =
      let candidates = take 40 profile.projects in
      let (needs, sections₁) = reserved reader "NEEDS" candidates sections in
      let (lines, sections₂) = reserved reader "SKILLS" candidates sections₁ in
      let picks = chosen candidates sections₂ in
      let (truthful, size) = rewrite_all-IsTruthful (take n picks) (
        All-take (λ (c : Project × List String). IsOurs c.0) n picks
          (All-chosen IsOurs candidates sections₂
            (All-take IsOurs 40 profile.projects (All-stored profile.projects)))) in
      let len = length-take n picks in
      let (rows, four) = guard_skills-IsRow reader profile.skills lines in
      draft_with-IsDraft n selected needs flags _ _ truthful (omega arith) rows four

  read_reply-IsDraft :
      (selected : List SkillGroup) (n : ℕ) (reply : Reply)
      → IsDraft n selected (read_reply reader profile selected n reply)
  unfolding read_reply
  read_reply-IsDraft selected n (agent_error text) = draft_of-IsDraft selected n [] _
  read_reply-IsDraft selected n (answered raw) = draft_of-IsDraft selected n _ []

  no_draft-IsDraft :
      (selected : List SkillGroup) (n : ℕ) → IsDraft n selected (no_draft reader selected)
  no_draft-IsDraft selected n = record {
    projects = tt;
    size = omega arith;
    skills = inl refl;
    used = refl;
  }

  drafted-IsDraft :
      (selected : List SkillGroup) (jd : String) (n : ℕ) (backend : Option Backend)
      → IsDraft n selected (drafted reader profile selected jd n backend)
  unfolding drafted
  drafted-IsDraft selected jd n none = no_draft-IsDraft selected n
  drafted-IsDraft selected jd n (some complete) = elim (Bool-cases (is_nil profile.projects)) [
    | inl e ↦ rw (e, drafted) (no_draft-IsDraft selected n)
    | inr e ↦ rw (e, drafted) (read_reply-IsDraft selected n _)
  ]

  IsTruthful-of_stored : (p : Project) → IsOurs p → IsTruthful p
  IsTruthful-of_stored p h = record { source = p; stored = h; same = refl; truthful = inl refl }

  tailored_projects-IsTruthful :
      (keywords : List String) (n : ℕ) (projects : List Project)
      → All IsTruthful projects
      → length projects ≤ n
      → All IsTruthful (tailored_projects reader profile keywords n projects)
        × (length (tailored_projects reader profile keywords n projects) ≤ n)
  unfolding tailored_projects select_projects
  tailored_projects-IsTruthful keywords n [] h size =
      let rank = λ (p : Project). score_project reader p keywords in
      let len = length-take n (ranked rank profile.projects) in
      (
        All-map IsOurs IsTruthful _ IsTruthful-of_stored (
            All-take IsOurs n _
              (All-ranked IsOurs rank profile.projects (All-stored profile.projects))),
        omega arith,
      )
  tailored_projects-IsTruthful keywords n (p ∷ projects) h size = (h, size)

  -- Whatever the backend answers, and without one, the résumé has at most the configured number of projects, and each of
  -- them is a project of the profile in everything but the bullets, which are the project's own, or at most three
  -- that bring no number that its bullets lack and name no technology of the profile that the project does
  -- not name. The skills are those selected by keyword, or at most four rows of a category, with items, of the profile.
  pub tailor_resume-IsTruthful :
      (jd : String) (max_projects : ℕ) (backend : Option Backend)
      → let r = tailor_resume reader profile jd max_projects backend in
        All IsTruthful r.projects
        × (length r.projects ≤ max_projects)
        × ((r.skills ≡ select_skills reader profile.skills (jd_keywords reader jd))
            ⊎ (All (IsRow reader profile.skills) r.skills × (length r.skills ≤ 4)))
  unfolding tailor_resume
  tailor_resume-IsTruthful jd n backend =
      let selected = select_skills reader profile.skills (jd_keywords reader jd) in
      let d = drafted-IsDraft selected jd n backend in
      let (truthful, size) =
        tailored_projects-IsTruthful (jd_keywords reader jd) n _ d.projects d.size in
      (truthful, size, d.skills)

  reserved-nil :
      (name : String) (candidates : List Project) → reserved reader name candidates [] ≡ ([], [])
  unfolding section drop_section
  reserved-nil name candidates = elim (Bool-cases (is_some (project_of name candidates))) [
    | inl e ↦ rw e refl
    | inr e ↦ rw e refl
  ]

  failed_draft-nil :
      (selected : List SkillGroup) (n : ℕ) (text : String)
      → read_reply reader profile selected n (agent_error text)
        ≡ record (no_draft reader selected) { flags = tailoring_skipped text ∷ [] }
  unfolding read_reply draft_of draft_with chosen rewrite_all section drop_section
  failed_draft-nil selected n text =
      let candidates = take 40 profile.projects in
      let none_left : take n (chosen candidates []) ≡ [] = take-nil n in
      rw (reserved-nil "NEEDS" candidates, reserved-nil "SKILLS" candidates, none_left) refl

  -- A failed call and a posting handled without a backend give the same résumé but for the flags:
  -- the projects ranked by keyword with their own bullets, the skills selected by keyword, and no word of a model.
  -- The flags of the failure come first, before those of the review.
  pub tailor_resume-agent_error :
      (jd text : String) (max_projects : ℕ) (complete : Backend)
      → is_nil profile.projects ≡ false
      → complete (take 40 profile.projects) profile.skills jd max_projects ≡ agent_error text
      → let r = tailor_resume reader profile jd max_projects (some complete) in
        let plain = tailor_resume reader profile jd max_projects none in
        r ≡ record plain { flags = tailoring_skipped text ∷ keyword_ranking ∷ plain.flags }
  unfolding tailor_resume
  tailor_resume-agent_error jd text n complete some_project failed =
      let selected = select_skills reader profile.skills (jd_keywords reader jd) in
      let d : drafted reader profile selected jd n (some complete)
          ≡ record (no_draft reader selected) { flags = tailoring_skipped text ∷ [] } =
        rw (some_project, failed, drafted) (failed_draft-nil selected n text) in
      rw (d, tailor_resume) refl
