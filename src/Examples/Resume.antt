-- ===== src/Examples/Resume.antt =====
-- The laws of tailoring at an example profile.
use job_aggregator.Prelude.{
  ℕ, ◌≤◌, ◌⊎◌, ◌≡◌, String, true, none, some, List, [], ◌∷◌, refl, All, eqb, length,
}
use job_aggregator.Resume.{Project, Profile, tailoring_skipped, keyword_ranking}
use job_aggregator.Resume.Guard.Skills.{IsRow}
use job_aggregator.Resume.Select.{select_skills}
use job_aggregator.Resume.Tailor.{Backend, agent_error, answered, tailor_resume}
use job_aggregator.Resume.Tailor.Truth.{
  IsTruthful, tailor_resume-IsTruthful, tailor_resume-agent_error,
}
use job_aggregator.Resume.Words.{Reader, jd_keywords}

abbrev alone : String → List String
alone t = t ∷ []

abbrev same_text : String → String
same_text t = t

abbrev pub reader : Reader
reader = record {
  strip = same_text;
  casefold = same_text;
  splitlines = λ t. "### WALterDB" ∷ "91 tests prove recovery" ∷ "Used PostgreSQL" ∷ [];
  is_word = λ c. eqb c 97;
  is_digit = λ c. eqb c 57;
  same_letter = eqb;
  findall_tokens = alone;
  split_tech = alone;
  name_like = λ t. true;
  drop_prefix = same_text;
  strip_stars = same_text;
  drop_dots = same_text;
  split_items = alone;
}

abbrev engine : Project
engine = record {
  name = "WALterDB";
  tagline = none;
  url = none;
  tech = "SQLite" ∷ [];
  bullets = "91 tests" ∷ [];
  tags = [];
}

abbrev pub profile : Profile
profile = record {
  contact = record {
    name = "Ada Lovelace";
    email = "ada@example.com";
    phone = none;
    location = some "Pune";
    links = [];
  };
  summary = none;
  ambitions = none;
  target_roles = [];
  education = [];
  experience = [];
  projects = engine ∷ [];
  skills = record { category = "Databases"; items = "PostgreSQL" ∷ [] } ∷ [];
  achievements = [];
}

abbrev answering : Backend
answering projects skills jd n = answered "reply"

abbrev failing : Backend
failing projects skills jd n = agent_error "timeout"

tailor_resume-IsTruthful_example :
    All
      (IsTruthful reader profile)
      (tailor_resume reader profile "databases" 4 (some answering)).projects
    × (length (tailor_resume reader profile "databases" 4 (some answering)).projects ≤ 4)
    × (((tailor_resume reader profile "databases" 4 (some answering)).skills
          ≡ select_skills reader profile.skills (jd_keywords reader "databases"))
        ⊎ (All
              (IsRow reader profile.skills)
              (tailor_resume reader profile "databases" 4 (some answering)).skills
            × (length (tailor_resume reader profile "databases" 4 (some answering)).skills ≤ 4)))
tailor_resume-IsTruthful_example =
    tailor_resume-IsTruthful reader profile "databases" 4 (some answering)

tailor_resume-agent_error_example :
    tailor_resume reader profile "databases" 4 (some failing)
    ≡ record (tailor_resume reader profile "databases" 4 none) {
      flags =
          tailoring_skipped "timeout"
          ∷ keyword_ranking
          ∷ (tailor_resume reader profile "databases" 4 none).flags;
    }
tailor_resume-agent_error_example =
    tailor_resume-agent_error reader profile "databases" "timeout" 4 failing refl refl

abbrev as_rank : ℕ → ℕ
as_rank n = n
