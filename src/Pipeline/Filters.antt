-- ===== src/Pipeline/Filters.antt =====
-- pipeline/filters.py: the hard gates and the score.
pub mod Gates
pub mod Scores
use job_aggregator.Prelude.{
  ℕ, zero, ◌+◌, ◌-◌, ◌*◌, String, Bool, true, false, not, ◌&&◌, ◌||◌, Option, none, some, List, [],
  ◌∷◌, ◌++◌, ◌==◌, map, filter, any, count, length, min, max, leb, ltb, eqb, is_some, coalesce,
  if◌then◌else◌,
}
use Prim.Native.String.{◌++◌ as text_append}
use job_aggregator.Models.{Job, SalaryBucket}
use job_aggregator.Models.Amount.{ℤ, pos, is_positive}
use job_aggregator.Python.{Float, Text}
use job_aggregator.Config.{Config, OnMissing, keep_and_flag, drop}
use job_aggregator.Pipeline.Dedup.{Word, codes, word_eq, is_one_of, is_alnum, split, norm_location}
use job_aggregator.Pipeline.Salary.{representative_inr}
use job_aggregator.Pipeline.Signals.{
  Patterns, YearsMatch, says_unpaid, internship_months, concat_map, is_nil,
}

-- (?![a-z0-9])
abbrev pub at_boundary : List ℕ → Bool
at_boundary [] = true
at_boundary (c ∷ t) = not (is_alnum c)

-- The keyword stands here and ends at a boundary.
unfoldable pub stands : List ℕ → List ℕ → Bool
unfolding is_alnum
stands [] t = at_boundary t
stands (k ∷ kw) [] = false
stands (k ∷ kw) (c ∷ t) = eqb k c && stands kw t

-- re.search of (?<![a-z0-9])kw(?![a-z0-9]); `free` says that the lookbehind holds here.
unfoldable pub search_word : List ℕ → Bool → List ℕ → Bool
unfolding stands is_alnum
search_word kw free [] = free && stands kw []
search_word kw free (c ∷ t) = free && stands kw (c ∷ t) || search_word kw (not (is_alnum c)) t

abbrev pub intern_words : List String
intern_words =
    "intern" ∷ "interns" ∷ "internship" ∷ "internships" ∷ "trainee" ∷ "apprentice"
    ∷ "apprenticeship" ∷ []

-- signals.PLACELESS_WORDS
abbrev pub placeless_words : List String
placeless_words = "remote" ∷ "remoto" ∷ "worldwide" ∷ "anywhere" ∷ "global" ∷ []

-- Why a job was dropped, or what its score is made of: the tags of FilterVerdict.reasons.
pub data Reason : Type 0 where
  excluded : String → Reason
  no_level no_role_match no_relevant_skill : Reason
  experience : ℕ → Reason
  unpaid duration location_mismatch salary_below_floor salary_missing : Reason
  internship salary_unknown_flagged : Reason
  role_title role_desc : String → Reason

pub record FilterVerdict : Type 0 where
  pub keep : Bool
  pub score : ℕ
  pub reasons : List Reason

abbrev pub max_ℕ : List ℕ → Option ℕ
max_ℕ [] = none
max_ℕ (n ∷ l) = elim (max_ℕ l) [ none ↦ some n | some m ↦ some (max n m) ]

-- The first text of the list that passes the test.
abbrev pub first_of_list : (String → Bool) → List String → Option String
first_of_list p [] = none
first_of_list p (x ∷ l) = let rest = first_of_list p l in if p x then some x else rest

module _ (text : Text) where
  open text use {lower, strip}

  unfoldable pub detect_internship : String → Bool
  unfolding search_word
  detect_internship title = any (λ w. search_word (codes w) true (codes (lower title))) intern_words

  unfoldable pub matches : String → String → Bool
  unfolding search_word
  matches text_lc keyword =
      let kw = lower (strip keyword) in
      if kw == "" then false else search_word (codes kw) true (codes text_lc)

-- The largest demand for years of experience in a text.
unfoldable pub required_years : Patterns → String → Option ℕ
required_years re t = max_ℕ (
    map (λ (m : YearsMatch). m.years)
      (filter (λ (m : YearsMatch). re.exp_near t m.stop) (re.years_tokens t))
    ++ re.years_after t)

-- The places that a location names.
unfoldable pub place_words : (List ℕ → List ℕ) → String → List Word
unfolding is_one_of
place_words ascii_fold loc =
    filter (λ w. not (is_one_of placeless_words w))
      (split (norm_location ascii_fold (some (codes loc))))

module _ {F : Type 0} (ascii_fold : List ℕ → List ℕ) (cfg : Config F) where
  unfoldable pub location_ok : Job → Bool
  unfolding place_words
  location_ok job = coalesce job.is_remote false && cfg.remote_preferred || elim (job.location) [
    | none ↦ true
    | some loc ↦
        let places = place_words ascii_fold loc in
        is_nil (norm_location ascii_fold (some (codes loc)))
        || is_nil places
        || any (λ l. any (λ w. any (word_eq w) places) (place_words ascii_fold l)) cfg.locations
  ]

-- The lowercased texts that the gates read.
pub record Reading : Type 0 where
  pub title_lc : String
  pub desc_lc : String
  pub hay : String
  pub title_roles : List String
  pub desc_roles : List String

module _ {F : Type 0} (float : Float F) (text : Text) (re : Patterns) (ascii_fold : List ℕ → List ℕ)
    (cfg : Config F) where
  unfoldable pub reading : Job → Reading
  reading job =
      let title_lc = text.lower job.title in
      let desc_lc = text.lower (coalesce job.description "") in
      let roles = cfg.keywords.roles in
      record {
        title_lc = title_lc;
        desc_lc = desc_lc;
        hay = text_append title_lc (text_append "\n" desc_lc);
        title_roles = filter (matches text title_lc) roles;
        desc_roles =
            filter
              (λ r.
                not (any (λ t. t == r) (filter (matches text title_lc) roles))
                && matches text desc_lc r)
              roles;
      }

  unfoldable pub excluded_by : Reading → Option String
  excluded_by d = first_of_list (matches text d.title_lc) cfg.keywords.exclude

  unfoldable pub lacks_level : Reading → Bool
  lacks_level d =
      cfg.keywords.require_level && not (any (matches text d.hay) cfg.keywords.level_required)

  unfoldable pub anchored : Reading → Bool
  anchored d = any (matches text d.hay) cfg.keywords.must_have

  unfoldable pub lacks_role : Job → Reading → Bool
  unfolding anchored
  lacks_role job d =
      is_nil d.title_roles && is_nil d.desc_roles && not (job.is_internship && anchored d)

  unfoldable pub lacks_skill : Reading → Bool
  unfolding anchored
  lacks_skill d = not (is_nil cfg.keywords.must_have) && not (anchored d)

  -- The years that a full-time posting demands beyond the configured number.
  unfoldable pub too_senior : Job → Reading → Option ℕ
  unfolding required_years
  too_senior job d =
      if not job.is_internship && ltb 0 cfg.keywords.max_experience_years
      then elim (required_years re d.hay) [
        | none ↦ none
        | some y ↦ if ltb cfg.keywords.max_experience_years y then some y else none
      ]
      else none

  -- f"{job.title}\n{job.description or ''}"
  unfoldable pub posting_text : Job → String
  posting_text job = text_append job.title (text_append "\n" (coalesce job.description ""))

  unfoldable pub is_unpaid : Job → Bool
  unfolding representative_inr posting_text
  is_unpaid job =
      not (elim (representative_inr job.salary_min job.salary_max) [
        | none ↦ false
        | some n ↦ is_positive n
      ])
      && says_unpaid float text re (some (posting_text job))

  unfoldable pub is_too_long : Job → Bool
  unfolding posting_text
  is_too_long job =
      job.is_internship
      && ltb 0 cfg.keywords.max_internship_months
      && elim (internship_months float text re (some (posting_text job))) [
        | none ↦ false
        | some months ↦
            not (float.leb months (float.of_int (pos cfg.keywords.max_internship_months)))
      ]

  -- The first gate that the job fails.
  unfoldable pub hard_drop_reason : Job → Reading → Option Reason
  hard_drop_reason job d = elim (excluded_by d) [
    | some ex ↦ some (excluded ex)
    | none ↦
        if lacks_level d
        then some no_level
        else if lacks_role job d
        then some no_role_match
        else if lacks_skill d
        then some no_relevant_skill
        else elim (too_senior job d) [
          | some yrs ↦ some (experience yrs)
          | none ↦
              if is_unpaid job
              then some unpaid
              else if is_too_long job
              then some duration
              else if not (location_ok ascii_fold cfg job)
              then some location_mismatch
              else none
        ]
  ]

  -- The sum of the weighted terms before the penalty.
  unfoldable pub raw_score : Job → Reading → ℕ
  raw_score job d =
      10 * min (length d.title_roles) 3
      + 3 * min (length d.desc_roles) 3
      + 4 * min (count (matches text d.hay) cfg.keywords.bonus) 5
      + (if job.is_internship then 25 else 0)
      + (if coalesce job.is_remote false && cfg.remote_preferred then 5 else 0)
      + elim (job.salary_bucket) [ some SalaryBucket.pass ↦ 6 | _ ↦ 0 ]

  abbrev pub dropped : Reason → FilterVerdict
  dropped r = record { keep = false; score = 0; reasons = r ∷ [] }

  -- The verdict on a job that clears every gate. max(score, 0) is the subtraction, which stops at 0.
  unfoldable pub kept : Job → Reading → Bool → FilterVerdict
  unfolding raw_score
  kept job d flagged =
      let demoted =
        flagged && not (coalesce job.is_remote false) && cfg.salary.demote_in_office_if_unknown in
      record {
        keep = true;
        score = raw_score job d - (if demoted then 5 else 0);
        reasons =
            (if job.is_internship then internship ∷ [] else [])
            ++ (if demoted then salary_unknown_flagged ∷ [] else [])
            ++ map role_title d.title_roles
            ++ map role_desc d.desc_roles;
      }

  unfoldable pub salary_gate : Job → Reading → FilterVerdict
  salary_gate job d = elim (job.salary_bucket) [
    | some SalaryBucket.fail ↦ dropped salary_below_floor
    | some SalaryBucket.pass ↦ kept job d false
    | _ ↦ elim (cfg.salary.on_missing) [
      | drop ↦ dropped salary_missing
      | keep_and_flag ↦ kept job d true
    ]
  ]

  -- The verdict on a job whose texts are read.
  unfoldable pub verdict : Job → Reading → FilterVerdict
  verdict job d = elim (hard_drop_reason job d) [ some r ↦ dropped r | none ↦ salary_gate job d ]

  unfoldable pub score_and_filter : Job → FilterVerdict
  unfolding verdict
  score_and_filter job = verdict job (reading job)
