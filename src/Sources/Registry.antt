-- ===== src/Sources/Registry.antt =====
-- sources/registry.py: which sources a configuration enables, in their order. Keys come from the
-- environment.
pub mod Order
use job_aggregator.Prelude.{
  ℕ, String, Bool, true, false, not, ◌&&◌, Option, none, some, List, [], ◌∷◌, ◌++◌, any, coalesce,
  given, if◌then◌else◌, take,
}
use job_aggregator.Config.{Keywords}
use job_aggregator.Models.Amount.{ℤ}
use job_aggregator.Pipeline.Signals.{is_nil}

-- cfg.sources: the flags and the parameters that the registry passes on.
pub record AtsConfig : Type 0 where
  pub greenhouse_enabled : Bool
  pub greenhouse_tokens : List String
  pub lever_enabled : Bool
  pub lever_slugs : List String
  pub ashby_enabled : Bool
  pub ashby_orgs : List String
  pub smartrecruiters_enabled : Bool
  pub smartrecruiters_company_ids : List String

pub record SourcesConfig : Type 0 where
  pub jobspy_enabled : Bool
  pub remoteok_enabled : Bool
  pub himalayas_enabled : Bool
  pub himalayas_country : String
  pub jobicy_enabled : Bool
  pub jobicy_job_type : String
  pub adzuna_enabled : Bool
  pub adzuna_country : String
  pub adzuna_max_pages : ℕ
  pub jooble_enabled : Bool
  pub jooble_max_pages : ℕ
  pub unstop_enabled : Bool
  pub unstop_opportunities : List String
  pub unstop_search_terms : List String
  pub unstop_max_age_days : ℤ
  pub unstop_max_pages : ℕ
  pub internshala_enabled : Bool
  pub internshala_slugs : List String
  pub internshala_max_pages : ℕ
  pub ats : AtsConfig

-- A source with the parameters of its constructor.
pub data Source : Type 0 where
  jobspy remoteok : Source
  himalayas jobicy : String → Source
  adzuna : (country app_id app_key : String) → (max_pages : ℕ) → Source
  jooble :
      (api_key : String) → (queries : List String) → (location : String) → (max_pages : ℕ) → Source
  unstop :
      (opportunities search_terms : List String) → (max_age_days : ℤ) → (max_pages : ℕ) → Source
  internshala : (slugs : List String) → (max_pages : ℕ) → Source
  greenhouse lever ashby smartrecruiters : List String → Source

-- What the registry reads besides: the keywords, the locations and the environment.
pub record Surroundings : Type 0 where
  pub keywords : Keywords
  pub locations : List String
  -- "india" in loc.lower()
  pub names_india : String → Bool
  pub adzuna_app_id : Option String
  pub adzuna_app_key : Option String
  pub jooble_api_key : Option String

abbrev pub jooble_query_terms : ℕ
jooble_query_terms = 6

abbrev pub jooble_intern_terms : ℕ
jooble_intern_terms = 2

-- A source that is there when the condition holds, before the others.
abbrev pub when : Bool → Source → List Source → List Source
when true source sources = source ∷ sources
when false source sources = sources

-- texts or [word]
abbrev pub or_default : String → List String → List String
or_default word [] = word ∷ []
or_default word (t ∷ texts) = t ∷ texts

module _ (env : Surroundings) where
  open env use {keywords, locations, names_india, adzuna_app_id, adzuna_app_key, jooble_api_key}

  unfoldable pub country_location : String
  country_location = if any names_india locations then "India" else ""

  unfoldable pub jooble_queries : List String
  jooble_queries =
      or_default "backend intern"
        (take jooble_query_terms keywords.roles ++ take jooble_intern_terms keywords.intern_queries)

  unfoldable pub build_ats : AtsConfig → List Source
  build_ats ats =
      when (ats.greenhouse_enabled && not (is_nil ats.greenhouse_tokens))
        (greenhouse ats.greenhouse_tokens)
        (when (ats.lever_enabled && not (is_nil ats.lever_slugs)) (lever ats.lever_slugs) (
          when (ats.ashby_enabled && not (is_nil ats.ashby_orgs)) (ashby ats.ashby_orgs) (
            when (ats.smartrecruiters_enabled && not (is_nil ats.smartrecruiters_company_ids))
              (smartrecruiters ats.smartrecruiters_company_ids) [])))

  unfoldable pub build_enabled_sources : SourcesConfig → List Source
  unfolding country_location jooble_queries build_ats
  build_enabled_sources s = when s.jobspy_enabled jobspy (
      when s.remoteok_enabled remoteok (
        when s.himalayas_enabled (himalayas s.himalayas_country) (
          when s.jobicy_enabled (jobicy s.jobicy_job_type) (
            when (s.adzuna_enabled && (given adzuna_app_id && given adzuna_app_key))
              (adzuna s.adzuna_country (coalesce adzuna_app_id "") (coalesce adzuna_app_key "")
                s.adzuna_max_pages)
              (when (s.jooble_enabled && given jooble_api_key)
                (jooble (coalesce jooble_api_key "") jooble_queries country_location
                  s.jooble_max_pages)
                (when s.unstop_enabled
                  (unstop s.unstop_opportunities s.unstop_search_terms s.unstop_max_age_days
                    s.unstop_max_pages)
                  (when (s.internshala_enabled && not (is_nil s.internshala_slugs))
                    (internshala s.internshala_slugs s.internshala_max_pages)
                    (build_ats s.ats))))))))
