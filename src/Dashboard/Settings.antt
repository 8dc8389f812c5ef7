-- ===== src/Dashboard/Settings.antt =====
-- dashboard/routes_config.py: the form of the configuration over the stored one. A configuration is
-- read by the path of a setting, which is its section and its key.
use job_aggregator.Prelude.{
  String, Bool, false, not, ◌&&◌, Option, none, some, List, [], ◌∷◌, ◌++◌, ◌==◌, eqb, filter,
  if◌then◌else◌, map,
}
use job_aggregator.Errors.{Result, ok, raise, other}
use job_aggregator.Models.Amount.{ℤ, pos, negsuc}

pub data Setting : Type 0 where
  number : ℤ → Setting
  switch : Bool → Setting
  word : String → Setting
  texts : List String → Setting

abbrev pub Settings : Type 0
Settings = String → String → Setting

-- A field that the form leaves out is `none`.
pub record ConfigForm : Type 0 where
  pub run_hour_local : Option ℤ
  pub hours_old : Option ℤ
  pub grace_days : Option ℤ
  pub catch_up_on_startup : Option Bool
  pub closure_checks_per_run : Option ℤ
  pub salary_min_remote : Option ℤ
  pub salary_min_in_office : Option ℤ
  pub salary_min_internship : Option ℤ
  pub salary_on_missing : Option String
  pub demote_in_office_if_unknown : Option Bool
  pub remote_preferred : Option Bool
  pub require_level : Option Bool
  pub keywords_roles : Option String
  pub keywords_bonus : Option String
  pub keywords_must_have : Option String
  pub keywords_level_required : Option String
  pub keywords_exclude : Option String
  pub keywords_intern_queries : Option String
  pub max_experience_years : Option ℤ
  pub max_internship_months : Option ℤ
  pub locations : Option String
  pub notify_telegram_enabled : Option Bool
  pub notify_email_enabled : Option Bool
  pub notify_rss_enabled : Option Bool
  pub notify_email_to : Option String
  pub jobspy_search_terms : Option String
  pub unstop_search_terms : Option String
  pub src_jobspy : Option Bool
  pub src_unstop : Option Bool
  pub src_internshala : Option Bool
  pub src_remoteok : Option Bool
  pub src_himalayas : Option Bool
  pub src_jobicy : Option Bool
  pub src_adzuna : Option Bool
  pub src_jooble : Option Bool
  pub src_remotive : Option Bool
  pub apply_enabled : Option Bool
  pub apply_engine : Option String
  pub apply_use_browser_cookies : Option Bool
  pub resume_backend : Option String
  pub resume_tailor_with_llm : Option Bool
  pub resume_base_url : Option String
  pub resume_model : Option String

-- A setting by its path, and its new value if there is one.
pub record Edit : Type 0 where
  pub section : String
  pub key : String
  pub value : Option Setting

abbrev pub at : String → String → Option Setting → Edit
at section key value = record { section = section; key = key; value = value }

abbrev pub map_some : {A : Type 0} → (A → Setting) → Option A → Option Setting
map_some f none = none
map_some f (some a) = some (f a)

-- target[key] = value, unless the value is None
abbrev pub written : Settings → String → String → Option Setting → Settings
written settings section key none = settings
written settings section key (some value) =
    λ s k. if section == s && key == k then value else settings s k

unfoldable pub overlay : Settings → List Edit → Settings
overlay settings [] = settings
overlay settings (e ∷ edits) = overlay (written settings e.section e.key e.value) edits

-- Equality of numbers; other settings are no hours.
abbrev pub same_hour : Setting → Setting → Bool
same_hour (number (pos m)) (number (pos n)) = eqb m n
same_hour (number (negsuc m)) (number (negsuc n)) = eqb m n
same_hour _ _ = false

-- The hour to tell the scheduler, when it is not the one before.
abbrev pub new_hour : Setting → Setting → Option Setting
new_hour hour before = if same_hour hour before then none else some hour

-- str.strip, and value.replace(",", "\n").split("\n")
pub record FormText : Type 0 where
  pub strip : String → String
  pub parts : String → List String

-- What a saved form leaves: the configuration, and the hour that the scheduler is told.
pub record Saved : Type 0 where
  pub settings : Settings
  pub rescheduled : Option Setting

module _ (text : FormText) where
  open text use {strip, parts}

  unfoldable pub split_lines : String → List String
  split_lines value = filter (λ t. not (t == "")) (map strip (parts value))

  abbrev pub listed : String → Setting
  listed value = texts (split_lines value)

  abbrev pub schedule_edits : ConfigForm → List Edit
  schedule_edits f =
      at "schedule" "run_hour_local" (map_some number f.run_hour_local)
      ∷ at "schedule" "hours_old" (map_some number f.hours_old)
      ∷ at "schedule" "grace_days" (map_some number f.grace_days)
      ∷ at "schedule" "catch_up_on_startup" (map_some switch f.catch_up_on_startup)
      ∷ at "schedule" "closure_checks_per_run" (map_some number f.closure_checks_per_run)
      ∷ at "salary" "min_remote" (map_some number f.salary_min_remote)
      ∷ at "salary" "min_in_office" (map_some number f.salary_min_in_office)
      ∷ at "salary" "min_internship" (map_some number f.salary_min_internship)
      ∷ at "salary" "on_missing" (map_some word f.salary_on_missing)
      ∷ at "salary" "demote_in_office_if_unknown" (map_some switch f.demote_in_office_if_unknown)
      ∷ []

  abbrev pub keyword_edits : ConfigForm → List Edit
  keyword_edits f =
      at "" "remote_preferred" (map_some switch f.remote_preferred)
      ∷ at "keywords" "require_level" (map_some switch f.require_level)
      ∷ at "keywords" "roles" (map_some listed f.keywords_roles)
      ∷ at "keywords" "bonus" (map_some listed f.keywords_bonus)
      ∷ at "keywords" "must_have" (map_some listed f.keywords_must_have)
      ∷ at "keywords" "level_required" (map_some listed f.keywords_level_required)
      ∷ at "keywords" "exclude" (map_some listed f.keywords_exclude)
      ∷ at "keywords" "intern_queries" (map_some listed f.keywords_intern_queries)
      ∷ at "keywords" "max_experience_years" (map_some number f.max_experience_years)
      ∷ at "keywords" "max_internship_months" (map_some number f.max_internship_months)
      ∷ at "" "locations" (map_some listed f.locations)
      ∷ []

  abbrev pub source_edits : ConfigForm → List Edit
  source_edits f =
      at "sources.jobspy" "search_terms" (map_some listed f.jobspy_search_terms)
      ∷ at "sources.unstop" "search_terms" (map_some listed f.unstop_search_terms)
      ∷ at "notify.telegram" "enabled" (map_some switch f.notify_telegram_enabled)
      ∷ at "notify.email" "enabled" (map_some switch f.notify_email_enabled)
      ∷ at "notify.email" "to" (map_some word f.notify_email_to)
      ∷ at "notify.rss" "enabled" (map_some switch f.notify_rss_enabled)
      ∷ at "sources.jobspy" "enabled" (map_some switch f.src_jobspy)
      ∷ at "sources.unstop" "enabled" (map_some switch f.src_unstop)
      ∷ at "sources.internshala" "enabled" (map_some switch f.src_internshala)
      ∷ at "sources.remoteok" "enabled" (map_some switch f.src_remoteok)
      ∷ at "sources.himalayas" "enabled" (map_some switch f.src_himalayas)
      ∷ at "sources.jobicy" "enabled" (map_some switch f.src_jobicy)
      ∷ at "sources.adzuna" "enabled" (map_some switch f.src_adzuna)
      ∷ at "sources.jooble" "enabled" (map_some switch f.src_jooble)
      ∷ []

  abbrev pub apply_edits : ConfigForm → List Edit
  apply_edits f =
      at "apply" "enabled" (map_some switch f.apply_enabled)
      ∷ at "apply" "engine" (map_some word f.apply_engine)
      ∷ at "apply" "use_browser_cookies" (map_some switch f.apply_use_browser_cookies)
      ∷ at "resume" "backend" (map_some word f.resume_backend)
      ∷ at "resume" "tailor_with_llm" (map_some switch f.resume_tailor_with_llm)
      ∷ at "resume" "base_url" (map_some word f.resume_base_url)
      ∷ at "resume" "model" (map_some word f.resume_model)
      ∷ []

  abbrev pub edits : ConfigForm → List Edit
  edits f = schedule_edits f ++ (keyword_edits f ++ (source_edits f ++ apply_edits f))

  unfoldable pub apply_form : Settings → ConfigForm → Settings
  unfolding overlay
  apply_form current f = overlay current (edits f)

  -- The answer to the validated configuration.
  abbrev pub save_valid : Settings → Option Settings → Result Saved
  save_valid current none = raise (other "config is invalid")
  save_valid current (some cfg) = ok (record {
    settings = cfg;
    rescheduled = new_hour (cfg "schedule" "run_hour_local") (current "schedule" "run_hour_local");
  })

  -- `validate` is Config.model_validate and model_dump, `none` for a ValidationError.
  unfoldable pub put_config : (Settings → Option Settings) → Settings → ConfigForm → Result Saved
  put_config validate current f = save_valid current (validate (apply_form current f))
