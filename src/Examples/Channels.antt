-- ===== src/Examples/Channels.antt =====
-- The laws of the notifiers, the source registry and the configuration form at example settings.
use job_aggregator.Prelude.{true, false, not, ◌&&◌, none, some, [], ◌∷◌, ◌≡◌, filter, given, map}
use job_aggregator.Config.{Keywords}
use job_aggregator.Models.Amount.{pos}
use job_aggregator.Notify.{Printer, notify_new, notify_run}
use job_aggregator.Notify.Messages.{AreFit, notify-AreFit}
use job_aggregator.Pipeline.Runner.Cycle.{RunSummary}
use job_aggregator.Pipeline.Signals.{is_nil}
use job_aggregator.Sources.Registry.{SourcesConfig, Surroundings, build_enabled_sources}
use job_aggregator.Sources.Registry.Order.{all_kinds, is_on, kind_of, build_enabled_sources-kinds}
use job_aggregator.Dashboard.Settings.{ConfigForm, FormText, Settings, number}
use job_aggregator.Examples.{posting}

abbrev printer : Printer
printer = record {
  esc = λ t. t;
  esc_attr = λ t. t;
  str = λ n. "1";
  grouped = λ amount. "90,000";
  same_amount = λ lo hi. false;
  rfc3339 = λ at. "2026-11-26T00:00:00+00:00";
  is_local_url = λ url. true;
  strip = λ t. t;
}

abbrev summary : RunSummary
summary = record {
  run_id = 1;
  status = "success";
  counts = record { n_sources_ok = 1; n_sources_err = 0; n_new = 1; n_updated = 0; n_expired = 0 };
  n_filtered_out = 0;
  source_errors = ("adzuna", "HTTP 500") ∷ [];
  payloads = [];
}

notify-AreFit_example :
    AreFit printer
      (notify_new printer
        (some "token")
        (some "chat")
        (posting "b" "adzuna" "https://jobs.dev/b" ∷ []))
      (not (is_nil (posting "b" "adzuna" "https://jobs.dev/b" ∷ []))
        && (given (some "token") && given (some "chat")))
    × AreFit printer
        (notify_run printer
          (some "token")
          (some "chat")
          none
          "http://localhost:8770"
          "manual"
          summary)
        (given (some "token") && given (some "chat"))
notify-AreFit_example =
    notify-AreFit printer (some "token") (some "chat") none
      (posting "b" "adzuna" "https://jobs.dev/b" ∷ []) "manual" "http://localhost:8770" summary

abbrev keywords : Keywords
keywords = record {
  roles = "backend" ∷ [];
  bonus = [];
  must_have = [];
  level_required = [];
  exclude = [];
  require_level = true;
  intern_queries = "backend intern" ∷ [];
  max_experience_years = 1;
  max_internship_months = 6;
}

-- Adzuna without a key, Jooble with one, and one Lever board.
abbrev surroundings : Surroundings
surroundings = record {
  keywords = keywords;
  locations = "Bengaluru, India" ∷ [];
  names_india = λ place. true;
  adzuna_app_id = none;
  adzuna_app_key = none;
  jooble_api_key = some "key";
}

abbrev sources : SourcesConfig
sources = record {
  jobspy_enabled = true;
  remoteok_enabled = false;
  himalayas_enabled = true;
  himalayas_country = "IN";
  jobicy_enabled = false;
  jobicy_job_type = "internship";
  adzuna_enabled = true;
  adzuna_country = "in";
  adzuna_max_pages = 10;
  jooble_enabled = true;
  jooble_max_pages = 10;
  unstop_enabled = true;
  unstop_opportunities = "internships" ∷ [];
  unstop_search_terms = [];
  unstop_max_age_days = pos 30;
  unstop_max_pages = 5;
  internshala_enabled = true;
  internshala_slugs = [];
  internshala_max_pages = 3;
  ats = record {
    greenhouse_enabled = true;
    greenhouse_tokens = [];
    lever_enabled = true;
    lever_slugs = "acme" ∷ [];
    ashby_enabled = false;
    ashby_orgs = "acme" ∷ [];
    smartrecruiters_enabled = false;
    smartrecruiters_company_ids = [];
  };
}

build_enabled_sources-kinds_example :
    map kind_of (build_enabled_sources surroundings sources)
    ≡ filter (is_on surroundings sources) all_kinds
build_enabled_sources-kinds_example = build_enabled_sources-kinds surroundings sources

abbrev form_text : FormText
form_text = record { strip = λ t. t; parts = λ t. t ∷ [] }

-- A form that turns the apply agent on and leaves the rest out.
abbrev form : ConfigForm
form = record {
  run_hour_local = none;
  hours_old = none;
  grace_days = none;
  catch_up_on_startup = none;
  closure_checks_per_run = none;
  salary_min_remote = none;
  salary_min_in_office = none;
  salary_min_internship = none;
  salary_on_missing = none;
  demote_in_office_if_unknown = none;
  remote_preferred = none;
  require_level = none;
  keywords_roles = none;
  keywords_bonus = none;
  keywords_must_have = none;
  keywords_level_required = none;
  keywords_exclude = none;
  keywords_intern_queries = none;
  max_experience_years = none;
  max_internship_months = none;
  locations = none;
  notify_telegram_enabled = none;
  notify_email_enabled = none;
  notify_rss_enabled = none;
  notify_email_to = none;
  jobspy_search_terms = none;
  unstop_search_terms = none;
  src_jobspy = none;
  src_unstop = none;
  src_internshala = none;
  src_remoteok = none;
  src_himalayas = none;
  src_jobicy = none;
  src_adzuna = none;
  src_jooble = none;
  src_remotive = none;
  apply_enabled = some true;
  apply_engine = none;
  apply_use_browser_cookies = none;
  resume_backend = none;
  resume_tailor_with_llm = none;
  resume_base_url = none;
  resume_model = none;
}

abbrev stored : Settings
stored section key = number (pos 9)
