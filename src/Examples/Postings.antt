-- ===== src/Examples/Postings.antt =====
-- The laws of the pipeline at example postings, with parameters that compute.
use Prim.Native.Nat.{◌/◌}
use job_aggregator.Prelude.{
  arith, ℕ, String, true, false, ◌&&◌, none, some, List, [], ◌∷◌, ◌≡◌, ◌*◌, ◌⊎◌, ◌↔◌, refl, leb,
  contains,
}
use job_aggregator.Models.{Job}
use job_aggregator.Models.Amount.{ℤ, pos, negsuc}
use job_aggregator.Python.{Float, Text}
use job_aggregator.Config.{OnMissing, SalaryConfig, Config}
use job_aggregator.Pipeline.Dedup.{
  canonical_place, is_alnum, lower, chunk, is_one_of, pop_suffixes, join, split, codes, tokens,
  norm_company, norm_title, norm_location, hash_key, content_hash, is_suffix, company_words,
}
use job_aggregator.Pipeline.Dedup.Words.{KeepsAscii}
use job_aggregator.Pipeline.Dedup.Company.{Names}
use job_aggregator.Pipeline.Dedup.Hash.{content_hash_iff}
use job_aggregator.Pipeline.Normalize.{Parts, UrlLib, allowed_url_schemes, canonical_url}
use job_aggregator.Pipeline.Normalize.Links.{canonical_url-safe}
use job_aggregator.Pipeline.Salary.{
  representative_inr, normalize_salary, convert_bounds, to_inr_month, rate_of, period_to_month,
}
use job_aggregator.Pipeline.Salary.Normal.{KnowsCase}
use job_aggregator.Pipeline.Salary.Bucket.{LowerFloors}
use job_aggregator.Pipeline.Signals.{flatten, stated_amounts, states_unpaid, says_unpaid, Patterns}
use job_aggregator.Pipeline.Filters.{
  posting_text, place_words, required_years, stands, search_word, matches, anchored, location_ok,
  is_too_long, is_unpaid, too_senior, lacks_skill, lacks_role, lacks_level, excluded_by,
  hard_drop_reason, kept, salary_gate, verdict, reading, score_and_filter,
}
use job_aggregator.Pipeline.Filters.Gates.{clears, affordable, score_and_filter-keep}
use job_aggregator.Pipeline.Filters.Scores.{as_internship}
use job_aggregator.Examples.{posting}

-- Fractions of natural numbers in the place of floats.
abbrev fraction_of_int : ℤ → ℕ × ℕ
fraction_of_int (pos n) = (n, 1)
fraction_of_int (negsuc n) = (0, 1)

abbrev pub fractions : Float (ℕ × ℕ)
fractions = record {
  of_int = fraction_of_int;
  mul = λ a b. (a.0 * b.0, a.1 * b.1);
  div = λ a b. (a.0 * b.1, a.1 * b.0);
  leb = λ a b. leb (a.0 * b.1) (b.0 * a.1);
  round = λ a. some (pos (a.0 / a.1));
  round_tenth = λ a. a;
  parse = λ t. (0, 1);
}

-- Texts that are in lower case already, with no markup.
abbrev pub plain_text : Text
plain_text = record {
  lower = λ t. t;
  upper = λ t. t;
  strip = λ t. t;
  unescape = λ t. t;
  drop_tags = λ t. t;
  one_space = λ t. t;
  remove = λ t part. t;
  slice = λ t a b. t;
}

-- Patterns that match nothing.
abbrev pub no_patterns : Patterns
no_patterns = record {
  onsite = λ t. false;
  hybrid = λ t. false;
  remote = λ t. false;
  unpaid = λ t. [];
  negation_before = λ t. false;
  ranges = λ t. [];
  singles = λ t. [];
  pay_word = λ t. false;
  not_pay = λ t. false;
  foreign_currency = λ t. false;
  internship_durations = [];
  program_duration = λ t. [];
  other_duration_before = λ t. false;
  years_tokens = λ t. [];
  exp_near = λ t n. false;
  years_after = λ t. [];
}

abbrev pub no_fold : List ℕ → List ℕ
no_fold text = text

no_fold-KeepsAscii : KeepsAscii no_fold
no_fold-KeepsAscii = λ text h. refl

acme-Names : Names (tokens no_fold (codes "Acme"))
unfolding tokens
acme-Names = λ e. unfold tokens pop_suffixes is_suffix is_one_of split chunk lower is_alnum in cc

-- A digest that does not collide on these texts.
abbrev pub digest : List ℕ → String
digest text = elim (text) [ [] ↦ "" | _ ↦ "digest" ]

content_hash_iff_example :
    (content_hash no_fold digest (codes "Acme") (codes "Engineer") none
      ≡ content_hash no_fold digest (codes "Acme Inc") (codes "engineer") none)
    ↔ ((norm_company no_fold (codes "Acme") ≡ norm_company no_fold (codes "Acme Inc"))
        × (norm_title no_fold (codes "Engineer") ≡ norm_title no_fold (codes "engineer"))
        × (norm_location no_fold none ≡ norm_location no_fold none))
content_hash_iff_example =
    content_hash_iff no_fold digest (codes "Acme") (codes "Engineer") (codes "Acme Inc")
      (codes "engineer") none none
      (λ e.
        unfold hash_key norm_company norm_title norm_location company_words join tokens pop_suffixes
          is_suffix is_one_of split chunk lower is_alnum in
        refl)

abbrev https_parts : Parts
https_parts = record { scheme = "https"; netloc = "acme.dev"; path = "/a"; query = "" }

abbrev pub urls : UrlLib
urls = record {
  lower = λ t. t;
  strip = λ t. t;
  length = λ t. 2;
  rstrip_slash = λ t. t;
  urlsplit = λ t. https_parts;
  parse_qsl = λ q. [];
  sort_pairs = λ l. l;
  urlencode = λ l. "";
  urlunsplit = λ p. "https://acme.dev/a";
  tidy = λ t. t;
}

canonical_url-safe_example :
    (canonical_url urls "https://acme.dev/a" ≡ "")
    ⊎ ((canonical_url urls "https://acme.dev/a" ≡ "https://acme.dev/a")
        × (https_parts.scheme ≡ "")
        × (https_parts.netloc ≡ ""))
    ⊎ ((parts : Parts) × (canonical_url urls "https://acme.dev/a" ≡ "https://acme.dev/a")
        × (contains allowed_url_schemes parts.scheme ≡ true))
canonical_url-safe_example = canonical_url-safe urls "https://acme.dev/a" refl

abbrev pay : ℕ → SalaryConfig (ℕ × ℕ)
pay floor = record {
  currency = "INR";
  period = "month";
  min_remote = floor;
  min_in_office = floor;
  min_internship = floor;
  on_missing = OnMissing.keep_and_flag;
  demote_in_office_if_unknown = true;
  fx_rates = ("USD", (85, 1)) ∷ [];
}

abbrev usd_job : Job
usd_job = record (posting "u" "adzuna" "https://jobs.dev/u") {
  salary_min = some (pos 12000);
  salary_currency = some "USD";
  salary_period = some "year";
}

abbrev inr_job : Job
inr_job = record usd_job {
  salary_raw = some "USD 12000";
  salary_min = some (pos 85000);
  salary_currency = some "INR";
  salary_period = some "month";
}

normalize_usd :
    normalize_salary fractions plain_text (λ j. "USD 12000") (pay 60000) usd_job ≡ some inr_job
unfolding normalize_salary convert_bounds to_inr_month rate_of period_to_month
normalize_usd = refl

plain_text-KnowsCase : KnowsCase plain_text
plain_text-KnowsCase = record { upper_inr = refl; lower_month = refl }

floors : LowerFloors (pay 60000) (pay 100000)
floors = record { remote = omega arith; in_office = omega arith; internship = omega arith }

abbrev pub settings : Config (ℕ × ℕ)
settings = record {
  keywords = record {
    roles = "Engineer" ∷ [];
    bonus = "Go" ∷ [];
    must_have = [];
    level_required = [];
    exclude = "Senior" ∷ [];
    require_level = false;
    intern_queries = [];
    max_experience_years = 2;
    max_internship_months = 0;
  };
  locations = "Remote" ∷ [];
  remote_preferred = true;
  salary = pay 60000;
  schedule = record {
    run_hour_local = 9;
    hours_old = pos 72;
    grace_days = pos 3;
    catch_up_on_startup = true;
    windowed_retire_days = pos 30;
    closure_checks_per_run = 20;
  };
  rss = record { enabled = false; path = ""; max_items = pos 50 };
}

score_and_filter-keep_example :
    (score_and_filter fractions plain_text no_patterns no_fold settings inr_job).keep ≡ (
      clears fractions plain_text no_patterns no_fold settings inr_job
        (reading fractions plain_text no_patterns no_fold settings inr_job)
      && affordable fractions plain_text no_patterns no_fold settings inr_job.salary_bucket)
score_and_filter-keep_example =
    score_and_filter-keep fractions plain_text no_patterns no_fold settings inr_job

kept_as_full_time :
    (score_and_filter fractions plain_text no_patterns no_fold settings
      (as_internship fractions plain_text no_patterns no_fold settings false inr_job)).keep
    ≡ true
unfolding score_and_filter verdict salary_gate kept hard_drop_reason excluded_by lacks_level
    lacks_role lacks_skill too_senior is_unpaid is_too_long location_ok reading anchored matches
    search_word stands required_years place_words is_alnum norm_location tokens split chunk join
    lower says_unpaid states_unpaid stated_amounts flatten posting_text representative_inr
    canonical_place is_one_of
kept_as_full_time = refl
