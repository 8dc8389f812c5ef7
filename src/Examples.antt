-- ===== src/Examples.antt =====
-- Example postings and rows, and the theorems at these rows.
pub mod Storage
pub mod Runs
pub mod Stale
pub mod Postings
pub mod Sources
pub mod Cycle
pub mod Http
pub mod Scheduler
pub mod Resume
pub mod Dashboard
pub mod Details
pub mod Apply
pub mod Channels
use job_aggregator.Prelude.{String, Bool, true, false, none, some, List, [], ◌∷◌}
use job_aggregator.Models.{Job, JobStatus, SalaryBucket}
use job_aggregator.Models.Amount.{pos}
use job_aggregator.Storage.{Row}

abbrev pub posting : String → String → String → Job
posting uid source url = record {
  job_uid = uid;
  source = source;
  source_native_id = none;
  title = "Backend Engineer";
  company = "Acme";
  location = some "Remote";
  is_remote = some true;
  url = url;
  description = some "Go services";
  salary_min = some (pos 90000);
  salary_max = none;
  salary_currency = some "INR";
  salary_period = some "month";
  salary_raw = none;
  salary_parsed = true;
  salary_bucket = some SalaryBucket.pass;
  posted_at = none;
  match_score = some 4;
  is_internship = false;
}

-- A row that was last seen in run 1; `applied` and the status are the arguments.
abbrev pub stored_row : Job → JobStatus → Bool → Row
stored_row job status applied = record {
  job = job;
  first_seen_at = 1000;
  last_seen_at = 1000;
  last_seen_cycle = 1;
  status = status;
  applied = applied;
  bookmarked = false;
  hidden = false;
  seen = true;
  notes = some "ask about the team";
  extra_context = none;
  full_description = some "Go services and Postgres";
  closure_checked_at = none;
}

abbrev pub applied_row : Row
applied_row = stored_row (posting "a" "lever:acme" "https://acme.dev/a") JobStatus.active true

abbrev pub new_row : Row
new_row = stored_row (posting "b" "adzuna" "https://jobs.dev/b") JobStatus.new false

abbrev pub table : List Row
table = applied_row ∷ new_row ∷ []
