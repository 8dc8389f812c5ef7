-- ===== src/Pipeline/Runner.antt =====
-- pipeline/runner.py. `Env` holds what the code takes from outside: floats, texts, patterns, the
-- clock (`now n` is its n-th reading), and SQLite's julianday and ORDER BY.
pub mod Outcomes
pub mod Ingest
pub mod Refilter
pub mod Cycle
pub mod Windowed
pub mod Fetch
use job_aggregator.Prelude.{ℕ, String, List}
use job_aggregator.Models.{Job}
use job_aggregator.Python.{Float, Text}
use job_aggregator.Pipeline.Signals.{Patterns}
use job_aggregator.Sources.Closure.{Site}
use job_aggregator.Storage.{Row}

pub record Env (F : Type 0) : Type 0 where
  pub float : Float F
  pub text : Text
  pub re : Patterns
  pub ascii_fold : List ℕ → List ℕ
  pub raw_text : Job → String
  pub now : ℕ → ℕ
  pub julianday : ℕ → ℕ
  pub by_score : List Row → List Row
  pub by_recency : List Row → List Row
  pub by_last_check : List Row → List Row
  pub site : Site
