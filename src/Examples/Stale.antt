-- ===== src/Examples/Stale.antt =====
-- The laws of the stale pass at the example rows.
use job_aggregator.Prelude.{
  ℕ, String, true, false, none, add, some, List, [], ◌∷◌, ◌≡◌, refl, contains, map, total, ◌*◌,
}
use job_aggregator.Clock.{day, minus_days}
use job_aggregator.Models.{JobStatus}
use job_aggregator.Models.Amount.{pos}
use job_aggregator.Storage.{Row, find}
use job_aggregator.Pipeline.Stale.{Expiry, expire_stale}
use job_aggregator.Pipeline.Stale.Rows.{HasCutoffs, expired, expired_changes, expire_stale-rows}
use job_aggregator.Pipeline.Stale.Guard.{expire_stale-failed_source}
use job_aggregator.Pipeline.Runner.Outcomes.{outcomes, windowed_names, windowed_from}
use job_aggregator.Pipeline.Runner.Windowed.{expire_stale-windowed}
use job_aggregator.Sources.Base.{SourceResult}
use job_aggregator.Examples.{stored_row, posting, applied_row, new_row, table}

-- Run 2, forty days in, with a grace of 3 days and a retirement of 30.
abbrev at : ℕ
at = 40 * day

abbrev expiry : Expiry
expiry = record { run_id = 2; cutoff = 37 * day; retire = 10 * day; windowed = "adzuna" ∷ [] }

abbrev same : ℕ → ℕ
same t = t

expiry-HasCutoffs : HasCutoffs at at (pos 3) (pos 30) expiry
expiry-HasCutoffs = unfold minus_days in (refl, refl)

abbrev ok_names : List String
ok_names = "adzuna" ∷ []

find-applied : find "a" table ≡ some applied_row
unfolding find
find-applied = refl

find_new : find "b" table ≡ some new_row
unfolding find
find_new = refl

expire_stale-rows_example :
    expire_stale same table 2 ok_names (pos 3) (pos 30) at at ("adzuna" ∷ [])
    ≡ some (
      map (expired same expiry ok_names) table,
      total (expired_changes same expiry ok_names) table,
    )
expire_stale-rows_example =
    expire_stale-rows same table ok_names (pos 3) (pos 30) at at expiry expiry-HasCutoffs

expire_stale-failed_source_example :
    (out : List Row × ℕ) × (expire_stale same table 2 ok_names
        (pos 3)
        (pos 30)
        at
        at
        ("adzuna" ∷ [])
      ≡ some out)
    × (find "a" out.0 ≡ some applied_row)
expire_stale-failed_source_example =
    expire_stale-failed_source same table ok_names (pos 3) (pos 30) at at expiry expiry-HasCutoffs
      "a" applied_row find-applied (unfold contains in refl)

-- The same pass in run 1, in which the rows were seen.
abbrev expiry_of_run : Expiry
expiry_of_run = record expiry { run_id = 1 }

-- A posting of day 20 whose source was cut short in this run.
abbrev young_row : Row
young_row =
    stored_row (record (posting "y" "adzuna" "https://jobs.dev/y") { posted_at = some (20 * day) })
      JobStatus.active false

abbrev cut_fetch : SourceResult
cut_fetch = record {
  source = "adzuna";
  succeeded = true;
  jobs = [];
  n_fetched = 50;
  duration_ms = 700;
  error = none;
  sub_results = [];
  exhaustive = false;
}

find-young : find "y" (young_row ∷ []) ≡ some young_row
unfolding find
find-young = refl

windowed_names-cut : "adzuna" ∷ [] ≡ windowed_names (cut_fetch ∷ [])
unfolding windowed_names windowed_from add contains
windowed_names-cut = refl

expire_stale-windowed_example :
    (out : List Row × ℕ) × (expire_stale same
        (young_row ∷ [])
        2
        ok_names
        (pos 3)
        (pos 30)
        at
        at
        ("adzuna" ∷ [])
      ≡ some out)
    × (find "y" out.0 ≡ some young_row)
expire_stale-windowed_example =
    expire_stale-windowed same (young_row ∷ []) ok_names (pos 3) (pos 30) at at expiry
      expiry-HasCutoffs (cut_fetch ∷ []) "y" young_row windowed_names-cut find-young refl
      (unfold outcomes in refl) refl
