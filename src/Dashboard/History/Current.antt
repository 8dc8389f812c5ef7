-- ===== src/Dashboard/History/Current.antt =====
-- Which run the dashboard shows as the current one.
use job_aggregator.Prelude.{true, Option, none, some, List, ◌≡◌, ap, sym}
use mathlib.Core.Path.{subst}
use job_aggregator.Storage.Runs.{Run, Runs, is_running, latest}
use job_aggregator.Storage.Runs.Latest.{Answers, IsLatest, latest-Answers}
use job_aggregator.Dashboard.History.{or_latest, shown_run}

-- The shown run is the newest of the runs that pass the test, or there is none.
or_latest-some :
    (runs : List Run) (found : Option Run) (r : Run)
    → found ≡ some r
    → or_latest runs found ≡ some r
or_latest-some runs found r e = ap (or_latest runs) e

-- While a run is going, the poll reads the newest of those that are going. Otherwise it reads the
-- newest of all runs, and none only when there has been no run.
pub shown_run-Answers :
    (t : Runs)
    → ((r : Run)
        → latest is_running t.runs ≡ some r
        → (shown_run t ≡ some r) × IsLatest is_running t.runs r)
      × (latest is_running t.runs ≡ none → Answers (λ r. true) t.runs (shown_run t))
unfolding shown_run
shown_run-Answers t = (
  λ r e. (
    or_latest-some t.runs _ r e,
    subst (Answers is_running t.runs) e (latest-Answers is_running t.runs),
  ),
  λ e.
      subst (Answers (λ r. true) t.runs) (sym (ap (or_latest t.runs) e))
        (latest-Answers (λ r. true) t.runs),
)
