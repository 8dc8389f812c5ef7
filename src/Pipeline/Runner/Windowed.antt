-- ===== src/Pipeline/Runner/Windowed.antt =====
-- A fetch that was cut short, and the rows of its source.
use job_aggregator.Prelude.{
  add, ℕ, String, Bool, true, false, not, ◌&&◌, ◌||◌, inr, some, List, [], ◌∷◌, ◌≡◌, arith, any,
  contains, contains-add, ltb, coalesce, if◌then◌else◌,
}
use job_aggregator.Models.{is_live}
use job_aggregator.Models.Amount.{ℤ}
use job_aggregator.Storage.{Row, find}
use job_aggregator.Sources.Base.{SourceResult}
use job_aggregator.Pipeline.Stale.{Expiry}
use job_aggregator.Pipeline.Stale.Rows.{HasCutoffs}
use job_aggregator.Pipeline.Stale.Guard.{Finds, expire_stale-alive}
use job_aggregator.Pipeline.Runner.Outcomes.{
  outcomes, add_names, windowed_from, windowed_names, reports_ok,
}

contains-add_names :
    (names : List String) (l : List (String × Bool × ℕ)) (source : String)
    → contains (add_names names l) source ≡ (contains names source || reports_ok source l)
contains-add_names names [] source = ground arith
contains-add_names names ((name, ok, n) ∷ l) source = ground (
  arith,
  contains-add names name source,
  contains-add_names (if ok then add names name else names) l source,
)

-- Some fetch that did not see the whole board reports this name as fetched.
abbrev pub is_cut : String → SourceResult → Bool
is_cut source res = not res.exhaustive && reports_ok source (outcomes res)

contains-windowed_from :
    (names : List String) (results : List SourceResult) (source : String)
    → contains (windowed_from names results) source
      ≡ (contains names source || any (is_cut source) results)
unfolding windowed_from
contains-windowed_from names [] source = ground arith
contains-windowed_from names (res ∷ results) source = ground (
  arith,
  contains-add_names names (outcomes res) source,
  contains-windowed_from (if res.exhaustive then names else add_names names (outcomes res)) results
      source,
)

pub contains-windowed_names :
    (results : List SourceResult) (source : String)
    → contains (windowed_names results) source ≡ any (is_cut source) results
unfolding windowed_names contains
contains-windowed_names results source = contains-windowed_from [] results source

-- Absence from a fetch that was cut short is no evidence: a visible row whose source was fetched
-- so in this cycle survives the stale pass as it is, unless its posting is older than the
-- retirement cutoff.
pub expire_stale-windowed :
    (julianday : ℕ → ℕ) (rows : List Row) (succeeded : List String) (grace_days retire_days : ℤ)
    (now now' : ℕ) (e : Expiry) (cutoffs : HasCutoffs now now' grace_days retire_days e)
    (results : List SourceResult) (uid : String) (r : Row)
    → e.windowed ≡ windowed_names results
    → find uid rows ≡ some r
    → is_live r.status ≡ true
    → any (is_cut r.source) results ≡ true
    → ltb (julianday (coalesce r.posted_at r.first_seen_at)) (julianday e.retire) ≡ false
    → Finds julianday rows succeeded grace_days retire_days now now' e cutoffs uid r
expire_stale-windowed julianday rows succeeded grace_days retire_days now now' e cutoffs results uid
      r windowed stored live cut young =
    expire_stale-alive julianday rows succeeded grace_days retire_days now now' e cutoffs uid r
      stored live (inr (rw (windowed, contains-windowed_names results r.source) cut, young))
