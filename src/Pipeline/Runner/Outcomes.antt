-- ===== src/Pipeline/Runner/Outcomes.antt =====
-- _record_source_runs, _windowed_names and _run_status of pipeline/runner.py.
use job_aggregator.Prelude.{
  ℕ, ◌+◌, String, Bool, true, false, ◌&&◌, ◌||◌, Option, none, some, List, [], ◌∷◌, ◌==◌, ◌≡◌, refl,
  ◌∙◌, any, eqb, ltb, contains, add, contains-add, arith, if◌then◌else◌,
}
use job_aggregator.Storage.Runs.{Runs, record_source_run}
use job_aggregator.Sources.Base.{SourceResult}

-- res.sub_results or [(res.source, res.succeeded, res.n_fetched)]
unfoldable pub outcomes : SourceResult → List (String × Bool × ℕ)
outcomes res = elim (res.sub_results) [
  | [] ↦ (res.source, res.succeeded, res.n_fetched) ∷ []
  | o ∷ l ↦ o ∷ l
]

pub record Tally : Type 0 where
  pub runs : Runs
  pub succeeded : List String
  pub n_ok : ℕ
  pub n_err : ℕ
  pub errors : List (String × String)

-- errors[name] = res.error, if there is an error text
abbrev pub with_error : String → Option String → List (String × String) → List (String × String)
with_error name none errors = errors
with_error name (some e) errors = if e == "" then errors else (name, e) ∷ errors

unfoldable pub record_outcome : ℕ → SourceResult → Tally → String × Bool × ℕ → Tally
record_outcome run_id res t (name, ok, n) =
    let runs' = record_source_run t.runs (record {
      run_id = run_id;
      source = name;
      succeeded = ok;
      n_fetched = some n;
      duration_ms = some res.duration_ms;
      error = if ok then none else res.error;
    }) in
    if ok
    then record t { runs = runs'; n_ok = t.n_ok + 1; succeeded = add t.succeeded name }
    else record t { runs = runs'; n_err = t.n_err + 1; errors = with_error name res.error t.errors }

unfoldable pub record_outcomes : ℕ → SourceResult → Tally → List (String × Bool × ℕ) → Tally
record_outcomes run_id res t [] = t
record_outcomes run_id res t (o ∷ l) = record_outcomes run_id res (record_outcome run_id res t o) l

unfoldable pub record_source_runs : ℕ → Tally → List SourceResult → Tally
record_source_runs run_id t [] = t
record_source_runs run_id t (res ∷ results) =
    record_source_runs run_id (record_outcomes run_id res t (outcomes res)) results

abbrev pub no_outcomes : Runs → Tally
no_outcomes runs = record { runs = runs; succeeded = []; n_ok = 0; n_err = 0; errors = [] }

abbrev pub add_names : List String → List (String × Bool × ℕ) → List String
add_names names [] = names
add_names names ((name, ok, n) ∷ l) = add_names (if ok then add names name else names) l

unfoldable pub windowed_from : List String → List SourceResult → List String
unfolding outcomes
windowed_from names [] = names
windowed_from names (res ∷ results) =
    windowed_from (if res.exhaustive then names else add_names names (outcomes res)) results

unfoldable pub windowed_names : List SourceResult → List String
unfolding windowed_from
windowed_names = windowed_from []

unfoldable pub run_status : ℕ → ℕ → String
run_status n_ok n_err =
    if eqb n_ok 0 && eqb n_err 0
    then "success"
    else if eqb n_ok 0
    then "failed"
    else if ltb 0 n_err
    then "partial"
    else "success"

-- Some outcome with this name says that the fetch succeeded.
abbrev pub reports_ok : String → List (String × Bool × ℕ) → Bool
reports_ok source = any (λ (o : String × Bool × ℕ). o.1 && o.0 == source)

module _ (run_id : ℕ) (source : String) where
  record_outcomes-succeeded :
      (res : SourceResult) (l : List (String × Bool × ℕ)) (t : Tally)
      → contains (record_outcomes run_id res t l).succeeded source
        ≡ (contains t.succeeded source || reports_ok source l)
  unfolding record_outcomes record_outcome
  record_outcomes-succeeded res [] t = ground arith
  record_outcomes-succeeded res (o ∷ l) t = ground (
    arith,
    contains-add t.succeeded o.0 source,
    record_outcomes-succeeded res l (record_outcome run_id res t o),
  )

  record_source_runs-succeeded :
      (results : List SourceResult) (t : Tally)
      → contains (record_source_runs run_id t results).succeeded source
        ≡ (contains t.succeeded source || any (λ res. reports_ok source (outcomes res)) results)
  unfolding record_source_runs
  record_source_runs-succeeded [] t = ground arith
  record_source_runs-succeeded (res ∷ results) t = ground (
    arith,
    record_outcomes-succeeded res (outcomes res) t,
    record_source_runs-succeeded results (record_outcomes run_id res t (outcomes res)),
  )

  -- The set that the stale pass may expire holds exactly the names for which some outcome of the
  -- cycle reports success: a company that failed is not in it, whatever other companies of the
  -- same board did.
  pub succeeded_iff :
      (runs : Runs) (results : List SourceResult)
      → contains (record_source_runs run_id (no_outcomes runs) results).succeeded source
        ≡ any (λ res. reports_ok source (outcomes res)) results
  unfolding contains
  succeeded_iff runs results = record_source_runs-succeeded results (no_outcomes runs)

record_outcomes-runs :
    (run_id : ℕ) (res : SourceResult) (l : List (String × Bool × ℕ)) (t : Tally)
    → ((record_outcomes run_id res t l).runs.runs ≡ t.runs.runs)
      × ((record_outcomes run_id res t l).runs.last_run_id ≡ t.runs.last_run_id)
unfolding record_outcomes record_outcome record_source_run
record_outcomes-runs run_id res [] t = (refl, refl)
record_outcomes-runs run_id res ((name, true, n) ∷ l) t =
    record_outcomes-runs run_id res l (record_outcome run_id res t (name, true, n))
record_outcomes-runs run_id res ((name, false, n) ∷ l) t =
    record_outcomes-runs run_id res l (record_outcome run_id res t (name, false, n))

-- Recording outcomes leaves the runs table alone.
pub record_source_runs-runs :
    (run_id : ℕ) (results : List SourceResult) (t : Tally)
    → ((record_source_runs run_id t results).runs.runs ≡ t.runs.runs)
      × ((record_source_runs run_id t results).runs.last_run_id ≡ t.runs.last_run_id)
unfolding record_source_runs
record_source_runs-runs run_id [] t = (refl, refl)
record_source_runs-runs run_id (res ∷ results) t =
    let (a, b) = record_outcomes-runs run_id res (outcomes res) t in
    let (c, d) =
      record_source_runs-runs run_id results (record_outcomes run_id res t (outcomes res)) in
    (c ∙ a, d ∙ b)
