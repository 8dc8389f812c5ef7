-- ===== src/Storage/Runs/Sources.antt =====
-- source_runs holds one outcome for each run and source.
use job_aggregator.Prelude.{
  ℕ, String, ◌&&◌, Option, none, some, List, [], ◌∷◌, ◌==◌, ◌≡◌, refl, eqb, eq_iff, arith,
  if◌then◌else◌,
}
use job_aggregator.Storage.Runs.{SourceRun, Runs, upsert_source_run, record_source_run}

-- SELECT * FROM source_runs WHERE run_id = ? AND source = ?
abbrev pub outcome_of : ℕ → String → List SourceRun → Option SourceRun
outcome_of id source [] = none
outcome_of id source (x ∷ rows) =
    if eqb x.run_id id && x.source == source then some x else outcome_of id source rows

find-upsert_source_run :
    (x : SourceRun) (id : ℕ) (source : String) (rows : List SourceRun)
    → outcome_of id source (upsert_source_run x rows)
      ≡ (if eqb x.run_id id && x.source == source then some x else outcome_of id source rows)
unfolding upsert_source_run
find-upsert_source_run x id source [] = refl
find-upsert_source_run x id source (y ∷ rows) = ground (
  arith,
  eq_iff x.source source,
  eq_iff y.source source,
  eq_iff y.source x.source,
  find-upsert_source_run x id source rows,
)

-- The last outcome recorded for a run and a source is the one that is found, the outcomes of
-- other runs and sources are those that were there, and the runs themselves are untouched.
pub outcome-record_source_run :
    (t : Runs) (x : SourceRun) (id : ℕ) (source : String)
    → (outcome_of id source (record_source_run t x).source_runs ≡ (
        if eqb x.run_id id && x.source == source
        then some x
        else outcome_of id source t.source_runs))
      × ((record_source_run t x).runs ≡ t.runs)
unfolding record_source_run
outcome-record_source_run t x id source = (find-upsert_source_run x id source t.source_runs, refl)
