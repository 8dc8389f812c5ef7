-- ===== src/Examples/Storage.antt =====
-- The laws of the jobs table at the example rows.
use job_aggregator.Prelude.{
  count, ◌≤◌, arith, ◌*◌, map, ◌==◌, String, Bool, false, some, List, [], ◌∷◌, ◌≡◌, ◌≢◌, refl,
}
use job_aggregator.Models.{Job}
use job_aggregator.Storage.{Row, find}
use job_aggregator.Storage.Table.{IsKeyed}
use job_aggregator.Storage.Flags.{UserField}
use job_aggregator.Storage.Query.{status_clause, SortKey, matches, count_jobs}
use job_aggregator.Storage.Query.Pages.{Reorders}
use job_aggregator.Storage.Query.Visible.{unfiltered}
use job_aggregator.Storage.Retire.{retire_jobs}
use job_aggregator.Storage.Retire.Laws.{deleted_if_due, is_due, retire_jobs-rows}
use job_aggregator.Examples.{posting, applied_row, table}

abbrev moved : Job
moved = posting "a" "lever:acme" "https://acme.dev/moved"

IsKeyed-table : IsKeyed table
unfolding find
IsKeyed-table = (refl, (refl, tt))

find-applied : find "a" table ≡ some applied_row
unfolding find
find-applied = refl

notes_ne_full_description : UserField.notes ≢ UserField.full_description
notes_ne_full_description = λ e. cc

-- LIKE '%..%' as equality, and ORDER BY that keeps the order of insertion.
abbrev like : String → String → Bool
like text pattern = text == pattern

abbrev in_order : SortKey → List Row → List Row
in_order key rows = rows

in_order-Reorders : Reorders in_order
in_order-Reorders = λ key p rows. refl

count_table : count_jobs like table (unfiltered false) ≤ 2 * 1
unfolding count_jobs matches status_clause
count_table = omega arith

retire_jobs-rows_example :
    ((retire_jobs table ("a" ∷ "b" ∷ [])).0 ≡ map (deleted_if_due ("a" ∷ "b" ∷ [])) table)
    × ((retire_jobs table ("a" ∷ "b" ∷ [])).1 ≡ count (is_due ("a" ∷ "b" ∷ [])) table)
retire_jobs-rows_example = retire_jobs-rows table ("a" ∷ "b" ∷ [])
