-- ===== src/Prelude/Sets.antt =====
-- Python's set[str] as a list of texts, and `sorted` of one.
use Prim.Native.String.{String, compare}
use mathlib.Core.Path.{◌≡◌, refl}
use mathlib.Core.Bool.{Bool, false, ◌||◌}
use mathlib.Core.List.{List, [], ◌∷◌}
use native.Mathlib.Omega.{arith}
use text.Mathlib.Text.{◌==◌, is_le}
use text.Mathlib.TextEquality.{eq_iff}
use job_aggregator.Prelude.Tests.{if◌then◌else◌}

-- x in s
unfoldable pub contains : List String → String → Bool
contains [] x = false
contains (y ∷ s) x = y == x || contains s x

-- s.add(x)
unfoldable pub add : List String → String → List String
add s x = if contains s x then s else x ∷ s

unfoldable pub insert_sorted : String → List String → List String
insert_sorted x [] = x ∷ []
insert_sorted x (y ∷ s) = if is_le (compare x y) then x ∷ (y ∷ s) else y ∷ insert_sorted x s

-- sorted(s): texts are compared by code points
unfoldable pub sorted : List String → List String
sorted [] = []
sorted (x ∷ s) = insert_sorted x (sorted s)

contains-insert_sorted :
    (x : String) (s : List String) (z : String)
    → contains (insert_sorted x s) z ≡ (x == z || contains s z)
unfolding contains insert_sorted
contains-insert_sorted x [] z = refl
contains-insert_sorted x (y ∷ s) z = ground (arith, contains-insert_sorted x s z)

-- Sorting keeps the members.
pub contains-sorted : (s : List String) (z : String) → contains (sorted s) z ≡ contains s z
unfolding contains sorted
contains-sorted [] z = refl
contains-sorted (x ∷ s) z =
    ground (arith, contains-insert_sorted x (sorted s) z, contains-sorted s z)

-- Adding one member changes the answer for that member only.
pub contains-add :
    (s : List String) (x z : String) → contains (add s x) z ≡ (x == z || contains s z)
unfolding contains add
contains-add s x z = ground (arith, eq_iff x z)
