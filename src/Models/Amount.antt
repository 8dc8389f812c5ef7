-- ===== src/Models/Amount.antt =====
-- Python's int for pay amounts, days and page bounds: only signs and comparisons are used.
use job_aggregator.Prelude.{ℕ, Bool, false, leb, ltb}

-- `negsuc n` is -(n + 1).
pub data ℤ : Type 0 where
  pos : ℕ → ℤ
  negsuc : ℕ → ℤ

-- amount >= floor, for a floor that is not negative
abbrev pub at_least : ℕ → ℤ → Bool
at_least floor (pos n) = leb floor n
at_least floor (negsuc n) = false

-- amount > 0
abbrev pub is_positive : ℤ → Bool
is_positive (pos n) = ltb 0 n
is_positive (negsuc n) = false
