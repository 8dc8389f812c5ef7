-- ===== src/Errors.antt =====
-- errors.py: what the modelled code may raise, and results that are values or errors.
use job_aggregator.Prelude.{String, Option, none, some, ◌⊎◌, inl, inr, ◌≡◌, refl}

pub data Error : Type 0 where
  run_in_progress value_error overflow_error not_found : Error
  -- an exception of code that is not modelled, with its text
  other : String → Error

pub data Result {ℓ} (A : Type ℓ) : Type ℓ where
  ok : A → Result A
  raise : Error → Result A

infixl 5 ◌>>=◌
abbrev pub ◌>>=◌ {ℓ κ} : {A : Type ℓ} {B : Type κ} → Result A → (A → Result B) → Result B
ok a >>= f = f a
raise e >>= f = raise e

-- The exception that an empty result stands for.
abbrev pub or_raise {ℓ} : {A : Type ℓ} → Error → Option A → Result A
or_raise e none = raise e
or_raise e (some a) = ok a

pub Result-cases {ℓ} :
    {A : Type ℓ} (r : Result A) → ((a : A) × (r ≡ ok a)) ⊎ ((e : Error) × (r ≡ raise e))
Result-cases (ok a) = inl (a, refl)
Result-cases (raise e) = inr (e, refl)
