-- ===== src/Python.antt =====
-- What the code uses of Python's floats and text methods, as parameters of the model.
use job_aggregator.Prelude.{ℕ, String, Bool, Option}
use job_aggregator.Models.Amount.{ℤ}

-- The float type: its arithmetic, `round(x)`, which raises for an infinity or a NaN (`none`), and
-- `round(x, 1)`.
pub record Float (F : Type 0) : Type 0 where
  pub of_int : ℤ → F
  pub mul : F → F → F
  pub div : F → F → F
  pub leb : F → F → Bool
  pub round : F → Option ℤ
  pub round_tenth : F → F
  -- float(text), for the numerals that the patterns capture
  pub parse : String → F

-- str.lower, str.upper, str.strip, html.unescape and re.sub with the two patterns of
-- signals.flatten.
pub record Text : Type 0 where
  pub lower : String → String
  pub upper : String → String
  pub strip : String → String
  pub unescape : String → String
  pub drop_tags : String → String
  pub one_space : String → String
  -- text.replace(part, "")
  pub remove : String → String → String
  -- text[a:b]
  pub slice : String → ℕ → ℕ → String
