-- ===== src/Apply/Fields.antt =====
-- apply/driver.py, apply/detector.py and apply/grounding.py: the applicant's data, the fields of a
-- form, and the plan that a model makes of which value belongs into which field.
use Prim.Native.String.{◌++◌ as text_append}
use Prim.Native.Char.{code}
use job_aggregator.Prelude.{
  ℕ, String, Bool, not, ◌&&◌, Option, none, some, List, [], ◌∷◌, ◌==◌, ◌>>=◌, any, eqb, filter,
  if◌then◌else◌, map,
}
use job_aggregator.Models.Amount.{ℤ, pos, negsuc}
use job_aggregator.Pipeline.Signals.{is_nil}
use job_aggregator.Resume.Words.{join_texts}

pub record ApplicationFields : Type 0 where
  pub full_name : String
  pub first_name : String
  pub last_name : String
  pub email : String
  pub resume_path : String
  pub phone : Option String
  pub location : Option String
  pub linkedin : Option String
  pub github : Option String
  pub cover_note : Option String
  pub extra_context : Option String
  pub background : Option String

-- The pairs whose value is there and not empty.
unfoldable pub present_pairs : List (String × Option String) → List (String × String)
present_pairs [] = []
present_pairs ((name, none) ∷ pairs) = present_pairs pairs
present_pairs ((name, some value) ∷ pairs) =
    let rest = present_pairs pairs in if value == "" then rest else (name, value) ∷ rest

unfoldable pub text_map : ApplicationFields → List (String × String)
unfolding present_pairs
text_map app = present_pairs (
    ("full_name", some app.full_name)
    ∷ ("first_name", some app.first_name)
    ∷ ("last_name", some app.last_name)
    ∷ ("email", some app.email)
    ∷ ("phone", app.phone)
    ∷ ("location", app.location)
    ∷ ("linkedin", app.linkedin)
    ∷ ("github", app.github)
    ∷ ("cover_note", app.cover_note)
    ∷ [])

-- A field of the form. `type` is the source's name of `kind`.
pub record Field : Type 0 where
  pub index : ℕ
  pub tag : String
  pub kind : String
  pub name : String
  pub label : String
  pub x : ℕ
  pub y : ℕ
  pub value : String
  pub is_file : Bool

-- What json.loads makes of the reply: a ValueError, no object, or an object, whose values are
-- texts or something else.
pub data Loaded : Type 0 where
  invalid not_object : Loaded
  object : List (String × Option String) → Loaded

-- str.strip, repr, str, int of a key, json.loads, and json.dumps of the applicant's data.
pub record Grounder : Type 0 where
  pub strip : String → String
  pub repr : String → String
  pub str : ℕ → String
  pub int : String → Option ℤ
  pub loads : String → Loaded
  pub dumps : List (String × String) → String

-- The first text that is not empty.
abbrev pub or_else : String → String → String
or_else a b = if a == "" then b else a

-- The text from its first "{" on.
unfoldable pub from_brace : String → Option String
from_brace String.[] = none
from_brace (String.◌∷◌ c t) =
    let rest = from_brace t in if eqb (code c) 123 then some (String.◌∷◌ c t) else rest

-- The text up to its last "}".
unfoldable pub to_brace : String → Option String
to_brace String.[] = none
to_brace (String.◌∷◌ c t) = elim (to_brace t) [
  | some u ↦ some (String.◌∷◌ c u)
  | none ↦ if eqb (code c) 125 then some (String.◌∷◌ c "") else none
]

-- plan[idx] = value
unfoldable pub put : ℕ → String → List (ℕ × String) → List (ℕ × String)
put i v [] = (i, v) ∷ []
put i v ((j, old) ∷ plan) =
    let rest = put i v plan in if eqb j i then (j, v) ∷ plan else (j, old) ∷ rest

module _ (g : Grounder) where
  open g use {strip, repr, str, int, loads, dumps}

  abbrev pub filled : Field → Bool
  filled f = not (strip f.value == "")

  abbrev pub is_text : Field → Bool
  is_text f = not f.is_file && not (f.tag == "select") && not (f.kind == "select")

  abbrev pub is_open : Field → Bool
  is_open f = is_text f && not (filled f)

  unfoldable pub describe : Field → String
  describe f =
      let state : String = if filled f then text_append "value=" (repr f.value) else "EMPTY" in
      join_texts "" (
        "["
        ∷ str f.index
        ∷ "] "
        ∷ or_else f.label (or_else f.name f.kind)
        ∷ " ("
        ∷ f.kind
        ∷ ") "
        ∷ state
        ∷ [])

  unfoldable pub prompt : List Field → ApplicationFields → String
  unfolding describe text_map
  prompt fields app = join_texts "" (
      "APPLICANT DATA:\n"
      ∷ dumps (text_map app)
      ∷ "\n\nEMPTY FIELDS:\n"
      ∷ join_texts "\n" (map describe (filter is_open fields))
      ∷ [])

  abbrev pub is_valid : List ℕ → ℕ → Bool
  is_valid valid i = any (λ j. eqb j i) valid

  -- The value is a text that is not blank and the key one of the indices.
  unfoldable pub add_entry :
      List ℕ → List (ℕ × String) → Option ℤ → Option String → List (ℕ × String)
  add_entry valid plan none value = plan
  add_entry valid plan (some (negsuc n)) value = plan
  add_entry valid plan (some (pos i)) none = plan
  add_entry valid plan (some (pos i)) (some value) =
      if is_valid valid i && not (strip value == "") then put i value plan else plan

  unfoldable pub add_entries :
      List ℕ → List (ℕ × String) → List (String × Option String) → List (ℕ × String)
  unfolding add_entry
  add_entries valid plan [] = plan
  add_entries valid plan ((key, value) ∷ entries) =
      add_entries valid (add_entry valid plan (int key) value) entries

  abbrev pub plan_of : List ℕ → Loaded → List (ℕ × String)
  plan_of valid invalid = []
  plan_of valid not_object = []
  plan_of valid (object entries) = add_entries valid [] entries

  abbrev pub plan_from : List ℕ → Option String → List (ℕ × String)
  plan_from valid none = []
  plan_from valid (some part) = plan_of valid (loads part)

  unfoldable pub parse_plan : String → List ℕ → List (ℕ × String)
  parse_plan raw valid = plan_from valid (from_brace raw >>= to_brace)

  -- What is made of the reply of the model, `none` for an exception.
  abbrev pub plan_reply : List ℕ → Option String → List (ℕ × String)
  plan_reply valid none = []
  plan_reply valid (some raw) = parse_plan raw valid

  -- `complete` is backend.complete.
  unfoldable pub plan_fills :
      (String → Option String) → List Field → ApplicationFields → List (ℕ × String)
  plan_fills complete fields app =
      let valid = map (λ (f : Field). f.index) (filter is_open fields) in
      if is_nil valid then [] else plan_reply valid (complete (prompt fields app))
