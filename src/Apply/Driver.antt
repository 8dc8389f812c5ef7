-- ===== src/Apply/Driver.antt =====
-- apply/driver.py: how a form is filled. What the page has depends on what was done on it so far.
pub mod Planned
pub mod Allowed
use job_aggregator.Prelude.{
  ℕ, suc, String, Bool, true, false, not, ◌&&◌, Option, none, some, List, [], ◌∷◌, ◌++◌, ◌==◌, add,
  contains, eqb, filter, if◌then◌else◌, is_some, map,
}
use job_aggregator.Pipeline.Signals.{is_nil}
use job_aggregator.Apply.Fields.{ApplicationFields, Field, Grounder, or_else, plan_fills, text_map}

-- loc.fill, page.mouse.click, page.keyboard.type and set_input_files: all that _fill does on a page.
-- A click does what the page does for it.
pub data Act : Type 0 where
  fill : String → String → Act
  click : ℕ → ℕ → Act
  type_text : String → Act
  upload : String → String → Act

-- `has` says whether a selector finds anything, `rows` is what the script in detector.py returns.
pub record Page : Type 0 where
  pub has : List Act → String → Bool
  pub rows : List Act → List Field

abbrev pub Selectors : Type 0
Selectors = List (String × List String)

-- _GENERIC_SELECTORS
abbrev pub generic_selectors : Selectors
generic_selectors =
    (
      "first_name",
      "input[name*='first' i]" ∷ "input[id*='first' i]" ∷ "input[autocomplete='given-name']" ∷ [],
    )
    ∷ (
      "last_name",
      "input[name*='last' i]" ∷ "input[id*='last' i]" ∷ "input[autocomplete='family-name']" ∷ [],
    )
    ∷ (
      "full_name",
      "input[name*='name' i]" ∷ "input[id*='name' i]" ∷ "input[autocomplete='name']" ∷ [],
    )
    ∷ ("email", "input[type='email']" ∷ "input[name*='email' i]" ∷ "input[id*='email' i]" ∷ [])
    ∷ ("phone", "input[type='tel']" ∷ "input[name*='phone' i]" ∷ "input[id*='phone' i]" ∷ [])
    ∷ (
      "location",
      "input[name*='location' i]" ∷ "input[id*='location' i]" ∷ "input[name*='city' i]" ∷ [],
    )
    ∷ ("linkedin", "input[name*='linkedin' i]" ∷ "input[id*='linkedin' i]" ∷ [])
    ∷ ("github", "input[name*='github' i]" ∷ "input[id*='github' i]" ∷ [])
    ∷ ("resume", "input[type='file']" ∷ [])
    ∷ []

-- The selectors of a name, none for an unknown one.
unfoldable pub selectors_of : String → Selectors → List String
selectors_of name [] = []
selectors_of name ((key, css) ∷ more) =
    let rest = selectors_of name more in if key == name then css else rest

-- The variables of _fill: the acts so far, the names filled and the values typed.
pub record Filling : Type 0 where
  pub acts : List Act
  pub filled : List String
  pub typed : List String

-- detect_fields: the rows with their positions as indices.
unfoldable pub numbered : ℕ → List Field → List Field
numbered n [] = []
numbered n (row ∷ rows) = record row { index = n } ∷ numbered (suc n) rows

-- {f.index: f for f in fields}.get(i)
unfoldable pub by_index : ℕ → List Field → Option Field
by_index i [] = none
by_index i (f ∷ fields) = elim (by_index i fields) [
  | some g ↦ some g
  | none ↦ if eqb f.index i then some f else none
]

module _ (page : Page) where
  open page use {has, rows}

  -- The first selector that finds something.
  unfoldable pub first_css : List Act → List String → Option String
  first_css acts [] = none
  first_css acts (css ∷ more) =
      let rest = first_css acts more in if has acts css then some css else rest

  abbrev pub placed : Filling → String → String → Option String → Filling
  placed s name value none = s
  placed s name value (some css) = record {
    acts = s.acts ++ fill css value ∷ [];
    filled = s.filled ++ name ∷ [];
    typed = add s.typed value;
  }

  unfoldable pub try_fill : Filling → String → String → List String → Filling
  unfolding first_css
  try_fill s name value css_list = placed s name value (first_css s.acts css_list)

  -- The selectors of a known form.
  unfoldable pub fill_known : Selectors → Filling → List (String × String) → Filling
  unfolding try_fill
  fill_known selectors s [] = s
  fill_known selectors s ((name, value) ∷ text) =
      fill_known selectors (try_fill s name value (selectors_of name selectors)) text

  -- The plan of the model.
  abbrev pub typed_at : Filling → String → Option Field → Filling
  typed_at s value none = s
  typed_at s value (some f) = record {
    acts = s.acts ++ click f.x f.y ∷ type_text value ∷ [];
    filled = s.filled ++ or_else f.label (or_else f.name f.kind) ∷ [];
    typed = add s.typed value;
  }

  unfoldable pub fill_plan : List Field → Filling → List (ℕ × String) → Filling
  unfolding by_index
  fill_plan detected s [] = s
  fill_plan detected s ((i, value) ∷ plan) =
      fill_plan detected (typed_at s value (by_index i detected)) plan

  abbrev pub try_untyped : Bool → Filling → String → String → Filling
  try_untyped true s name value = s
  try_untyped false s name value = try_fill s name value (selectors_of name generic_selectors)

  -- Without a model: the generic selectors, for values that are not typed yet.
  unfoldable pub fill_generic : Filling → List (String × String) → Filling
  unfolding try_fill
  fill_generic s [] = s
  fill_generic s ((name, value) ∷ text) =
      fill_generic (try_untyped (contains s.typed value) s name value) text

  abbrev pub uploaded : Filling → String → Option String → Filling
  uploaded s path none = s
  uploaded s path (some css) = record s {
    acts = s.acts ++ upload css path ∷ [];
    filled = s.filled ++ "resume" ∷ [];
  }

  -- The selectors for the file: those of the form when it names any.
  abbrev pub resume_css : Selectors → List String
  resume_css selectors =
      if is_nil (selectors_of "resume" selectors)
      then selectors_of "resume" generic_selectors
      else selectors_of "resume" selectors

  abbrev pub fill_rest :
      Grounder → Option (String → Option String) → ApplicationFields → Filling → Filling
  fill_rest g none app s = fill_generic s (text_map app)
  fill_rest g (some complete) app s =
      let detected = numbered 0 (rows s.acts) in
      fill_plan detected s (plan_fills g complete detected app)

  -- _fill; no selectors at all are an empty list.
  unfoldable pub fill_page :
      Grounder → Option (String → Option String) → ApplicationFields → Selectors → Filling
  unfolding fill_known fill_generic fill_plan numbered
  fill_page g backend app selectors =
      let known =
        fill_known selectors (record { acts = []; filled = []; typed = [] }) (text_map app) in
      let s = fill_rest g backend app known in
      uploaded s app.resume_path (first_css s.acts (resume_css selectors))

-- The names whose value was not typed.
unfoldable pub unfilled : ApplicationFields → Filling → List String
unfilled app s =
    map (λ (p : String × String). p.0) (filter (λ p. not (contains s.typed p.1)) (text_map app))
