-- ===== src/Apply/Driver/Allowed.antt =====
-- What may be done on a page.
use mathlib.Core.List.{Memᴰ}
use job_aggregator.Prelude.{
  eq_iff, ℕ, String, Bool, true, false, Option, none, some, List, [], ◌∷◌, ◌++◌, ◌==◌, ◌≡◌, refl,
  All, any, arith, contains,
}
use job_aggregator.Resume.Guard.Bullets.{All-map}
use job_aggregator.Apply.Fields.{ApplicationFields, Field, Grounder, is_open, text_map}
use job_aggregator.Apply.Driver.{
  Act, fill, click, type_text, upload, Page, Selectors, Filling, by_index, fill_generic, fill_known,
  fill_page, fill_plan, fill_rest, numbered, placed, try_fill, try_untyped, typed_at, uploaded,
}
use job_aggregator.Apply.Driver.Planned.{opens, by_index-opens, plan_fills-opens}

abbrev pub is_value : List (String × String) → String → Bool
is_value text v = any (λ (p : String × String). p.1 == v) text

is_value-own :
    (text : List (String × String)) → All (λ (p : String × String). is_value text (p.1) ≡ true) text
is_value-own [] = tt
is_value-own ((name, value) ∷ text) = (
  ground (arith, eq_iff value value),
  All-map (λ (p : String × String). is_value text (p.1) ≡ true)
      (λ (p : String × String). is_value ((name, value) ∷ text) (p.1) ≡ true) text
      (λ p h. ground (arith, h)) (is_value-own text),
)

module _ (g : Grounder) (app : ApplicationFields) (page : Page) where
  -- The position of a field that the page showed, that is neither a file input nor a select and that
  -- had no value.
  abbrev pub IsOpenAt : ℕ → ℕ → Type 0
  IsOpenAt x y =
      (seen : List Act) × (f : Field) × Memᴰ f (numbered 0 (page.rows seen))
      × (is_open g f ≡ true)
      × (f.x ≡ x)
      × (f.y ≡ y)

  -- A selector gets a value of the applicant, a file input the résumé, and a click goes to such a
  -- position. Typing comes directly behind a click, and nothing else does: the first argument says
  -- whether the last act was a click.
  abbrev pub IsAllowed : Bool → List Act → Type 0
  IsAllowed false [] = Unit
  IsAllowed true [] = ⊥
  IsAllowed false (fill css v ∷ acts) = (is_value (text_map app) v ≡ true) × IsAllowed false acts
  IsAllowed true (fill css v ∷ acts) = ⊥
  IsAllowed false (click x y ∷ acts) = IsOpenAt x y × IsAllowed true acts
  IsAllowed true (click x y ∷ acts) = ⊥
  IsAllowed false (type_text v ∷ acts) = ⊥
  IsAllowed true (type_text v ∷ acts) = IsAllowed false acts
  IsAllowed false (upload css path ∷ acts) = (path ≡ app.resume_path) × IsAllowed false acts
  IsAllowed true (upload css path ∷ acts) = ⊥

  append-IsAllowed :
      (clicked : Bool) (xs ys : List Act)
      → IsAllowed clicked xs
      → IsAllowed false ys
      → IsAllowed clicked (xs ++ ys)
  append-IsAllowed false [] ys h k = k
  append-IsAllowed true [] ys h k = absurd h
  append-IsAllowed false (fill css v ∷ xs) ys h k = (h.0, append-IsAllowed false xs ys (h.1) k)
  append-IsAllowed true (fill css v ∷ xs) ys h k = h
  append-IsAllowed false (click x y ∷ xs) ys h k = (h.0, append-IsAllowed true xs ys (h.1) k)
  append-IsAllowed true (click x y ∷ xs) ys h k = h
  append-IsAllowed false (type_text v ∷ xs) ys h k = h
  append-IsAllowed true (type_text v ∷ xs) ys h k = append-IsAllowed false xs ys h k
  append-IsAllowed false (upload css path ∷ xs) ys h k = (h.0, append-IsAllowed false xs ys (h.1) k)
  append-IsAllowed true (upload css path ∷ xs) ys h k = h

  abbrev AreAllowed : Filling → Type 0
  AreAllowed s = IsAllowed false s.acts

  placed-AreAllowed :
      (s : Filling) (name value : String) (css : Option String)
      → is_value (text_map app) value ≡ true
      → AreAllowed s
      → AreAllowed (placed page s name value css)
  placed-AreAllowed s name value none own h = h
  placed-AreAllowed s name value (some css) own h =
      append-IsAllowed false s.acts (fill css value ∷ []) h (own, tt)

  fill_known-AreAllowed :
      (selectors : Selectors) (text : List (String × String)) (s : Filling)
      → All (λ (p : String × String). is_value (text_map app) (p.1) ≡ true) text
      → AreAllowed s
      → AreAllowed (fill_known page selectors s text)
  unfolding fill_known try_fill
  fill_known-AreAllowed selectors [] s own h = h
  fill_known-AreAllowed selectors ((name, value) ∷ text) s own h =
      fill_known-AreAllowed selectors text _ (own.1) (placed-AreAllowed s name value _ (own.0) h)

  try_untyped-AreAllowed :
      (typed : Bool) (s : Filling) (name value : String)
      → is_value (text_map app) value ≡ true
      → AreAllowed s
      → AreAllowed (try_untyped page typed s name value)
  unfolding try_fill
  try_untyped-AreAllowed true s name value own h = h
  try_untyped-AreAllowed false s name value own h = placed-AreAllowed s name value _ own h

  fill_generic-AreAllowed :
      (text : List (String × String)) (s : Filling)
      → All (λ (p : String × String). is_value (text_map app) (p.1) ≡ true) text
      → AreAllowed s
      → AreAllowed (fill_generic page s text)
  unfolding fill_generic try_fill
  fill_generic-AreAllowed [] s own h = h
  fill_generic-AreAllowed ((name, value) ∷ text) s own h =
      fill_generic-AreAllowed text _ (own.1)
        (try_untyped-AreAllowed (contains s.typed value) s name value (own.0) h)

  typed_at-AreAllowed :
      (seen : List Act) (s : Filling) (i : ℕ) (value : String) (found : Option Field)
      → by_index i (numbered 0 (page.rows seen)) ≡ found
      → opens g i (numbered 0 (page.rows seen)) ≡ true
      → AreAllowed s
      → AreAllowed (typed_at page s value found)
  typed_at-AreAllowed seen s i value none e is h = h
  typed_at-AreAllowed seen s i value (some f) e is h =
      let (m, there) = by_index-opens g i 0 (page.rows seen) f e is in
      append-IsAllowed false s.acts (click f.x f.y ∷ type_text value ∷ []) h
        ((seen, f, m, there, refl, refl), tt)

  fill_plan-AreAllowed :
      (seen : List Act) (plan : List (ℕ × String)) (s : Filling)
      → All (λ (e : ℕ × String). opens g (e.0) (numbered 0 (page.rows seen)) ≡ true) plan
      → AreAllowed s
      → AreAllowed (fill_plan page (numbered 0 (page.rows seen)) s plan)
  unfolding fill_plan
  fill_plan-AreAllowed seen [] s is h = h
  fill_plan-AreAllowed seen ((i, value) ∷ plan) s is h =
      fill_plan-AreAllowed seen plan _ (is.1) (typed_at-AreAllowed seen s i value _ refl (is.0) h)

  fill_rest-AreAllowed :
      (backend : Option (String → Option String)) (s : Filling)
      → AreAllowed s
      → AreAllowed (fill_rest page g backend app s)
  fill_rest-AreAllowed none s h =
      fill_generic-AreAllowed (text_map app) s (is_value-own (text_map app)) h
  fill_rest-AreAllowed (some complete) s h =
      fill_plan-AreAllowed s.acts _ s
        (plan_fills-opens g complete (numbered 0 (page.rows s.acts)) app) h

  uploaded-AreAllowed :
      (s : Filling) (css : Option String)
      → AreAllowed s
      → AreAllowed (uploaded page s app.resume_path css)
  uploaded-AreAllowed s none h = h
  uploaded-AreAllowed s (some css) h =
      append-IsAllowed false s.acts (upload css app.resume_path ∷ []) h (refl, tt)

  -- Whatever the model replies and the page has, a selector gets only one of the applicant's values and
  -- the file input only the tailored résumé; typing comes only directly behind a click, and a click goes
  -- only to the position of a field that the page showed, that is neither a file input nor a select and
  -- that had no value. Such a field may be an input of type submit without a value.
  pub fill_page-IsAllowed :
      (backend : Option (String → Option String)) (selectors : Selectors)
      → IsAllowed false (fill_page page g backend app selectors).acts
  unfolding fill_page
  fill_page-IsAllowed backend selectors = uploaded-AreAllowed _ _ (
      fill_rest-AreAllowed backend _ (
        fill_known-AreAllowed selectors (text_map app)
          (record { acts = []; filled = []; typed = [] }) (is_value-own (text_map app)) tt))
