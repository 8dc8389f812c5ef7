-- ===== src/Resume/Latex/Escape.antt =====
-- What escaping does to a text.
use Prim.Native.String.{◌++◌ as text_append}
use Prim.Native.Char.{Char, code}
use text.Mathlib.TextLemmas.{append-nil, append_assoc, cons-append, nil-append}
use job_aggregator.Prelude.{
  ap₂, ℕ, String, Bool, false, ◌||◌, List, [], ◌∷◌, ◌≡◌, refl, ap, ap₂, ◌∙◌, sym, arith, eqb,
  if◌then◌else◌, Bool-cases, inl, inr,
}
use job_aggregator.Resume.Latex.{esc, latex_replacements, replace, replace_all}

abbrev pub has_char : ℕ → String → Bool
has_char k String.[] = false
has_char k (String.◌∷◌ c t) = eqb (code c) k || has_char k t

-- What a table makes of one character, and of each character of a text by itself.
abbrev pub spelled_char : List (ℕ × String) → Char → String
spelled_char [] c = String.◌∷◌ c ""
spelled_char ((k, repl) ∷ more) c = if eqb (code c) k then repl else spelled_char more c

abbrev pub spelled : String → String
spelled String.[] = ""
spelled (String.◌∷◌ c t) = text_append (spelled_char latex_replacements c) (spelled t)

-- No replacement of the table is changed by those after it.
abbrev IsStable : List (ℕ × String) → Type 0
IsStable [] = Unit
IsStable ((k, repl) ∷ more) = (replace_all more repl ≡ repl) × IsStable more

replace-append :
    (k : ℕ) (repl s t : String)
    → replace k repl (text_append s t) ≡ text_append (replace k repl s) (replace k repl t)
unfolding replace
replace-append k repl String.[] t =
    ap (replace k repl) (nil-append t) ∙ sym (nil-append (replace k repl t))
replace-append k repl (String.◌∷◌ c s) t =
    ap (replace k repl) (cons-append c s t) ∙ elim (Bool-cases (eqb (code c) k)) [
      | inl e ↦ rw e (
          ap (text_append repl) (replace-append k repl s t)
          ∙ sym (append_assoc repl (replace k repl s) (replace k repl t)))
      | inr e ↦ rw e (
          ap (String.◌∷◌ c) (replace-append k repl s t)
          ∙ sym (cons-append c (replace k repl s) (replace k repl t)))
    ]

replace_all-append :
    (table : List (ℕ × String)) (s t : String)
    → replace_all table (text_append s t) ≡ text_append (replace_all table s) (replace_all table t)
unfolding replace_all
replace_all-append [] s t = refl
replace_all-append ((k, repl) ∷ more) s t =
    ap (replace_all more) (replace-append k repl s t)
    ∙ replace_all-append more (replace k repl s) (replace k repl t)

replace_all-char :
    (table : List (ℕ × String)) (c : Char)
    → IsStable table
    → replace_all table (String.◌∷◌ c "") ≡ spelled_char table c
unfolding replace_all replace
replace_all-char [] c h = refl
replace_all-char ((k, repl) ∷ more) c h = elim (Bool-cases (eqb (code c) k)) [
  | inl e ↦ rw e (ap (replace_all more) (append-nil repl) ∙ h.0)
  | inr e ↦ rw e (replace_all-char more c (h.1))
]

replace_all-nil : (table : List (ℕ × String)) → replace_all table "" ≡ ""
unfolding replace_all replace
replace_all-nil [] = refl
replace_all-nil ((k, repl) ∷ more) = replace_all-nil more

replace-absent : (k : ℕ) (repl t : String) → has_char k t ≡ false → replace k repl t ≡ t
unfolding replace
replace-absent k repl String.[] h = refl
replace-absent k repl (String.◌∷◌ c t) h =
    let first : eqb (code c) k ≡ false = ground (arith, h) in
    let rest : has_char k t ≡ false = ground (arith, h) in
    rw first (ap (String.◌∷◌ c) (replace-absent k repl t rest))

-- The table without the backslash.
abbrev later : List (ℕ × String)
later = elim latex_replacements [ [] ↦ [] | entry ∷ more ↦ more ]

later-IsStable : IsStable later
unfolding replace_all replace
later-IsStable = (refl, (refl, (refl, (refl, (refl, (refl, (refl, (refl, (refl, tt)))))))))

later-spelled : (t : String) → has_char 92 t ≡ false → replace_all later t ≡ spelled t
later-spelled String.[] h = replace_all-nil later
later-spelled (String.◌∷◌ c t) h =
    let first : eqb (code c) 92 ≡ false = ground (arith, h) in
    let rest : has_char 92 t ≡ false = ground (arith, h) in
    ap (replace_all later) (ap (String.◌∷◌ c) (sym (nil-append t)) ∙ sym (cons-append c "" t))
    ∙ replace_all-append later (String.◌∷◌ c "") t
    ∙ ap₂ text_append (replace_all-char later c later-IsStable) (later-spelled t rest)
    ∙ rw first refl

-- The replacements are made one after the other, yet a text without a backslash comes out as if
-- each of its characters had been escaped by itself: no replacement touches the result of another.
pub esc-eq-spelled : (t : String) → has_char 92 t ≡ false → esc t ≡ spelled t
unfolding esc replace_all
esc-eq-spelled t h =
    ap (replace_all later) (replace-absent 92 "\\textbackslash{}" t h) ∙ later-spelled t h
