-- ===== src/Dashboard/Render/Visible.antt =====
-- The text outside the hidden elements of a description, which the keyword reader keeps.
use Prim.Native.String.{◌++◌ as text_append}
use text.Mathlib.TextLemmas.{append-nil, append_assoc}
use job_aggregator.Prelude.{
  ◌||◌, if◌then◌else◌, eq_iff, ℕ, zero, suc, ◌+◌, ◌-◌, inl, inr, String, Bool, true, false, List,
  [], ◌∷◌, ◌==◌, ◌≡◌, refl, sym, ◌∙◌, ap, ap₂, arith, contains, eqb, Bool-cases,
}
use job_aggregator.Dashboard.Render.Texts.{prose_of, prose_of-append, prose_of-line_break}
use job_aggregator.Dashboard.Render.{
  Event, start_tag, start_end_tag, end_tag, text_data, Piece, Extractor, skip_tags, block_tags,
  extract, extract_all, extract_start, extract_end,
}

-- An element whose text nobody sees.
abbrev pub is_hidden : String → Bool
is_hidden tag = tag == "script" || (tag == "style" || tag == "noscript")

-- The text behind `depth` open hidden elements; an end without a start is passed over.
abbrev pub visible : ℕ → List Event → String
visible depth [] = ""
visible depth (start_tag tag attrs ∷ events) =
    if is_hidden tag then visible (depth + 1) events else visible depth events
visible depth (start_end_tag tag attrs ∷ events) = visible depth events
visible depth (end_tag tag ∷ events) =
    if is_hidden tag then visible (depth - 1) events else visible depth events
visible zero (text_data t ∷ events) = text_append t (visible zero events)
visible (suc depth) (text_data t ∷ events) = visible (suc depth) events

contains-skip_tags : (tag : String) → contains skip_tags tag ≡ is_hidden tag
unfolding contains
contains-skip_tags tag = ground (
  arith,
  eq_iff tag "script",
  eq_iff tag "style",
  eq_iff tag "noscript",
  eq_iff "script" tag,
  eq_iff "style" tag,
  eq_iff "noscript" tag,
)

extract_start-kept :
    (tag : String) (x : Extractor)
    → (prose_of (extract_start tag x).parts ≡ prose_of x.parts)
      × ((extract_start tag x).skip ≡ (if is_hidden tag then x.skip + 1 else x.skip))
unfolding extract_start
extract_start-kept tag x = elim (Bool-cases (is_hidden tag)) [
  | inl e ↦ let k = contains-skip_tags tag ∙ e in rw (k, e, extract_start) (refl, refl)
  | inr e ↦
      let k = contains-skip_tags tag ∙ e in
      elim (Bool-cases (tag == "br")) [
        | inl b ↦ rw (k, e, b, extract_start) (prose_of-line_break x.parts, refl)
        | inr b ↦ rw (k, e, b, extract_start) (refl, refl)
      ]
]

extract_end-kept :
    (tag : String) (x : Extractor)
    → (prose_of (extract_end tag x).parts ≡ prose_of x.parts)
      × ((extract_end tag x).skip ≡ (if is_hidden tag then x.skip - 1 else x.skip))
unfolding extract_end
extract_end-kept tag x = elim (Bool-cases (is_hidden tag)) [
  | inl e ↦ let k = contains-skip_tags tag ∙ e in rw (k, e, extract_end) (refl, refl)
  | inr e ↦
      let k = contains-skip_tags tag ∙ e in
      elim (Bool-cases (contains block_tags tag)) [
        | inl b ↦ rw (k, e, b, extract_end) (prose_of-line_break x.parts, refl)
        | inr b ↦ rw (k, e, b, extract_end) (refl, refl)
      ]
]

extract_both_kept :
    (tag : String) (x : Extractor) → (extract_end tag (extract_start tag x)).skip ≡ x.skip
extract_both_kept tag x = elim (Bool-cases (is_hidden tag)) [
  | inl e ↦ omega (
    arith,
    (extract_end-kept tag (extract_start tag x)).1
        ∙ ap (λ b. if b then (extract_start tag x).skip - 1 else (extract_start tag x).skip) e,
    (extract_start-kept tag x).1 ∙ ap (λ b. if b then x.skip + 1 else x.skip) e,
  )
  | inr e ↦
      (extract_end-kept tag (extract_start tag x)).1
      ∙ ap (λ b. if b then (extract_start tag x).skip - 1 else (extract_start tag x).skip) e
      ∙ (extract_start-kept tag x).1
      ∙ ap (λ b. if b then x.skip + 1 else x.skip) e
]

visible_if :
    (b : Bool) (m n k : ℕ) (events : List Event)
    → k ≡ (if b then m else n)
    → visible k events ≡ (if b then visible m events else visible n events)
visible_if true m n k events h = ap (λ d. visible d events) h
visible_if false m n k events h = ap (λ d. visible d events) h

text-visible :
    (t : String) (events : List Event) (parts : List Piece) (skip : ℕ)
    → text_append
        (prose_of (extract (text_data t) (record { parts = parts; skip = skip })).parts)
        (visible (extract (text_data t) (record { parts = parts; skip = skip })).skip events)
      ≡ text_append (prose_of parts) (visible skip (text_data t ∷ events))
unfolding extract
text-visible t events parts zero =
    ap (λ s. text_append s (visible 0 events)) (prose_of-append parts t)
    ∙ append_assoc (prose_of parts) t (visible 0 events)
text-visible t events parts (suc skip) =
    let hidden : eqb (suc skip) 0 ≡ false = ground arith in rw (hidden, extract) refl

event-visible :
    (e : Event) (events : List Event) (x : Extractor)
    → text_append (prose_of (extract e x).parts) (visible (extract e x).skip events)
      ≡ text_append (prose_of x.parts) (visible x.skip (e ∷ events))
unfolding extract
event-visible (start_tag tag attrs) events x =
    ap₂ text_append (extract_start-kept tag x).0
      (visible_if (is_hidden tag) (x.skip + 1) x.skip _ events (extract_start-kept tag x).1)
event-visible (end_tag tag) events x =
    ap₂ text_append (extract_end-kept tag x).0
      (visible_if (is_hidden tag) (x.skip - 1) x.skip _ events (extract_end-kept tag x).1)
event-visible (start_end_tag tag attrs) events x =
    ap₂ text_append ((extract_end-kept tag (extract_start tag x)).0 ∙ (extract_start-kept tag x).0)
      (ap (λ d. visible d events) (extract_both_kept tag x))
event-visible (text_data t) events x = text-visible t events x.parts x.skip

pub extract_all-visible :
    (events : List Event) (x : Extractor)
    → prose_of (extract_all events x).parts ≡ text_append (prose_of x.parts) (visible x.skip events)
unfolding extract_all
extract_all-visible [] x = sym (append-nil (prose_of x.parts))
extract_all-visible (e ∷ events) x =
    extract_all-visible events (extract e x) ∙ event-visible e events x
