-- ===== src/Resume/Tailor/Kept.antt =====
-- The share of the numbers that a tailored résumé keeps.
use job_aggregator.Prelude.{
  ◌≤◌, ◌<◌, Bool, true, false, ◌||◌, ◌↔◌, inl, inr, List, [], ◌∷◌, ◌≡◌, refl, sym, ◌∙◌, ap₂, String,
  arith, count, length, Bool-cases,
}
use mathlib.Core.Path.{subst}
use job_aggregator.Pipeline.Dedup.{Word, word_eq}
use job_aggregator.Pipeline.Signals.{concat_map, is_nil}
use job_aggregator.Resume.Guard.{has_number}
use job_aggregator.Resume.Tailor.{distinct, preservation}
use job_aggregator.Resume.Words.{Reader, numbers}

word_eq_refl : (w : Word) → word_eq w w ≡ true
word_eq_refl [] = refl
word_eq_refl (c ∷ w) = ground (arith, word_eq_refl w)

of_word_eq : (v w : Word) → word_eq v w ≡ true → v ≡ w
of_word_eq [] [] h = refl
of_word_eq [] (d ∷ w) h = absurd (cc)
of_word_eq (c ∷ v) [] h = absurd (cc)
of_word_eq (c ∷ v) (d ∷ w) h = ap₂ ◌∷◌ (ground arith) (of_word_eq v w (ground arith))

-- Every number of the first list is one of the second.
abbrev pub Includes : List Word → List Word → Type 0
Includes out src = (n : Word) → has_number src n ≡ true → has_number out n ≡ true

-- A number that the set has already adds nothing to it.
known_number :
    (m : Word) (ns : List Word) (n : Word)
    → has_number ns m ≡ true
    → has_number ns n ≡ (word_eq n m || has_number ns n)
known_number m ns n h = elim (Bool-cases (word_eq n m)) [
  | inr e ↦ rw e refl
  | inl e ↦ rw e (subst (λ (k : Word). has_number ns k ≡ true) (sym (of_word_eq n m e)) h)
]

has_number-distinct : (ns : List Word) (n : Word) → has_number (distinct ns) n ≡ has_number ns n
unfolding distinct
has_number-distinct [] n = refl
has_number-distinct (m ∷ ns) n = elim (Bool-cases (has_number (distinct ns) m)) [
  | inr e ↦ rw (e, has_number-distinct ns n) refl
  | inl e ↦
      rw e (has_number-distinct ns n ∙ known_number m ns n (sym (has_number-distinct ns m) ∙ e))
]

count_le : (p : Word → Bool) (ns : List Word) → count p ns ≤ length ns
count_le p [] = omega arith
count_le p (n ∷ ns) = ground (arith, count_le p ns)

all_of_count : (out ns : List Word) → count (has_number out) ns ≡ length ns → Includes out ns
all_of_count out [] h n stored = absurd (cc)
all_of_count out (m ∷ ns) h n stored =
    let rest = count_le (has_number out) ns in
    elim (Bool-cases (word_eq n m)) [
      | inl e ↦
          subst (λ (k : Word). has_number out k ≡ true) (sym (of_word_eq n m e)) (ground arith)
      | inr e ↦ all_of_count out ns (ground arith) n (ground arith)
    ]

count_of_all : (out ns : List Word) → Includes out ns → count (has_number out) ns ≡ length ns
count_of_all out [] h = refl
count_of_all out (m ∷ ns) h =
    let first = h m (let self = word_eq_refl m in ground arith) in
    let rest = count_of_all out ns (λ n stored. h n (ground arith)) in ground arith

no_number : (s : List Word) (n : Word) → is_nil s ≡ true → has_number s n ≡ true → ⊥
no_number [] n h stored = cc
no_number (m ∷ s) n h stored = cc

length_positive : (s : List Word) → is_nil s ≡ false → 0 < length s
length_positive [] h = absurd (cc)
length_positive (m ∷ s) h = omega arith

module _ (reader : Reader) where
  -- The share lies between 0 and 1, of at least one fact, and it is 1 exactly when every number of the original
  -- bullets stands in a tailored one.
  pub preservation-IsShare :
      (original tailored : List String)
      → let s = preservation reader original tailored in
        (s.kept ≤ s.facts)
        × (0 < s.facts)
        × ((s.kept ≡ s.facts)
            ↔ Includes
                (concat_map (numbers reader) tailored)
                (concat_map (numbers reader) original))
  unfolding preservation
  preservation-IsShare original tailored =
      let src = concat_map (numbers reader) original in
      let out = concat_map (numbers reader) tailored in
      elim (Bool-cases (is_nil (distinct src))) [
        | inl e ↦
            rw (e, preservation)
              (
                omega arith,
                omega arith,
                (
                  λ _ n stored.
                      absurd (no_number (distinct src) n e (has_number-distinct src n ∙ stored)),
                  λ _. refl,
                ),
              )
        | inr e ↦
            rw (e, preservation)
              (
                count_le (has_number out) (distinct src),
                length_positive (distinct src) e,
                (
                  λ same n stored.
                      all_of_count out (distinct src) same n (has_number-distinct src n ∙ stored),
                  λ h.
                      count_of_all out (distinct src)
                        (λ n stored. h n (sym (has_number-distinct src n) ∙ stored)),
                ),
              )
      ]
