-- ===== src/Pipeline/Dedup/Company.antt =====
-- Company names: which parts of a name do not count.
use job_aggregator.Prelude.{
  ℕ, true, List, [], ◌∷◌, ◌++◌, reverse, reverse-append, ◌≡◌, ◌≢◌, refl, ap, sym, ◌∙◌, All,
  Bool-cases, inl, inr,
}
use mathlib.Core.List.{reverse-reverse}
use job_aggregator.Pipeline.Dedup.{
  Word, is_suffix, pop_suffixes, or_all, company_words, join, tokens, norm_company,
}

-- A word that is not a legal-entity suffix.
abbrev pub Names : List Word → Type 0
Names words = pop_suffixes (reverse words) ≢ []

reverse-ne-nil : (words : List Word) → words ≢ [] → reverse words ≢ []
reverse-ne-nil words h e = h (sym (reverse-reverse words) ∙ ap reverse e)

or_all-some : (words toks : List Word) → words ≢ [] → or_all words toks ≡ words
or_all-some [] toks h = absurd (h refl)
or_all-some (w ∷ words) toks h = refl

-- A legal-entity suffix at the end of a name that has another word does not change its words:
-- "Acme Pvt Ltd" has the words of "Acme".
pub company_words-suffix :
    (toks : List Word) (w : Word)
    → is_suffix w ≡ true
    → Names toks
    → company_words (toks ++ w ∷ []) ≡ company_words toks
unfolding company_words pop_suffixes
company_words-suffix toks w h named =
    rw (reverse-append toks (w ∷ []), h)
      (or_all-some _ _ (reverse-ne-nil _ named) ∙ sym (or_all-some _ _ (reverse-ne-nil _ named)))

nil_of_or_all : (words toks : List Word) → or_all words toks ≡ [] → toks ≡ []
nil_of_or_all [] toks h = h
nil_of_or_all (w ∷ words) toks h = cc

-- The words of a company are empty only when the name has no word: a name of suffixes alone
-- keeps them all.
pub company_words-nil : (toks : List Word) → company_words toks ≡ [] → toks ≡ []
unfolding company_words
company_words-nil toks h = nil_of_or_all _ toks h

module _ (P : Word → Type 0) where
  pub All-append : (xs ys : List Word) → All P xs → All P ys → All P (xs ++ ys)
  All-append [] ys h k = k
  All-append (x ∷ xs) ys h k = (h.0, All-append xs ys h.1 k)

  pub All-reverse : (xs : List Word) → All P xs → All P (reverse xs)
  All-reverse [] h = tt
  All-reverse (x ∷ xs) h =
      rw (reverse-append (x ∷ []) xs) (All-append (reverse xs) _ (All-reverse xs h.1) (h.0, tt))

  All-pop_suffixes : (xs : List Word) → All P xs → All P (pop_suffixes xs)
  unfolding pop_suffixes
  All-pop_suffixes [] h = tt
  All-pop_suffixes (x ∷ xs) h = elim (Bool-cases (is_suffix x)) [
    | inl e ↦ rw e (All-pop_suffixes xs h.1)
    | inr e ↦ rw e h
  ]

  All-or_all : (xs ys : List Word) → All P xs → All P ys → All P (or_all xs ys)
  All-or_all [] ys h k = k
  All-or_all (x ∷ xs) ys h k = h

-- What holds of all words of the name holds of all words that are kept.
pub All-company_words :
    (P : Word → Type 0) (toks : List Word) → All P toks → All P (company_words toks)
unfolding company_words
All-company_words P toks h =
    All-or_all P _ toks (All-reverse P _ (All-pop_suffixes P _ (All-reverse P toks h))) h

-- A suffix behind the name of a company with another word does not change its normal form, so
-- neither the job_uid.
pub norm_company-suffix :
    (ascii_fold : List ℕ → List ℕ) (name longer : List ℕ) (w : Word)
    → tokens ascii_fold longer ≡ tokens ascii_fold name ++ w ∷ []
    → is_suffix w ≡ true
    → Names (tokens ascii_fold name)
    → norm_company ascii_fold longer ≡ norm_company ascii_fold name
unfolding norm_company
norm_company-suffix ascii_fold name longer w split_off h named =
    rw split_off (ap join (company_words-suffix (tokens ascii_fold name) w h named))
