-- ===== src/Dashboard/Tailoring/Served.antt =====
-- Which files the PDF routes serve.
use job_aggregator.Prelude.{
  ℕ, ◌<◌, Bool, true, some, List, [], ◌∷◌, ◌++◌, ◌≡◌, refl, ◌∙◌, ap, All, any, arith, length,
}
use mathlib.Core.List.{append_assoc}
use job_aggregator.Errors.{ok}
use job_aggregator.Pipeline.Dedup.{Word, codes, is_alnum, word_eq}
use job_aggregator.Paths.{name_prefix, resume_name, slug}
use job_aggregator.Paths.Names.{IsSlug, IsSlugChar, slug-IsSlug}
use job_aggregator.Dashboard.Tailoring.{
  is_dated_pdf, is_resume_name, resume_file, skip_slug, slug_part, starts_slug,
}

skip_slug-append : (s rest : Word) → All IsSlugChar s → skip_slug (s ++ 95 ∷ rest) ≡ 95 ∷ rest
unfolding skip_slug is_alnum
skip_slug-append [] rest h = refl
skip_slug-append (c ∷ s) rest h = rw (h.0) (skip_slug-append s rest (h.1))

starts_slug-append :
    (s rest : Word) → All IsSlugChar s → 0 < length s → starts_slug (s ++ rest) ≡ true
starts_slug-append [] rest h there = absurd (omega arith)
starts_slug-append (c ∷ s) rest h there = h.0

slug_part-append : (s rest : Word) → IsSlug s → slug_part (s ++ 95 ∷ rest) ≡ some rest
unfolding slug_part
slug_part-append s rest h =
    rw (starts_slug-append s (95 ∷ rest) (h.allowed) (h.there), skip_slug-append s rest (h.allowed))
      refl

module _ (is_digit : ℕ → Bool) where
  -- Four, two and two digits with dashes between them.
  pub data IsDate : Word → Type 0 where
    date :
        (a b c d f g i j : ℕ)
        → is_digit a ≡ true
        → is_digit b ≡ true
        → is_digit c ≡ true
        → is_digit d ≡ true
        → is_digit f ≡ true
        → is_digit g ≡ true
        → is_digit i ≡ true
        → is_digit j ≡ true
        → IsDate (a ∷ b ∷ c ∷ d ∷ 45 ∷ f ∷ g ∷ 45 ∷ i ∷ j ∷ [])

  is_dated_pdf-date :
      (stamp : Word) → IsDate stamp → is_dated_pdf is_digit (stamp ++ codes ".pdf") ≡ true
  unfolding is_dated_pdf
  is_dated_pdf-date stamp (date a b c d f g i j ha hb hc hd hf hg hi hj) =
      rw (ha, hb, hc, hd, hf, hg, hi, hj) refl

  is_resume_name-parts :
      (w w₁ w₂ : Word)
      → slug_part w ≡ some w₁
      → slug_part w₁ ≡ some w₂
      → is_resume_name is_digit w ≡ is_dated_pdf is_digit w₂
  unfolding is_resume_name
  is_resume_name-parts w w₁ w₂ one two = rw (one, two, is_resume_name) refl

  -- The name of a tailored résumé is served under that name, once the file is there: whatever the
  -- company and the title, it has the shape that the route asks for.
  pub resume_file-resume_name :
      (lower : Word → Word) (company title stamp : Word) (files : List Word)
      → IsDate stamp
      → any (word_eq (resume_name lower company title stamp)) files ≡ true
      → resume_file is_digit files (resume_name lower company title stamp)
        ≡ ok (resume_name lower company title stamp)
  unfolding resume_file
  resume_file-resume_name lower company title stamp files dated there =
      let first = slug lower company in
      let second = slug lower title in
      let rest = stamp ++ codes ".pdf" in
      let shape : resume_name lower company title stamp ≡ first ++ 95 ∷ (second ++ 95 ∷ rest) =
        unfold resume_name name_prefix in
        append_assoc first (95 ∷ (second ++ 95 ∷ [])) rest
        ∙ ap (λ w. first ++ 95 ∷ w) (append_assoc second (95 ∷ []) rest) in
      let one = slug_part-append first (second ++ 95 ∷ rest) (slug-IsSlug lower company) in
      let two = slug_part-append second rest (slug-IsSlug lower title) in
      let known : is_resume_name is_digit (resume_name lower company title stamp) ≡ true =
        ap (is_resume_name is_digit) shape
        ∙ is_resume_name-parts _ _ rest one two
        ∙ is_dated_pdf-date stamp dated in
      rw (known, there) refl
