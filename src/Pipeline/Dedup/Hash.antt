-- ===== src/Pipeline/Dedup/Hash.antt =====
-- The hashed text determines the three normal forms.
use job_aggregator.Prelude.{ℕ, String, Option, List, [], ◌∷◌, ◌++◌, ◌≡◌, ◌≢◌, ◌↔◌, refl, All, arith}
use job_aggregator.Pipeline.Dedup.{
  is_alnum, norm_company, norm_title, norm_location, hash_key, content_hash,
}
use job_aggregator.Pipeline.Dedup.Words.{IsPlain, IsWord, join-IsPlain, tokens-IsWord}
use job_aggregator.Pipeline.Dedup.Company.{All-company_words}

-- A text without the separator "|".
abbrev pub IsClean : List ℕ → Type 0
IsClean = All (λ (c : ℕ). c ≢ 124)

clean : (text : List ℕ) → All IsPlain text → IsClean text
unfolding is_alnum
clean [] h = tt
clean (c ∷ text) h = (λ e. ground (arith, h.0), clean text h.1)

cut :
    (a b x y : List ℕ) → IsClean a → IsClean b → a ++ (124 ∷ x) ≡ b ++ (124 ∷ y) → (a ≡ b) × (x ≡ y)
cut [] [] x y ha hb e = (refl, cc)
cut [] (d ∷ b) x y ha hb e = absurd (hb.0 (cc))
cut (c ∷ a) [] x y ha hb e = absurd (ha.0 (cc))
cut (c ∷ a) (d ∷ b) x y ha hb e = let (same, rest) = cut a b x y ha.1 hb.1 (cc) in (cc, rest)

module _ (ascii_fold : List ℕ → List ℕ) where
  norm_company-IsClean : (name : List ℕ) → IsClean (norm_company ascii_fold name)
  unfolding norm_company
  norm_company-IsClean name =
      clean _ (join-IsPlain _ (All-company_words IsWord _ (tokens-IsWord ascii_fold name)))

  norm_title-IsClean : (title : List ℕ) → IsClean (norm_title ascii_fold title)
  unfolding norm_title
  norm_title-IsClean title = clean _ (join-IsPlain _ (tokens-IsWord ascii_fold title))

  -- Two postings have one job_uid exactly when their companies, titles and locations have the
  -- same normal forms, where the digests of the two hashed texts do not collide.
  pub content_hash_iff :
      (sha256 : List ℕ → String) (c t c' t' : List ℕ) (l l' : Option (List ℕ))
      → (sha256 (hash_key ascii_fold c t l) ≡ sha256 (hash_key ascii_fold c' t' l')
          → hash_key ascii_fold c t l ≡ hash_key ascii_fold c' t' l')
      → (content_hash ascii_fold sha256 c t l ≡ content_hash ascii_fold sha256 c' t' l') ↔ (
          (norm_company ascii_fold c ≡ norm_company ascii_fold c')
          × (norm_title ascii_fold t ≡ norm_title ascii_fold t')
          × (norm_location ascii_fold l ≡ norm_location ascii_fold l'))
  unfolding content_hash hash_key
  content_hash_iff sha256 c t c' t' l l' collision_free = (
    λ e.
        let (company, rest) =
          cut (norm_company ascii_fold c) (norm_company ascii_fold c') _ _ (norm_company-IsClean c)
            (norm_company-IsClean c') (collision_free e) in
        let (title, location) =
          cut (norm_title ascii_fold t) (norm_title ascii_fold t') _ _ (norm_title-IsClean t)
            (norm_title-IsClean t') rest in
        (company, title, location),
    λ (company, title, location). rw (company, title, location),
  )
