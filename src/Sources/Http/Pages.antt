-- ===== src/Sources/Http/Pages.antt =====
-- What a page walk read, and when it may say that it read all.
use job_aggregator.Prelude.{
  ◌≢◌, ℕ, zero, suc, ◌+◌, ◌≤◌, String, Bool, true, false, ◌⊎◌, inl, inr, ◌↔◌, List, [], ◌∷◌, ◌++◌,
  ◌≡◌, refl, sym, ◌∙◌, ap, arith, length,
}
use mathlib.Core.List.{append-nil, append_assoc}
use job_aggregator.Sources.Http.{Outcome, value, source_error, Outcome-cases, read_pages}

abbrev pub concat {ℓ} : {A : Type ℓ} → List (List A) → List A
concat [] = []
concat (b ∷ bs) = b ++ concat bs

module _ {A : Type 0} (fetch_page : ℕ → Outcome (List A × Bool)) where
  -- The pages from `offset` on are these, in order. The walk is done exactly when the last of
  -- them is the API's last page, and no page before it is.
  abbrev pub Reads : ℕ → List (List A) → Bool → Type 0
  Reads offset [] done = done ≡ false
  Reads offset (b ∷ bs) done =
      ((fetch_page offset ≡ value (b, true)) × (bs ≡ []) × (done ≡ true))
      ⊎ ((fetch_page offset ≡ value (b, false)) × Reads (offset + 1) bs done)

  -- A walk that returns has read pages in order from `offset` on, at most one in each round.
  pub read_pages-Reads :
      (left offset : ℕ) (items out : List A) (done : Bool)
      → read_pages fetch_page left offset items ≡ value (out, done)
      → (bs : List (List A)) × Reads offset bs done
        × (out ≡ items ++ concat bs)
        × (length bs ≤ left)
  unfolding read_pages
  read_pages-Reads zero offset items out done h =
      let same : (items ≡ out) × (false ≡ done) = ground arith in
      ([], sym same.1, sym same.0 ∙ sym (append-nil items), omega arith)
  read_pages-Reads (suc left) offset items out done h = elim (Outcome-cases (fetch_page offset)) [
    | inr (inr (e, x)) ↦ absurd (ground arith)
    | inr (inl (e, x)) ↦
        let same : (items ≡ out) × (done ≡ false) = ground arith in
        ([], same.1, sym same.0 ∙ sym (append-nil items), omega arith)
    | inl ((b, true), x) ↦
        let same : (items ++ b ≡ out) × (done ≡ true) = ground arith in
        (
          b ∷ [],
          inl (x, refl, same.1),
          sym same.0 ∙ ap (◌++◌ items) (sym (append-nil b)),
          omega arith,
        )
    | inl ((b, false), x) ↦
        let more : read_pages fetch_page left (offset + 1) (items ++ b) ≡ value (out, done) =
          ground arith in
        let (bs, reads, all, few) = read_pages-Reads left (offset + 1) (items ++ b) out done more in
        (b ∷ bs, inr (x, reads), all ∙ append_assoc items b (concat bs), omega arith)
  ]

  later-value :
      (left offset : ℕ) (items : List A) (e : String)
      → 1 ≤ offset
      → read_pages fetch_page left offset items ≢ source_error e
  unfolding read_pages
  later-value zero offset items e le h = cc
  later-value (suc left) offset items e le h = elim (Outcome-cases (fetch_page offset)) [
    | inl ((b, last), x) ↦
        ground (arith, later-value left (offset + 1) (items ++ b) e (omega arith))
    | inr other ↦ ground arith
  ]

  -- The walk raises a SourceError exactly when its first page does.
  pub read_pages-source_error :
      (left : ℕ) (e : String)
      → (read_pages fetch_page (suc left) 0 [] ≡ source_error e) ↔ (fetch_page 0 ≡ source_error e)
  unfolding read_pages
  read_pages-source_error left e = (
    λ h. elim (Outcome-cases (fetch_page 0)) [
      | inl ((b, true), x) ↦ absurd (ground arith)
      | inl ((b, false), x) ↦
          absurd (later-value left (0 + 1) ([] ++ b) e (omega arith) (ground arith))
      | inr (inl (e', x)) ↦ ground arith
      | inr (inr (e', x)) ↦ absurd (ground arith)
    ],
    λ h. ground arith,
  )
