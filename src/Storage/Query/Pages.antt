-- ===== src/Storage/Query/Pages.antt =====
-- Pagination of get_jobs.
use job_aggregator.Prelude.{
  ℕ, zero, suc, ◌+◌, ◌-◌, ◌*◌, ◌≤◌, min, max, String, Bool, true, List, [], ◌∷◌, ◌++◌, ◌≡◌, refl,
  ap, sym, ◌∙◌, filter, count, length, take, drop, arith, length-take, length-filter,
}
use job_aggregator.Models.Amount.{ℤ, pos, negsuc}
use job_aggregator.Storage.{Row}
use job_aggregator.Storage.Query.{
  Filters, SortKey, matches, get_jobs, count_jobs, sort_key, clamp_limit, clamp_offset,
}

-- ORDER BY returns the selected rows, each as often as it was selected.
abbrev pub Reorders : (SortKey → List Row → List Row) → Type 0
Reorders order =
    (key : SortKey) (p : Row → Bool) (rows : List Row) → count p (order key rows) ≡ count p rows

module _ {ℓ} {A : Type ℓ} where
  pub count-true : (xs : List A) → count (λ x. true) xs ≡ length xs
  count-true [] = refl
  count-true (x ∷ xs) = omega (arith, count-true xs)

  length-drop : (n : ℕ) (xs : List A) → length (drop n xs) ≡ length xs - n
  length-drop zero xs = omega arith
  length-drop (suc n) [] = omega arith
  length-drop (suc n) (x ∷ xs) = omega (arith, length-drop n xs)

  pub take-nil : (n : ℕ) → ◌≡◌ {A = List A} (take n []) []
  take-nil zero = refl
  take-nil (suc n) = refl

  pub take-add : (m n : ℕ) (xs : List A) → take m xs ++ take n (drop m xs) ≡ take (m + n) xs
  take-add zero n xs = ap (λ k. take k xs) (omega arith)
  take-add (suc m) n [] = let e : suc m + n ≡ suc (m + n) = omega arith in rw e (take-nil n)
  take-add (suc m) n (x ∷ xs) =
      let e : suc m + n ≡ suc (m + n) = omega arith in rw e (ap (◌∷◌ x) (take-add m n xs))

  pub take_all : (n : ℕ) (xs : List A) → length xs ≤ n → take n xs ≡ xs
  take_all zero [] h = refl
  take_all zero (x ∷ xs) h = absurd (omega arith)
  take_all (suc n) [] h = refl
  take_all (suc n) (x ∷ xs) h = ap (◌∷◌ x) (take_all n xs (omega arith))

clamp_limit_bounds : (limit : ℤ) → (1 ≤ clamp_limit limit) × (clamp_limit limit ≤ 200)
unfolding clamp_limit
clamp_limit_bounds (pos n) = omega arith
clamp_limit_bounds (negsuc n) = omega arith

module _ (like : String → String → Bool) (order : SortKey → List Row → List Row)
    (reorders : Reorders order) (rows : List Row) (f : Filters) (sort : String) where
  length-selected :
      length (order (sort_key sort) (filter (matches like f) rows)) ≡ count_jobs like rows f
  unfolding count_jobs
  length-selected =
      sym (count-true _)
      ∙ reorders (sort_key sort) (λ r. true) _
      ∙ count-true _
      ∙ length-filter _ rows

  -- A page holds the rows that are left behind the offset, up to the limit, which lies between 1
  -- and 200 whatever was asked for.
  pub length-get_jobs :
      (limit offset : ℤ)
      → (length (get_jobs like order rows f sort limit offset)
          ≡ min (clamp_limit limit) (count_jobs like rows f - clamp_offset offset))
        × ((1 ≤ clamp_limit limit) × (clamp_limit limit ≤ 200))
  unfolding get_jobs
  length-get_jobs limit offset =
      let l = order (sort_key sort) (filter (matches like f) rows) in
      (
        omega (
          arith,
          length-take (clamp_limit limit) (drop (clamp_offset offset) l),
          length-drop (clamp_offset offset) l,
          length-selected,
        ),
        clamp_limit_bounds limit,
      )

  -- The pages of a walk that asks for `size` rows at a time.
  abbrev pub pages : ℕ → ℕ → List Row
  pages size zero = []
  pages size (suc k) = pages size k ++ get_jobs like order rows f sort (pos size) (pos (k * size))

  pages-eq-take :
      (size k : ℕ)
      → 1 ≤ size
      → size ≤ 200
      → pages size k ≡ take (k * size) (order (sort_key sort) (filter (matches like f) rows))
  unfolding get_jobs clamp_limit clamp_offset
  pages-eq-take size zero lo hi = let e : 0 * size ≡ 0 = omega arith in rw e
  pages-eq-take size (suc k) lo hi =
      let l = order (sort_key sort) (filter (matches like f) rows) in
      let e : max 1 (min size 200) ≡ size = omega arith in
      rw e (
        ap (λ (front : List Row). front ++ take size (drop (k * size) l))
          (pages-eq-take size k lo hi)
        ∙ take-add (k * size) size l
        ∙ (let more : k * size + size ≡ suc k * size = omega arith in ap (λ n. take n l) more))

  -- A walk over enough pages shows every matching row, each exactly as often as it is stored, and
  -- no other row.
  pub count-pages :
      (size k : ℕ) (p : Row → Bool)
      → 1 ≤ size
      → size ≤ 200
      → count_jobs like rows f ≤ k * size
      → count p (pages size k) ≡ count p (filter (matches like f) rows)
  count-pages size k p lo hi enough =
      ap (count p)
        (pages-eq-take size k lo hi ∙ take_all (k * size) _ (omega (arith, length-selected)))
      ∙ reorders (sort_key sort) p _
