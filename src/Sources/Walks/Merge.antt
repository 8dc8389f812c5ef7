-- ===== src/Sources/Walks/Merge.antt =====
-- What a fetch of several searches has, and when it may call itself exhaustive.
use job_aggregator.Prelude.{
  inl, inr, ap, ◌∙◌, ℕ, ◌+◌, String, Bool, true, false, ◌&&◌, ◌||◌, List, [], ◌∷◌, ◌++◌, ◌==◌, ◌≡◌,
  ◌≢◌, refl, arith, any, count, contains, to_ℕ, eq_iff,
}
use job_aggregator.Sources.Http.{other_error, source_error, of_value, Outcome-cases, Outcome, value}
use Prim.Native.String.{◌++◌ as text_append}
use job_aggregator.Pipeline.Normalize.{UrlLib}
use job_aggregator.Prelude.{Option}
use job_aggregator.Sources.Base.{
  RawPosting, SourceResult, build_result, failed_result, succeeded_result,
}
use job_aggregator.Sources.Walks.{
  add_walk, nothing_found, add_walks, finish_walks, fetch_walks, Found, add_item, add_items,
}

-- The walk ended on the API's own last page.
abbrev pub is_done {ℓ} : {A : Type ℓ} → Outcome (List A × Bool) → Bool
is_done (value (items, done)) = done
is_done _ = false

abbrev pub is_value {ℓ} : {A : Type ℓ} → Outcome A → Bool
is_value (value a) = true
is_value _ = false

abbrev pub items_of {ℓ} : {A : Type ℓ} → Outcome (List A × Bool) → List A
items_of (value (items, done)) = items
items_of _ = []

module _ {A : Type 0} (key : A → String) where
  abbrev pub all_done : List (String × Outcome (List A × Bool)) → Bool
  all_done [] = true
  all_done ((label, walk) ∷ walks) = is_done walk && all_done walks

  abbrev pub n_walked : List (String × Outcome (List A × Bool)) → ℕ
  n_walked = count (λ (w : String × Outcome (List A × Bool)). is_value w.1)

  -- Some walk gave an item with this key.
  abbrev pub gave : String → List (String × Outcome (List A × Bool)) → Bool
  gave k = any (λ (w : String × Outcome (List A × Bool)). any (λ x. key x == k) (items_of w.1))

  add_items-exhausted :
      (items : List A) (f : Found A)
      → ((add_items key f items).exhausted ≡ f.exhausted) × ((add_items key f items).ok ≡ f.ok)
  unfolding add_items add_item
  add_items-exhausted [] f = (refl, refl)
  add_items-exhausted (x ∷ items) f = ground (arith, add_items-exhausted items (add_item key f x))

  -- The keys seen are those of the items, and no key stands twice.
  record IsMerged (k : String) (f : Found A) : Type 0 where
    kept : count (λ x. key x == k) f.items ≡ to_ℕ (contains f.seen k)

  count-append : (p : A → Bool) (xs ys : List A) → count p (xs ++ ys) ≡ count p xs + count p ys
  count-append p [] ys = omega arith
  count-append p (x ∷ xs) ys = omega (arith, count-append p xs ys)

  add_item-seen :
      (k : String) (f : Found A) (x : A)
      → k ≢ ""
      → contains (add_item key f x).seen k ≡ (contains f.seen k || key x == k)
  unfolding add_item contains
  add_item-seen k f x h = ground (arith, eq_iff (key x) k, eq_iff (key x) "")

  add_item-IsMerged :
      (k : String) (f : Found A) (x : A) → k ≢ "" → IsMerged k f → IsMerged k (add_item key f x)
  unfolding add_item contains
  add_item-IsMerged k f x h m =
      ground (
        arith,
        count-append (λ y. key y == k) f.items (x ∷ []),
        eq_iff (key x) k,
        eq_iff (key x) "",
      )

  add_items-IsMerged :
      (k : String) (items : List A) (f : Found A)
      → k ≢ ""
      → IsMerged k f
      → IsMerged k (add_items key f items)
        × (contains (add_items key f items).seen k
            ≡ (contains f.seen k || any (λ x. key x == k) items))
  unfolding add_items
  add_items-IsMerged k [] f h m = (m, ground arith)
  add_items-IsMerged k (x ∷ items) f h m =
      let (m', seen) =
        add_items-IsMerged k items (add_item key f x) h (add_item-IsMerged k f x h m) in
      (m', ground (arith, seen, add_item-seen k f x h))

  add_walks-exhausted :
      (walks : List (String × Outcome (List A × Bool))) (f g : Found A)
      → add_walks key f walks ≡ value g
      → (g.exhausted ≡ (f.exhausted && all_done walks)) × (g.ok ≡ f.ok + n_walked walks)
  unfolding add_walks add_walk
  add_walks-exhausted [] f g h = let same : f ≡ g = of_value h in rw (← same) (ground arith)
  add_walks-exhausted ((label, value (items, done)) ∷ walks) f g h =
      let f' : Found A = record f { ok = f.ok + 1; exhausted = f.exhausted && done } in
      ground (
        arith,
        add_walks-exhausted walks (add_items key f' items) g h,
        add_items-exhausted items f',
      )
  add_walks-exhausted ((label, source_error e) ∷ walks) f g h = ground (
    arith,
    add_walks-exhausted walks
        (record f {
          errors = f.errors ++ text_append label (text_append ": " e) ∷ [];
          exhausted = false;
        })
        g h,
  )
  add_walks-exhausted ((label, other_error e) ∷ walks) f g h = absurd (ground arith)

  add_walks-IsMerged :
      (k : String) (walks : List (String × Outcome (List A × Bool))) (f g : Found A)
      → k ≢ ""
      → IsMerged k f
      → add_walks key f walks ≡ value g
      → IsMerged k g × (contains g.seen k ≡ (contains f.seen k || gave k walks))
  unfolding add_walks add_walk
  add_walks-IsMerged k [] f g h m e = let same : f ≡ g = of_value e in rw (← same) (m, ground arith)
  add_walks-IsMerged k ((label, value (items, done)) ∷ walks) f g h m e =
      let f' : Found A = record f { ok = f.ok + 1; exhausted = f.exhausted && done } in
      let (m', seen) = add_items-IsMerged k items f' h (record { kept = m.kept }) in
      let (m'', all) = add_walks-IsMerged k walks (add_items key f' items) g h m' e in
      (m'', ground (arith, all, seen))
  add_walks-IsMerged k ((label, source_error x) ∷ walks) f g h m e =
      let f' : Found A = record f {
        errors = f.errors ++ text_append label (text_append ": " x) ∷ [];
        exhausted = false;
      } in
      let (m', all) = add_walks-IsMerged k walks f' g h (record { kept = m.kept }) e in
      (m', ground (arith, all))
  add_walks-IsMerged k ((label, other_error x) ∷ walks) f g h m e = absurd (ground arith)

  -- The merged items hold exactly one item for each key that some search gave, and none for any
  -- other key.
  pub add_walks-distinct :
      (walks : List (String × Outcome (List A × Bool))) (found : Found A) (k : String)
      → add_walks key nothing_found walks ≡ value found
      → k ≢ ""
      → count (λ x. key x == k) found.items ≡ to_ℕ (gave k walks)
  unfolding contains
  add_walks-distinct walks found k e h =
      let (m, all) = add_walks-IsMerged k walks nothing_found found h (record { kept = refl }) e in
      m.kept ∙ ap to_ℕ all

  module _ (lib : UrlLib) (ascii_fold : List ℕ → List ℕ) (sha256 : List ℕ → String)
      (all_failed : List String → String) (source : String) (mapper : A → Option RawPosting)
      (duration_ms : ℕ) where
    build_result-exhaustive :
        (items : List A) (done : Bool)
        → (build_result lib ascii_fold sha256 source items mapper duration_ms done).succeeded ≡ true
        → (build_result lib ascii_fold sha256 source items mapper duration_ms done).exhaustive
          ≡ done
    unfolding build_result succeeded_result failed_result
    build_result-exhaustive [] done h = cc
    build_result-exhaustive (x ∷ items) done h = refl

    finish_walks-exhaustive :
        (f : Found A)
        → (finish_walks key lib ascii_fold sha256 all_failed source mapper duration_ms f).succeeded
          ≡ true
        → (finish_walks key lib ascii_fold sha256 all_failed source mapper duration_ms f).exhaustive
          ≡ f.exhausted
    unfolding finish_walks failed_result
    finish_walks-exhaustive f h = ground (arith, build_result-exhaustive f.items f.exhausted)

    -- A fetch that succeeded calls itself exhaustive exactly when each of its walks is done.
    pub fetch_walks-exhaustive :
        (walks : List (String × Outcome (List A × Bool))) (res : SourceResult)
        → fetch_walks key lib ascii_fold sha256 all_failed source mapper duration_ms walks
          ≡ value res
        → res.succeeded ≡ true
        → res.exhaustive ≡ all_done walks
    unfolding fetch_walks
    fetch_walks-exhaustive walks res h good =
        elim (Outcome-cases (add_walks key nothing_found walks)) [
          | inr (inl (e, x)) ↦ absurd (ground arith)
          | inr (inr (e, x)) ↦ absurd (ground arith)
          | inl (f, x) ↦
              let same : finish_walks key lib ascii_fold sha256 all_failed source mapper duration_ms
                    f
                  ≡ res =
                of_value (rw (x, fetch_walks) at h) in
              rw (← same) (
                finish_walks-exhaustive f (rw same good)
                ∙ (add_walks-exhausted walks nothing_found f x).0)
        ]
