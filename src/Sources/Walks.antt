-- ===== src/Sources/Walks.antt =====
-- The fetches of sources/unstop.py and sources/internshala.py: one page walk for each search, whose
-- items are merged. `A` is an item of the source's answer.
pub mod Merge
pub mod Searches
use Prim.Native.String.{◌++◌ as text_append}
use job_aggregator.Prelude.{
  ℕ, zero, suc, ◌+◌, String, Bool, true, false, not, ◌&&◌, ◌||◌, Option, none, some, List, [], ◌∷◌,
  ◌++◌, ◌==◌, map, eqb, contains, coalesce, if◌then◌else◌,
}
use job_aggregator.Pipeline.Normalize.{UrlLib}
use job_aggregator.Sources.Base.{RawPosting, SourceResult, build_result, failed_result}
use job_aggregator.Sources.Http.{
  Outcome, value, source_error, other_error, read_pages, paginate_until_empty,
}

-- The variables of the loop.
pub record Found (A : Type 0) : Type 0 where
  pub items : List A
  pub seen : List String
  pub errors : List String
  pub ok : ℕ
  pub exhausted : Bool

abbrev pub nothing_found : {A : Type 0} → Found A
nothing_found = record { items = []; seen = []; errors = []; ok = 0; exhausted = true }

module _ {A : Type 0} (key : A → String) where
  -- An item with a key that was seen is skipped; an item with no key is kept.
  unfoldable pub add_item : Found A → A → Found A
  add_item f item = if not (key item == "") && contains f.seen (key item) then f else record f {
    items = f.items ++ item ∷ [];
    seen = if key item == "" then f.seen else key item ∷ f.seen;
  }

  unfoldable pub add_items : Found A → List A → Found A
  unfolding add_item
  add_items f [] = f
  add_items f (item ∷ items) = add_items (add_item f item) items

  -- One round: the walk of one search, under its label. An exception that is no SourceError ends
  -- the loop.
  unfoldable pub add_walk : Found A → String → Outcome (List A × Bool) → Outcome (Found A)
  unfolding add_items
  add_walk f label (other_error e) = other_error e
  add_walk f label (source_error e) = value (record f {
    errors = f.errors ++ text_append label (text_append ": " e) ∷ [];
    exhausted = false;
  })
  add_walk f label (value (items, done)) =
      value (add_items (record f { ok = f.ok + 1; exhausted = f.exhausted && done }) items)

  unfoldable pub add_walks : Found A → List (String × Outcome (List A × Bool)) → Outcome (Found A)
  unfolding add_walk
  add_walks f [] = value f
  add_walks f ((label, walk) ∷ walks) = elim (add_walk f label walk) [
    | value f' ↦ add_walks f' walks
    | source_error e ↦ source_error e
    | other_error e ↦ other_error e
  ]

  -- The end of both fetches. `all_failed` is the text of the error when no walk succeeded.
  unfoldable pub finish_walks :
      UrlLib
      → (List ℕ → List ℕ)
      → (List ℕ → String)
      → (List String → String)
      → String
      → (A → Option RawPosting)
      → ℕ
      → Found A
      → SourceResult
  finish_walks lib ascii_fold sha256 all_failed source mapper duration_ms f =
      if eqb f.ok 0
      then failed_result source (all_failed f.errors) duration_ms
      else build_result lib ascii_fold sha256 source f.items mapper duration_ms f.exhausted

  unfoldable pub fetch_walks :
      UrlLib
      → (List ℕ → List ℕ)
      → (List ℕ → String)
      → (List String → String)
      → String
      → (A → Option RawPosting)
      → ℕ
      → List (String × Outcome (List A × Bool))
      → Outcome SourceResult
  unfolding add_walks finish_walks
  fetch_walks lib ascii_fold sha256 all_failed source mapper duration_ms walks =
      elim (add_walks nothing_found walks) [
        | other_error e ↦ other_error e
        | source_error e ↦ source_error e
        | value f ↦
            value (finish_walks lib ascii_fold sha256 all_failed source mapper duration_ms f)
      ]

  -- The searches of one opportunity: with no term the raw feed.
  abbrev pub terms_of : List String → List (Option String)
  terms_of [] = none ∷ []
  terms_of (t ∷ l) = map some (t ∷ l)

  abbrev pub term_walk :
      (String → Option String → ℕ → Outcome (List A × Bool))
      → ℕ
      → String
      → Option String
      → String × Outcome (List A × Bool)
  term_walk fetch_page max_pages opp term = (
    text_append opp (text_append "/" (coalesce term "*")),
    read_pages (fetch_page opp term) max_pages 0 [],
  )

  -- One walk for each opportunity and each search term. `fetch_page`
  -- gives the n-th page of a search, counted from 0, and whether it is the last.
  unfoldable pub unstop_walks :
      (String → Option String → ℕ → Outcome (List A × Bool))
      → ℕ
      → List String
      → List String
      → List (String × Outcome (List A × Bool))
  unfolding read_pages
  unstop_walks fetch_page max_pages search_terms [] = []
  unstop_walks fetch_page max_pages search_terms (opp ∷ opportunities) =
      map (term_walk fetch_page max_pages opp) (terms_of search_terms)
      ++ unstop_walks fetch_page max_pages search_terms opportunities

  -- One walk for each slug; `with_slug` notes the slug on a card.
  unfoldable pub internshala_walks :
      (String → ℕ → Outcome (List A))
      → (String → A → A)
      → ℕ
      → List String
      → List (String × Outcome (List A × Bool))
  unfolding paginate_until_empty
  internshala_walks fetch_page with_slug max_pages [] = []
  internshala_walks fetch_page with_slug max_pages (slug ∷ slugs) =
      let walk : Outcome (List A × Bool) =
        elim (paginate_until_empty (fetch_page slug) max_pages (some 50)) [
          | value (cards, done) ↦ value (map (with_slug slug) cards, done)
          | source_error e ↦ source_error e
          | other_error e ↦ other_error e
        ] in
      (slug, walk) ∷ internshala_walks fetch_page with_slug max_pages slugs
