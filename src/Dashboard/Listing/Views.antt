-- ===== src/Dashboard/Listing/Views.antt =====
-- What the list page shows.
use Prim.Native.String.{◌++◌ as text_append}
use job_aggregator.Prelude.{
  ◌≤◌, ◌≢◌, inl, inr, String, Bool, true, false, not, ◌&&◌, ◌||◌, Option, none, some, List, [], ◌∷◌,
  ◌==◌, ◌≡◌, refl, sym, ap, ◌∙◌, any, arith, coalesce, contains, holds, if◌then◌else◌, ltb,
  Bool-cases, eq_iff,
}
use job_aggregator.Models.{JobStatus}
use job_aggregator.Models.Amount.{ℤ, pos, negsuc}
use job_aggregator.Storage.{Row}
use job_aggregator.Storage.Query.{
  Filters, matches, status_clause, status_value, bucket_value, given, same_bool,
}
use job_aggregator.Dashboard.Render.Safe.{length-text_take}
use job_aggregator.Dashboard.Listing.{
  JobQuery, Request, parse_job_query, clean, short_q, one_of, page_of, bucket_keys, status_words,
  is_listed, when_given, remote_clause, listed_status,
}
use job_aggregator.Resume.Words.{text_length}

-- The value is missing or one of the words.
abbrev pub IsOneOf : List String → Option String → Type 0
IsOneOf words none = Unit
IsOneOf words (some v) = contains words v ≡ true

abbrev pub IsShort : Option String → Type 0
IsShort none = Unit
IsShort (some q) = text_length q ≤ 200

one_of-IsOneOf : (words : List String) (v : Option String) → IsOneOf words (one_of words v)
unfolding one_of
one_of-IsOneOf words none = tt
one_of-IsOneOf words (some v) = elim (Bool-cases (contains words v)) [
  | inl e ↦ rw e e
  | inr e ↦ rw e tt
]

short_q-IsShort : (request : Request) (q : Option String) → IsShort (short_q request q)
unfolding short_q
short_q-IsShort request none = tt
short_q-IsShort request (some q) = elim (Bool-cases (ltb 200 (text_length q))) [
  | inl e ↦ rw e (length-text_take 200 q)
  | inr e ↦ rw e (ground arith)
]

page_of-positive : (n : Option ℤ) → 1 ≤ page_of n
unfolding page_of
page_of-positive none = omega arith
page_of-positive (some (pos n)) = omega arith
page_of-positive (some (negsuc n)) = omega arith

-- Whatever the request holds, the query's remote, bucket and status are missing or on their
-- lists, the search text has at most 200 characters, and the page is at least 1.
pub parse_job_query-IsOneOf :
    (request : Request)
    → let query = parse_job_query request in
      IsOneOf ("yes" ∷ "no" ∷ []) query.remote
      × IsOneOf bucket_keys query.bucket
      × IsOneOf status_words query.status
      × IsShort query.q
      × (1 ≤ query.page)
unfolding parse_job_query
parse_job_query-IsOneOf request = (
  one_of-IsOneOf _ (request.get "remote"),
  one_of-IsOneOf bucket_keys (request.get "bucket"),
  one_of-IsOneOf status_words (request.get "status"),
  short_q-IsShort request (clean request "q"),
  page_of-positive (request.int (coalesce (request.get "page") "1")),
)

-- The value when it is not empty.
abbrev pub non_empty : Option String → Option String
non_empty none = none
non_empty (some v) = if v == "" then none else some v

abbrev pub status_list : Option String → Option (List String)
status_list none = none
status_list (some word) =
    some (if word == "all" then "new" ∷ "active" ∷ "stale" ∷ "deleted" ∷ [] else word ∷ [])

abbrev pub wanted : Bool → Option Bool
wanted b = if b then some true else none

-- The arguments that get_jobs takes for the same view.
abbrev pub filters_of : JobQuery → Filters
filters_of query = record {
  q = query.q;
  source = non_empty query.source;
  remote = wanted (holds (λ w. w == "yes") query.remote);
  bucket = non_empty query.bucket;
  status = status_list query.status;
  include_hidden = query.show_hidden;
  applied = wanted query.applied;
  bookmarked = wanted query.bookmarked;
}

given-non_empty :
    (v : Option String) (clause : String → Bool) → given (non_empty v) clause ≡ when_given v clause
given-non_empty none clause = refl
given-non_empty (some v) clause = elim (Bool-cases (v == "")) [
  | inl e ↦ rw e refl
  | inr e ↦ rw e refl
]

given-wanted : (b own : Bool) → given (wanted b) (same_bool own) ≡ (not b || own)
given-wanted true true = refl
given-wanted true false = refl
given-wanted false own = refl

listed-any :
    (s : JobStatus)
    → any (λ w. w == status_value s) ("new" ∷ "active" ∷ "stale" ∷ "deleted" ∷ []) ≡ true
listed-any JobStatus.new = refl
listed-any JobStatus.active = refl
listed-any JobStatus.stale = refl
listed-any JobStatus.deleted = refl

or_false : (b : Bool) → (b || false) ≡ b
or_false true = refl
or_false false = refl

status_clause-status_list :
    (status : Option String) (shown : Bool) (r : Row)
    → status_clause (status_list status) shown r ≡ listed_status status shown r
unfolding status_clause listed_status
status_clause-status_list none shown r = refl
status_clause-status_list (some word) shown r = elim (Bool-cases (word == "all")) [
  | inl e ↦ rw e (listed-any r.status)
  | inr e ↦ rw e (or_false (word == status_value r.status))
]

given_q :
    (v : Option String) (in_title in_company : String → Bool)
    → given v (λ q. q == "" || in_title q || in_company q)
      ≡ when_given v (λ q. in_title q || in_company q)
given_q none in_title in_company = refl
given_q (some q) in_title in_company = ground arith

remote_clause-wanted :
    (word : Option String) (value : Option Bool)
    → word ≢ some "no"
    → given (wanted (holds (λ w. w == "yes") word)) (λ b. holds (same_bool b) value)
      ≡ remote_clause word value
unfolding remote_clause
remote_clause-wanted none value h = refl
remote_clause-wanted (some word) value h = elim (Bool-cases (word == "yes")) [
  | inl e ↦ rw e refl
  | inr e ↦ elim (Bool-cases (word == "no")) [
    | inl same ↦ absurd (h (ap some ((eq_iff word "no").0 same)))
    | inr other ↦ rw (e, other) refl
  ]
]

reorder :
    (a s b r p o t h i n : Bool)
    → (a && s && r && b && t && h && p && o && i && n)
      ≡ ((a && s && b && r && p && o && t && h) && (i && n))
reorder a s b r p o t h i n = ground arith

module _ (like : String → String → Bool) (query : JobQuery) where
  -- Where the view is not restricted to the rows that are not remote, the list page selects what
  -- get_jobs selects for the same arguments, further restricted to internships and to unseen rows where
  -- the query asks for it.
  pub is_listed-eq-matches :
      (r : Row)
      → query.remote ≢ some "no"
      → is_listed like query r ≡ (
          matches like (filters_of query) r
          && ((not query.intern || r.is_internship) && (not query.hide_seen || not r.seen)))
  unfolding is_listed matches
  is_listed-eq-matches r remote =
      let in_title = λ (q : String). like r.title (text_append "%" (text_append q "%")) in
      let in_company = λ (q : String). like r.company (text_append "%" (text_append q "%")) in
      let is_source = λ (s : String). r.source == s in
      let is_bucket = λ (b : String). holds (λ v. bucket_value v == b) r.salary_bucket in
      let q = given_q query.q in_title in_company in
      let source = given-non_empty query.source is_source in
      let bucket = given-non_empty query.bucket is_bucket in
      let remote' = remote_clause-wanted query.remote r.is_remote remote in
      let applied = given-wanted query.applied r.applied in
      let bookmarked = given-wanted query.bookmarked r.bookmarked in
      let status = status_clause-status_list query.status query.show_hidden r in
      let shown = query.show_hidden || not r.hidden in
      reorder (when_given query.q (λ t. in_title t || in_company t))
        (when_given query.source is_source) (when_given query.bucket is_bucket)
        (remote_clause query.remote r.is_remote) (not query.applied || r.applied)
        (not query.bookmarked || r.bookmarked) (listed_status query.status query.show_hidden r)
        shown (not query.intern || r.is_internship) (not query.hide_seen || not r.seen)
      ∙ (λ i.
          (sym q i
            && sym source i
            && sym bucket i
            && sym remote' i
            && sym applied i
            && sym bookmarked i
            && sym status i
            && shown)
          && ((not query.intern || r.is_internship) && (not query.hide_seen || not r.seen)))
