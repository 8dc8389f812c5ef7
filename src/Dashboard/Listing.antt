-- ===== src/Dashboard/Listing.antt =====
-- dashboard/routes_jobs.py: the query of the list page, its rows, and the actions on a card. The
-- parameters of the request are a lookup; LIKE and ORDER BY are SQLite's.
pub mod Views
pub mod Actions
pub mod Pages
use Prim.Native.String.{◌++◌}
use job_aggregator.Prelude.{
  ℕ, ◌-◌, ◌*◌, String, Bool, true, false, not, ◌&&◌, ◌||◌, Option, none, some, List, [], ◌∷◌, ◌==◌,
  any, coalesce, contains, count, drop, filter, holds, if◌then◌else◌, ltb, max, take,
}
use job_aggregator.Models.{is_deleted, is_stale}
use job_aggregator.Models.Amount.{ℤ, pos, negsuc}
use job_aggregator.Storage.{Row, find, update}
use job_aggregator.Storage.Query.{status_value, bucket_value}
use job_aggregator.Storage.Table.{rowcount}
use job_aggregator.Dashboard.Render.{text_take}
use job_aggregator.Resume.Words.{text_length}

pub data SortOption : Type 0 where
  score date salary : SortOption

pub record JobQuery : Type 0 where
  pub q : Option String
  pub source : Option String
  pub remote : Option String
  pub bucket : Option String
  pub status : Option String
  pub show_hidden : Bool
  pub applied : Bool
  pub bookmarked : Bool
  pub intern : Bool
  pub hide_seen : Bool
  pub sort : SortOption
  pub page : ℕ

abbrev pub page_size : ℕ
page_size = 50

abbrev pub max_q_len : ℕ
max_q_len = 200

abbrev pub bucket_keys : List String
bucket_keys = "pass" ∷ "unknown" ∷ "fail" ∷ []

abbrev pub status_words : List String
status_words = "new" ∷ "active" ∷ "stale" ∷ "deleted" ∷ "all" ∷ []

abbrev pub truthy : List String
truthy = "1" ∷ "true" ∷ "on" ∷ "yes" ∷ []

-- The value when it is one of the words.
unfoldable pub one_of : List String → Option String → Option String
one_of words none = none
one_of words (some v) = if contains words v then some v else none

unfoldable pub sort_option : String → SortOption
sort_option word = if word == "date" then date else if word == "salary" then salary else score

-- max(1, n)
unfoldable pub page_of : Option ℤ → ℕ
page_of none = 1
page_of (some (pos n)) = max 1 n
page_of (some (negsuc n)) = 1

-- str.strip, int(text), where `none` is a ValueError, and QueryParams.get
pub record Request : Type 0 where
  pub strip : String → String
  pub int : String → Option ℤ
  pub get : String → Option String

module _ (request : Request) where
  open request use {strip, int, get}

  unfoldable pub clean : String → Option String
  clean key = elim (get key) [
    | none ↦ none
    | some value ↦ if strip value == "" then none else some (strip value)
  ]

  -- q[:MAX_Q_LEN] for a longer one
  unfoldable pub short_q : Option String → Option String
  unfolding text_take
  short_q none = none
  short_q (some q) = some (if ltb max_q_len (text_length q) then text_take max_q_len q else q)

  abbrev pub switch : String → Bool
  switch key = holds (contains truthy) (get key)

  unfoldable pub parse_job_query : JobQuery
  unfolding clean short_q one_of sort_option page_of
  parse_job_query = record {
    q = short_q (clean "q");
    source = clean "source";
    remote = one_of ("yes" ∷ "no" ∷ []) (get "remote");
    bucket = one_of bucket_keys (get "bucket");
    status = one_of status_words (get "status");
    show_hidden = switch "show_hidden";
    applied = switch "applied";
    bookmarked = switch "bookmarked";
    intern = switch "intern";
    hide_seen = switch "hide_seen";
    sort = sort_option (coalesce (get "sort") "");
    page = page_of (int (coalesce (get "page") "1"));
  }

-- A clause for a value that is given and not empty.
abbrev pub when_given : Option String → (String → Bool) → Bool
when_given none clause = true
when_given (some v) clause = v == "" || clause v

-- is_remote = 1, or (is_remote = 0 OR is_remote IS NULL)
unfoldable pub remote_clause : Option String → Option Bool → Bool
remote_clause none value = true
remote_clause (some word) value =
    if word == "yes"
    then holds (λ b. b) value
    else if word == "no"
    then not (coalesce value false)
    else true

unfoldable pub listed_status : Option String → Bool → Row → Bool
listed_status none show_hidden r =
    if show_hidden
    then not (is_deleted r.status)
    else not (is_deleted r.status) && (not (is_stale r.status) || r.applied || r.bookmarked)
listed_status (some word) show_hidden r = word == "all" || word == status_value r.status

module _ (like : String → String → Bool) where
  -- The WHERE clause of _build_where.
  unfoldable pub is_listed : JobQuery → Row → Bool
  unfolding remote_clause listed_status
  is_listed query r =
      when_given query.q (λ q. like r.title ("%" ++ q ++ "%") || like r.company ("%" ++ q ++ "%"))
      && when_given query.source (λ s. r.source == s)
      && remote_clause query.remote r.is_remote
      && when_given query.bucket (λ b. holds (λ v. bucket_value v == b) r.salary_bucket)
      && listed_status query.status query.show_hidden r
      && (query.show_hidden || not r.hidden)
      && (not query.applied || r.applied)
      && (not query.bookmarked || r.bookmarked)
      && (not query.intern || r.is_internship)
      && (not query.hide_seen || not r.seen)

  -- The rows of the page, and the number of rows that match.
  unfoldable pub query_jobs :
      (SortOption → List Row → List Row) → List Row → JobQuery → List Row × ℕ
  unfolding is_listed
  query_jobs order rows query = (
    take page_size
        (drop ((query.page - 1) * page_size) (order query.sort (filter (is_listed query) rows))),
    count (is_listed query) rows,
  )

pub data Action : Type 0 where
  apply unapply bookmark unbookmark hide unhide seen unseen : Action

-- SET column = value, with _ACTIONS
unfoldable pub act : Action → Row → Row
act apply r = record r { applied = true }
act unapply r = record r { applied = false }
act bookmark r = record r { bookmarked = true }
act unbookmark r = record r { bookmarked = false }
act hide r = record r { hidden = true }
act unhide r = record r { hidden = false }
act seen r = record r { seen = true }
act unseen r = record r { seen = false }

-- The table, and the row of the updated card; `none` is the NotFoundError.
unfoldable pub job_action : List Row → String → Action → List Row × Option Row
unfolding act
job_action rows uid action =
    let own : Row → Bool = λ r. r.job_uid == uid in
    let rows' = update own (act action) rows in
    (rows', if ltb 0 (rowcount own rows) then find uid rows' else none)
