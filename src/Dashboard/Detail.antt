-- ===== src/Dashboard/Detail.antt =====
-- dashboard/routes_jobs.py and sources/internshala.py: the detail view of one posting. The pages
-- of other sites are read by `fetch_page`, which is get_text of one URL with `none` for a
-- SourceError and `raise` for every other exception, and by `site`. What is asked for is recorded by
-- its URL; get_text may send the request for a URL several times.
pub mod Touch
pub mod Open
use job_aggregator.Prelude.{
  given, ◌||◌, ℕ, String, Bool, true, false, not, ◌&&◌, Option, none, some, List, [], ◌∷◌, ◌==◌,
  coalesce, contains, holds, ltb, if◌then◌else◌,
}
use job_aggregator.Clock.{minus_days}
use job_aggregator.Errors.{
  Error, Result, ok, raise, ◌>>=◌, other, not_found, overflow_error, value_error,
}
use job_aggregator.Models.Amount.{pos}
use job_aggregator.Storage.{Row, find}
use job_aggregator.Storage.Flags.{plain, set_user_flag}
use job_aggregator.Sources.Closure.{
  Site, Verdict, unknown, check_posting, checkable_sources, internshala_verdict, is_closed,
  is_detail_url, record_verdict, target_url,
}
use job_aggregator.Dashboard.Render.{
  Event, Html, max_desc_chars, render_description_html, text_take,
}

-- The readers of pages: `contents` is the stripped inner HTML of the block that the detail
-- selector finds, `feed` what the feed and the close of HTMLParser call for a text.
pub record Viewer : Type 0 where
  pub site : Site
  pub fetch_page : String → Result (Option String)
  pub contents : String → Option String
  pub feed : String → List Event
  pub html : Html

abbrev pub preview_desc_sources : List String
preview_desc_sources = "adzuna" ∷ "jooble" ∷ []

-- full_description when there is one, else the description
unfoldable pub row_description : Row → Option String
row_description r = if given r.full_description then r.full_description else r.description

-- The table, the description to show, the closed state read so far, and the URLs asked for.
pub record Opened : Type 0 where
  pub rows : List Row
  pub description : Option String
  pub verdict : Option Verdict
  pub requests : List String

-- The table that is left, and the context of the template. A description that cannot be rendered
-- raises, which ends the request after everything is stored.
pub record Detail : Type 0 where
  pub rows : List Row
  pub requests : List String
  pub job : Row
  pub applications_closed : Bool
  pub description_html : Result String
  pub description_is_preview : Bool
  pub apply_enabled : Bool

-- checked is None or checked < now - one day
unfoldable pub recheck_due : Option ℕ → ℕ → Result Bool
recheck_due none now = ok true
recheck_due (some at) now = elim (minus_days now (pos 1)) [
  | none ↦ raise overflow_error
  | some cutoff ↦ ok (ltb at cutoff)
]

abbrev pub requested : Option String → List String → List String
requested none sent = sent
requested (some url) sent = url ∷ sent

-- The stamp of the closed state, when there is one.
abbrev pub recorded : List Row → String → Option Verdict → ℕ → List Row
recorded rows uid none now = rows
recorded rows uid (some v) now = record_verdict rows uid v now

module _ (viewer : Viewer) where
  open viewer use {site, fetch_page, contents, feed, html}

  -- inner[:_MAX_DETAIL_CHARS] or None
  unfoldable pub capped : Option String → Option String
  unfolding text_take
  capped none = none
  capped (some inner) = if inner == "" then none else some (text_take max_desc_chars inner)

  abbrev pub parse_detail_description : String → Option String
  parse_detail_description page = capped (contents page)

  -- What the fetched page adds: the row keeps its text, and the page tells the closed state.
  unfoldable pub cache_page : List Row → Row → List String → String → Option String → Result Opened
  cache_page rows r requests page none = ok (record {
    rows = rows;
    description = row_description r;
    verdict = some (internshala_verdict site page);
    requests = requests;
  })
  cache_page rows r requests page (some fetched) =
      elim (set_user_flag rows r.job_uid "full_description" (plain fetched)) [
        | none ↦ raise value_error
        | some out ↦ ok (record {
          rows = out.0;
          description = some fetched;
          verdict = some (internshala_verdict site page);
          requests = requests;
        })
      ]

  abbrev pub read_page : List Row → Row → List String → Option String → Result Opened
  read_page rows r requests none = ok (record {
    rows = rows;
    description = row_description r;
    verdict = some unknown;
    requests = requests;
  })
  read_page rows r requests (some page) =
      cache_page rows r requests page (parse_detail_description page)

  unfoldable pub effective_description : List Row → Row → Result Opened
  unfolding row_description is_detail_url
  effective_description rows r =
      if given r.full_description || not (r.source == "internshala")
      then ok
          (record { rows = rows; description = row_description r; verdict = none; requests = [] })
      else if is_detail_url site r.url
      then (fetch_page r.url >>= λ page. read_page rows r (r.url ∷ []) page)
      else read_page rows r [] none

  -- check_posting, for a posting with no closed state yet; the request has the number 0.
  unfoldable pub check_opened : Row → Bool → Opened → Opened
  check_opened r due o = elim (o.verdict) [
    | some v ↦ o
    | none ↦
        if due && contains checkable_sources r.source
        then record o {
          verdict = some (check_posting site 0 r.source r.url r.source_native_id);
          requests = requested (target_url site r.source r.url r.source_native_id) o.requests;
        }
        else o
  ]

  -- The context of the template, for the row as it is shown.
  unfoldable pub detail_of : Bool → Opened → List Row → Bool → Row → Detail
  unfolding render_description_html
  detail_of apply_enabled o rows shut shown = record {
    rows = rows;
    requests = o.requests;
    job = shown;
    applications_closed = shut;
    description_html = elim (o.description) [
      | none ↦ render_description_html html none
      | some raw ↦ render_description_html html (some (raw, feed raw))
    ];
    description_is_preview =
        contains preview_desc_sources shown.source && not (given shown.full_description);
    apply_enabled = apply_enabled;
  }

  -- A row that is gone at the second read is None, which has no columns.
  abbrev pub show_again : Bool → Opened → List Row → Option Row → Result Detail
  show_again apply_enabled o rows none = raise (other "'NoneType' object is not subscriptable")
  show_again apply_enabled o rows (some r) = ok (detail_of apply_enabled o rows true r)

  unfoldable pub show : Bool → String → ℕ → Row → Opened → Result Detail
  show apply_enabled uid now r o =
      let rows = recorded o.rows uid o.verdict now in
      if holds is_closed o.verdict
      then show_again apply_enabled o rows (find uid rows)
      else ok (detail_of apply_enabled o rows false r)

  unfoldable pub open_row : Bool → List Row → String → ℕ → Row → Result Detail
  open_row apply_enabled rows uid now r = do
    o ← effective_description rows r
    due ← recheck_due r.closure_checked_at now
    show apply_enabled uid now r (check_opened r due o)

  unfoldable pub job_detail : Bool → List Row → String → ℕ → Result Detail
  job_detail apply_enabled rows uid now = elim (find uid rows) [
    | none ↦ raise not_found
    | some r ↦ open_row apply_enabled rows uid now r
  ]
