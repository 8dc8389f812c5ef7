-- ===== src/Sources/Closure.antt =====
-- sources/closure.py: the closed markers of three sites, and the sweep over visible postings. An
-- HTTP answer is a `Response`; what urlparse, json and the compiled patterns read from it are the
-- fields of `Response` and of `Site`.
pub mod Budget
pub mod Rows
use text.Mathlib.Text.{find?, starts_with}
use job_aggregator.Prelude.{
  ℕ, zero, suc, ◌+◌, String, Bool, true, false, not, ◌&&◌, ◌||◌, Option, none, some, List, [], ◌∷◌,
  ◌==◌, filter, leb, ltb, eqb, is_some, holds, contains, add, to_ℕ, if◌then◌else◌,
}
use job_aggregator.Clock.{minus_days}
use job_aggregator.Models.{Job, JobStatus, is_deleted}
use job_aggregator.Models.Amount.{pos}
use job_aggregator.Storage.{Row, update}

pub data Verdict : Type 0 where
  closed opened unknown : Verdict

-- The value at data.competition.regnRequirements.reg_status of a JSON answer.
pub data RegStatus : Type 0 where
  unreadable not_text : RegStatus
  word : String → RegStatus

pub record Response : Type 0 where
  pub status_code : ℕ
  pub is_redirect : Bool
  pub location_path : String
  pub location_query : String
  pub body : String
  pub reg_status : RegStatus

-- urlparse(url): scheme, (hostname or "").lower() and path
pub record Url : Type 0 where
  pub scheme : String
  pub host : String
  pub path : String

-- The patterns, the URL parser, and the network: `answer` is what the request with this number
-- gets, `none` an httpx.HTTPError.
pub record Site : Type 0 where
  pub lower : String → String
  pub closed_job : String → Bool
  pub status_tag : String → Option String
  pub value_of : String → Option String
  pub is_number : String → Bool
  pub id_in_url : String → String → Option String
  pub parse_url : String → Url
  pub ends_with : String → String → Bool
  pub fill : String → String → String
  pub answer : ℕ → String → Option Response

abbrev pub checkable_sources : List String
checkable_sources = "internshala" ∷ "jobspy_linkedin" ∷ "unstop" ∷ []

-- _CHECK_URL
unfoldable pub check_url : String → Option String
check_url source =
    if source == "jobspy_linkedin"
    then some "https://www.linkedin.com/jobs/view/{id}"
    else if source == "unstop"
    then some "https://unstop.com/api/public/competition/{id}"
    else none

module _ (site : Site) where
  open site use {
    lower, closed_job, status_tag, value_of, is_number, id_in_url, parse_url, ends_with, fill,
    answer,
  }

  -- sources/internshala.py
  unfoldable pub is_detail_url : String → Bool
  is_detail_url url =
      let parsed = parse_url url in
      (parsed.scheme == "http" || parsed.scheme == "https")
      && (parsed.host == "internshala.com" || ends_with parsed.host ".internshala.com")
      && starts_with parsed.path "/internship/detail/"

  unfoldable pub target_url : String → String → Option String → Option String
  unfolding check_url is_detail_url
  target_url source url native_id =
      if source == "internshala"
      then (if is_detail_url url then some url else none)
      else elim (check_url source) [
        | none ↦ none
        | some template ↦
            if holds (λ id. not (id == "") && is_number id) native_id
            then elim native_id [ none ↦ none | some id ↦ some (fill template id) ]
            else elim (id_in_url source url) [ none ↦ none | some id ↦ some (fill template id) ]
      ]

  unfoldable pub internshala_verdict : String → Verdict
  internshala_verdict page =
      let status : String = elim (status_tag page) [
        | none ↦ ""
        | some tag ↦ elim (value_of tag) [ none ↦ "" | some v ↦ lower v ]
      ] in
      if status == "closed" || status == "expired"
      then closed
      else if status == "active"
      then opened
      else unknown

  unfoldable pub read_linkedin : Response → Verdict
  read_linkedin resp =
      if resp.is_redirect
      then (if starts_with resp.location_path "/jobs/"
            && is_some (find? resp.location_query "expired_jd_redirect")
          then closed
          else unknown)
      else if not (eqb resp.status_code 200)
      then unknown
      else if closed_job resp.body
      then closed
      else if is_some (find? resp.body "top-card-layout__title")
      then opened
      else unknown

  unfoldable pub read_internshala : Response → Verdict
  unfolding internshala_verdict
  read_internshala resp =
      if eqb resp.status_code 200 then internshala_verdict resp.body else unknown

  unfoldable pub read_unstop : Response → Verdict
  read_unstop resp = elim (resp.reg_status) [
    | unreadable ↦ unknown
    | not_text ↦ unknown
    | word reg ↦
        if not (eqb resp.status_code 200) || reg == ""
        then unknown
        else if reg == "FINISHED"
        then closed
        else opened
  ]

  -- _READERS[source]
  unfoldable pub read : String → Response → Verdict
  unfolding read_linkedin read_internshala read_unstop
  read source resp =
      if source == "jobspy_linkedin"
      then read_linkedin resp
      else if source == "internshala"
      then read_internshala resp
      else read_unstop resp

  -- `n` numbers the request, if one is made.
  unfoldable pub check_posting : ℕ → String → String → Option String → Verdict
  unfolding target_url
  check_posting n source url native_id = elim (target_url source url native_id) [
    | none ↦ unknown
    | some target ↦ elim (answer n target) [ none ↦ unknown | some resp ↦ read source resp ]
  ]

abbrev pub is_closed : Verdict → Bool
is_closed closed = true
is_closed _ = false

abbrev pub is_unknown : Verdict → Bool
is_unknown unknown = true
is_unknown _ = false

-- The SET of record_verdict.
unfoldable pub stamped : Verdict → ℕ → Row → Row
stamped verdict now r = record r {
  closure_checked_at = some now;
  status =
      if is_closed verdict && not r.applied && not r.bookmarked
      then JobStatus.deleted
      else r.status;
}

unfoldable pub record_verdict : List Row → String → Verdict → ℕ → List Row
unfolding stamped
record_verdict rows job_uid verdict now =
    update (λ r. r.job_uid == job_uid) (stamped verdict now) rows

-- The WHERE clause of the sweep.
unfoldable pub is_due : ℕ → Row → Bool
is_due cutoff r =
    not (is_deleted r.status)
    && not r.hidden
    && contains checkable_sources r.source
    && elim (r.closure_checked_at) [ none ↦ true | some at ↦ ltb at cutoff ]

-- The variables of the loop: the table, the clock readings so far, the blocked sites, the sites
-- that a request was sent to (newest first), the budget used, and the counts.
pub record Sweep : Type 0 where
  pub rows : List Row
  pub ticks : ℕ
  pub blocked : List String
  pub requests : List String
  pub checks : ℕ
  pub n_closed : ℕ
  pub n_open : ℕ
  pub n_unknown : ℕ
  pub n_skipped : ℕ

module _ (site : Site) (now : ℕ → ℕ) (limit : ℕ) where
  -- The rest of the loop body, for a site that is not blocked. The clock is read for the gap to
  -- the last request to the site, for the time of this request, and for the stamp.
  unfoldable pub check_row : Sweep → Row → Sweep
  check_row s r =
      let requests_site = is_some (target_url site r.source r.url r.source_native_id) in
      let verdict = check_posting site s.checks r.source r.url r.source_native_id in
      let asked = to_ℕ (requests_site && contains s.requests r.source) + to_ℕ requests_site in
      record s {
        rows = record_verdict s.rows r.job_uid verdict (now (s.ticks + asked));
        ticks = s.ticks + asked + 1;
        blocked = if requests_site && is_unknown verdict then add s.blocked r.source else s.blocked;
        requests = if requests_site then r.source ∷ s.requests else s.requests;
        checks = s.checks + to_ℕ requests_site;
        n_closed = s.n_closed + to_ℕ (is_closed verdict);
        n_open = s.n_open + to_ℕ (not (is_closed verdict) && not (is_unknown verdict));
        n_unknown = s.n_unknown + to_ℕ (is_unknown verdict);
      }

  -- checks >= limit or blocked.issuperset(sources)
  unfoldable pub is_over : Sweep → Bool
  is_over s =
      leb limit s.checks
      || contains s.blocked "internshala"
        && contains s.blocked "jobspy_linkedin"
        && contains s.blocked "unstop"

  unfoldable pub visit_row : Sweep → Row → Sweep
  visit_row s r =
      if contains s.blocked r.source
      then record s { n_skipped = s.n_skipped + 1 }
      else check_row s r

  unfoldable pub sweep_rows : Sweep → List Row → Sweep
  sweep_rows s [] = s
  sweep_rows s (r ∷ due) =
      let rest = sweep_rows (visit_row s r) due in if is_over s then s else rest

  abbrev pub before_sweep : List Row → ℕ → Sweep
  before_sweep rows ticks = record {
    rows = rows;
    ticks = ticks;
    blocked = [];
    requests = [];
    checks = 0;
    n_closed = 0;
    n_open = 0;
    n_unknown = 0;
    n_skipped = 0;
  }

  -- `order` is the statement's ORDER BY; `none` is an OverflowError of the cutoff.
  unfoldable pub sweep : (List Row → List Row) → List Row → ℕ → Option Sweep
  sweep order rows ticks =
      if leb limit 0
      then some (before_sweep rows ticks)
      else elim (minus_days (now ticks) (pos 3)) [
        | none ↦ none
        | some cutoff ↦
            some (sweep_rows (before_sweep rows (ticks + 1)) (order (filter (is_due cutoff) rows)))
      ]
