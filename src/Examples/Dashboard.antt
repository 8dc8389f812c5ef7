-- ===== src/Examples/Dashboard.antt =====
-- The laws of the dashboard at example requests and descriptions.
use job_aggregator.Prelude.{
  ◌≡◌, ◌≢◌, ◌&&◌, ◌||◌, not, String, Bool, true, false, none, some, List, [], ◌∷◌,
}
use job_aggregator.Storage.{Row}
use job_aggregator.Storage.Query.{matches}
use job_aggregator.Dashboard.Listing.{JobQuery, SortOption, is_listed}
use job_aggregator.Dashboard.Listing.Views.{filters_of, is_listed-eq-matches}
use job_aggregator.Dashboard.Render.{
  render_description_html, Event, start_tag, end_tag, text_data, Html,
}
use job_aggregator.Dashboard.Render.Safe.{OnOk, IsClean, render_description_html-IsClean}
use job_aggregator.Examples.{new_row}

abbrev pub html : Html
html = record {
  escape = λ t. t;
  scheme = λ t. some "javascript";
  strip = λ t. t;
  splitlines = λ t. t ∷ [];
}

abbrev events : List Event
events =
    start_tag "script" []
    ∷ text_data "alert(1)"
    ∷ end_tag "script"
    ∷ start_tag "a" (("href", some "javascript:alert(1)") ∷ [])
    ∷ text_data "Apply"
    ∷ end_tag "a"
    ∷ []

render_description_html-IsClean_example :
    OnOk html (IsClean html) (render_description_html html (some ("<script>", events)))
render_description_html-IsClean_example = render_description_html-IsClean html "<script>" events

abbrev query : JobQuery
query = record {
  q = some "backend";
  source = none;
  remote = some "yes";
  bucket = none;
  status = none;
  show_hidden = false;
  applied = false;
  bookmarked = false;
  intern = false;
  hide_seen = true;
  sort = SortOption.score;
  page = 1;
}

abbrev like : String → String → Bool
like text pattern = true

yes_ne_no : query.remote ≢ some "no"
yes_ne_no = λ same. cc

is_listed-eq-matches_example : is_listed like query new_row ≡ (
    matches like (filters_of query) new_row
    && ((not query.intern || new_row.is_internship) && (not query.hide_seen || not new_row.seen)))
is_listed-eq-matches_example = is_listed-eq-matches like query new_row yes_ne_no

abbrev stored_order : SortOption → List Row → List Row
stored_order key rows = rows
