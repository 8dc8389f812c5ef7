-- ===== src/Pipeline/Normalize.antt =====
-- clean_text of pipeline/normalize.py and canonical_url of pipeline/dedup.py, over what the
-- Python library does with texts and URLs.
pub mod Links
use text.Mathlib.Text.{starts_with}
use job_aggregator.Prelude.{
  ℕ, String, Bool, true, false, not, ◌&&◌, ◌||◌, Option, none, some, List, [], ◌∷◌, ◌==◌, filter,
  contains, ltb, if◌then◌else◌,
}

-- urlsplit(url), without the fragment
pub record Parts : Type 0 where
  pub scheme : String
  pub netloc : String
  pub path : String
  pub query : String

pub record UrlLib : Type 0 where
  pub lower : String → String
  pub strip : String → String
  pub length : String → ℕ
  -- path.rstrip("/")
  pub rstrip_slash : String → String
  pub urlsplit : String → Parts
  -- parse_qsl(query, keep_blank_values=False)
  pub parse_qsl : String → List (String × String)
  pub sort_pairs : List (String × String) → List (String × String)
  pub urlencode : List (String × String) → String
  -- urlunsplit with an empty fragment
  pub urlunsplit : Parts → String
  -- NFKC, then the zero-width characters removed, then " ".join(text.split())
  pub tidy : String → String

abbrev pub tracking_params : List String
tracking_params =
    "gclid" ∷ "fbclid" ∷ "mc_cid" ∷ "mc_eid" ∷ "ref" ∷ "referrer" ∷ "source" ∷ "src" ∷ "trk"
    ∷ "trackingid" ∷ "refid" ∷ "originalsubdomain" ∷ "position" ∷ "pagenum" ∷ "utm_id" ∷ []

abbrev pub allowed_url_schemes : List String
allowed_url_schemes = "http" ∷ "https" ∷ []

module _ (lib : UrlLib) where
  open lib use {
    lower, strip, rstrip_slash, urlsplit, parse_qsl, sort_pairs, urlencode, urlunsplit, tidy,
  }

  unfoldable pub clean_text : Option String → Option String
  clean_text none = none
  clean_text (some value) = let t = tidy value in if t == "" then none else some t

  unfoldable pub is_tracking : String × String → Bool
  is_tracking pair = contains tracking_params (lower pair.0) || starts_with (lower pair.0) "utm_"

  -- The parts of the link that is returned for parts with an allowed scheme.
  unfoldable pub canonical_parts : Parts → Parts
  unfolding is_tracking
  canonical_parts parts = record {
    scheme = lower (if parts.scheme == "" then "https" else parts.scheme);
    netloc = lower parts.netloc;
    path = if ltb 1 (lib.length parts.path) then rstrip_slash parts.path else parts.path;
    query = urlencode (sort_pairs (filter (λ p. not (is_tracking p)) (parse_qsl parts.query)));
  }

  unfoldable pub canonical_url : String → String
  unfolding canonical_parts
  canonical_url url =
      let stripped = strip url in
      let parts = urlsplit stripped in
      if stripped == ""
      then ""
      else if parts.scheme == "" && parts.netloc == ""
      then stripped
      else if not (parts.scheme == "") && not (contains allowed_url_schemes (lower parts.scheme))
      then ""
      else urlunsplit (canonical_parts parts)
