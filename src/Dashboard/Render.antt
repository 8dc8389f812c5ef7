-- ===== src/Dashboard/Render.antt =====
-- dashboard/routes_jobs.py: the two readers of an HTML description. The calls that HTMLParser makes
-- for a text are its events: html_to_text calls feed alone, and the renderer feed and close, which may
-- give more events. html.escape, urlparse and the text methods are parameters.
pub mod Safe
pub mod Texts
pub mod Visible
pub mod Shown
use Prim.Native.String
use Prim.Native.String.{◌++◌ as text_append}
use job_aggregator.Prelude.{
  ℕ, zero, suc, ◌+◌, ◌-◌, String, Bool, true, false, not, ◌&&◌, ◌||◌, Option, none, some, List, [],
  ◌∷◌, ◌++◌, ◌==◌, contains, eqb, filter, if◌then◌else◌, leb, ltb, map, min,
}
use job_aggregator.Errors.{Result, ok, raise, ◌>>=◌, value_error}
use job_aggregator.Resume.Words.{join_texts, text_length}

pub data Event : Type 0 where
  -- with the attributes, whose value may be missing
  start_tag : String → List (String × Option String) → Event
  -- the self-closing form
  start_end_tag : String → List (String × Option String) → Event
  end_tag : String → Event
  text_data : String → Event

pub record Html : Type 0 where
  -- html.escape
  pub escape : String → String
  -- urlparse(value).scheme.lower(), `none` for the ValueError of urlparse
  pub scheme : String → Option String
  pub strip : String → String
  pub splitlines : String → List String

abbrev pub max_desc_chars : ℕ
max_desc_chars = 12000

abbrev pub block_tags : List String
block_tags =
    "p" ∷ "div" ∷ "li" ∷ "ul" ∷ "ol" ∷ "tr" ∷ "section" ∷ "article" ∷ "header" ∷ "footer"
    ∷ "blockquote" ∷ "h1" ∷ "h2" ∷ "h3" ∷ "h4" ∷ "h5" ∷ "h6" ∷ []

abbrev pub skip_tags : List String
skip_tags = "script" ∷ "style" ∷ "noscript" ∷ []

abbrev pub emit_tags : List String
emit_tags = "p" ∷ "br" ∷ "ul" ∷ "ol" ∷ "li" ∷ "strong" ∷ "em" ∷ "code" ∷ "pre" ∷ "h3" ∷ "h4" ∷ []

abbrev pub safe_schemes : List String
safe_schemes = "http" ∷ "https" ∷ "mailto" ∷ []

-- text[:n]
unfoldable pub text_take : ℕ → String → String
text_take zero t = ""
text_take (suc n) String.[] = ""
text_take (suc n) (String.◌∷◌ c t) = String.◌∷◌ c (text_take n t)

-- _TAG_REWRITE.get(tag, tag)
unfoldable pub rewrite_tag : String → String
rewrite_tag tag =
    if tag == "b"
    then "strong"
    else if tag == "i"
    then "em"
    else if tag == "h1" || tag == "h2"
    then "h3"
    else tag

-- What _TextExtractor appends: a newline or a text.
pub data Piece : Type 0 where
  line_break : Piece
  prose : String → Piece

pub record Extractor : Type 0 where
  pub parts : List Piece
  pub skip : ℕ

unfoldable pub extract_start : String → Extractor → Extractor
extract_start tag x =
    if contains skip_tags tag
    then record x { skip = x.skip + 1 }
    else if tag == "br"
    then record x { parts = x.parts ++ line_break ∷ [] }
    else x

unfoldable pub extract_end : String → Extractor → Extractor
extract_end tag x =
    if contains skip_tags tag
    then record x { skip = x.skip - 1 }
    else if contains block_tags tag
    then record x { parts = x.parts ++ line_break ∷ [] }
    else x

-- HTMLParser.handle_startendtag, which the class keeps, calls the two handlers in turn.
unfoldable pub extract : Event → Extractor → Extractor
unfolding extract_start extract_end
extract (start_tag tag attrs) x = extract_start tag x
extract (start_end_tag tag attrs) x = extract_end tag (extract_start tag x)
extract (end_tag tag) x = extract_end tag x
extract (text_data data') x =
    if eqb x.skip 0 then record x { parts = x.parts ++ prose data' ∷ [] } else x

unfoldable pub extract_all : List Event → Extractor → Extractor
unfolding extract
extract_all [] x = x
extract_all (e ∷ events) x = extract_all events (extract e x)

abbrev pub piece_text : Piece → String
piece_text line_break = "\n"
piece_text (prose t) = t

-- What _SafeHtmlRenderer appends: an allowlisted tag, a link or a text. The last two hold what is
-- printed escaped.
pub data Part : Type 0 where
  open_tag close_tag : String → Part
  link : String → Part
  close_link : Part
  plain : String → Part

pub record Renderer : Type 0 where
  pub parts : List Part
  pub skip : ℕ
  pub chars : ℕ
  pub has_text : Bool
  pub a_stack : List Bool

abbrev pub append_part : Part → Renderer → Renderer
append_part part x = record x { parts = x.parts ++ part ∷ [] }

module _ (html : Html) where
  open html use {escape, scheme, strip, splitlines}

  unfoldable pub html_to_text : Option (String × List Event) → String
  unfolding extract_all join_texts text_take
  html_to_text none = ""
  html_to_text (some (raw, events)) =
      if raw == ""
      then ""
      else let x = extract_all events (record { parts = []; skip = 0 }) in
        let lines = map strip (splitlines (join_texts "" (map piece_text x.parts))) in
        text_take max_desc_chars (strip (join_texts "\n" (filter (λ l. not (l == "")) lines)))

  -- One non-empty href, with what the rest of the attributes gives.
  abbrev pub checked_href : String → Result (Option String) → Option String → Result (Option String)
  checked_href value rest none = raise value_error
  checked_href value rest (some s) = if contains safe_schemes s then ok (some value) else rest

  -- _safe_href: the first href with a safe scheme. An href that urlparse refuses raises.
  unfoldable pub safe_href : List (String × Option String) → Result (Option String)
  safe_href [] = ok none
  safe_href ((name, none) ∷ attrs) = safe_href attrs
  safe_href ((name, some value) ∷ attrs) =
      let rest = safe_href attrs in
      if name == "href" && not (value == "") then checked_href value rest (scheme value) else rest

  -- handle_starttag for a link
  unfoldable pub open_link : Result (Option String) → Renderer → Result Renderer
  open_link (raise e) x = raise e
  open_link (ok none) x = ok (record x { a_stack = false ∷ x.a_stack })
  open_link (ok (some href)) x =
      ok (record x { parts = x.parts ++ link href ∷ []; a_stack = true ∷ x.a_stack })

  -- handle_endtag for a link
  unfoldable pub shut_link : List Bool → Renderer → Renderer
  shut_link [] x = x
  shut_link (emitted ∷ rest) x = record x {
    parts = if emitted then x.parts ++ close_link ∷ [] else x.parts;
    a_stack = rest;
  }

  unfoldable pub render_open : String → Renderer → Renderer
  render_open tag x = if contains emit_tags tag then append_part (open_tag tag) x else x

  unfoldable pub render_close : String → Renderer → Renderer
  render_close tag x =
      if contains emit_tags tag && not (tag == "br") then append_part (close_tag tag) x else x

  unfoldable pub render_start : String → List (String × Option String) → Renderer → Result Renderer
  unfolding rewrite_tag open_link safe_href render_open
  render_start tag attrs x =
      if contains skip_tags tag
      then ok (record x { skip = x.skip + 1 })
      else if not (eqb x.skip 0)
      then ok x
      else if rewrite_tag tag == "a"
      then open_link (safe_href attrs) x
      else ok (render_open (rewrite_tag tag) x)

  unfoldable pub render_end : String → Renderer → Renderer
  unfolding rewrite_tag shut_link render_close
  render_end tag x =
      if contains skip_tags tag
      then record x { skip = x.skip - 1 }
      else if not (eqb x.skip 0)
      then x
      else if rewrite_tag tag == "a"
      then shut_link x.a_stack x
      else render_close (rewrite_tag tag) x

  -- handle_data for a text cut to what remains.
  unfoldable pub render_text : String → Renderer → Renderer
  render_text shown x = record x {
    parts = x.parts ++ plain shown ∷ [];
    chars = x.chars + text_length shown;
    has_text = x.has_text || not (strip shown == "");
  }

  -- handle_startendtag
  unfoldable pub render_self_closing : String → Renderer → Renderer
  unfolding rewrite_tag render_open
  render_self_closing tag x = if eqb x.skip 0 then render_open (rewrite_tag tag) x else x

  -- handle_data
  unfoldable pub render_data : String → Renderer → Renderer
  unfolding render_text text_take
  render_data data' x =
      let remaining = max_desc_chars - x.chars in
      if not (eqb x.skip 0)
      then x
      else if leb max_desc_chars x.chars
      then x
      else if ltb remaining (text_length data')
      then render_text (text_take remaining data') x
      else render_text data' x

  unfoldable pub render : Event → Renderer → Result Renderer
  unfolding render_start render_end render_self_closing render_data
  render (start_tag tag attrs) x = render_start tag attrs x
  render (start_end_tag tag attrs) x = ok (render_self_closing tag x)
  render (end_tag tag) x = ok (render_end tag x)
  render (text_data data') x = ok (render_data data' x)

  unfoldable pub render_all : List Event → Renderer → Result Renderer
  unfolding render
  render_all [] x = ok x
  render_all (e ∷ events) x = render e x >>= render_all events

  abbrev pub fresh : Renderer
  fresh = record { parts = []; skip = 0; chars = 0; has_text = false; a_stack = [] }

  unfoldable pub print_part : Part → String
  print_part (open_tag tag) = text_append "<" (text_append tag ">")
  print_part (close_tag tag) = text_append "</" (text_append tag ">")
  print_part (link href) =
      text_append "<a href=\""
        (text_append (escape href) "\" target=\"_blank\" rel=\"noopener nofollow noreferrer\">")
  print_part close_link = "</a>"
  print_part (plain shown) = escape shown

  -- What is returned once all events are rendered.
  abbrev pub rendered : Renderer → String
  rendered x = if x.has_text then strip (join_texts "" (map print_part x.parts)) else ""

  unfoldable pub render_description_html : Option (String × List Event) → Result String
  unfolding render_all join_texts print_part
  render_description_html none = ok ""
  render_description_html (some (raw, events)) =
      if raw == "" then ok "" else (render_all events fresh >>= λ x. ok (rendered x))
