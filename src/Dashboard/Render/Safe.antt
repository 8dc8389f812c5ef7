-- ===== src/Dashboard/Render/Safe.antt =====
-- What a rendered description may hold.
use job_aggregator.Prelude.{
  map, ℕ, zero, suc, ◌+◌, ◌-◌, ◌≤◌, inl, inr, String, Bool, true, false, not, ◌&&◌, Option, none,
  some, List, [], ◌∷◌, ◌++◌, ◌==◌, ◌≡◌, refl, All, arith, contains, count, eqb, leb, ltb, total,
  Bool-cases,
}
use mathlib.Core.Path.{subst}
use text.Mathlib.TextLemmas.{nil-append, cons-append}
use Prim.Native.String.{◌++◌ as text_append}
use job_aggregator.Resume.Guard.Bullets.{All-append}
use job_aggregator.Resume.Words.{join_texts, text_length}
use job_aggregator.Errors.{◌>>=◌, Result, ok, raise}
use job_aggregator.Dashboard.Render.{
  checked_href, render_self_closing, render_description_html, print_part, rendered, render_data,
  Event, start_tag, start_end_tag, end_tag, text_data, Html, Part, open_tag, close_tag, link,
  close_link, plain, Renderer, emit_tags, skip_tags, safe_schemes, text_take, rewrite_tag,
  safe_href, open_link, shut_link, render_open, render_close, render_start, render_end, render_text,
  render, render_all, fresh,
}

pub length-append : (s t : String) → text_length (text_append s t) ≡ text_length s + text_length t
length-append String.[] t = rw (nil-append t) (omega arith)
length-append (String.◌∷◌ c s) t =
    let rest = length-append s t in rw (cons-append c s t) (omega arith)

pub length-text_take : (n : ℕ) (t : String) → text_length (text_take n t) ≤ n
unfolding text_take
length-text_take zero t = omega arith
length-text_take (suc n) String.[] = omega arith
length-text_take (suc n) (String.◌∷◌ c t) = omega (arith, length-text_take n t)

total-append :
    {A : Type 0} (f : A → ℕ) (xs : List A) (x : A) → total f (xs ++ x ∷ []) ≡ total f xs + f x
total-append f [] x = omega arith
total-append f (y ∷ xs) x = omega (arith, total-append f xs x)

abbrev pub shown_length : Part → ℕ
shown_length (plain t) = text_length t
shown_length _ = 0

abbrev pub n_opened : Part → ℕ
n_opened (link href) = 1
n_opened _ = 0

abbrev pub n_closed : Part → ℕ
n_closed close_link = 1
n_closed _ = 0

abbrev is_true : Bool → Bool
is_true b = b

-- The tags that a description may have, and the schemes of its links.
abbrev pub allowed_tags : List String
allowed_tags = "p" ∷ "br" ∷ "ul" ∷ "ol" ∷ "li" ∷ "strong" ∷ "em" ∷ "code" ∷ "pre" ∷ "h3" ∷ "h4" ∷ []

abbrev pub allowed_schemes : List String
allowed_schemes = "http" ∷ "https" ∷ "mailto" ∷ []

-- A printed piece of a description: a bare tag of the list, a link whose escaped address has an allowed
-- scheme, its end, or an escaped text.
pub data IsSafe (html : Html) : String → Type 0 where
  opening :
      (tag : String)
      → contains allowed_tags tag ≡ true
      → IsSafe html (text_append "<" (text_append tag ">"))
  closing :
      (tag : String)
      → contains allowed_tags tag ≡ true
      → IsSafe html (text_append "</" (text_append tag ">"))
  anchor :
      (href s : String)
      → html.scheme href ≡ some s
      → contains allowed_schemes s ≡ true
      → IsSafe html (
          text_append "<a href=\"" (
            text_append
              (html.escape href)
              "\" target=\"_blank\" rel=\"noopener nofollow noreferrer\">"))
  anchor_end : IsSafe html "</a>"
  escaped : (t : String) → IsSafe html (html.escape t)

and_first : (a b : Bool) → (a && b) ≡ true → a ≡ true
and_first a b h = ground arith

module _ (html : Html) where
  -- What holds of a result; an exception comes from an href that urlparse refuses.
  abbrev pub OnOk : {A : Type 0} → (A → Type 0) → Result A → Type 0
  OnOk P (ok a) = P a
  OnOk P (raise e) = (href : String) × (html.scheme href ≡ none)

  abbrev pub Prints : Part → Type 0
  Prints p = IsSafe html (print_part html p)

  -- The parts are safe, the texts are counted and within the cap, and every link that was closed
  -- had been opened.
  pub record IsSound (x : Renderer) : Type 0 where
    pub safe : All Prints x.parts
    pub counted : total shown_length x.parts ≡ x.chars
    pub cap : x.chars ≤ 12000
    pub balanced : total n_opened x.parts ≡ total n_closed x.parts + count is_true x.a_stack

  open-Prints : (tag : String) → contains emit_tags tag ≡ true → Prints (open_tag tag)
  unfolding print_part
  open-Prints tag h = opening tag h

  close-Prints : (tag : String) → contains emit_tags tag ≡ true → Prints (close_tag tag)
  unfolding print_part
  close-Prints tag h = closing tag h

  end-Prints : Prints close_link
  unfolding print_part
  end-Prints = anchor_end

  text-Prints : (t : String) → Prints (plain t)
  unfolding print_part
  text-Prints t = escaped t

  link-Prints :
      (href s : String)
      → html.scheme href ≡ some s
      → contains safe_schemes s ≡ true
      → Prints (link href)
  unfolding print_part
  link-Prints href s known safe = anchor href s known safe

  -- The scheme of a link that is kept is allowed.
  abbrev HrefSafe : Option String → Type 0
  HrefSafe none = Unit
  HrefSafe (some h) = Prints (link h)

  checked_href-safe :
      (value : String) (rest : Result (Option String)) (found : Option String)
      → html.scheme value ≡ found
      → OnOk HrefSafe rest
      → OnOk HrefSafe (checked_href html value rest found)
  checked_href-safe value rest none known h = (value, known)
  checked_href-safe value rest (some s) known h = elim (Bool-cases (contains safe_schemes s)) [
    | inl e ↦ rw e (link-Prints value s known e)
    | inr e ↦ rw e h
  ]

  safe_href-safe : (attrs : List (String × Option String)) → OnOk HrefSafe (safe_href html attrs)
  unfolding safe_href
  safe_href-safe [] = tt
  safe_href-safe ((name, none) ∷ attrs) = safe_href-safe attrs
  safe_href-safe ((name, some value) ∷ attrs) =
      elim (Bool-cases (name == "href" && not (value == ""))) [
        | inl e ↦ rw (e, safe_href) (checked_href-safe value _ _ refl (safe_href-safe attrs))
        | inr e ↦ rw (e, safe_href) (safe_href-safe attrs)
      ]

  open_link-IsSound :
      (href : Result (Option String)) (x : Renderer)
      → OnOk HrefSafe href
      → IsSound x
      → OnOk IsSound (open_link html href x)
  unfolding open_link
  open_link-IsSound (raise e) x safe h = safe
  open_link-IsSound (ok none) x safe h = record {
    safe = h.safe;
    counted = h.counted;
    cap = h.cap;
    balanced = omega (arith, h.balanced);
  }
  open_link-IsSound (ok (some href)) x safe h = record {
    safe = All-append Prints x.parts (link href) h.safe safe;
    counted = omega (arith, h.counted, total-append shown_length x.parts (link href));
    cap = h.cap;
    balanced = omega (
      arith,
      h.balanced,
      total-append n_opened x.parts (link href),
      total-append n_closed x.parts (link href),
    );
  }

  -- A part that is neither a link nor its end.
  append-IsSound :
      (part : Part) (x : Renderer)
      → Prints part
      → shown_length part ≡ 0
      → n_opened part ≡ 0
      → n_closed part ≡ 0
      → IsSound x
      → IsSound (record x { parts = x.parts ++ part ∷ [] })
  append-IsSound part x safe no_text no_open no_close h = record {
    safe = All-append Prints x.parts part h.safe safe;
    counted = omega (arith, h.counted, total-append shown_length x.parts part);
    cap = h.cap;
    balanced =
        omega (
          arith,
          h.balanced,
          total-append n_opened x.parts part,
          total-append n_closed x.parts part,
        );
  }

  shut_link-IsSound :
      (stack : List Bool) (x : Renderer)
      → x.a_stack ≡ stack
      → IsSound x
      → IsSound (shut_link html stack x)
  unfolding shut_link
  shut_link-IsSound [] x same h = h
  shut_link-IsSound (true ∷ rest) x same h =
      let balance : total n_opened x.parts ≡ total n_closed x.parts + count is_true (true ∷ rest) =
        subst (λ (s : List Bool). total n_opened x.parts ≡ total n_closed x.parts + count is_true s)
          same h.balanced in
      record {
        safe = All-append Prints x.parts close_link h.safe end-Prints;
        counted = omega (arith, h.counted, total-append shown_length x.parts close_link);
        cap = h.cap;
        balanced = omega (
          arith,
          balance,
          total-append n_opened x.parts close_link,
          total-append n_closed x.parts close_link,
        );
      }
  shut_link-IsSound (false ∷ rest) x same h =
      let balance : total n_opened x.parts ≡ total n_closed x.parts + count is_true (false ∷ rest) =
        subst (λ (s : List Bool). total n_opened x.parts ≡ total n_closed x.parts + count is_true s)
          same h.balanced in
      record { safe = h.safe; counted = h.counted; cap = h.cap; balanced = omega (arith, balance) }

  render_open-IsSound : (tag : String) (x : Renderer) → IsSound x → IsSound (render_open html tag x)
  unfolding render_open
  render_open-IsSound tag x h = elim (Bool-cases (contains emit_tags tag)) [
    | inl e ↦
        rw (e, render_open) (append-IsSound (open_tag tag) x (open-Prints tag e) refl refl refl h)
    | inr e ↦ rw (e, render_open) h
  ]

  render_close-IsSound :
      (tag : String) (x : Renderer) → IsSound x → IsSound (render_close html tag x)
  unfolding render_close
  render_close-IsSound tag x h = elim (Bool-cases (contains emit_tags tag && not (tag == "br"))) [
    | inl e ↦
        rw (e, render_close)
          (append-IsSound (close_tag tag) x (close-Prints tag (and_first _ _ e)) refl refl refl h)
    | inr e ↦ rw (e, render_close) h
  ]

  skip-IsSound : (n : ℕ) (x : Renderer) → IsSound x → IsSound (record x { skip = n })
  skip-IsSound n x h = record {
    safe = h.safe;
    counted = h.counted;
    cap = h.cap;
    balanced = h.balanced;
  }

  render_start-IsSound :
      (tag : String) (attrs : List (String × Option String)) (x : Renderer)
      → IsSound x
      → OnOk IsSound (render_start html tag attrs x)
  unfolding render_start
  render_start-IsSound tag attrs x h = elim (Bool-cases (contains skip_tags tag)) [
    | inl e ↦ rw (e, render_start) (skip-IsSound (x.skip + 1) x h)
    | inr e ↦ elim (Bool-cases (eqb x.skip 0)) [
      | inr skipped ↦ rw (e, skipped, render_start) h
      | inl kept ↦ elim (Bool-cases (rewrite_tag tag == "a")) [
        | inl a ↦
            rw (e, kept, a, render_start)
              (open_link-IsSound (safe_href html attrs) x (safe_href-safe attrs) h)
        | inr b ↦ rw (e, kept, b, render_start) (render_open-IsSound (rewrite_tag tag) x h)
      ]
    ]
  ]

  render_end-IsSound : (tag : String) (x : Renderer) → IsSound x → IsSound (render_end html tag x)
  unfolding render_end
  render_end-IsSound tag x h = elim (Bool-cases (contains skip_tags tag)) [
    | inl e ↦ rw (e, render_end) (skip-IsSound (x.skip - 1) x h)
    | inr e ↦ elim (Bool-cases (eqb x.skip 0)) [
      | inr skipped ↦ rw (e, skipped, render_end) h
      | inl kept ↦ elim (Bool-cases (rewrite_tag tag == "a")) [
        | inl a ↦ rw (e, kept, a, render_end) (shut_link-IsSound x.a_stack x refl h)
        | inr b ↦ rw (e, kept, b, render_end) (render_close-IsSound (rewrite_tag tag) x h)
      ]
    ]
  ]

  render_text-IsSound :
      (t : String) (x : Renderer)
      → x.chars + text_length t ≤ 12000
      → IsSound x
      → IsSound (render_text html t x)
  unfolding render_text
  render_text-IsSound t x room h = record {
    safe = All-append Prints x.parts (plain t) h.safe (text-Prints t);
    counted = omega (arith, h.counted, total-append shown_length x.parts (plain t));
    cap = room;
    balanced = omega (
      arith,
      h.balanced,
      total-append n_opened x.parts (plain t),
      total-append n_closed x.parts (plain t),
    );
  }

  render_data-IsSound : (t : String) (x : Renderer) → IsSound x → IsSound (render_data html t x)
  unfolding render_data
  render_data-IsSound t x h = elim (Bool-cases (eqb x.skip 0)) [
    | inr skipped ↦ rw (skipped, render_data) h
    | inl kept ↦ elim (Bool-cases (leb 12000 x.chars)) [
      | inl full ↦ rw (kept, full, render_data) h
      | inr room ↦ elim (Bool-cases (ltb (12000 - x.chars) (text_length t))) [
        | inl long ↦
            let cut = length-text_take (12000 - x.chars) t in
            rw (kept, room, long, render_data)
              (render_text-IsSound (text_take (12000 - x.chars) t) x (ground arith) h)
        | inr short ↦ rw (kept, room, short, render_data) (render_text-IsSound t x (ground arith) h)
      ]
    ]
  ]

  render_self_closing-IsSound :
      (tag : String) (x : Renderer) → IsSound x → IsSound (render_self_closing html tag x)
  unfolding render_self_closing
  render_self_closing-IsSound tag x h = elim (Bool-cases (eqb x.skip 0)) [
    | inl e ↦ rw (e, render_self_closing) (render_open-IsSound (rewrite_tag tag) x h)
    | inr e ↦ rw (e, render_self_closing) h
  ]

  render-IsSound : (e : Event) (x : Renderer) → IsSound x → OnOk IsSound (render html e x)
  unfolding render
  render-IsSound (start_tag tag attrs) x h = render_start-IsSound tag attrs x h
  render-IsSound (start_end_tag tag attrs) x h = render_self_closing-IsSound tag x h
  render-IsSound (end_tag tag) x h = render_end-IsSound tag x h
  render-IsSound (text_data t) x h = render_data-IsSound t x h

  bind-OnOk :
      (m : Result Renderer) (f : Renderer → Result Renderer)
      → OnOk IsSound m
      → ((x : Renderer) → IsSound x → OnOk IsSound (f x))
      → OnOk IsSound (m >>= f)
  bind-OnOk (ok x) f h next = next x h
  bind-OnOk (raise e) f h next = h

  render_all-IsSound :
      (events : List Event) (x : Renderer) → IsSound x → OnOk IsSound (render_all html events x)
  unfolding render_all
  render_all-IsSound [] x h = h
  render_all-IsSound (e ∷ events) x h =
      bind-OnOk (render html e x) (render_all html events) (render-IsSound e x h)
        (render_all-IsSound events)

  -- The text of a description: nothing, or the stripped join of safe pieces.
  pub data IsClean (text : String) : Type 0 where
    empty : text ≡ "" → IsClean text
    joined :
        (parts : List Part)
        → text ≡ html.strip (join_texts "" (map (print_part html) parts))
        → All Prints parts
        → total shown_length parts ≤ 12000
        → total n_closed parts ≤ total n_opened parts
        → IsClean text

  rendered-IsClean : (x : Renderer) → IsSound x → IsClean (rendered html x)
  rendered-IsClean x h = elim (Bool-cases x.has_text) [
    | inl e ↦
        rw e
          (joined x.parts refl h.safe (omega (arith, h.counted, h.cap)) (omega (arith, h.balanced)))
    | inr e ↦ rw e (empty refl)
  ]

  finish-IsClean :
      (m : Result Renderer) → OnOk IsSound m → OnOk IsClean (m >>= λ x. ok (rendered html x))
  finish-IsClean (ok x) h = rendered-IsClean x h
  finish-IsClean (raise e) h = h

  -- Whatever the calls of the parser for a description, its rendering is empty or the stripped join of
  -- printed pieces, each of them a bare tag of the eleven allowed ones, a link that opens a new window
  -- and whose escaped address has the scheme http, https or mailto, the end of a link, or an escaped
  -- text; the texts have at most 12000 characters before they are escaped, and no more links are
  -- closed than were opened. It raises only if urlparse refuses
  -- some address.
  pub render_description_html-IsClean :
      (raw : String) (events : List Event)
      → OnOk IsClean (render_description_html html (some (raw, events)))
  unfolding render_description_html
  render_description_html-IsClean raw events = elim (Bool-cases (raw == "")) [
    | inl e ↦ rw (e, render_description_html) (empty refl)
    | inr e ↦
        rw (e, render_description_html)
          (finish-IsClean _ (
            render_all-IsSound events (fresh html)
              (record { safe = tt; counted = refl; cap = omega arith; balanced = refl })))
  ]
