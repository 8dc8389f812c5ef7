-- ===== src/Dashboard/Render/Texts.antt =====
-- The texts that the two readers of a description have kept, joined.
use Prim.Native.String.{◌++◌ as text_append}
use text.Mathlib.TextLemmas.{append-nil, nil-append, cons-append, append_assoc}
use job_aggregator.Prelude.{
  ℕ, zero, suc, ◌-◌, ◌≤◌, String, List, [], ◌∷◌, ◌++◌, ◌≡◌, refl, sym, ◌∙◌, ap, arith,
}
use job_aggregator.Resume.Words.{text_length}
use job_aggregator.Dashboard.Render.{
  Part, open_tag, close_tag, link, close_link, plain, Piece, line_break, prose, text_take,
}

-- The texts among the parts, joined.
abbrev pub shown : List Part → String
shown [] = ""
shown (plain t ∷ parts) = text_append t (shown parts)
shown (_ ∷ parts) = shown parts

abbrev pub prose_of : List Piece → String
prose_of [] = ""
prose_of (prose t ∷ parts) = text_append t (prose_of parts)
prose_of (line_break ∷ parts) = prose_of parts

abbrev pub part_text : Part → String
part_text (plain t) = t
part_text _ = ""

pub shown-append :
    (parts : List Part) (p : Part)
    → shown (parts ++ p ∷ []) ≡ text_append (shown parts) (part_text p)
shown-append [] (plain t) = append-nil t ∙ sym (nil-append t)
shown-append [] (open_tag t) = sym (append-nil "")
shown-append [] (close_tag t) = sym (append-nil "")
shown-append [] (link t) = sym (append-nil "")
shown-append [] close_link = sym (append-nil "")
shown-append (plain t ∷ parts) p =
    ap (text_append t) (shown-append parts p) ∙ sym (append_assoc t (shown parts) (part_text p))
shown-append (open_tag t ∷ parts) p = shown-append parts p
shown-append (close_tag t ∷ parts) p = shown-append parts p
shown-append (link t ∷ parts) p = shown-append parts p
shown-append (close_link ∷ parts) p = shown-append parts p

pub prose_of-append :
    (parts : List Piece) (t : String)
    → prose_of (parts ++ prose t ∷ []) ≡ text_append (prose_of parts) t
prose_of-append [] t = append-nil t ∙ sym (nil-append t)
prose_of-append (prose s ∷ parts) t =
    ap (text_append s) (prose_of-append parts t) ∙ sym (append_assoc s (prose_of parts) t)
prose_of-append (line_break ∷ parts) t = prose_of-append parts t

pub prose_of-line_break :
    (parts : List Piece) → prose_of (parts ++ line_break ∷ []) ≡ prose_of parts
prose_of-line_break [] = refl
prose_of-line_break (prose s ∷ parts) = ap (text_append s) (prose_of-line_break parts)
prose_of-line_break (line_break ∷ parts) = prose_of-line_break parts

pub take-append :
    (n : ℕ) (s t : String)
    → text_take n (text_append s t)
      ≡ text_append (text_take n s) (text_take (n - text_length (text_take n s)) t)
unfolding text_take
take-append zero s t = sym (append-nil "")
take-append (suc n) String.[] t =
    let whole : suc n - 0 ≡ suc n = omega arith in
    rw (nil-append t, whole) (sym (nil-append (text_take (suc n) t)))
take-append (suc n) (String.◌∷◌ c s) t =
    let left : suc n - suc (text_length (text_take n s)) ≡ n - text_length (text_take n s) =
      omega arith in
    rw (cons-append c s t, left)
      (ap (String.◌∷◌ c) (take-append n s t)
        ∙ sym (cons-append c (text_take n s) (text_take (n - text_length (text_take n s)) t)))

pub take-all : (n : ℕ) (t : String) → text_length t ≤ n → text_take n t ≡ t
unfolding text_take
take-all zero String.[] h = refl
take-all zero (String.◌∷◌ c t) h = absurd (omega (arith, h))
take-all (suc n) String.[] h = refl
take-all (suc n) (String.◌∷◌ c t) h = ap (String.◌∷◌ c) (take-all n t (omega (arith, h)))
