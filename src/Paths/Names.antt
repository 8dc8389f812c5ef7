-- ===== src/Paths/Names.antt =====
-- What the names of résumés look like.
use job_aggregator.Prelude.{
  All-reverse, ℕ, ◌≤◌, ◌<◌, Bool, true, false, ◌||◌, List, [], ◌∷◌, ◌≡◌, refl, ◌∙◌, ap, All, arith,
  eqb, length, length-append, length-take, reverse, reverse-append, take, Bool-cases, inl, inr,
}
use job_aggregator.Pipeline.Dedup.{Word, is_alnum}
use job_aggregator.Resume.Guard.Bullets.{All-take}
use job_aggregator.Paths.{dashed, strip_left, strip_dashes, or_unknown, slug, slug_max}

-- [a-z0-9-]
abbrev pub IsSlugChar : ℕ → Type 0
IsSlugChar c = (is_alnum c || eqb c 45) ≡ true

length-reversed : {A : Type 0} (xs : List A) → length (reverse xs) ≡ length xs
length-reversed [] = refl
length-reversed (x ∷ xs) =
    ap length (reverse-append (x ∷ []) xs)
    ∙ omega (arith, length-append (reverse xs) (x ∷ []), length-reversed xs)

dashed-All : (in_run : Bool) (w : Word) → All IsSlugChar (dashed in_run w)
unfolding dashed
dashed-All in_run [] = tt
dashed-All in_run (c ∷ w) = elim (Bool-cases (is_alnum c)) [
  | inl e ↦ rw e (ground (arith, e), dashed-All false w)
  | inr e ↦ elim (Bool-cases in_run) [
    | inl b ↦ rw (e, b) (dashed-All true w)
    | inr b ↦ rw (e, b) (ground arith, dashed-All true w)
  ]
]

module _ (P : ℕ → Type 0) where
  strip_left-All : (w : Word) → All P w → All P (strip_left w)
  unfolding strip_left
  strip_left-All [] h = tt
  strip_left-All (c ∷ w) h = elim (Bool-cases (eqb c 45)) [
    | inl e ↦ rw e (strip_left-All w (h.1))
    | inr e ↦ rw e h
  ]

  strip_dashes-All : (w : Word) → All P w → All P (strip_dashes w)
  unfolding strip_dashes
  strip_dashes-All w h =
      All-reverse P (strip_left (reverse (strip_left w))) (
        strip_left-All (reverse (strip_left w)) (All-reverse P (strip_left w) (strip_left-All w h)))

length-strip_left : (w : Word) → length (strip_left w) ≤ length w
unfolding strip_left
length-strip_left [] = omega arith
length-strip_left (c ∷ w) = ground (arith, length-strip_left w)

length-strip_dashes : (w : Word) → length (strip_dashes w) ≤ length w
unfolding strip_dashes
length-strip_dashes w =
    let once = strip_left w in
    omega (
      arith,
      length-reversed (strip_left (reverse once)),
      length-strip_left (reverse once),
      length-reversed once,
      length-strip_left w,
    )

-- Not empty, at most 48 characters, and only those that a file name may hold.
pub record IsSlug (w : Word) : Type 0 where
  pub allowed : All IsSlugChar w
  pub there : 0 < length w
  pub short : length w ≤ 48

or_unknown-IsSlug : (w : Word) → All IsSlugChar w → length w ≤ 48 → IsSlug (or_unknown w)
unfolding is_alnum
or_unknown-IsSlug [] h short = record {
  allowed = (refl, (refl, (refl, (refl, (refl, (refl, (refl, tt)))))));
  there = omega arith;
  short = omega arith;
}
or_unknown-IsSlug (c ∷ w) h short = record { allowed = h; there = omega arith; short = short }

-- Whatever a job board writes as a company or a title, its part of a file name has one to 48
-- characters, all of them small letters, digits and dashes.
pub slug-IsSlug : (lower : Word → Word) (text : Word) → IsSlug (slug lower text)
unfolding slug
slug-IsSlug lower text =
    let whole = strip_dashes (dashed false (lower text)) in
    let allowed = strip_dashes-All IsSlugChar _ (dashed-All false (lower text)) in
    let part = take slug_max whole in
    or_unknown-IsSlug (strip_dashes part)
      (strip_dashes-All IsSlugChar part (All-take IsSlugChar slug_max whole allowed))
      (omega (arith, length-strip_dashes part, length-take 48 whole))
