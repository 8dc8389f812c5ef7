-- ===== src/Pipeline/Dedup/Words.antt =====
-- Splitting into words and joining them again, and that normal forms are stable.
use job_aggregator.Prelude.{
  ℕ, ◌<◌, true, ◌||◌, List, [], ◌∷◌, ◌++◌, map, eqb, ◌≡◌, refl, ap, ap₂, ◌∙◌, All, arith,
  Bool-cases, inl, inr,
}
use job_aggregator.Pipeline.Dedup.{
  Word, is_alnum, lower, push, chunk, split, join, tokens, norm_title,
}

-- A word of [a-z0-9]+.
abbrev pub IsWord : Word → Type 0
IsWord [] = ⊥
IsWord (c ∷ w) = All (λ (d : ℕ). is_alnum d ≡ true) (c ∷ w)

-- A letter of a normal form: a lower-case letter, a digit or the space.
abbrev pub IsPlain : ℕ → Type 0
IsPlain c = (is_alnum c || eqb c 32) ≡ true

push-IsWord :
    (w : Word) (words : List Word)
    → All (λ (d : ℕ). is_alnum d ≡ true) w
    → All IsWord words
    → All IsWord (push w words)
push-IsWord [] words h k = k
push-IsWord (c ∷ w) words h k = (h, k)

chunk-IsWord :
    (text : List ℕ) → All (λ (d : ℕ). is_alnum d ≡ true) (chunk text).0 × All IsWord (chunk text).1
unfolding chunk
chunk-IsWord [] = (tt, tt)
chunk-IsWord (c ∷ text) =
    let (h, k) = chunk-IsWord text in
    elim (Bool-cases (is_alnum c)) [
      | inl e ↦ rw e ((e, h), k)
      | inr e ↦ rw e (tt, push-IsWord _ _ h k)
    ]

pub split-IsWord : (text : List ℕ) → All IsWord (split text)
unfolding split
split-IsWord text = let (h, k) = chunk-IsWord text in push-IsWord _ _ h k

chunk-word : (w : Word) → All (λ (d : ℕ). is_alnum d ≡ true) w → chunk w ≡ (w, [])
unfolding chunk
chunk-word [] h = refl
chunk-word (c ∷ w) h = rw (h.0, chunk-word w h.1)

chunk-word_space :
    (w : Word) (text : List ℕ)
    → All (λ (d : ℕ). is_alnum d ≡ true) w
    → chunk (w ++ (32 ∷ text)) ≡ (w, split text)
unfolding chunk split is_alnum
chunk-word_space [] text h = refl
chunk-word_space (c ∷ w) text h = rw (h.0, chunk-word_space w text h.1)

letters : (w : Word) → IsWord w → All (λ (d : ℕ). is_alnum d ≡ true) w
letters [] h = absurd h
letters (c ∷ w) h = h

push-word : (w : Word) (words : List Word) → IsWord w → push w words ≡ w ∷ words
push-word [] words h = absurd h
push-word (c ∷ w) words h = refl

-- Splitting a joined list of words gives the words back.
pub split-join : (words : List Word) → All IsWord words → split (join words) ≡ words
unfolding split join
split-join [] h = refl
split-join (w ∷ []) h = rw (chunk-word w (letters w h.0)) (push-word w [] h.0)
split-join (w ∷ (v ∷ words)) h =
    rw (chunk-word_space w (join (v ∷ words)) (letters w h.0))
      (push-word w _ h.0 ∙ ap (◌∷◌ w) (split-join (v ∷ words) h.1))

word-IsPlain : (w : Word) → All (λ (d : ℕ). is_alnum d ≡ true) w → All IsPlain w
word-IsPlain [] h = tt
word-IsPlain (c ∷ w) h = (rw h.0, word-IsPlain w h.1)

IsPlain-append :
    (v : Word) (text : List ℕ)
    → All (λ (d : ℕ). is_alnum d ≡ true) v
    → All IsPlain text
    → All IsPlain (v ++ text)
IsPlain-append [] text h k = k
IsPlain-append (c ∷ v) text h k = (rw h.0, IsPlain-append v text h.1 k)

pub join-IsPlain : (words : List Word) → All IsWord words → All IsPlain (join words)
unfolding join
join-IsPlain [] h = tt
join-IsPlain (w ∷ []) h = word-IsPlain w (letters w h.0)
join-IsPlain (w ∷ (v ∷ words)) h =
    IsPlain-append w _ (letters w h.0) (unfold is_alnum in refl, join-IsPlain (v ∷ words) h.1)

lower-IsPlain : (text : List ℕ) → All IsPlain text → map lower text ≡ text
unfolding lower is_alnum
lower-IsPlain [] h = refl
lower-IsPlain (c ∷ text) h = ap₂ ◌∷◌ (ground (arith, h.0)) (lower-IsPlain text h.1)

-- ASCII text has nothing to fold.
abbrev pub KeepsAscii : (List ℕ → List ℕ) → Type 0
KeepsAscii ascii_fold = (text : List ℕ) → All (λ (c : ℕ). c < 128) text → ascii_fold text ≡ text

IsPlain-ascii : (text : List ℕ) → All IsPlain text → All (λ (c : ℕ). c < 128) text
unfolding is_alnum
IsPlain-ascii [] h = tt
IsPlain-ascii (c ∷ text) h = (ground (arith, h.0), IsPlain-ascii text h.1)

pub tokens-IsWord :
    (ascii_fold : List ℕ → List ℕ) (text : List ℕ) → All IsWord (tokens ascii_fold text)
unfolding tokens
tokens-IsWord ascii_fold text = split-IsWord (map lower (ascii_fold text))

module _ (ascii_fold : List ℕ → List ℕ) (keeps : KeepsAscii ascii_fold) where
  pub tokens-join : (words : List Word) → All IsWord words → tokens ascii_fold (join words) ≡ words
  unfolding tokens
  tokens-join words h =
      let plain = join-IsPlain words h in
      rw (keeps (join words) (IsPlain-ascii _ plain), lower-IsPlain _ plain) (split-join words h)

  -- Normalising a title twice gives what normalising it once gives.
  pub norm_title-norm_title :
      (title : List ℕ)
      → norm_title ascii_fold (norm_title ascii_fold title) ≡ norm_title ascii_fold title
  unfolding norm_title
  norm_title-norm_title title =
      ap join (tokens-join (tokens ascii_fold title) (tokens-IsWord ascii_fold title))
