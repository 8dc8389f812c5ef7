-- ===== src/Resume/Guard/Bullets.antt =====
-- What a guarded bullet may say.
use job_aggregator.Prelude.{
  ℕ, zero, suc, ◌≤◌, String, Bool, true, false, not, ◌&&◌, ◌⊎◌, inl, inr, ◌≡◌, refl, List, [], ◌∷◌,
  ◌++◌, ◌==◌, ap, sym, ◌∙◌, All, arith, contains, contains-sorted, filter, if◌then◌else◌, length,
  length-take, max, min, take, Bool-cases, eq_iff,
}
use job_aggregator.Pipeline.Dedup.{Word}
use job_aggregator.Pipeline.Signals.{is_nil}
use job_aggregator.Resume.{Project}
use job_aggregator.Resume.Guard.{
  Guarded, covers, foreign_tech, guard_bullets, guard_text, guard_texts, source_numbers_of,
}
use job_aggregator.Resume.Words.{Reader, mentions, numbers, project_names}

-- Every number of the text is one of the project's, and every known technology that it names is
-- one that the project names.
pub record IsSupported (reader : Reader) (p : Project) (tech : List String) (text : String)
    : Type 0 where
  pub numbers_known : covers (source_numbers_of reader p) (numbers reader text) ≡ true
  pub tech_known :
      (t : String)
      → contains tech t ≡ true
      → mentions reader text t false ≡ true
      → project_names reader p t ≡ true

contains-filter :
    (p : String → Bool) (s : List String) (t : String)
    → contains (filter p s) t ≡ (contains s t && p t)
unfolding contains
contains-filter p [] t = refl
contains-filter p (x ∷ s) t = ground (arith, contains-filter p s t, eq_iff x t)

pub All-append {ℓ κ} :
    {A : Type ℓ} (P : A → Type κ) (xs : List A) (x : A) → All P xs → P x → All P (xs ++ x ∷ [])
All-append P [] x h new = (new, tt)
All-append P (y ∷ xs) x h new = (h.0, All-append P xs x h.1 new)

pub All-take {ℓ κ} :
    {A : Type ℓ} (P : A → Type κ) (n : ℕ) (xs : List A) → All P xs → All P (take n xs)
All-take P zero xs h = tt
All-take P (suc n) [] h = tt
All-take P (suc n) (x ∷ xs) h = (h.0, All-take P n xs h.1)

pub All-map {ℓ κ μ} :
    {A : Type ℓ} (P : A → Type κ) (Q : A → Type μ) (xs : List A)
    → ((x : A) → P x → Q x)
    → All P xs
    → All Q xs
All-map P Q [] f h = tt
All-map P Q (x ∷ xs) f h = (f x h.0, All-map P Q xs f h.1)

is_nil-contains : (s : List String) (t : String) → is_nil s ≡ true → contains s t ≡ false
unfolding contains
is_nil-contains [] t h = refl
is_nil-contains (x ∷ s) t h = absurd (cc)

module _ (reader : Reader) (source : List Word) (foreign : List String) where
  -- The text passes both checks of the loop.
  abbrev pub Passes : String → Type 0
  Passes text =
      (covers source (numbers reader text) ≡ true)
      × (is_nil (filter (λ t. mentions reader text t false) foreign) ≡ true)

  guard_text-Passes :
      (text : String) (g : Guarded)
      → All Passes g.kept
      → All Passes (guard_text reader source foreign text g).kept
  unfolding guard_text
  guard_text-Passes text g h =
      elim (Bool-cases (is_nil (filter (λ t. mentions reader text t false) foreign))) [
        | inr e ↦ rw e h
        | inl e ↦ elim (Bool-cases (covers source (numbers reader text))) [
          | inl c ↦ rw (e, c) (All-append Passes g.kept text h (c, e))
          | inr c ↦ rw (e, c) h
        ]
      ]

  skip-Passes :
      (text : String) (g : Guarded) (empty : Bool)
      → All Passes g.kept
      → All Passes (if empty then g else guard_text reader source foreign text g).kept
  skip-Passes text g true h = h
  skip-Passes text g false h = guard_text-Passes text g h

  guard_texts-Passes :
      (candidates : List String) (g : Guarded)
      → All Passes g.kept
      → All Passes (guard_texts reader source foreign candidates g).kept
  unfolding guard_texts
  guard_texts-Passes [] g h = h
  guard_texts-Passes (c ∷ cs) g h =
      guard_texts-Passes cs _ (skip-Passes (reader.strip c) g (reader.strip c == "") h)

known_of : (a m n : Bool) → ((a && not n) && m) ≡ false → a ≡ true → m ≡ true → n ≡ true
known_of a m n h is_a is_m = ground arith

module _ (reader : Reader) (p : Project) (tech : List String) where
  IsSupported-of_Passes :
      (text : String)
      → Passes reader (source_numbers_of reader p) (foreign_tech reader p tech) text
      → IsSupported reader p tech text
  IsSupported-of_Passes text (known, none_foreign) = record {
    numbers_known = known;
    tech_known = λ t is_tech named.
        let own = λ (s : String). not (project_names reader p s) in
        let foreign = foreign_tech reader p tech in
        let named_here = λ (s : String). mentions reader text s false in
        known_of (contains tech t) (named_here t) (project_names reader p t)
          (ap (λ x. x && named_here t)
              (sym (contains-sorted (filter own tech) t ∙ contains-filter own tech t))
            ∙ sym (contains-filter named_here foreign t)
            ∙ is_nil-contains (filter named_here foreign) t none_foreign)
          is_tech named;
  }

  -- A project never has more bullets than it had, nor more than three, unless it keeps its own. The
  -- bullets are the project's own ones, unchanged, or every one of them is supported: its numbers are among those of the
  -- project's bullets, and each technology that the profile lists and the bullet names
  -- is named by the project. There is no bullet only where the project has none.
  pub guard_bullets-IsSupported :
      (candidates : List String)
      → ((guard_bullets reader p candidates tech).0 ≡ p.bullets)
        ⊎ (All (IsSupported reader p tech) (guard_bullets reader p candidates tech).0
            × (length (guard_bullets reader p candidates tech).0 ≤ 3)
            × (length (guard_bullets reader p candidates tech).0 ≤ max (length p.bullets) 1)
            × (is_nil (guard_bullets reader p candidates tech).0 ≡ false))
  unfolding guard_bullets
  guard_bullets-IsSupported candidates =
      let g : Guarded =
        guard_texts reader (source_numbers_of reader p) (foreign_tech reader p tech) candidates
          (record { kept = []; rejected = false; added = [] }) in
      let n = min (max (length p.bullets) 1) 3 in
      elim (Bool-cases (is_nil (take n g.kept))) [
        | inl e ↦ inl (rw (e, guard_bullets) refl)
        | inr e ↦
            let same : (guard_bullets reader p candidates tech).0 ≡ take n g.kept =
              rw (e, guard_bullets) refl in
            let size = length-take n g.kept in
            inr (
              rw same (
                All-map (Passes reader (source_numbers_of reader p) (foreign_tech reader p tech))
                    (IsSupported reader p tech) (take n g.kept) IsSupported-of_Passes
                    (All-take
                      (Passes reader (source_numbers_of reader p) (foreign_tech reader p tech)) n
                      g.kept
                      (guard_texts-Passes reader (source_numbers_of reader p)
                        (foreign_tech reader p tech) candidates _ tt)),
                omega arith,
                omega arith,
                e,
              ))
      ]
