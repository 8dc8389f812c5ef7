-- ===== src/Resume/Fit/Cut.antt =====
-- Projects with fewer bullets, and what one cut leaves.
use mathlib.Core.List.{Memᴰ}
use mathlib.Core.Path.{subst}
use job_aggregator.Prelude.{
  suc, ◌+◌, String, true, Option, none, some, List, [], ◌∷◌, ◌++◌, ◌≡◌, refl, ap, ◌∙◌, sym, All,
  arith, length, leb,
}
use job_aggregator.Resume.{Project}
use job_aggregator.Resume.Guard.Bullets.{All-map}
use job_aggregator.Resume.Fit.{drop_middle, size, snoc, split_last}

abbrev pub first_of : List String → Option String
first_of [] = none
first_of (b ∷ bullets) = some b

abbrev pub last_of : List String → Option String
last_of [] = none
last_of (b ∷ []) = some b
last_of (b ∷ (c ∷ bullets)) = last_of (c ∷ bullets)

-- The project with fewer bullets, all its own, of which the first and the last stay.
pub record IsCut (old new : Project) : Type 0 where
  pub same : new ≡ record old { bullets = new.bullets }
  pub own : All (λ b. Memᴰ b old.bullets) new.bullets
  pub first : first_of new.bullets ≡ first_of old.bullets
  pub last : last_of new.bullets ≡ last_of old.bullets

-- The first projects, each cut at most.
abbrev pub IsTrimmed : List Project → List Project → Type 0
IsTrimmed old [] = Unit
IsTrimmed [] (n ∷ new) = ⊥
IsTrimmed (o ∷ old) (n ∷ new) = IsCut o n × IsTrimmed old new

pub All-Mem : {A : Type 0} (xs : List A) → All (λ x. Memᴰ x xs) xs
All-Mem [] = tt
All-Mem (x ∷ xs) = (
  Memᴰ.head refl,
  All-map (λ y. Memᴰ y xs) (λ y. Memᴰ y (x ∷ xs)) xs (λ y m. Memᴰ.tail m) (All-Mem xs),
)

pub All-of : {A : Type 0} (P : A → Type 0) (xs : List A) (x : A) → All P xs → Memᴰ x xs → P x
All-of P [] x h m = elim m [ ]
All-of P (y ∷ xs) x h (Memᴰ.head e) = subst P (sym e) (h.0)
All-of P (y ∷ xs) x h (Memᴰ.tail m) = All-of P xs x (h.1) m

pub IsCut-refl : (p : Project) → IsCut p p
IsCut-refl p = record { same = refl; own = All-Mem p.bullets; first = refl; last = refl }

pub IsCut-trans : (a b c : Project) → IsCut a b → IsCut b c → IsCut a c
IsCut-trans a b c h k = record {
  same = k.same ∙ ap (λ (x : Project). record x { bullets = c.bullets }) (h.same);
  own =
      All-map (λ x. Memᴰ x b.bullets) (λ x. Memᴰ x a.bullets) c.bullets
        (λ x m. All-of (λ y. Memᴰ y a.bullets) b.bullets x (h.own) m) (k.own);
  first = k.first ∙ h.first;
  last = k.last ∙ h.last;
}

pub IsTrimmed-refl : (projects : List Project) → IsTrimmed projects projects
IsTrimmed-refl [] = tt
IsTrimmed-refl (p ∷ projects) = (IsCut-refl p, IsTrimmed-refl projects)

pub IsTrimmed-trans : (a b c : List Project) → IsTrimmed a b → IsTrimmed b c → IsTrimmed a c
IsTrimmed-trans a b [] h k = tt
IsTrimmed-trans a [] (z ∷ c) h k = absurd k
IsTrimmed-trans [] (y ∷ b) (z ∷ c) h k = absurd h
IsTrimmed-trans (x ∷ a) (y ∷ b) (z ∷ c) h k =
    (IsCut-trans x y z (h.0) (k.0), IsTrimmed-trans a b c (h.1) (k.1))

pub IsCut-drop_middle :
    (p : Project) (bullets : List String)
    → leb 3 (length bullets) ≡ true
    → IsCut (record p { bullets = bullets }) (record p { bullets = drop_middle bullets })
unfolding drop_middle
IsCut-drop_middle p (a ∷ (b ∷ (c ∷ bullets))) h =
    let all = All-Mem (a ∷ (b ∷ (c ∷ bullets))) in
    record { same = refl; own = (all.0, all.1.1); first = refl; last = refl }
IsCut-drop_middle p (a ∷ (b ∷ [])) h = cc
IsCut-drop_middle p (a ∷ []) h = cc
IsCut-drop_middle p [] h = cc

pub length-drop_middle :
    (bullets : List String)
    → leb 3 (length bullets) ≡ true
    → suc (length (drop_middle bullets)) ≡ length bullets
unfolding drop_middle
length-drop_middle (a ∷ (b ∷ bullets)) h = refl
length-drop_middle (a ∷ []) h = cc
length-drop_middle [] h = cc

-- The list is its front and its last project.
abbrev pub IsSplit : List Project → Option (List Project × Project) → Type 0
IsSplit projects none = projects ≡ []
IsSplit projects (some (front, last)) = projects ≡ front ++ last ∷ []

pub IsSplit-snoc :
    (p : Project) (projects : List Project) (split : Option (List Project × Project))
    → IsSplit projects split
    → IsSplit (p ∷ projects) (some (snoc p split))
IsSplit-snoc p projects none h = ap (◌∷◌ p) h
IsSplit-snoc p projects (some (front, last)) h = ap (◌∷◌ p) h

pub split_last-IsSplit : (projects : List Project) → IsSplit projects (split_last projects)
unfolding split_last
split_last-IsSplit [] = refl
split_last-IsSplit (p ∷ projects) = IsSplit-snoc p projects _ (split_last-IsSplit projects)

pub IsTrimmed-front : (front : List Project) (last : Project) → IsTrimmed (front ++ last ∷ []) front
IsTrimmed-front [] last = tt
IsTrimmed-front (p ∷ front) last = (IsCut-refl p, IsTrimmed-front front last)

pub IsTrimmed-last :
    (front : List Project) (last cut : Project)
    → IsCut last cut
    → IsTrimmed (front ++ last ∷ []) (front ++ cut ∷ [])
IsTrimmed-last [] last cut h = (h, tt)
IsTrimmed-last (p ∷ front) last cut h = (IsCut-refl p, IsTrimmed-last front last cut h)

pub size-append :
    (xs : List Project) (p : Project) → size (xs ++ p ∷ []) ≡ size xs + suc (length p.bullets)
size-append [] p = omega arith
size-append (x ∷ xs) p = omega (arith, size-append xs p)
