-- ===== src/Apply/Driver/Planned.antt =====
-- The fields that a plan leads to.
use mathlib.Core.List.{Memᴰ}
use mathlib.Core.Path.{subst}
use job_aggregator.Prelude.{
  ◌>>=◌, ℕ, suc, ◌<◌, String, Bool, true, false, not, ◌&&◌, ◌||◌, Option, none, some, List, [], ◌∷◌,
  ◌==◌, ◌≡◌, refl, ap, ◌∙◌, sym, All, any, arith, eqb, filter, map, Bool-cases, Option-cases, ◌>>=◌,
  of_some, inl, inr,
}
use job_aggregator.Models.Amount.{ℤ, pos, negsuc}
use job_aggregator.Pipeline.Signals.{is_nil}
use job_aggregator.Resume.Guard.Bullets.{All-map}
use job_aggregator.Apply.Fields.{
  to_brace, from_brace, object, ApplicationFields, Field, Grounder, is_open, is_valid, put,
  add_entry, add_entries, parse_plan, plan_fills, plan_from, plan_of, plan_reply, prompt, Loaded,
  invalid, not_object, object, from_brace, to_brace,
}
use job_aggregator.Apply.Driver.{by_index, numbered}

pub by_index-below : (i n : ℕ) (rows : List Field) → i < n → by_index i (numbered n rows) ≡ none
unfolding by_index numbered
by_index-below i n [] h = refl
by_index-below i n (row ∷ rows) h =
    let rest = by_index-below i (suc n) rows (omega arith) in
    let other : eqb n i ≡ false = ground arith in rw (rest, other) refl

module _ (g : Grounder) where
  abbrev pub opens : ℕ → List Field → Bool
  opens i fields = any (λ f. is_open g f && eqb f.index i) fields

  pub opens-below : (i n : ℕ) (rows : List Field) → i < n → opens i (numbered n rows) ≡ false
  unfolding numbered
  opens-below i n [] h = refl
  opens-below i n (row ∷ rows) h =
      let rest = opens-below i (suc n) rows (omega arith) in
      let other : eqb n i ≡ false = ground arith in ground (arith, rest, other)

  pub opens-is_valid :
      (i : ℕ) (fields : List Field)
      → is_valid g (map (λ (f : Field). f.index) (filter (is_open g) fields)) i ≡ opens i fields
  opens-is_valid i [] = refl
  opens-is_valid i (f ∷ fields) = elim (Bool-cases (is_open g f)) [
    | inl e ↦ rw e (ap (λ b. eqb f.index i || b) (opens-is_valid i fields))
    | inr e ↦ rw e (opens-is_valid i fields)
  ]

  -- An index with an open field leads to that field, since the fields are numbered in their order.
  pub by_index-opens :
      (i n : ℕ) (rows : List Field) (f : Field)
      → by_index i (numbered n rows) ≡ some f
      → opens i (numbered n rows) ≡ true
      → Memᴰ f (numbered n rows) × (is_open g f ≡ true)
  unfolding by_index numbered
  by_index-opens i n [] f found h = absurd (cc)
  by_index-opens i n (row ∷ rows) f found h =
      let here : Field = record row { index = n } in
      elim (Bool-cases (eqb n i)) [
        | inl e ↦
            let before : i < suc n = ground (arith, e) in
            let rest = by_index-below i (suc n) rows before in
            let first : by_index i (here ∷ numbered (suc n) rows) ≡ some here =
              rw (rest, e, by_index) refl in
            let same : here ≡ f = of_some (sym first ∙ found) in
            let is : is_open g here ≡ true =
              ground (arith, h, e, opens-below i (suc n) rows before) in
            (Memᴰ.head (sym same), subst (λ (x : Field). is_open g x ≡ true) same is)
        | inr e ↦
            let later : opens i (numbered (suc n) rows) ≡ true = ground (arith, h, e) in
            elim (Option-cases (by_index i (numbered (suc n) rows))) [
              | inl none_there ↦
                  let missing : by_index i (here ∷ numbered (suc n) rows) ≡ none =
                    rw (none_there, e, by_index) refl in
                  absurd (cc)
              | inr (f', there) ↦
                  let same : by_index i (here ∷ numbered (suc n) rows) ≡ some f' =
                    rw (there, by_index) refl in
                  let (m, is) = by_index-opens i (suc n) rows f (there ∙ sym same ∙ found) later in
                  (Memᴰ.tail m, is)
            ]
      ]

  -- Every entry of a plan is for one of the indices.
  abbrev pub IsPlan : List ℕ → List (ℕ × String) → Type 0
  IsPlan valid plan = All (λ (e : ℕ × String). is_valid g valid e.0 ≡ true) plan

  pub put-IsPlan :
      (valid : List ℕ) (i : ℕ) (value : String) (plan : List (ℕ × String))
      → is_valid g valid i ≡ true
      → IsPlan valid plan
      → IsPlan valid (put i value plan)
  unfolding put
  put-IsPlan valid i value [] new h = (new, tt)
  put-IsPlan valid i value ((j, old) ∷ plan) new h = elim (Bool-cases (eqb j i)) [
    | inl e ↦ rw e h
    | inr e ↦ rw e (h.0, put-IsPlan valid i value plan new (h.1))
  ]

  pub add_entry-IsPlan :
      (valid : List ℕ) (plan : List (ℕ × String)) (key : Option ℤ) (value : Option String)
      → IsPlan valid plan
      → IsPlan valid (add_entry g valid plan key value)
  unfolding add_entry
  add_entry-IsPlan valid plan none value h = h
  add_entry-IsPlan valid plan (some (negsuc n)) value h = h
  add_entry-IsPlan valid plan (some (pos i)) none h = h
  add_entry-IsPlan valid plan (some (pos i)) (some value) h =
      elim (Bool-cases (is_valid g valid i && not (g.strip value == ""))) [
        | inl e ↦ rw e (put-IsPlan valid i value plan (ground (arith, e)) h)
        | inr e ↦ rw e h
      ]

  pub add_entries-IsPlan :
      (valid : List ℕ) (entries : List (String × Option String)) (plan : List (ℕ × String))
      → IsPlan valid plan
      → IsPlan valid (add_entries g valid plan entries)
  unfolding add_entries
  add_entries-IsPlan valid [] plan h = h
  add_entries-IsPlan valid ((key, value) ∷ entries) plan h =
      add_entries-IsPlan valid entries _ (add_entry-IsPlan valid plan (g.int key) value h)

  pub plan_of-IsPlan : (valid : List ℕ) (loaded : Loaded) → IsPlan valid (plan_of g valid loaded)
  plan_of-IsPlan valid invalid = tt
  plan_of-IsPlan valid not_object = tt
  plan_of-IsPlan valid (object entries) = add_entries-IsPlan valid entries [] tt

  pub plan_from-IsPlan :
      (valid : List ℕ) (part : Option String) → IsPlan valid (plan_from g valid part)
  plan_from-IsPlan valid none = tt
  plan_from-IsPlan valid (some part) = plan_of-IsPlan valid (g.loads part)

  pub plan_reply-IsPlan :
      (valid : List ℕ) (reply : Option String) → IsPlan valid (plan_reply g valid reply)
  unfolding parse_plan
  plan_reply-IsPlan valid none = tt
  plan_reply-IsPlan valid (some raw) = plan_from-IsPlan valid (from_brace raw >>= to_brace)

  pub plan_fills-opens :
      (complete : String → Option String) (fields : List Field) (app : ApplicationFields)
      → All (λ (e : ℕ × String). opens (e.0) fields ≡ true) (plan_fills g complete fields app)
  unfolding plan_fills
  plan_fills-opens complete fields app =
      let valid = map (λ (f : Field). f.index) (filter (is_open g) fields) in
      let reply = complete (prompt g fields app) in
      elim (Bool-cases (is_nil valid)) [
        | inl e ↦ rw e tt
        | inr e ↦ rw e (
            All-map (λ (x : ℕ × String). is_valid g valid x.0 ≡ true)
              (λ (x : ℕ × String). opens (x.0) fields ≡ true) (plan_reply g valid reply)
              (λ x h. sym (opens-is_valid (x.0) fields) ∙ h) (plan_reply-IsPlan valid reply))
      ]
