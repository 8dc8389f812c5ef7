-- ===== src/Resume/Guard/Skills.antt =====
-- What a guarded skills section may say.
use job_aggregator.Prelude.{
  ℕ, suc, ◌≤◌, String, true, false, inl, inr, ◌≡◌, refl, Option, none, some, List, [], ◌∷◌, ◌==◌,
  ap₂, sym, ◌∙◌, All, arith, coalesce, contains, if◌then◌else◌, length, length-take, take,
  Bool-cases, Option-cases, eq_iff, of_some,
}
use mathlib.Core.List.{Memᴰ}
use mathlib.Core.Path.{subst}
use job_aggregator.Pipeline.Signals.{concat_map, is_nil}
use job_aggregator.Resume.{SkillGroup}
use job_aggregator.Resume.Guard.{
  Sections, canonical_name, capped_groups, group_of, guard_group, guard_line, guard_lines,
  guard_skills, guard_split, item_names, pick_item, pick_items, pick_row, put_section, section,
}
use job_aggregator.Resume.Guard.Bullets.{All-append, All-take}
use job_aggregator.Resume.Words.{Reader, partition}

module _ (reader : Reader) (skills : List SkillGroup) where
  abbrev pub names_of : SkillGroup → List String
  names_of g = concat_map (item_names reader) g.items

  -- The category is one of the profile's, and every item is an item of that group or a name inside one.
  abbrev pub IsListed : String × List String → Type 0
  IsListed (category, items) =
      (g : SkillGroup) × (group_of reader category skills ≡ some g)
      × Memᴰ g skills
      × (g.category ≡ category)
      × All (λ i. contains (names_of g) i ≡ true) items

  canonical_name-contains :
      (name : String) (names : List String) (n : String)
      → canonical_name reader name names ≡ some n
      → contains names n ≡ true
  unfolding canonical_name contains
  canonical_name-contains name [] n h = absurd (cc)
  canonical_name-contains name (m ∷ names) n h =
      elim (Bool-cases (reader.casefold m == reader.casefold name)) [
        | inl e ↦
            let e' : canonical_name reader name (m ∷ names) ≡ some m =
              rw (e, canonical_name) refl in
            let same : m ≡ n = of_some (sym e' ∙ h) in ground (arith, eq_iff m n)
        | inr e ↦
            let e' : canonical_name reader name (m ∷ names) ≡ canonical_name reader name names =
              rw (e, canonical_name) refl in
            let rest = canonical_name-contains name names n (sym e' ∙ h) in ground arith
      ]

  group_of-stored :
      (w : String) (groups : List SkillGroup) (g : SkillGroup)
      → group_of reader w groups ≡ some g
      → Memᴰ g groups
  unfolding group_of
  group_of-stored w [] g h = absurd (cc)
  group_of-stored w (x ∷ groups) g h = elim (Option-cases (group_of reader w groups)) [
    | inr (y, e) ↦
        let e' : group_of reader w (x ∷ groups) ≡ some y = rw (e, group_of) refl in
        Memᴰ.tail (group_of-stored w groups g (e ∙ sym e' ∙ h))
    | inl e ↦ elim (Bool-cases (reader.casefold x.category == reader.casefold w)) [
      | inl b ↦
          let e' : group_of reader w (x ∷ groups) ≡ some x = rw (e, b, group_of) refl in
          Memᴰ.head (of_some (sym h ∙ e'))
      | inr b ↦
          let e' : group_of reader w (x ∷ groups) ≡ none = rw (e, b, group_of) refl in absurd (cc)
    ]
  ]

  group_of-same :
      (v w : String) (groups : List SkillGroup)
      → reader.casefold v ≡ reader.casefold w
      → group_of reader v groups ≡ group_of reader w groups
  unfolding group_of
  group_of-same v w [] h = refl
  group_of-same v w (g ∷ groups) h =
      ap₂
        (λ (later : Option SkillGroup) (word : String). elim later [
          | some x ↦ some x
          | none ↦ if reader.casefold g.category == word then some g else none
        ])
        (group_of-same v w groups h) h

  group_of-category :
      (w : String) (groups : List SkillGroup) (g : SkillGroup)
      → group_of reader w groups ≡ some g
      → reader.casefold g.category ≡ reader.casefold w
  unfolding group_of
  group_of-category w [] g h = absurd (cc)
  group_of-category w (x ∷ groups) g h = elim (Option-cases (group_of reader w groups)) [
    | inr (y, e) ↦
        let e' : group_of reader w (x ∷ groups) ≡ some y = rw (e, group_of) refl in
        group_of-category w groups g (e ∙ sym e' ∙ h)
    | inl e ↦ elim (Bool-cases (reader.casefold x.category == reader.casefold w)) [
      | inl b ↦
          let e' : group_of reader w (x ∷ groups) ≡ some x = rw (e, b, group_of) refl in
          let same : x ≡ g = of_some (sym e' ∙ h) in
          subst (λ (y : SkillGroup). reader.casefold y.category ≡ reader.casefold w) same
            ((eq_iff _ _).0 b)
      | inr b ↦
          let e' : group_of reader w (x ∷ groups) ≡ none = rw (e, b, group_of) refl in absurd (cc)
    ]
  ]

  -- The category of a group that was found leads to it again.
  group_of-group_of :
      (w : String) (g : SkillGroup)
      → group_of reader w skills ≡ some g
      → group_of reader g.category skills ≡ some g
  group_of-group_of w g h = group_of-same g.category w skills (group_of-category w skills g h) ∙ h

  section-IsListed :
      (name : String) (picked : Sections) (items : List String)
      → All IsListed picked
      → section name picked ≡ some items
      → IsListed (name, items)
  unfolding section
  section-IsListed name [] items h found = absurd (cc)
  section-IsListed name ((key, lines) ∷ picked) items h found = elim (Bool-cases (key == name)) [
    | inl e ↦
        let e' : section name ((key, lines) ∷ picked) ≡ some lines = rw (e, section) refl in
        let same : lines ≡ items = of_some (sym e' ∙ found) in
        let whose : key ≡ name = (eq_iff key name).0 e in
        subst (λ (k : String). IsListed (k, items)) whose
          (subst (λ (l : List String). IsListed (key, l)) same h.0)
    | inr e ↦
        let e' : section name ((key, lines) ∷ picked) ≡ section name picked =
          rw (e, section) refl in
        section-IsListed name picked items h.1 (sym e' ∙ found)
  ]

  put_section-IsListed :
      (name : String) (lines : List String) (picked : Sections)
      → All IsListed picked
      → IsListed (name, lines)
      → All IsListed (put_section name lines picked)
  unfolding put_section
  put_section-IsListed name lines [] h new = (new, tt)
  put_section-IsListed name lines ((key, old) ∷ picked) h new = elim (Bool-cases (key == name)) [
    | inl e ↦
        rw (e, put_section)
          (subst (λ (k : String). IsListed (k, lines)) (sym ((eq_iff key name).0 e)) new, h.1)
    | inr e ↦ rw (e, put_section) (h.0, put_section-IsListed name lines picked h.1 new)
  ]

  pick_item-contains :
      (g : SkillGroup) (name : String) (found : Option String) (out : List String × List String)
      → ((n : String) → found ≡ some n → contains (names_of g) n ≡ true)
      → All (λ i. contains (names_of g) i ≡ true) out.0
      → All (λ i. contains (names_of g) i ≡ true) (pick_item reader name found out).0
  unfolding pick_item
  pick_item-contains g name none (items, dropped) known h = h
  pick_item-contains g name (some n) (items, dropped) known h =
      elim (Bool-cases (contains items n)) [
        | inl e ↦ rw e h
        | inr e ↦ rw e (All-append (λ i. contains (names_of g) i ≡ true) items n h (known n refl))
      ]

  pick_items-contains :
      (g : SkillGroup) (raws : List String) (out : List String × List String)
      → All (λ i. contains (names_of g) i ≡ true) out.0
      → All (λ i. contains (names_of g) i ≡ true) (pick_items reader (names_of g) raws out).0
  unfolding pick_items
  pick_items-contains g [] out h = h
  pick_items-contains g (raw ∷ raws) out h =
      let name = reader.strip (reader.drop_dots (reader.strip_stars (reader.strip raw))) in
      pick_items-contains g raws _ (
        pick_item-contains g name (canonical_name reader name (names_of g)) out
          (canonical_name-contains name (names_of g)) h)

  -- What the section of a found group's category holds already.
  old_items-contains :
      (g : SkillGroup) (picked : Sections) (found : Option (List String))
      → section g.category picked ≡ found
      → group_of reader g.category skills ≡ some g
      → All IsListed picked
      → All (λ i. contains (names_of g) i ≡ true) (coalesce found [])
  old_items-contains g picked none same known h = tt
  old_items-contains g picked (some items) same known h =
      let (g', known', _, _, listed) = section-IsListed g.category picked items h same in
      let whose : g' ≡ g = of_some (sym known' ∙ known) in
      subst (λ (x : SkillGroup). All (λ i. contains (names_of x) i ≡ true) items) whose listed

  pick_row-IsListed :
      (g : SkillGroup) (rest : String) (out : Sections × List String)
      → group_of reader g.category skills ≡ some g
      → All IsListed out.0
      → All IsListed (pick_row reader g rest out).0
  unfolding pick_row
  pick_row-IsListed g rest (picked, dropped) known h = put_section-IsListed g.category _ picked h (
    g,
    known,
    group_of-stored g.category skills g known,
    refl,
    pick_items-contains g (reader.split_items rest) _
        (old_items-contains g picked (section g.category picked) refl known h),
  )

  guard_group-IsListed :
      (line : String) (w : String) (found : Option SkillGroup) (rest : String)
      (out : Sections × List String)
      → group_of reader w skills ≡ found
      → All IsListed out.0
      → All IsListed (guard_group reader line found rest out).0
  unfolding guard_group
  guard_group-IsListed line w none rest out same h = h
  guard_group-IsListed line w (some g) rest out same h =
      pick_row-IsListed g rest out (group_of-group_of w g same) h

  guard_split-IsListed :
      (line : String) (parts : Option (String × String)) (out : Sections × List String)
      → All IsListed out.0
      → All IsListed (guard_split reader skills line parts out).0
  unfolding guard_split
  guard_split-IsListed line none out h = h
  guard_split-IsListed line (some (category, rest)) out h =
      guard_group-IsListed line _ _ rest out refl h

  guard_lines-IsListed :
      (lines : List String) (out : Sections × List String)
      → All IsListed out.0
      → All IsListed (guard_lines reader skills lines out).0
  unfolding guard_lines guard_line
  guard_lines-IsListed [] out h = h
  guard_lines-IsListed (line ∷ lines) out h =
      guard_lines-IsListed lines (guard_line reader skills line out)
        (guard_split-IsListed line (partition line) out h)

  -- A row of the résumé: listed, not empty, and within the cap.
  pub record IsRow (group : SkillGroup) : Type 0 where
    pub listed : IsListed (group.category, group.items)
    pub some_item : is_nil group.items ≡ false
    pub cap : length group.items ≤ 8

  take-some :
      (n : ℕ) (items : List String) → is_nil items ≡ false → is_nil (take (suc n) items) ≡ false
  take-some n [] h = h
  take-some n (i ∷ items) h = refl

  capped_groups-IsRow :
      (picked : Sections) → All IsListed picked → All IsRow (capped_groups reader picked)
  unfolding capped_groups
  capped_groups-IsRow [] h = tt
  capped_groups-IsRow ((category, items) ∷ picked) h = elim (Bool-cases (is_nil items)) [
    | inl e ↦ rw (e, capped_groups) (capped_groups-IsRow picked h.1)
    | inr e ↦
        let (g, known, stored, same, listed) = h.0 in
        let size = length-take 8 items in
        rw (e, capped_groups)
          (
            record {
              listed = (
                g,
                known,
                stored,
                same,
                All-take (λ i. contains (names_of g) i ≡ true) 8 items listed,
              );
              some_item = take-some 7 items e;
              cap = omega arith;
            },
            capped_groups-IsRow picked h.1,
          )
  ]

  -- Whatever lines the model wrote, the section has at most four rows; the category of each is one that the profile
  -- has a group for, and each row has between one and eight items, every one of them an item of that group or a name inside
  -- one of its items, in the profile's spelling.
  pub guard_skills-IsRow :
      (lines : List String)
      → All IsRow (guard_skills reader lines skills).0
        × (length (guard_skills reader lines skills).0 ≤ 4)
  unfolding guard_skills
  guard_skills-IsRow lines =
      let groups = capped_groups reader (guard_lines reader skills lines ([], [])).0 in
      let size = length-take 4 groups in
      (
        All-take IsRow 4 groups (capped_groups-IsRow _ (guard_lines-IsListed lines ([], []) tt)),
        omega arith,
      )
