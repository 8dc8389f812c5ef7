-- ===== src/Sources/Registry/Order.antt =====
-- Which sources are built, and in which order.
use job_aggregator.Prelude.{
  ◌≤◌, ◌<◌, String, Bool, true, false, not, ◌&&◌, List, [], ◌∷◌, ◌≡◌, refl, ap, arith, drop, filter,
  given, length, length-append, length-take, map, take,
}
use job_aggregator.Pipeline.Signals.{is_nil}
use job_aggregator.Sources.Registry.{
  SourcesConfig, Source, jobspy, remoteok, himalayas, jobicy, adzuna, jooble, unstop, internshala,
  greenhouse, lever, ashby, smartrecruiters, Surroundings, when, or_default, build_ats,
  build_enabled_sources, jooble_queries,
}

pub data Kind : Type 0 where
  aggregator open_board country_board typed_board keyed_board queried_board : Kind
  challenge_board listing_board : Kind
  greenhouse_board lever_board ashby_board smartrecruiters_board : Kind

abbrev pub kind_of : Source → Kind
kind_of jobspy = aggregator
kind_of remoteok = open_board
kind_of (himalayas c) = country_board
kind_of (jobicy t) = typed_board
kind_of (adzuna c i k n) = keyed_board
kind_of (jooble k q l n) = queried_board
kind_of (unstop o t d n) = challenge_board
kind_of (internshala s n) = listing_board
kind_of (greenhouse t) = greenhouse_board
kind_of (lever t) = lever_board
kind_of (ashby t) = ashby_board
kind_of (smartrecruiters t) = smartrecruiters_board

-- The order of the tiers.
abbrev pub all_kinds : List Kind
all_kinds =
    aggregator ∷ open_board ∷ country_board ∷ typed_board ∷ keyed_board ∷ queried_board
    ∷ challenge_board ∷ listing_board ∷ greenhouse_board ∷ lever_board ∷ ashby_board
    ∷ smartrecruiters_board ∷ []

module _ (env : Surroundings) (s : SourcesConfig) where
  -- Enabled, and with what it cannot do without.
  abbrev pub is_on : Kind → Bool
  is_on aggregator = s.jobspy_enabled
  is_on open_board = s.remoteok_enabled
  is_on country_board = s.himalayas_enabled
  is_on typed_board = s.jobicy_enabled
  is_on keyed_board = s.adzuna_enabled && (given env.adzuna_app_id && given env.adzuna_app_key)
  is_on queried_board = s.jooble_enabled && given env.jooble_api_key
  is_on challenge_board = s.unstop_enabled
  is_on listing_board = s.internshala_enabled && not (is_nil s.internshala_slugs)
  is_on greenhouse_board = s.ats.greenhouse_enabled && not (is_nil s.ats.greenhouse_tokens)
  is_on lever_board = s.ats.lever_enabled && not (is_nil s.ats.lever_slugs)
  is_on ashby_board = s.ats.ashby_enabled && not (is_nil s.ats.ashby_orgs)
  is_on smartrecruiters_board =
      s.ats.smartrecruiters_enabled && not (is_nil s.ats.smartrecruiters_company_ids)

  kinds-when :
      (on : Bool) (source : Source) (sources : List Source) (kinds : List Kind)
      → map kind_of sources ≡ filter is_on kinds
      → is_on (kind_of source) ≡ on
      → map kind_of (when on source sources) ≡ filter is_on (kind_of source ∷ kinds)
  kinds-when true source sources kinds h e = rw e (ap (◌∷◌ (kind_of source)) h)
  kinds-when false source sources kinds h e = rw e h

  -- One source of each kind that is enabled and has the keys and names it needs, in the order of
  -- the tiers, and none of another kind.
  pub build_enabled_sources-kinds :
      map kind_of (build_enabled_sources env s) ≡ filter is_on all_kinds
  unfolding build_enabled_sources build_ats
  build_enabled_sources-kinds =
      kinds-when _ jobspy _ (drop 1 all_kinds)
        (kinds-when _ remoteok _ (drop 2 all_kinds)
          (kinds-when _ (himalayas _) _ (drop 3 all_kinds)
            (kinds-when _ (jobicy _) _ (drop 4 all_kinds)
              (kinds-when _ (adzuna _ _ _ _) _ (drop 5 all_kinds)
                (kinds-when _ (jooble _ _ _ _) _ (drop 6 all_kinds)
                  (kinds-when _ (unstop _ _ _ _) _ (drop 7 all_kinds)
                    (kinds-when _ (internshala _ _) _ (drop 8 all_kinds)
                      (kinds-when _ (greenhouse _) _ (drop 9 all_kinds)
                        (kinds-when _ (lever _) _ (drop 10 all_kinds)
                          (kinds-when _ (ashby _) _ (drop 11 all_kinds)
                            (kinds-when _ (smartrecruiters _) _ (drop 12 all_kinds) refl refl) refl)
                          refl)
                        refl)
                      refl)
                    refl)
                  refl)
                refl)
              refl)
            refl)
          refl)
        refl

or_default-length :
    (word : String) (texts : List String)
    → length texts ≤ 8
    → (0 < length (or_default word texts)) × (length (or_default word texts) ≤ 8)
or_default-length word [] h = (omega arith, omega arith)
or_default-length word (t ∷ texts) h = (omega arith, h)

-- Jooble is asked one to eight queries.
pub jooble_queries-length :
    (env : Surroundings) → (0 < length (jooble_queries env)) × (length (jooble_queries env) ≤ 8)
unfolding jooble_queries
jooble_queries-length env = or_default-length "backend intern" _ (
    omega (
      arith,
      length-append (take 6 env.keywords.roles) (take 2 env.keywords.intern_queries),
      length-take 6 env.keywords.roles,
      length-take 2 env.keywords.intern_queries,
    ))
