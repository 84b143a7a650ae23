-- ===== src/Specs/Choice.antt =====
-- specs.go: the two fallbacks, what a spec is made of, and the order of priority.
use urnetwork_client.Base.{
  ◌≡◌, refl, ap, ◌∙◌, ◌≢◌, ◌⊎◌, inl, inr, Bool, true, false, List, [], ◌∷◌, ◌++◌, map, Option, none,
  some, Bytes, if◌then◌else◌, Bool-cases, Option-cases,
}
use urnetwork_client.Config.{LocationConfig}
use urnetwork_client.Text.{is_empty}
use urnetwork_client.Specs.{
  Connect, Group, Location, Found, read_query, takes_groups, group_matches, location_matches,
  spec_id, keep, is_seen, Specs, add_spec, find_groups, find_locations, group_specs, location_specs,
  filter_locations_fallback, find_specs_by_query_fallback, by_id, or_else, build_provider_specs,
}

module _ (C : Connect) where
  open C use {ProviderId, Spec, parse_id, id_string, location_spec, group_spec, best_available}

  find_groups-keep :
      (norm : Bytes) (gs : List Group) (st : Specs C)
      → find_groups C norm (keep (group_matches norm) gs) st
        ≡ group_specs C (keep (group_matches norm) gs) st
  unfolding find_groups group_specs
  find_groups-keep norm [] st = refl
  find_groups-keep norm (g ∷ gs) st = elim (Bool-cases (group_matches norm g)) [
    | inl e ↦ rw e (
        rw (e, find_groups)
          (find_groups-keep norm gs (add_spec C group_spec g.location_group_id st)))
    | inr e ↦ rw e (find_groups-keep norm gs st)
  ]

  find_locations-keep :
      (key val norm : Bytes) (ls : List Location) (st : Specs C)
      → find_locations C key val norm (keep (location_matches key val norm) ls) st
        ≡ location_specs C key (keep (location_matches key val norm) ls) st
  unfolding find_locations location_specs
  find_locations-keep key val norm [] st = refl
  find_locations-keep key val norm (l ∷ ls) st =
      elim (Bool-cases (location_matches key val norm l)) [
        | inl e ↦ rw e (
            rw (e, find_locations)
              (find_locations-keep key val norm ls (add_spec C location_spec (spec_id key l) st)))
        | inr e ↦ rw e (find_locations-keep key val norm ls st)
      ]

  found_state :
      (key val norm : Bytes) (b : Bool) (gs : List Group) (ls : List Location)
      → find_locations C key val norm (keep (location_matches key val norm) ls) (
          if b
          then find_groups C norm (if b then keep (group_matches norm) gs else []) ([], [])
          else ([], []))
        ≡ location_specs C key
            (keep (location_matches key val norm) ls)
            (group_specs C (if b then keep (group_matches norm) gs else []) ([], []))
  found_state key val norm true gs ls =
      find_locations-keep key val norm ls _
      ∙ ap (location_specs C key (keep (location_matches key val norm) ls))
          (find_groups-keep norm gs ([], []))
  found_state key val norm false gs ls =
      unfold group_specs in find_locations-keep key val norm ls ([], [])

  abbrev pub specs_or_none : Option (List Spec × Found Spec) → List Spec
  specs_or_none none = []
  specs_or_none (some (specs, _)) = specs

  -- `findSpecsByQueryFallback` filters again what `filterLocationsFallback` filtered, with the
  -- same tests: its specs are the first result of `filterLocationsFallback`.
  pub find_specs_by_query_fallback_lem :
      (fetched : Option (Found Spec)) (q : Bytes)
      → find_specs_by_query_fallback C fetched q
        ≡ specs_or_none (filter_locations_fallback C fetched q)
  unfolding find_specs_by_query_fallback
  find_specs_by_query_fallback_lem none q = refl
  find_specs_by_query_fallback_lem (some res) q =
      let (key, val, norm) = read_query q in
      λ i. (found_state key val norm (takes_groups key) res.groups res.locations i).1

  -- What a spec was made of.
  pub data Pick : Type 0 where
    of_group : ProviderId → Pick
    of_location : ProviderId → Pick

  abbrev pub pick_id : Pick → ProviderId
  pick_id (of_group id) = id
  pick_id (of_location id) = id

  abbrev pub make : Pick → Spec
  make (of_group id) = group_spec id
  make (of_location id) = location_spec id

  abbrev pub text_of : Pick → Bytes
  text_of p = id_string (pick_id p)

  -- The specs of some picks, newest first.
  abbrev pub specs_of : List Pick → List Spec
  specs_of [] = []
  specs_of (p ∷ ps) = specs_of ps ++ (make p ∷ [])

  -- No two picks have the same identifier.
  abbrev pub IsDistinct : List Pick → Type 0
  IsDistinct [] = Unit {0}
  IsDistinct (p ∷ ps) = (is_seen (text_of p) (map text_of ps) ≡ false) × IsDistinct ps

  record Picked (st : Specs C) : Type 0 where
    picks : List Pick
    seen : st.0 ≡ map text_of picks
    specs : st.1 ≡ specs_of picks
    distinct : IsDistinct picks

  add_spec-Picked :
      (f : ProviderId → Spec) (pick : ProviderId → Pick) (text : Bytes) (st : Specs C)
      → ((id : ProviderId) → make (pick id) ≡ f id)
      → ((id : ProviderId) → pick_id (pick id) ≡ id)
      → Picked st
      → Picked (add_spec C f text st)
  unfolding add_spec
  add_spec-Picked f pick text (seen, specs) hm hi p = elim (Option-cases (parse_id text)) [
    | inl e ↦ rw (e, add_spec) p
    | inr (id, e) ↦
        rw (e, add_spec)
          (elim (Bool-cases (is_seen (id_string id) seen)) [
            | inl k ↦ rw k p
            | inr k ↦ rw k (record {
              picks = pick id ∷ p.picks;
              seen = cc (hi id, p.seen);
              specs = cc (hm id, p.specs);
              distinct = (cc (hi id, p.seen, k), p.distinct);
            })
          ])
  ]

  group_specs-Picked : (gs : List Group) (st : Specs C) → Picked st → Picked (group_specs C gs st)
  unfolding group_specs
  group_specs-Picked [] st p = p
  group_specs-Picked (g ∷ gs) st p =
      group_specs-Picked gs _ (add_spec-Picked group_spec of_group _ st (λ _. refl) (λ _. refl) p)

  location_specs-Picked :
      (key : Bytes) (ls : List Location) (st : Specs C)
      → Picked st
      → Picked (location_specs C key ls st)
  unfolding location_specs
  location_specs-Picked key [] st p = p
  location_specs-Picked key (l ∷ ls) st p =
      location_specs-Picked key ls _
        (add_spec-Picked location_spec of_location _ st (λ _. refl) (λ _. refl) p)

  -- The specs of the fallback are made, each by its kind, of groups and locations with pairwise
  -- different identifiers: no identifier is chosen twice, not even as a group and as a location.
  pub filter_locations_fallback-IsDistinct :
      (fetched : Option (Found Spec)) (q : Bytes) {specs : List Spec} {kept : Found Spec}
      → filter_locations_fallback C fetched q ≡ some (specs, kept)
      → (picks : List Pick) × (specs ≡ specs_of picks) × IsDistinct picks
  unfolding filter_locations_fallback
  filter_locations_fallback-IsDistinct none q e = cc
  filter_locations_fallback-IsDistinct (some res) q e =
      let (key, val, norm) = read_query q in
      let gs = if takes_groups key then keep (group_matches norm) res.groups else [] in
      let ls = keep (location_matches key val norm) res.locations in
      let p = location_specs-Picked key ls _ (
        group_specs-Picked gs ([], [])
          (record { picks = []; seen = refl; specs = refl; distinct = tt })) in
      (p.picks, cc (p.specs), p.distinct)

  abbrev pub given_specs : LocationConfig → List Spec
  given_specs loc =
      by_id C location_spec loc.location_id ++ by_id C group_spec loc.location_group_id

  abbrev pub found_specs : Option (Found Spec) → List Spec
  found_specs none = []
  found_specs (some res) = res.specs

  -- The tiers from which the specs are taken.
  pub data Tiers (q : Bytes) (given found fallback specs : List Spec) : Type 0 where
    by_identifier : given ≢ [] → specs ≡ given → Tiers q given found fallback specs
    by_query : given ≡ [] → q ≢ [] → found ≢ [] → specs ≡ found → Tiers q given found fallback specs
    by_fallback :
        given ≡ []
        → q ≢ []
        → found ≡ []
        → fallback ≢ []
        → specs ≡ fallback
        → Tiers q given found fallback specs
    by_default :
        given ≡ []
        → (q ≡ []) ⊎ ((found ≡ []) × (fallback ≡ []))
        → specs ≡ best_available ∷ []
        → Tiers q given found fallback specs

  choice-Tiers :
      (q : Bytes) (given found fallback : List Spec)
      → Tiers q given found fallback (
          or_else C
            (or_else C given (if is_empty q then [] else or_else C found fallback))
            (best_available ∷ []))
  choice-Tiers q (x ∷ given) found fallback = by_identifier (λ e. cc) refl
  choice-Tiers [] [] found fallback = by_default refl (inl refl) refl
  choice-Tiers (c ∷ q) [] (x ∷ found) fallback = by_query refl (λ e. cc) (λ e. cc) refl
  choice-Tiers (c ∷ q) [] [] (x ∷ fallback) = by_fallback refl (λ e. cc) refl (λ e. cc) refl
  choice-Tiers (c ∷ q) [] [] [] = by_default refl (inr (refl, refl)) refl

  -- The order of priority: identifiers that are given and parse are used alone, whatever the
  -- server answers; else the specs of a query that the server answers with some; else those of the
  -- fallback; else the best available.
  pub build_provider_specs-Tiers :
      (http_find : Bytes → Option (Found Spec)) (fetched : Option (Found Spec))
      (loc : LocationConfig)
      → Tiers loc.location_query
          (given_specs loc)
          (found_specs (http_find loc.location_query))
          (find_specs_by_query_fallback C fetched loc.location_query)
          (build_provider_specs C http_find fetched loc)
  unfolding build_provider_specs
  build_provider_specs-Tiers http_find fetched loc = by_answer (http_find loc.location_query)
    where
      by_answer :
          (r : Option (Found Spec))
          → Tiers loc.location_query
              (given_specs loc)
              (found_specs r)
              (find_specs_by_query_fallback C fetched loc.location_query)
              (or_else C
                (or_else C (given_specs loc) (
                  if is_empty loc.location_query
                  then []
                  else or_else C
                      (elim r as (λ _. List Spec) [ none ↦ [] | some res ↦ res.specs ])
                      (find_specs_by_query_fallback C fetched loc.location_query)))
                (best_available ∷ []))
      by_answer none = choice-Tiers loc.location_query (given_specs loc) [] _
      by_answer (some res) = choice-Tiers loc.location_query (given_specs loc) res.specs _
