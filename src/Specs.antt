-- ===== src/Specs.antt =====
-- specs.go: the choice of provider specs from the location settings. The identifiers and the specs
-- of the connect library, and the two HTTP calls, are parameters.
pub mod Query
pub mod Choice
use urnetwork_client.Base.{
  ℕ, Bool, true, false, not, ◌&&◌, ◌||◌, List, [], ◌∷◌, ◌++◌, Option, none, some, Bytes, codes,
  if◌then◌else◌,
}
use urnetwork_client.Config.{LocationConfig}
use urnetwork_client.Text.{equal, is_empty, trim_space, to_lower, equal_fold, contains, cut_at}

-- `connect.ParseId`, `id.String()` and the three kinds of spec that the code makes.
pub record Connect : Type 1 where
  pub ProviderId : Type 0
  pub Spec : Type 0
  pub parse_id : Bytes → Option ProviderId
  pub id_string : ProviderId → Bytes
  pub location_spec : ProviderId → Spec
  pub group_spec : ProviderId → Spec
  pub best_available : Spec

-- api_http.go, the entries of `findLocationsHTTPResult`; the counts are only printed.
pub record Group : Type 0 where
  pub location_group_id : Bytes
  pub name : Bytes

pub record Location : Type 0 where
  pub location_id : Bytes
  pub location_type : Bytes
  pub name : Bytes
  pub region : Bytes
  pub region_location_id : Bytes
  pub country : Bytes
  pub country_code : Bytes
  pub country_location_id : Bytes

pub record Found (S : Type 0) : Type 0 where
  pub specs : List S
  pub groups : List Group
  pub locations : List Location

-- `parseKV`: the texts before and behind the first colon.
unfoldable pub parse_kv : Bytes → Option (Bytes × Bytes)
parse_kv q = if is_empty q then none else cut_at q b':'

unfoldable pub match_value_fold : Bytes → Bytes → Bool
match_value_fold s value =
    let t = to_lower (trim_space s) in
    if equal value (b'*' ∷ []) then not (is_empty t) else contains t value

-- The key, the value and the normalised value of a query.
unfoldable pub read_query : Bytes → Bytes × Bytes × Bytes
unfolding parse_kv
read_query q =
    let kv : Bytes × Bytes = elim (parse_kv q) [
      | some (k, v) ↦ (k, v)
      | none ↦ (codes "name", trim_space q)
    ] in
    (to_lower (trim_space kv.0), kv.1, to_lower (trim_space kv.1))

unfoldable pub takes_groups : Bytes → Bool
takes_groups key = equal key (codes "group") || equal key (codes "name")

unfoldable pub group_matches : Bytes → Group → Bool
group_matches norm g = match_value_fold g.name norm

-- The switch over the key.
unfoldable pub location_matches : Bytes → Bytes → Bytes → Location → Bool
location_matches key val norm l =
    if equal key (codes "country")
    then match_value_fold l.country norm || match_value_fold l.name norm
    else if equal key (codes "country_code")
    then equal_fold (trim_space l.country_code) val
    else if equal key (codes "region")
    then (match_value_fold l.region norm
        || (equal l.location_type (codes "region") && match_value_fold l.name norm))
    else if equal key (codes "name")
    then match_value_fold l.name norm
    else (match_value_fold l.name norm
        || match_value_fold l.country norm
        || match_value_fold l.region norm)

-- `idStr`
unfoldable pub spec_id : Bytes → Location → Bytes
spec_id key l =
    let by_country =
      if equal key (codes "country") && not (is_empty l.country_location_id)
      then l.country_location_id
      else l.location_id in
    if equal key (codes "region") && not (is_empty l.region_location_id)
    then l.region_location_id
    else by_country

abbrev keep {ℓ} : {A : Type ℓ} → (A → Bool) → List A → List A
keep p [] = []
keep p (x ∷ xs) = let rest = keep p xs in if p x then x ∷ rest else rest

unfoldable pub is_seen : Bytes → List Bytes → Bool
is_seen s [] = false
is_seen s (t ∷ ts) = equal s t || is_seen s ts

module _ (C : Connect) where
  open C use {ProviderId, Spec, parse_id, id_string, location_spec, group_spec, best_available}

  -- The identifiers seen, and the specs so far.
  abbrev Specs : Type 0
  Specs = List Bytes × List Spec

  -- `if id, err := ParseId(s); err == nil && !seen[id.String()] { … }`
  unfoldable pub add_spec : (ProviderId → Spec) → Bytes → Specs → Specs
  unfolding is_seen
  add_spec make text (seen, specs) = elim (parse_id text) [
    | none ↦ (seen, specs)
    | some id ↦
        (if is_seen (id_string id) seen
          then (seen, specs)
          else (id_string id ∷ seen, specs ++ (make id ∷ [])))
  ]

  -- The loops of `findSpecsByQueryFallback`, with the test inside.
  unfoldable pub find_groups : Bytes → List Group → Specs → Specs
  find_groups norm [] st = st
  find_groups norm (g ∷ gs) st =
      find_groups norm gs
        (if group_matches norm g then add_spec group_spec g.location_group_id st else st)

  unfoldable pub find_locations : Bytes → Bytes → Bytes → List Location → Specs → Specs
  find_locations key val norm [] st = st
  find_locations key val norm (l ∷ ls) st =
      find_locations key val norm ls
        (if location_matches key val norm l then add_spec location_spec (spec_id key l) st else st)

  -- The loops of `filterLocationsFallback` over what it kept.
  unfoldable pub group_specs : List Group → Specs → Specs
  group_specs [] st = st
  group_specs (g ∷ gs) st = group_specs gs (add_spec group_spec g.location_group_id st)

  unfoldable pub location_specs : Bytes → List Location → Specs → Specs
  location_specs key [] st = st
  location_specs key (l ∷ ls) st = location_specs key ls (add_spec location_spec (spec_id key l) st)

  -- The first argument is what `httpProviderLocations` gave, nothing on an error.
  unfoldable pub filter_locations_fallback :
      Option (Found Spec) → Bytes → Option (List Spec × Found Spec)
  unfolding group_specs location_specs
  filter_locations_fallback none q = none
  filter_locations_fallback (some res) q =
      let (key, val, norm) = read_query q in
      let groups = if takes_groups key then keep (group_matches norm) res.groups else [] in
      let locations = keep (location_matches key val norm) res.locations in
      some (
        (location_specs key locations (group_specs groups ([], []))).1,
        record { specs = []; groups = groups; locations = locations },
      )

  unfoldable pub find_specs_by_query_fallback : Option (Found Spec) → Bytes → List Spec
  unfolding filter_locations_fallback find_groups find_locations
  find_specs_by_query_fallback fetched q = elim (filter_locations_fallback fetched q) [
    | none ↦ []
    | some (_, res) ↦
        let (key, val, norm) = read_query q in
        (find_locations key val norm res.locations
          (if takes_groups key then find_groups norm res.groups ([], []) else ([], []))).1
  ]

  -- `if id, err := ParseId(text); err == nil { specs = append(specs, …) }` for a given text.
  abbrev by_id : (ProviderId → Spec) → Bytes → List Spec
  by_id make text =
      if is_empty text then [] else elim (parse_id text) [ none ↦ [] | some id ↦ make id ∷ [] ]

  abbrev or_else : List Spec → List Spec → List Spec
  or_else specs other = if is_empty specs then other else specs

  -- The two HTTP calls are functions of the query and of nothing.
  unfoldable pub build_provider_specs :
      (Bytes → Option (Found Spec)) → Option (Found Spec) → LocationConfig → List Spec
  unfolding find_specs_by_query_fallback
  build_provider_specs http_find fetched loc =
      let given = by_id location_spec loc.location_id ++ by_id group_spec loc.location_group_id in
      let q = loc.location_query in
      let found : List Spec = elim (http_find q) [ none ↦ [] | some res ↦ res.specs ] in
      let queried =
        if is_empty q then [] else or_else found (find_specs_by_query_fallback fetched q) in
      or_else (or_else given queried) (best_available ∷ [])
