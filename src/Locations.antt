-- ===== src/Locations.antt =====
-- cmd_locations.go: what the `locations` command lists.
pub mod Filtered
use urnetwork_client.Base.{
  ℕ, Bool, true, false, not, ◌&&◌, ◌||◌, List, [], ◌∷◌, ◌++◌, Option, none, some, Bytes, codes,
  if◌then◌else◌,
}
use urnetwork_client.Http.{HttpError, Fetched, failed, fetched}
use urnetwork_client.Session.{is_one_of}
use urnetwork_client.Specs.{Connect, Found, Location, filter_locations_fallback}
use urnetwork_client.Text.{is_empty}

pub data Answer (S : Type 0) : Type 0 where
  error : HttpError → Answer S
  no_results : Answer S
  listed : Found S → Answer S

-- A query for everything.
unfoldable pub is_wildcard : Bytes → Bool
unfolding is_one_of
is_wildcard q =
    is_one_of q ([] ∷ codes "*" ∷ codes "country:*" ∷ codes "region:*" ∷ codes "group:*" ∷ [])

abbrev pub has_entries : {S : Type 0} → Found S → Bool
has_entries r = not (is_empty r.groups && is_empty r.locations)

-- The end of the choice, from the specs and the result that are left.
unfoldable pub list_rest : {S : Type 0} → List S → Option (Found S) → Answer S
list_rest specs none = no_results
list_rest specs (some r) = if is_empty specs && not (has_entries r) then no_results else listed r

module _ (C : Connect) where
  open C use {Spec}

  -- Behind a search that gave nothing: what the fallback gives, over what the search gave.
  unfoldable pub fall_back : Option (Found Spec) → Bytes → Option (Found Spec) → Answer Spec
  unfolding filter_locations_fallback list_rest
  fall_back fetched_again q res = elim (filter_locations_fallback C fetched_again q) [
    | none ↦ list_rest [] res
    | some (specs, r) ↦ list_rest specs (some r)
  ]

  -- `cmdLocations`, behind the token: the provider locations, the found locations, and the provider
  -- locations that the fallback fetches, nothing on an error.
  unfoldable pub cmd_locations :
      Fetched Spec → Fetched Spec → Option (Found Spec) → Bytes → Answer Spec
  unfolding is_wildcard fall_back
  cmd_locations provided found fetched_again q =
      if is_wildcard q
      then elim provided [ failed e ↦ error e | fetched r ↦ listed r ]
      else elim found [
        | failed e ↦ fall_back fetched_again q none
        | fetched r ↦ (if has_entries r then listed r else fall_back fetched_again q (some r))
      ]

-- The identifier and the place that a location is listed with.
unfoldable pub listed_id : Location → Bytes
listed_id l =
    if not (is_empty l.region_location_id)
    then l.region_location_id
    else if not (is_empty l.country_location_id)
    then l.country_location_id
    else l.location_id

unfoldable pub listed_name : Location → Bytes
listed_name l =
    let extra = if is_empty l.region then l.country else l.region in
    if is_empty extra then l.name else l.name ++ (codes " (" ++ (extra ++ codes ")"))
