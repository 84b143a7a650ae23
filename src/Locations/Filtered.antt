-- ===== src/Locations/Filtered.antt =====
-- cmd_locations.go: the answer to a query that filters.
use urnetwork_client.Base.{
  ◌≡◌, refl, sym, ◌∙◌, inl, inr, true, false, List, [], ◌∷◌, Option, none, some, arith, Bytes,
  if◌then◌else◌, Bool-cases,
}
use urnetwork_client.Http.{Fetched, failed, fetched}
use urnetwork_client.Specs.{
  Connect, Found, Group, Location, group_specs, location_specs, filter_locations_fallback,
}
use urnetwork_client.Locations.{
  Answer, no_results, listed, is_wildcard, has_entries, list_rest, fall_back, cmd_locations,
}

-- The first of two results with entries.
abbrev pub first_with_entries : {S : Type 0} → Option (Found S) → Option (Found S) → Answer S
first_with_entries none none = no_results
first_with_entries none (some r) = if has_entries r then listed r else no_results
first_with_entries (some r) none = if has_entries r then listed r else no_results
first_with_entries (some r) (some s) =
    if has_entries r then listed r else if has_entries s then listed s else no_results

abbrev pub found_of : {S : Type 0} → Fetched S → Option (Found S)
found_of (failed e) = none
found_of (fetched r) = some r

abbrev pub second : {A B : Type 0} → Option (A × B) → Option B
second none = none
second (some (a, b)) = some b

-- Without entries there are no specs, so the test on the specs changes nothing.
list_rest-specs :
    (C : Connect) (key : Bytes) (gs : List Group) (ls : List Location)
    → let r : Found (C.Spec) = record { specs = []; groups = gs; locations = ls } in
      list_rest (location_specs C key ls (group_specs C gs ([], []))).1 (some r)
      ≡ (if has_entries r then listed r else no_results)
unfolding list_rest location_specs group_specs
list_rest-specs C key [] [] = refl
list_rest-specs C key [] (l ∷ ls) = ground arith
list_rest-specs C key (g ∷ gs) ls = ground arith

listed_first :
    {S : Type 0} (r : Found S) (o : Option (Found S))
    → has_entries r ≡ true
    → first_with_entries (some r) o ≡ listed r
listed_first r none h = rw h refl
listed_first r (some s) h = rw h refl

later_first :
    {S : Type 0} (r : Found S) (o : Option (Found S))
    → has_entries r ≡ false
    → first_with_entries none o ≡ first_with_entries (some r) o
later_first r none h = rw h refl
later_first r (some s) h = rw h refl

module _ (C : Connect) where
  open C use {Spec}

  fall_back-none :
      (again : Option (Found Spec)) (q : Bytes)
      → fall_back C again q none
        ≡ first_with_entries none (second (filter_locations_fallback C again q))
  unfolding fall_back filter_locations_fallback list_rest
  fall_back-none none q = refl
  fall_back-none (some r) q = list_rest-specs C _ _ _

  fall_back-some :
      (again : Option (Found Spec)) (q : Bytes) (r : Found Spec)
      → has_entries r ≡ false
      → fall_back C again q (some r)
        ≡ first_with_entries (some r) (second (filter_locations_fallback C again q))
  unfolding fall_back filter_locations_fallback list_rest
  fall_back-some none q r h = rw h refl
  fall_back-some (some s) q r h =
      fall_back-none (some s) q ∙ later_first r (second (filter_locations_fallback C (some s) q)) h

  -- Where the query filters, the command lists the first of two results that has a group or a
  -- location: what the search found, and what the fallback kept of the provider locations. If neither
  -- has one it says so, and a failed search is no error.
  pub cmd_locations-filtered :
      (provided found : Fetched Spec) (again : Option (Found Spec)) (q : Bytes)
      → is_wildcard q ≡ false
      → cmd_locations C provided found again q
        ≡ first_with_entries (found_of found) (second (filter_locations_fallback C again q))
  unfolding cmd_locations
  cmd_locations-filtered provided (failed e) again q h = rw h (fall_back-none again q)
  cmd_locations-filtered provided (fetched r) again q h = elim (Bool-cases (has_entries r)) [
    | inl k ↦ rw (h, k) (sym (listed_first r (second (filter_locations_fallback C again q)) k))
    | inr k ↦ rw (h, k) (fall_back-some again q r k)
  ]
