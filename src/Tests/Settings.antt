-- ===== src/Tests/Settings.antt =====
-- util.go, config.go, logger.go, process.go and specs.go on concrete settings.
use urnetwork_client.Base.{◌≡◌, refl, List, [], ◌∷◌, none, some, Bytes, codes}
use urnetwork_client.Base.Int.{pos}
use urnetwork_client.Text.{equal, trim_space, contains_byte, cut_at, to_lower, contains}
use urnetwork_client.Util.Lists.{IsEntry}
use urnetwork_client.Config.{VpnConfig, ConfigFile, no_file, apply_config_file, parse_vpn_config}
use urnetwork_client.Config.Merge.{Keeps, apply_config_file-Keeps}
use urnetwork_client.Specs.{
  Connect, Location, Found, location_matches, read_query, match_value_fold, add_spec, takes_groups,
  spec_id, filter_locations_fallback, find_specs_by_query_fallback, build_provider_specs,
}
use urnetwork_client.Specs.Choice.{
  Pick, IsDistinct, Tiers, specs_of, specs_or_none, find_specs_by_query_fallback_lem,
  filter_locations_fallback-IsDistinct, build_provider_specs-Tiers,
}

abbrev entry_a : Bytes
entry_a = codes "a"

a-IsEntry : IsEntry entry_a
unfolding trim_space contains_byte
a-IsEntry = record { nonempty = λ e. cc; is_trimmed = refl; no_comma = refl }

-- A command line that gives nothing.
abbrev plain : VpnConfig
plain = parse_vpn_config (record { string = λ k. none; int = λ k. none; bool = λ k. none }) []

abbrev file : ConfigFile
file = record no_file { api_url = codes "https://example.org"; mtu = pos 1280 }

apply_config_file-Keeps_example : Keeps plain (apply_config_file plain file)
apply_config_file-Keeps_example = apply_config_file-Keeps plain file

abbrev arguments : List Bytes
arguments = codes "vpn" ∷ codes "--background=true" ∷ codes "--debug" ∷ []

-- Identifiers are texts, and a spec is the text behind a letter.
abbrev client : Connect
client = record {
  ProviderId = Bytes;
  Spec = Bytes;
  parse_id = λ s. some s;
  id_string = λ s. s;
  location_spec = λ s. b'l' ∷ s;
  group_spec = λ s. b'g' ∷ s;
  best_available = codes "best";
}

abbrev paris : Location
paris = record {
  location_id = codes "7";
  location_type = codes "city";
  name = codes "Paris";
  region = codes "IdF";
  region_location_id = codes "5";
  country = codes "France";
  country_code = codes "FR";
  country_location_id = codes "3";
}

abbrev found : Found Bytes
found = record {
  specs = [];
  groups = record { location_group_id = codes "7"; name = codes "Paris and Lyon" } ∷ [];
  locations = paris ∷ [];
}

find_specs_by_query_fallback_lem_example :
    find_specs_by_query_fallback client (some found) (codes "paris")
    ≡ specs_or_none client (filter_locations_fallback client (some found) (codes "paris"))
find_specs_by_query_fallback_lem_example =
    find_specs_by_query_fallback_lem client (some found) (codes "paris")

abbrev none_found : Found Bytes
none_found = record { specs = []; groups = []; locations = [] }

filter_locations_fallback-IsDistinct_example :
    (picks : List (Pick client)) × (codes "l3" ∷ [] ≡ specs_of client picks)
    × IsDistinct client picks
unfolding filter_locations_fallback location_matches equal read_query to_lower trim_space cut_at
    match_value_fold contains add_spec takes_groups spec_id
filter_locations_fallback-IsDistinct_example =
    filter_locations_fallback-IsDistinct client (some found) (codes "country:france") refl

build_provider_specs-Tiers_example :
    Tiers client
      (codes "paris")
      []
      []
      (find_specs_by_query_fallback client (some found) (codes "paris"))
      (build_provider_specs client
        (λ q. none)
        (some found)
        (record { location_id = []; location_group_id = []; location_query = codes "paris" }))
build_provider_specs-Tiers_example =
    build_provider_specs-Tiers client (λ q. none) (some found)
      (record { location_id = []; location_group_id = []; location_query = codes "paris" })
