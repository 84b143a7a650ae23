-- ===== src/Tests/Commands.antt =====
-- main.go, cmd_locations.go, api_http.go and the startup line on concrete options and answers.
use urnetwork_client.Base.{
  ◌≡◌, ◌↔◌, refl, inl, inr, true, ◌||◌, List, [], ◌∷◌, ◌++◌, All, none, some, arith, Bytes, codes,
}
use urnetwork_client.Config.{VpnConfig, parse_vpn_config}
use urnetwork_client.Http.{
  Client, failed, fetched, no_answer, get, post, http_find_locations, http_provider_locations,
}
use urnetwork_client.Http.Requests.{IsFound, slashes, fetched_iff}
use urnetwork_client.Locations.{cmd_locations, is_wildcard}
use urnetwork_client.Locations.Filtered.{first_with_entries, second, cmd_locations-filtered}
use urnetwork_client.Main.{
  login, verify, save_jwt, mint_client, quick_connect, find_providers, open_transports, locations,
  socks, vpn, usage, command_name, main, spawns,
}
use urnetwork_client.Main.Dispatch.{IsOnly, main-Launch}
use urnetwork_client.Process.Filter.{Split, IsForeground, IsBackground}
use urnetwork_client.Specs.{Connect, Found, filter_locations_fallback}
use urnetwork_client.Startup.{startup_line}
use urnetwork_client.Startup.Secret.{startup_line-token}
use urnetwork_client.Text.{equal, trim_space, trim_right_byte}
use urnetwork_client.Util.{Opts, must_bool, get_string_or}

abbrev config : VpnConfig
config = parse_vpn_config (record { string = λ k. none; int = λ k. none; bool = λ k. none }) []

startup_line-token_example :
    startup_line (record config { jwt = codes "secret" })
    ≡ startup_line (record config { jwt = codes "other" })
unfolding trim_space
startup_line-token_example = startup_line-token config (codes "secret") (codes "other") refl

abbrev lyon : Found Bytes
lyon = record {
  specs = [];
  groups = record { location_group_id = codes "7"; name = codes "Lyon" } ∷ [];
  locations = [];
}

abbrev api : Client Bytes
api = record {
  is_url = λ url. true;
  marshal = λ q. q;
  do_request = λ request. some (record { status = 200; text = []; decoded = some lyon });
}

abbrev base : Bytes
base = codes "https://api"

fetched_iff_example :
    ((http_find_locations api (base ++ slashes 2) (codes "t") (codes "lyon") ≡ fetched lyon)
      ↔ IsFound api post base
          (codes "/network/find-locations")
          (codes "t")
          (some (codes "application/json"))
          (codes "lyon")
          lyon)
    × ((http_provider_locations api (base ++ slashes 2) (codes "t") ≡ fetched lyon)
        ↔ IsFound api get base (codes "/network/provider-locations") (codes "t") none [] lyon)
unfolding trim_right_byte
fetched_iff_example = fetched_iff api base (codes "t") (codes "lyon") 2 lyon refl

abbrev library : Connect
library = record {
  ProviderId = Bytes;
  Spec = Bytes;
  parse_id = λ s. some s;
  id_string = λ s. s;
  location_spec = λ s. s;
  group_spec = λ s. s;
  best_available = [];
}

cmd_locations-filtered_example :
    cmd_locations library (failed no_answer) (failed no_answer) (some lyon) (codes "lyon")
    ≡ first_with_entries none
        (second (filter_locations_fallback library (some lyon) (codes "lyon")))
unfolding is_wildcard equal
cmd_locations-filtered_example =
    cmd_locations-filtered library (failed no_answer) (failed no_answer) (some lyon) (codes "lyon")
      refl

-- `vpn --background`
abbrev detached : Opts
detached = record {
  string = λ k. none;
  int = λ k. none;
  bool = λ k. some (equal k (codes "vpn") || equal k (codes "--background"));
}

detached-IsOnly : IsOnly detached vpn
unfolding IsOnly must_bool command_name equal
detached-IsOnly login = inr (inr refl)
detached-IsOnly verify = inr (inr refl)
detached-IsOnly save_jwt = inr (inr refl)
detached-IsOnly mint_client = inr (inr refl)
detached-IsOnly quick_connect = inr (inr refl)
detached-IsOnly find_providers = inr (inr refl)
detached-IsOnly open_transports = inr (inr refl)
detached-IsOnly locations = inr (inr refl)
detached-IsOnly socks = inr (inr refl)
detached-IsOnly vpn = inr (inl refl)
detached-IsOnly usage = inl refl

abbrev args : List Bytes
args = codes "vpn" ∷ codes "--background" ∷ []

main-Launch_example :
    (kept : List Bytes) × (dropped : List Bytes) × (main detached
        (codes "urnet-client" ∷ args)
        (λ p. true)
      ≡ spawns (some kept))
    × Split args kept dropped
    × All IsForeground kept
    × All IsBackground dropped
unfolding must_bool get_string_or trim_space command_name equal
main-Launch_example =
    main-Launch detached vpn (codes "urnet-client") args (λ p. true) (λ e. ground (arith, e)) refl
      detached-IsOnly
