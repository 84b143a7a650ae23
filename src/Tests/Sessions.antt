-- ===== src/Tests/Sessions.antt =====
-- routes_linux.go, vpn_linux.go, vpn_darwin.go and jwt.go on a concrete session.
use urnetwork_client.Base.{◌≡◌, refl, true, false, [], ◌∷◌, none, some, Bytes, codes}
use urnetwork_client.Base.Int.{negsuc}
use urnetwork_client.Config.{VpnConfig, parse_vpn_config}
use urnetwork_client.Text.{equal, trim_space, trim_prefix, has_prefix, split}
use urnetwork_client.Darwin.{get_default_gateway}
use urnetwork_client.Linux.{planned, opening}
use urnetwork_client.Linux.Routes.{Names, via, add_route, words, new_manager, add_kill_switch_route}
use urnetwork_client.Linux.Routes.Cleanup.{Undone}
use urnetwork_client.Linux.Routes.KillSwitch.{Guard, add_kill_switch_route-Guard}
use urnetwork_client.Linux.Undo.{opening-Undone}
use urnetwork_client.Linux.Gateways.{atoi, linux_list_default_routes, detect_gateway}
use urnetwork_client.Linux.Gateways.Choice.{chosen, detect_gateway-chosen}

abbrev gw : Bytes
gw = codes "192.168.1.1"

abbrev dev : Bytes
dev = codes "eth0"

-- A command line with `--default_route` and `--kill_switch`.
abbrev config : VpnConfig
config = parse_vpn_config (record { string = λ k. none; int = λ k. none; bool = λ k. some true }) []

abbrev names : Names
names = record {
  url_host = λ s. some (codes "api.example.org:443");
  lookup_ip = λ host. (1 ∷ 2 ∷ 3 ∷ 4 ∷ []) ∷ [];
  ip_string = λ ip. codes "1.2.3.4";
}

add_route_words :
    words (add_route (codes "10.0.0.0/8") (via gw dev))
    ≡ codes "ip"
      ∷ codes "route"
      ∷ codes "add"
      ∷ codes "10.0.0.0/8"
      ∷ codes "via"
      ∷ gw
      ∷ codes "dev"
      ∷ dev
      ∷ []
unfolding words
add_route_words = refl

opening-Undone_example :
    Undone names (planned config) (opening (λ log. true) config (codes "urnet0") gw dev)
opening-Undone_example = opening-Undone names (λ log. true) config (codes "urnet0") gw dev

add_kill_switch_route-Guard_example :
    Guard
      (λ log. false)
      (new_manager (codes "urnet0") gw dev, [])
      (add_kill_switch_route (λ log. false) (new_manager (codes "urnet0") gw dev, []))
add_kill_switch_route-Guard_example =
    add_kill_switch_route-Guard (λ log. false) (new_manager (codes "urnet0") gw dev, [])

abbrev routes : Bytes
routes =
    codes "default dev wg0 scope link\ndefault via 192.168.1.1 dev eth0 proto dhcp metric 100\n"

detects_gateway : detect_gateway (codes "urnet0") (some routes) ≡ (gw, dev)
unfolding detect_gateway trim_space equal
detects_gateway = refl

atoi_negative : atoi (codes "-12") ≡ some (negsuc 11)
unfolding atoi equal
atoi_negative = refl

detect_gateway-chosen_example :
    detect_gateway (codes "urnet0") (some routes) ≡ elim (linux_list_default_routes (some routes)) [
      | none ↦ ([], [])
      | some rs ↦ chosen (codes "urnet0") rs
    ]
detect_gateway-chosen_example = detect_gateway-chosen (codes "urnet0") (some routes)

abbrev scutil : Bytes
scutil =
    codes
      "resolver #1\n  nameserver[0] : 1.1.1.1\n  nameserver[1] : 1.1.1.1\n  nameserver[2] : fe80::1\n"

reads_gateway :
    get_default_gateway (some (codes "  gateway: 192.168.1.1\n  interface: en0\n"))
    ≡ some (gw, codes "en0")
unfolding get_default_gateway trim_space trim_prefix has_prefix split
reads_gateway = refl
