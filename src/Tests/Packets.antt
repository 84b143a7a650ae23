-- ===== src/Tests/Packets.antt =====
-- vpn_core.go on concrete packets.
use urnetwork_client.Base.{
  ℕ, ◌≡◌, refl, ◌↔◌, true, false, [], ◌∷◌, Exists, none, some, Bytes, codes,
}
use urnetwork_client.Base.Int.{pos}
use urnetwork_client.Config.{VpnConfig}
use urnetwork_client.Inbound.{is_allowed, should_drop_inbound}
use urnetwork_client.Inbound.Policy.{TcpSegment, refused, should_drop_inbound_iff}
use urnetwork_client.Net.{IpNet, contains_ip, full_mask}
use urnetwork_client.Dataplane.{
  AddressParser, allow_inbound_cidrs, Filter, Plane, from_provider, from_tun, run,
}
use urnetwork_client.Dataplane.Allowlist.{sources, Admits, allow_inbound_cidrs_iff}
use urnetwork_client.Dataplane.Delivery.{delivered, forwarded, after, run-after}

-- An IPv4 packet from 10.0.0.7 with a TCP header whose flags are `flags`.
abbrev pub tcp_packet : ℕ → Bytes
tcp_packet flags =
    69 ∷ 0 ∷ 0 ∷ 40 ∷ 0 ∷ 0 ∷ 0 ∷ 0 ∷ 64 ∷ 6 ∷ 0 ∷ 0 ∷ 10 ∷ 0 ∷ 0 ∷ 7 ∷ 10 ∷ 255 ∷ 0 ∷ 2 ∷ 0 ∷ 80
    ∷ 0 ∷ 99 ∷ 0 ∷ 0 ∷ 0 ∷ 0 ∷ 0 ∷ 0 ∷ 0 ∷ 0 ∷ 80 ∷ flags ∷ 0 ∷ 0 ∷ 0 ∷ 0 ∷ 0 ∷ 0 ∷ []

abbrev ten : IpNet
ten = record { ip = 10 ∷ 0 ∷ 0 ∷ 0 ∷ []; mask = 255 ∷ 0 ∷ 0 ∷ 0 ∷ [] }

drops_syn : should_drop_inbound (tcp_packet 2) [] ≡ some true
unfolding should_drop_inbound is_allowed
drops_syn = refl

allows_syn : should_drop_inbound (tcp_packet 2) (some ten ∷ []) ≡ some false
unfolding should_drop_inbound is_allowed contains_ip
allows_syn = refl

should_drop_inbound_iff_example : (should_drop_inbound (tcp_packet 2) [] ≡ some true) ↔ (
    (src : Bytes) × (flags : ℕ) × TcpSegment (tcp_packet 2) src flags
    × (refused [] src flags ≡ true))
should_drop_inbound_iff_example = should_drop_inbound_iff (tcp_packet 2) []

abbrev filter : Filter
filter = record { enable_ipv6 = false; block_new = true; allow = [] }

abbrev plane : Plane
plane = record {
  pkts_in = some 0;
  bytes_in = some 0;
  pkts_out = some 0;
  bytes_out = none;
  written = [];
  sent = [];
}

run-after_example :
    run filter plane
      (from_provider (tcp_packet 2) ∷ from_tun (1 ∷ 2 ∷ []) ∷ from_provider (tcp_packet 16) ∷ [])
    ≡ some (
        after plane
          (delivered filter (
            from_provider (tcp_packet 2)
            ∷ from_tun (1 ∷ 2 ∷ [])
            ∷ from_provider (tcp_packet 16)
            ∷ []))
          (forwarded (
            from_provider (tcp_packet 2)
            ∷ from_tun (1 ∷ 2 ∷ [])
            ∷ from_provider (tcp_packet 16)
            ∷ [])))
run-after_example =
    run-after filter plane
      (from_provider (tcp_packet 2) ∷ from_tun (1 ∷ 2 ∷ []) ∷ from_provider (tcp_packet 16) ∷ [])
      (record { pkts_in = refl; bytes_in = refl; pkts_out = refl; bytes_out = tt })

-- It reads every address as 10.0.0.7 and every network as 10.0.0.0/8.
abbrev parser : AddressParser
parser = record { parse_ip = λ s. some (10 ∷ 0 ∷ 0 ∷ 7 ∷ []); parse_cidr = λ s. some ten }

abbrev config : VpnConfig
config = record {
  api_url = [];
  connect_url = [];
  tun_name = codes "urnet0";
  ip_cidr = codes "10.255.0.2/24";
  mtu = pos 1420;
  default_route = true;
  extra_routes = [];
  exclude_routes = [];
  dns_list = [];
  dns_service = [];
  dns_bootstrap = [];
  socks_listen = [];
  allow_domains = [];
  exclude_domains = [];
  allow_inbound_src_list = codes "10.0.0.7";
  allow_inbound_local = true;
  enable_ipv6 = false;
  enable_kill_switch = false;
  debug = false;
  stats_interval = pos 0;
  jwt = [];
  location = record { location_id = []; location_group_id = []; location_query = [] };
}

allow_inbound_cidrs_iff_example :
    (is_allowed (allow_inbound_cidrs parser config) (10 ∷ 0 ∷ 0 ∷ 7 ∷ []) ≡ true)
    ↔ Exists (Admits parser (10 ∷ 0 ∷ 0 ∷ 7 ∷ [])) (sources config)
allow_inbound_cidrs_iff_example = allow_inbound_cidrs_iff parser config (10 ∷ 0 ∷ 0 ∷ 7 ∷ [])

abbrev host_net : IpNet
host_net = record { ip = 10 ∷ 0 ∷ 0 ∷ 7 ∷ []; mask = full_mask 4 }
