-- ===== src/Tests/Courses.antt =====
-- Whole sessions on concrete settings and answers: the traces of `cmdVpn`, the lines on the
-- counters, what is let in, and the route managers.
use urnetwork_client.Base.{
  ◌≡◌, refl, inl, true, false, List, [], ◌∷◌, All, none, some, arith, Bytes, codes, if◌then◌else◌,
}
use urnetwork_client.Config.{VpnConfig, parse_vpn_config}
use urnetwork_client.Darwin.Routes.{Shell}
use urnetwork_client.Darwin.Session.{deadline, tick, leaves_loop}
use urnetwork_client.Darwin.Whole as MacOs
use urnetwork_client.Darwin.Whole.Ordered.{darwin_cmd_vpn-IsOrdered}
use urnetwork_client.Dataplane.{
  AddressParser, Filter, from_provider, from_tun, run, allow_inbound_cidrs, block_new_inbound,
  Plane, Event, session_filter,
}
use urnetwork_client.Dataplane.Guarded.{IsLetIn, run-IsLetIn}
use urnetwork_client.Dataplane.Networks.{IsNetParser, IsEntry, allow_inbound_cidrs-IsEntry}
use urnetwork_client.Dataplane.Stats.{
  Moment, moves, ticks, arrives, reads, receiver, sender, idle, takes, new_plane, new_live,
  run_stats,
}
use urnetwork_client.Dataplane.Stats.Reported.{Reported}
use urnetwork_client.Darwin.Routes as Darwin
use urnetwork_client.Darwin.Routes.Kept as Kept
use urnetwork_client.Darwin.Routes.Methods as Methods
use urnetwork_client.Linux.Routes.{Names, Session}
use urnetwork_client.Routes.{Call, add_split_default, add_exclude, add_dns_server_routes}
use urnetwork_client.Linux.Whole as Linux
use urnetwork_client.Logger.{info, warn, debug, rank, is_enabled, stderr, Entry, write_log}
use urnetwork_client.Session.Course.Ordered.{IsOrdered}
use urnetwork_client.Text.{equal}
use urnetwork_client.Tests.Packets.{tcp_packet}

abbrev open_filter : Filter
open_filter = record { enable_ipv6 = false; block_new = false; allow = [] }

-- A packet of each direction, with a tick whose first load comes between the two counters of the first
-- packet.
abbrev moments : List Moment
moments =
    moves (arrives (69 ∷ 0 ∷ []))
    ∷ moves receiver
    ∷ ticks (reads (69 ∷ 1 ∷ 2 ∷ []) ∷ []) (sender ∷ []) (receiver ∷ [])
    ∷ moves sender
    ∷ []

-- One packet, and no bytes yet.
run_stats_split :
    run_stats open_filter new_live moments
    ≡ some (
      record {
        incoming = idle;
        outgoing = idle;
        pkts_in = 1;
        bytes_in = 2;
        pkts_out = 1;
        bytes_out = 3;
        written = (69 ∷ 0 ∷ []) ∷ [];
        sent = (69 ∷ 1 ∷ 2 ∷ []) ∷ [];
      },
      record { pkts_in = 1; bytes_in = 0; pkts_out = 1; bytes_out = 0 } ∷ [],
    )
unfolding run_stats takes
run_stats_split = refl

-- A session with a TUN, a proxy and a default route.
abbrev config : VpnConfig
config =
    parse_vpn_config
      (record {
        string = λ k.
            if equal k (codes "--tun")
            then some (codes "urnet0")
            else if equal k (codes "--socks")
            then some (codes "127.0.0.1:1080")
            else none;
        int = λ k. none;
        bool = λ k. some (equal k (codes "--default_route"));
      })
      []

abbrev names : Names
names = record {
  url_host = λ s. some (codes "api.example.org");
  lookup_ip = λ host. (1 ∷ 2 ∷ 3 ∷ 4 ∷ []) ∷ [];
  ip_string = λ ip. codes "1.2.3.4";
}

abbrev box : Linux.Host
box = record {
  names = names;
  command_ok = λ log. true;
  creates = λ name. true;
  default_routes = some (codes "default via 192.168.1.1 dev eth0\n");
  listens = λ s. true;
  level = info;
}

abbrev shell : Shell
shell log c = record { is_ok = true; out = [] }

abbrev mac : MacOs.Host
mac = record {
  names = names;
  shell = shell;
  creates = λ name. some (codes "utun4");
  default_route = some (codes "gateway: 192.168.1.1\n");
  resolvers = none;
  listens = λ s. false;
  level = debug;
  wakes = tick 0 1 ∷ deadline ∷ [];
}

darwin_cmd_vpn-IsOrdered_example : IsOrdered (MacOs.cmd_vpn mac config)
darwin_cmd_vpn-IsOrdered_example = darwin_cmd_vpn-IsOrdered mac config

-- A parser that knows one address.
abbrev loopback : Bytes
loopback = 0 ∷ 0 ∷ 0 ∷ 0 ∷ 0 ∷ 0 ∷ 0 ∷ 0 ∷ 0 ∷ 0 ∷ 0 ∷ 0 ∷ 0 ∷ 0 ∷ 0 ∷ 1 ∷ []

abbrev parser : AddressParser
parser = record {
  parse_ip = λ s. some loopback;
  parse_cidr = λ s. some (record { ip = 10 ∷ 0 ∷ 0 ∷ 0 ∷ []; mask = 255 ∷ 0 ∷ 0 ∷ 0 ∷ [] });
}

parser-IsNetParser : IsNetParser parser
parser-IsNetParser = record {
  ip_is_long = λ s ip h. ground (arith, h);
  cidr_is_net = λ s. inl (refl, refl);
}

abbrev local : VpnConfig
local = record config {
  allow_inbound_local = true;
  allow_inbound_src_list = codes "::1, ,8.0.0.0/8";
}

allow_inbound_cidrs-IsEntry_example : All IsEntry (allow_inbound_cidrs parser local)
allow_inbound_cidrs-IsEntry_example = allow_inbound_cidrs-IsEntry parser parser-IsNetParser local

abbrev entries : List Entry
entries =
    record { asked = info; time = codes "12:00"; message = codes "a" }
    ∷ record { asked = warn; time = codes "12:01"; message = codes "b" }
    ∷ []

writes_warning : write_log warn entries ≡ (stderr, codes "12:01 [WARN] b") ∷ []
unfolding write_log is_enabled rank
writes_warning = refl

leaves_at_deadline : leaves_loop (tick 0 1 ∷ tick 0 2 ∷ deadline ∷ []) ≡ true
unfolding leaves_loop
leaves_at_deadline = refl

-- A SYN to a host behind the TUN, and a packet of the host.
abbrev mixed : List Event
mixed = from_provider (tcp_packet 2) ∷ from_tun (69 ∷ []) ∷ from_provider (tcp_packet 16) ∷ []

run-IsLetIn_example :
    (s : Plane) × (run (session_filter parser local) new_plane mixed ≡ some s)
    × All (IsLetIn parser local) s.written
unfolding block_new_inbound
run-IsLetIn_example = run-IsLetIn parser local mixed refl

abbrev calls : List Call
calls =
    add_split_default
    ∷ add_exclude (codes "10.0.0.0/8")
    ∷ add_dns_server_routes (codes "9.9.9.9" ∷ []) false
    ∷ []
