-- ===== src/Tests/Proxy.antt =====
-- socks.go on concrete connections and datagrams.
use urnetwork_client.Base.{
  ◌+◌, ◌*◌, ◌≡◌, refl, ◌≢◌, ◌↔◌, ◌⊎◌, true, false, not, ◌&&◌, List, [], ◌∷◌, Exists, none, some,
  arith, Bytes, codes, ◌>>=◌,
}
use urnetwork_client.Text.{is_empty, contains_byte, trim_space, trim_suffix, to_lower}
use urnetwork_client.Net.{to4}
use urnetwork_client.Socks.{host_key, domain_matches, use_vpn, prefer_ipv4, itoa, join_host_port}
use urnetwork_client.Socks.Domains.{Covers, domain_matches_iff, use_vpn_iff}
use urnetwork_client.Socks.Server.{Accepted, connection, timed_out}
use urnetwork_client.Socks.Handshake.{
  World, Settings, tunnel, socks_reply, locate, handle_socks_conn,
}
use urnetwork_client.Socks.Handshake.Complete.{named, spelled, handle_socks_conn-connect}
use urnetwork_client.Socks.Handshake.Outcome.{Outcome, handle_socks_conn-Outcome}
use urnetwork_client.Socks.Datagram.{
  dropped, datagram, vpn, Relay, parse_datagram, route_datagram, reply_packet,
}
use urnetwork_client.Socks.Datagram.Header.{
  header, ipv4, as_ipv4, parse_datagram-header, parse_datagram-reply_packet,
}
use urnetwork_client.Socks.Datagram.Route.{Sent, route_datagram-Sent}
use urnetwork_client.Socks.Associate.{
  Ports, run_udp_associate, Move, from_client, client_loop, to_vpn, vpn_loop, run, start,
}
use urnetwork_client.Socks.Associate.Sockets.{Leaves, run_udp_associate-Leaves}

abbrev host : Bytes
host = codes "www.Example.com"

abbrev patterns : List Bytes
patterns = codes "EXAMPLE.com." ∷ []

domain_matches_iff_example :
    (domain_matches host patterns ≡ true) ↔ Exists (Covers (host_key host)) patterns
domain_matches_iff_example = domain_matches_iff host patterns

use_vpn_iff_example : (use_vpn host patterns [] ≡ true) ↔ (
    ((patterns ≡ []) ⊎ ((host ≢ []) × Exists (Covers (host_key host)) patterns))
    × ((host ≡ []) ⊎ (¬ Exists (Covers (host_key host)) [])))
use_vpn_iff_example = use_vpn_iff host patterns []

abbrev two_addresses : List Bytes
two_addresses =
    (32 ∷ 1 ∷ 0 ∷ 0 ∷ 0 ∷ 0 ∷ 0 ∷ 0 ∷ 0 ∷ 0 ∷ 0 ∷ 0 ∷ 0 ∷ 0 ∷ 0 ∷ 1 ∷ [])
    ∷ (1 ∷ 2 ∷ 3 ∷ 4 ∷ [])
    ∷ []

-- Every write and every dial succeeds, and every name has the two addresses.
abbrev world : World
world = record {
  accepts = λ sent p. true;
  lookup_ip = λ name. two_addresses;
  ip_string = λ ip. codes "1.2.3.4";
  dial = λ bound addr. none;
}

abbrev settings : Settings
settings = record { bind_if = codes "urnet0"; allow_domains = patterns; exclude_domains = [] }

handle_socks_conn-Outcome_example :
    Outcome world
      (handle_socks_conn world settings (5 ∷ 1 ∷ 0 ∷ 5 ∷ 2 ∷ 0 ∷ 1 ∷ [])).0
      (handle_socks_conn world settings (5 ∷ 1 ∷ 0 ∷ 5 ∷ 2 ∷ 0 ∷ 1 ∷ [])).1
handle_socks_conn-Outcome_example =
    handle_socks_conn-Outcome world settings (5 ∷ 1 ∷ 0 ∷ 5 ∷ 2 ∷ 0 ∷ 1 ∷ []) (
      omega arith,
      (omega arith, (omega arith, (omega arith, (omega arith, (omega arith, (omega arith, tt)))))),
    )

handle_socks_conn-connect_example :
    handle_socks_conn world settings (spelled (0 ∷ []) 0 3 (3 ∷ codes "a.b") 1 187 (9 ∷ [])) ≡ (
      record { unread = 9 ∷ []; sent = (5 ∷ 0 ∷ []) ∷ socks_reply 0 ∷ []; deadline = false },
      tunnel
          (use_vpn (codes "a.b") patterns [] && not (is_empty (codes "urnet0")))
          (codes "1.2.3.4:443"),
    )
unfolding locate prefer_ipv4 to4 join_host_port to_lower contains_byte itoa
handle_socks_conn-connect_example =
    handle_socks_conn-connect world settings (0 ∷ []) (9 ∷ []) (codes "1.2.3.4:443") (codes "a.b") 0
      1 187 (named (codes "a.b") (omega arith)) (omega arith) refl refl refl refl

short_datagram : parse_datagram (header 3 (1 ∷ b'a' ∷ []) 0 53 (7 ∷ [])) ≡ some dropped
unfolding parse_datagram
short_datagram = refl

parse_datagram-header_example :
    parse_datagram (header 1 (1 ∷ 2 ∷ 3 ∷ 4 ∷ []) 0 53 (7 ∷ []))
    ≡ some (datagram (some (1 ∷ 2 ∷ 3 ∷ 4 ∷ [])) [] (0 * 256 + 53) (7 ∷ []))
parse_datagram-header_example =
    parse_datagram-header 0 53 (7 ∷ []) (ipv4 (1 ∷ 2 ∷ 3 ∷ 4 ∷ []) refl) (omega arith)

parse_datagram-reply_packet_example :
    parse_datagram (reply_packet (1 ∷ 2 ∷ 3 ∷ 4 ∷ []) 53 (7 ∷ []))
    ≡ some (datagram (some (1 ∷ 2 ∷ 3 ∷ 4 ∷ [])) [] 53 (7 ∷ []))
unfolding to4
parse_datagram-reply_packet_example =
    parse_datagram-reply_packet 53 (7 ∷ []) (as_ipv4 (1 ∷ 2 ∷ 3 ∷ 4 ∷ []) (1 ∷ 2 ∷ 3 ∷ 4 ∷ []) refl)
      (omega arith)

abbrev relay : Relay
relay = record {
  lookup_ip = λ name. two_addresses;
  allow_domains = patterns;
  exclude_domains = [];
  has_vpn = true;
  has_system = true;
}

route_datagram-Sent_example :
    Sent relay none host 53
      (7 ∷ [])
      (record { via = vpn; ip = some (1 ∷ 2 ∷ 3 ∷ 4 ∷ []); port = 53; payload = 7 ∷ [] })
unfolding route_datagram use_vpn prefer_ipv4 to4 domain_matches to_lower trim_space trim_suffix
route_datagram-Sent_example = route_datagram-Sent relay none host 53 (7 ∷ []) refl

abbrev ports : Ports
ports = record {
  client = some (127 ∷ 0 ∷ 0 ∷ 1 ∷ [], 4000);
  accepts = λ reply. true;
  vpn_opens = true;
  system_opens = true;
}

run_udp_associate-Leaves_example :
    Leaves ports true (codes "urnet0") (run_udp_associate ports true (codes "urnet0"))
run_udp_associate-Leaves_example = run_udp_associate-Leaves ports true (codes "urnet0")

abbrev question : Bytes
question = header 1 (1 ∷ 2 ∷ 3 ∷ 4 ∷ []) 0 53 (7 ∷ [])

abbrev answer_first : List Move
answer_first =
    client_loop ∷ client_loop ∷ to_vpn (some (1 ∷ 2 ∷ 3 ∷ 4 ∷ [], 53)) (8 ∷ []) ∷ vpn_loop ∷ []

-- A packet of the VPN socket comes before any client. The loop then takes client 1 from the channel
-- while client 2 sends, and stores it over client 2.
stale_client :
    (run relay start (
        to_vpn none (8 ∷ [])
        ∷ from_client (1 ∷ []) []
        ∷ client_loop
        ∷ client_loop
        ∷ vpn_loop
        ∷ from_client (2 ∷ []) []
        ∷ vpn_loop
        ∷ [])
      >>= λ t. t.last_client)
    ≡ some (1 ∷ [])
unfolding run parse_datagram route_datagram
stale_client = refl

abbrev accepted : List Accepted
accepted = connection 1 ∷ timed_out ∷ connection 2 ∷ []
