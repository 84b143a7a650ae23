-- ===== src/Socks/Associate.antt =====
-- socks.go, `runUDPAssociate`: its sockets, and its loops. The loop over the client's datagrams
-- and the two that send replies back run in goroutines that share an atomic pointer and a channel
-- of one place, so a run is a list of their single steps in any order. Opening of sockets is a
-- parameter.
pub mod Sockets
pub mod Kept
pub mod Steps
pub mod Answered
pub mod Replies
use urnetwork_client.Base.{
  ℕ, ◌+◌, ◌*◌, ◌/◌, ◌%◌, Bool, true, false, not, ◌&&◌, List, [], ◌∷◌, ◌++◌, Option, none, some,
  Bytes, if◌then◌else◌, ◌>>=◌,
}
use urnetwork_client.Net.{to4}
use urnetwork_client.Text.{is_empty}
use urnetwork_client.Socks.Datagram.{
  Relay, Parsed, Outgoing, parse_datagram, route_datagram, reply_packet,
}
use urnetwork_client.Socks.Handshake.{socks_reply}

pub data Socket : Type 0 where
  client_socket vpn_socket system_socket : Socket

-- Which sockets can be opened, where the client's socket listens, and whether the control
-- connection takes the reply.
pub record Ports : Type 0 where
  pub client : Option (Bytes × ℕ)
  pub accepts : Bytes → Bool
  pub vpn_opens : Bool
  pub system_opens : Bool

pub record Association : Type 0 where
  pub reply : Bytes
  pub opened : List Socket
  pub closed : List Socket
  pub served : Bool
  pub times_out : Bool

abbrev address_bytes : Bytes → Bytes
address_bytes ip = elim (to4 ip) [ some v4 ↦ v4 | none ↦ 0 ∷ 0 ∷ 0 ∷ 0 ∷ [] ]

-- The reply with the address and the port of the client's socket.
unfoldable pub bound_reply : Bytes → ℕ → Bytes
bound_reply ip port = 5 ∷ 0 ∷ 0 ∷ 1 ∷ (address_bytes ip ++ (port / 256 % 256 ∷ port % 256 ∷ []))

-- The function up to its return, with the deferred close, from whether a deadline is set on the
-- control connection; `served` if it came to wait for that connection to end, and `times_out` if the
-- deadline ends this wait where the client does not.
unfoldable pub run_udp_associate : Ports → Bool → Bytes → Association
unfolding bound_reply
run_udp_associate w deadline bind_if = elim w.client [
  | none ↦ record {
    reply = socks_reply 1;
    opened = [];
    closed = [];
    served = false;
    times_out = false;
  }
  | some (ip, port) ↦
      let resp = bound_reply ip port in
      let has_vpn = not (is_empty bind_if) && w.vpn_opens in
      let vpns = if has_vpn then vpn_socket ∷ [] else [] in
      let systems = if w.system_opens then system_socket ∷ [] else [] in
      if not (w.accepts resp)
      then record {
        reply = resp;
        opened = client_socket ∷ [];
        closed = client_socket ∷ [];
        served = false;
        times_out = false;
      }
      else record {
        reply = resp;
        opened = client_socket ∷ (vpns ++ systems);
        closed = client_socket ∷ [];
        served = not (not has_vpn && not w.system_opens);
        times_out = not (not has_vpn && not w.system_opens) && deadline;
      }
]

-- A sender of a datagram: a UDP address, or another one.
abbrev pub Remote : Type 0
Remote = Option (Bytes × ℕ)

-- Where the loop over the client's socket is with a datagram: behind the store of its sender, or
-- behind its offer to the channel.
pub data Reading : Type 0 where
  waiting : Reading
  stored : Bytes → Bytes → Reading
  offered : Bytes → Reading

-- Where a `sendBack` is with a packet: it has found no client, has taken one from the channel, or goes
-- to write to one.
pub data Answering : Type 0 where
  resting : Answering
  asks : Remote → Bytes → Answering
  took ready : Bytes → Remote → Bytes → Answering

-- The loops with what they share, the last client seen and the channel, what they have read, and what
-- they have written to remote hosts and to clients.
pub record Loops : Type 0 where
  pub last_client : Option Bytes
  pub queued : Option Bytes
  pub reading : Reading
  pub by_vpn : Answering
  pub by_system : Answering
  pub received : List (Bytes × Bytes)
  pub arrived : List (Remote × Bytes)
  pub out : List Outgoing
  pub back : List (Bytes × Bytes)

-- A loop that has nothing to do reads a packet, or a loop goes on by one step. A packet that comes
-- while its loop has another one waits.
pub data Move : Type 0 where
  from_client : Bytes → Bytes → Move
  client_loop : Move
  to_vpn to_system : Remote → Bytes → Move
  vpn_loop system_loop : Move

-- The loop over the client's socket reads, and stores the client.
unfoldable pub client_read : Loops → Bytes → Bytes → Loops
client_read s client packet = elim s.reading [
  | waiting ↦ record s {
    reading = stored client packet;
    last_client = some client;
    received = s.received ++ ((client, packet) ∷ []);
  }
  | stored _ _ ↦ s
  | offered _ ↦ s
]

-- It offers the client to the channel, and then parses and sends the datagram; `none` is a panic.
unfoldable pub client_round : Relay → Loops → Option Loops
client_round r s = elim s.reading [
  | waiting ↦ some s
  | stored client packet ↦ some (record s {
    reading = offered packet;
    queued = elim s.queued [ none ↦ some client | some c ↦ some c ];
  })
  | offered packet ↦ parse_datagram packet >>= λ parsed. some (record s {
    reading = waiting;
    out = s.out ++ (elim (route_datagram r parsed) [ none ↦ [] | some o ↦ o ∷ [] ]);
  })
]

write_back : Loops → Bytes → Remote → Bytes → Loops
write_back s client none payload = s
write_back s client (some (ip, port)) payload = record s {
  back = s.back ++ ((client, reply_packet ip port payload) ∷ []);
}

-- `sendBack` reads, and loads the client.
unfoldable pub remote_read : Loops → Answering → Remote → Bytes → Loops × Answering
remote_read s resting from payload = (
  record s { arrived = s.arrived ++ ((from, payload) ∷ []) },
  elim s.last_client [ none ↦ asks from payload | some c ↦ ready c from payload ],
)
remote_read s (asks f p) from payload = (s, asks f p)
remote_read s (took c f p) from payload = (s, took c f p)
remote_read s (ready c f p) from payload = (s, ready c f p)

-- It takes a client from the channel, or lets the packet go; stores that client; and writes.
unfoldable pub remote_round : Loops → Answering → Loops × Answering
unfolding write_back
remote_round s resting = (s, resting)
remote_round s (asks from payload) = elim s.queued [
  | none ↦ (s, resting)
  | some c ↦ (record s { queued = none }, took c from payload)
]
remote_round s (took c from payload) = (record s { last_client = some c }, ready c from payload)
remote_round s (ready c from payload) = (write_back s c from payload, resting)

unfoldable pub step : Relay → Loops → Move → Option Loops
unfolding client_read client_round remote_read remote_round
step r s (from_client client packet) = some (client_read s client packet)
step r s client_loop = client_round r s
step r s (to_vpn from payload) =
    let (t, l) = remote_read s s.by_vpn from payload in some (record t { by_vpn = l })
step r s (to_system from payload) =
    let (t, l) = remote_read s s.by_system from payload in some (record t { by_system = l })
step r s vpn_loop = let (t, l) = remote_round s s.by_vpn in some (record t { by_vpn = l })
step r s system_loop = let (t, l) = remote_round s s.by_system in some (record t { by_system = l })

unfoldable pub run : Relay → Loops → List Move → Option Loops
unfolding step
run r s [] = some s
run r s (m ∷ ms) = step r s m >>= λ t. run r t ms

abbrev pub start : Loops
start = record {
  last_client = none;
  queued = none;
  reading = waiting;
  by_vpn = resting;
  by_system = resting;
  received = [];
  arrived = [];
  out = [];
  back = [];
}
