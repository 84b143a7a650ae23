-- ===== src/Socks/Datagram/Route.antt =====
-- socks.go, the UDP half: which socket a datagram leaves by, and to where.
use mathlib.Core.Option.{some-injective}
use urnetwork_client.Base.{
  ℕ, ◌≡◌, ◌≢◌, refl, subst, inl, inr, Bool, true, false, ◌&&◌, [], ◌∷◌, Option, none, some, arith,
  Bytes, if◌then◌else◌, Bool-cases, Option-cases,
}
use urnetwork_client.Socks.{use_vpn, prefer_ipv4}
use urnetwork_client.Socks.Datagram.{
  datagram, Via, vpn, system, Outgoing, destination, Relay, route_datagram,
}

abbrev wants_vpn : Relay → Bytes → Bool
wants_vpn r name = use_vpn name r.allow_domains r.exclude_domains

-- Where a packet goes, for the address and the name of its datagram.
pub data Destination (r : Relay) : Option Bytes → Bytes → Option Bytes → Type 0 where
  given : (a name : Bytes) → Destination r (some a) name (some a)
  resolved :
      (a name : Bytes)
      → name ≢ []
      → prefer_ipv4 (r.lookup_ip name) ≡ some a
      → Destination r none name (some a)
  nowhere : Destination r none [] none

-- By which socket it leaves.
pub data Leaves (r : Relay) (name : Bytes) : Via → Type 0 where
  by_vpn : wants_vpn r name ≡ true → r.has_vpn ≡ true → Leaves r name vpn
  by_system : (wants_vpn r name && r.has_vpn) ≡ false → r.has_system ≡ true → Leaves r name system

-- How an outgoing packet relates to the datagram that it was made of.
pub record Sent (r : Relay) (ip : Option Bytes) (name : Bytes) (port : ℕ) (payload : Bytes)
    (o : Outgoing) : Type 0 where
  pub same_port : o.port ≡ port
  pub same_payload : o.payload ≡ payload
  pub to : Destination r ip name o.ip
  pub leaves : Leaves r name o.via

-- The choice of the socket.
abbrev send : Relay → Option Bytes → Bytes → ℕ → Bytes → Option Outgoing
send r dst name port payload =
    if wants_vpn r name && r.has_vpn
    then some (record { via = vpn; ip = dst; port = port; payload = payload })
    else if r.has_system
    then some (record { via = system; ip = dst; port = port; payload = payload })
    else none

send-Sent :
    (r : Relay) {ip dst : Option Bytes} {name : Bytes} (port : ℕ) (payload : Bytes) {o : Outgoing}
    → Destination r ip name dst
    → send r dst name port payload ≡ some o
    → Sent r ip name port payload o
send-Sent r {ip} {dst} {name} port payload {o} d h =
    elim (Bool-cases (wants_vpn r name && r.has_vpn)) [
      | inl e ↦
          let k : some (out vpn) ≡ some o = rw (← h, e) refl in
          subst (Sent r ip name port payload) (some-injective _ _ k) (record {
            same_port = refl;
            same_payload = refl;
            to = d;
            leaves = by_vpn (ground (arith, e)) (ground (arith, e));
          })
      | inr e ↦ elim (Bool-cases r.has_system) [
        | inl s ↦
            let k : some (out system) ≡ some o = rw (← h, e, s) refl in
            subst (Sent r ip name port payload) (some-injective _ _ k)
              (record { same_port = refl; same_payload = refl; to = d; leaves = by_system e s })
        | inr s ↦ absurd (ground (arith, h, e, s))
      ]
    ]
  where
    out : Via → Outgoing
    out v = record { via = v; ip = dst; port = port; payload = payload }

-- What is written for a datagram keeps its port and payload. It goes to the address that was given,
-- or to the one chosen from those of the name, or, where the name is empty, to no address at all. It
-- leaves by the VPN socket where the routing rule says so and there is one, and else by the system
-- socket, also where the rule says VPN.
pub route_datagram-Sent :
    (r : Relay) (ip : Option Bytes) (name : Bytes) (port : ℕ) (payload : Bytes) {o : Outgoing}
    → route_datagram r (datagram ip name port payload) ≡ some o
    → Sent r ip name port payload o
unfolding route_datagram destination
route_datagram-Sent r (some a) name port payload h = send-Sent r port payload (given a name) h
route_datagram-Sent r none [] port payload h = send-Sent r port payload nowhere h
route_datagram-Sent r none (c ∷ cs) port payload h =
    elim (Option-cases (prefer_ipv4 (r.lookup_ip (c ∷ cs)))) [
      | inl e ↦ cc (rw e at h)
      | inr (a, e) ↦ send-Sent r port payload (resolved a (c ∷ cs) (λ k. cc) e) (rw e at h)
    ]
