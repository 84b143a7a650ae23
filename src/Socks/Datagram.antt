-- ===== src/Socks/Datagram.antt =====
-- socks.go, the UDP half: the header of a client's datagram, the socket that it leaves by, and the
-- header of a reply. An outer `none` is the panic of an index out of range.
pub mod Header
pub mod Route
use urnetwork_client.Base.{
  ℕ, ◌+◌, ◌*◌, ◌/◌, ◌%◌, Bool, true, false, not, ◌&&◌, ◌||◌, List, [], ◌∷◌, ◌++◌, Option, none,
  some, Bytes, length, get_elem?, take, drop, ltb, ◌==◌, if◌then◌else◌, ◌>>=◌,
}
use urnetwork_client.Net.{to4, to16}
use urnetwork_client.Text.{is_empty, to_lower}
use urnetwork_client.Socks.{use_vpn, prefer_ipv4}

pub data Parsed : Type 0 where
  dropped : Parsed
  datagram : Option Bytes → Bytes → ℕ → Bytes → Parsed

-- `p[i : i+n]`
abbrev slice : Bytes → ℕ → ℕ → Option Bytes
slice p i n = if ltb (length p) (i + n) then none else some (take n (drop i p))

-- The port at `off`, and the payload behind it.
parse_tail : Bytes → ℕ → Option Bytes → Bytes → Option Parsed
parse_tail p off ip name = do
  hi ← get_elem? p off
  lo ← get_elem? p (off + 1)
  some (datagram ip name (hi * 256 + lo) (drop (off + 2) p))

parse_domain : Bytes → Option Parsed
unfolding parse_tail
parse_domain p = if ltb (length p) 5 then some dropped else do
  l ← get_elem? p 4
  if ltb (length p) (5 + l + 2)
      then some dropped
      else do name ← slice p 5 l; parse_tail p (5 + l) none (to_lower name)

parse_address : ℕ → Bytes → Option Parsed
unfolding parse_tail
parse_address n p =
    if ltb (length p) (4 + n + 2)
    then some dropped
    else do ip ← slice p 4 n; parse_tail p (4 + n) (some ip) []

-- From the test of the length to the payload.
unfoldable pub parse_datagram : Bytes → Option Parsed
unfolding parse_domain parse_address
parse_datagram p = if ltb (length p) 10 then some dropped else do
  r0 ← get_elem? p 0
  r1 ← get_elem? p 1
  frag ← get_elem? p 2
  if not (r0 == 0) || not (r1 == 0) || not (frag == 0) then some dropped else do
    atyp ← get_elem? p 3
    if atyp == 1
        then parse_address 4 p
        else if atyp == 3
        then parse_domain p
        else if atyp == 4
        then parse_address 16 p
        else some dropped

pub data Via : Type 0 where
  vpn system : Via

-- What `WriteTo` is called with; no address is the zero address of Go.
pub record Outgoing : Type 0 where
  pub via : Via
  pub ip : Option Bytes
  pub port : ℕ
  pub payload : Bytes

pub record Relay : Type 0 where
  pub lookup_ip : Bytes → List Bytes
  pub allow_domains : List Bytes
  pub exclude_domains : List Bytes
  pub has_vpn : Bool
  pub has_system : Bool

-- The destination, where it is known: a name that is given must have an address.
unfoldable pub destination : Relay → Option Bytes → Bytes → Option (Option Bytes)
destination r (some ip) name = some (some ip)
destination r none name =
    if is_empty name
    then some none
    else elim (prefer_ipv4 (r.lookup_ip name)) [ none ↦ none | some ip ↦ some (some ip) ]

-- From the resolution of the name to the write, for a parsed datagram.
unfoldable pub route_datagram : Relay → Parsed → Option Outgoing
unfolding destination
route_datagram r dropped = none
route_datagram r (datagram ip name port payload) = do
  dst ← destination r ip name
  if use_vpn name r.allow_domains r.exclude_domains && r.has_vpn
      then some (record { via = vpn; ip = dst; port = port; payload = payload })
      else if r.has_system
      then some (record { via = system; ip = dst; port = port; payload = payload })
      else none

-- The packet that `sendBack` writes to the client.
unfoldable pub reply_packet : Bytes → ℕ → Bytes → Bytes
reply_packet ip port payload =
    (0 ∷ 0 ∷ 0 ∷ (elim (to4 ip) [
      | some v4 ↦ 1 ∷ v4
      | none ↦ 4 ∷ (elim (to16 ip) [ some v6 ↦ v6 | none ↦ [] ])
    ]))
    ++ (port / 256 % 256 ∷ port % 256 ∷ payload)
