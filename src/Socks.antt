-- ===== src/Socks.antt =====
-- socks.go: what the TCP and the UDP half of the proxy share. Names are looked up by a parameter.
pub mod Server
pub mod Domains
pub mod Addresses
pub mod Handshake
pub mod Datagram
pub mod Associate
use urnetwork_client.Base.{
  ℕ, zero, suc, ◌+◌, ◌/◌, ◌%◌, Bool, true, false, not, ◌&&◌, ◌||◌, List, [], ◌∷◌, ◌++◌, Option,
  none, some, Bytes, ltb, if◌then◌else◌,
}
use urnetwork_client.Net.{to4}
use urnetwork_client.Text.{
  equal, is_empty, trim_space, trim_suffix, to_lower, has_suffix, contains_byte,
}

abbrev pub dot : Bytes
dot = b'.' ∷ []

-- A host without the dot of its absolute form, in lower case.
unfoldable pub host_key : Bytes → Bytes
host_key host = to_lower (trim_suffix host dot)

-- A pattern as the loop rewrites it.
unfoldable pub pattern_key : Bytes → Bytes
pattern_key p = to_lower (trim_space (trim_suffix p dot))

matches_any : Bytes → List Bytes → Bool
matches_any h [] = false
matches_any h (p ∷ ps) =
    let rest = matches_any h ps in
    if is_empty (pattern_key p)
    then rest
    else if equal h (pattern_key p) || has_suffix h (b'.' ∷ pattern_key p)
    then true
    else rest

unfoldable pub domain_matches : Bytes → List Bytes → Bool
unfolding matches_any host_key pattern_key
domain_matches host patterns = matches_any (host_key host) patterns

-- `useVPN` of both halves, by the requested domain, empty for a bare address.
unfoldable pub use_vpn : Bytes → List Bytes → List Bytes → Bool
use_vpn domain allow exclude =
    let allowed =
      if not (is_empty allow) && (is_empty domain || not (domain_matches domain allow))
      then false
      else true in
    if not (is_empty domain) && domain_matches domain exclude then false else allowed

-- The loop over the addresses of a name: the first IPv4 address, or else the first.
prefer_from : Option Bytes → List Bytes → Option Bytes
prefer_from best [] = best
prefer_from best (ip ∷ ips) = elim (to4 ip) [
  | some _ ↦ some ip
  | none ↦ prefer_from (elim best [ none ↦ some ip | some b ↦ some b ]) ips
]

unfoldable pub prefer_ipv4 : List Bytes → Option Bytes
unfolding prefer_from
prefer_ipv4 ips = prefer_from none ips

-- `strconv.Itoa` on fuel for the digits; 20 are enough for 64 bits.
digits : ℕ → ℕ → Bytes
digits zero n = []
digits (suc f) n =
    let front = digits f (n / 10) in
    if ltb n 10 then (b'0' + n) ∷ [] else front ++ ((b'0' + n % 10) ∷ [])

unfoldable pub itoa : ℕ → Bytes
unfolding digits
itoa n = digits 20 n

-- `net.JoinHostPort`
unfoldable pub join_host_port : Bytes → Bytes → Bytes
join_host_port host port =
    if contains_byte host b':' then b'[' ∷ (host ++ (b']' ∷ b':' ∷ port)) else host ++ (b':' ∷ port)
