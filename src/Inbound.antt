-- ===== src/Inbound.antt =====
-- vpn_core.go, `shouldDropInbound` and its two halves: which packets from the provider are dropped
-- before they reach the TUN. `none` is the panic of an index out of range.
pub mod Policy
use urnetwork_client.Base.{
  ℕ, ◌+◌, ◌*◌, ◌/◌, ◌%◌, ◌^◌, Bool, true, false, not, ◌&&◌, ◌||◌, List, [], ◌∷◌, Option, none, some,
  Bytes, length, get_elem?, take, drop, ltb, ◌==◌, if◌then◌else◌, ◌>>=◌,
}
use urnetwork_client.Net.{IpNet, ipv4, contains_ip}

-- `x & (1 << k) != 0`
abbrev pub has_bit : ℕ → ℕ → Bool
has_bit x k = (x / 2 ^ k) % 2 == 1

-- `for _, n := range allowCIDRs { if n != nil && n.Contains(src) { … } }`
unfoldable pub is_allowed : List (Option IpNet) → Bytes → Bool
is_allowed [] src = false
is_allowed (none ∷ nets) src = is_allowed nets src
is_allowed (some n ∷ nets) src = contains_ip n src || is_allowed nets src

-- The verdict on a TCP segment by its flags, as both halves end.
verdict : Bool → Bool → Bool → Bool
verdict syn ack allowed =
    if syn && not ack then (if allowed then false else true) else if not ack then true else false

unfoldable pub should_drop_inbound_ipv4 : Bytes → List (Option IpNet) → Option Bool
unfolding verdict
should_drop_inbound_ipv4 packet allow = if ltb (length packet) 20 then some false else do
  first ← get_elem? packet 0
  let ihl = first % 16 * 4
  if ltb ihl 20 || ltb (length packet) (ihl + 20) then some false else do
    protocol ← get_elem? packet 9
    if not (protocol == 6) then some false else do
      flags ← get_elem? packet (ihl + 13)
      a ← get_elem? packet 12
      b ← get_elem? packet 13
      c ← get_elem? packet 14
      d ← get_elem? packet 15
      some (verdict (has_bit flags 1) (has_bit flags 4) (is_allowed allow (ipv4 a b c d)))

-- `packet[i:j]`, for `i` at most `j`.
abbrev slice : Bytes → ℕ → ℕ → Option Bytes
slice packet i n = if ltb (length packet) (i + n) then none else some (take n (drop i packet))

unfoldable pub should_drop_inbound_ipv6 : Bytes → List (Option IpNet) → Option Bool
unfolding verdict
should_drop_inbound_ipv6 packet allow = if ltb (length packet) 60 then some false else do
  next_header ← get_elem? packet 6
  if not (next_header == 6) then some false else do
    flags ← get_elem? packet 53
    src ← slice packet 8 16
    some (verdict (has_bit flags 1) (has_bit flags 4) (is_allowed allow src))

unfoldable pub should_drop_inbound : Bytes → List (Option IpNet) → Option Bool
unfolding should_drop_inbound_ipv4 should_drop_inbound_ipv6
should_drop_inbound packet allow = if ltb (length packet) 1 then some false else do
  first ← get_elem? packet 0
  let version = first / 16
  if version == 4
      then should_drop_inbound_ipv4 packet allow
      else if version == 6
      then should_drop_inbound_ipv6 packet allow
      else some false
