-- ===== src/Dataplane.antt =====
-- vpn_core.go: the allowlist, and the two loops of `vpnRunCore` that carry packets between the
-- provider and the TUN. The loops run in two goroutines that share only atomic counters, so a run
-- is a list of their events in any order. Parsing of addresses is a parameter; the wait for the
-- end, the periodic log line and the start of the proxy are outside.
pub mod Allowlist
pub mod Networks
pub mod Guarded
pub mod Delivery
pub mod Stats
pub mod Core
use mathlib.Core.Option
use urnetwork_client.Base.{
  ℕ, ◌+◌, ◌/◌, ◌%◌, Bool, true, false, not, ◌&&◌, ◌||◌, List, [], ◌∷◌, ◌++◌, Option, none, some,
  Bytes, codes, length, get_or, ltb, ◌==◌, if◌then◌else◌, ◌>>=◌,
}
use urnetwork_client.Base.Int.{u64_mod}
use urnetwork_client.Config.{VpnConfig}
use urnetwork_client.Inbound.{should_drop_inbound}
use urnetwork_client.Net.{IpNet, to4, to16, full_mask}
use urnetwork_client.Text.{is_empty, trim_space, contains_byte}
use urnetwork_client.Util.{split_csv}

-- `net.ParseIP` and the network of `net.ParseCIDR`, which give nothing where they fail.
pub record AddressParser : Type 0 where
  pub parse_ip : Bytes → Option Bytes
  pub parse_cidr : Bytes → Option IpNet

-- The arguments of `appendNet`.
unfoldable pub local_ranges : List Bytes
local_ranges =
    codes "127.0.0.0/8"
    ∷ codes "169.254.0.0/16"
    ∷ codes "10.0.0.0/8"
    ∷ codes "172.16.0.0/12"
    ∷ codes "192.168.0.0/16"
    ∷ codes "100.64.0.0/10"
    ∷ []

module _ (P : AddressParser) where
  unfoldable pub parse_cidr_host : Bytes → Option IpNet
  parse_cidr_host raw =
      let s = trim_space raw in
      if is_empty s
      then none
      else if not (contains_byte s b'/')
      then elim (P.parse_ip s) [
        | none ↦ none
        | some ip ↦ elim (to4 ip) [
          | some ip4 ↦ some (record { ip = ip4; mask = full_mask 4 })
          | none ↦
              some (record {
                ip = elim (to16 ip) [ some ip16 ↦ ip16 | none ↦ [] ];
                mask = full_mask 16;
              })
        ]
      ]
      else P.parse_cidr s

  -- `if n := parseCIDRHost(s); n != nil { allow = append(allow, n) }` over a list.
  unfoldable pub append_nets : List (Option IpNet) → List Bytes → List (Option IpNet)
  append_nets allow [] = allow
  append_nets allow (s ∷ ss) =
      append_nets (elim (parse_cidr_host s) [ none ↦ allow | some n ↦ allow ++ (some n ∷ []) ]) ss

  unfoldable pub allow_inbound_cidrs : VpnConfig → List (Option IpNet)
  unfolding append_nets parse_cidr_host
  allow_inbound_cidrs cfg =
      let listed =
        if is_empty cfg.allow_inbound_src_list
        then []
        else append_nets [] (split_csv cfg.allow_inbound_src_list) in
      if cfg.allow_inbound_local
      then (let ranged = append_nets listed local_ranges in
          if is_empty cfg.ip_cidr then ranged else append_nets ranged (cfg.ip_cidr ∷ []))
      else listed

unfoldable pub block_new_inbound : VpnConfig → Bool
block_new_inbound cfg = cfg.allow_inbound_local || not (is_empty cfg.allow_inbound_src_list)

-- What the closure `receive` captures.
pub record Filter : Type 0 where
  pub enable_ipv6 : Bool
  pub block_new : Bool
  pub allow : List (Option IpNet)

-- A counter is a pointer, which may be nil.
pub record Plane : Type 0 where
  pub pkts_in : Option ℕ
  pub bytes_in : Option ℕ
  pub pkts_out : Option ℕ
  pub bytes_out : Option ℕ
  pub written : List Bytes
  pub sent : List Bytes

-- `atomic.AddUint64` behind the test for nil.
unfoldable pub add_u64 : Option ℕ → ℕ → Option ℕ
add_u64 none k = none
add_u64 (some n) k = some ((n + k) % u64_mod)

-- The packet reaches `dev.Write`, whose error is ignored.
write_tun : Plane → Bytes → Plane
unfolding add_u64
write_tun s packet = record s {
  written = s.written ++ (packet ∷ []);
  pkts_in = add_u64 s.pkts_in 1;
  bytes_in = add_u64 s.bytes_in (length packet);
}

-- The closure `receive`; `none` is a panic.
unfoldable pub receive : Filter → Plane → Bytes → Option Plane
unfolding write_tun
receive f s packet =
    if ltb 0 (length packet) && (get_or packet 0 0 / 16 == 6 && not f.enable_ipv6)
    then some s
    else if f.block_new
    then (should_drop_inbound packet f.allow >>= λ dropped.
        if dropped then some s else some (write_tun s packet))
    else some (write_tun s packet)

-- One round of the loop from the TUN to the provider, on what `dev.Read` gave.
unfoldable pub forward : Plane → Bytes → Plane
unfolding add_u64
forward s packet =
    if ltb 0 (length packet)
    then record s {
      sent = s.sent ++ (packet ∷ []);
      pkts_out = add_u64 s.pkts_out 1;
      bytes_out = add_u64 s.bytes_out (length packet);
    }
    else s

pub data Event : Type 0 where
  from_provider : Bytes → Event
  from_tun : Bytes → Event

unfoldable pub step : Filter → Plane → Event → Option Plane
step f s (from_provider packet) = receive f s packet
step f s (from_tun packet) = some (forward s packet)

unfoldable pub run : Filter → Plane → List Event → Option Plane
run f s [] = some s
run f s (e ∷ es) = do s' ← step f s e; run f s' es

-- The filter that a session's settings give.
unfoldable pub session_filter : AddressParser → VpnConfig → Filter
unfolding block_new_inbound allow_inbound_cidrs
session_filter P cfg = record {
  enable_ipv6 = cfg.enable_ipv6;
  block_new = block_new_inbound cfg;
  allow = allow_inbound_cidrs P cfg;
}
