-- ===== src/Darwin/Session.antt =====
-- vpn_darwin.go: what `cmdVpn` does with the default gateway and the route manager. The utun device
-- and the dataplane that runs in between are outside.
use urnetwork_client.Base.{
  ℕ, ltb, true, Bool, true, false, not, ◌&&◌, ◌||◌, List, [], ◌∷◌, ◌++◌, Option, none, some, Bytes,
  codes, if◌then◌else◌,
}
use urnetwork_client.Config.{VpnConfig}
use urnetwork_client.Linux.Routes.{Names}
use urnetwork_client.Text.{equal, is_empty, trim_space, has_prefix}
use urnetwork_client.Startup.{decimal}
use urnetwork_client.Util.{split_csv}
use urnetwork_client.Session.{is_tun_disabled}
use urnetwork_client.Darwin.{tun_cidr_parts}
use urnetwork_client.Darwin.Routes.{Shell, Entry, Session, new_manager}
use urnetwork_client.Darwin.Routes.Methods.{
  Op, bypass_endpoint, split_default, scoped_default, scoped_exclude, exclude, extra, dns,
  set_dns_to, end_bypass, kill, run_ops, cleanup,
}

abbrev each : (Bytes → Op) → List Bytes → List Op
each f [] = []
each f (x ∷ xs) = f x ∷ each f xs

-- Are the resolvers to be reached around the TUN?
unfoldable pub keeps_bypass : VpnConfig → Bool
keeps_bypass cfg =
    cfg.default_route
    && (equal cfg.dns_bootstrap (codes "bypass") || equal cfg.dns_bootstrap (codes "cache"))

-- The calls on routes.
unfoldable pub route_ops : VpnConfig → List Op
route_ops cfg =
    (if cfg.default_route
      then (if cfg.enable_kill_switch then kill ∷ [] else [])
        ++ (bypass_endpoint cfg.api_url
            ∷ bypass_endpoint cfg.connect_url
            ∷ split_default
            ∷ each exclude (split_csv cfg.exclude_routes))
      else if is_empty cfg.socks_listen
      then []
      else (if is_empty cfg.extra_routes && is_empty cfg.exclude_routes
          then scoped_default ∷ []
          else [])
        ++ each scoped_exclude (split_csv cfg.exclude_routes))
    ++ each extra (split_csv cfg.extra_routes)

-- The calls on resolvers, from the gateway and the system's resolvers, if they are found.
unfoldable pub dns_ops : VpnConfig → Bytes → Option (List Bytes) → List Op
unfolding keeps_bypass
dns_ops cfg def_gw resolvers =
    (if not (is_empty cfg.dns_list)
      then (if is_empty cfg.dns_service
          then []
          else set_dns_to (split_csv cfg.dns_list) cfg.dns_service ∷ [])
        ++ (dns (split_csv cfg.dns_list) (keeps_bypass cfg) ∷ [])
      else if keeps_bypass cfg && not (is_empty def_gw)
      then elim resolvers [ none ↦ [] | some ips ↦ dns ips true ∷ [] ]
      else [])
    ++ (if not cfg.default_route && not (is_empty cfg.dns_list)
        then dns (split_csv cfg.dns_list) false ∷ []
        else [])

-- The bypass is to end in the background, behind some seconds.
unfoldable pub ends_bypass : VpnConfig → Bool
ends_bypass cfg = cfg.default_route && equal cfg.dns_bootstrap (codes "cache")

-- What wakes the goroutine of the bypass: the deadline, or a tick, at which it loads the packets of
-- each direction.
pub data Wake : Type 0 where
  deadline : Wake
  tick : ℕ → ℕ → Wake

-- The loop of the goroutine: whether it has left it behind these.
unfoldable pub leaves_loop : List Wake → Bool
leaves_loop [] = false
leaves_loop (deadline ∷ ws) = true
leaves_loop (tick pkts_in pkts_out ∷ ws) =
    let rest = leaves_loop ws in if ltb 0 pkts_in && ltb 0 pkts_out then true else rest

-- A whole session from the new manager to `Cleanup`; `in_time` is whether it lasts until the bypass
-- ends.
unfoldable pub session :
    Shell → Names → VpnConfig → Bytes → Bytes → Option (List Bytes) → Bool → Session × List Entry
unfolding new_manager run_ops cleanup route_ops dns_ops ends_bypass tun_cidr_parts
session sh N cfg tun def_gw resolvers in_time =
    let s =
      run_ops sh N
        (route_ops cfg
          ++ (dns_ops cfg def_gw resolvers
              ++ (if ends_bypass cfg && in_time then end_bypass ∷ [] else [])))
        (new_manager tun (tun_cidr_parts cfg.ip_cidr).1 def_gw, []) in
    (s, cleanup sh s)

-- How `cmdVpn` starts: with nothing to do, with SOCKS only, or with a device, whose name is empty
-- where the system is to choose.
pub data Start : Type 0 where
  nothing_to_do socks_only : Start
  device : Bytes → Start

unfoldable pub start_of : VpnConfig → Start
unfolding is_tun_disabled
start_of cfg =
    let raw = trim_space cfg.tun_name in
    let missing = not (is_empty raw) && has_prefix raw (codes "-") in
    if is_tun_disabled cfg.tun_name || (is_empty raw && not missing)
    then (if is_empty cfg.socks_listen then nothing_to_do else socks_only)
    else device (if missing then [] else cfg.tun_name)

-- The device by its name, or by a name that the system chooses; its own name where it has one.
unfoldable pub open_device : (Bytes → Option Bytes) → Bytes → Bytes → Option Bytes
open_device create tun_name name =
    let named = λ (actual : Bytes). (if is_empty actual then tun_name else actual) in
    elim (create name) [
      | some actual ↦ some (named actual)
      | none ↦
          (if is_empty (trim_space name)
            then none
            else elim (create []) [ some actual ↦ some (named actual) | none ↦ none ])
    ]

-- The commands that configure the device.
unfoldable pub configure : VpnConfig → Bytes → List (List Bytes)
unfolding tun_cidr_parts decimal
configure cfg tun =
    let (ip, peer_ip) = tun_cidr_parts cfg.ip_cidr in
    (codes "ifconfig"
      ∷ tun
      ∷ codes "inet"
      ∷ ip
      ∷ peer_ip
      ∷ codes "mtu"
      ∷ decimal cfg.mtu
      ∷ codes "up"
      ∷ [])
    ∷ (codes "ifconfig" ∷ tun ∷ codes "inet6" ∷ codes "fd00::2/120" ∷ [])
    ∷ []
