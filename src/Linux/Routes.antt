-- ===== src/Linux/Routes.antt =====
-- routes_linux.go: the route manager. A session is the manager and the commands run so far, oldest
-- first. What `ip` does with a command is outside; only the kill switch reads whether it succeeded.
pub mod Recorded
pub mod Cleanup
pub mod KillSwitch
use urnetwork_client.Base.{
  ℕ, Bool, true, false, not, ◌&&◌, ◌||◌, List, [], ◌∷◌, ◌++◌, Option, none, some, Bytes, codes,
  if◌then◌else◌,
}
use urnetwork_client.Net.{to4}
use urnetwork_client.Text.{is_empty, trim_space}
use urnetwork_client.Util.{extract_host}

-- `u.Host` of `url.Parse`, `net.LookupIP` (empty where it fails) and `ip.String()`.
pub record Names : Type 0 where
  pub url_host : Bytes → Option Bytes
  pub lookup_ip : Bytes → List Bytes
  pub ip_string : Bytes → Bytes

-- The end of a route command.
pub data Way : Type 0 where
  via : Bytes → Bytes → Way
  on : Bytes → Way
  unreachable : Way
  anywhere : Way

-- The arguments of the calls of `run`.
pub data Command : Type 0 where
  add_route : Bytes → Way → Command
  del_route : Bytes → Way → Command
  add_blackhole : Command
  del_blackhole : Command
  link_down : Bytes → Command
  addr_flush : Bytes → Command

unfoldable pub way_words : Way → List Bytes
way_words (via gw dev) = codes "via" ∷ gw ∷ codes "dev" ∷ dev ∷ []
way_words (on dev) = codes "dev" ∷ dev ∷ []
way_words unreachable = codes "unreachable" ∷ []
way_words anywhere = []

unfoldable pub words : Command → List Bytes
unfolding way_words
words (add_route dest p) = codes "ip" ∷ codes "route" ∷ codes "add" ∷ dest ∷ way_words p
words (del_route dest p) = codes "ip" ∷ codes "route" ∷ codes "del" ∷ dest ∷ way_words p
words add_blackhole =
    codes "ip" ∷ codes "route" ∷ codes "add" ∷ codes "blackhole" ∷ codes "default" ∷ []
words del_blackhole =
    codes "ip" ∷ codes "route" ∷ codes "del" ∷ codes "blackhole" ∷ codes "default" ∷ []
words (link_down dev) = codes "ip" ∷ codes "link" ∷ codes "set" ∷ dev ∷ codes "down" ∷ []
words (addr_flush dev) = codes "ip" ∷ codes "addr" ∷ codes "flush" ∷ codes "dev" ∷ dev ∷ []

-- `linuxRouteManager`
pub record Manager : Type 0 where
  pub tun_name : Bytes
  pub orig_gw : Bytes
  pub orig_dev : Bytes
  pub added_bypass : List Bytes
  pub added_exclude : List Bytes
  pub added_extra : List Bytes
  pub added_dns_tun : List Bytes
  pub added_splits : Bool
  pub kill_switch : Bool
  pub kill_switch_added : Bool

unfoldable pub new_manager : Bytes → Bytes → Bytes → Manager
new_manager tun gw dev = record {
  tun_name = tun;
  orig_gw = gw;
  orig_dev = dev;
  added_bypass = [];
  added_exclude = [];
  added_extra = [];
  added_dns_tun = [];
  added_splits = false;
  kill_switch = false;
  kill_switch_added = false;
}

abbrev pub Session : Type 0
Session = Manager × List Command

-- The way around the TUN, with or without a gateway.
unfoldable pub outside : Manager → Way
outside m = if is_empty m.orig_gw then on m.orig_dev else via m.orig_gw m.orig_dev

abbrev pub default_dest : Bytes
default_dest = codes "default"

abbrev pub low_half : Bytes
low_half = codes "0.0.0.0/1"

abbrev pub high_half : Bytes
high_half = codes "128.0.0.0/1"

unfoldable pub add_bypass : Bytes → Session → Session
unfolding outside
add_bypass ip (m, log) = (
  record m { added_bypass = m.added_bypass ++ (ip ∷ []) },
  log ++ (add_route ip (outside m) ∷ []),
)

module _ (N : Names) where
  unfoldable pub bypass_ips : List Bytes → Session → Session
  unfolding add_bypass
  bypass_ips [] s = s
  bypass_ips (ip ∷ ips) s =
      bypass_ips ips (elim (to4 ip) [ none ↦ s | some v4 ↦ add_bypass (N.ip_string v4) s ])

  -- `AddBypassEndpoint`
  unfoldable pub add_bypass_endpoint : Bytes → Session → Session
  unfolding bypass_ips extract_host
  add_bypass_endpoint raw s =
      let host = extract_host N.url_host raw in
      if is_empty host || is_empty s.0.orig_dev then s else bypass_ips (N.lookup_ip host) s

-- `AddSplitDefault`
unfoldable pub add_split_default : Session → Session
add_split_default (m, log) = (
  record m { added_splits = true },
  (log ++ (add_route low_half (on m.tun_name) ∷ [])) ++ (add_route high_half (on m.tun_name) ∷ []),
)

-- `AddExclude`
unfoldable pub add_exclude : Bytes → Session → Session
add_exclude raw (m, log) =
    let dest = trim_space raw in
    if is_empty dest then (m, log) else (
      record m { added_exclude = m.added_exclude ++ (dest ∷ []) },
      log
          ++ (add_route dest (
                if not (is_empty m.orig_dev) && not (is_empty m.orig_gw)
                then via m.orig_gw m.orig_dev
                else if not (is_empty m.orig_dev)
                then on m.orig_dev
                else unreachable)
              ∷ []),
    )

-- `AddExtraRoute`
unfoldable pub add_extra_route : Bytes → Session → Session
add_extra_route raw (m, log) =
    let dest = trim_space raw in
    if is_empty dest then (m, log) else (
      record m { added_extra = m.added_extra ++ (dest ∷ []) },
      log ++ (add_route dest (on m.tun_name) ∷ []),
    )

-- One round of `AddDNSServerRoutes`.
unfoldable pub add_dns_server_route : Bool → Bytes → Session → Session
unfolding add_bypass
add_dns_server_route bypass raw (m, log) =
    let ip = trim_space raw in
    if is_empty ip
    then (m, log)
    else if bypass
    then (if is_empty m.orig_dev then (m, log) else add_bypass ip (m, log))
    else (
      record m { added_dns_tun = m.added_dns_tun ++ (ip ∷ []) },
      log ++ (add_route ip (on m.tun_name) ∷ []),
    )

-- `AddDNSServerRoutes`
unfoldable pub add_dns_server_routes : Bool → List Bytes → Session → Session
unfolding add_dns_server_route
add_dns_server_routes bypass [] s = s
add_dns_server_routes bypass (ip ∷ ips) s =
    add_dns_server_routes bypass ips (add_dns_server_route bypass ip s)

-- `AddKillSwitchRoute`; `ok` is whether the last of the commands succeeds.
unfoldable pub add_kill_switch_route : (List Command → Bool) → Session → Session
add_kill_switch_route ok (m, log) =
    let gone =
      log
      ++ (del_route default_dest (
            if not (is_empty m.orig_gw) && not (is_empty m.orig_dev)
            then via m.orig_gw m.orig_dev
            else if not (is_empty m.orig_dev)
            then on m.orig_dev
            else anywhere)
          ∷ []) in
    let tried = gone ++ (add_blackhole ∷ []) in
    if ok tried then (record m { kill_switch = true; kill_switch_added = true }, tried) else (
      record m { kill_switch = true },
      (if not (is_empty m.orig_gw) && not (is_empty m.orig_dev)
          then tried ++ (add_route default_dest (via m.orig_gw m.orig_dev) ∷ [])
          else tried),
    )

unfoldable pub delete_all : List Bytes → List Command → List Command
delete_all [] log = log
delete_all (dest ∷ dests) log = delete_all dests (log ++ (del_route dest anywhere ∷ []))

-- `Cleanup`
unfoldable pub cleanup : Session → List Command
unfolding delete_all
cleanup (m, log) =
    let splits = if m.added_splits then delete_all (low_half ∷ high_half ∷ []) log else log in
    let routes =
      delete_all m.added_dns_tun (
        delete_all m.added_extra (delete_all m.added_exclude (delete_all m.added_bypass splits))) in
    let down = (routes ++ (link_down m.tun_name ∷ [])) ++ (addr_flush m.tun_name ∷ []) in
    if m.kill_switch_added
    then (if m.kill_switch
        then down
        else let open_again = down ++ (del_blackhole ∷ []) in
          if not (is_empty m.orig_gw) && not (is_empty m.orig_dev)
          then open_again ++ (add_route default_dest (via m.orig_gw m.orig_dev) ∷ [])
          else open_again)
    else down

-- The calls of a session, but for the kill switch.
pub data Op : Type 0 where
  bypass_endpoint : Bytes → Op
  split_default : Op
  exclude : Bytes → Op
  extra : Bytes → Op
  dns : List Bytes → Bool → Op

unfoldable pub apply_op : Names → Op → Session → Session
unfolding add_bypass_endpoint add_split_default add_exclude add_extra_route add_dns_server_routes
apply_op N (bypass_endpoint url) s = add_bypass_endpoint N url s
apply_op N split_default s = add_split_default s
apply_op N (exclude dest) s = add_exclude dest s
apply_op N (extra dest) s = add_extra_route dest s
apply_op N (dns ips bypass) s = add_dns_server_routes bypass ips s

unfoldable pub run_ops : Names → List Op → Session → Session
unfolding apply_op
run_ops N [] s = s
run_ops N (op ∷ ops) s = run_ops N ops (apply_op N op s)
