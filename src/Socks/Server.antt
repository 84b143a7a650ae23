-- ===== src/Socks/Server.antt =====
-- socks.go (StartSocks5, bindFDToInterface), cmd_socks.go, and the places of vpn_core.go, vpn_linux.go
-- and vpn_darwin.go that start the server. Listening and the goroutines are outside.
pub mod Accepting
use urnetwork_client.Base.{
  ℕ, Bool, true, false, not, ◌||◌, List, [], ◌∷◌, Option, none, some, Bytes, codes, if◌then◌else◌,
}
use urnetwork_client.Config.{VpnConfig, SocksConfig}
use urnetwork_client.Socks.{join_host_port}
use urnetwork_client.Text.{is_empty, trim_space}
use urnetwork_client.Util.{split_csv}

-- The arguments of `StartSocks5`.
pub record Service : Type 0 where
  pub listen_addr : Bytes
  pub bind_if : Bytes
  pub debug : Bool
  pub allow_domains : List Bytes
  pub exclude_domains : List Bytes
  pub dns_servers : List Bytes

-- The server that names are looked up at, nothing for the system's; `has_port` is whether
-- `net.SplitHostPort` succeeds.
unfoldable pub resolver_address : (Bytes → Bool) → List Bytes → Option Bytes
resolver_address has_port [] = none
resolver_address has_port (addr ∷ rest) =
    some (if has_port addr then addr else join_host_port addr (codes "53"))

-- What `Accept` gives: a connection by its number, an error that is a timeout, or another error.
pub data Accepted : Type 0 where
  connection : ℕ → Accepted
  timed_out failed : Accepted

-- The accept loop: the connections that are handed to `handleSocksConn`, in order, and whether the
-- loop has returned.
unfoldable pub serve : List Accepted → List ℕ × Bool
serve [] = ([], false)
serve (connection c ∷ es) = let (cs, ended) = serve es in (c ∷ cs, ended)
serve (timed_out ∷ es) = serve es
serve (failed ∷ es) = ([], true)

-- The server of `cmdSocks`; nothing where the address is missing.
unfoldable pub cmd_socks : SocksConfig → Option Service
cmd_socks cfg =
    if is_empty cfg.listen_addr
    then none
    else some (record {
      listen_addr = cfg.listen_addr;
      bind_if = [];
      debug = cfg.debug;
      allow_domains = cfg.allow_domains;
      exclude_domains = cfg.exclude_domains;
      dns_servers = [];
    })

-- The server without a TUN, and the one of `vpnRunCore` on a TUN.
unfoldable pub plain_service : VpnConfig → Service
plain_service cfg = record {
  listen_addr = cfg.socks_listen;
  bind_if = [];
  debug = cfg.debug;
  allow_domains = cfg.allow_domains;
  exclude_domains = cfg.exclude_domains;
  dns_servers = split_csv cfg.dns_list;
}

unfoldable pub vpn_service : VpnConfig → Bytes → Bool → Option Service
unfolding plain_service
vpn_service cfg tun debug_enabled =
    if is_empty cfg.socks_listen
    then none
    else some (record (plain_service cfg) { bind_if = tun; debug = cfg.debug || debug_enabled })

pub data System : Type 0 where
  darwin linux other_system : System

-- A socket option that is set: level, name, and an index or a text.
pub data SocketOption : Type 0 where
  ip_bound_if ipv6_bound_if : ℕ → SocketOption
  bind_to_device : Bytes → SocketOption

-- `bindFDToInterface`, which never fails: the options that it sets, from the index of the interface.
unfoldable pub bind_fd_to_interface : System → (Bytes → Option ℕ) → Bytes → List SocketOption
bind_fd_to_interface system index name = if is_empty (trim_space name) then [] else elim system [
  | darwin ↦ elim (index name) [ some i ↦ ip_bound_if i ∷ ipv6_bound_if i ∷ [] | none ↦ [] ]
  | linux ↦ bind_to_device name ∷ []
  | other_system ↦ []
]
