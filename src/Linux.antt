-- ===== src/Linux.antt =====
-- vpn_linux.go: what `cmdVpn` does with the default route and the route manager. The TUN device
-- and the dataplane that runs in between are outside.
pub mod Routes
pub mod Gateways
pub mod Undo
pub mod Whole
pub mod Contract
use urnetwork_client.Base.{
  ℕ, Bool, true, false, not, ◌&&◌, List, [], ◌∷◌, ◌++◌, Bytes, if◌then◌else◌,
}
use urnetwork_client.Config.{VpnConfig}
use urnetwork_client.Text.{is_empty}
use urnetwork_client.Util.{split_csv}
use urnetwork_client.Linux.Routes.{
  Names, Command, Session, Op, bypass_endpoint, split_default, exclude, extra, dns, new_manager,
  add_kill_switch_route, run_ops, cleanup,
}

abbrev each : (Bytes → Op) → List Bytes → List Op
each f [] = []
each f (x ∷ xs) = f x ∷ each f xs

-- The route manager's calls of `cmdVpn` behind the kill switch, in order.
unfoldable pub planned : VpnConfig → List Op
planned cfg =
    (if cfg.default_route
      then bypass_endpoint cfg.api_url
        ∷ bypass_endpoint cfg.connect_url
        ∷ split_default
        ∷ each exclude (split_csv cfg.exclude_routes)
      else [])
    ++ (each extra (split_csv cfg.extra_routes)
        ++ (if not cfg.default_route && not (is_empty cfg.dns_list)
            then dns (split_csv cfg.dns_list) false ∷ []
            else []))

-- The new manager, behind the kill switch where it is asked for.
unfoldable pub opening : (List Command → Bool) → VpnConfig → Bytes → Bytes → Bytes → Session
unfolding new_manager add_kill_switch_route
opening ok cfg tun gw dev =
    let s : Session = (new_manager tun gw dev, []) in
    if cfg.default_route && cfg.enable_kill_switch then add_kill_switch_route ok s else s

-- The manager and the commands where the dataplane starts.
unfoldable pub install : Names → (List Command → Bool) → VpnConfig → Bytes → Bytes → Bytes → Session
unfolding planned opening run_ops
install N ok cfg tun gw dev = run_ops N (planned cfg) (opening ok cfg tun gw dev)
