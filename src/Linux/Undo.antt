-- ===== src/Linux/Undo.antt =====
-- vpn_linux.go and routes_linux.go: a whole session, from the first route to the cleanup.
use urnetwork_client.Base.{◌≡◌, refl, Bool, false, ◌&&◌, List, [], Bytes, Bool-cases, inl, inr}
use urnetwork_client.Config.{VpnConfig}
use urnetwork_client.Linux.{planned, opening}
use urnetwork_client.Linux.Routes.{Names, Command, Session, new_manager, add_kill_switch_route}
use urnetwork_client.Linux.Routes.KillSwitch.{tried}
use urnetwork_client.Linux.Routes.Recorded.{is_in, is_recorded}
use urnetwork_client.Linux.Routes.Cleanup.{IsSwitch, Undone, run_ops-Undone}

IsFresh : Session → Type 0
IsFresh s = ((d : Bytes) → is_recorded d s.0 ≡ false) × IsSwitch s.0

guard-IsFresh :
    (ok : List Command → Bool) (s : Session) → IsFresh s → IsFresh (add_kill_switch_route ok s)
unfolding IsFresh add_kill_switch_route
guard-IsFresh ok (m, log) h = elim (Bool-cases (ok (tried (m, log)))) [
  | inl e ↦ rw e (h.0, λ k. refl)
  | inr e ↦ rw e (h.0, λ k. refl)
]

opening-IsFresh :
    (ok : List Command → Bool) (cfg : VpnConfig) (tun gw dev : Bytes)
    → IsFresh (opening ok cfg tun gw dev)
unfolding IsFresh opening new_manager is_in
opening-IsFresh ok cfg tun gw dev =
    elim (Bool-cases (cfg.default_route && cfg.enable_kill_switch)) [
      | inl e ↦ rw e (guard-IsFresh ok (new_manager tun gw dev, []) ((λ d. refl), λ k. k))
      | inr e ↦ rw e ((λ d. refl), λ k. k)
    ]

-- A session of `cmdVpn`, whatever its settings and whatever commands fail: `Cleanup` issues a command
-- that deletes the route to a destination exactly if one of the calls behind the kill switch issued
-- a command that adds one, whether that has succeeded or not: so where it failed because there was
-- such a route before the session, that route is deleted. And `ip route del blackhole default` is not
-- among the commands from there to the end of the cleanup; a destination `default` that the settings
-- name is deleted as any other.
pub opening-Undone :
    (N : Names) (ok : List Command → Bool) (cfg : VpnConfig) (tun gw dev : Bytes)
    → Undone N (planned cfg) (opening ok cfg tun gw dev)
unfolding IsFresh
opening-Undone N ok cfg tun gw dev =
    let fresh = opening-IsFresh ok cfg tun gw dev in
    run_ops-Undone N (planned cfg) (opening ok cfg tun gw dev) fresh.0 fresh.1
