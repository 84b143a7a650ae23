-- ===== src/Session/Course.antt =====
-- The start of `cmdVpn`, which is the same in vpn_linux.go and vpn_darwin.go, as a trace.
pub mod Ordered
use urnetwork_client.Base.{Bool, not, ◌&&◌, List, [], ◌∷◌, ◌++◌, map, Bytes, codes, if◌then◌else◌}
use urnetwork_client.Config.{VpnConfig}
use urnetwork_client.Dataplane.Core.{server, logs, commands, waits, Trace, when}
use urnetwork_client.Lifetime.{acquires, releases, does, acts}
use urnetwork_client.Logger.{warn, info}
use urnetwork_client.Socks.Server.{Service, plain_service}
use urnetwork_client.Text.{is_empty, trim_space, has_prefix}

pub data Outcome : Type 0 where
  finished start_socks_failed create_tun_failed : Outcome

-- The name of the TUN is missing: it looks like a flag.
unfoldable pub is_missing : VpnConfig → Bool
is_missing cfg =
    let raw = trim_space cfg.tun_name in not (is_empty raw) && has_prefix raw (codes "-")

abbrev pub does_all : List (List Bytes) → Trace
does_all cs = acts (map commands cs)

abbrev pub after : Trace → Outcome × Trace → Outcome × Trace
after steps (outcome, more) = (outcome, steps ++ more)

-- The startup line and the warning on the kill switch.
abbrev pub greeting : VpnConfig → Trace
greeting cfg =
    does (logs info) ∷ when (cfg.enable_kill_switch && not cfg.default_route) (does (logs warn))

-- A session without a TUN.
unfoldable pub proxied : (Service → Bool) → VpnConfig → Outcome × Trace
proxied listens cfg =
    let s = plain_service cfg in
    if listens s
    then (
      finished,
      acquires (server s) ∷ ((does (logs info) ∷ does waits ∷ []) ++ (releases (server s) ∷ [])),
    )
    else (start_socks_failed, [])
