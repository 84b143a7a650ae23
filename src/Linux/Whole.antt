-- ===== src/Linux/Whole.antt =====
-- vpn_linux.go: the whole of `cmdVpn`, as a trace. The texts of its log lines are outside.
pub mod Ordered
use urnetwork_client.Base.{
  Bool, not, ◌&&◌, List, [], ◌∷◌, ◌++◌, map, Option, Bytes, codes, if◌then◌else◌,
}
use urnetwork_client.Config.{VpnConfig}
use urnetwork_client.Dataplane.Core.{
  server, device, manager, logs, commands, waits, Deed, Trace, when, vpn_run_core,
}
use urnetwork_client.Lifetime.{acquires, releases, does, acts}
use urnetwork_client.Linux.{install}
use urnetwork_client.Linux.Gateways.{detect_gateway}
use urnetwork_client.Linux.Routes.{Names, Command, Session, words, cleanup}
use urnetwork_client.Logger.{LogLevel, error, warn, info}
use urnetwork_client.Session.{Mode, nothing, socks_only, with_tun, session_mode}
use urnetwork_client.Session.Course.{
  Outcome, finished, create_tun_failed, is_missing, does_all, after, greeting, proxied,
}
use urnetwork_client.Socks.Server.{Service}
use urnetwork_client.Startup.{decimal}
use urnetwork_client.Text.{is_empty, trim_space, has_prefix}

-- What the system answers: the names, which commands of the route manager succeed, the TUN devices
-- that can be made, the output of the list of default routes, and the servers that can be started.
pub record Host : Type 0 where
  pub names : Names
  pub command_ok : List Command → Bool
  pub creates : Bytes → Bool
  pub default_routes : Option Bytes
  pub listens : Service → Bool
  pub level : LogLevel

-- The address, the MTU and the IPv6 address of the device.
unfoldable pub configure : VpnConfig → Bytes → List (List Bytes)
unfolding decimal
configure cfg tun =
    (codes "ip" ∷ codes "addr" ∷ codes "add" ∷ cfg.ip_cidr ∷ codes "dev" ∷ tun ∷ [])
    ∷ (codes "ip"
        ∷ codes "link"
        ∷ codes "set"
        ∷ codes "dev"
        ∷ tun
        ∷ codes "mtu"
        ∷ decimal cfg.mtu
        ∷ [])
    ∷ (codes "ip" ∷ codes "link" ∷ codes "set" ∷ tun ∷ codes "up" ∷ [])
    ∷ (codes "ip" ∷ codes "addr" ∷ codes "add" ∷ codes "fd00::2/120" ∷ codes "dev" ∷ tun ∷ [])
    ∷ []

module _ (H : Host) (cfg : VpnConfig) where
  -- The manager where the dataplane starts, from the default routes then.
  unfoldable pub installed : Bytes → Session
  unfolding install detect_gateway
  installed tun =
      let (gw, dev) = detect_gateway tun H.default_routes in
      install H.names H.command_ok cfg tun gw dev

  -- From the new manager to the end of `Cleanup`, which is deferred.
  unfoldable pub managed : Bytes → Trace
  unfolding installed cleanup vpn_run_core words
  managed tun =
      let (m, log) = installed tun in
      acquires manager
      ∷ ((does_all (map words log)
            ++ (vpn_run_core H.listens H.level cfg tun []
                ++ does_all (map words (cleanup (m, [])))))
          ++ (releases manager ∷ []))

  -- With a TUN of this name.
  unfoldable pub tunnelled : Bytes → Outcome × Trace
  unfolding managed configure
  tunnelled tun =
      if H.creates tun
      then (
        finished,
        acquires (device tun)
            ∷ ((does (logs info) ∷ (does_all (configure cfg tun) ++ managed tun))
                ++ (releases (device tun) ∷ [])),
      )
      else (create_tun_failed, [])

  -- What the mode of the session asks for.
  unfoldable pub run_mode : Mode → Outcome × Trace
  unfolding tunnelled proxied is_missing
  run_mode nothing = (finished, does (logs error) ∷ [])
  run_mode (socks_only addr) = proxied H.listens cfg
  run_mode (with_tun name) = after (when (is_missing cfg) (does (logs warn))) (tunnelled name)

  -- `cmdVpn`
  unfoldable pub cmd_vpn : Outcome × Trace
  unfolding run_mode session_mode
  cmd_vpn = after (greeting cfg) (run_mode (session_mode cfg))
