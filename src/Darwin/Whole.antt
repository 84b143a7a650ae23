-- ===== src/Darwin/Whole.antt =====
-- vpn_darwin.go: the whole of `cmdVpn`, as a trace. The texts of its log lines, and the lines of the
-- route manager and of the resolvers, are outside. The goroutine that ends the bypass is only
-- started here: its commands can come at any time from then on, also during and behind `Cleanup`, and
-- are not in the trace. What `Cleanup` finds in the list of the bypass depends on whether that
-- goroutine has cleared it by then.
pub mod Ordered
pub mod Routes
use urnetwork_client.Base.{
  ℕ, Bool, not, ◌&&◌, ◌||◌, List, [], ◌∷◌, ◌++◌, map, drop, length, Option, none, some, Bytes,
  codes, if◌then◌else◌,
}
use urnetwork_client.Config.{VpnConfig}
use urnetwork_client.Darwin.{tun_cidr_parts, get_default_gateway, get_system_dns_resolvers}
use urnetwork_client.Darwin.Routes.{
  Target, host, net, net_mask, Way, gateway, interface, peer, scoped, reject, scoped_reject,
  Command, add, change, delete, delete_default, add_blackhole, add_default, set_dns, clear_dns,
  down, Shell, Entry, Session, new_manager,
}
use urnetwork_client.Darwin.Routes.Methods.{end_bypass, run_ops, cleanup}
use urnetwork_client.Darwin.Session.{
  route_ops, dns_ops, keeps_bypass, ends_bypass, Wake, leaves_loop, Start, nothing_to_do,
  socks_only, start_of, open_device, configure,
}
use urnetwork_client.Dataplane.Core.{
  device, manager, logs, commands, starts_bypass_end, Trace, when, vpn_run_core,
}
use urnetwork_client.Lifetime.{acquires, releases, does}
use urnetwork_client.Linux.Routes.{Names}
use urnetwork_client.Logger.{LogLevel, error, warn, info}
use urnetwork_client.Session.Course.{
  Outcome, finished, create_tun_failed, is_missing, does_all, after, greeting, proxied,
}
use urnetwork_client.Socks.Server.{Service}
use urnetwork_client.Text.{is_empty, trim_space}

unfoldable pub target_words : Target → List Bytes
target_words (host d) = codes "-host" ∷ d ∷ []
target_words (net d) = codes "-net" ∷ d ∷ []
target_words (net_mask d mask) = codes "-net" ∷ d ∷ codes "-netmask" ∷ mask ∷ []

unfoldable pub way_words : Way → List Bytes
way_words (gateway gw) = gw ∷ []
way_words (interface tun) = codes "-interface" ∷ tun ∷ []
way_words (peer ip tun) = ip ∷ codes "-ifscope" ∷ tun ∷ []
way_words (scoped tun) = codes "-ifscope" ∷ tun ∷ []
way_words reject = codes "-reject" ∷ []
way_words (scoped_reject tun) = codes "-reject" ∷ codes "-ifscope" ∷ tun ∷ []

abbrev pub route : Bytes → List Bytes → List Bytes
route verb rest = codes "route" ∷ codes "-n" ∷ verb ∷ rest

-- The name and the arguments of a command of the route manager.
unfoldable pub words : Command → List Bytes
unfolding target_words way_words
words (add t w) = route (codes "add") (target_words t ++ way_words w)
words (change t w) = route (codes "change") (target_words t ++ way_words w)
words (delete t) = route (codes "delete") (target_words t)
words delete_default = route (codes "delete") (codes "default" ∷ [])
words add_blackhole = route (codes "add") (codes "-blackhole" ∷ codes "default" ∷ [])
words (add_default gw) = route (codes "add") (codes "default" ∷ gw ∷ [])
words (set_dns service servers) = codes "networksetup" ∷ codes "-setdnsservers" ∷ service ∷ servers
words (clear_dns service) =
    codes "networksetup" ∷ codes "-setdnsservers" ∷ service ∷ codes "Empty" ∷ []
words (down tun) = codes "ifconfig" ∷ tun ∷ codes "down" ∷ []

-- What the system answers: the names, the commands of the route manager, the name of the device that
-- is made, the outputs of `route get default` and of `scutil`, the servers that can be started, and
-- what wakes the goroutine of the bypass early enough for it to be through before `Cleanup`.
pub record Host : Type 0 where
  pub names : Names
  pub shell : Shell
  pub creates : Bytes → Option Bytes
  pub default_route : Option Bytes
  pub resolvers : Option Bytes
  pub listens : Service → Bool
  pub level : LogLevel
  pub wakes : List Wake

abbrev pub is_none : Option Bytes → Bool
is_none none = Bool.true
is_none (some _) = Bool.false

abbrev pub ran : List Entry → Trace
ran log = does_all (map (λ (e : Entry). words e.0) log)

module _ (H : Host) (cfg : VpnConfig) where
  -- The original gateway; empty where it is not found.
  unfoldable pub def_gw : Bytes
  unfolding get_default_gateway
  def_gw = elim (get_default_gateway H.default_route) [ none ↦ [] | some (gw, iface) ↦ gw ]

  -- The manager behind the routes, behind the resolvers, and where `Cleanup` finds it.
  unfoldable pub routed : Bytes → Session
  unfolding def_gw route_ops new_manager run_ops tun_cidr_parts
  routed tun =
      run_ops H.shell H.names (route_ops cfg)
        (new_manager tun (tun_cidr_parts cfg.ip_cidr).1 def_gw, [])

  unfoldable pub installed : Session → Session
  unfolding def_gw dns_ops run_ops get_system_dns_resolvers
  installed s =
      run_ops H.shell H.names (dns_ops cfg def_gw (get_system_dns_resolvers H.resolvers)) s

  unfoldable pub settled : Session → Session
  unfolding run_ops ends_bypass leaves_loop
  settled s =
      run_ops H.shell H.names
        (if ends_bypass cfg && leaves_loop H.wakes then end_bypass ∷ [] else []) s

  -- The detection of the gateway.
  abbrev pub detects : Trace
  detects =
      does (commands (route (codes "get") (codes "default" ∷ [])))
      ∷ when
          (is_empty def_gw && (cfg.default_route || not (is_empty (trim_space cfg.exclude_routes))))
          (does (logs warn))

  -- The system's resolvers are asked for.
  abbrev pub asks_resolvers : Trace
  asks_resolvers =
      when (is_empty cfg.dns_list && (keeps_bypass cfg && not (is_empty def_gw)))
        (does (commands (codes "scutil" ∷ codes "--dns" ∷ [])))

  -- From the new manager to the end of `Cleanup`, which is deferred.
  unfoldable pub managed : Bytes → Trace
  unfolding routed installed settled cleanup vpn_run_core words keeps_bypass
  managed tun =
      let r = routed tun in
      let s = installed r in
      let t = settled s in
      acquires manager
      ∷ ((ran r.1
            ++ (asks_resolvers
                ++ (ran (drop (length r.1) s.1)
                    ++ (when (ends_bypass cfg) (does starts_bypass_end)
                        ++ (vpn_run_core H.listens H.level cfg tun []
                            ++ ran (drop (length t.1) (cleanup H.shell t)))))))
          ++ (releases manager ∷ []))

  -- With a device of this name of its own.
  unfoldable pub on_device : Bytes → Trace
  unfolding managed configure
  on_device tun =
      acquires (device tun)
      ∷ ((does (logs info)
            ∷ (does_all (configure cfg tun)
                ++ (when
                      (not (is_empty cfg.socks_listen)
                        && (not cfg.default_route
                            && (is_empty cfg.extra_routes && is_empty cfg.exclude_routes)))
                      (does (logs info))
                    ++ (detects ++ managed tun))))
          ++ (releases (device tun) ∷ []))

  -- With a device that is asked for under a name.
  unfoldable pub tunnelled : Bytes → Outcome × Trace
  unfolding on_device open_device
  tunnelled name =
      after (when (is_none (H.creates name) && not (is_empty (trim_space name))) (does (logs warn)))
        (elim (open_device H.creates cfg.tun_name name) [
          | none ↦ (create_tun_failed, [])
          | some tun ↦ (finished, on_device tun)
        ])

  -- What the start of the session asks for.
  unfoldable pub run_start : Start → Outcome × Trace
  unfolding tunnelled is_missing proxied
  run_start nothing_to_do = (finished, does (logs error) ∷ [])
  run_start socks_only = proxied H.listens cfg
  run_start (Start.device name) = after (when (is_missing cfg) (does (logs warn))) (tunnelled name)

  -- `cmdVpn`
  unfoldable pub cmd_vpn : Outcome × Trace
  unfolding run_start start_of
  cmd_vpn = after (greeting cfg) (run_start (start_of cfg))
