-- ===== src/Dataplane/Core.antt =====
-- vpn_core.go: the course of `vpnRunCore`, as a trace. The packet loops and the ticker, which it only
-- starts here, are in the modules beside this one; the texts of its log lines are outside.
pub mod Course
use urnetwork_client.Base.{
  ℕ, Bool, true, false, ◌&&◌, ◌||◌, List, [], ◌∷◌, ◌++◌, Option, none, some, Bytes, if◌then◌else◌,
}
use urnetwork_client.Config.{VpnConfig}
use urnetwork_client.Dataplane.{block_new_inbound}
use urnetwork_client.Dataplane.Stats.{has_stats, new_plane}
use urnetwork_client.Lifetime.{Step, acquires, releases, does, Rules}
use urnetwork_client.Logger.{LogLevel, warn, info, debug, is_enabled}
use urnetwork_client.Socks.Server.{Service, vpn_service}
use urnetwork_client.Text.{is_empty, equal}

-- The SOCKS5 server, the TUN device by its name, and the route manager, which `Cleanup` releases.
pub data Resource : Type 0 where
  server : Service → Resource
  device : Bytes → Resource
  manager : Resource

-- A call of a log function, a line that is printed, a command with its arguments, the wait for the end
-- of the context, and what is only started: the multi-client, which hands packets to `receive`, the
-- loop over the TUN, the ticker, and on macOS the goroutine that ends the bypass. These run on by
-- themselves, beyond the wait and `Cleanup`: the loop until the closed device fails its read, the
-- ticker until the context ends, the client, which is made with the context, as its library has it.
pub data Deed : Type 0 where
  logs : LogLevel → Deed
  prints : Deed
  commands : List Bytes → Deed
  waits starts_client starts_loop starts_stats starts_bypass_end : Deed

abbrev same_resource : Resource → Resource → Bool
same_resource (server a) (server b) = equal a.listen_addr b.listen_addr
same_resource (device a) (device b) = equal a b
same_resource manager manager = true
same_resource _ _ = false

abbrev is_device : Resource → Bool
is_device (server _) = false
is_device (device _) = true
is_device manager = false

abbrev is_manager : Resource → Bool
is_manager (server _) = false
is_manager (device _) = false
is_manager manager = true

abbrev any : {A : Type 0} → (A → Bool) → List A → Bool
any p [] = false
any p (x ∷ xs) = p x || any p xs

-- Commands run on a device. What is started is started on a device with its routes managed.
-- The wait is for the end of something: of a server alone, or of a device with its routes.
abbrev may_do : List Resource → Deed → Bool
may_do rs (logs _) = true
may_do rs prints = true
may_do rs (commands _) = any is_device rs
may_do rs starts_client = any is_manager rs && any is_device rs
may_do rs starts_loop = any is_manager rs && any is_device rs
may_do rs starts_stats = any is_manager rs && any is_device rs
may_do rs starts_bypass_end = any is_manager rs && any is_device rs
may_do [] waits = false
may_do (server _ ∷ rs) waits = true
may_do (r ∷ rs) waits = any is_manager (r ∷ rs) && any is_device (r ∷ rs)

abbrev pub vpn_rules : Rules Resource Deed
vpn_rules = record { same = same_resource; may_do = may_do }

abbrev pub Trace : Type 0
Trace = List (Step Resource Deed)

abbrev pub when : {A : Type 0} → Bool → A → List A
when b a = if b then a ∷ [] else []

-- From whether a server can be started, the level of the log, and the caller's `onBeforeExit`.
module _ (listens : Service → Bool) (level : LogLevel) where
  -- The announcement and the wait.
  abbrev pub serve_out : Trace
  serve_out = when (is_enabled info level) (does prints) ++ (does waits ∷ [])

  -- A server, if there is one, around the wait.
  unfoldable pub proxy : Option Service → Trace
  proxy none = serve_out
  proxy (some s) =
      if listens s
      then acquires (server s) ∷ ((does (logs info) ∷ serve_out) ++ (releases (server s) ∷ []))
      else does (logs warn) ∷ serve_out

  unfoldable pub vpn_run_core : VpnConfig → Bytes → Trace → Trace
  unfolding proxy
  vpn_run_core cfg tun on_before_exit =
      when (block_new_inbound cfg && is_enabled info level) (does (logs info))
      ++ ((does starts_client
            ∷ does starts_loop
            ∷ when (has_stats cfg level new_plane) (does starts_stats))
          ++ (proxy (vpn_service cfg tun (is_enabled debug level)) ++ on_before_exit))
