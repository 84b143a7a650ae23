-- ===== src/Main/Dispatch.antt =====
-- main.go: which command runs.
use urnetwork_client.Base.{
  ◌≡◌, ◌≢◌, refl, ◌⊎◌, Bool, true, false, not, ◌&&◌, ◌||◌, List, [], ◌∷◌, All, some, arith, Bytes,
  codes, if◌then◌else◌,
}
use urnetwork_client.Process.Filter.{Split, IsForeground, IsBackground, child_args-Split}
use urnetwork_client.Text.{is_empty, trim_space}
use urnetwork_client.Util.{Opts, get_string_or, must_bool}
use urnetwork_client.Main.{
  Action, login, verify, save_jwt, mint_client, quick_connect, find_providers, open_transports,
  locations, socks, vpn, usage, command_name, dispatch, shows_version, log_failed, spawns, runs,
  main,
}

-- docopt sets the options of one command.
unfoldable pub IsOnly : Opts → Action → Type 0
IsOnly opts a = (b : Action) → (b ≡ usage) ⊎ ((b ≡ a) ⊎ (must_bool opts (command_name b) ≡ false))

-- The commands with a `--background` of their own.
abbrev pub is_detachable : Action → Bool
is_detachable login = false
is_detachable verify = false
is_detachable save_jwt = false
is_detachable mint_client = false
is_detachable quick_connect = true
is_detachable find_providers = false
is_detachable open_transports = false
is_detachable locations = false
is_detachable socks = false
is_detachable vpn = true
is_detachable usage = false

dispatch_lem :
    (opts : Opts) (a : Action)
    → must_bool opts (command_name a) ≡ true
    → IsOnly opts a
    → (a ≢ usage)
    → dispatch opts ≡ a
unfolding dispatch command_name IsOnly
dispatch_lem opts login e o n = ground (arith, e, o usage)
dispatch_lem opts verify e o n = ground (arith, e, o login)
dispatch_lem opts save_jwt e o n = ground (arith, e, o login, o verify)
dispatch_lem opts mint_client e o n = ground (arith, e, o login, o verify, o save_jwt)
dispatch_lem opts quick_connect e o n =
    ground (arith, e, o login, o verify, o save_jwt, o mint_client)
dispatch_lem opts find_providers e o n =
    ground (arith, e, o login, o verify, o save_jwt, o mint_client, o quick_connect)
dispatch_lem opts open_transports e o n =
    ground
      (arith, e, o login, o verify, o save_jwt, o mint_client, o quick_connect, o find_providers)
dispatch_lem opts locations e o n = ground (
  arith,
  e,
  o login,
  o verify,
  o save_jwt,
  o mint_client,
  o quick_connect,
  o find_providers,
  o open_transports,
)
dispatch_lem opts socks e o n = ground (
  arith,
  e,
  o login,
  o verify,
  o save_jwt,
  o mint_client,
  o quick_connect,
  o find_providers,
  o open_transports,
  o locations,
)
dispatch_lem opts vpn e o n = ground (
  arith,
  e,
  o login,
  o verify,
  o save_jwt,
  o mint_client,
  o quick_connect,
  o find_providers,
  o open_transports,
  o locations,
  o socks,
)
dispatch_lem opts usage e o n = absurd (n refl)

detachable_lem :
    (opts : Opts) (a : Action)
    → must_bool opts (command_name a) ≡ true
    → IsOnly opts a
    → (a ≢ usage)
    → (must_bool opts (codes "quick-connect") || must_bool opts (codes "vpn")) ≡ is_detachable a
unfolding command_name IsOnly
detachable_lem opts login e o n = ground (arith, e, o quick_connect, o vpn)
detachable_lem opts verify e o n = ground (arith, e, o quick_connect, o vpn)
detachable_lem opts save_jwt e o n = ground (arith, e, o quick_connect, o vpn)
detachable_lem opts mint_client e o n = ground (arith, e, o quick_connect, o vpn)
detachable_lem opts quick_connect e o n = ground (arith, e, o quick_connect, o vpn)
detachable_lem opts find_providers e o n = ground (arith, e, o quick_connect, o vpn)
detachable_lem opts open_transports e o n = ground (arith, e, o quick_connect, o vpn)
detachable_lem opts locations e o n = ground (arith, e, o quick_connect, o vpn)
detachable_lem opts socks e o n = ground (arith, e, o quick_connect, o vpn)
detachable_lem opts vpn e o n = ground (arith, e, o quick_connect, o vpn)
detachable_lem opts usage e o n = absurd (n refl)

-- Where docopt has set the options of one command, `main` shows the version if that is asked for, else
-- fails if there is a log file that cannot be set up, else starts a child if `--background` is given
-- and the command is quick-connect or vpn, and runs the command itself otherwise. The child gets the
-- arguments in their order, without those that are `--background` or start with `--background=`, and
-- with nothing else left out.
pub main-Launch :
    (opts : Opts) (a : Action) (program : Bytes) (args : List Bytes) (set_up_log : Bytes → Bool)
    → a ≢ usage
    → must_bool opts (command_name a) ≡ true
    → IsOnly opts a
    → (kept : List Bytes) × (dropped : List Bytes) × (main opts (program ∷ args) set_up_log ≡ (
        let log_path = trim_space (get_string_or opts (codes "--log_file") []) in
        if must_bool opts (codes "--version")
        then shows_version
        else if not (is_empty log_path) && not (set_up_log log_path)
        then log_failed
        else if must_bool opts (codes "--background") && is_detachable a
        then spawns (some kept)
        else runs a))
      × Split args kept dropped
      × All IsForeground kept
      × All IsBackground dropped
unfolding main
main-Launch opts a program args set_up_log n e o =
    let (kept, dropped, k, s, f, b) = child_args-Split program args in
    (kept, dropped, rw (detachable_lem opts a e o n, dispatch_lem opts a e o n, k) refl, s, f, b)
