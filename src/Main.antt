-- ===== src/Main.antt =====
-- main.go: the dispatch of `main`, behind docopt. Printing is outside; the log file and
-- the child process are in Process.
pub mod Dispatch
pub mod Usage
use urnetwork_client.Base.{
  ℕ, Bool, true, false, not, ◌&&◌, ◌||◌, List, [], ◌∷◌, ◌++◌, Option, none, some, Bytes, codes,
  if◌then◌else◌,
}
use urnetwork_client.Config.{VpnConfig, ConfigFile, parse_vpn_config, apply_config_file}
use urnetwork_client.Jwt.{load_jwt}
use urnetwork_client.Logger.{LogLevel, set_log_level}
use urnetwork_client.Process.{child_args}
use urnetwork_client.Text.{is_empty, trim_space}
use urnetwork_client.Util.{Opts, get_string_or, must_bool}

pub data Action : Type 0 where
  login verify save_jwt mint_client quick_connect find_providers open_transports locations socks vpn
        usage :
      Action

-- The name that docopt has for a command.
unfoldable pub command_name : Action → Bytes
command_name login = codes "login"
command_name verify = codes "verify"
command_name save_jwt = codes "save-jwt"
command_name mint_client = codes "mint-client"
command_name quick_connect = codes "quick-connect"
command_name find_providers = codes "find-providers"
command_name open_transports = codes "open"
command_name locations = codes "locations"
command_name socks = codes "socks"
command_name vpn = codes "vpn"
command_name usage = []

-- The switch over the commands.
unfoldable pub dispatch : Opts → Action
dispatch opts =
    if must_bool opts (codes "login")
    then login
    else if must_bool opts (codes "verify")
    then verify
    else if must_bool opts (codes "save-jwt")
    then save_jwt
    else if must_bool opts (codes "mint-client")
    then mint_client
    else if must_bool opts (codes "quick-connect")
    then quick_connect
    else if must_bool opts (codes "find-providers")
    then find_providers
    else if must_bool opts (codes "open")
    then open_transports
    else if must_bool opts (codes "locations")
    then locations
    else if must_bool opts (codes "socks")
    then socks
    else if must_bool opts (codes "vpn")
    then vpn
    else usage

-- What `main` does: it shows the version, fails at the log file, starts a child with these arguments
-- (nothing for a panic), or runs a command.
pub data Launch : Type 0 where
  shows_version log_failed : Launch
  spawns : Option (List Bytes) → Launch
  runs : Action → Launch

-- From the options, the arguments and whether the log file can be set up.
unfoldable pub main : Opts → List Bytes → (Bytes → Bool) → Launch
unfolding dispatch
main opts args set_up_log =
    let log_path = trim_space (get_string_or opts (codes "--log_file") []) in
    if must_bool opts (codes "--version")
    then shows_version
    else if not (is_empty log_path) && not (set_up_log log_path)
    then log_failed
    else if must_bool opts (codes "--background")
        && (must_bool opts (codes "quick-connect") || must_bool opts (codes "vpn"))
    then spawns (child_args args)
    else runs (dispatch opts)

-- The settings of `vpn`, from the token file and the reading of a config file; nothing where that
-- fails.
unfoldable pub vpn_settings : Opts → Option Bytes → (Bytes → Option ConfigFile) → Option VpnConfig
vpn_settings opts file load_config =
    let jwt : Bytes = elim (load_jwt (get_string_or opts (codes "--jwt") []) file) [
      | some t ↦ t
      | none ↦ []
    ] in
    let cfg = parse_vpn_config opts jwt in
    let config_path = trim_space (get_string_or opts (codes "--config") []) in
    if is_empty config_path
    then some cfg
    else elim (load_config config_path) [ none ↦ none | some cf ↦ some (apply_config_file cfg cf) ]

-- The level that `main` sets.
unfoldable pub log_level : Opts → LogLevel
unfolding set_log_level
log_level opts =
    set_log_level (trim_space (get_string_or opts (codes "--log_level") []))
      (must_bool opts (codes "--debug"))

-- The status of the process, from whether the child starts and whether a command succeeds; 2 is that
-- of a panic.
unfoldable pub exit_status : Launch → (List Bytes → Bool) → (Action → Bool) → ℕ
exit_status shows_version child_starts succeeds = 0
exit_status log_failed child_starts succeeds = 1
exit_status (spawns none) child_starts succeeds = 2
exit_status (spawns (some args)) child_starts succeeds = if child_starts args then 0 else 1
exit_status (runs a) child_starts succeeds = if succeeds a then 0 else 1
