-- ===== src/Main/Usage.antt =====
-- main.go: the usage text, as the options of each command and their defaults, and what docopt makes of
-- it.
pub mod Reads
use urnetwork_client.Base.{
  ◌≡◌, Bool, true, false, List, [], ◌∷◌, ◌++◌, Option, none, some, Bytes, codes, if◌then◌else◌,
}
use urnetwork_client.Config.{default_api_url, default_connect_url, default_ip_cidr, bypass}
use urnetwork_client.Main.{
  Action, login, verify, save_jwt, mint_client, quick_connect, find_providers, open_transports,
  locations, socks, vpn, usage,
}
use urnetwork_client.Session.{is_one_of}
use urnetwork_client.Text.{equal}
use urnetwork_client.Util.{Opts}

-- The options that quick-connect and vpn share, behind their names' order in the text.
unfoldable pub session_options : List Bytes
session_options =
    codes "--connect_url"
    ∷ codes "--tun"
    ∷ codes "--ip_cidr"
    ∷ codes "--mtu"
    ∷ codes "--default_route"
    ∷ codes "--route"
    ∷ codes "--exclude_route"
    ∷ codes "--domain"
    ∷ codes "--exclude_domain"
    ∷ codes "--dns"
    ∷ codes "--dns_service"
    ∷ codes "--dns_bootstrap"
    ∷ codes "--location_query"
    ∷ codes "--location_id"
    ∷ codes "--location_group_id"
    ∷ codes "--socks"
    ∷ codes "--socks_listen"
    ∷ codes "--allow_inbound_src"
    ∷ codes "--allow_inbound_local"
    ∷ codes "--enable_ipv6"
    ∷ codes "--kill_switch"
    ∷ codes "--background"
    ∷ codes "--log_file"
    ∷ codes "--log_level"
    ∷ codes "--debug"
    ∷ codes "--stats_interval"
    ∷ codes "--config"
    ∷ []

-- The usage lines.
unfoldable pub options_of : Action → List Bytes
unfolding session_options
options_of login = codes "--user_auth" ∷ codes "--password" ∷ codes "--api_url" ∷ []
options_of verify = codes "--user_auth" ∷ codes "--code" ∷ codes "--api_url" ∷ []
options_of save_jwt = codes "--jwt" ∷ []
options_of mint_client = codes "--api_url" ∷ codes "--jwt" ∷ []
options_of quick_connect =
    codes "--user_auth"
    ∷ codes "--password"
    ∷ codes "--code"
    ∷ codes "--jwt"
    ∷ codes "--api_url"
    ∷ codes "--force_jwt"
    ∷ codes "--jwt_renew_interval"
    ∷ session_options
options_of socks =
    codes "--listen"
    ∷ codes "--extender_ip"
    ∷ codes "--extender_port"
    ∷ codes "--extender_sni"
    ∷ codes "--extender_secret"
    ∷ codes "--domain"
    ∷ codes "--exclude_domain"
    ∷ codes "--debug"
    ∷ []
options_of find_providers =
    codes "--count" ∷ codes "--rank_mode" ∷ codes "--api_url" ∷ codes "--jwt" ∷ []
options_of open_transports =
    codes "--transports" ∷ codes "--connect_url" ∷ codes "--api_url" ∷ codes "--jwt" ∷ []
options_of locations = codes "--query" ∷ codes "--api_url" ∷ codes "--jwt" ∷ []
options_of vpn = codes "--api_url" ∷ codes "--jwt" ∷ session_options
options_of usage = []

-- The defaults in brackets of the option lines.
unfoldable pub default_of : Bytes → Option Bytes
default_of k =
    if equal k (codes "--api_url")
    then some default_api_url
    else if equal k (codes "--connect_url")
    then some default_connect_url
    else if equal k (codes "--count")
    then some (codes "8")
    else if equal k (codes "--rank_mode")
    then some (codes "quality")
    else if equal k (codes "--transports")
    then some (codes "4")
    else if equal k (codes "--ip_cidr")
    then some default_ip_cidr
    else if equal k (codes "--mtu")
    then some (codes "1420")
    else if equal k (codes "--dns_bootstrap")
    then some bypass
    else if equal k (codes "--stats_interval")
    then some (codes "5")
    else none

-- What docopt documents: an option that the usage line of the command does not have keeps its default.
abbrev pub IsParsed : Opts → Action → Type 0
IsParsed opts a = (k : Bytes) → is_one_of k (options_of a) ≡ false → opts.string k ≡ default_of k

-- Two parses that give the options of a command the same values.
abbrev pub Agree : Action → Opts → Opts → Type 0
Agree a x y =
    (k : Bytes)
    → is_one_of k (options_of a) ≡ true
    → (x.string k ≡ y.string k) × (x.int k ≡ y.int k) × (x.bool k ≡ y.bool k)
