-- ===== src/Config.antt =====
-- config.go: the settings of a session, their reading from the options and the merge of the
-- config file. Reading files and decoding
-- YAML are parameters.
pub mod Merge
use urnetwork_client.Base.{
  ℕ, ◌*◌, Bool, true, false, not, ◌&&◌, ◌||◌, List, [], ◌∷◌, Bytes, codes, Option, none, some,
  ◌>>=◌, if◌then◌else◌,
}
use urnetwork_client.Base.Int.{ℤ, pos, eq_int, is_positive, mul_int64}
use urnetwork_client.Text.{equal, is_empty, trim_space, join}
use urnetwork_client.Util.{Opts, split_csv, get_string_or, get_int_or, must_bool, must_string}

pub record LocationConfig : Type 0 where
  pub location_id : Bytes
  pub location_group_id : Bytes
  pub location_query : Bytes

pub record VpnConfig : Type 0 where
  pub api_url : Bytes
  pub connect_url : Bytes
  pub tun_name : Bytes
  pub ip_cidr : Bytes
  pub mtu : ℤ
  pub default_route : Bool
  pub extra_routes : Bytes
  pub exclude_routes : Bytes
  pub dns_list : Bytes
  pub dns_service : Bytes
  pub dns_bootstrap : Bytes
  pub socks_listen : Bytes
  pub allow_domains : List Bytes
  pub exclude_domains : List Bytes
  pub allow_inbound_src_list : Bytes
  pub allow_inbound_local : Bool
  pub enable_ipv6 : Bool
  pub enable_kill_switch : Bool
  pub debug : Bool
  pub stats_interval : ℤ
  pub jwt : Bytes
  pub location : LocationConfig

pub record SocksConfig : Type 0 where
  pub listen_addr : Bytes
  pub extender_ip : Bytes
  pub extender_port : Bytes
  pub extender_sni : Bytes
  pub extender_secret : Bytes
  pub allow_domains : List Bytes
  pub exclude_domains : List Bytes
  pub debug : Bool

-- main.go
abbrev pub default_api_url : Bytes
default_api_url = codes "https://api.bringyour.com"

abbrev pub default_connect_url : Bytes
default_connect_url = codes "wss://connect.bringyour.com"

abbrev pub default_ip_cidr : Bytes
default_ip_cidr = codes "10.255.0.2/24"

abbrev pub bypass : Bytes
bypass = codes "bypass"

-- `time.Second`, in nanoseconds.
abbrev pub second : ℕ
second = 1_000_000_000

unfoldable pub parse_location_config : Opts → LocationConfig
parse_location_config opts = record {
  location_id = trim_space (get_string_or opts (codes "--location_id") []);
  location_group_id = trim_space (get_string_or opts (codes "--location_group_id") []);
  location_query = trim_space (get_string_or opts (codes "--location_query") []);
}

unfoldable pub parse_vpn_config : Opts → Bytes → VpnConfig
unfolding parse_location_config
parse_vpn_config opts jwt = record {
  api_url = get_string_or opts (codes "--api_url") default_api_url;
  connect_url = get_string_or opts (codes "--connect_url") default_connect_url;
  tun_name = get_string_or opts (codes "--tun") [];
  ip_cidr = get_string_or opts (codes "--ip_cidr") default_ip_cidr;
  mtu = get_int_or opts (codes "--mtu") (pos 1420);
  default_route = must_bool opts (codes "--default_route");
  extra_routes = get_string_or opts (codes "--route") [];
  exclude_routes = get_string_or opts (codes "--exclude_route") [];
  dns_list = get_string_or opts (codes "--dns") [];
  dns_service = trim_space (get_string_or opts (codes "--dns_service") []);
  dns_bootstrap = trim_space (get_string_or opts (codes "--dns_bootstrap") bypass);
  socks_listen =
      trim_space
        (get_string_or opts (codes "--socks") (get_string_or opts (codes "--socks_listen") []));
  allow_domains = split_csv (get_string_or opts (codes "--domain") []);
  exclude_domains = split_csv (get_string_or opts (codes "--exclude_domain") []);
  allow_inbound_src_list = trim_space (get_string_or opts (codes "--allow_inbound_src") []);
  allow_inbound_local = must_bool opts (codes "--allow_inbound_local");
  enable_ipv6 = must_bool opts (codes "--enable_ipv6");
  enable_kill_switch = must_bool opts (codes "--kill_switch");
  debug = must_bool opts (codes "--debug");
  stats_interval = mul_int64 (get_int_or opts (codes "--stats_interval") (pos 5)) second;
  jwt = jwt;
  location = parse_location_config opts;
}

unfoldable pub parse_socks_config : Opts → SocksConfig
parse_socks_config opts = record {
  listen_addr = trim_space (must_string opts (codes "--listen"));
  extender_ip = trim_space (must_string opts (codes "--extender_ip"));
  extender_port = trim_space (must_string opts (codes "--extender_port"));
  extender_sni = trim_space (must_string opts (codes "--extender_sni"));
  extender_secret = trim_space (must_string opts (codes "--extender_secret"));
  allow_domains = split_csv (get_string_or opts (codes "--domain") []);
  exclude_domains = split_csv (get_string_or opts (codes "--exclude_domain") []);
  debug = must_bool opts (codes "--debug");
}

pub record ConfigFile : Type 0 where
  pub api_url : Bytes
  pub connect_url : Bytes
  pub tun_name : Bytes
  pub ip_cidr : Bytes
  pub mtu : ℤ
  pub default_route : Bool
  pub extra_routes : Bytes
  pub exclude_routes : Bytes
  pub dns : List Bytes
  pub dns_service : Bytes
  pub dns_bootstrap : Bytes
  pub socks_listen : Bytes
  pub allow_domains : List Bytes
  pub exclude_domains : List Bytes
  pub allow_inbound_src : Bytes
  pub allow_inbound_local : Bool
  pub location_query : Bytes
  pub location_id : Bytes
  pub location_group_id : Bytes
  pub log_level : Bytes
  pub stats_interval : ℤ
  pub debug : Bool

-- A text or a list of the settings where it counts as unset and the file has one.
abbrev filled {ℓ} : {A : Type ℓ} → Bool → List A → List A → List A
filled unset file cli = if unset && not (is_empty file) then file else cli

-- `ConfigFile{}`, a file that sets nothing.
abbrev pub no_file : ConfigFile
no_file = record {
  api_url = [];
  connect_url = [];
  tun_name = [];
  ip_cidr = [];
  mtu = pos 0;
  default_route = false;
  extra_routes = [];
  exclude_routes = [];
  dns = [];
  dns_service = [];
  dns_bootstrap = [];
  socks_listen = [];
  allow_domains = [];
  exclude_domains = [];
  allow_inbound_src = [];
  allow_inbound_local = false;
  location_query = [];
  location_id = [];
  location_group_id = [];
  log_level = [];
  stats_interval = pos 0;
  debug = false;
}

-- `loadConfigFile`, from the reading of files and the decoding of YAML.
unfoldable pub load_config_file :
    (Bytes → Option Bytes) → (Bytes → Option ConfigFile) → Bytes → Option ConfigFile
load_config_file read unmarshal path =
    if is_empty (trim_space path) then some no_file else (read path >>= unmarshal)

unfoldable pub apply_config_file : VpnConfig → ConfigFile → VpnConfig
apply_config_file cfg cf = record {
  api_url =
      filled (is_empty cfg.api_url || equal cfg.api_url default_api_url) cf.api_url cfg.api_url;
  connect_url =
      filled (is_empty cfg.connect_url || equal cfg.connect_url default_connect_url) cf.connect_url
        cfg.connect_url;
  tun_name = filled (is_empty cfg.tun_name) cf.tun_name cfg.tun_name;
  ip_cidr = filled (equal cfg.ip_cidr default_ip_cidr) cf.ip_cidr cfg.ip_cidr;
  mtu = if eq_int cfg.mtu (pos 1420) && not (eq_int cf.mtu (pos 0)) then cf.mtu else cfg.mtu;
  default_route = if not cfg.default_route && cf.default_route then true else cfg.default_route;
  extra_routes = filled (is_empty cfg.extra_routes) cf.extra_routes cfg.extra_routes;
  exclude_routes = filled (is_empty cfg.exclude_routes) cf.exclude_routes cfg.exclude_routes;
  dns_list =
      if is_empty cfg.dns_list && not (is_empty cf.dns) then join cf.dns b',' else cfg.dns_list;
  dns_service = filled (is_empty cfg.dns_service) cf.dns_service cfg.dns_service;
  dns_bootstrap =
      filled (is_empty cfg.dns_bootstrap || equal cfg.dns_bootstrap bypass) cf.dns_bootstrap
        cfg.dns_bootstrap;
  socks_listen = filled (is_empty cfg.socks_listen) cf.socks_listen cfg.socks_listen;
  allow_domains = filled (is_empty cfg.allow_domains) cf.allow_domains cfg.allow_domains;
  exclude_domains = filled (is_empty cfg.exclude_domains) cf.exclude_domains cfg.exclude_domains;
  allow_inbound_src_list =
      filled (is_empty cfg.allow_inbound_src_list) cf.allow_inbound_src cfg.allow_inbound_src_list;
  allow_inbound_local =
      if not cfg.allow_inbound_local && cf.allow_inbound_local
      then true
      else cfg.allow_inbound_local;
  enable_ipv6 = cfg.enable_ipv6;
  enable_kill_switch = cfg.enable_kill_switch;
  debug = if not cfg.debug && cf.debug then true else cfg.debug;
  stats_interval =
      if eq_int cfg.stats_interval (pos (5 * second)) && is_positive cf.stats_interval
      then mul_int64 cf.stats_interval second
      else cfg.stats_interval;
  jwt = cfg.jwt;
  location = record {
    location_id =
        filled (is_empty cfg.location.location_id) cf.location_id cfg.location.location_id;
    location_group_id =
        filled (is_empty cfg.location.location_group_id) cf.location_group_id
          cfg.location.location_group_id;
    location_query =
        filled (is_empty cfg.location.location_query) cf.location_query cfg.location.location_query;
  };
}
