-- ===== src/Main/Usage/Reads.antt =====
-- Which options the settings of `vpn` depend on.
use urnetwork_client.Account.QuickConnect.{parse_setup}
use urnetwork_client.Base.{
  arith, ◌≡◌, refl, ap, ◌∙◌, true, [], Option, Bytes, codes, some, none, if◌then◌else◌,
}
use urnetwork_client.Base.Int.{ℤ, pos}
use urnetwork_client.Config.{
  VpnConfig, ConfigFile, parse_location_config, parse_vpn_config, apply_config_file,
  default_api_url, default_connect_url, default_ip_cidr, bypass,
}
use urnetwork_client.Jwt.{load_jwt}
use urnetwork_client.Main.{vpn, quick_connect, vpn_settings, Action}
use urnetwork_client.Main.Usage.{options_of, session_options, Agree}
use urnetwork_client.Session.{is_one_of}
use urnetwork_client.Text.{equal, is_empty, trim_space}
use urnetwork_client.Util.{Opts, get_string_or, get_int_or, must_bool, must_string}

module _ (a : Action) {x y : Opts} (same : Agree a x y) where
  reads_string :
      (k d : Bytes) → is_one_of k (options_of a) ≡ true → get_string_or x k d ≡ get_string_or y k d
  unfolding get_string_or
  reads_string k d h = rw ((same k h).0, get_string_or) refl

  reads_given : (k : Bytes) → is_one_of k (options_of a) ≡ true → must_string x k ≡ must_string y k
  unfolding must_string
  reads_given k h = rw ((same k h).0, must_string) refl

  reads_int :
      (k : Bytes) (d : ℤ) → is_one_of k (options_of a) ≡ true → get_int_or x k d ≡ get_int_or y k d
  unfolding get_int_or
  reads_int k d h = rw ((same k h).1, get_int_or) refl

  reads_bool : (k : Bytes) → is_one_of k (options_of a) ≡ true → must_bool x k ≡ must_bool y k
  unfolding must_bool
  reads_bool k h = rw ((same k h).2, must_bool) refl

session_of_vpn :
    (k : Bytes) → is_one_of k session_options ≡ true → is_one_of k (options_of vpn) ≡ true
unfolding options_of is_one_of
session_of_vpn k h = ground (arith, h)

session_of_quick_connect :
    (k : Bytes) → is_one_of k session_options ≡ true → is_one_of k (options_of quick_connect) ≡ true
unfolding options_of is_one_of
session_of_quick_connect k h = ground (arith, h)

parse_vpn_config-Agree :
    (a : Action) {x y : Opts} (same : Agree a x y) (jwt : Bytes)
    → ((k : Bytes) → is_one_of k session_options ≡ true → is_one_of k (options_of a) ≡ true)
    → is_one_of (codes "--api_url") (options_of a) ≡ true
    → parse_vpn_config x jwt ≡ parse_vpn_config y jwt
unfolding parse_vpn_config parse_location_config session_options is_one_of equal
parse_vpn_config-Agree a {x} {y} same jwt sub url =
    let str =
      λ (k d : Bytes) (h : is_one_of k session_options ≡ true). reads_string a same k d (sub k h) in
    let flag =
      λ (k : Bytes) (h : is_one_of k session_options ≡ true). reads_bool a same k (sub k h) in
    rw
      (
        reads_string a same (codes "--api_url") default_api_url url,
        str (codes "--connect_url") default_connect_url refl,
        str (codes "--tun") [] refl,
        str (codes "--ip_cidr") default_ip_cidr refl,
        reads_int a same (codes "--mtu") (pos 1420) (sub (codes "--mtu") refl),
        flag (codes "--default_route") refl,
        str (codes "--route") [] refl,
        str (codes "--exclude_route") [] refl,
        str (codes "--dns") [] refl,
        str (codes "--dns_service") [] refl,
        str (codes "--dns_bootstrap") bypass refl,
        str (codes "--socks_listen") [] refl,
        str (codes "--socks") (get_string_or y (codes "--socks_listen") []) refl,
        str (codes "--domain") [] refl,
        str (codes "--exclude_domain") [] refl,
        str (codes "--allow_inbound_src") [] refl,
        flag (codes "--allow_inbound_local") refl,
        flag (codes "--enable_ipv6") refl,
        flag (codes "--kill_switch") refl,
        flag (codes "--debug") refl,
        reads_int a same (codes "--stats_interval") (pos 5) (sub (codes "--stats_interval") refl),
        str (codes "--location_id") [] refl,
        str (codes "--location_group_id") [] refl,
        str (codes "--location_query") [] refl,
      )
      refl

-- The settings of `vpn`, with those of its config file and its token, depend on no option but those
-- that its usage line has: parses that agree on these give the same settings.
pub vpn_settings-Agree :
    (x y : Opts) (file : Option Bytes) (load_config : Bytes → Option ConfigFile)
    → Agree vpn x y
    → vpn_settings x file load_config ≡ vpn_settings y file load_config
unfolding vpn_settings options_of session_options is_one_of equal
vpn_settings-Agree x y file load_config same =
    let token = λ (given : Bytes).
      let t : Bytes = elim (load_jwt given file) [ some t ↦ t | none ↦ [] ] in t in
    let merged = λ (path : Bytes) (cfg : VpnConfig).
      let r : Option VpnConfig =
        if is_empty (trim_space path) then some cfg else elim (load_config (trim_space path)) [
          | none ↦ none
          | some cf ↦ some (apply_config_file cfg cf)
        ] in
      r in
    let settings : parse_vpn_config x (token (get_string_or x (codes "--jwt") []))
        ≡ parse_vpn_config y (token (get_string_or y (codes "--jwt") [])) =
      ap (λ (s : Bytes). parse_vpn_config x (token s))
        (reads_string vpn same (codes "--jwt") [] refl)
      ∙ parse_vpn_config-Agree vpn same (token (get_string_or y (codes "--jwt") [])) session_of_vpn
          refl in
    λ i. merged (reads_string vpn same (codes "--config") [] refl i) (settings i)

-- So for quick-connect, whose own settings read the options before those of the session.
pub quick_connect-Agree :
    (x y : Opts) (jwt : Bytes) (getenv : Bytes → Bytes) (parse_duration : Bytes → Option ℤ)
    → Agree quick_connect x y
    → (parse_setup x getenv parse_duration ≡ parse_setup y getenv parse_duration)
      × (parse_vpn_config x jwt ≡ parse_vpn_config y jwt)
unfolding parse_setup options_of is_one_of equal
quick_connect-Agree x y jwt getenv parse_duration same = (
  rw
      (
        reads_string quick_connect same (codes "--jwt_renew_interval") [] refl,
        reads_string quick_connect same (codes "--user_auth") [] refl,
        reads_string quick_connect same (codes "--password") [] refl,
        reads_string quick_connect same (codes "--code") [] refl,
        must_string_lem,
        reads_bool quick_connect same (codes "--force_jwt") refl,
      )
      refl,
  parse_vpn_config-Agree quick_connect same jwt session_of_quick_connect refl,
)
  where
    must_string_lem : must_string x (codes "--jwt") ≡ must_string y (codes "--jwt")
    must_string_lem = reads_given quick_connect same (codes "--jwt") refl
