-- ===== src/Config/Merge.antt =====
-- config.go, `applyConfigFile`: the settings before and behind the merge.
use urnetwork_client.Base.{
  ◌*◌, ◌≡◌, refl, ◌⊎◌, inl, inr, Bool, true, false, not, ◌&&◌, ◌||◌, List, [], ◌∷◌, arith, Bytes,
  if◌then◌else◌, Bool-cases,
}
use urnetwork_client.Base.Int.{ℤ, pos, eq_int, eq_int_iff, is_positive, mul_int64}
use urnetwork_client.Text.{equal, is_empty, join}
use urnetwork_client.Text.Laws.{equal_iff}
use urnetwork_client.Config.{
  no_file, VpnConfig, ConfigFile, default_api_url, default_connect_url, default_ip_cidr, bypass,
  second, filled, apply_config_file,
}

-- How the settings relate to those of the command line: each is kept, or was unset.
pub record Keeps (a b : VpnConfig) : Type 0 where
  pub api_url : (b.api_url ≡ a.api_url) ⊎ (a.api_url ≡ []) ⊎ (a.api_url ≡ default_api_url)
  pub connect_url :
      (b.connect_url ≡ a.connect_url) ⊎ (a.connect_url ≡ []) ⊎ (a.connect_url ≡ default_connect_url)
  pub tun_name : (b.tun_name ≡ a.tun_name) ⊎ (a.tun_name ≡ [])
  pub ip_cidr : (b.ip_cidr ≡ a.ip_cidr) ⊎ (a.ip_cidr ≡ default_ip_cidr)
  pub mtu : (b.mtu ≡ a.mtu) ⊎ (a.mtu ≡ pos 1420)
  pub default_route : (b.default_route ≡ a.default_route) ⊎ (a.default_route ≡ false)
  pub extra_routes : (b.extra_routes ≡ a.extra_routes) ⊎ (a.extra_routes ≡ [])
  pub exclude_routes : (b.exclude_routes ≡ a.exclude_routes) ⊎ (a.exclude_routes ≡ [])
  pub dns_list : (b.dns_list ≡ a.dns_list) ⊎ (a.dns_list ≡ [])
  pub dns_service : (b.dns_service ≡ a.dns_service) ⊎ (a.dns_service ≡ [])
  pub dns_bootstrap :
      (b.dns_bootstrap ≡ a.dns_bootstrap) ⊎ (a.dns_bootstrap ≡ []) ⊎ (a.dns_bootstrap ≡ bypass)
  pub socks_listen : (b.socks_listen ≡ a.socks_listen) ⊎ (a.socks_listen ≡ [])
  pub allow_domains : (b.allow_domains ≡ a.allow_domains) ⊎ (a.allow_domains ≡ [])
  pub exclude_domains : (b.exclude_domains ≡ a.exclude_domains) ⊎ (a.exclude_domains ≡ [])
  pub allow_inbound_src_list :
      (b.allow_inbound_src_list ≡ a.allow_inbound_src_list) ⊎ (a.allow_inbound_src_list ≡ [])
  pub allow_inbound_local :
      (b.allow_inbound_local ≡ a.allow_inbound_local) ⊎ (a.allow_inbound_local ≡ false)
  pub enable_ipv6 : b.enable_ipv6 ≡ a.enable_ipv6
  pub enable_kill_switch : b.enable_kill_switch ≡ a.enable_kill_switch
  pub debug : (b.debug ≡ a.debug) ⊎ (a.debug ≡ false)
  pub stats_interval : (b.stats_interval ≡ a.stats_interval) ⊎ (a.stats_interval ≡ pos (5 * second))
  pub jwt : b.jwt ≡ a.jwt
  pub location_id :
      (b.location.location_id ≡ a.location.location_id) ⊎ (a.location.location_id ≡ [])
  pub location_group_id :
      (b.location.location_group_id ≡ a.location.location_group_id)
      ⊎ (a.location.location_group_id ≡ [])
  pub location_query :
      (b.location.location_query ≡ a.location.location_query) ⊎ (a.location.location_query ≡ [])

filled_unset {ℓ} : {A : Type ℓ} (f c : List A) → (filled (is_empty c) f c ≡ c) ⊎ (c ≡ [])
filled_unset f [] = inr refl
filled_unset f (_ ∷ _) = inl refl

filled_default : (f c d : Bytes) → (filled (equal c d) f c ≡ c) ⊎ (c ≡ d)
filled_default f c d = elim (Bool-cases (equal c d)) [
  | inl e ↦ inr ((equal_iff c d).0 e)
  | inr e ↦ inl (rw e refl)
]

filled_either : (f c d : Bytes) → (filled (is_empty c || equal c d) f c ≡ c) ⊎ (c ≡ []) ⊎ (c ≡ d)
filled_either f [] d = inr (inl refl)
filled_either f (x ∷ c) d = elim (filled_default f (x ∷ c) d) [
  | inl e ↦ inl e
  | inr e ↦ inr (inr e)
]

dns_unset :
    (ds : List Bytes) (c : Bytes)
    → ((if is_empty c && not (is_empty ds) then join ds b',' else c) ≡ c) ⊎ (c ≡ [])
dns_unset ds [] = inr refl
dns_unset ds (_ ∷ _) = inl refl

int_kept : (a d x : ℤ) (b : Bool) → ((if eq_int a d && b then x else a) ≡ a) ⊎ (a ≡ d)
int_kept a d x b = elim (Bool-cases (eq_int a d)) [
  | inl e ↦ inr ((eq_int_iff a d).0 e)
  | inr e ↦ inl (rw e refl)
]

flag_kept : (a b : Bool) → ((if not a && b then true else a) ≡ a) ⊎ (a ≡ false)
flag_kept true b = inl refl
flag_kept false b = inr refl

-- Merging a file changes no setting to which the command line gave a value of its own: one that
-- changes was an empty text or list, the default, or a flag that is off. IPv6, the kill switch and
-- the JWT are never changed.
pub apply_config_file-Keeps : (a : VpnConfig) (f : ConfigFile) → Keeps a (apply_config_file a f)
unfolding apply_config_file
apply_config_file-Keeps a f = record {
  api_url = filled_either f.api_url a.api_url default_api_url;
  connect_url = filled_either f.connect_url a.connect_url default_connect_url;
  tun_name = filled_unset f.tun_name a.tun_name;
  ip_cidr = filled_default f.ip_cidr a.ip_cidr default_ip_cidr;
  mtu = int_kept a.mtu (pos 1420) f.mtu (not (eq_int f.mtu (pos 0)));
  default_route = flag_kept a.default_route f.default_route;
  extra_routes = filled_unset f.extra_routes a.extra_routes;
  exclude_routes = filled_unset f.exclude_routes a.exclude_routes;
  dns_list = dns_unset f.dns a.dns_list;
  dns_service = filled_unset f.dns_service a.dns_service;
  dns_bootstrap = filled_either f.dns_bootstrap a.dns_bootstrap bypass;
  socks_listen = filled_unset f.socks_listen a.socks_listen;
  allow_domains = filled_unset f.allow_domains a.allow_domains;
  exclude_domains = filled_unset f.exclude_domains a.exclude_domains;
  allow_inbound_src_list = filled_unset f.allow_inbound_src a.allow_inbound_src_list;
  allow_inbound_local = flag_kept a.allow_inbound_local f.allow_inbound_local;
  enable_ipv6 = refl;
  enable_kill_switch = refl;
  debug = flag_kept a.debug f.debug;
  stats_interval =
      int_kept a.stats_interval (pos (5 * second)) (mul_int64 f.stats_interval second)
        (is_positive f.stats_interval);
  jwt = refl;
  location_id = filled_unset f.location_id a.location.location_id;
  location_group_id = filled_unset f.location_group_id a.location.location_group_id;
  location_query = filled_unset f.location_query a.location.location_query;
}

and_false : (b : Bool) → (b && false) ≡ false
and_false true = refl
and_false false = refl

-- A file that sets nothing leaves the settings as they were.
apply_config_file-no_file : (a : VpnConfig) → apply_config_file a no_file ≡ a
unfolding apply_config_file
apply_config_file-no_file a = simp and_false (ground arith)

filled_twice {ℓ} :
    {A : Type ℓ} (u : List A → Bool) (f c : List A)
    → filled (u (filled (u c) f c)) f (filled (u c) f c) ≡ filled (u c) f c
filled_twice u f c = ground arith

choice_twice {ℓ} :
    {A : Type ℓ} (u : A → Bool) (b : Bool) (f c : A)
    → (let d = if u c && b then f else c in if u d && b then f else d) ≡ (if u c && b then f else c)
choice_twice u b f c = ground arith

flag_twice :
    (c f : Bool)
    → (let d = if not c && f then true else c in if not d && f then true else d)
      ≡ (if not c && f then true else c)
flag_twice c f = ground arith

-- Merging the same file a second time changes nothing more.
apply_config_file_idem :
    (a : VpnConfig) (f : ConfigFile)
    → apply_config_file (apply_config_file a f) f ≡ apply_config_file a f
unfolding apply_config_file
apply_config_file_idem a f = λ i. record {
  api_url = filled_twice (λ c. is_empty c || equal c default_api_url) f.api_url a.api_url i;
  connect_url =
      filled_twice (λ c. is_empty c || equal c default_connect_url) f.connect_url a.connect_url i;
  tun_name = filled_twice is_empty f.tun_name a.tun_name i;
  ip_cidr = filled_twice (λ c. equal c default_ip_cidr) f.ip_cidr a.ip_cidr i;
  mtu = choice_twice (λ c. eq_int c (pos 1420)) (not (eq_int f.mtu (pos 0))) f.mtu a.mtu i;
  default_route = flag_twice a.default_route f.default_route i;
  extra_routes = filled_twice is_empty f.extra_routes a.extra_routes i;
  exclude_routes = filled_twice is_empty f.exclude_routes a.exclude_routes i;
  dns_list = choice_twice is_empty (not (is_empty f.dns)) (join f.dns b',') a.dns_list i;
  dns_service = filled_twice is_empty f.dns_service a.dns_service i;
  dns_bootstrap =
      filled_twice (λ c. is_empty c || equal c bypass) f.dns_bootstrap a.dns_bootstrap i;
  socks_listen = filled_twice is_empty f.socks_listen a.socks_listen i;
  allow_domains = filled_twice is_empty f.allow_domains a.allow_domains i;
  exclude_domains = filled_twice is_empty f.exclude_domains a.exclude_domains i;
  allow_inbound_src_list = filled_twice is_empty f.allow_inbound_src a.allow_inbound_src_list i;
  allow_inbound_local = flag_twice a.allow_inbound_local f.allow_inbound_local i;
  enable_ipv6 = a.enable_ipv6;
  enable_kill_switch = a.enable_kill_switch;
  debug = flag_twice a.debug f.debug i;
  stats_interval =
      choice_twice (λ c. eq_int c (pos (5 * second))) (is_positive f.stats_interval)
        (mul_int64 f.stats_interval second) a.stats_interval i;
  jwt = a.jwt;
  location = record {
    location_id = filled_twice is_empty f.location_id a.location.location_id i;
    location_group_id = filled_twice is_empty f.location_group_id a.location.location_group_id i;
    location_query = filled_twice is_empty f.location_query a.location.location_query i;
  };
}
