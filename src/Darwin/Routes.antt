-- ===== src/Darwin/Routes.antt =====
-- routes_darwin.go: the route manager. A session is the manager and what was run so far, oldest
-- first, with the answer to each command. What `route`, `networksetup` and `ifconfig` answer is
-- outside.
pub mod Methods
pub mod Kept
pub mod Steps
pub mod Notes
pub mod Ops
pub mod Deletes
pub mod Cleanup
pub mod Variants
use urnetwork_client.Base.{
  ℕ, Bool, true, false, not, ◌&&◌, ◌||◌, List, [], ◌∷◌, ◌++◌, Option, none, some, Bytes, codes,
  if◌then◌else◌,
}
use urnetwork_client.Linux.Routes.{Names}
use urnetwork_client.Net.{to4}
use urnetwork_client.Text.{is_empty, trim_space, contains, contains_byte}
use urnetwork_client.Util.{extract_host}

-- `-host d`, `-net d` and `-net d -netmask m`: the records darwinAddedRoute and darwinSplitRoute.
pub data Target : Type 0 where
  host net : Bytes → Target
  net_mask : Bytes → Bytes → Target

-- The end of `route add`: a gateway; `-interface`; a gateway with `-ifscope`; `-ifscope`; `-reject`;
-- `-reject -ifscope`.
pub data Way : Type 0 where
  gateway interface : Bytes → Way
  peer : Bytes → Bytes → Way
  scoped : Bytes → Way
  reject : Way
  scoped_reject : Bytes → Way

pub data Command : Type 0 where
  add change : Target → Way → Command
  delete : Target → Command
  delete_default add_blackhole : Command
  add_default : Bytes → Command
  -- A service and its servers; none for the word `Empty`.
  set_dns : Bytes → List Bytes → Command
  clear_dns : Bytes → Command
  down : Bytes → Command

-- Whether the command succeeds, and what it prints.
pub record Answer : Type 0 where
  pub is_ok : Bool
  pub out : Bytes

abbrev pub Entry : Type 0
Entry = Command × Answer

-- The answer to a command, behind what was run.
abbrev pub Shell : Type 0
Shell = List Entry → Command → Answer

-- `darwinRouteManager`
pub record Manager : Type 0 where
  pub tun_name : Bytes
  pub peer_ip : Bytes
  pub def_gw : Bytes
  pub added_ctrl_bypass : List Bytes
  pub added_dns_bypass : List Bytes
  pub added_excludes : List Target
  pub added_scoped_excls : List Target
  pub added_splits : List Target
  pub added_extra : List Target
  pub added_dns_tun : List Target
  pub kill_switch : Bool
  pub kill_switch_added : Bool
  pub dns_configured : Bool
  pub dns_service : Bytes

unfoldable pub new_manager : Bytes → Bytes → Bytes → Manager
new_manager tun peer_ip def_gw = record {
  tun_name = tun;
  peer_ip = peer_ip;
  def_gw = def_gw;
  added_ctrl_bypass = [];
  added_dns_bypass = [];
  added_excludes = [];
  added_scoped_excls = [];
  added_splits = [];
  added_extra = [];
  added_dns_tun = [];
  kill_switch = false;
  kill_switch_added = false;
  dns_configured = false;
  dns_service = [];
}

abbrev pub Session : Type 0
Session = Manager × List Entry

-- `strings.Contains(out, "File exists")`
unfoldable pub exists : Answer → Bool
exists a = contains a.out (codes "File exists")

-- Runs a command, and goes on with its answer.
abbrev pub ask : Shell → Command → (Answer → Session → Session) → Session → Session
ask sh c k (m, log) = let a = sh log c in k a (m, log ++ ((c, a) ∷ []))

abbrev pub target_of : Bytes → Target
target_of dest = if contains_byte dest b'/' then net dest else host dest

-- The entries of the manager's lists.
abbrev pub ctrl : Bytes → Session → Session
ctrl ip (m, log) = (record m { added_ctrl_bypass = m.added_ctrl_bypass ++ (ip ∷ []) }, log)

abbrev pub dns_bypass : Bytes → Session → Session
dns_bypass ip (m, log) = (record m { added_dns_bypass = m.added_dns_bypass ++ (ip ∷ []) }, log)

abbrev pub excluded : Target → Session → Session
excluded t (m, log) = (record m { added_excludes = m.added_excludes ++ (t ∷ []) }, log)

abbrev pub scoped_excluded : Target → Session → Session
scoped_excluded t (m, log) =
    (record m { added_scoped_excls = m.added_scoped_excls ++ (t ∷ []) }, log)

abbrev pub split_up : Target → Session → Session
split_up t (m, log) = (record m { added_splits = m.added_splits ++ (t ∷ []) }, log)

abbrev pub extra_added : Target → Session → Session
extra_added t (m, log) = (record m { added_extra = m.added_extra ++ (t ∷ []) }, log)

abbrev pub dns_tun : Target → Session → Session
dns_tun t (m, log) = (record m { added_dns_tun = m.added_dns_tun ++ (t ∷ []) }, log)

-- Runs a command, and notes its target where it succeeds.
abbrev pub noting : Shell → Command → (Session → Session) → Session → Session
noting sh c k s = ask sh c (λ a t. if a.is_ok then k t else t) s
