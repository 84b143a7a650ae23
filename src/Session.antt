-- ===== src/Session.antt =====
-- The start of `cmdVpn` in vpn_linux.go, and `isTUNDisabled` of vpn_core.go: which kind of session
-- the settings ask for. The warnings are outside.
pub mod Names
pub mod Course
use urnetwork_client.Base.{
  ℕ, Bool, true, false, not, ◌&&◌, ◌||◌, List, [], ◌∷◌, Bytes, codes, if◌then◌else◌,
}
use urnetwork_client.Config.{VpnConfig}
use urnetwork_client.Text.{equal, is_empty, trim_space, to_lower, has_prefix}

-- A text is one of a list.
unfoldable pub is_one_of : Bytes → List Bytes → Bool
is_one_of s [] = false
is_one_of s (t ∷ ts) = equal s t || is_one_of s ts

-- `isTUNDisabled`
unfoldable pub is_tun_disabled : Bytes → Bool
unfolding is_one_of
is_tun_disabled name = is_one_of (to_lower (trim_space name)) (
    codes "none"
    ∷ codes "non"
    ∷ codes "no"
    ∷ codes "off"
    ∷ codes "false"
    ∷ codes "disable"
    ∷ codes "disabled"
    ∷ codes "0"
    ∷ [])

-- Nothing to do, the proxy without a TUN, or a session with a TUN of this name.
pub data Mode : Type 0 where
  nothing : Mode
  socks_only : Bytes → Mode
  with_tun : Bytes → Mode

abbrev pub default_tun : Bytes
default_tun = codes "urnet0"

unfoldable pub session_mode : VpnConfig → Mode
unfolding is_tun_disabled
session_mode cfg =
    let raw = trim_space cfg.tun_name in
    let missing = not (is_empty raw) && has_prefix raw (codes "-") in
    if is_tun_disabled cfg.tun_name || (is_empty raw && not missing)
    then (if is_empty cfg.socks_listen then nothing else socks_only cfg.socks_listen)
    else if missing
    then with_tun default_tun
    else with_tun cfg.tun_name
