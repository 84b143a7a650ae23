-- ===== src/Session/Names.antt =====
-- `cmdVpn`: the names that a TUN is created with.
use urnetwork_client.Base.{
  ◌≡◌, refl, inl, inr, true, false, not, ◌&&◌, ◌||◌, arith, Bytes, codes, Bool-cases,
}
use urnetwork_client.Config.{VpnConfig}
use urnetwork_client.Text.{equal, is_empty, trim_space, to_lower, has_prefix}
use urnetwork_client.Session.{
  is_one_of, is_tun_disabled, Mode, nothing, socks_only, with_tun, default_tun, session_mode,
}

-- A name that can be given to a TUN.
pub record IsTunName (name : Bytes) : Type 0 where
  pub nonempty : is_empty (trim_space name) ≡ false
  pub no_flag : has_prefix (trim_space name) (codes "-") ≡ false
  pub enabled : is_tun_disabled name ≡ false

default_tun-IsTunName : IsTunName default_tun
unfolding is_tun_disabled is_one_of trim_space to_lower equal has_prefix
default_tun-IsTunName = record { nonempty = refl; no_flag = refl; enabled = refl }

-- The modes and what they take.
pub data Checked (cfg : VpnConfig) : Mode → Type 0 where
  idle : is_empty cfg.socks_listen ≡ true → Checked cfg nothing
  proxy : is_empty cfg.socks_listen ≡ false → Checked cfg (socks_only cfg.socks_listen)
  tunnel : (name : Bytes) → IsTunName name → Checked cfg (with_tun name)

-- A session creates a TUN only under a name that is not blank, does not look like a flag and does
-- not stand for no TUN; it runs the proxy alone only at the address that the settings give; and it
-- has nothing to do only where they give none.
pub session_mode-Checked : (cfg : VpnConfig) → Checked cfg (session_mode cfg)
unfolding session_mode
session_mode-Checked cfg =
    let raw = trim_space cfg.tun_name in
    let missing = not (is_empty raw) && has_prefix raw (codes "-") in
    elim (Bool-cases (is_tun_disabled cfg.tun_name || (is_empty raw && not missing))) [
      | inl e ↦ rw e (elim (Bool-cases (is_empty cfg.socks_listen)) [
        | inl k ↦ rw k (idle k)
        | inr k ↦ rw k (proxy k)
      ])
      | inr e ↦ rw e (elim (Bool-cases missing) [
        | inl k ↦ rw k (tunnel default_tun default_tun-IsTunName)
        | inr k ↦ rw k (
            tunnel cfg.tun_name (record {
              nonempty = ground (arith, e, k);
              no_flag = ground (arith, e, k);
              enabled = ground (arith, e, k);
            }))
      ])
    ]
