-- ===== src/Startup/Secret.antt =====
-- vpn_core.go: the token and the startup line.
use urnetwork_client.Base.{◌≡◌, refl, Bytes}
use urnetwork_client.Config.{VpnConfig}
use urnetwork_client.Text.{is_empty, trim_space}
use urnetwork_client.Startup.{startup_items, startup_line}

-- The startup line tells nothing of the token but whether it is blank: for any two tokens that are
-- both blank, or both not, the line is the same.
pub startup_line-token :
    (cfg : VpnConfig) (a b : Bytes)
    → is_empty (trim_space a) ≡ is_empty (trim_space b)
    → startup_line (record cfg { jwt = a }) ≡ startup_line (record cfg { jwt = b })
unfolding startup_line startup_items
startup_line-token cfg a b e = rw e refl
