-- ===== src/Account/Commands.antt =====
-- The commands on tokens, cmd_login.go, cmd_auth.go and cmd_quickconnect.go, one after the other.
pub mod Written
use urnetwork_client.Base.{ℕ, List, [], ◌∷◌, Bytes}
use urnetwork_client.Account.{
  Host, Account, Result, ok, err, M, cmd_login, cmd_verify, cmd_save_jwt, cmd_mint_client,
}
use urnetwork_client.Account.QuickConnect.{Setup, cmd_quick_connect}

pub data Command : Type 0 where
  login verify : Bytes → Bytes → Command
  save_token mint_client : Bytes → Command
  -- With so many rounds of its refresh loop, and so many ticks of its renewal behind it.
  quick : Setup → ℕ → ℕ → Command

abbrev state_of : {A : Type 0} → Result A × Account → Account
state_of (r, s) = s

unfoldable pub perform : Host → Command → Account → Account
unfolding cmd_login cmd_verify cmd_save_jwt cmd_mint_client cmd_quick_connect
perform h (login user password) s = state_of (cmd_login h user password s)
perform h (verify user code) s = state_of (cmd_verify h user code s)
perform h (save_token jwt) s = state_of (cmd_save_jwt h jwt s)
perform h (mint_client jwt_opt) s = state_of (cmd_mint_client h jwt_opt s)
perform h (quick o rounds ticks) s = state_of (cmd_quick_connect h o rounds ticks s)

unfoldable pub perform_all : Host → List Command → Account → Account
unfolding perform
perform_all h [] s = s
perform_all h (c ∷ cs) s = perform_all h cs (perform h c s)
