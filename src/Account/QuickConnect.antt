-- ===== src/Account/QuickConnect.antt =====
-- cmd_quickconnect.go: the login, the client token with its refresh loop, the renewal, and the token
-- that the VPN starts with. Waiting and logging are outside; the wait of the loop ends by the
-- context where the host says so, and else goes on with another round.
pub mod Counts
pub mod Ends
pub mod Ready
pub mod Start
pub mod Recovers
pub mod Bounds
use urnetwork_client.Base.{
  ℕ, zero, suc, Bool, true, false, not, ◌&&◌, ◌||◌, List, [], ◌∷◌, Option, none, some, Bytes, codes,
  if◌then◌else◌,
}
use urnetwork_client.Base.Int.{ℤ, pos, is_positive}
use urnetwork_client.Jwt.{save_jwt, load_jwt}
use urnetwork_client.Text.{is_empty, trim_space}
use urnetwork_client.Util.{Opts, get_string_or, must_bool, must_string}
use urnetwork_client.Account.{
  Host, Account, Error, credentials_incomplete, verification_needed, not_refreshable, cancelled,
  no_jwt, no_by_jwt, no_jwt_after_setup, login_error, verify_error, unfinished, Result, ok, err, M,
  pure, fail, try, ◌>>=◌, ◌>>◌, LoginResult, login_with_password, verify_code, mint_client_jwt,
  validate_client_jwt, save, load, parse_client_id,
}

pub record Setup : Type 0 where
  pub user_auth : Bytes
  pub password : Bytes
  pub code : Bytes
  pub jwt_opt : Bytes
  pub force_jwt : Bool
  pub renew_interval : ℤ

abbrev or_env : Bytes → Bytes → Bytes
or_env given env = if is_empty given then trim_space env else given

-- The head of the function, from the options, `os.Getenv` and `time.ParseDuration`.
unfoldable pub parse_setup : Opts → (Bytes → Bytes) → (Bytes → Option ℤ) → Setup
parse_setup opts getenv parse_duration =
    let renew = trim_space (get_string_or opts (codes "--jwt_renew_interval") []) in
    record {
      user_auth =
          or_env (trim_space (get_string_or opts (codes "--user_auth") []))
            (getenv (codes "URNETWORK_USERNAME"));
      password =
          or_env (trim_space (get_string_or opts (codes "--password") []))
            (getenv (codes "URNETWORK_PASSWORD"));
      code = trim_space (get_string_or opts (codes "--code") []);
      jwt_opt = must_string opts (codes "--jwt");
      force_jwt = must_bool opts (codes "--force_jwt");
      renew_interval =
          if is_empty renew
          then pos 0
          else elim (parse_duration renew) [ some d ↦ d | none ↦ pos 0 ];
    }

module _ (h : Host) (o : Setup) where
  abbrev pub has_credentials : Bool
  has_credentials = not (is_empty o.user_auth) && not (is_empty o.password)

  -- The verification, where a code is given.
  unfoldable pub verify_step : M (Unit {0})
  verify_step =
      if is_empty o.code
      then pure tt
      else try (verify_code h o.user_auth o.code) (λ jwt. save h jwt) (λ e. fail (verify_error e))

  -- 1) the login
  unfoldable pub login_step : M (Unit {0})
  unfolding verify_step
  login_step =
      if is_empty o.user_auth && is_empty o.password
      then pure tt
      else if is_empty o.user_auth || is_empty o.password
      then fail credentials_incomplete
      else try (login_with_password h o.user_auth o.password)
          (λ r.
            if r.verification_required
            then (if is_empty o.code then fail verification_needed else verify_step)
            else if is_empty r.by_jwt
            then fail no_by_jwt
            else (save h r.by_jwt >> verify_step))
          (λ e. fail (login_error e))

  -- A token for a login, if the login gave one and all else succeeds: minted, saved and validated.
  unfoldable pub mint_and_check : Bytes → M Bool
  mint_and_check by_jwt =
      try (mint_client_jwt h by_jwt)
        (λ client_jwt.
          try (save h client_jwt) (λ _. validate_client_jwt h client_jwt) (λ e. pure false))
        (λ e. pure false)

  -- A round of the refresh loop: does it break?
  unfoldable pub refresh_round : M Bool
  unfolding mint_and_check
  refresh_round =
      try (login_with_password h o.user_auth o.password)
        (λ r.
          if not r.verification_required && not (is_empty r.by_jwt)
          then mint_and_check r.by_jwt
          else pure false)
        (λ e. pure false)

  -- The wait between two rounds.
  unfoldable pub wait : M (Unit {0})
  wait s = if h.is_cancelled s.calls then (err cancelled, s) else (ok tt, s)

  -- The refresh loop, for so many rounds.
  unfoldable pub refresh : ℕ → M (Unit {0})
  unfolding refresh_round wait
  refresh zero = fail unfinished
  refresh (suc fuel) =
      let again = (wait >> refresh fuel) in
      if not has_credentials
      then fail not_refreshable
      else (refresh_round >>= λ done. if done then pure tt else again)

  -- 2) the client token
  unfoldable pub ensure_step : ℕ → M (Unit {0})
  unfolding refresh
  ensure_step fuel =
      try (load h o.jwt_opt)
        (λ jwt.
          if not (is_empty (parse_client_id h jwt)) && not o.force_jwt
          then (validate_client_jwt h jwt >>= λ valid. if valid then pure tt else refresh fuel)
          else (mint_client_jwt h jwt >>= λ client_jwt. save h client_jwt))
        (λ e. fail no_jwt)

  -- 4) the token of the VPN
  unfoldable pub final_token : M Bytes
  final_token = try (load h []) (λ jwt. pure jwt) (λ e. fail no_jwt_after_setup)

  -- `cmdQuickConnect` up to the start of the VPN.
  unfoldable pub quick_connect : ℕ → M Bytes
  unfolding login_step ensure_step final_token
  quick_connect fuel = login_step >> (ensure_step fuel >> final_token)

  -- A save of the renewal, whose error is only logged.
  unfoldable pub renew_save : Bytes → M (Unit {0})
  renew_save jwt = try (save h jwt) (λ _. pure tt) (λ e. pure tt)

  -- A login of the renewal, where the current token cannot be exchanged.
  unfoldable pub renew_login : M (Unit {0})
  unfolding renew_save
  renew_login =
      try (login_with_password h o.user_auth o.password)
        (λ r.
          if r.verification_required || is_empty r.by_jwt
          then pure tt
          else try (mint_client_jwt h r.by_jwt) (λ jwt. renew_save jwt) (λ e. pure tt))
        (λ e. pure tt)

  -- 3) a tick of the renewal
  unfoldable pub renew_tick : M (Unit {0})
  unfolding renew_login
  renew_tick =
      try (load h [])
        (λ current.
          try (mint_client_jwt h current) (λ jwt. renew_save jwt)
            (λ e. if has_credentials then renew_login else pure tt))
        (λ e. pure tt)

  -- The renewal runs where an interval is given: so many ticks, until it is stopped.
  unfoldable pub renew : ℕ → M (Unit {0})
  unfolding renew_tick
  renew zero = pure tt
  renew (suc ticks) =
      let rest = (renew_tick >> renew ticks) in
      if is_positive o.renew_interval then rest else pure tt

  -- `cmdQuickConnect`, with so many rounds of the refresh loop and so many ticks of the renewal while
  -- the VPN runs.
  unfoldable pub cmd_quick_connect : ℕ → ℕ → M Bytes
  unfolding quick_connect renew
  cmd_quick_connect rounds ticks = quick_connect rounds >>= λ token. (renew ticks >> pure token)
