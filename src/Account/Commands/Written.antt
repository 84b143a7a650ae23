-- ===== src/Account/Commands/Written.antt =====
-- The commands on tokens: what they write.
use urnetwork_client.Base.{
  ℕ, zero, suc, ◌≡◌, inl, inr, Bool, true, false, not, ◌&&◌, ◌||◌, List, [], ◌∷◌, arith, Bytes,
  if◌then◌else◌, Bool-cases,
}
use urnetwork_client.Base.Int.{is_positive}
use urnetwork_client.Text.{is_empty, trim_space}
use urnetwork_client.Account.{
  Host, Account, Error, Result, M, pure, fail, LoginResult, parse_client_id, cmd_login, cmd_verify,
  cmd_save_jwt, cmd_mint_client,
}
use urnetwork_client.Account.Hoare.{Both, good, bad, if-Holds}
use urnetwork_client.Account.Tokens.{
  IsToken, IsSafe, Safe, Any, IsLogin, try-Safe, bind-Safe, login_with_password-Safe,
  verify_code-Safe, mint_client_jwt-Safe, validate_client_jwt-Safe, save-Safe, load-Safe,
}
use urnetwork_client.Account.QuickConnect.{
  Setup, has_credentials, verify_step, login_step, mint_and_check, refresh_round, wait, refresh,
  ensure_step, final_token, quick_connect, cmd_quick_connect, renew_save, renew_login, renew_tick,
  renew,
}
use urnetwork_client.Account.Commands.{
  Command, login, verify, save_token, mint_client, quick, state_of, perform, perform_all,
}

pure-Safe : {A : Type 0} (P : A → Type 0) (x : A) → P x → Safe P (pure x)
pure-Safe P x p = record { from = λ s k. good (p, k) }

fail-Safe : {A : Type 0} (P : A → Type 0) (e : Error) → Safe P (fail e)
fail-Safe P e = record { from = λ s k. bad k }

if-Safe :
    {A : Type 0} {P : A → Type 0} (b : Bool) {m n : M A}
    → (b ≡ true → Safe P m)
    → (b ≡ false → Safe P n)
    → Safe P (if b then m else n)
if-Safe b hm hn = if-Holds b hm hn

-- The branch of a login that gives a token.
IsToken-of_login :
    (r : LoginResult) → IsLogin r → r.verification_required ≡ false → IsToken r.by_jwt
IsToken-of_login r (inl v) h = ground (arith, v, h)
IsToken-of_login r (inr t) h = t

module _ (h : Host) where
  cmd_save_jwt-Safe : (jwt : Bytes) → Safe Any (cmd_save_jwt h jwt)
  unfolding cmd_save_jwt
  cmd_save_jwt-Safe jwt =
      if-Safe (is_empty (trim_space jwt)) (λ e. fail-Safe Any _) (λ e. save-Safe h jwt e)

  cmd_verify-Safe : (user code : Bytes) → Safe Any (cmd_verify h user code)
  unfolding cmd_verify
  cmd_verify-Safe user code =
      try-Safe IsToken (verify_code-Safe h user code) (λ t i. save-Safe h t i)
        (λ e. fail-Safe Any _)

  cmd_mint_client-Safe : (jwt_opt : Bytes) → Safe Any (cmd_mint_client h jwt_opt)
  unfolding cmd_mint_client
  cmd_mint_client-Safe jwt_opt =
      bind-Safe Any (load-Safe h jwt_opt)
        (λ jwt _. bind-Safe IsToken (mint_client_jwt-Safe h jwt) (λ t i. save-Safe h t i))

  cmd_login-Safe : (user password : Bytes) → Safe Any (cmd_login h user password)
  unfolding cmd_login
  cmd_login-Safe user password =
      try-Safe IsLogin (login_with_password-Safe h user password)
        (λ r i.
          if-Safe r.verification_required (λ v. pure-Safe Any false tt)
            (λ v.
              if-Safe (is_empty r.by_jwt) (λ e. fail-Safe Any _)
                (λ e.
                  bind-Safe Any (save-Safe h r.by_jwt (IsToken-of_login r i v))
                    (λ _ _. pure-Safe Any true tt))))
        (λ e. fail-Safe Any _)

  module _ (o : Setup) where
    verify_step-Safe : Safe Any (verify_step h o)
    unfolding verify_step
    verify_step-Safe =
        if-Safe (is_empty o.code) (λ e. pure-Safe Any tt tt)
          (λ e.
            try-Safe IsToken (verify_code-Safe h o.user_auth o.code) (λ t i. save-Safe h t i)
              (λ e. fail-Safe Any _))

    login_step-Safe : Safe Any (login_step h o)
    unfolding login_step
    login_step-Safe =
        if-Safe (is_empty o.user_auth && is_empty o.password) (λ e. pure-Safe Any tt tt)
          (λ e.
            if-Safe (is_empty o.user_auth || is_empty o.password) (λ e. fail-Safe Any _)
              (λ e.
                try-Safe IsLogin (login_with_password-Safe h o.user_auth o.password)
                  (λ r i.
                    if-Safe r.verification_required
                      (λ v.
                        if-Safe (is_empty o.code) (λ e. fail-Safe Any _) (λ e. verify_step-Safe))
                      (λ v.
                        if-Safe (is_empty r.by_jwt) (λ e. fail-Safe Any _)
                          (λ e.
                            bind-Safe Any (save-Safe h r.by_jwt (IsToken-of_login r i v))
                              (λ _ _. verify_step-Safe))))
                  (λ e. fail-Safe Any _)))

    mint_and_check-Safe : (by_jwt : Bytes) → Safe Any (mint_and_check h o by_jwt)
    unfolding mint_and_check
    mint_and_check-Safe by_jwt =
        try-Safe IsToken (mint_client_jwt-Safe h by_jwt)
          (λ t i.
            try-Safe Any (save-Safe h t i) (λ _ _. validate_client_jwt-Safe h t)
              (λ e. pure-Safe Any false tt))
          (λ e. pure-Safe Any false tt)

    refresh_round-Safe : Safe Any (refresh_round h o)
    unfolding refresh_round
    refresh_round-Safe =
        try-Safe IsLogin (login_with_password-Safe h o.user_auth o.password)
          (λ r i.
            if-Safe (not r.verification_required && not (is_empty r.by_jwt))
              (λ e. mint_and_check-Safe r.by_jwt) (λ e. pure-Safe Any false tt))
          (λ e. pure-Safe Any false tt)

    wait-Safe : Safe Any (wait h o)
    unfolding wait
    wait-Safe = record {
      from = λ s k. elim (Bool-cases (h.is_cancelled s.calls)) [
        | inl e ↦ rw (e, wait) (bad k)
        | inr e ↦ rw (e, wait) (good (tt, k))
      ];
    }

    refresh-Safe : (fuel : ℕ) → Safe Any (refresh h o fuel)
    unfolding refresh
    refresh-Safe zero = fail-Safe Any _
    refresh-Safe (suc fuel) =
        if-Safe (not (has_credentials h o)) (λ e. fail-Safe Any _)
          (λ e. bind-Safe Any refresh_round-Safe (λ done _.
            if-Safe done (λ d. pure-Safe Any tt tt)
              (λ d. bind-Safe Any wait-Safe (λ _ _. refresh-Safe fuel))))

    ensure_step-Safe : (fuel : ℕ) → Safe Any (ensure_step h o fuel)
    unfolding ensure_step
    ensure_step-Safe fuel =
        try-Safe Any (load-Safe h o.jwt_opt)
          (λ jwt _.
            if-Safe (not (is_empty (parse_client_id h jwt)) && not o.force_jwt)
              (λ e.
                bind-Safe Any (validate_client_jwt-Safe h jwt)
                  (λ valid _. if-Safe valid (λ v. pure-Safe Any tt tt) (λ v. refresh-Safe fuel)))
              (λ e. bind-Safe IsToken (mint_client_jwt-Safe h jwt) (λ t i. save-Safe h t i)))
          (λ e. fail-Safe Any _)

    quick_connect-Safe : (fuel : ℕ) → Safe Any (quick_connect h o fuel)
    unfolding quick_connect final_token
    quick_connect-Safe fuel = bind-Safe Any login_step-Safe (λ _ _.
        bind-Safe Any (ensure_step-Safe fuel) (λ _ _.
          try-Safe Any (load-Safe h []) (λ jwt _. pure-Safe Any jwt tt) (λ e. fail-Safe Any _)))

    renew_save-Safe : (t : Bytes) → IsToken t → Safe Any (renew_save h o t)
    unfolding renew_save
    renew_save-Safe t i =
        try-Safe Any (save-Safe h t i) (λ _ _. pure-Safe Any tt tt) (λ e. pure-Safe Any tt tt)

    renew_login-Safe : Safe Any (renew_login h o)
    unfolding renew_login
    renew_login-Safe =
        try-Safe IsLogin (login_with_password-Safe h o.user_auth o.password)
          (λ r i.
            if-Safe (r.verification_required || is_empty r.by_jwt) (λ e. pure-Safe Any tt tt)
              (λ e.
                try-Safe IsToken (mint_client_jwt-Safe h r.by_jwt) (λ t k. renew_save-Safe t k)
                  (λ e. pure-Safe Any tt tt)))
          (λ e. pure-Safe Any tt tt)

    renew_tick-Safe : Safe Any (renew_tick h o)
    unfolding renew_tick
    renew_tick-Safe =
        try-Safe Any (load-Safe h [])
          (λ current _.
            try-Safe IsToken (mint_client_jwt-Safe h current) (λ t i. renew_save-Safe t i)
              (λ e.
                if-Safe (has_credentials h o) (λ c. renew_login-Safe) (λ c. pure-Safe Any tt tt)))
          (λ e. pure-Safe Any tt tt)

    renew-Safe : (ticks : ℕ) → Safe Any (renew h o ticks)
    unfolding renew
    renew-Safe zero = pure-Safe Any tt tt
    renew-Safe (suc ticks) =
        if-Safe (is_positive o.renew_interval)
          (λ e. bind-Safe Any renew_tick-Safe (λ _ _. renew-Safe ticks)) (λ e. pure-Safe Any tt tt)

    cmd_quick_connect-Safe : (rounds ticks : ℕ) → Safe Any (cmd_quick_connect h o rounds ticks)
    unfolding cmd_quick_connect
    cmd_quick_connect-Safe rounds ticks =
        bind-Safe Any (quick_connect-Safe rounds)
          (λ token _. bind-Safe Any (renew-Safe ticks) (λ _ _. pure-Safe Any token tt))

  IsSafe-of_Both :
      {A : Type 0} (r : Result A × Account)
      → Both (λ x t. Any x × IsSafe t) (λ e t. IsSafe t) r
      → IsSafe (state_of r)
  IsSafe-of_Both _ (good k) = k.1
  IsSafe-of_Both _ (bad k) = k

  perform-IsSafe : (c : Command) (s : Account) → IsSafe s → IsSafe (perform h c s)
  unfolding perform
  perform-IsSafe (login user password) s k =
      IsSafe-of_Both _ ((cmd_login-Safe user password).from s k)
  perform-IsSafe (verify user code) s k = IsSafe-of_Both _ ((cmd_verify-Safe user code).from s k)
  perform-IsSafe (save_token jwt) s k = IsSafe-of_Both _ ((cmd_save_jwt-Safe jwt).from s k)
  perform-IsSafe (mint_client jwt_opt) s k =
      IsSafe-of_Both _ ((cmd_mint_client-Safe jwt_opt).from s k)
  perform-IsSafe (quick o rounds ticks) s k =
      IsSafe-of_Both _ ((cmd_quick_connect-Safe o rounds ticks).from s k)

  -- Whatever commands run, in whatever order, and whatever the server answers and the file system
  -- does, if it held of the writes before: every content that is written to the token file is a
  -- text with something but blanks, trimmed, and a newline.
  pub perform_all-IsSafe :
      (cs : List Command) (s : Account) → IsSafe s → IsSafe (perform_all h cs s)
  unfolding perform_all
  perform_all-IsSafe [] s k = k
  perform_all-IsSafe (c ∷ cs) s k = perform_all-IsSafe cs (perform h c s) (perform-IsSafe c s k)
