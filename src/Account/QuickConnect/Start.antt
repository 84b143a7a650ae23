-- ===== src/Account/QuickConnect/Start.antt =====
-- cmd_quickconnect.go: the token that the VPN starts with.
use urnetwork_client.Base.{
  ℕ, zero, suc, ◌≡◌, refl, ap, subst, ◌⊎◌, inl, inr, true, false, not, ◌&&◌, [], ◌∷◌, ◌++◌, Option,
  none, some, arith, Bytes, Option-cases,
}
use urnetwork_client.Jwt.{load_jwt}
use urnetwork_client.Text.{is_empty, trim_space}
use urnetwork_client.Account.{
  validate, Host, Account, no_jwt_after_setup, Result, ok, err, note, login_with_password,
  mint_client_jwt, validate_client_jwt, load, parse_client_id,
}
use urnetwork_client.Account.Hoare.{Both, good, try-Holds, bind-Holds, if-Holds}
use urnetwork_client.Account.QuickConnect.{
  Setup, has_credentials, login_step, mint_and_check, refresh_round, wait, refresh, ensure_step,
  final_token, quick_connect,
}
use urnetwork_client.Account.QuickConnect.Ready.{
  Source, Ready, Ends, Any, load_jwt_blank, no_text, mint-Ends, save-Ends, validate-Ends,
  save-Stored, load-Ends, ended_of, fail-Ends,
}

module _ (h : Host) (o : Setup) where
  mint_and_check-Ends :
      (by_jwt : Bytes) → Ends Any (λ done t. (done ≡ false) ⊎ Ready h t) (mint_and_check h o by_jwt)
  unfolding mint_and_check
  mint_and_check-Ends by_jwt =
      try-Holds (ended_of h (mint_client_jwt h by_jwt))
        (λ jwt.
          try-Holds (save-Stored h jwt) (λ _. validate-Ends h jwt)
            (λ e. record { from = λ s k. good (inl refl) }))
        (λ e. record { from = λ s k. good (inl refl) })

  refresh_round-Ends : Ends Any (λ done t. (done ≡ false) ⊎ Ready h t) (refresh_round h o)
  unfolding refresh_round
  refresh_round-Ends =
      try-Holds (ended_of h (login_with_password h o.user_auth o.password))
        (λ r.
          if-Holds (not r.verification_required && not (is_empty r.by_jwt))
            (λ _. mint_and_check-Ends r.by_jwt) (λ _. record { from = λ s k. good (inl refl) }))
        (λ e. record { from = λ s k. good (inl refl) })

  refresh-Ends : (fuel : ℕ) → Ends Any (λ _ t. Ready h t) (refresh h o fuel)
  unfolding refresh
  refresh-Ends zero = fail-Ends h _
  refresh-Ends (suc fuel) =
      if-Holds (not (has_credentials h o)) (λ _. fail-Ends h _)
        (λ _. bind-Holds refresh_round-Ends (λ done.
          if-Holds done
            (λ d. record { from = λ s k. elim k [ inl e ↦ ground (arith, d, e) | inr r ↦ good r ] })
            (λ _.
              bind-Holds (record { from = λ s k. (ended_of h (wait h o)).from s tt })
                (λ _. refresh-Ends fuel))))

  ensure_step-Ends :
      is_empty (trim_space o.jwt_opt) ≡ true
      → (fuel : ℕ) → Ends Any (λ _ t. Ready h t) (ensure_step h o fuel)
  unfolding ensure_step
  ensure_step-Ends b fuel =
      try-Holds (load-Ends h o.jwt_opt b)
        (λ jwt.
          if-Holds (not (is_empty (parse_client_id h jwt)) && not o.force_jwt)
            (λ _. bind-Holds (validate-Ends h jwt) (λ valid.
              if-Holds valid
                (λ v. record {
                  from = λ s k. elim k [ inl e ↦ ground (arith, v, e) | inr r ↦ good r ];
                })
                (λ _. record { from = λ s k. (refresh-Ends fuel).from s tt })))
            (λ _.
              bind-Holds (record { from = λ s k. (mint-Ends h jwt).from s tt })
                (λ t. save-Ends h t)))
        (λ e. fail-Ends h _)

  final_token-Ends :
      Ends
        (λ s. Ready h s)
        (λ token t. (jwt : Bytes) × Source h jwt t.calls × (token ≡ trim_space jwt))
        (final_token h o)
  unfolding final_token load
  final_token-Ends = record { from = λ s k. rw (k.stored, load) (good (k.jwt, k.source, refl)) }

-- What a good end says.
good_elim :
    {A : Type 0} {Q : A → Account → Type 0} (x : A) (t : Account)
    → Both Q (λ e t. Unit {0}) (ok x, t)
    → Q x t
good_elim x t (good q) = q

-- Where no token is given on the command line and quick-connect starts the VPN, it starts it with a
-- token, trimmed, that the server stands for: the last call has validated it, or has written it to
-- the file right behind the mint that gave it.
pub quick_connect-Source :
    (h : Host) (o : Setup)
    → is_empty (trim_space o.jwt_opt) ≡ true
    → (fuel : ℕ) (s : Account) (token : Bytes) (t : Account)
    → quick_connect h o fuel s ≡ (ok token, t)
    → (jwt : Bytes) × Source h jwt t.calls × (token ≡ trim_space jwt)
unfolding quick_connect
quick_connect-Source h o b fuel s token t e =
    good_elim token t (subst (Both _ (λ e t. Unit {0})) e (whole.from s tt))
  where
    whole :
        Ends Any
          (λ token t. (jwt : Bytes) × Source h jwt t.calls × (token ≡ trim_space jwt))
          (quick_connect h o fuel)
    whole =
        bind-Holds (ended_of h (login_step h o))
          (λ _. bind-Holds (ensure_step-Ends h o b fuel) (λ _. final_token-Ends h o))

-- What the final load gives of a file.
abbrev pub stored_token : Option Bytes → Result Bytes
stored_token none = err no_jwt_after_setup
stored_token (some text) = ok (trim_space text)

load_jwt_given :
    (given : Bytes) (file : Option Bytes)
    → is_empty (trim_space given) ≡ false
    → load_jwt given file ≡ some (trim_space given)
unfolding load_jwt
load_jwt_given given file g = rw g refl

module _ (h : Host) (o : Setup) where
  final_token_lem : (s : Account) → final_token h o s ≡ (stored_token s.file, s)
  unfolding final_token load
  final_token_lem s = elim (Option-cases s.file) [
    | inl e ↦ rw (ap (load_jwt []) e, load_jwt_blank [] none no_text, load, ap stored_token e) refl
    | inr (text, e) ↦
        rw (ap (load_jwt []) e, load_jwt_blank [] (some text) no_text, load, ap stored_token e) refl
  ]

-- Without credentials and without a forced mint, a client token that is given on the command line is
-- validated where it holds a client's id. If it is valid, nothing else is called and it is dropped:
-- the VPN starts with the token of the file, whatever that is, or fails where there is no file.
pub quick_connect_given_jwt :
    (h : Host) (o : Setup) (fuel : ℕ) (s : Account)
    → o.user_auth ≡ []
    → o.password ≡ []
    → o.force_jwt ≡ false
    → is_empty (trim_space o.jwt_opt) ≡ false
    → is_empty (parse_client_id h (trim_space o.jwt_opt)) ≡ false
    → h.is_valid (s.calls ++ (validate (trim_space o.jwt_opt) ∷ [])) ≡ true
    → quick_connect h o fuel s ≡ (stored_token s.file, note (validate (trim_space o.jwt_opt)) s)
unfolding quick_connect login_step ensure_step load validate_client_jwt
quick_connect_given_jwt h o fuel s u p f g i v =
    rw (u, p, load_jwt_given o.jwt_opt s.file g, load, i, f, v, validate_client_jwt)
      (final_token_lem h o _)
