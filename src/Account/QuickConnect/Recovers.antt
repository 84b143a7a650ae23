-- ===== src/Account/QuickConnect/Recovers.antt =====
-- cmd_quickconnect.go: the refresh loop and a server that comes back.
use urnetwork_client.Base.{
  ℕ, zero, suc, ◌+◌, ◌≤◌, ◌<◌, ◌≡◌, refl, inl, inr, Bool, true, false, not, ◌&&◌, List, [], ◌∷◌,
  none, arith, Bytes, if◌then◌else◌, Bool-cases, ltb, ltb→lt, ltb→le, length, length-append,
}
use urnetwork_client.Jwt.{save_jwt}
use urnetwork_client.Text.{is_empty}
use urnetwork_client.Account.{
  Call, login, mint, validate, write, Host, Account, Error, Result, ok, err, M, pure, resume, try,
  note, LoginResult, login_outcome, mint_outcome, login_with_password, mint_client_jwt,
  validate_client_jwt, save,
}
use urnetwork_client.Account.Hoare.{Both, good, bad, Holds, try-Holds, bind-Holds, if-Holds}
use urnetwork_client.Account.QuickConnect.{
  Setup, has_credentials, mint_and_check, refresh_round, wait, refresh,
}
use urnetwork_client.Account.QuickConnect.Ends.{refresh_round-Counts}

-- From the `k`-th call on the server answers, the file can be written, and the context goes on all the
-- time.
pub record IsBack (h : Host) (k : ℕ) : Type 0 where
  pub logs_in :
      (cs : List Call)
      → k ≤ length cs
      → (r : LoginResult) × (login_outcome (h.logs_in cs) ≡ ok r)
        × (r.verification_required ≡ false)
        × (is_empty r.by_jwt ≡ false)
  pub mints :
      (cs : List Call) → k ≤ length cs → (jwt : Bytes) × (mint_outcome (h.mints cs) ≡ ok jwt)
  pub writes : (cs : List Call) → k ≤ length cs → h.write_fails cs ≡ none
  pub validates : (cs : List Call) → k ≤ length cs → h.is_valid cs ≡ true
  pub waits : (cs : List Call) → h.is_cancelled cs ≡ false

-- No error.
data None : Error → Account → Type 0 where

-- Behind `k` calls, a step ends well, with `Q`.
abbrev Succeeds : {A : Type 0} → ℕ → (A → Type 0) → M A → Type 0
Succeeds k Q m =
    Holds (λ s. k ≤ length s.calls) (λ x t. Q x × (k ≤ length t.calls)) (λ e t. None e t) m

-- A step that has no error.
abbrev Sure : {A : Type 0} → M A → Type 0
Sure {A} m = Holds (λ s. Unit {0}) (λ x t. Unit {0}) None m

resume-Sure :
    {A : Type 0} (f : A → M Bool) (r : Result A × Account)
    → ((x : A) → Sure (f x))
    → Both (λ x t. Unit {0}) None (resume f (λ e. pure false) r)
resume-Sure f (ok x, t) h = (h x).from t tt
resume-Sure f (err e, t) h = good tt

-- An error that is caught.
caught-Sure :
    {A : Type 0} (m : M A) (f : A → M Bool)
    → ((x : A) → Sure (f x))
    → Sure (try m f (λ e. pure false))
caught-Sure m f h = record { from = λ s p. resume-Sure f (m s) h }

join-Sure :
    {A : Type 0} {Q : A → Account → Type 0} {R : Error → Account → Type 0} (r : Result A × Account)
    → Both Q R r
    → Both (λ x t. Unit {0}) None r
    → Both Q None r
join-Sure _ (good q) k = good q
join-Sure _ (bad q) (bad k) = elim k [ ]

length-note : (c : Call) (s : Account) (k : ℕ) → k ≤ length s.calls → k ≤ length (note c s).calls
length-note c s k l = omega (arith, length-append s.calls (c ∷ []))

module _ (h : Host) (o : Setup) where
  check-Sure : (jwt : Bytes) → Sure (validate_client_jwt h jwt)
  unfolding validate_client_jwt
  check-Sure jwt = record { from = λ s p. good tt }

  mint_and_check-Sure : (by_jwt : Bytes) → Sure (mint_and_check h o by_jwt)
  unfolding mint_and_check
  mint_and_check-Sure by_jwt =
      caught-Sure (mint_client_jwt h by_jwt)
        (λ jwt. try (save h jwt) (λ _. validate_client_jwt h jwt) (λ e. pure false))
        (λ jwt. caught-Sure (save h jwt) (λ _. validate_client_jwt h jwt) (λ _. check-Sure jwt))

  refresh_round-Sure : Sure (refresh_round h o)
  unfolding refresh_round
  refresh_round-Sure =
      caught-Sure (login_with_password h o.user_auth o.password)
        (λ r.
          if not r.verification_required && not (is_empty r.by_jwt)
          then mint_and_check h o r.by_jwt
          else pure false)
        (λ r.
          if-Holds (not r.verification_required && not (is_empty r.by_jwt))
            (λ _. mint_and_check-Sure r.by_jwt) (λ _. record { from = λ s p. good tt }))

  module _ (k : ℕ) (b : IsBack h k) where
    login-Succeeds :
        Succeeds k
          (λ r. (r.verification_required ≡ false) × (is_empty r.by_jwt ≡ false))
          (login_with_password h o.user_auth o.password)
    unfolding login_with_password
    login-Succeeds = record {
      from = λ s l.
          let t = note (login o.user_auth o.password) s in
          let (r, e, v, j) = b.logs_in t.calls (length-note (login o.user_auth o.password) s k l) in
          rw e (good ((v, j), length-note (login o.user_auth o.password) s k l));
    }

    mint-Succeeds : (by_jwt : Bytes) → Succeeds k (λ jwt. Unit {0}) (mint_client_jwt h by_jwt)
    unfolding mint_client_jwt
    mint-Succeeds by_jwt = record {
      from = λ s l.
          let t = note (mint by_jwt) s in
          let (jwt, e) = b.mints t.calls (length-note (mint by_jwt) s k l) in
          rw e (good (tt, length-note (mint by_jwt) s k l));
    }

    save-Succeeds : (jwt : Bytes) → Succeeds k (λ x. Unit {0}) (save h jwt)
    unfolding save
    save-Succeeds jwt = record {
      from = λ s l.
          let t = note (write (save_jwt jwt)) s in
          let e = b.writes t.calls (length-note (write (save_jwt jwt)) s k l) in
          rw (e, save) (good (tt, length-note (write (save_jwt jwt)) s k l));
    }

    validate-Succeeds :
        (jwt : Bytes) → Succeeds k (λ valid. valid ≡ true) (validate_client_jwt h jwt)
    unfolding validate_client_jwt
    validate-Succeeds jwt = record {
      from = λ s l.
          let l2 = length-note (validate jwt) s k l in
          good (b.validates (note (validate jwt) s).calls l2, l2);
    }

    -- A round behind the `k`-th call succeeds.
    refresh_round-Succeeds : Succeeds k (λ done. done ≡ true) (refresh_round h o)
    unfolding refresh_round mint_and_check
    refresh_round-Succeeds =
        try-Holds login-Succeeds
          (λ r.
            if-Holds (not r.verification_required && not (is_empty r.by_jwt))
              (λ _. record { from = λ s p. (checked r.by_jwt).from s p.1 })
              (λ n. record { from = λ s p. ground (arith, n, p.0) }))
          (λ e. record { from = λ s p. elim p [ ] })
      where
        checked : (by_jwt : Bytes) → Succeeds k (λ done. done ≡ true) (mint_and_check h o by_jwt)
        checked by_jwt =
            try-Holds (mint-Succeeds by_jwt)
              (λ jwt. record {
                from = λ s p.
                    (try-Holds (save-Succeeds jwt)
                        (λ _. record { from = λ s q. (validate-Succeeds jwt).from s q.1 })
                        (λ e. record { from = λ s q. elim q [ ] })).from
                      s p.1;
              })
              (λ e. record { from = λ s p. elim p [ ] })

    -- A round before it makes a call and may go on.
    round-Holds :
        (n : ℕ)
        → Holds
            (λ s. n ≤ length s.calls)
            (λ done t. n + 1 ≤ length t.calls)
            None
            (refresh_round h o)
    round-Holds n = record {
      from =
          λ s l. join-Sure _ ((refresh_round-Counts h o n).from s l) (refresh_round-Sure.from s tt);
    }

    wait-Succeeds :
        (n : ℕ) → Holds (λ s. n ≤ length s.calls) (λ _ t. n ≤ length t.calls) None (wait h o)
    unfolding wait
    wait-Succeeds n = record { from = λ s l. rw (b.waits s.calls, wait) (good l) }

    -- The loop from `n` calls on.
    refresh-Succeeds :
        has_credentials h o ≡ true
        → (fuel n : ℕ) → k < fuel + n
        → 0 < fuel
        → Holds (λ s. n ≤ length s.calls) (λ _ t. Unit {0}) None (refresh h o fuel)
    unfolding refresh
    refresh-Succeeds c zero n l p = elim p [ ]
    refresh-Succeeds c (suc fuel) n l p =
        if-Holds (not (has_credentials h o)) (λ e. ground (arith, c, e))
          (λ _. elim (Bool-cases (ltb n k)) [
            | inl e ↦ bind-Holds (round-Holds n) (λ done.
                if-Holds done (λ _. record { from = λ s q. good tt })
                  (λ _. bind-Holds (wait-Succeeds (n + 1)) (λ _.
                    refresh-Succeeds c fuel (n + 1) (omega arith) (omega (arith, ltb→lt n k e)))))
            | inr e ↦
                bind-Holds
                  (record {
                    from = λ s q. refresh_round-Succeeds.from s (omega (arith, q, ltb→le n k e));
                  })
                  (λ done.
                    if-Holds done (λ _. record { from = λ s q. good tt })
                      (λ d. record { from = λ s q. ground (arith, d, q.0) }))
          ])

ok_of : (r : Result (Unit {0}) × Account) → Both (λ _ t. Unit {0}) None r → r.0 ≡ ok tt
ok_of _ (good {x} q) = refl
ok_of _ (bad q) = elim q [ ]

-- With credentials, where the server answers and the file can be written from the `k`-th call on, and
-- the context goes on meanwhile, the refresh loop ends with success, whatever the server answered
-- before: with fuel for more than `k` rounds.
pub refresh-ok :
    (h : Host) (o : Setup) (k : ℕ)
    → IsBack h k
    → has_credentials h o ≡ true
    → (fuel : ℕ) → k < fuel
    → (s : Account) → (refresh h o fuel s).0 ≡ ok tt
refresh-ok h o k b c fuel l s =
    ok_of _ ((refresh-Succeeds h o k b c fuel 0 (omega arith) (omega arith)).from s (omega arith))
