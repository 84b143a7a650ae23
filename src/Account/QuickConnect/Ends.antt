-- ===== src/Account/QuickConnect/Ends.antt =====
-- cmd_quickconnect.go: the end of the refresh loop.
use urnetwork_client.Base.{
  ℕ, zero, suc, ◌+◌, ◌≤◌, ◌<◌, ◌≡◌, ◌≢◌, inl, inr, true, false, not, ◌&&◌, List, [], arith,
  Bool-cases, ltb, ltb→lt, ltb→le, length,
}
use urnetwork_client.Text.{is_empty}
use urnetwork_client.Account.{Call, Host, Account, unfinished, Result, err, parse_client_id}
use urnetwork_client.Account.Hoare.{Both, good, bad, Holds, try-Holds, bind-Holds, if-Holds}
use urnetwork_client.Account.QuickConnect.{
  Setup, has_credentials, refresh_round, wait, refresh, ensure_step, final_token, quick_connect,
}
use urnetwork_client.Account.QuickConnect.Counts.{
  IsReal, no_jwt-IsReal, no_jwt_after_setup-IsReal, Counts, weaken-Calls, finished_of, pure-Calls,
  if-Calls, login_with_password-Calls, mint_client_jwt-Calls, validate_client_jwt-Calls, save-Calls,
  load-Calls, login_step-Calls, mint_and_check-Calls,
}

module _ (h : Host) (o : Setup) where
  -- A round makes a call at least, and goes on whatever is answered.
  pub refresh_round-Counts : (n : ℕ) → Counts n (n + 1) (refresh_round h o)
  unfolding refresh_round
  refresh_round-Counts n =
      try-Holds (login_with_password-Calls h n o.user_auth o.password)
        (λ r.
          if-Calls (not r.verification_required && not (is_empty r.by_jwt))
            (mint_and_check-Calls h (n + 1) o r.by_jwt) (pure-Calls false))
        (λ e. record { from = λ s k. good k.1 })

  lt_of_not_cancelled :
      (k : ℕ)
      → ((cs : List Call) → k ≤ length cs → h.is_cancelled cs ≡ true)
      → (cs : List Call) → h.is_cancelled cs ≡ false
      → length cs < k
  lt_of_not_cancelled k c cs e = elim (Bool-cases (ltb (length cs) k)) [
    | inl p ↦ ltb→lt _ _ p
    | inr p ↦ ground (arith, e, c cs (ltb→le _ _ p))
  ]

  -- Where the context ends by the `k`-th call, a wait is passed only before.
  wait-Holds :
      (k n : ℕ)
      → ((cs : List Call) → k ≤ length cs → h.is_cancelled cs ≡ true)
      → Holds
          (λ s. n ≤ length s.calls)
          (λ _ t. (n ≤ length t.calls) × (length t.calls < k))
          (λ e t. IsReal e)
          (wait h o)
  unfolding wait
  wait-Holds k n c = record {
    from = λ s p. elim (Bool-cases (h.is_cancelled s.calls)) [
      | inl e ↦ rw (e, wait) (bad (λ q. cc))
      | inr e ↦ rw (e, wait) (good (p, lt_of_not_cancelled k c s.calls e))
    ];
  }

  -- With fuel for the calls that are left, the loop ends: the context is cancelled by then.
  refresh-Holds :
      (k : ℕ)
      → ((cs : List Call) → k ≤ length cs → h.is_cancelled cs ≡ true)
      → (fuel n : ℕ) → k < fuel + n
      → 0 < fuel
      → Holds (λ s. n ≤ length s.calls) (λ _ t. Unit {0}) (λ e t. IsReal e) (refresh h o fuel)
  unfolding refresh
  refresh-Holds k c zero n l p = elim p [ ]
  refresh-Holds k c (suc fuel) n l p =
      if-Holds (not (has_credentials h o)) (λ _. record { from = λ s q. bad (λ r. cc) })
        (λ _.
          try-Holds (refresh_round-Counts n)
            (λ done.
              if-Holds done (λ _. record { from = λ s q. good tt })
                (λ _. bind-Holds (wait-Holds k (n + 1) c) (λ _. record {
                  from = λ s q.
                      (refresh-Holds k c fuel (n + 1) (omega arith) (omega (arith, q))).from s q.0;
                })))
            (λ e. record { from = λ s q. bad q.0 }))

  module _ (k : ℕ) (c : (cs : List Call) → k ≤ length cs → h.is_cancelled cs ≡ true) (fuel : ℕ)
      (l : k < fuel) where
    ensure_step-Holds :
        Holds (λ s. 0 ≤ length s.calls) (λ _ t. Unit {0}) (λ e t. IsReal e) (ensure_step h o fuel)
    unfolding ensure_step
    ensure_step-Holds =
        try-Holds (load-Calls h 0 o.jwt_opt)
          (λ jwt.
            if-Holds (not (is_empty (parse_client_id h jwt)) && not o.force_jwt)
              (λ _.
                try-Holds (weaken-Calls (validate_client_jwt-Calls h 0 jwt))
                  (λ valid.
                    if-Holds valid (λ _. record { from = λ s q. good tt })
                      (λ _. refresh-Holds k c fuel 0 (omega arith) (omega arith)))
                  (λ e. record { from = λ s q. bad q.0 }))
              (λ _.
                try-Holds (weaken-Calls (mint_client_jwt-Calls h 0 jwt))
                  (λ t. finished_of (save-Calls h 0 t)) (λ e. record { from = λ s q. bad q.0 })))
          (λ e. record { from = λ s q. bad no_jwt-IsReal })

    quick_connect-Holds :
        Holds (λ s. 0 ≤ length s.calls) (λ _ t. Unit {0}) (λ e t. IsReal e) (quick_connect h o fuel)
    unfolding quick_connect final_token
    quick_connect-Holds =
        try-Holds (login_step-Calls h 0 o)
          (λ _.
            bind-Holds (record { from = λ s q. ensure_step-Holds.from s (omega arith) })
              (λ _.
                try-Holds (record { from = λ s q. (load-Calls h 0 []).from s (omega arith) })
                  (λ jwt. record { from = λ s q. good tt })
                  (λ e. record { from = λ s q. bad no_jwt_after_setup-IsReal })))
          (λ e. record { from = λ s q. bad q.0 })

-- The end of a step is not the one of a loop without fuel.
IsFinished_of :
    {A : Type 0} (r : Result A × Account)
    → Both (λ _ t. Unit {0}) (λ e t. IsReal e) r
    → r.0 ≢ err unfinished
IsFinished_of _ (good q) = λ e. ground (arith, e)
IsFinished_of _ (bad r) = λ e. ground (arith, e, r)

-- Where the context is cancelled by the time that `k` calls have been made, however the server
-- answers them, quick-connect ends: with fuel for more than `k` rounds its refresh loop does not run
-- out, whatever the file holds and whatever calls were made before.
pub quick_connect-ne_unfinished :
    (h : Host) (o : Setup) (k : ℕ)
    → ((cs : List Call) → k ≤ length cs → h.is_cancelled cs ≡ true)
    → (fuel : ℕ) → k < fuel
    → (s : Account) → (quick_connect h o fuel s).0 ≢ err unfinished
quick_connect-ne_unfinished h o k c fuel l s =
    IsFinished_of _ ((quick_connect-Holds h o k c fuel l).from s (omega arith))
