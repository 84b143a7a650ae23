-- ===== src/Account/QuickConnect/Bounds.antt =====
-- cmd_quickconnect.go: how many calls are made.
use urnetwork_client.Base.{
  ℕ, zero, suc, ◌+◌, ◌*◌, ◌≤◌, inl, inr, Bool, true, false, not, ◌&&◌, ◌||◌, [], ◌∷◌, arith, Bytes,
  if◌then◌else◌, Bool-cases, Option-cases, length, length-append,
}
use urnetwork_client.Jwt.{save_jwt, load_jwt}
use urnetwork_client.Text.{is_empty}
use urnetwork_client.Account.{
  Call, login, verify, mint, validate, write, Host, Account, Error, Result, ok, err, M, pure, fail,
  resume, try, ◌>>=◌, note, login_with_password, verify_code, mint_client_jwt, validate_client_jwt,
  save, load, parse_client_id,
}
use urnetwork_client.Account.QuickConnect.{
  Setup, has_credentials, verify_step, login_step, mint_and_check, refresh_round, wait, refresh,
  ensure_step, final_token, quick_connect,
}

-- A step that makes so many calls at most.
record AtMost {A : Type 0} (k : ℕ) (m : M A) : Type 0 where
  from : (s : Account) → length (m s).1.calls ≤ length s.calls + k

length-resume :
    {A B : Type 0} (k : ℕ) (f : A → M B) (g : Error → M B) (r : Result A × Account)
    → ((x : A) → AtMost k (f x))
    → ((e : Error) → AtMost k (g e))
    → length (resume f g r).1.calls ≤ length r.1.calls + k
length-resume k f g (ok x, t) hf hg = (hf x).from t
length-resume k f g (err e, t) hf hg = (hg e).from t

try-AtMost :
    {A B : Type 0} (j k : ℕ) {m : M A} {f : A → M B} {g : Error → M B}
    → AtMost j m
    → ((x : A) → AtMost k (f x))
    → ((e : Error) → AtMost k (g e))
    → AtMost (j + k) (try m f g)
try-AtMost j k {m} {f} {g} hm hf hg = record {
  from = λ s. omega (arith, hm.from s, length-resume k f g (m s) hf hg);
}

weaken-AtMost : {A : Type 0} (j k : ℕ) {m : M A} → j ≤ k → AtMost j m → AtMost k m
weaken-AtMost j k l h = record { from = λ s. omega (arith, h.from s) }

pure-AtMost : {A : Type 0} (k : ℕ) (x : A) → AtMost k (pure x)
pure-AtMost k x = record { from = λ s. omega arith }

fail-AtMost : {A : Type 0} (k : ℕ) (e : Error) → AtMost k (fail {A = A} e)
fail-AtMost k e = record { from = λ s. omega arith }

bind-AtMost :
    {A B : Type 0} (j k : ℕ) {m : M A} {f : A → M B}
    → AtMost j m
    → ((x : A) → AtMost k (f x))
    → AtMost (j + k) (m >>= f)
bind-AtMost j k hm hf = try-AtMost j k hm hf (λ e. fail-AtMost k e)

if-AtMost :
    {A : Type 0} {k : ℕ} (b : Bool) {m n : M A}
    → AtMost k m
    → AtMost k n
    → AtMost k (if b then m else n)
if-AtMost true hm hn = hm
if-AtMost false hm hn = hn

length-note : (c : Call) (s : Account) → length (note c s).calls ≤ length s.calls + 1
length-note c s = omega (arith, length-append s.calls (c ∷ []))

module _ (h : Host) where
  login_with_password-AtMost :
      (user password : Bytes) → AtMost 1 (login_with_password h user password)
  unfolding login_with_password
  login_with_password-AtMost user password = record {
    from = λ s. length-note (login user password) s;
  }

  verify_code-AtMost : (user code : Bytes) → AtMost 1 (verify_code h user code)
  unfolding verify_code
  verify_code-AtMost user code = record { from = λ s. length-note (verify user code) s }

  mint_client_jwt-AtMost : (jwt : Bytes) → AtMost 1 (mint_client_jwt h jwt)
  unfolding mint_client_jwt
  mint_client_jwt-AtMost jwt = record { from = λ s. length-note (mint jwt) s }

  validate_client_jwt-AtMost : (jwt : Bytes) → AtMost 1 (validate_client_jwt h jwt)
  unfolding validate_client_jwt
  validate_client_jwt-AtMost jwt = record { from = λ s. length-note (validate jwt) s }

  save-AtMost : (jwt : Bytes) → AtMost 1 (save h jwt)
  unfolding save
  save-AtMost jwt = record {
    from = λ s. elim (Option-cases (h.write_fails (note (write (save_jwt jwt)) s).calls)) [
      | inl e ↦ rw (e, save) (length-note (write (save_jwt jwt)) s)
      | inr (left, e) ↦ rw (e, save) (length-note (write (save_jwt jwt)) s)
    ];
  }

  load-AtMost : (given : Bytes) → AtMost 0 (load h given)
  unfolding load
  load-AtMost given = record {
    from = λ s. elim (Option-cases (load_jwt given s.file)) [
      | inl e ↦ rw (e, load) (omega arith)
      | inr (jwt, e) ↦ rw (e, load) (omega arith)
    ];
  }

  module _ (o : Setup) where
    verify_step-AtMost : AtMost 2 (verify_step h o)
    unfolding verify_step
    verify_step-AtMost = if-AtMost (is_empty o.code) (pure-AtMost 2 tt) (
        try-AtMost 1 1 (verify_code-AtMost o.user_auth o.code) (λ t. save-AtMost t)
          (λ e. fail-AtMost 1 _))

    login_step-AtMost : AtMost 4 (login_step h o)
    unfolding login_step
    login_step-AtMost = if-AtMost (is_empty o.user_auth && is_empty o.password) (pure-AtMost 4 tt) (
        if-AtMost (is_empty o.user_auth || is_empty o.password) (fail-AtMost 4 _) (
          try-AtMost 1 3 (login_with_password-AtMost o.user_auth o.password)
            (λ r.
              if-AtMost r.verification_required
                (if-AtMost (is_empty o.code) (fail-AtMost 3 _)
                  (weaken-AtMost 2 3 (omega arith) verify_step-AtMost))
                (if-AtMost (is_empty r.by_jwt) (fail-AtMost 3 _)
                  (bind-AtMost 1 2 (save-AtMost r.by_jwt) (λ _. verify_step-AtMost))))
            (λ e. fail-AtMost 3 _)))

    mint_and_check-AtMost : (by_jwt : Bytes) → AtMost 3 (mint_and_check h o by_jwt)
    unfolding mint_and_check
    mint_and_check-AtMost by_jwt =
        try-AtMost 1 2 (mint_client_jwt-AtMost by_jwt)
          (λ t.
            try-AtMost 1 1 (save-AtMost t) (λ _. validate_client_jwt-AtMost t)
              (λ e. pure-AtMost 1 false))
          (λ e. pure-AtMost 2 false)

    refresh_round-AtMost : AtMost 4 (refresh_round h o)
    unfolding refresh_round
    refresh_round-AtMost =
        try-AtMost 1 3 (login_with_password-AtMost o.user_auth o.password)
          (λ r.
            if-AtMost (not r.verification_required && not (is_empty r.by_jwt))
              (mint_and_check-AtMost r.by_jwt) (pure-AtMost 3 false))
          (λ e. pure-AtMost 3 false)

    wait-AtMost : AtMost 0 (wait h o)
    unfolding wait
    wait-AtMost = record {
      from = λ s. elim (Bool-cases (h.is_cancelled s.calls)) [
        | inl e ↦ rw (e, wait) (omega arith)
        | inr e ↦ rw (e, wait) (omega arith)
      ];
    }

    refresh-AtMost : (fuel : ℕ) → AtMost (4 * fuel) (refresh h o fuel)
    unfolding refresh
    refresh-AtMost zero = fail-AtMost 0 _
    refresh-AtMost (suc fuel) =
        if-AtMost (not (has_credentials h o)) (fail-AtMost (4 * suc fuel) _) (
          weaken-AtMost (4 + 4 * fuel) (4 * suc fuel) (omega arith) (
            bind-AtMost 4 (4 * fuel) refresh_round-AtMost (λ done.
              if-AtMost done (pure-AtMost (4 * fuel) tt) (
                weaken-AtMost (0 + 4 * fuel) (4 * fuel) (omega arith)
                  (bind-AtMost 0 (4 * fuel) wait-AtMost (λ _. refresh-AtMost fuel))))))

    ensure_step-AtMost : (fuel : ℕ) → AtMost (2 + 4 * fuel) (ensure_step h o fuel)
    unfolding ensure_step
    ensure_step-AtMost fuel = weaken-AtMost (0 + (2 + 4 * fuel)) (2 + 4 * fuel) (omega arith) (
        try-AtMost 0 (2 + 4 * fuel) (load-AtMost o.jwt_opt)
          (λ jwt.
            if-AtMost (not (is_empty (parse_client_id h jwt)) && not o.force_jwt)
              (weaken-AtMost (1 + 4 * fuel) (2 + 4 * fuel) (omega arith) (
                bind-AtMost 1 (4 * fuel) (validate_client_jwt-AtMost jwt)
                  (λ valid. if-AtMost valid (pure-AtMost (4 * fuel) tt) (refresh-AtMost fuel))))
              (weaken-AtMost 2 (2 + 4 * fuel) (omega arith)
                (bind-AtMost 1 1 (mint_client_jwt-AtMost jwt) (λ t. save-AtMost t))))
          (λ e. fail-AtMost (2 + 4 * fuel) _))

    final_token-AtMost : AtMost 0 (final_token h o)
    unfolding final_token
    final_token-AtMost =
        try-AtMost 0 0 (load-AtMost []) (λ jwt. pure-AtMost 0 jwt) (λ e. fail-AtMost 0 _)

-- However its calls are answered, quick-connect makes at most four calls and writes for each round of
-- its refresh loop, and six others.
pub quick_connect_calls :
    (h : Host) (o : Setup) (fuel : ℕ) (s : Account)
    → length (quick_connect h o fuel s).1.calls ≤ length s.calls + (4 * fuel + 6)
unfolding quick_connect
quick_connect_calls h o fuel s = omega (
  arith,
  (bind-AtMost 4 (2 + 4 * fuel + 0) (login_step-AtMost h o) (λ _.
        bind-AtMost (2 + 4 * fuel) 0 (ensure_step-AtMost h o fuel)
          (λ _. final_token-AtMost h o))).from
      s,
)
