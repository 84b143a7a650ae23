-- ===== src/Account/QuickConnect/Counts.antt =====
-- cmd_quickconnect.go: how many calls its steps make.
use urnetwork_client.Base.{
  ℕ, ◌+◌, ◌≤◌, ◌≡◌, ◌≢◌, refl, inl, inr, Bool, false, ◌&&◌, ◌||◌, [], ◌∷◌, arith, Bytes,
  if◌then◌else◌, Option-cases, length, length-append,
}
use urnetwork_client.Jwt.{save_jwt, load_jwt}
use urnetwork_client.Text.{is_empty}
use urnetwork_client.Account.{
  Call, login, verify, mint, validate, write, Host, Account, Error, no_jwt, no_jwt_after_setup,
  unfinished, Reply, LoginAnswer, VerifyAnswer, MintAnswer, Result, ok, err, M, pure, fail, try,
  ◌>>=◌, note, token_of, login_outcome, verify_outcome, mint_outcome, login_with_password,
  verify_code, mint_client_jwt, validate_client_jwt, save, load,
}
use urnetwork_client.Account.Hoare.{Both, good, bad, Holds, try-Holds, bind-Holds, if-Holds}
use urnetwork_client.Account.QuickConnect.{Setup, verify_step, login_step, mint_and_check}

-- An error, but not the one of a loop without fuel.
abbrev pub IsReal : Error → Type 0
IsReal e = e ≢ unfinished

pub no_jwt-IsReal : IsReal no_jwt
no_jwt-IsReal = λ p. cc

pub no_jwt_after_setup-IsReal : IsReal no_jwt_after_setup
no_jwt_after_setup-IsReal = λ p. cc

-- A step that does not run out of fuel: with `n` calls made before it, `k` are made behind it.
abbrev pub Counts : {A : Type 0} → ℕ → ℕ → M A → Type 0
Counts n k m =
    Holds (λ s. n ≤ length s.calls) (λ _ t. k ≤ length t.calls)
      (λ e t. IsReal e × (k ≤ length t.calls)) m

abbrev Calls : {A : Type 0} → ℕ → M A → Type 0
Calls n m = Counts n n m

length-note : (c : Call) (s : Account) → length (note c s).calls ≡ length s.calls + 1
length-note c s = length-append s.calls (c ∷ [])

login_outcome-IsReal : (a : Reply LoginAnswer) (e : Error) → login_outcome a ≡ err e → IsReal e
unfolding login_outcome token_of
login_outcome-IsReal a e h = λ k. ground (arith, h, k)

verify_outcome-IsReal : (a : Reply VerifyAnswer) (e : Error) → verify_outcome a ≡ err e → IsReal e
unfolding verify_outcome token_of
verify_outcome-IsReal a e h = λ k. ground (arith, h, k)

mint_outcome-IsReal : (a : Reply MintAnswer) (e : Error) → mint_outcome a ≡ err e → IsReal e
unfolding mint_outcome token_of
mint_outcome-IsReal a e h = λ k. ground (arith, h, k)

-- The answer to a call that is noted.
outcome-Calls :
    {A : Type 0} (n : ℕ) (r : Result A) (c : Call) (s : Account)
    → ((e : Error) → r ≡ err e → IsReal e)
    → n ≤ length s.calls
    → Both
        (λ _ t. n + 1 ≤ length t.calls)
        (λ e t. IsReal e × (n + 1 ≤ length t.calls))
        (r, note c s)
outcome-Calls n (ok x) c s k h = good (omega (arith, length-note c s))
outcome-Calls n (err e) c s k h = bad (k e refl, omega (arith, length-note c s))

weaken-Both :
    {A : Type 0} (n : ℕ) (r : Result A × Account)
    → Both (λ _ t. n + 1 ≤ length t.calls) (λ e t. IsReal e × (n + 1 ≤ length t.calls)) r
    → Both (λ _ t. n ≤ length t.calls) (λ e t. IsReal e × (n ≤ length t.calls)) r
weaken-Both n _ (good k) = good (omega (arith, k))
weaken-Both n _ (bad k) = bad (k.0, omega (arith, k.1))

-- Where a call need not be counted.
pub weaken-Calls : {A : Type 0} {n : ℕ} {m : M A} → Counts n (n + 1) m → Calls n m
weaken-Calls {A} {n} h = record { from = λ s k. weaken-Both n _ (h.from s k) }

finished-Both :
    {A : Type 0} (n : ℕ) (r : Result A × Account)
    → Both (λ _ t. n ≤ length t.calls) (λ e t. IsReal e × (n ≤ length t.calls)) r
    → Both (λ _ t. Unit {0}) (λ e t. IsReal e) r
finished-Both n _ (good k) = good tt
finished-Both n _ (bad k) = bad k.0

pub finished_of :
    {A : Type 0} {n : ℕ} {m : M A}
    → Calls n m
    → Holds (λ s. n ≤ length s.calls) (λ _ t. Unit {0}) (λ e t. IsReal e) m
finished_of {A} {n} h = record { from = λ s k. finished-Both n _ (h.from s k) }

pub pure-Calls : {A : Type 0} {n : ℕ} (x : A) → Calls n (pure x)
pure-Calls x = record { from = λ s k. good k }

fail-Calls : {A : Type 0} {n : ℕ} (e : Error) → IsReal e → Calls n (fail {A = A} e)
fail-Calls e r = record { from = λ s k. bad (r, k) }

try-Calls :
    {A B : Type 0} {n : ℕ} {m : M A} {f : A → M B} {g : Error → M B}
    → Calls n m
    → ((x : A) → Calls n (f x))
    → ((e : Error) → IsReal e → Calls n (g e))
    → Calls n (try m f g)
try-Calls hm hf hg = try-Holds hm hf (λ e. record { from = λ s k. (hg e k.0).from s k.1 })

bind-Calls :
    {A B : Type 0} {n : ℕ} {m : M A} {f : A → M B}
    → Calls n m
    → ((x : A) → Calls n (f x))
    → Calls n (m >>= f)
bind-Calls hm hf = bind-Holds hm hf

pub if-Calls :
    {A : Type 0} {n : ℕ} (b : Bool) {m k : M A}
    → Calls n m
    → Calls n k
    → Calls n (if b then m else k)
if-Calls b hm hk = if-Holds b (λ _. hm) (λ _. hk)

module _ (h : Host) (n : ℕ) where
  pub login_with_password-Calls :
      (user password : Bytes) → Counts n (n + 1) (login_with_password h user password)
  unfolding login_with_password
  login_with_password-Calls user password = record {
    from = λ s k.
        outcome-Calls n _ _ s
          (login_outcome-IsReal (h.logs_in (note (login user password) s).calls)) k;
  }

  verify_code-Calls : (user code : Bytes) → Counts n (n + 1) (verify_code h user code)
  unfolding verify_code
  verify_code-Calls user code = record {
    from = λ s k.
        outcome-Calls n _ _ s (verify_outcome-IsReal (h.verifies (note (verify user code) s).calls))
          k;
  }

  pub mint_client_jwt-Calls : (jwt : Bytes) → Counts n (n + 1) (mint_client_jwt h jwt)
  unfolding mint_client_jwt
  mint_client_jwt-Calls jwt = record {
    from = λ s k. outcome-Calls n _ _ s (mint_outcome-IsReal (h.mints (note (mint jwt) s).calls)) k;
  }

  pub validate_client_jwt-Calls : (jwt : Bytes) → Counts n (n + 1) (validate_client_jwt h jwt)
  unfolding validate_client_jwt
  validate_client_jwt-Calls jwt = record {
    from = λ s k. good (omega (arith, length-note (validate jwt) s));
  }

  pub save-Calls : (jwt : Bytes) → Calls n (save h jwt)
  unfolding save
  save-Calls jwt = record {
    from = λ s k. elim (Option-cases (h.write_fails (note (write (save_jwt jwt)) s).calls)) [
      | inl e ↦ rw (e, save) (good (omega (arith, length-note (write (save_jwt jwt)) s)))
      | inr (left, e) ↦
          rw (e, save) (bad ((λ p. cc), omega (arith, length-note (write (save_jwt jwt)) s)))
    ];
  }

  pub load-Calls : (given : Bytes) → Calls n (load h given)
  unfolding load
  load-Calls given = record {
    from = λ s k. elim (Option-cases (load_jwt given s.file)) [
      | inl e ↦ rw (e, load) (bad ((λ p. cc), k))
      | inr (jwt, e) ↦ rw (e, load) (good k)
    ];
  }

  module _ (o : Setup) where
    verify_step-Calls : Calls n (verify_step h o)
    unfolding verify_step
    verify_step-Calls = if-Calls (is_empty o.code) (pure-Calls tt) (
        try-Calls (weaken-Calls (verify_code-Calls o.user_auth o.code)) (λ t. save-Calls t)
          (λ e _. fail-Calls _ (λ p. cc)))

    pub login_step-Calls : Calls n (login_step h o)
    unfolding login_step
    login_step-Calls = if-Calls (is_empty o.user_auth && is_empty o.password) (pure-Calls tt) (
        if-Calls (is_empty o.user_auth || is_empty o.password) (fail-Calls _ (λ p. cc)) (
          try-Calls (weaken-Calls (login_with_password-Calls o.user_auth o.password))
            (λ r.
              if-Calls r.verification_required
                (if-Calls (is_empty o.code) (fail-Calls _ (λ p. cc)) verify_step-Calls)
                (if-Calls (is_empty r.by_jwt) (fail-Calls _ (λ p. cc))
                  (bind-Calls (save-Calls r.by_jwt) (λ _. verify_step-Calls))))
            (λ e _. fail-Calls _ (λ p. cc))))

    pub mint_and_check-Calls : (by_jwt : Bytes) → Calls n (mint_and_check h o by_jwt)
    unfolding mint_and_check
    mint_and_check-Calls by_jwt =
        try-Calls (weaken-Calls (mint_client_jwt-Calls by_jwt))
          (λ t.
            try-Calls (save-Calls t) (λ _. weaken-Calls (validate_client_jwt-Calls t))
              (λ e _. pure-Calls false))
          (λ e _. pure-Calls false)
