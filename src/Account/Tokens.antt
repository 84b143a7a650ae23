-- ===== src/Account/Tokens.antt =====
-- auth.go and the commands on tokens: which tokens are written.
use urnetwork_client.Base.{
  ◌≡◌, refl, ◌⊎◌, inl, inr, true, false, List, [], ◌∷◌, ◌++◌, All, arith, Bytes, Bool-cases,
  Option-cases,
}
use urnetwork_client.Jwt.{save_jwt, load_jwt}
use urnetwork_client.Text.{is_empty, trim_space}
use urnetwork_client.Account.{
  Call, login, verify, mint, validate, write, Reply, failed, answered, LoginAnswer, VerifyAnswer,
  MintAnswer, Host, Account, Error, Result, ok, err, M, try, ◌>>=◌, note, LoginResult, token_of,
  login_outcome, verify_outcome, mint_outcome, login_with_password, verify_code, mint_client_jwt,
  validate_client_jwt, save, load,
}
use urnetwork_client.Account.Hoare.{Both, good, bad, Holds, try-Holds}

-- A text with something but blanks.
abbrev pub IsToken : Bytes → Type 0
IsToken t = is_empty (trim_space t) ≡ false

-- What a call may write.
pub data IsTokenCall : Call → Type 0 where
  logs_in : (user password : Bytes) → IsTokenCall (login user password)
  verifies : (user code : Bytes) → IsTokenCall (verify user code)
  mints : (jwt : Bytes) → IsTokenCall (mint jwt)
  validates : (jwt : Bytes) → IsTokenCall (validate jwt)
  writes : (token : Bytes) → IsToken token → IsTokenCall (write (save_jwt token))

unfoldable pub IsSafe : Account → Type 0
IsSafe s = All IsTokenCall s.calls

-- Steps that keep the account safe, with a fact on their result.
abbrev pub Safe : {A : Type 0} → (A → Type 0) → M A → Type 0
Safe P m = Holds IsSafe (λ x t. P x × IsSafe t) (λ e t. IsSafe t) m

abbrev pub Any : {A : Type 0} → A → Type 0
Any x = Unit {0}

All-snoc : (P : Call → Type 0) (cs : List Call) (c : Call) → All P cs → P c → All P (cs ++ (c ∷ []))
All-snoc P [] c h k = (k, tt)
All-snoc P (x ∷ cs) c h k = (h.0, All-snoc P cs c h.1 k)

pub note-IsSafe : (c : Call) (s : Account) → IsTokenCall c → IsSafe s → IsSafe (note c s)
unfolding IsSafe
note-IsSafe c s k h = All-snoc IsTokenCall s.calls c h k

pub try-Safe :
    {A B : Type 0} (P : A → Type 0) {Q : B → Type 0} {m : M A} {f : A → M B} {g : Error → M B}
    → Safe P m
    → ((x : A) → P x → Safe Q (f x))
    → ((e : Error) → Safe Q (g e))
    → Safe Q (try m f g)
try-Safe P hm hf hg = try-Holds hm (λ x. record { from = λ s h. (hf x h.0).from s h.1 }) hg

pub bind-Safe :
    {A B : Type 0} (P : A → Type 0) {Q : B → Type 0} {m : M A} {f : A → M B}
    → Safe P m
    → ((x : A) → P x → Safe Q (f x))
    → Safe Q (m >>= f)
bind-Safe P hm hf = try-Safe P hm hf (λ e. record { from = λ s h. bad h })

-- An outcome of the server, noted.
outcome-Both :
    {A : Type 0} (P : A → Type 0) (r : Result A) (t : Account)
    → ((x : A) → r ≡ ok x → P x)
    → IsSafe t
    → Both (λ x u. P x × IsSafe u) (λ e u. IsSafe u) (r, t)
outcome-Both P (ok x) t k h = good (k x refl, h)
outcome-Both P (err e) t k h = bad h

-- A login gives a token, or asks for a verification.
abbrev pub IsLogin : LoginResult → Type 0
IsLogin r = (r.verification_required ≡ true) ⊎ IsToken r.by_jwt

login_outcome-IsLogin :
    (a : Reply LoginAnswer) (r : LoginResult) → login_outcome a ≡ ok r → IsLogin r
unfolding login_outcome token_of
login_outcome-IsLogin (failed message) r e = ground (arith, e)
login_outcome-IsLogin (answered a) r e = elim (Bool-cases r.verification_required) [
  | inl v ↦ inl v
  | inr v ↦ inr (ground (arith, e, v))
]

verify_outcome-IsToken : (a : Reply VerifyAnswer) (t : Bytes) → verify_outcome a ≡ ok t → IsToken t
unfolding verify_outcome token_of
verify_outcome-IsToken a t e = ground (arith, e)

mint_outcome-IsToken : (a : Reply MintAnswer) (t : Bytes) → mint_outcome a ≡ ok t → IsToken t
unfolding mint_outcome
mint_outcome-IsToken a t e = ground (arith, e)

module _ (h : Host) where
  pub login_with_password-Safe :
      (user password : Bytes) → Safe IsLogin (login_with_password h user password)
  unfolding login_with_password
  login_with_password-Safe user password = record {
    from = λ s k.
        outcome-Both IsLogin _ _
          (login_outcome-IsLogin (h.logs_in (note (login user password) s).calls))
          (note-IsSafe (login user password) s (logs_in user password) k);
  }

  pub verify_code-Safe : (user code : Bytes) → Safe IsToken (verify_code h user code)
  unfolding verify_code
  verify_code-Safe user code = record {
    from = λ s k.
        outcome-Both IsToken _ _
          (verify_outcome-IsToken (h.verifies (note (verify user code) s).calls))
          (note-IsSafe (verify user code) s (verifies user code) k);
  }

  pub mint_client_jwt-Safe : (jwt : Bytes) → Safe IsToken (mint_client_jwt h jwt)
  unfolding mint_client_jwt
  mint_client_jwt-Safe jwt = record {
    from = λ s k.
        outcome-Both IsToken _ _ (mint_outcome-IsToken (h.mints (note (mint jwt) s).calls))
          (note-IsSafe (mint jwt) s (mints jwt) k);
  }

  pub validate_client_jwt-Safe : (jwt : Bytes) → Safe Any (validate_client_jwt h jwt)
  unfolding validate_client_jwt
  validate_client_jwt-Safe jwt = record {
    from = λ s k. good (tt, note-IsSafe (validate jwt) s (validates jwt) k);
  }

  pub save-Safe : (token : Bytes) → IsToken token → Safe Any (save h token)
  unfolding save IsSafe
  save-Safe token i = record {
    from = λ s k. elim (Option-cases (h.write_fails (note (write (save_jwt token)) s).calls)) [
      | inl e ↦ rw (e, save) (good (tt, All-snoc IsTokenCall s.calls _ k (writes token i)))
      | inr (left, e) ↦ rw (e, save) (bad (All-snoc IsTokenCall s.calls _ k (writes token i)))
    ];
  }

  pub load-Safe : (given : Bytes) → Safe Any (load h given)
  unfolding load
  load-Safe given = record {
    from = λ s k. elim (Option-cases (load_jwt given s.file)) [
      | inl e ↦ rw (e, load) (bad k)
      | inr (jwt, e) ↦ rw (e, load) (good (tt, k))
    ];
  }
