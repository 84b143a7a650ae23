-- ===== src/Account.antt =====
-- auth.go, cmd_login.go and cmd_auth.go: the login calls, and the commands that only use them. The
-- state is the token file and the calls made so far, oldest first; what the server answers to the
-- last of them, and whether a write succeeds, is the host's.
pub mod Hoare
pub mod Tokens
pub mod QuickConnect
pub mod Commands
use urnetwork_client.Base.{
  ℕ, Bool, true, false, not, ◌&&◌, ◌||◌, List, [], ◌∷◌, ◌++◌, Option, none, some, Bytes, codes,
  if◌then◌else◌,
}
use urnetwork_client.Jwt.{save_jwt, load_jwt}
use urnetwork_client.Text.{is_empty, trim_space}

pub data Call : Type 0 where
  -- A user and a password, or a user and a code.
  login verify : Bytes → Bytes → Call
  -- A token.
  mint validate : Bytes → Call
  -- The new content of the file.
  write : Bytes → Call

-- An answer of the connect library: an error of the call, or its result.
pub data Reply (A : Type 0) : Type 0 where
  failed : Bytes → Reply A
  answered : A → Reply A

pub record Network : Type 0 where
  pub by_jwt : Bytes
  pub network_name : Bytes

pub record LoginAnswer : Type 0 where
  pub error : Option Bytes
  pub verification_required : Bool
  pub network : Option Network

pub record VerifyAnswer : Type 0 where
  pub error : Option Bytes
  pub network : Option Network

pub record MintAnswer : Type 0 where
  pub error : Option Bytes
  pub by_client_jwt : Bytes

-- A claim of a token, as `jwt.MapClaims` holds it.
pub data Claim : Type 0 where
  text : Bytes → Claim
  other : Claim

-- The server, the file system, the context and the token parser. A write that fails leaves some
-- content, or no file.
pub record Host : Type 0 where
  pub logs_in : List Call → Reply LoginAnswer
  pub verifies : List Call → Reply VerifyAnswer
  pub mints : List Call → Reply MintAnswer
  pub is_valid : List Call → Bool
  pub write_fails : List Call → Option (Option Bytes)
  pub is_cancelled : List Call → Bool
  pub client_id_claim : Bytes → Option Claim

pub record Account : Type 0 where
  pub file : Option Bytes
  pub calls : List Call

-- The errors of the commands; `unfinished` is a loop that ran out of fuel.
pub data Error : Type 0 where
  api_error : Bytes → Error
  no_by_jwt no_by_client_jwt save_failed no_jwt jwt_required : Error
  login_error verify_error : Error → Error
  credentials_incomplete verification_needed not_refreshable cancelled no_jwt_after_setup : Error
  unfinished : Error

pub data Result (A : Type 0) : Type 0 where
  ok : A → Result A
  err : Error → Result A

abbrev pub M : Type 0 → Type 0
M A = Account → Result A × Account

abbrev pub pure : {A : Type 0} → A → M A
pure x s = (ok x, s)

abbrev pub fail : {A : Type 0} → Error → M A
fail e s = (err e, s)

-- Both ways on from a step.
abbrev pub resume :
    {A B : Type 0} → (A → M B) → (Error → M B) → Result A × Account → Result B × Account
resume f g (ok x, s) = f x s
resume f g (err e, s) = g e s

abbrev pub try : {A B : Type 0} → M A → (A → M B) → (Error → M B) → M B
try m f g s = resume f g (m s)

infixl 5 ◌>>=◌ ◌>>◌
abbrev pub ◌>>=◌ : {A B : Type 0} → M A → (A → M B) → M B
m >>= f = try m f fail

abbrev pub ◌>>◌ : {B : Type 0} → M (Unit {0}) → M B → M B
m >> k = m >>= λ _. k

abbrev pub note : Call → Account → Account
note c s = record s { calls = s.calls ++ (c ∷ []) }

-- `LoginResult`
pub record LoginResult : Type 0 where
  pub by_jwt : Bytes
  pub network_name : Bytes
  pub verification_required : Bool

-- The test of both callbacks for a token.
unfoldable pub token_of : Option Network → Option Network
token_of none = none
token_of (some n) = if is_empty (trim_space n.by_jwt) then none else some n

-- The callback of `loginWithPassword`.
unfoldable pub login_outcome : Reply LoginAnswer → Result LoginResult
unfolding token_of
login_outcome (failed message) = err (api_error message)
login_outcome (answered a) = elim a.error [
  | some message ↦ err (api_error message)
  | none ↦
      (if a.verification_required
        then ok (record { by_jwt = []; network_name = []; verification_required = true })
        else elim (token_of a.network) [
          | none ↦ err no_by_jwt
          | some n ↦ ok (record {
            by_jwt = n.by_jwt;
            network_name = n.network_name;
            verification_required = false;
          })
        ])
]

-- The callback of `verifyCode`.
unfoldable pub verify_outcome : Reply VerifyAnswer → Result Bytes
unfolding token_of
verify_outcome (failed message) = err (api_error message)
verify_outcome (answered a) = elim a.error [
  | some message ↦ err (api_error message)
  | none ↦ elim (token_of a.network) [ none ↦ err no_by_jwt | some n ↦ ok n.by_jwt ]
]

unfoldable pub mint_outcome : Reply MintAnswer → Result Bytes
mint_outcome (failed message) = err (api_error message)
mint_outcome (answered a) = elim a.error [
  | some message ↦ err (api_error message)
  | none ↦
      (if is_empty (trim_space a.by_client_jwt) then err no_by_client_jwt else ok a.by_client_jwt)
]

module _ (h : Host) where
  unfoldable pub login_with_password : Bytes → Bytes → M LoginResult
  unfolding login_outcome
  login_with_password user password s =
      let t = note (login user password) s in (login_outcome (h.logs_in t.calls), t)

  unfoldable pub verify_code : Bytes → Bytes → M Bytes
  unfolding verify_outcome
  verify_code user code s =
      let t = note (verify user code) s in (verify_outcome (h.verifies t.calls), t)

  unfoldable pub mint_client_jwt : Bytes → M Bytes
  unfolding mint_outcome
  mint_client_jwt jwt s = let t = note (mint jwt) s in (mint_outcome (h.mints t.calls), t)

  -- `validateClientJWT`
  unfoldable pub validate_client_jwt : Bytes → M Bool
  validate_client_jwt jwt s = let t = note (validate jwt) s in (ok (h.is_valid t.calls), t)

  -- `saveJWT`, on the file.
  unfoldable pub save : Bytes → M (Unit {0})
  save jwt s =
      let t = note (write (save_jwt jwt)) s in
      elim (h.write_fails t.calls) [
        | none ↦ (ok tt, record t { file = some (save_jwt jwt) })
        | some left ↦ (err save_failed, record t { file = left })
      ]

  -- The token that `newByAPI` sets on the client of the connect library.
  unfoldable pub api_jwt : Bytes → Option Bytes
  api_jwt jwt = if is_empty (trim_space jwt) then none else some jwt

  -- `loadJWT`, from the file.
  unfoldable pub load : Bytes → M Bytes
  load given s = elim (load_jwt given s.file) [ none ↦ (err no_jwt, s) | some jwt ↦ (ok jwt, s) ]

  unfoldable pub parse_client_id : Bytes → Bytes
  parse_client_id jwt = elim (h.client_id_claim jwt) [
    | some (text id) ↦ id
    | some other ↦ []
    | none ↦ []
  ]

  -- `cmdSaveJWT`
  unfoldable pub cmd_save_jwt : Bytes → M (Unit {0})
  unfolding save
  cmd_save_jwt jwt = if is_empty (trim_space jwt) then fail jwt_required else save jwt

  -- `cmdVerify`
  unfoldable pub cmd_verify : Bytes → Bytes → M (Unit {0})
  unfolding verify_code save
  cmd_verify user code =
      try (verify_code user code) (λ by_jwt. save by_jwt) (λ e. fail (verify_error e))

  -- `cmdMintClient`
  unfoldable pub cmd_mint_client : Bytes → M (Unit {0})
  unfolding load mint_client_jwt save
  cmd_mint_client jwt_opt = do jwt ← load jwt_opt; client_jwt ← mint_client_jwt jwt; save client_jwt

  -- `cmdLogin`; true where a token was saved, false where a verification is asked for.
  unfoldable pub cmd_login : Bytes → Bytes → M Bool
  unfolding login_with_password save
  cmd_login user password =
      try (login_with_password user password)
        (λ r.
          if r.verification_required
          then pure false
          else if is_empty r.by_jwt
          then fail no_by_jwt
          else (save r.by_jwt >> pure true))
        (λ e. fail (login_error e))
