-- ===== src/Account/QuickConnect/Ready.antt =====
-- cmd_quickconnect.go: what its steps leave for the start of the VPN.
use urnetwork_client.Base.{
  ◌≡◌, refl, sym, ap, ◌∙◌, ◌⊎◌, inl, inr, true, false, List, [], ◌∷◌, ◌++◌, Option, none, some,
  Bytes, Bool-cases, Option-cases,
}
use urnetwork_client.Jwt.{save_jwt, load_jwt}
use urnetwork_client.Jwt.File.{load_jwt-save_jwt}
use urnetwork_client.Text.{is_empty, trim_space}
use urnetwork_client.Text.Blank.{trim_space_idem}
use urnetwork_client.Account.{
  Call, mint, validate, write, Host, Account, Error, Result, ok, err, M, fail, note, mint_outcome,
  mint_client_jwt, validate_client_jwt, save, load,
}
use urnetwork_client.Account.Hoare.{Both, good, bad, Holds}

-- Where a token comes from that the server stands for: the last call has validated it; or the last
-- two are the mint that gave it and the write that has put it into the file.
pub data Source (h : Host) (jwt : Bytes) (cs : List Call) : Type 0 where
  checked :
      (before : List Call)
      → cs ≡ before ++ (validate jwt ∷ [])
      → h.is_valid cs ≡ true
      → Source h jwt cs
  minted :
      (before : List Call) (by_jwt : Bytes)
      → cs ≡ (before ++ (mint by_jwt ∷ [])) ++ (write (save_jwt jwt) ∷ [])
      → mint_outcome (h.mints (before ++ (mint by_jwt ∷ []))) ≡ ok jwt
      → h.write_fails cs ≡ none
      → Source h jwt cs

-- The file has such a token.
pub record Ready (h : Host) (t : Account) : Type 0 where
  pub jwt : Bytes
  pub source : Source h jwt t.calls
  pub stored : load_jwt [] t.file ≡ some (trim_space jwt)

abbrev pub Ends : {A : Type 0} → (Account → Type 0) → (A → Account → Type 0) → M A → Type 0
Ends P Q m = Holds P Q (λ e t. Unit {0}) m

abbrev pub Any : Account → Type 0
Any s = Unit {0}

stored_lem : (jwt : Bytes) → load_jwt [] (some (save_jwt jwt)) ≡ some (trim_space jwt)
unfolding trim_space
stored_lem jwt = (load_jwt-save_jwt jwt (b'x' ∷ []) none refl).0

pub load_jwt_blank :
    (given : Bytes) (file : Option Bytes)
    → is_empty (trim_space given) ≡ true
    → load_jwt given file ≡ elim file [ none ↦ none | some b ↦ some (trim_space b) ]
unfolding load_jwt
load_jwt_blank given file b = rw b refl

pub no_text : is_empty (trim_space []) ≡ true
unfolding trim_space
no_text = refl

-- What a mint leaves.
pub data Minted (h : Host) (jwt : Bytes) (t : Account) : Type 0 where
  by :
      (before : List Call) (by_jwt : Bytes)
      → t.calls ≡ before ++ (mint by_jwt ∷ [])
      → mint_outcome (h.mints t.calls) ≡ ok jwt
      → Minted h jwt t

module _ (h : Host) where
  pub mint-Ends : (by_jwt : Bytes) → Ends Any (λ jwt t. Minted h jwt t) (mint_client_jwt h by_jwt)
  unfolding mint_client_jwt
  mint-Ends by_jwt = record {
    from = λ s k. outcome (mint_outcome (h.mints (note (mint by_jwt) s).calls)) s refl;
  }
    where
      outcome :
          (r : Result Bytes) (s : Account)
          → mint_outcome (h.mints (note (mint by_jwt) s).calls) ≡ r
          → Both (λ jwt t. Minted h jwt t) (λ e t. Unit {0}) (r, note (mint by_jwt) s)
      outcome (ok jwt) s e = good (by s.calls by_jwt refl e)
      outcome (err x) s e = bad tt

  -- A save of what was minted.
  saved_lem :
      (jwt : Bytes) (s : Account)
      → Minted h jwt s
      → h.write_fails (note (write (save_jwt jwt)) s).calls ≡ none
      → Ready h (record (note (write (save_jwt jwt)) s) { file = some (save_jwt jwt) })
  saved_lem jwt s (by before by_jwt e m) w = record {
    jwt = jwt;
    source =
        minted before by_jwt (ap (λ cs. cs ++ (write (save_jwt jwt) ∷ [])) e)
          (ap (λ cs. mint_outcome (h.mints cs)) (sym e) ∙ m) w;
    stored = stored_lem jwt;
  }

  pub save-Ends : (jwt : Bytes) → Ends (λ s. Minted h jwt s) (λ _ t. Ready h t) (save h jwt)
  unfolding save
  save-Ends jwt = record {
    from = λ s k. elim (Option-cases (h.write_fails (note (write (save_jwt jwt)) s).calls)) [
      | inl e ↦ rw (e, save) (good (saved_lem jwt s k e))
      | inr (left, e) ↦ rw (e, save) (bad tt)
    ];
  }

  -- A token of the file is validated.
  pub validate-Ends :
      (jwt : Bytes)
      → Ends
          (λ s. load_jwt [] s.file ≡ some (trim_space jwt))
          (λ valid t. (valid ≡ false) ⊎ Ready h t)
          (validate_client_jwt h jwt)
  unfolding validate_client_jwt
  validate-Ends jwt = record {
    from = λ s k. good (elim (Bool-cases (h.is_valid (note (validate jwt) s).calls)) [
      | inl v ↦ inr (record { jwt = jwt; source = checked s.calls refl v; stored = k })
      | inr v ↦ inl v
    ]);
  }

  pub save-Stored :
      (jwt : Bytes) → Ends Any (λ _ t. load_jwt [] t.file ≡ some (trim_space jwt)) (save h jwt)
  unfolding save
  save-Stored jwt = record {
    from = λ s k. elim (Option-cases (h.write_fails (note (write (save_jwt jwt)) s).calls)) [
      | inl e ↦ rw (e, save) (good (stored_lem jwt))
      | inr (left, e) ↦ rw (e, save) (bad tt)
    ];
  }

  pub load-Ends :
      (given : Bytes)
      → is_empty (trim_space given) ≡ true
      → Ends Any (λ jwt t. load_jwt [] t.file ≡ some (trim_space jwt)) (load h given)
  unfolding load
  load-Ends given b = record {
    from = λ s k. elim (Option-cases s.file) [
      | inl e ↦ rw (ap (load_jwt given) e, load_jwt_blank given none b, load) (bad tt)
      | inr (text, e) ↦
          rw (ap (load_jwt given) e, load_jwt_blank given (some text) b, load)
            (good (
              rw (e, load_jwt_blank [] (some text) no_text) (ap some (sym (trim_space_idem text)))))
    ];
  }

  ended : {A : Type 0} (r : Result A × Account) → Both (λ _ t. Unit {0}) (λ e t. Unit {0}) r
  ended (ok x, t) = good tt
  ended (err e, t) = bad tt

  pub ended_of : {A : Type 0} (m : M A) → Ends Any (λ _ t. Unit {0}) m
  ended_of m = record { from = λ s k. ended (m s) }

  pub fail-Ends : {A : Type 0} {Q : A → Account → Type 0} (e : Error) → Ends Any Q (fail {A = A} e)
  fail-Ends e = record { from = λ s k. bad tt }
