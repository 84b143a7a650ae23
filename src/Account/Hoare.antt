-- ===== src/Account/Hoare.antt =====
-- What holds behind a step of auth.go's commands, on success and on an error.
use urnetwork_client.Base.{◌≡◌, refl, Bool, true, false, if◌then◌else◌}
use urnetwork_client.Account.{Account, Error, Result, ok, err, M, resume, try, ◌>>=◌}

-- The end of a step: a result with `Q`, or an error with `R`.
pub data Both {A : Type 0} (Q : A → Account → Type 0) (R : Error → Account → Type 0)
    : Result A × Account → Type 0 where
  good : {x : A} {t : Account} → Q x t → Both Q R (ok x, t)
  bad : {e : Error} {t : Account} → R e t → Both Q R (err e, t)

-- From `P`, a step ends so.
pub record Holds {A : Type 0} (P : Account → Type 0) (Q : A → Account → Type 0)
    (R : Error → Account → Type 0) (m : M A) : Type 0 where
  pub from : (s : Account) → P s → Both Q R (m s)

resume-Both :
    {A B : Type 0} {Q : A → Account → Type 0} {R : Error → Account → Type 0}
    {S : B → Account → Type 0} {T : Error → Account → Type 0} (f : A → M B) (g : Error → M B)
    → ((x : A) → Holds (Q x) S T (f x))
    → ((e : Error) → Holds (R e) S T (g e))
    → (r : Result A × Account) → Both Q R r
    → Both S T (resume f g r)
resume-Both f g hf hg _ (good {x} {t} h) = (hf x).from t h
resume-Both f g hf hg _ (bad {e} {t} h) = (hg e).from t h

pub try-Holds :
    {A B : Type 0} {Q : A → Account → Type 0} {R : Error → Account → Type 0}
    {S : B → Account → Type 0} {T : Error → Account → Type 0} {P : Account → Type 0} {m : M A}
    {f : A → M B} {g : Error → M B}
    → Holds P Q R m
    → ((x : A) → Holds (Q x) S T (f x))
    → ((e : Error) → Holds (R e) S T (g e))
    → Holds P S T (try m f g)
try-Holds {m} {f} {g} hm hf hg = record { from = λ s p. resume-Both f g hf hg (m s) (hm.from s p) }

pub bind-Holds :
    {A B : Type 0} {Q : A → Account → Type 0} {S : B → Account → Type 0}
    {T : Error → Account → Type 0} {P : Account → Type 0} {m : M A} {f : A → M B}
    → Holds P Q T m
    → ((x : A) → Holds (Q x) S T (f x))
    → Holds P S T (m >>= f)
bind-Holds hm hf = try-Holds hm hf (λ e. record { from = λ s h. bad h })

-- Each branch of a test holds where it is taken.
pub if-Holds :
    {A : Type 0} {P : Account → Type 0} {Q : A → Account → Type 0} {R : Error → Account → Type 0}
    (b : Bool) {m n : M A}
    → (b ≡ true → Holds P Q R m)
    → (b ≡ false → Holds P Q R n)
    → Holds P Q R (if b then m else n)
if-Holds true hm hn = hm refl
if-Holds false hm hn = hn refl
