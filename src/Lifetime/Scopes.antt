-- ===== src/Lifetime/Scopes.antt =====
-- Traces that leave what is held as it was: one after the other, and between acquiring and releasing.
use urnetwork_client.Base.{
  ◌≡◌, refl, ◌∙◌, true, List, [], ◌∷◌, ◌++◌, some, ◌>>=◌, Bool-cases, inl, inr,
}
use urnetwork_client.Lifetime.{Step, acquires, releases, does, acts, Rules, held}

module _ {R A : Type 0} (rules : Rules R A) where
  -- From these resources a trace keeps the rules and ends with the same resources.
  abbrev pub IsScoped : List (Step R A) → List R → Type 0
  IsScoped steps rs = held rules steps rs ≡ some rs

  pub held-append :
      (xs ys : List (Step R A)) (rs : List R)
      → held rules (xs ++ ys) rs ≡ (held rules xs rs >>= held rules ys)
  unfolding held
  held-append [] ys rs = refl
  held-append (acquires r ∷ xs) ys rs = held-append xs ys (r ∷ rs)
  held-append (releases r ∷ xs) ys [] = refl
  held-append (releases r ∷ xs) ys (q ∷ rs) = elim (Bool-cases (rules.same r q)) [
    | inl e ↦ rw e (held-append xs ys rs)
    | inr e ↦ rw e refl
  ]
  held-append (does a ∷ xs) ys rs = elim (Bool-cases (rules.may_do rs a)) [
    | inl e ↦ rw e (held-append xs ys rs)
    | inr e ↦ rw e refl
  ]

  pub append-IsScoped :
      (xs ys : List (Step R A)) (rs : List R)
      → IsScoped xs rs
      → IsScoped ys rs
      → IsScoped (xs ++ ys) rs
  append-IsScoped xs ys rs h k = held-append xs ys rs ∙ rw h k

  -- What is acquired first is released last.
  pub around-IsScoped :
      (r : R) (xs : List (Step R A)) (rs : List R)
      → rules.same r r ≡ true
      → IsScoped xs (r ∷ rs)
      → IsScoped (acquires r ∷ (xs ++ (releases r ∷ []))) rs
  unfolding held
  around-IsScoped r xs rs h k = held-append xs (releases r ∷ []) (r ∷ rs) ∙ rw (k, h) refl

  pub does-IsScoped : (a : A) (rs : List R) → rules.may_do rs a ≡ true → IsScoped (does a ∷ []) rs
  unfolding held
  does-IsScoped a rs h = rw h refl

  pub cons-IsScoped :
      (a : A) (xs : List (Step R A)) (rs : List R)
      → rules.may_do rs a ≡ true
      → IsScoped xs rs
      → IsScoped (does a ∷ xs) rs
  unfolding held
  cons-IsScoped a xs rs h k = rw h k

  pub acts-IsScoped :
      (as' : List A) (rs : List R) → ((a : A) → rules.may_do rs a ≡ true) → IsScoped (acts as') rs
  unfolding held
  acts-IsScoped [] rs h = refl
  acts-IsScoped (a ∷ as') rs h = rw (h a) (acts-IsScoped as' rs h)
