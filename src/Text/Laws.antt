-- ===== src/Text/Laws.antt =====
-- Laws of the functions on texts.
use urnetwork_client.Base.{
  ℕ, ◌-◌, ◌≡◌, refl, ap, sym, ◌∙◌, ◌≢◌, ◌↔◌, ◌⊎◌, inl, inr, true, false, [], ◌∷◌, ◌++◌, arith,
  Bytes, length, take, drop, leb, Bool-cases, length-append, drop-append, take-append,
  take-append-drop,
}
use urnetwork_client.Text.{equal, is_empty, lower_byte, to_lower, has_suffix, trim_suffix}

pub equal_iff : (s t : Bytes) → (equal s t ≡ true) ↔ (s ≡ t)
unfolding equal
equal_iff [] [] = (λ _. refl, λ _. refl)
equal_iff [] (y ∷ t) = ground arith
equal_iff (x ∷ s) [] = ground arith
equal_iff (x ∷ s) (y ∷ t) = ground (arith, equal_iff s t)

pub equal_refl : (s : Bytes) → equal s s ≡ true
equal_refl s = (equal_iff s s).1 refl

-- Two texts are told apart or equal, as a test.
pub equal_cases : (s t : Bytes) → ((equal s t ≡ true) × (s ≡ t)) ⊎ ((equal s t ≡ false) × (s ≢ t))
equal_cases s t = elim (Bool-cases (equal s t)) [
  | inl e ↦ inl (e, (equal_iff s t).0 e)
  | inr e ↦ inr (e, λ p. ground (arith, (equal_iff s t).1 p))
]

pub is_empty_lem : (s : Bytes) → is_empty s ≡ true → s ≡ []
is_empty_lem [] h = refl
is_empty_lem (x ∷ s) h = ground (arith, h)

lower_byte_idem : (c : ℕ) → lower_byte (lower_byte c) ≡ lower_byte c
unfolding lower_byte
lower_byte_idem c = ground arith

pub to_lower_idem : (s : Bytes) → to_lower (to_lower s) ≡ to_lower s
unfolding to_lower
to_lower_idem [] = refl
to_lower_idem (c ∷ s) = cc (lower_byte_idem c, to_lower_idem s)

pub has_suffix-append : (p s : Bytes) → has_suffix (p ++ s) s ≡ true
unfolding has_suffix
has_suffix-append p s =
    let e : length (p ++ s) - length s ≡ length p = omega (arith, length-append p s) in
    let l : leb (length s) (length (p ++ s)) ≡ true = ground (arith, length-append p s) in
    rw (e, drop-append, l) (equal_refl s)

pub has_suffix_elim : (s t : Bytes) → has_suffix s t ≡ true → (p : Bytes) × (s ≡ p ++ t)
unfolding has_suffix
has_suffix_elim s t h = (
  take (length s - length t) s,
  sym (take-append-drop (length s - length t) s)
      ∙ ap (◌++◌ (take (length s - length t) s))
          ((equal_iff (drop (length s - length t) s) t).0 (ground arith)),
)

-- `HasSuffix` says exactly that the text ends so.
pub has_suffix_iff : (s t : Bytes) → (has_suffix s t ≡ true) ↔ ((p : Bytes) × (s ≡ p ++ t))
has_suffix_iff s t = (has_suffix_elim s t, λ (p, e). rw e (has_suffix-append p t))

-- `TrimSuffix` takes the suffix off where it is there.
pub trim_suffix-append : (p t : Bytes) → trim_suffix (p ++ t) t ≡ p
unfolding trim_suffix
trim_suffix-append p t =
    let e : length (p ++ t) - length t ≡ length p = omega (arith, length-append p t) in
    rw (has_suffix-append p t, e) (take-append p t)
