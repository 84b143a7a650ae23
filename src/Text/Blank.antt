-- ===== src/Text/Blank.antt =====
-- Trimming: which texts it empties, and what it leaves.
use urnetwork_client.Base.{
  ◌≡◌, refl, ap, ◌∙◌, inl, inr, Bool, true, false, ◌&&◌, [], ◌∷◌, ◌++◌, arith, Bytes, Bool-cases,
}
use urnetwork_client.Text.{is_empty, is_space, trim_left, trim_right, trim_space}

-- Only white space.
pub is_blank : Bytes → Bool
is_blank [] = true
is_blank (c ∷ s) = is_space c && is_blank s

trim_right-blank : (s : Bytes) → trim_right s ≡ [] → is_blank s ≡ true
unfolding trim_right is_blank
trim_right-blank [] h = refl
trim_right-blank (c ∷ s) h = ground (arith, trim_right-blank s)

trim_left-blank : (s : Bytes) → is_blank (trim_left s) ≡ true → is_blank s ≡ true
unfolding trim_left is_blank
trim_left-blank [] h = refl
trim_left-blank (c ∷ s) h = ground (arith, trim_left-blank s)

pub trim_space-blank : (s : Bytes) → is_empty (trim_space s) ≡ true → is_blank s ≡ true
unfolding trim_space
trim_space-blank s h = trim_left-blank s (trim_right-blank (trim_left s) (ground arith))

trim_left-of_blank : (s : Bytes) → is_blank s ≡ true → trim_left s ≡ []
unfolding trim_left is_blank
trim_left-of_blank [] h = refl
trim_left-of_blank (c ∷ s) h = ground (arith, trim_left-of_blank s)

-- A blank text is trimmed to nothing.
pub trim_space-of_blank : (s : Bytes) → is_blank s ≡ true → trim_space s ≡ []
unfolding trim_space
trim_space-of_blank s h = rw (trim_left-of_blank s h)

pub is_blank-append : (s t : Bytes) → is_blank (s ++ t) ≡ true → is_blank s ≡ true
unfolding is_blank
is_blank-append [] t h = refl
is_blank-append (c ∷ s) t h = ground (arith, is_blank-append s t)

-- No white space at either end.
abbrev pub StartsSharp : Bytes → Type 0
StartsSharp [] = Unit {0}
StartsSharp (c ∷ _) = is_space c ≡ false

trim_left-sharp : (s : Bytes) → StartsSharp (trim_left s)
unfolding trim_left
trim_left-sharp [] = tt
trim_left-sharp (c ∷ s) = elim (Bool-cases (is_space c)) [
  | inl e ↦ rw e (trim_left-sharp s)
  | inr e ↦ rw e e
]

trim_left-of_sharp : (s : Bytes) → StartsSharp s → trim_left s ≡ s
unfolding trim_left
trim_left-of_sharp [] h = refl
trim_left-of_sharp (c ∷ s) h = rw h

trim_right-sharp : (s : Bytes) → StartsSharp s → StartsSharp (trim_right s)
unfolding trim_right
trim_right-sharp [] h = tt
trim_right-sharp (c ∷ s) h = rw h h

trim_right_idem : (s : Bytes) → trim_right (trim_right s) ≡ trim_right s
unfolding trim_right
trim_right_idem [] = refl
trim_right_idem (c ∷ s) = elim (Bool-cases (is_space c && is_empty (trim_right s))) [
  | inl e ↦ rw e
  | inr e ↦ rw e (rw (trim_right_idem s, e) refl)
]

-- Trimming twice is trimming once.
pub trim_space_idem : (s : Bytes) → trim_space (trim_space s) ≡ trim_space s
unfolding trim_space
trim_space_idem s =
    ap trim_right (trim_left-of_sharp _ (trim_right-sharp _ (trim_left-sharp s)))
    ∙ trim_right_idem (trim_left s)
