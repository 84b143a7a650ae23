-- ===== src/Jwt/File.antt =====
-- jwt.go: what is loaded of what was saved.
use urnetwork_client.Base.{
  ℕ, ◌≡◌, refl, ap, ◌∙◌, inl, inr, true, false, [], ◌∷◌, ◌++◌, Option, some, Bytes, Bool-cases,
}
use urnetwork_client.Text.{is_empty, is_space, trim_left, trim_right, trim_space}
use urnetwork_client.Text.Blank.{trim_space_idem}
use urnetwork_client.Jwt.{save_jwt, load_jwt}

trim_right-snoc :
    (s : Bytes) (c : ℕ) → is_space c ≡ true → trim_right (s ++ (c ∷ [])) ≡ trim_right s
unfolding trim_right
trim_right-snoc [] c h = rw h refl
trim_right-snoc (x ∷ s) c h = rw (trim_right-snoc s c h) refl

trim_space-snoc :
    (s : Bytes) (c : ℕ) → is_space c ≡ true → trim_space (s ++ (c ∷ [])) ≡ trim_space s
unfolding trim_space trim_left
trim_space-snoc [] c h = rw h refl
trim_space-snoc (x ∷ s) c h = elim (Bool-cases (is_space x)) [
  | inl e ↦ rw e (trim_space-snoc s c h)
  | inr e ↦ rw e (trim_right-snoc (x ∷ s) c h)
]

-- A token that was saved is loaded, where none is given, without the blanks around it; and where
-- one is given, that one is loaded the same way, whatever the file holds.
pub load_jwt-save_jwt :
    (jwt given : Bytes) (file : Option Bytes)
    → is_empty (trim_space given) ≡ false
    → (load_jwt [] (some (save_jwt jwt)) ≡ some (trim_space jwt))
      × (load_jwt given file ≡ load_jwt [] (some (save_jwt given)))
unfolding load_jwt save_jwt is_space trim_space
load_jwt-save_jwt jwt given file h = (ap some (read_back jwt), rw (h, read_back given) refl)
  where
    read_back : (t : Bytes) → trim_space (trim_space t ++ (b'\n' ∷ [])) ≡ trim_space t
    read_back t = trim_space-snoc (trim_space t) b'\n' refl ∙ trim_space_idem t
