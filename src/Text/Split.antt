-- ===== src/Text/Split.antt =====
-- Splitting and joining at one byte.
use urnetwork_client.Base.{
  ℕ, ◌≡◌, refl, ap, ◌∙◌, ◌≢◌, false, List, [], ◌∷◌, ◌++◌, Option, none, some, arith, Bytes, All,
  ◌==◌, Bool-cases, inl, inr,
}
use urnetwork_client.Text.{push_head, split, join, cut_at, contains_byte}

-- No byte of the text is `c`.
abbrev pub Lacks : ℕ → Bytes → Type 0
Lacks c s = contains_byte s c ≡ false

split-lacking : (s : Bytes) (c : ℕ) → Lacks c s → split s c ≡ s ∷ []
unfolding split contains_byte
split-lacking [] c h = refl
split-lacking (x ∷ s) c h = ground (arith, split-lacking s c)

split_at_sep : (s rest : Bytes) (c : ℕ) → Lacks c s → split (s ++ (c ∷ rest)) c ≡ s ∷ split rest c
unfolding split contains_byte
split_at_sep [] rest c h = ground arith
split_at_sep (x ∷ s) rest c h = ground (arith, split_at_sep s rest c)

-- Splitting a join gives the parts back, if there is a part and none holds the separator.
pub split-join : (ps : List Bytes) (c : ℕ) → ps ≢ [] → All (Lacks c) ps → split (join ps c) c ≡ ps
unfolding join
split-join [] c h _ = absurd (h refl)
split-join (p ∷ []) c h (hp, _) = split-lacking p c hp
split-join (p ∷ q ∷ ps) c h (hp, hq) =
    split_at_sep p (join (q ∷ ps) c) c hp ∙ ap (◌∷◌ p) (split-join (q ∷ ps) c (λ e. cc) hq)

push_head-Lacks :
    (x c : ℕ) (ps : List Bytes)
    → (x == c) ≡ false
    → All (Lacks c) ps
    → All (Lacks c) (push_head x ps)
unfolding contains_byte
push_head-Lacks x c [] e h = (ground arith, tt)
push_head-Lacks x c (p ∷ ps) e h = (ground arith, h.1)

-- No part of a split holds the separator.
pub split-Lacks : (s : Bytes) (c : ℕ) → All (Lacks c) (split s c)
unfolding split
split-Lacks [] c = (unfold contains_byte in refl, tt)
split-Lacks (x ∷ s) c = elim (Bool-cases (x == c)) [
  | inl e ↦ rw e (unfold contains_byte in refl, split-Lacks s c)
  | inr e ↦ rw e (push_head-Lacks x c (split s c) e (split-Lacks s c))
]

-- `Index` cuts at the first occurrence: what precedes lacks the byte.
pub cut_at-append : (k v : Bytes) (c : ℕ) → Lacks c k → cut_at (k ++ (c ∷ v)) c ≡ some (k, v)
unfolding cut_at contains_byte
cut_at-append [] v c h = ground arith
cut_at-append (x ∷ k) v c h = ground (arith, cut_at-append k v c)

pub cut_at_elim :
    (s k v : Bytes) (c : ℕ) → cut_at s c ≡ some (k, v) → (s ≡ k ++ (c ∷ v)) × Lacks c k
unfolding cut_at contains_byte
cut_at_elim [] k v c h = cc
cut_at_elim (x ∷ s) k v c h = elim (Bool-cases (x == c)) [
  | inl e ↦ ground arith
  | inr e ↦ deeper e (λ a b. cut_at_elim s a b c) (cut_at s c) refl
]
  where
    deeper :
        (x == c) ≡ false
        → ((a b : Bytes) → cut_at s c ≡ some (a, b) → (s ≡ a ++ (c ∷ b)) × Lacks c a)
        → (r : Option (Bytes × Bytes)) → cut_at s c ≡ r
        → ((x ∷ s) ≡ k ++ (c ∷ v)) × Lacks c k
    deeper e ih none q = ground arith
    deeper e ih (some (a, b)) q = ground (arith, ih a b q)

pub cut_at-none : (s : Bytes) (c : ℕ) → Lacks c s → cut_at s c ≡ none
unfolding cut_at contains_byte
cut_at-none [] c h = refl
cut_at-none (x ∷ s) c h = ground (arith, cut_at-none s c)
