-- ===== src/Text.antt =====
-- What the code uses of Go's package strings, on texts as lists of bytes. `TrimSpace`, `ToLower`,
-- and `EqualFold` are those on ASCII; on other bytes they leave the byte as it is.
pub mod Laws
pub mod Blank
pub mod Split
use urnetwork_client.Base.{
  ℕ, ◌+◌, ◌-◌, Bool, true, false, not, ◌&&◌, ◌||◌, List, [], ◌∷◌, ◌++◌, map, Option, none, some,
  Bytes, codes, length, take, drop, leb, ◌==◌, if◌then◌else◌,
}

-- `s == t`
unfoldable pub equal : Bytes → Bytes → Bool
equal [] [] = true
equal (x ∷ xs) (y ∷ ys) = x == y && equal xs ys
equal _ _ = false

abbrev pub is_empty {ℓ} : {A : Type ℓ} → List A → Bool
is_empty [] = true
is_empty (_ ∷ _) = false

unfoldable pub is_space : ℕ → Bool
is_space c = leb 9 c && leb c 13 || c == 32

unfoldable pub trim_left : Bytes → Bytes
trim_left [] = []
trim_left (c ∷ s) = let rest = trim_left s in if is_space c then rest else c ∷ s

unfoldable pub trim_right : Bytes → Bytes
trim_right [] = []
trim_right (c ∷ s) = let rest = trim_right s in if is_space c && is_empty rest then [] else c ∷ rest

-- `strings.TrimSpace`
unfoldable pub trim_space : Bytes → Bytes
unfolding trim_left trim_right is_space
trim_space s = trim_right (trim_left s)

unfoldable pub lower_byte : ℕ → ℕ
lower_byte c = if leb b'A' c && leb c b'Z' then c + 32 else c

-- `strings.ToLower`
unfoldable pub to_lower : Bytes → Bytes
unfolding lower_byte
to_lower = map lower_byte

-- `strings.EqualFold`
unfoldable pub equal_fold : Bytes → Bytes → Bool
unfolding equal to_lower
equal_fold s t = equal (to_lower s) (to_lower t)

-- `strings.HasPrefix`
unfoldable pub has_prefix : Bytes → Bytes → Bool
has_prefix s [] = true
has_prefix [] (_ ∷ _) = false
has_prefix (x ∷ s) (y ∷ t) = x == y && has_prefix s t

-- `strings.HasSuffix`
unfoldable pub has_suffix : Bytes → Bytes → Bool
unfolding equal
has_suffix s t = leb (length t) (length s) && equal (drop (length s - length t) s) t

-- `strings.TrimSuffix`
unfoldable pub trim_suffix : Bytes → Bytes → Bytes
unfolding has_suffix
trim_suffix s t = if has_suffix s t then take (length s - length t) s else s

-- `strings.TrimPrefix`
unfoldable pub trim_prefix : Bytes → Bytes → Bytes
unfolding has_prefix
trim_prefix s t = if has_prefix s t then drop (length t) s else s

-- `strings.Contains`
unfoldable pub contains : Bytes → Bytes → Bool
unfolding has_prefix
contains [] t = has_prefix [] t
contains (x ∷ s) t = has_prefix (x ∷ s) t || contains s t

-- `strings.Contains(s, c)`, `strings.Index(s, c)` and `strings.Count(s, c)` at one byte.
unfoldable pub contains_byte : Bytes → ℕ → Bool
contains_byte [] c = false
contains_byte (x ∷ s) c = x == c || contains_byte s c

-- `strings.Index(s, c)` with the two sides of the place that it finds.
unfoldable pub cut_at : Bytes → ℕ → Option (Bytes × Bytes)
cut_at [] c = none
cut_at (x ∷ s) c =
    let rest = cut_at s c in
    if x == c then some ([], s) else elim rest [ none ↦ none | some (k, v) ↦ some (x ∷ k, v) ]

unfoldable pub count_byte : Bytes → ℕ → ℕ
count_byte [] c = 0
count_byte (x ∷ s) c = (if x == c then 1 else 0) + count_byte s c

abbrev push_head : ℕ → List Bytes → List Bytes
push_head x [] = (x ∷ []) ∷ []
push_head x (p ∷ ps) = (x ∷ p) ∷ ps

-- `strings.Split(s, c)` at one byte.
unfoldable pub split : Bytes → ℕ → List Bytes
split [] c = [] ∷ []
split (x ∷ s) c = let rest = split s c in if x == c then [] ∷ rest else push_head x rest

-- `strings.Join(ps, c)` with one byte between.
unfoldable pub join : List Bytes → ℕ → Bytes
join [] c = []
join (p ∷ []) c = p
join (p ∷ q ∷ ps) c = p ++ (c ∷ join (q ∷ ps) c)

-- `strings.TrimRight(s, c)` at one byte.
unfoldable pub trim_right_byte : Bytes → ℕ → Bytes
trim_right_byte [] c = []
trim_right_byte (x ∷ s) c =
    let rest = trim_right_byte s c in if x == c && is_empty rest then [] else x ∷ rest

-- The fields so far, and the current one, over the unread input.
fields_onto : Bytes → Bytes → List Bytes
fields_onto [] [] = []
fields_onto [] (x ∷ cur) = (x ∷ cur) ∷ []
fields_onto (c ∷ s) cur = elim (is_space c) [
  | true ↦ (if is_empty cur then fields_onto s [] else cur ∷ fields_onto s [])
  | false ↦ fields_onto s (cur ++ c ∷ [])
]

-- `strings.Fields`
unfoldable pub fields : Bytes → List Bytes
unfolding fields_onto is_space
fields s = fields_onto s []
