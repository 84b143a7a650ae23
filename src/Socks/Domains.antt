-- ===== src/Socks/Domains.antt =====
-- socks.go, `domainMatches` and the choice of the path: which domains a list of patterns covers.
use urnetwork_client.Base.{
  ◌≡◌, refl, ap, sym, ◌∙◌, ◌≢◌, ◌↔◌, ◌⊎◌, inl, inr, Bool, true, false, not, ◌&&◌, ◌||◌, List, [],
  ◌∷◌, ◌++◌, arith, Bytes, Exists, Bool-cases,
}
use urnetwork_client.Text.{equal, is_empty, has_suffix, trim_suffix, lower_byte, to_lower}
use urnetwork_client.Text.Laws.{equal_iff, has_suffix_iff, trim_suffix-append, to_lower_idem}
use urnetwork_client.Socks.{dot, host_key, pattern_key, matches_any, domain_matches, use_vpn}

-- The key is the pattern's, or ends in a dot and the pattern's.
pub Covers : Bytes → Bytes → Type 0
Covers h p =
    (pattern_key p ≢ [])
    × ((h ≡ pattern_key p) ⊎ ((sub : Bytes) × (h ≡ sub ++ (b'.' ∷ pattern_key p))))

suffix_test : Bytes → Bytes → Bool
suffix_test h q = not (is_empty q) && (equal h q || has_suffix h (b'.' ∷ q))

suffix_test_iff :
    (h q : Bytes)
    → (suffix_test h q ≡ true) ↔ ((q ≢ []) × ((h ≡ q) ⊎ ((sub : Bytes) × (h ≡ sub ++ (b'.' ∷ q)))))
unfolding suffix_test
suffix_test_iff h [] = (λ t. cc, λ t. absurd (t.0 refl))
suffix_test_iff h (c ∷ q) = (
  λ t. (
    (λ e. cc),
    elim (Bool-cases (equal h (c ∷ q))) [
      | inl e ↦ inl ((equal_iff h (c ∷ q)).0 e)
      | inr e ↦ inr ((has_suffix_iff h (b'.' ∷ c ∷ q)).0 (ground arith))
    ],
  ),
  λ t. elim (t.1) [
    | inl e ↦ ground (arith, (equal_iff h (c ∷ q)).1 e)
    | inr e ↦ ground (arith, (has_suffix_iff h (b'.' ∷ c ∷ q)).1 e)
  ],
)

matches_any-cons :
    (h p : Bytes) (ps : List Bytes)
    → matches_any h (p ∷ ps) ≡ (suffix_test h (pattern_key p) || matches_any h ps)
unfolding matches_any suffix_test
matches_any-cons h p ps = ground arith

matches_any_iff : (h : Bytes) (ps : List Bytes) → (matches_any h ps ≡ true) ↔ Exists (Covers h) ps
unfolding Covers
matches_any_iff h [] = (λ t. unfold matches_any in cc, λ t. absurd t)
matches_any_iff h (p ∷ ps) = (
  λ t. elim (Bool-cases (suffix_test h (pattern_key p))) [
    | inl e ↦ inl ((suffix_test_iff h (pattern_key p)).0 e)
    | inr e ↦ inr ((matches_any_iff h ps).0 (ground (arith, matches_any-cons h p ps)))
  ],
  λ t. elim t [
    | inl c ↦ ground (arith, matches_any-cons h p ps, (suffix_test_iff h (pattern_key p)).1 c)
    | inr r ↦ ground (arith, matches_any-cons h p ps, (matches_any_iff h ps).1 r)
  ],
)

-- A domain matches exactly if its key is that of a nonempty pattern of the list or a subdomain of it.
pub domain_matches_iff :
    (host : Bytes) (patterns : List Bytes)
    → (domain_matches host patterns ≡ true) ↔ Exists (Covers (host_key host)) patterns
unfolding domain_matches
domain_matches_iff host patterns = matches_any_iff (host_key host) patterns

-- The absolute form of a name, with its dot, matches the same patterns as the name.
domain_matches_absolute :
    (host : Bytes) (patterns : List Bytes)
    → has_suffix host dot ≡ false
    → domain_matches (host ++ dot) patterns ≡ domain_matches host patterns
unfolding domain_matches trim_suffix
domain_matches_absolute host patterns h =
    ap (λ k. matches_any (to_lower k) patterns) (trim_suffix-append host dot ∙ sym (rw h))

map-lower_ends : (s p : Bytes) → to_lower s ≡ p ++ dot → (front : Bytes) × (s ≡ front ++ dot)
unfolding to_lower
map-lower_ends [] [] e = cc
map-lower_ends [] (y ∷ p) e = cc
map-lower_ends (x ∷ []) [] e = ([], ground (arith, e))
map-lower_ends (x ∷ z ∷ s) [] e = cc
map-lower_ends (x ∷ s) (y ∷ p) e =
    let (front, f) = map-lower_ends s p (ground arith) in (x ∷ front, ap (◌∷◌ x) f)

to_lower-append : (s t : Bytes) → to_lower (s ++ t) ≡ to_lower s ++ to_lower t
unfolding to_lower
to_lower-append [] t = refl
to_lower-append (x ∷ s) t = ap (◌∷◌ (lower_byte x)) (to_lower-append s t)

to_lower-dot : to_lower dot ≡ dot
unfolding to_lower
to_lower-dot = refl

trim_suffix-to_lower : (s : Bytes) → trim_suffix (to_lower s) dot ≡ to_lower (trim_suffix s dot)
trim_suffix-to_lower s = elim (Bool-cases (has_suffix s dot)) [
  | inl h ↦
      let (front, e) = (has_suffix_iff s dot).0 h in
      rw (e, trim_suffix-append front dot, to_lower-append front dot, to_lower-dot)
        (trim_suffix-append (to_lower front) dot)
  | inr h ↦ elim (Bool-cases (has_suffix (to_lower s) dot)) [
    | inl k ↦
        let (p, e) = (has_suffix_iff (to_lower s) dot).0 k in
        let (front, f) = map-lower_ends s p e in ground (arith, (has_suffix_iff s dot).1 (front, f))
    | inr k ↦ unfold trim_suffix in rw (h, k)
  ]
]

-- The case of the requested name does not matter.
domain_matches_case :
    (host : Bytes) (patterns : List Bytes)
    → domain_matches (to_lower host) patterns ≡ domain_matches host patterns
unfolding domain_matches
domain_matches_case host patterns =
    ap (λ k. matches_any k patterns)
      (ap to_lower (trim_suffix-to_lower host) ∙ to_lower_idem (trim_suffix host dot))

allow_test : Bytes → List Bytes → Bool
allow_test d allow = is_empty allow || (not (is_empty d) && domain_matches d allow)

exclude_test : Bytes → List Bytes → Bool
exclude_test d exclude = is_empty d || not (domain_matches d exclude)

use_vpn-tests :
    (d : Bytes) (allow exclude : List Bytes)
    → use_vpn d allow exclude ≡ (allow_test d allow && exclude_test d exclude)
unfolding use_vpn allow_test exclude_test
use_vpn-tests d allow exclude = ground arith

allow_test_iff :
    (d : Bytes) (allow : List Bytes)
    → (allow_test d allow ≡ true) ↔ ((allow ≡ []) ⊎ ((d ≢ []) × Exists (Covers (host_key d)) allow))
unfolding allow_test
allow_test_iff d [] = (λ h. inl refl, λ h. refl)
allow_test_iff [] (p ∷ ps) = (λ h. cc, λ h. elim h [ inl e ↦ cc | inr r ↦ absurd (r.0 refl) ])
allow_test_iff (c ∷ d) (p ∷ ps) = (
  λ h. inr ((λ e. cc), (domain_matches_iff (c ∷ d) (p ∷ ps)).0 h),
  λ h. elim h [ inl e ↦ cc | inr r ↦ (domain_matches_iff (c ∷ d) (p ∷ ps)).1 r.1 ],
)

exclude_test_iff :
    (d : Bytes) (exclude : List Bytes)
    → (exclude_test d exclude ≡ true) ↔ ((d ≡ []) ⊎ (¬ Exists (Covers (host_key d)) exclude))
unfolding exclude_test
exclude_test_iff [] exclude = (λ h. inl refl, λ h. refl)
exclude_test_iff (c ∷ d) exclude = (
  λ h. inr (λ x. ground (arith, (domain_matches_iff (c ∷ d) exclude).1 x)),
  λ h. elim h [
    | inl e ↦ cc
    | inr n ↦ elim (Bool-cases (domain_matches (c ∷ d) exclude)) [
      | inl m ↦ absurd (n ((domain_matches_iff (c ∷ d) exclude).0 m))
      | inr m ↦ rw m
    ]
  ],
)

-- A request goes through the VPN exactly if the allowlist is empty or covers its domain, and the
-- exclusions do not cover it. A bare address is covered by neither.
pub use_vpn_iff :
    (domain : Bytes) (allow exclude : List Bytes)
    → (use_vpn domain allow exclude ≡ true) ↔ (
        ((allow ≡ []) ⊎ ((domain ≢ []) × Exists (Covers (host_key domain)) allow))
        × ((domain ≡ []) ⊎ (¬ Exists (Covers (host_key domain)) exclude)))
use_vpn_iff domain allow exclude = (
  λ h. (
    (allow_test_iff domain allow).0 (ground (arith, use_vpn-tests domain allow exclude)),
    (exclude_test_iff domain exclude).0 (ground (arith, use_vpn-tests domain allow exclude)),
  ),
  λ (a, e). ground (
    arith,
    use_vpn-tests domain allow exclude,
    (allow_test_iff domain allow).1 a,
    (exclude_test_iff domain exclude).1 e,
  ),
)
