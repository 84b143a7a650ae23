-- ===== src/Darwin/Resolvers.antt =====
-- vpn_darwin.go, `getSystemDNSResolvers`: what it collects.
use mathlib.Core.Option.{some-injective}
use urnetwork_client.Base.{
  ◌≡◌, refl, subst, sym, ◌∙◌, inl, inr, false, List, [], ◌∷◌, ◌++◌, All, some, arith, Bytes,
  Bool-cases, Option-cases, bool_ext,
}
use urnetwork_client.Text.{equal, split, count_byte}
use urnetwork_client.Text.Laws.{equal_iff}
use urnetwork_client.Darwin.{is_listed, resolver_of, collect_resolvers, get_system_dns_resolvers}

-- A text with three dots, as an IPv4 address has.
abbrev pub HasThreeDots : Bytes → Type 0
HasThreeDots ip = count_byte ip b'.' ≡ 3

abbrev pub IsUnique : List Bytes → Type 0
IsUnique [] = Unit {0}
IsUnique (x ∷ xs) = (is_listed x xs ≡ false) × IsUnique xs

equal_comm : (a b : Bytes) → equal a b ≡ equal b a
equal_comm a b =
    bool_ext (equal a b) (equal b a) (λ h. (equal_iff b a).1 (sym ((equal_iff a b).0 h)))
      (λ h. (equal_iff a b).1 (sym ((equal_iff b a).0 h)))

is_listed-snoc :
    (x ip : Bytes) (xs : List Bytes)
    → is_listed x xs ≡ false
    → equal x ip ≡ false
    → is_listed x (xs ++ (ip ∷ [])) ≡ false
unfolding is_listed
is_listed-snoc x ip [] h k = rw k refl
is_listed-snoc x ip (y ∷ ys) h k = ground (arith, is_listed-snoc x ip ys)

IsUnique-snoc :
    (ip : Bytes) (xs : List Bytes)
    → IsUnique xs
    → is_listed ip xs ≡ false
    → IsUnique (xs ++ (ip ∷ []))
unfolding is_listed
IsUnique-snoc ip [] u h = (refl, tt)
IsUnique-snoc ip (x ∷ xs) u h = (
  is_listed-snoc x ip xs u.0 (equal_comm x ip ∙ ground (arith, h)),
  IsUnique-snoc ip xs u.1 (ground (arith, h)),
)

All-snoc :
    (ip : Bytes) (xs : List Bytes)
    → All HasThreeDots xs
    → HasThreeDots ip
    → All HasThreeDots (xs ++ (ip ∷ []))
All-snoc ip [] a h = (h, tt)
All-snoc ip (x ∷ xs) a h = (a.0, All-snoc ip xs a.1 h)

resolver_of-HasThreeDots : (raw ip : Bytes) → resolver_of raw ≡ some ip → HasThreeDots ip
unfolding resolver_of
resolver_of-HasThreeDots raw ip h = ground (arith, h)

collect_resolvers-IsUnique :
    (lines res : List Bytes)
    → IsUnique res
    → All HasThreeDots res
    → IsUnique (collect_resolvers lines res) × All HasThreeDots (collect_resolvers lines res)
unfolding collect_resolvers
collect_resolvers-IsUnique [] res u a = (u, a)
collect_resolvers-IsUnique (line ∷ lines) res u a = elim (Option-cases (resolver_of line)) [
  | inl e ↦ rw (e, collect_resolvers) (collect_resolvers-IsUnique lines res u a)
  | inr (ip, e) ↦
      rw (e, collect_resolvers)
        (elim (Bool-cases (is_listed ip res)) [
          | inl k ↦ rw (k, collect_resolvers) (collect_resolvers-IsUnique lines res u a)
          | inr k ↦
              rw (k, collect_resolvers)
                (collect_resolvers-IsUnique lines (res ++ (ip ∷ [])) (IsUnique-snoc ip res u k)
                  (All-snoc ip res a (resolver_of-HasThreeDots line ip e)))
        ])
]

-- The resolvers that are read of the output are pairwise different, and each has three dots.
pub get_system_dns_resolvers-IsUnique :
    (out : Bytes) {res : List Bytes}
    → get_system_dns_resolvers (some out) ≡ some res
    → IsUnique res × All HasThreeDots res
unfolding get_system_dns_resolvers
get_system_dns_resolvers-IsUnique out {res} h =
    subst (λ r. IsUnique r × All HasThreeDots r) (some-injective _ _ h)
      (collect_resolvers-IsUnique (split out b'\n') [] tt tt)
