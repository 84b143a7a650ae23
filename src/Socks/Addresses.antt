-- ===== src/Socks/Addresses.antt =====
-- socks.go, the loop over the addresses of a name.
use mathlib.Core.List.{head?}
use urnetwork_client.Base.{
  ◌≡◌, refl, ap, ◌≢◌, ◌⊎◌, inl, inr, List, [], ◌∷◌, ◌++◌, Option, none, some, arith, Bytes, All,
  Option-cases,
}
use urnetwork_client.Net.{to4}
use urnetwork_client.Socks.{prefer_from, prefer_ipv4}

abbrev pub OnlyIpv6 : List Bytes → Type 0
OnlyIpv6 = All (λ x. to4 x ≡ none)

-- The list splits at its first IPv4 address.
pub record FirstIpv4 (ips : List Bytes) (ip : Bytes) : Type 0 where
  pub front : List Bytes
  pub back : List Bytes
  pub splits : ips ≡ front ++ (ip ∷ back)
  pub is_ipv4 : to4 ip ≢ none
  pub before : OnlyIpv6 front

prefer_from-first :
    (front back : List Bytes) (ip : Bytes) (best : Option Bytes)
    → to4 ip ≢ none
    → OnlyIpv6 front
    → prefer_from best (front ++ (ip ∷ back)) ≡ some ip
unfolding prefer_from
prefer_from-first [] back ip best v h = ground arith
prefer_from-first (x ∷ front) back ip best v (hx, h) =
    rw (hx, prefer_from)
      (prefer_from-first front back ip (elim best [ none ↦ some x | some b ↦ some b ]) v h)

prefer_from-other :
    (ips : List Bytes) (best : Option Bytes)
    → OnlyIpv6 ips
    → prefer_from best ips ≡ (elim best [ none ↦ head? ips | some b ↦ some b ])
unfolding prefer_from
prefer_from-other [] none h = refl
prefer_from-other [] (some b) h = refl
prefer_from-other (x ∷ ips) none (hx, h) = rw (hx, prefer_from) (prefer_from-other ips (some x) h)
prefer_from-other (x ∷ ips) (some b) (hx, h) =
    rw (hx, prefer_from) (prefer_from-other ips (some b) h)

first_or_other : (ips : List Bytes) → ((ip : Bytes) × FirstIpv4 ips ip) ⊎ OnlyIpv6 ips
first_or_other [] = inr tt
first_or_other (x ∷ ips) = elim (Option-cases (to4 x)) [
  | inr (s, e) ↦
      inl (x, record { front = []; back = ips; splits = refl; is_ipv4 = λ f. cc; before = tt })
  | inl e ↦ elim (first_or_other ips) [
    | inl (ip, f) ↦ inl (
      ip,
      record {
        front = x ∷ f.front;
        back = f.back;
        splits = ap (◌∷◌ x) f.splits;
        is_ipv4 = f.is_ipv4;
        before = (e, f.before);
      },
    )
    | inr h ↦ inr (e, h)
  ]
]

-- Of the addresses of a name the first IPv4 one is chosen; where there is none, the first of all,
-- and nothing if the list is empty.
pub prefer_ipv4_choice :
    (ips : List Bytes)
    → ((ip : Bytes) × FirstIpv4 ips ip × (prefer_ipv4 ips ≡ some ip))
      ⊎ (OnlyIpv6 ips × (prefer_ipv4 ips ≡ head? ips))
unfolding prefer_ipv4
prefer_ipv4_choice ips = elim (first_or_other ips) [
  | inl (ip, f) ↦
      inl (ip, f, rw f.splits (prefer_from-first f.front f.back ip none f.is_ipv4 f.before))
  | inr h ↦ inr (h, prefer_from-other ips none h)
]
