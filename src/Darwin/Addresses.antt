-- ===== src/Darwin/Addresses.antt =====
-- vpn_darwin.go, `tunCIDRParts`: the peer of a TUN address.
use urnetwork_client.Base.{ℕ, ◌≡◌, refl, ap, [], ◌∷◌, ◌++◌, none, some, arith, Bytes, codes}
use urnetwork_client.Text.{contains_byte}
use urnetwork_client.Text.Split.{Lacks, cut_at-append}
use urnetwork_client.Util.{before}
use urnetwork_client.Darwin.{before_last, tun_cidr_parts}

before_last-lacking : (s : Bytes) (c : ℕ) → Lacks c s → before_last s c ≡ none
unfolding before_last contains_byte
before_last-lacking [] c h = refl
before_last-lacking (x ∷ s) c h = ground (arith, before_last-lacking s c)

before_last-append :
    (front back : Bytes) (c : ℕ) → Lacks c back → before_last (front ++ (c ∷ back)) c ≡ some front
unfolding before_last
before_last-append [] back c h = ground (arith, before_last-lacking back c h)
before_last-append (x ∷ front) back c h = rw (before_last-append front back c h) refl

before-append : (k v : Bytes) (c : ℕ) → Lacks c k → before (k ++ (c ∷ v)) c ≡ k
before-append k v c h =
    ap (λ o. elim o as (λ _. Bytes) [ none ↦ k ++ (c ∷ v) | some (front, _) ↦ front ])
      (cut_at-append k v c h)

-- Of a TUN address with a prefix length, the parts are the address and, as the peer, the address
-- with its text behind the last dot replaced by 1.
tun_cidr_parts-append :
    (x : ℕ) (front last bits : Bytes)
    → Lacks b'/' ((x ∷ front) ++ (b'.' ∷ last))
    → Lacks b'.' last
    → tun_cidr_parts (((x ∷ front) ++ (b'.' ∷ last)) ++ (b'/' ∷ bits))
      ≡ ((x ∷ front) ++ (b'.' ∷ last), (x ∷ front) ++ codes ".1")
unfolding tun_cidr_parts
tun_cidr_parts-append x front last bits h k =
    rw
      (
        before-append ((x ∷ front) ++ (b'.' ∷ last)) bits b'/' h,
        before_last-append (x ∷ front) last b'.' k,
      )
      refl
