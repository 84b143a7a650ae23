-- ===== src/Inbound/Policy.antt =====
-- What the inbound filter of vpn_core.go decides, against the layout of TCP segments in packets.
use urnetwork_client.Base.{
  ℕ, ◌+◌, ◌*◌, ◌/◌, ◌%◌, ◌≤◌, ◌<◌, ◌≡◌, refl, ◌↔◌, ◌⊎◌, inl, inr, Bool, true, false, not, ◌&&◌,
  ◌||◌, List, [], ◌∷◌, ◌++◌, Option, none, some, arith, Bytes, length, get_or, get_elem?-of_lt,
  take, drop, ltb, leb, lt→ltb, ap, ◌∙◌, ◌==◌, if◌then◌else◌, Bool-cases,
}
use urnetwork_client.Net.{IpNet, ipv4}
use urnetwork_client.Inbound.{
  has_bit, is_allowed, should_drop_inbound_ipv4, should_drop_inbound_ipv6, should_drop_inbound,
}

abbrev byte : Bytes → ℕ → ℕ
byte p i = get_or p i 0

-- A packet that holds a whole TCP header, with its source address and its flags.
pub data TcpSegment (p : Bytes) (src : Bytes) (flags : ℕ) : Type 0 where
  tcp4 :
      (ihl : ℕ)
      → 20 ≤ length p
      → byte p 0 / 16 ≡ 4
      → byte p 0 % 16 * 4 ≡ ihl
      → 20 ≤ ihl
      → ihl + 20 ≤ length p
      → byte p 9 ≡ 6
      → byte p (ihl + 13) ≡ flags
      → ipv4 (byte p 12) (byte p 13) (byte p 14) (byte p 15) ≡ src
      → TcpSegment p src flags
  tcp6 :
      60 ≤ length p
      → byte p 0 / 16 ≡ 6
      → byte p 6 ≡ 6
      → byte p 53 ≡ flags
      → take 16 (drop 8 p) ≡ src
      → TcpSegment p src flags

-- The policy on a segment: drop it if it has no ACK, but for a SYN from an allowed source.
abbrev pub refused : List (Option IpNet) → Bytes → ℕ → Bool
refused allow src flags = not (has_bit flags 4) && not (has_bit flags 1 && is_allowed allow src)

module _ (p : Bytes) (allow : List (Option IpNet)) where
  abbrev source4 : Bytes
  source4 = ipv4 (byte p 12) (byte p 13) (byte p 14) (byte p 15)

  -- The IPv4 half with its reads in range.
  ipv4_reads :
      (ihl : ℕ)
      → 20 ≤ length p
      → byte p 0 % 16 * 4 ≡ ihl
      → should_drop_inbound_ipv4 p allow
        ≡ some (
            not (ltb ihl 20)
            && not (ltb (length p) (ihl + 20))
            && byte p 9 == 6
            && refused allow source4 (byte p (ihl + 13)))
  unfolding should_drop_inbound_ipv4
  ipv4_reads ihl a b = ground (
    arith,
    get_elem?-of_lt p 0 0,
    get_elem?-of_lt p 9 0,
    get_elem?-of_lt p 12 0,
    get_elem?-of_lt p 13 0,
    get_elem?-of_lt p 14 0,
    get_elem?-of_lt p 15 0,
    get_elem?-of_lt p (ihl + 13) 0,
  )

  ipv6_reads :
      60 ≤ length p
      → should_drop_inbound_ipv6 p allow
        ≡ some (byte p 6 == 6 && refused allow (take 16 (drop 8 p)) (byte p 53))
  unfolding should_drop_inbound_ipv6
  ipv6_reads a = ground (arith, get_elem?-of_lt p 6 0, get_elem?-of_lt p 53 0)

abbrev ihl_of : Bytes → ℕ
ihl_of p = byte p 0 % 16 * 4

holds_tcp4 : Bytes → Bool
holds_tcp4 p =
    leb 20 (length p)
    && byte p 0 / 16 == 4
    && leb 20 (ihl_of p)
    && leb (ihl_of p + 20) (length p)
    && byte p 9 == 6

holds_tcp6 : Bytes → Bool
holds_tcp6 p = leb 60 (length p) && byte p 0 / 16 == 6 && byte p 6 == 6

holds_tcp4-segment :
    (p : Bytes)
    → holds_tcp4 p ≡ true
    → TcpSegment p (ipv4 (byte p 12) (byte p 13) (byte p 14) (byte p 15)) (byte p (ihl_of p + 13))
unfolding holds_tcp4
holds_tcp4-segment p h =
    tcp4 (ihl_of p) (ground arith) (ground arith) refl (ground arith) (ground arith) (ground arith)
      refl refl

holds_tcp6-segment :
    (p : Bytes) → holds_tcp6 p ≡ true → TcpSegment p (take 16 (drop 8 p)) (byte p 53)
unfolding holds_tcp6
holds_tcp6-segment p h = tcp6 (ground arith) (ground arith) (ground arith) refl refl

inbound_reads :
    (p : Bytes) (allow : List (Option IpNet))
    → should_drop_inbound p allow ≡ (
        if ltb (length p) 1
        then some false
        else if byte p 0 / 16 == 4
        then should_drop_inbound_ipv4 p allow
        else if byte p 0 / 16 == 6
        then should_drop_inbound_ipv6 p allow
        else some false)
unfolding should_drop_inbound
inbound_reads [] allow = refl
inbound_reads (x ∷ p) allow = refl

ipv4_short :
    (p : Bytes) (allow : List (Option IpNet))
    → length p < 20
    → should_drop_inbound_ipv4 p allow ≡ some false
unfolding should_drop_inbound_ipv4
ipv4_short p allow h = rw (lt→ltb (length p) 20 h)

ipv6_short :
    (p : Bytes) (allow : List (Option IpNet))
    → length p < 60
    → should_drop_inbound_ipv6 p allow ≡ some false
unfolding should_drop_inbound_ipv6
ipv6_short p allow h = rw (lt→ltb (length p) 60 h)

passes_other :
    (p : Bytes) (allow : List (Option IpNet))
    → holds_tcp4 p ≡ false
    → holds_tcp6 p ≡ false
    → should_drop_inbound p allow ≡ some false
unfolding holds_tcp4 holds_tcp6
passes_other p allow h k = ground (
  arith,
  inbound_reads p allow,
  ipv4_short p allow,
  ipv6_short p allow,
  ipv4_reads p allow (ihl_of p),
  ipv6_reads p allow,
)

-- A packet holds a TCP header, or passes whatever the allowlist says.
segment_or_pass :
    (p : Bytes)
    → ((src : Bytes) × (flags : ℕ) × TcpSegment p src flags)
      ⊎ ((allow : List (Option IpNet)) → should_drop_inbound p allow ≡ some false)
segment_or_pass p = elim (Bool-cases (holds_tcp4 p)) [
  | inl h ↦ inl (_, _, holds_tcp4-segment p h)
  | inr h ↦ elim (Bool-cases (holds_tcp6 p)) [
    | inl k ↦ inl (_, _, holds_tcp6-segment p k)
    | inr k ↦ inr (λ allow. passes_other p allow h k)
  ]
]

-- On every packet that holds a TCP header, the filter is the policy.
pub should_drop_inbound-segment :
    (p src : Bytes) (flags : ℕ) (allow : List (Option IpNet))
    → TcpSegment p src flags
    → should_drop_inbound p allow ≡ some (refused allow src flags)
unfolding should_drop_inbound_ipv4 should_drop_inbound
should_drop_inbound-segment p src flags allow (tcp4 ihl a b c d e f g h) =
    ground (arith, ipv4_reads p allow ihl, get_elem?-of_lt p 0 0)
should_drop_inbound-segment p src flags allow (tcp6 a b c d e) =
    ground (arith, ipv6_reads p allow, get_elem?-of_lt p 0 0)

-- No packet, however short, makes the filter read outside of it.
pub should_drop_inbound_total :
    (p : Bytes) (allow : List (Option IpNet)) → (b : Bool) × (should_drop_inbound p allow ≡ some b)
should_drop_inbound_total p allow = elim (segment_or_pass p) [
  | inl (src, flags, t) ↦ (_, should_drop_inbound-segment p src flags allow t)
  | inr pass ↦ (false, pass allow)
]

-- A packet is dropped exactly if it holds a TCP header that the policy refuses.
pub should_drop_inbound_iff :
    (p : Bytes) (allow : List (Option IpNet))
    → (should_drop_inbound p allow ≡ some true)
      ↔ ((src : Bytes) × (flags : ℕ) × TcpSegment p src flags × (refused allow src flags ≡ true))
should_drop_inbound_iff p allow = (
  λ h. elim (segment_or_pass p) [
    | inl (src, flags, t) ↦
        (src, flags, t, ground (arith, should_drop_inbound-segment p src flags allow t))
    | inr pass ↦ cc (pass allow)
  ],
  λ (src, flags, t, r). should_drop_inbound-segment p src flags allow t ∙ ap some r,
)

pub is_allowed-append :
    (xs ys : List (Option IpNet)) (src : Bytes)
    → is_allowed (xs ++ ys) src ≡ (is_allowed xs src || is_allowed ys src)
unfolding is_allowed
is_allowed-append [] ys src = refl
is_allowed-append (none ∷ xs) ys src = is_allowed-append xs ys src
is_allowed-append (some n ∷ xs) ys src = ground (arith, is_allowed-append xs ys src)

-- Adding networks to the allowlist never drops a packet that passed before.
should_drop_inbound_mono :
    (p : Bytes) (xs ys : List (Option IpNet))
    → should_drop_inbound p xs ≡ some false
    → should_drop_inbound p (xs ++ ys) ≡ some false
should_drop_inbound_mono p xs ys h = elim (segment_or_pass p) [
  | inl (src, flags, t) ↦ ground (
    arith,
    should_drop_inbound-segment p src flags xs t,
    should_drop_inbound-segment p src flags (xs ++ ys) t,
    is_allowed-append xs ys src,
  )
  | inr pass ↦ pass (xs ++ ys)
]
