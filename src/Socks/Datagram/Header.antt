-- ===== src/Socks/Datagram/Header.antt =====
-- socks.go, the headers of the UDP half: reading and writing.
use native.Mathlib.Nat.{add-zero}
use urnetwork_client.Base.{
  ℕ, ◌+◌, ◌*◌, ◌/◌, ◌%◌, ◌≤◌, ◌<◌, ◌≡◌, ◌≢◌, ap, ◌∙◌, inl, inr, [], ◌∷◌, ◌++◌, Option, none, some,
  arith, Bytes, length, get_elem?, get_or, get_elem?-of_lt, get_elem?-append_right,
  drop-append_right, length-drop, take, drop, take-append, length-append, ltb, lt→ltb, le→ltb,
  ltb→le, ◌==◌, if◌then◌else◌, Bool-cases,
}
use urnetwork_client.Net.{to4, to16}
use urnetwork_client.Text.{to_lower}
use urnetwork_client.Socks.Datagram.{
  dropped, datagram, parse_tail, parse_domain, parse_address, parse_datagram, reply_packet,
}

-- A datagram as a client spells it.
abbrev pub header : ℕ → Bytes → ℕ → ℕ → Bytes → Bytes
header atyp addr hi lo payload = 0 ∷ 0 ∷ 0 ∷ atyp ∷ (addr ++ (hi ∷ lo ∷ payload))

parse_tail-ne_none :
    (p : Bytes) (off : ℕ) (ip : Option Bytes) (name : Bytes)
    → off + 1 < length p
    → parse_tail p off ip name ≢ none
unfolding parse_tail
parse_tail-ne_none p off ip name h =
    ground (arith, get_elem?-of_lt p off 0, get_elem?-of_lt p (off + 1) 0)

parse_address-ne_none : (n : ℕ) (p : Bytes) → parse_address n p ≢ none
unfolding parse_address
parse_address-ne_none n p = elim (Bool-cases (ltb (length p) (4 + n + 2))) [
  | inl e ↦ rw e (λ h. cc)
  | inr e ↦
      rw (e, le→ltb (length p) (4 + n) (omega (arith, ltb→le (length p) (4 + n + 2) e)))
        (parse_tail-ne_none p (4 + n) (some (take n (drop 4 p))) []
          (omega (arith, ltb→le (length p) (4 + n + 2) e)))
]

parse_domain-ne_none : (p : Bytes) → parse_domain p ≢ none
unfolding parse_domain
parse_domain-ne_none p = ground (
  arith,
  get_elem?-of_lt p 4 0,
  parse_tail-ne_none p (5 + get_or p 4 0) none (to_lower (take (get_or p 4 0) (drop 5 p))),
)

-- No datagram, however short or long its inner length, makes the reader look outside of it.
pub parse_datagram-ne_none : (p : Bytes) → parse_datagram p ≢ none
unfolding parse_datagram
parse_datagram-ne_none p = ground (
  arith,
  get_elem?-of_lt p 0 0,
  get_elem?-of_lt p 1 0,
  get_elem?-of_lt p 2 0,
  get_elem?-of_lt p 3 0,
  parse_domain-ne_none p,
  parse_address-ne_none 4 p,
  parse_address-ne_none 16 p,
)

parse_tail-append :
    (front payload : Bytes) (off hi lo : ℕ) (ip : Option Bytes) (name : Bytes)
    → length front ≡ off
    → parse_tail (front ++ (hi ∷ lo ∷ payload)) off ip name
      ≡ some (datagram ip name (hi * 256 + lo) payload)
unfolding parse_tail
parse_tail-append front payload off hi lo ip name e = rw (← e) (
    ground (
      arith,
      ap (get_elem? (front ++ (hi ∷ lo ∷ payload))) (add-zero (length front)),
      get_elem?-append_right front (hi ∷ lo ∷ payload) 0,
      get_elem?-append_right front (hi ∷ lo ∷ payload) 1,
      drop-append_right front (hi ∷ lo ∷ payload) 2,
    ))

parse_address-header :
    (atyp hi lo : ℕ) (ip payload : Bytes)
    → parse_address (length ip) (header atyp ip hi lo payload)
      ≡ some (datagram (some ip) [] (hi * 256 + lo) payload)
unfolding parse_address
parse_address-header atyp hi lo ip payload =
    let l = length-append ip (hi ∷ lo ∷ payload) in
    rw
      (
        le→ltb (length (header atyp ip hi lo payload)) (4 + length ip + 2) (omega (arith, l)),
        le→ltb (length (header atyp ip hi lo payload)) (4 + length ip) (omega (arith, l)),
        take-append,
      )
      (parse_tail-append (0 ∷ 0 ∷ 0 ∷ atyp ∷ ip) payload (4 + length ip) hi lo (some ip) []
        (omega arith))

parse_domain-header :
    (hi lo : ℕ) (name payload : Bytes)
    → parse_domain (header 3 (length name ∷ name) hi lo payload)
      ≡ some (datagram none (to_lower name) (hi * 256 + lo) payload)
unfolding parse_domain
parse_domain-header hi lo name payload =
    let l = length-append name (hi ∷ lo ∷ payload) in
    let p = header 3 (length name ∷ name) hi lo payload in
    rw
      (
        le→ltb (length p) 5 (omega (arith, l)),
        le→ltb (length p) (5 + length name + 2) (omega (arith, l)),
        le→ltb (length p) (5 + length name) (omega (arith, l)),
        take-append,
      )
      (parse_tail-append (0 ∷ 0 ∷ 0 ∷ 3 ∷ length name ∷ name) payload (5 + length name) hi lo none
        (to_lower name) (omega arith))

-- The destination of a datagram and how it is spelled.
pub data Spelled : Option Bytes → Bytes → ℕ → Bytes → Type 0 where
  ipv4 : (ip : Bytes) → length ip ≡ 4 → Spelled (some ip) [] 1 ip
  ipv6 : (ip : Bytes) → length ip ≡ 16 → Spelled (some ip) [] 4 ip
  named : (name : Bytes) → length name < 256 → Spelled none (to_lower name) 3 (length name ∷ name)

parse_datagram-by :
    (atyp hi lo : ℕ) (addr payload : Bytes)
    → 10 ≤ length (header atyp addr hi lo payload)
    → parse_datagram (header atyp addr hi lo payload) ≡ (
        if atyp == 1
        then parse_address 4 (header atyp addr hi lo payload)
        else if atyp == 3
        then parse_domain (header atyp addr hi lo payload)
        else if atyp == 4
        then parse_address 16 (header atyp addr hi lo payload)
        else some dropped)
unfolding parse_datagram
parse_datagram-by atyp hi lo addr payload h =
    rw (le→ltb (length (header atyp addr hi lo payload)) 10 h)

-- A datagram of at least ten bytes with an IPv4 address, an IPv6 address or a name of up to 255
-- bytes is read as it was spelled: the address, or the name in lower case, the port and the
-- payload.
pub parse_datagram-header :
    {ip : Option Bytes} {name : Bytes} {atyp : ℕ} {addr : Bytes} (hi lo : ℕ) (payload : Bytes)
    → Spelled ip name atyp addr
    → 10 ≤ length (header atyp addr hi lo payload)
    → parse_datagram (header atyp addr hi lo payload)
      ≡ some (datagram ip name (hi * 256 + lo) payload)
parse_datagram-header hi lo payload (ipv4 ip e) h =
    parse_datagram-by 1 hi lo ip payload h ∙ rw (← e) (parse_address-header 1 hi lo ip payload)
parse_datagram-header hi lo payload (ipv6 ip e) h =
    parse_datagram-by 4 hi lo ip payload h ∙ rw (← e) (parse_address-header 4 hi lo ip payload)
parse_datagram-header hi lo payload (named name e) h =
    parse_datagram-by 3 hi lo (length name ∷ name) payload h
    ∙ parse_domain-header hi lo name payload

-- A datagram that spells out a name, a port and a payload is dropped where the name and the payload
-- have fewer than three bytes together, although nothing is missing in it.
pub parse_datagram_short_name :
    (hi lo : ℕ) (name payload : Bytes)
    → length name + length payload < 3
    → parse_datagram (header 3 (length name ∷ name) hi lo payload) ≡ some dropped
unfolding parse_datagram
parse_datagram_short_name hi lo name payload h = rw (
    lt→ltb (length (header 3 (length name ∷ name) hi lo payload)) 10
      (omega (arith, length-append name (hi ∷ lo ∷ payload))))

to4-length : (ip v4 : Bytes) → to4 ip ≡ some v4 → length v4 ≡ 4
unfolding to4
to4-length ip v4 e = ground (arith, length-drop 12 ip)

-- The address that a reply names: four bytes where it is an IPv4 address, and else sixteen.
pub data Named : Bytes → Bytes → Type 0 where
  as_ipv4 : (ip v4 : Bytes) → to4 ip ≡ some v4 → Named ip v4
  as_ipv6 : (ip : Bytes) → to4 ip ≡ none → length ip ≡ 16 → Named ip ip

port_bytes : (port : ℕ) → port < 65536 → port / 256 % 256 * 256 + port % 256 ≡ port
port_bytes port h = omega arith

reply_packet-ipv4 :
    (ip v4 : Bytes) (port : ℕ) (payload : Bytes)
    → to4 ip ≡ some v4
    → reply_packet ip port payload ≡ header 1 v4 (port / 256 % 256) (port % 256) payload
unfolding reply_packet
reply_packet-ipv4 ip v4 port payload e = ground arith

reply_packet-ipv6 :
    (ip : Bytes) (port : ℕ) (payload : Bytes)
    → to4 ip ≡ none
    → length ip ≡ 16
    → reply_packet ip port payload ≡ header 4 ip (port / 256 % 256) (port % 256) payload
unfolding reply_packet to16
reply_packet-ipv6 ip port payload e l = ground arith

-- A reply to the client is read, by the reader of its datagrams, as the address and the port that
-- it came from and the unchanged payload.
pub parse_datagram-reply_packet :
    {ip named : Bytes} (port : ℕ) (payload : Bytes)
    → Named ip named
    → port < 65536
    → parse_datagram (reply_packet ip port payload) ≡ some (datagram (some named) [] port payload)
parse_datagram-reply_packet port payload (as_ipv4 ip v4 e) h =
    let l = to4-length ip v4 e in
    let m = length-append v4 (port / 256 % 256 ∷ port % 256 ∷ payload) in
    rw (reply_packet-ipv4 ip v4 port payload e) (
      parse_datagram-header (port / 256 % 256) (port % 256) payload (ipv4 v4 l)
        (omega (arith, l, m))
      ∙ ap (λ n. some (datagram (some v4) [] n payload)) (port_bytes port h))
parse_datagram-reply_packet port payload (as_ipv6 ip e l) h =
    let m = length-append ip (port / 256 % 256 ∷ port % 256 ∷ payload) in
    rw (reply_packet-ipv6 ip port payload e l) (
      parse_datagram-header (port / 256 % 256) (port % 256) payload (ipv6 ip l)
        (omega (arith, l, m))
      ∙ ap (λ n. some (datagram (some ip) [] n payload)) (port_bytes port h))
