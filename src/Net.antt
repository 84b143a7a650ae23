-- ===== src/Net.antt =====
-- What the code uses of Go's package net: addresses as lists of bytes and networks. The parsers of
-- addresses and the name lookup are parameters where they are used.
pub mod Laws
use urnetwork_client.Base.{
  ℕ, ◌+◌, ◌%◌, bit_and, Bool, true, false, ◌&&◌, List, [], ◌∷◌, ◌++◌, Option, none, some, Bytes,
  length, take, drop, leb, ◌==◌, if◌then◌else◌,
}
use urnetwork_client.Text.{equal}

-- `net.IPNet`
pub record IpNet : Type 0 where
  pub ip : Bytes
  pub mask : Bytes

-- The prefix of an IPv4 address in 16 bytes.
abbrev pub v4_prefix : Bytes
v4_prefix = 0 ∷ 0 ∷ 0 ∷ 0 ∷ 0 ∷ 0 ∷ 0 ∷ 0 ∷ 0 ∷ 0 ∷ 255 ∷ 255 ∷ []

-- `net.IPv4`
abbrev pub ipv4 : ℕ → ℕ → ℕ → ℕ → Bytes
ipv4 a b c d = v4_prefix ++ (a ∷ b ∷ c ∷ d ∷ [])

-- `ip.To4()`
unfoldable pub to4 : Bytes → Option Bytes
unfolding equal
to4 ip =
    if length ip == 4
    then some ip
    else if length ip == 16 && equal (take 12 ip) v4_prefix
    then some (drop 12 ip)
    else none

-- `ip.To16()`
unfoldable pub to16 : Bytes → Option Bytes
to16 ip =
    if length ip == 4 then some (v4_prefix ++ ip) else if length ip == 16 then some ip else none

-- `networkNumberAndMask` of package net: the number and the mask, at one length, or nothing.
unfoldable pub number_and_mask : IpNet → Option (Bytes × Bytes)
unfolding to4
number_and_mask n =
    let m = n.mask in
    elim (to4 n.ip) [
      | some ip ↦
          (if length m == 4
            then some (ip, m)
            else if length m == 16
            then some (ip, drop 12 m)
            else none)
      | none ↦ (if length n.ip == 16 && length m == 16 then some (n.ip, m) else none)
    ]

-- Every byte of the two addresses agrees under the mask.
unfoldable pub same_under : Bytes → Bytes → Bytes → Bool
same_under [] m [] = true
same_under (a ∷ as') (m ∷ ms) (b ∷ bs) = bit_and a m == bit_and b m && same_under as' ms bs
same_under _ _ _ = false

-- `n.Contains(ip)`, where the network's number and mask are empty if they do not fit.
unfoldable pub contains_ip : IpNet → Bytes → Bool
unfolding to4 number_and_mask same_under
contains_ip n ip =
    let x : Bytes = elim (to4 ip) [ some short ↦ short | none ↦ ip ] in
    elim (number_and_mask n) [
      | some (number, m) ↦ same_under number m x
      | none ↦ same_under [] [] x
    ]

-- `net.CIDRMask(bits, bits)`
abbrev pub full_mask : ℕ → Bytes
full_mask n = elim n [ ℕ.zero ↦ [] | ℕ.suc (k → rest) ↦ 255 ∷ rest ]
