-- ===== src/Dataplane/Networks.antt =====
-- What the entries of a session's allowlist are.
use urnetwork_client.Base.{
  ◌≡◌, refl, ◌⊎◌, inl, inr, not, List, [], ◌∷◌, ◌++◌, Option, none, some, arith, Bytes, All,
  All-append, length, length-drop, if◌then◌else◌, Bool-cases, Option-cases, subst,
}
use urnetwork_client.Config.{VpnConfig}
use urnetwork_client.Dataplane.{
  AddressParser, parse_cidr_host, append_nets, local_ranges, allow_inbound_cidrs,
}
use urnetwork_client.Net.{IpNet, to4, to16, full_mask}
use urnetwork_client.Text.{is_empty, trim_space, contains_byte}
use urnetwork_client.Util.{split_csv}

-- An IPv4 or an IPv6 network: the address and the mask have its length.
abbrev pub IsNet : IpNet → Type 0
IsNet n = ((length n.ip ≡ 4) × (length n.mask ≡ 4)) ⊎ ((length n.ip ≡ 16) × (length n.mask ≡ 16))

-- A result that is a network, if it is there; and an entry that is one.
abbrev pub IsNetIfAny : Option IpNet → Type 0
IsNetIfAny none = Unit {0}
IsNetIfAny (some n) = IsNet n

abbrev pub IsEntry : Option IpNet → Type 0
IsEntry none = ⊥
IsEntry (some n) = IsNet n

-- What package net documents: `ParseIP` gives the long form, and `ParseCIDR` a network.
pub record IsNetParser (P : AddressParser) : Type 0 where
  pub ip_is_long : (s ip : Bytes) → P.parse_ip s ≡ some ip → length ip ≡ 16
  pub cidr_is_net : (s : Bytes) → IsNetIfAny (P.parse_cidr s)

length-to4 : (ip ip4 : Bytes) → to4 ip ≡ some ip4 → length ip4 ≡ 4
unfolding to4
length-to4 ip ip4 h = ground (arith, length-drop 12 ip)

to16_long : (ip : Bytes) → length ip ≡ 16 → to16 ip ≡ some ip
unfolding to16
to16_long ip h = rw h refl

host-IsNet :
    (ip : Bytes)
    → length ip ≡ 16
    → IsNetIfAny (elim (to4 ip) [
      | some ip4 ↦ some (record { ip = ip4; mask = full_mask 4 })
      | none ↦
          some
            (record { ip = elim (to16 ip) [ some ip16 ↦ ip16 | none ↦ [] ]; mask = full_mask 16 })
    ])
host-IsNet ip h = elim (Option-cases (to4 ip)) [
  | inl e ↦ rw (e, to16_long ip h) (inr (h, refl))
  | inr (ip4, e) ↦ rw e (inl (length-to4 ip ip4 e, refl))
]

module _ (P : AddressParser) (documented : IsNetParser P) where
  parse_cidr_host-IsNet : (s : Bytes) → IsNetIfAny (parse_cidr_host P s)
  unfolding parse_cidr_host
  parse_cidr_host-IsNet s = elim (Bool-cases (is_empty (trim_space s))) [
    | inl e ↦ rw e tt
    | inr e ↦ rw e (elim (Bool-cases (not (contains_byte (trim_space s) b'/'))) [
      | inl k ↦ rw k (elim (Option-cases (P.parse_ip (trim_space s))) [
        | inl n ↦ rw n tt
        | inr (ip, n) ↦ rw n (host-IsNet ip (documented.ip_is_long (trim_space s) ip n))
      ])
      | inr k ↦ rw k (documented.cidr_is_net (trim_space s))
    ])
  ]

  append_nets-IsEntry :
      (allow : List (Option IpNet)) (ss : List Bytes)
      → All IsEntry allow
      → All IsEntry (append_nets P allow ss)
  unfolding append_nets
  append_nets-IsEntry allow [] h = h
  append_nets-IsEntry allow (s ∷ ss) h = elim (Option-cases (parse_cidr_host P s)) [
    | inl e ↦ rw e (append_nets-IsEntry allow ss h)
    | inr (n, e) ↦ rw e (
        append_nets-IsEntry (allow ++ (some n ∷ [])) ss (
          All-append IsEntry allow (some n ∷ []) h
            (subst IsNetIfAny e (parse_cidr_host-IsNet s), tt)))
  ]

  -- Where package net gives what it documents, every entry of a session's allowlist is there, and is
  -- an IPv4 network of four and four bytes or an IPv6 network of sixteen and sixteen: a text that is no
  -- address leaves no entry behind.
  pub allow_inbound_cidrs-IsEntry : (cfg : VpnConfig) → All IsEntry (allow_inbound_cidrs P cfg)
  unfolding allow_inbound_cidrs
  allow_inbound_cidrs-IsEntry cfg = elim (Bool-cases cfg.allow_inbound_local) [
    | inl e ↦ rw e (elim (Bool-cases (is_empty cfg.ip_cidr)) [
      | inl k ↦ rw k (append_nets-IsEntry _ local_ranges listed)
      | inr k ↦
          rw k
            (append_nets-IsEntry _ (cfg.ip_cidr ∷ []) (append_nets-IsEntry _ local_ranges listed))
    ])
    | inr e ↦ rw e listed
  ]
    where
      listed : All IsEntry (
          if is_empty cfg.allow_inbound_src_list
          then []
          else append_nets P [] (split_csv cfg.allow_inbound_src_list))
      listed = elim (Bool-cases (is_empty cfg.allow_inbound_src_list)) [
        | inl e ↦ rw e tt
        | inr e ↦ rw e (append_nets-IsEntry [] (split_csv cfg.allow_inbound_src_list) tt)
      ]
