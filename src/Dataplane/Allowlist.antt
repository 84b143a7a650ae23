-- ===== src/Dataplane/Allowlist.antt =====
-- Which sources the allowlist of a session admits.
use urnetwork_client.Base.{
  ℕ, ◌<◌, ◌≡◌, refl, sym, ◌∙◌, ◌↔◌, inl, inr, Bool, true, false, ◌||◌, List, [], ◌∷◌, ◌++◌,
  append-nil, Option, none, some, arith, Bytes, All, Exists, if◌then◌else◌, Bool-cases,
  Option-cases,
}
use mathlib.Core.Bool.{or_assoc}
use urnetwork_client.Config.{VpnConfig}
use urnetwork_client.Inbound.{is_allowed}
use urnetwork_client.Inbound.Policy.{is_allowed-append}
use urnetwork_client.Net.{IpNet, ipv4, to4, full_mask, contains_ip}
use urnetwork_client.Net.Laws.{same_under_full}
use urnetwork_client.Text.{is_empty, trim_space, contains_byte}
use urnetwork_client.Util.{split_csv}
use urnetwork_client.Util.Lists.{split_csv-nil}
use urnetwork_client.Dataplane.{
  AddressParser, parse_cidr_host, append_nets, local_ranges, allow_inbound_cidrs,
}

-- The texts that a session's settings name as allowed sources.
pub sources : VpnConfig → List Bytes
sources cfg =
    split_csv cfg.allow_inbound_src_list
    ++ (if cfg.allow_inbound_local
        then local_ranges ++ (if is_empty cfg.ip_cidr then [] else cfg.ip_cidr ∷ [])
        else [])

module _ (P : AddressParser) where
  -- The text is a network, and the network holds the source.
  abbrev pub Admits : Bytes → Bytes → Type 0
  Admits src s = (n : IpNet) × (parse_cidr_host P s ≡ some n) × (contains_ip n src ≡ true)

  admits : Bytes → Bytes → Bool
  admits src s = elim (parse_cidr_host P s) [ none ↦ false | some n ↦ contains_ip n src ]

  any_admits : Bytes → List Bytes → Bool
  any_admits src [] = false
  any_admits src (s ∷ ss) = admits src s || any_admits src ss

  admits_iff : (src s : Bytes) → (admits src s ≡ true) ↔ Admits src s
  unfolding admits
  admits_iff src s = elim (Option-cases (parse_cidr_host P s)) [
    | inl e ↦ (λ h. absurd (ground arith), λ (n, f, g). ground arith)
    | inr (n, e) ↦ (λ h. (n, e, ground arith), λ (m, f, g). ground arith)
  ]

  any_admits_iff :
      (src : Bytes) (ss : List Bytes) → (any_admits src ss ≡ true) ↔ Exists (Admits src) ss
  unfolding any_admits
  any_admits_iff src [] = (λ h. cc, λ h. absurd h)
  any_admits_iff src (s ∷ ss) = (
    λ h. elim (Bool-cases (admits src s)) [
      | inl e ↦ inl ((admits_iff src s).0 e)
      | inr e ↦ inr ((any_admits_iff src ss).0 (ground arith))
    ],
    λ h. elim h [
      | inl a ↦ ground (arith, (admits_iff src s).1 a)
      | inr b ↦ ground (arith, (any_admits_iff src ss).1 b)
    ],
  )

  is_allowed-append_nets :
      (ss : List Bytes) (allow : List (Option IpNet)) (src : Bytes)
      → is_allowed (append_nets P allow ss) src ≡ (is_allowed allow src || any_admits src ss)
  unfolding append_nets any_admits admits is_allowed
  is_allowed-append_nets [] allow src = ground arith
  is_allowed-append_nets (s ∷ ss) allow src = elim (Option-cases (parse_cidr_host P s)) [
    | inl e ↦ rw (e, admits) (is_allowed-append_nets ss allow src)
    | inr (n, e) ↦
        rw (e, admits)
          (is_allowed-append_nets ss (allow ++ (some n ∷ [])) src
            ∙ ground (arith, is_allowed-append allow (some n ∷ []) src))
  ]

  any_admits-append :
      (src : Bytes) (ss ts : List Bytes)
      → any_admits src (ss ++ ts) ≡ (any_admits src ss || any_admits src ts)
  unfolding any_admits
  any_admits-append src [] ts = refl
  any_admits-append src (s ∷ ss) ts = ground (arith, any_admits-append src ss ts)

  is_allowed-listed :
      (l src : Bytes)
      → is_allowed (if is_empty l then [] else append_nets P [] (split_csv l)) src
        ≡ any_admits src (split_csv l)
  unfolding any_admits is_allowed
  is_allowed-listed [] src = rw split_csv-nil
  is_allowed-listed (c ∷ l) src = is_allowed-append_nets (split_csv (c ∷ l)) [] src

  is_allowed-cidrs :
      (cfg : VpnConfig) (src : Bytes)
      → is_allowed (allow_inbound_cidrs P cfg) src ≡ any_admits src (sources cfg)
  unfolding allow_inbound_cidrs sources
  is_allowed-cidrs cfg src = elim (Bool-cases cfg.allow_inbound_local) [
    | inr e ↦ rw (e, append-nil) (is_allowed-listed cfg.allow_inbound_src_list src)
    | inl e ↦ elim (Bool-cases (is_empty cfg.ip_cidr)) [
      | inl k ↦
          rw (e, k, append-nil)
            (simp (is_allowed-append_nets, is_allowed-listed, any_admits-append))
      | inr k ↦
          rw (e, k) (simp (is_allowed-append_nets, is_allowed-listed, any_admits-append, or_assoc))
    ]
  ]

  -- The allowlist of a session admits a source exactly if one of the texts that the settings name
  -- (`--allow_inbound_src`, and with `--allow_inbound_local` the local ranges and the TUN's own
  -- subnet) is a network that holds it.
  pub allow_inbound_cidrs_iff :
      (cfg : VpnConfig) (src : Bytes)
      → (is_allowed (allow_inbound_cidrs P cfg) src ≡ true) ↔ Exists (Admits src) (sources cfg)
  allow_inbound_cidrs_iff cfg src = (
    λ h. (any_admits_iff src (sources cfg)).0 (sym (is_allowed-cidrs cfg src) ∙ h),
    λ h. is_allowed-cidrs cfg src ∙ (any_admits_iff src (sources cfg)).1 h,
  )

parse_cidr_host-host :
    (P : AddressParser) (raw ip short : Bytes) (n : IpNet)
    → contains_byte (trim_space raw) b'/' ≡ false
    → P.parse_ip (trim_space raw) ≡ some ip
    → to4 ip ≡ some short
    → parse_cidr_host P raw ≡ some n
    → n ≡ record { ip = short; mask = full_mask 4 }
unfolding parse_cidr_host
parse_cidr_host-host P raw ip short n h p f e = ground arith

-- A single IPv4 address (no `/`, parsed to four bytes) becomes the network of that address alone:
-- of all IPv4 sources it holds that one.
parse_cidr_host-single :
    (P : AddressParser) (raw ip : Bytes) (a b c d w x y z : ℕ) (n : IpNet)
    → contains_byte (trim_space raw) b'/' ≡ false
    → P.parse_ip (trim_space raw) ≡ some ip
    → to4 ip ≡ some (a ∷ b ∷ c ∷ d ∷ [])
    → All (λ v. v < 256) (a ∷ b ∷ c ∷ d ∷ [])
    → All (λ v. v < 256) (w ∷ x ∷ y ∷ z ∷ [])
    → parse_cidr_host P raw ≡ some n
    → (contains_ip n (ipv4 w x y z) ≡ true)
      ↔ (◌≡◌ {A = Bytes} (a ∷ b ∷ c ∷ d ∷ []) (w ∷ x ∷ y ∷ z ∷ []))
parse_cidr_host-single P raw ip a b c d w x y z n h p f ha hw e =
    rw (parse_cidr_host-host P raw ip (a ∷ b ∷ c ∷ d ∷ []) n h p f e)
      (unfold contains_ip in same_under_full a b c d w x y z ha hw)
