-- ===== src/Linux/Gateways/Choice.antt =====
-- vpn_linux.go: which default route the session takes for the original one.
use urnetwork_client.Base.{
  ◌≡◌, refl, inl, inr, Bool, false, not, ◌&&◌, ◌||◌, List, [], ◌∷◌, All, Option, none, some, arith,
  Bytes, if◌then◌else◌, Bool-cases,
}
use urnetwork_client.Base.Int.{ℤ, negsuc}
use urnetwork_client.Text.{equal, is_empty, trim_space, fields, split}
use urnetwork_client.Text.Laws.{is_empty_lem}
use urnetwork_client.Linux.Gateways.{
  DefaultRoute, read_tokens, read_lines, linux_list_default_routes, orig_gateway, detect_gateway,
}

-- The first route that passes a test.
pub find : (DefaultRoute → Bool) → List DefaultRoute → Option DefaultRoute
find p [] = none
find p (r ∷ rs) = if p r then some r else find p rs

pub is_foreign : Bytes → DefaultRoute → Bool
is_foreign tun r = not (equal r.dev tun)

pub is_gateway : Bytes → DefaultRoute → Bool
is_gateway tun r = not (equal r.dev tun) && not (is_empty r.gw)

first : Option DefaultRoute → Option DefaultRoute → Bytes × Bytes
first (some r) s = (r.gw, r.dev)
first none (some r) = (r.gw, r.dev)
first none none = ([], [])

-- The first route with a gateway, or else the first route; never one of the TUN.
pub chosen : Bytes → List DefaultRoute → Bytes × Bytes
chosen tun rs = first (find (is_gateway tun) rs) (find (is_foreign tun) rs)

HasDevice : DefaultRoute → Type 0
HasDevice r = is_empty r.dev ≡ false

-- With a gateway the choice is final.
orig_gateway-settled :
    (tun gw dev : Bytes) (rs : List DefaultRoute)
    → is_empty gw ≡ false
    → is_empty dev ≡ false
    → orig_gateway tun rs (gw, dev) ≡ (gw, dev)
unfolding orig_gateway
orig_gateway-settled tun gw dev [] g d = refl
orig_gateway-settled tun gw dev (r ∷ rs) g d =
    rw (g, d, orig_gateway-settled tun gw dev rs g d)
      (elim (Bool-cases (equal r.dev tun)) [ inl e ↦ rw e refl | inr e ↦ rw e refl ])

-- Without one, only a route that has one changes it.
orig_gateway-open :
    (tun dev : Bytes) (metric : ℤ) (rs : List DefaultRoute)
    → All HasDevice rs
    → is_empty dev ≡ false
    → orig_gateway tun rs ([], dev)
      ≡ first (find (is_gateway tun) rs) (some (record { gw = []; dev = dev; metric = metric }))
unfolding first orig_gateway find is_gateway HasDevice
orig_gateway-open tun dev metric [] h d = refl
orig_gateway-open tun dev metric (r ∷ rs) h d = rw d (elim (Bool-cases (equal r.dev tun)) [
  | inl e ↦ rw e (orig_gateway-open tun dev metric rs h.1 d)
  | inr e ↦ rw e (elim (Bool-cases (is_empty r.gw)) [
    | inl g ↦ rw g (orig_gateway-open tun dev metric rs h.1 d)
    | inr g ↦ rw g (orig_gateway-settled tun r.gw r.dev rs g h.0)
  ])
])

orig_gateway-chosen :
    (tun : Bytes) (rs : List DefaultRoute)
    → All HasDevice rs
    → orig_gateway tun rs ([], []) ≡ chosen tun rs
unfolding orig_gateway find is_gateway is_foreign chosen first HasDevice
orig_gateway-chosen tun [] h = refl
orig_gateway-chosen tun (r ∷ rs) h = elim (Bool-cases (equal r.dev tun)) [
  | inl e ↦ rw e (orig_gateway-chosen tun rs h.1)
  | inr e ↦ rw e (elim (Bool-cases (is_empty r.gw)) [
    | inl g ↦ rw (g, is_empty_lem r.gw g) (orig_gateway-open tun r.dev r.metric rs h.1 h.0)
    | inr g ↦ rw g (orig_gateway-settled tun r.gw r.dev rs g h.0)
  ])
]

read_lines-HasDevice : (lines : List Bytes) → All HasDevice (read_lines lines)
unfolding read_lines HasDevice
read_lines-HasDevice [] = tt
read_lines-HasDevice (raw ∷ lines) =
    let r =
      read_tokens (fields (trim_space raw)) (record { gw = []; dev = []; metric = negsuc 0 }) in
    elim (Bool-cases (is_empty (trim_space raw) || is_empty r.dev)) [
      | inl e ↦ rw e (read_lines-HasDevice lines)
      | inr e ↦ rw e (ground (arith, e), read_lines-HasDevice lines)
    ]

-- From the output of the command, the original gateway and device are those of the first default
-- route with a gateway that is not on the TUN, or else of the first default route that is not on
-- the TUN, or else empty.
pub detect_gateway-chosen :
    (tun : Bytes) (out : Option Bytes)
    → detect_gateway tun out
      ≡ elim (linux_list_default_routes out) [ none ↦ ([], []) | some rs ↦ chosen tun rs ]
unfolding detect_gateway linux_list_default_routes
detect_gateway-chosen tun none = refl
detect_gateway-chosen tun (some out) =
    orig_gateway-chosen tun _ (read_lines-HasDevice (split (trim_space out) b'\n'))
