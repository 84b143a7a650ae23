-- ===== src/Linux/Gateways.antt =====
-- vpn_linux.go: the list of default routes, and the choice of the original gateway.
pub mod Choice
use urnetwork_client.Base.{
  ℕ, suc, ◌+◌, ◌*◌, ◌-◌, ◌^◌, Bool, true, false, not, ◌&&◌, ◌||◌, List, [], ◌∷◌, ◌++◌, Option, none,
  some, Bytes, codes, ltb, leb, if◌then◌else◌,
}
use urnetwork_client.Base.Int.{ℤ, pos, negsuc}
use urnetwork_client.Text.{equal, is_empty, trim_space, split, fields}

-- `strconv.Atoi`: an optional sign and decimal digits, within an int64.
unfoldable pub digits_value : ℕ → Bytes → Option ℕ
digits_value acc [] = some acc
digits_value acc (c ∷ s) =
    let rest = digits_value (acc * 10 + (c - b'0')) s in
    if leb b'0' c && leb c b'9' then rest else none

abbrev first_of : Bytes → Bytes
first_of [] = []
first_of (x ∷ xs) = x ∷ []

abbrev tail_of : Bytes → Bytes
tail_of [] = []
tail_of (x ∷ xs) = xs

unfoldable pub atoi : Bytes → Option ℤ
unfolding digits_value
atoi s =
    let negative = equal (first_of s) (b'-' ∷ []) in
    let body = if negative || equal (first_of s) (b'+' ∷ []) then tail_of s else s in
    if is_empty body then none else elim (digits_value 0 body) [
      | none ↦ none
      | some n ↦
          (if negative
            then (if leb n (2 ^ 63)
                then some (elim n [ ℕ.zero ↦ pos 0 | ℕ.suc k ↦ negsuc k ])
                else none)
            else if ltb n (2 ^ 63)
            then some (pos n)
            else none)
    ]

pub record DefaultRoute : Type 0 where
  pub gw : Bytes
  pub dev : Bytes
  pub metric : ℤ

-- The loop over the tokens of a line, from `r`.
unfoldable pub read_tokens : List Bytes → DefaultRoute → DefaultRoute
unfolding atoi
read_tokens [] r = r
read_tokens (t ∷ []) r = r
read_tokens (t ∷ u ∷ ts) r =
    let next = read_tokens (u ∷ ts) r in
    let with_gw = read_tokens ts (record r { gw = u }) in
    let with_dev = read_tokens ts (record r { dev = u }) in
    let with_metric =
      read_tokens ts (elim (atoi u) [ none ↦ r | some v ↦ record r { metric = v } ]) in
    if equal t (codes "via")
    then with_gw
    else if equal t (codes "dev")
    then with_dev
    else if equal t (codes "metric")
    then with_metric
    else next

unfoldable pub read_lines : List Bytes → List DefaultRoute
unfolding read_tokens fields
read_lines [] = []
read_lines (raw ∷ lines) =
    let line = trim_space raw in
    let r = read_tokens (fields line) (record { gw = []; dev = []; metric = negsuc 0 }) in
    let rest = read_lines lines in if is_empty line || is_empty r.dev then rest else r ∷ rest

-- `linuxListDefaultRoutes`, from the output of the command.
unfoldable pub linux_list_default_routes : Option Bytes → Option (List DefaultRoute)
unfolding read_lines split
linux_list_default_routes none = none
linux_list_default_routes (some out) = some (read_lines (split (trim_space out) b'\n'))

-- The loop of `cmdVpn` that picks the gateway and device.
unfoldable pub orig_gateway : Bytes → List DefaultRoute → Bytes × Bytes → Bytes × Bytes
orig_gateway tun [] picked = picked
orig_gateway tun (r ∷ rs) (gw, dev) =
    let keep = orig_gateway tun rs (gw, dev) in
    let take_it = orig_gateway tun rs (r.gw, r.dev) in
    if equal r.dev tun
    then keep
    else if is_empty dev || (is_empty gw && not (is_empty r.gw))
    then take_it
    else keep

-- The original gateway and device in `cmdVpn`, from the output of the command.
unfoldable pub detect_gateway : Bytes → Option Bytes → Bytes × Bytes
unfolding linux_list_default_routes orig_gateway
detect_gateway tun out = elim (linux_list_default_routes out) [
  | none ↦ ([], [])
  | some routes ↦ orig_gateway tun routes ([], [])
]
