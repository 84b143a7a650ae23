-- ===== src/Darwin.antt =====
-- vpn_darwin.go: the parsers of the macOS session. Running `route` and `scutil`, whose output they
-- read, is outside.
pub mod Routes
pub mod Session
pub mod Addresses
pub mod Resolvers
pub mod Whole
pub mod Contract
use urnetwork_client.Base.{
  ℕ, Bool, true, false, not, ◌&&◌, List, [], ◌∷◌, ◌++◌, Option, none, some, Bytes, codes, ◌==◌,
  if◌then◌else◌,
}
use urnetwork_client.Text.{equal, is_empty, trim_space, trim_prefix, has_prefix, split, count_byte}
use urnetwork_client.Util.{before}

-- The text before the last `c`, if there is one: `strings.LastIndex`.
unfoldable pub before_last : Bytes → ℕ → Option Bytes
before_last [] c = none
before_last (x ∷ s) c = elim (before_last s c) [
  | some front ↦ some (x ∷ front)
  | none ↦ (if x == c then some [] else none)
]

-- `tunCIDRParts`
unfoldable pub tun_cidr_parts : Bytes → Bytes × Bytes
unfolding before_last
tun_cidr_parts ip_cidr =
    let ip = before ip_cidr b'/' in
    (
      ip,
      elim (before_last ip b'.') [
        | none ↦ codes "10.255.0.1"
        | some front ↦ (if is_empty front then codes "10.255.0.1" else front ++ codes ".1")
      ],
    )

-- The loop of `getDefaultGateway` over the lines, from a gateway and an interface.
unfoldable pub read_gateway : List Bytes → Bytes → Bytes → Bytes × Bytes
read_gateway [] gw iface = (gw, iface)
read_gateway (raw ∷ lines) gw iface =
    let line = trim_space raw in
    let with_gw = read_gateway lines (trim_space (trim_prefix line (codes "gateway:"))) iface in
    let with_iface = read_gateway lines gw (trim_space (trim_prefix line (codes "interface:"))) in
    let next = read_gateway lines gw iface in
    if has_prefix line (codes "gateway:")
    then with_gw
    else if has_prefix line (codes "interface:")
    then with_iface
    else next

-- `getDefaultGateway`, from the output of the command.
unfoldable pub get_default_gateway : Option Bytes → Option (Bytes × Bytes)
unfolding read_gateway
get_default_gateway none = none
get_default_gateway (some out) =
    let found = read_gateway (split out b'\n') [] [] in
    if is_empty found.0 then none else some found

unfoldable pub is_listed : Bytes → List Bytes → Bool
is_listed ip [] = false
is_listed ip (x ∷ xs) = if equal ip x then true else is_listed ip xs

-- The resolver that a line names.
unfoldable pub resolver_of : Bytes → Option Bytes
resolver_of raw =
    let line = trim_space raw in
    if has_prefix line (codes "nameserver[")
    then (elim (split line b':') [
      | [] ↦ none
      | first ∷ parts ↦ (elim parts [
        | [] ↦ none
        | second ∷ rest ↦
            (if not (is_empty (trim_space second)) && count_byte (trim_space second) b'.' == 3
              then some (trim_space second)
              else none)
      ])
    ])
    else none

-- The loop of `getSystemDNSResolvers` over the lines.
unfoldable pub collect_resolvers : List Bytes → List Bytes → List Bytes
unfolding resolver_of is_listed
collect_resolvers [] res = res
collect_resolvers (line ∷ lines) res = collect_resolvers lines (elim (resolver_of line) [
  | none ↦ res
  | some ip ↦ (if is_listed ip res then res else res ++ (ip ∷ []))
])

-- `getSystemDNSResolvers`, from the output of the command.
unfoldable pub get_system_dns_resolvers : Option Bytes → Option (List Bytes)
unfolding collect_resolvers
get_system_dns_resolvers none = none
get_system_dns_resolvers (some out) = some (collect_resolvers (split out b'\n') [])
