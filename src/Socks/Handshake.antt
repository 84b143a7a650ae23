-- ===== src/Socks/Handshake.antt =====
-- socks.go, `handleSocksConn`: one TCP connection, from the greeting to the tunnel. `unread` is
-- all that the client sends before it closes or the handshake deadline passes; the writes that
-- succeed, the resolver and the dialler are parameters. The relays behind the tunnel only copy
-- bytes and are outside, as is the debug output.
pub mod Reads
pub mod Outcome
pub mod Complete
use urnetwork_client.Base.{
  ℕ, ◌+◌, ◌*◌, Bool, true, false, not, ◌&&◌, ◌||◌, List, [], ◌∷◌, ◌++◌, Option, none, some, Bytes,
  length, get_or, take, drop, ltb, ◌==◌, if◌then◌else◌,
}
use urnetwork_client.Text.{is_empty, to_lower}
use urnetwork_client.Socks.{use_vpn, prefer_ipv4, itoa, join_host_port}

pub data Errno : Type 0 where
  econnrefused enetunreach ehostunreach etimedout : Errno
  other_errno : ℕ → Errno

-- What `handleSocksConn` reads off the error of a dial.
pub record DialError : Type 0 where
  pub timeout : Bool
  pub errno : Option Errno

-- The dialler is told whether its socket is bound to the VPN interface.
pub record World : Type 0 where
  pub accepts : List Bytes → Bytes → Bool
  pub lookup_ip : Bytes → List Bytes
  pub ip_string : Bytes → Bytes
  pub dial : Bool → Bytes → Option DialError

pub record Settings : Type 0 where
  pub bind_if : Bytes
  pub allow_domains : List Bytes
  pub exclude_domains : List Bytes

pub record Conn : Type 0 where
  pub unread : Bytes
  pub sent : List Bytes
  pub deadline : Bool

-- How the handler leaves: it closes, hands over to the UDP half, has run a tunnel, or has read
-- outside of its buffer.
pub data End : Type 0 where
  closed associate panicked : End
  tunnel : Bool → Bytes → End

pub data Step (A : Type 0) : Type 0 where
  goes : A → Conn → Step A
  stops : End → Conn → Step A

abbrev pub M : Type 0 → Type 0
M A = Conn → Step A

infixl 5 ◌>>=◌ ◌>>◌
abbrev pub ◌>>=◌ : {A R : Type 0} → M A → (A → M R) → M R
◌>>=◌ first next c = elim (first c) [ goes a d ↦ next a d | stops e d ↦ stops e d ]

abbrev pub ◌>>◌ : {B : Type 0} → M (Unit {0}) → M B → M B
m >> k = m >>= λ _. k

abbrev pub pure : {A : Type 0} → A → M A
pure a c = goes a c

abbrev pub stop : {A : Type 0} → End → M A
stop e c = stops e c

-- `buf := make([]byte, 262)`
abbrev pub buf_size : ℕ
buf_size = 262

-- `io.ReadFull(c, buf[:n])`, with the return on an error.
unfoldable pub read_full : ℕ → M Bytes
read_full n c =
    if ltb buf_size n
    then stops panicked c
    else if ltb (length c.unread) n
    then stops closed (record c { unread = [] })
    else goes (take n c.unread) (record c { unread = drop n c.unread })

-- `c.Write(b)`, with the return on an error.
unfoldable pub write : World → Bytes → M (Unit {0})
write w b c =
    let d = record c { sent = c.sent ++ (b ∷ []) } in
    if w.accepts c.sent b then goes tt d else stops closed d

abbrev pub socks_reply : ℕ → Bytes
socks_reply rep = 5 ∷ rep ∷ 0 ∷ 1 ∷ 0 ∷ 0 ∷ 0 ∷ 0 ∷ 0 ∷ 0 ∷ []

-- `_ = writeSocksReply(c, rep, nil); return`
unfoldable pub refuse : {A : Type 0} → ℕ → M A
refuse rep c = stops closed (record c { sent = c.sent ++ (socks_reply rep ∷ []) })

pub data Target : Type 0 where
  address : Bytes → Target
  domain : Bytes → Target

-- The switch over the type of the address.
unfoldable pub read_target : ℕ → M Target
read_target atyp =
    if atyp == 1
    then (do ip ← read_full 4; pure (address ip))
    else if atyp == 3
    then (do l ← read_full 1; name ← read_full (get_or l 0 0); pure (domain name))
    else if atyp == 4
    then (do ip ← read_full 16; pure (address ip))
    else refuse 8

-- `rep` for an error of the dial.
unfoldable pub dial_reply : DialError → ℕ
dial_reply e = elim e.errno [
  | some econnrefused ↦ 5
  | some enetunreach ↦ 3
  | some ehostunreach ↦ 4
  | some etimedout ↦ 4
  | some (other_errno _) ↦ (if e.timeout then 4 else 1)
  | none ↦ (if e.timeout then 4 else 1)
]

-- What is left behind, and how the handler ended.
abbrev pub left : Step End → Conn × End
left (goes e c) = (c, e)
left (stops e c) = (c, e)

module _ (w : World) (s : Settings) where
  -- The address to dial and the requested domain, in lower case; none if the name has no address.
  unfoldable pub locate : Target → ℕ → Option (Bytes × Bytes)
  locate (address ip) port = some (join_host_port (w.ip_string ip) (itoa port), [])
  locate (domain host) port = elim (prefer_ipv4 (w.lookup_ip host)) [
    | none ↦ none
    | some ip ↦ some (join_host_port (w.ip_string ip) (itoa port), to_lower host)
  ]

  unfoldable pub connect : Bytes → Bytes → M End
  connect addr name =
      let bound = use_vpn name s.allow_domains s.exclude_domains && not (is_empty s.bind_if) in
      elim (w.dial bound addr) [
        | some e ↦ refuse (dial_reply e)
        | none ↦ (do
          write w (socks_reply 0)
          λ c. goes (tunnel bound addr) (record c { deadline = false }))
      ]

  unfoldable pub request : ℕ → M End
  unfolding locate connect
  request atyp = do
    target ← read_target atyp
    p ← read_full 2
    elim (locate target (get_or p 0 0 * 256 + get_or p 1 0)) [
      | none ↦ refuse 4
      | some (addr, name) ↦ connect addr name
    ]

  unfoldable pub greet : M (Unit {0})
  greet = do
    hello ← read_full 2
    if not (get_or hello 0 0 == 5)
        then stop closed
        else (do _ ← read_full (get_or hello 1 0); write w (5 ∷ 0 ∷ []))

  unfoldable pub command : M End
  command = do
    r ← read_full 4
    if not (get_or r 0 0 == 5)
        then refuse 1
        else if get_or r 1 0 == 3
        then stop associate
        else if not (get_or r 1 0 == 1)
        then refuse 7
        else request (get_or r 3 0)

  unfoldable pub handle_socks_conn : Bytes → Conn × End
  unfolding greet command
  handle_socks_conn input =
      left ((greet >> command) (record { unread = input; sent = []; deadline = true }))
