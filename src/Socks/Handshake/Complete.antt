-- ===== src/Socks/Handshake/Complete.antt =====
-- socks.go, `handleSocksConn`: well-formed CONNECT requests.
use urnetwork_client.Base.{
  ℕ, ◌+◌, ◌*◌, ◌≤◌, ◌<◌, ◌≡◌, refl, Bool, true, false, not, ◌&&◌, List, [], ◌∷◌, ◌++◌, none, some,
  arith, Bytes, length, take-append, drop-append, length-append, le→ltb,
}
use urnetwork_client.Text.{is_empty}
use urnetwork_client.Socks.{use_vpn}
use urnetwork_client.Socks.Handshake.{
  World, Settings, tunnel, goes, read_full, write, socks_reply, Target, address, domain,
  read_target, locate, connect, request, greet, handle_socks_conn,
}

-- A target as a request spells it: the type and the bytes of the address.
pub data Wire : Target → ℕ → Bytes → Type 0 where
  ipv4 : (ip : Bytes) → length ip ≡ 4 → Wire (address ip) 1 ip
  ipv6 : (ip : Bytes) → length ip ≡ 16 → Wire (address ip) 4 ip
  named : (host : Bytes) → length host < 256 → Wire (domain host) 3 (length host ∷ host)

read_full-append :
    (p rest : Bytes) (sent : List Bytes) (d : Bool) (n : ℕ)
    → length p ≡ n
    → n ≤ 262
    → read_full n (record { unread = p ++ rest; sent = sent; deadline = d })
      ≡ goes p (record { unread = rest; sent = sent; deadline = d })
read_full-append p rest sent d n e h = rw (← e) (
    unfold read_full in
    rw
      (
        le→ltb 262 (length p) (omega arith),
        le→ltb (length (p ++ rest)) (length p) (omega (arith, length-append p rest)),
        take-append,
        drop-append,
      )
      refl)

read_target-wire :
    {t : Target} {atyp : ℕ} {addr : Bytes} (rest : Bytes) (sent : List Bytes) (d : Bool)
    → Wire t atyp addr
    → read_target atyp (record { unread = addr ++ rest; sent = sent; deadline = d })
      ≡ goes t (record { unread = rest; sent = sent; deadline = d })
unfolding read_target
read_target-wire rest sent d (ipv4 ip e) = ground (arith, read_full-append ip rest sent d 4 e)
read_target-wire rest sent d (ipv6 ip e) = ground (arith, read_full-append ip rest sent d 16 e)
read_target-wire rest sent d (named host h) = ground (
  arith,
  read_full-append (length host ∷ []) (host ++ rest) sent d 1 refl,
  read_full-append host rest sent d (length host) refl,
)

-- The bytes of a CONNECT request behind its greeting.
abbrev pub spelled : Bytes → ℕ → ℕ → Bytes → ℕ → ℕ → Bytes → Bytes
spelled methods rsv atyp addr hi lo rest =
    5 ∷ length methods ∷ (methods ++ (5 ∷ 1 ∷ rsv ∷ atyp ∷ (addr ++ (hi ∷ lo ∷ rest))))

module _ (w : World) (s : Settings) where
  abbrev bound : Bytes → Bool
  bound n = use_vpn n s.allow_domains s.exclude_domains && not (is_empty s.bind_if)

  greet-spelled :
      (methods rest : Bytes)
      → length methods < 256
      → w.accepts [] (5 ∷ 0 ∷ []) ≡ true
      → greet w s
          (record { unread = 5 ∷ length methods ∷ (methods ++ rest); sent = []; deadline = true })
        ≡ goes tt (record { unread = rest; sent = (5 ∷ 0 ∷ []) ∷ []; deadline = true })
  unfolding greet write
  greet-spelled methods rest m g = ground (
    arith,
    read_full-append (5 ∷ length methods ∷ []) (methods ++ rest) [] true 2 refl,
    read_full-append methods rest [] true (length methods) refl,
  )

  connect-accepted :
      (addr name rest : Bytes)
      → w.accepts ((5 ∷ 0 ∷ []) ∷ []) (socks_reply 0) ≡ true
      → w.dial (bound name) addr ≡ none
      → connect w s addr name (record { unread = rest; sent = (5 ∷ 0 ∷ []) ∷ []; deadline = true })
        ≡ goes
            (tunnel (bound name) addr)
            (record { unread = rest; sent = (5 ∷ 0 ∷ []) ∷ socks_reply 0 ∷ []; deadline = false })
  unfolding connect write
  connect-accepted addr name rest a d = ground arith

  -- A greeting with any methods and a CONNECT request for an IPv4 address, an IPv6 address or a
  -- name of up to 255 bytes that resolves: where both writes succeed and the dial to the located
  -- address succeeds, on a socket bound to the VPN interface exactly if the routing rule says so
  -- and an interface is given, the handler runs the tunnel. It has sent the method choice and the
  -- success reply, has cleared the deadline, and leaves to the tunnel all bytes behind the request.
  pub handle_socks_conn-connect :
      {t : Target} {atyp : ℕ} {wire : Bytes} (methods rest addr name : Bytes) (rsv hi lo : ℕ)
      → Wire t atyp wire
      → length methods < 256
      → locate w s t (hi * 256 + lo) ≡ some (addr, name)
      → w.accepts [] (5 ∷ 0 ∷ []) ≡ true
      → w.accepts ((5 ∷ 0 ∷ []) ∷ []) (socks_reply 0) ≡ true
      → w.dial (bound name) addr ≡ none
      → handle_socks_conn w s (spelled methods rsv atyp wire hi lo rest) ≡ (
        record { unread = rest; sent = (5 ∷ 0 ∷ []) ∷ socks_reply 0 ∷ []; deadline = false },
        tunnel (bound name) addr,
      )
  unfolding handle_socks_conn request
  handle_socks_conn-connect {t} {atyp} {wire} methods rest addr name rsv hi lo f m l g a d =
      ground (
        arith,
        greet-spelled methods (5 ∷ 1 ∷ rsv ∷ atyp ∷ (wire ++ (hi ∷ lo ∷ rest))) m g,
        read_full-append (5 ∷ 1 ∷ rsv ∷ atyp ∷ []) (wire ++ (hi ∷ lo ∷ rest)) ((5 ∷ 0 ∷ []) ∷ [])
            true 4 refl,
        read_target-wire (hi ∷ lo ∷ rest) ((5 ∷ 0 ∷ []) ∷ []) true f,
        read_full-append (hi ∷ lo ∷ []) rest ((5 ∷ 0 ∷ []) ∷ []) true 2 refl,
        connect-accepted addr name rest a d,
      )
