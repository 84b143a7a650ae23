-- ===== src/Socks/Handshake/Outcome.antt =====
-- socks.go, `handleSocksConn`: the ways in which a connection ends.
use urnetwork_client.Base.{
  ℕ, ◌≤◌, ◌<◌, ◌≡◌, refl, inl, inr, Bool, true, false, not, [], ◌∷◌, Option, none, some, arith,
  Bytes, All, get_or, ◌==◌, if◌then◌else◌, Bool-cases,
}
use urnetwork_client.Socks.Handshake.{
  World, Settings, Conn, DialError, End, closed, associate, tunnel, Step, goes, stops, M, ◌>>=◌,
  ◌>>◌, read_full, write, refuse, socks_reply, dial_reply, address, domain, read_target, connect,
  request, greet, command, handle_socks_conn, left,
}
use urnetwork_client.Socks.Handshake.Reads.{
  hello, get_or-lt, During, Post, Post-bind, Read, read_full-Post, Greeted,
}

-- The ends of a connection, by what was sent and whether the handshake deadline still stands.
pub data Outcome (w : World) (c : Conn) (e : End) : Type 0 where
  silent : e ≡ closed → c.sent ≡ [] → c.deadline ≡ true → Outcome w c e
  greeted : e ≡ closed → c.sent ≡ hello ∷ [] → c.deadline ≡ true → Outcome w c e
  refused :
      (rep : ℕ)
      → e ≡ closed
      → 1 ≤ rep
      → rep ≤ 8
      → c.sent ≡ hello ∷ socks_reply rep ∷ []
      → c.deadline ≡ true
      → Outcome w c e
  unanswered :
      e ≡ closed
      → c.sent ≡ hello ∷ socks_reply 0 ∷ []
      → c.deadline ≡ true
      → w.accepts (hello ∷ []) (socks_reply 0) ≡ false
      → Outcome w c e
  handed_over : e ≡ associate → c.sent ≡ hello ∷ [] → c.deadline ≡ true → Outcome w c e
  tunnelled :
      (bound : Bool) (addr : Bytes)
      → e ≡ tunnel bound addr
      → c.sent ≡ hello ∷ socks_reply 0 ∷ []
      → c.deadline ≡ false
      → w.dial bound addr ≡ none
      → Outcome w c e

-- The ends of the whole handler, of a step that returns one.
abbrev Ends : World → End → Conn → Type 0
Ends w e c = Outcome w c e

closed_greeted : (w : World) (d : Conn) → Greeted d → Outcome w d closed
closed_greeted w d g = greeted refl g.has_sent g.timed

refuse-Post :
    {A : Type 0} (w : World) (P : A → Conn → Type 0) (rep : ℕ) (c : Conn)
    → 1 ≤ rep
    → rep ≤ 8
    → Greeted c
    → Post P (Ends w) (refuse rep c)
unfolding refuse
refuse-Post w P rep c lo hi g = refused rep refl lo hi (rw g.has_sent) g.timed

Read-Greeted :
    (w : World) (n : ℕ) (c : Conn)
    → n ≤ 262
    → Greeted c
    → Post (Read (hello ∷ [])) (Ends w) (read_full n c)
Read-Greeted w n c h g = read_full-Post n (hello ∷ []) c (Ends w) h g (closed_greeted w)

address-Post :
    (w : World) (n : ℕ) (c : Conn)
    → n ≤ 262
    → Greeted c
    → Post (λ _ d. Greeted d) (Ends w) ((read_full n >>= λ ip d. goes (address ip) d) c)
address-Post w n c h g =
    Post-bind (Read (hello ∷ [])) (λ _ d. Greeted d) (Ends w) (read_full n)
      (λ ip d. goes (address ip) d) c (Read-Greeted w n c h g) (λ ip d p. p.1)

name-Post :
    (w : World) (c : Conn)
    → Greeted c
    → Post
        (λ _ d. Greeted d)
        (Ends w)
        ((read_full 1 >>= λ l. read_full (get_or l 0 0) >>= λ name d. goes (domain name) d) c)
name-Post w c g =
    Post-bind (Read (hello ∷ [])) (λ _ d. Greeted d) (Ends w) (read_full 1)
      (λ l. read_full (get_or l 0 0) >>= λ name d. goes (domain name) d) c
      (Read-Greeted w 1 c (omega arith) g)
      (λ l d p.
        Post-bind (Read (hello ∷ [])) (λ _ d. Greeted d) (Ends w) (read_full (get_or l 0 0))
          (λ name d. goes (domain name) d) d
          (Read-Greeted w (get_or l 0 0) d (omega (arith, get_or-lt l 0 p.0)) p.1)
          (λ name d' q. q.1))

read_target-Post :
    (w : World) (atyp : ℕ) (c : Conn)
    → Greeted c
    → Post (λ _ d. Greeted d) (Ends w) (read_target atyp c)
unfolding read_target
read_target-Post w atyp c g = elim (Bool-cases (atyp == 1)) [
  | inl e ↦ rw e (address-Post w 4 c (omega arith) g)
  | inr e ↦ rw e (elim (Bool-cases (atyp == 3)) [
    | inl f ↦ rw f (name-Post w c g)
    | inr f ↦ rw f (elim (Bool-cases (atyp == 4)) [
      | inl k ↦ rw k (address-Post w 16 c (omega arith) g)
      | inr k ↦ rw k (refuse-Post w (λ _ d. Greeted d) 8 c (omega arith) (omega arith) g)
    ])
  ])
]

dial_reply_bounds : (e : DialError) → (1 ≤ dial_reply e) × (dial_reply e ≤ 8)
unfolding dial_reply
dial_reply_bounds e = ground arith

module _ (w : World) (s : Settings) where
  abbrev Answered : Unit {0} → Conn → Type 0
  Answered _ c = (c.sent ≡ hello ∷ socks_reply 0 ∷ []) × (c.deadline ≡ true)

  write_success-Post : (c : Conn) → Greeted c → Post Answered (Ends w) (write w (socks_reply 0) c)
  unfolding write
  write_success-Post c g = elim (Bool-cases (w.accepts c.sent (socks_reply 0))) [
    | inl e ↦ rw e (rw g.has_sent, g.timed)
    | inr e ↦ rw e (unanswered refl (rw g.has_sent) g.timed (rw (← g.has_sent) e))
  ]

  -- The success reply and the tunnel, or the end where the reply cannot be sent.
  accepted-Post :
      (bound : Bool) (addr : Bytes) (c : Conn)
      → w.dial bound addr ≡ none
      → Greeted c
      → Post (Ends w) (Ends w) (
          (write w (socks_reply 0) >> λ d. goes (tunnel bound addr) (record d { deadline = false }))
            c)
  accepted-Post bound addr c d g =
      Post-bind Answered (Ends w) (Ends w) (write w (socks_reply 0)) _ c (write_success-Post c g)
        (λ _ e a. tunnelled bound addr refl a.0 refl d)

  connect-Post :
      (addr name : Bytes) (c : Conn) → Greeted c → Post (Ends w) (Ends w) (connect w s addr name c)
  unfolding connect
  connect-Post addr name c g = by_dial _ _ refl
    where
      by_dial :
          (bound : Bool) (r : Option DialError)
          → w.dial bound addr ≡ r
          → Post (Ends w) (Ends w) (
              (elim r as (λ _. M End) [
                | some e ↦ refuse (dial_reply e)
                | none ↦ write w (socks_reply 0) >> λ d.
                    goes (tunnel bound addr) (record d { deadline = false })
              ])
                c)
      by_dial bound none d = accepted-Post bound addr c d g
      by_dial bound (some e) d =
          refuse-Post w (Ends w) (dial_reply e) c (dial_reply_bounds e).0 (dial_reply_bounds e).1 g

  located-Post :
      (o : Option (Bytes × Bytes)) (c : Conn)
      → Greeted c
      → Post (Ends w) (Ends w) (
          (elim o as (λ _. M End) [ none ↦ refuse 4 | some (addr, name) ↦ connect w s addr name ])
            c)
  located-Post none c g = refuse-Post w (Ends w) 4 c (omega arith) (omega arith) g
  located-Post (some (addr, name)) c g = connect-Post addr name c g

  request-Post : (atyp : ℕ) (c : Conn) → Greeted c → Post (Ends w) (Ends w) (request w s atyp c)
  unfolding request
  request-Post atyp c g =
      Post-bind (λ _ d. Greeted d) (Ends w) (Ends w) (read_target atyp) _ c
        (read_target-Post w atyp c g)
        (λ t d p.
          Post-bind (Read (hello ∷ [])) (Ends w) (Ends w) (read_full 2) _ d
            (Read-Greeted w 2 d (omega arith) p) (λ port e q. located-Post _ e q.1))

  dispatch-Post :
      (r : Bytes) (c : Conn)
      → Greeted c
      → Post (Ends w) (Ends w) (
          (if not (get_or r 0 0 == 5)
              then refuse 1
              else if get_or r 1 0 == 3
              then (λ d. stops associate d)
              else if not (get_or r 1 0 == 1)
              then refuse 7
              else request w s (get_or r 3 0))
            c)
  dispatch-Post r c g = elim (Bool-cases (get_or r 0 0 == 5)) [
    | inr e ↦ rw e (refuse-Post w (Ends w) 1 c (omega arith) (omega arith) g)
    | inl e ↦ rw e (elim (Bool-cases (get_or r 1 0 == 3)) [
      | inl f ↦ rw f (handed_over refl g.has_sent g.timed)
      | inr f ↦ rw f (elim (Bool-cases (get_or r 1 0 == 1)) [
        | inr k ↦ rw k (refuse-Post w (Ends w) 7 c (omega arith) (omega arith) g)
        | inl k ↦ rw k (request-Post (get_or r 3 0) c g)
      ])
    ])
  ]

  command-Post : (c : Conn) → Greeted c → Post (Ends w) (Ends w) (command w s c)
  unfolding command
  command-Post c g =
      Post-bind (Read (hello ∷ [])) (Ends w) (Ends w) (read_full 4) _ c
        (Read-Greeted w 4 c (omega arith) g) (λ r d p. dispatch-Post r d p.1)

  write-hello-Post : (c : Conn) → During [] c → Post (λ _ d. Greeted d) (Ends w) (write w hello c)
  unfolding write
  write-hello-Post c g = elim (Bool-cases (w.accepts c.sent hello)) [
    | inl e ↦ rw e (record { has_sent = rw g.has_sent; timed = g.timed; bytes = g.bytes })
    | inr e ↦ rw e (greeted refl (rw g.has_sent) g.timed)
  ]

  Read-silent : (n : ℕ) (c : Conn) → n ≤ 262 → During [] c → Post (Read []) (Ends w) (read_full n c)
  Read-silent n c h g = read_full-Post n [] c (Ends w) h g (λ d k. silent refl k.has_sent k.timed)

  greet-Post : (c : Conn) → During [] c → Post (λ _ d. Greeted d) (Ends w) (greet w s c)
  unfolding greet
  greet-Post c g =
      Post-bind (Read []) (λ _ d. Greeted d) (Ends w) (read_full 2) _ c
        (Read-silent 2 c (omega arith) g)
        (λ r d p. elim (Bool-cases (get_or r 0 0 == 5)) [
          | inr e ↦ rw e (silent refl (p.1).has_sent (p.1).timed)
          | inl e ↦ rw e (
              Post-bind (Read []) (λ _ d. Greeted d) (Ends w) (read_full (get_or r 1 0)) _ d
                (Read-silent (get_or r 1 0) d (omega (arith, get_or-lt r 1 p.0)) p.1)
                (λ _ d' q. write-hello-Post d' q.1))
        ])

  left-Outcome : (r : Step End) → Post (Ends w) (Ends w) r → Outcome w (left r).0 (left r).1
  left-Outcome (goes e c) h = h
  left-Outcome (stops e c) h = h

  -- Whatever bytes a client sends, the handler never reads outside of its buffer, and it ends in
  -- one of six ways: with nothing sent; after the method choice alone; after one error reply with
  -- a code from 1 to 8; with a success reply that could not be sent; handed over to the UDP half;
  -- or with a tunnel to an address that was dialled, after the success reply. The handshake
  -- deadline is cleared for a tunnel and in no other case: the UDP half gets a control connection
  -- that still has it, so that its wait for the client ends with the deadline at the latest.
  pub handle_socks_conn-Outcome :
      (input : Bytes)
      → All (λ v. v < 256) input
      → Outcome w (handle_socks_conn w s input).0 (handle_socks_conn w s input).1
  unfolding handle_socks_conn
  handle_socks_conn-Outcome input h = left-Outcome _ (
      Post-bind (λ _ d. Greeted d) (Ends w) (Ends w) (greet w s) (λ _. command w s)
        (record { unread = input; sent = []; deadline = true })
        (greet-Post _ (record { has_sent = refl; timed = refl; bytes = h }))
        (λ _ d g. command-Post d g))
