-- ===== src/Socks/Associate/Answered.antt =====
-- socks.go, the loops of the UDP half: once a client is known, every packet of a UDP address is
-- answered.
use urnetwork_client.Base.{
  ℕ, ◌+◌, ◌≡◌, refl, sym, ◌∙◌, inl, inr, List, [], ◌∷◌, ◌++◌, length, length-append, subst, Option,
  none, some, arith, Bytes, Option-cases,
}
use urnetwork_client.Socks.Datagram.{Relay, parse_datagram, route_datagram, reply_packet}
use urnetwork_client.Socks.Associate.{
  Remote, waiting, stored, offered, Answering, resting, took, ready, Loops, Move, from_client,
  client_loop, to_vpn, to_system, vpn_loop, system_loop, client_read, client_round, write_back,
  remote_read, remote_round, step, run, start,
}
use urnetwork_client.Socks.Associate.Kept.{Reading-cases}

pub is_udp : Remote → ℕ
is_udp none = 0
is_udp (some _) = 1

-- How many packets came from a UDP address.
pub udps : List (Remote × Bytes) → ℕ
udps [] = 0
udps ((f, p) ∷ xs) = is_udp f + udps xs

udps-snoc :
    (xs : List (Remote × Bytes)) (f : Remote) (p : Bytes)
    → udps (xs ++ ((f, p) ∷ [])) ≡ udps xs + is_udp f
unfolding udps
udps-snoc [] f p = omega arith
udps-snoc ((g, q) ∷ xs) f p = omega (arith, udps-snoc xs f p)

-- A `sendBack` that is past the search for a client, with so many packets to answer.
pub data Past : Answering → ℕ → Type 0 where
  at_rest : Past resting 0
  past_channel : (c : Bytes) (f : Remote) (p : Bytes) → Past (took c f p) (is_udp f)
  past_load : (c : Bytes) (f : Remote) (p : Bytes) → Past (ready c f p) (is_udp f)

-- A client is known, and all packets but so many are answered, counted from `a` packets and `b`
-- replies on.
pub record Settled (a b : ℕ) (s : Loops) : Type 0 where
  pub known : (c : Bytes) × (s.last_client ≡ some c)
  pub on_vpn : ℕ
  pub on_system : ℕ
  pub vpn : Past s.by_vpn on_vpn
  pub system : Past s.by_system on_system
  pub count : length s.back + on_vpn + on_system + a ≡ udps s.arrived + b

-- A step of a `sendBack` which had `n` packets to answer.
record Tally (s : Loops) (n : ℕ) (t : Loops) (l : Answering) : Type 0 where
  known : (c : Bytes) × (t.last_client ≡ some c)
  left : ℕ
  past : Past l left
  count : length t.back + left + udps s.arrived ≡ length s.back + n + udps t.arrived
  vpn : t.by_vpn ≡ s.by_vpn
  system : t.by_system ≡ s.by_system

Tallies : Loops → ℕ → Loops × Answering → Type 0
Tallies s n (t, l) = Tally s n t l

read_lem :
    (s : Loops) (l : Answering) (n : ℕ) (f : Remote) (p : Bytes)
    → (c : Bytes) × (s.last_client ≡ some c)
    → Past l n
    → Tallies s n (remote_read s l f p)
unfolding Tallies remote_read
read_lem s _ _ f p (c, e) at_rest =
    let t : Loops = record s { arrived = s.arrived ++ ((f, p) ∷ []) } in
    let same : remote_read s resting f p ≡ (t, ready c f p) = ground (arith, e) in
    subst (Tallies s 0) (sym same) (record {
      known = (c, e);
      left = is_udp f;
      past = past_load c f p;
      count = omega (arith, udps-snoc s.arrived f p);
      vpn = refl;
      system = refl;
    })
read_lem s _ _ f p k (past_channel c g q) = record {
  known = k;
  left = is_udp g;
  past = past_channel c g q;
  count = refl;
  vpn = refl;
  system = refl;
}
read_lem s _ _ f p k (past_load c g q) = record {
  known = k;
  left = is_udp g;
  past = past_load c g q;
  count = refl;
  vpn = refl;
  system = refl;
}

round_lem :
    (s : Loops) (l : Answering) (n : ℕ)
    → (c : Bytes) × (s.last_client ≡ some c)
    → Past l n
    → Tallies s n (remote_round s l)
unfolding Tallies remote_round is_udp write_back
round_lem s _ _ k at_rest = record {
  known = k;
  left = 0;
  past = at_rest;
  count = refl;
  vpn = refl;
  system = refl;
}
round_lem s _ _ k (past_channel c f p) = record {
  known = (c, refl);
  left = is_udp f;
  past = past_load c f p;
  count = refl;
  vpn = refl;
  system = refl;
}
round_lem s _ _ k (past_load c none p) = record {
  known = k;
  left = 0;
  past = at_rest;
  count = omega arith;
  vpn = refl;
  system = refl;
}
round_lem s _ _ k (past_load c (some (ip, port)) p) = record {
  known = k;
  left = 0;
  past = at_rest;
  count = omega (arith, length-append s.back ((c, reply_packet ip port p) ∷ []));
  vpn = refl;
  system = refl;
}

by_vpn-Settled :
    (a b : ℕ) (s : Loops) (r : Loops × Answering) (h : Settled a b s)
    → Tallies s h.on_vpn r
    → Settled a b (record r.0 { by_vpn = r.1 })
unfolding Tallies
by_vpn-Settled a b s (t, l) h k = record {
  known = k.known;
  on_vpn = k.left;
  on_system = h.on_system;
  vpn = k.past;
  system = subst (λ x. Past x h.on_system) (sym k.system) h.system;
  count = omega (arith, k.count, h.count);
}

by_system-Settled :
    (a b : ℕ) (s : Loops) (r : Loops × Answering) (h : Settled a b s)
    → Tallies s h.on_system r
    → Settled a b (record r.0 { by_system = r.1 })
unfolding Tallies
by_system-Settled a b s (t, l) h k = record {
  known = k.known;
  on_vpn = h.on_vpn;
  on_system = k.left;
  vpn = subst (λ x. Past x h.on_vpn) (sym k.vpn) h.vpn;
  system = k.past;
  count = omega (arith, k.count, h.count);
}

read-Settled : (a b : ℕ) (s : Loops) (c p : Bytes) → Settled a b s → Settled a b (client_read s c p)
unfolding client_read
read-Settled a b s c p h = elim (Reading-cases s.reading) [
  | inl e ↦
      let t : Loops = record s {
        reading = stored c p;
        last_client = some c;
        received = s.received ++ ((c, p) ∷ []);
      } in
      let same : client_read s c p ≡ t = ground (arith, e) in
      subst (Settled a b) (sym same) (record {
        known = (c, refl);
        on_vpn = h.on_vpn;
        on_system = h.on_system;
        vpn = h.vpn;
        system = h.system;
        count = h.count;
      })
  | inr (inl (d, q, e)) ↦
      let same : client_read s c p ≡ s = ground (arith, e) in subst (Settled a b) (sym same) h
  | inr (inr (q, e)) ↦
      let same : client_read s c p ≡ s = ground (arith, e) in subst (Settled a b) (sym same) h
]

-- The other steps of the client's loop leave the replies alone.
record Alike (s t : Loops) : Type 0 where
  last : t.last_client ≡ s.last_client
  vpn : t.by_vpn ≡ s.by_vpn
  system : t.by_system ≡ s.by_system
  back : t.back ≡ s.back
  arrived : t.arrived ≡ s.arrived

round_lem-Alike : (r : Relay) (s t : Loops) → client_round r s ≡ some t → Alike s t
unfolding client_round
round_lem-Alike r s t e = elim (Reading-cases s.reading) [
  | inl q ↦ alike s (ground (arith, q, e)) refl refl refl refl refl
  | inr (inl (c, p, q)) ↦
      alike
        (record s {
          reading = offered p;
          queued = elim s.queued [ none ↦ some c | some d ↦ some d ];
        })
        (ground (arith, q, e)) refl refl refl refl refl
  | inr (inr (p, q)) ↦ elim (Option-cases (parse_datagram p)) [
    | inl k ↦ absurd (ground (arith, q, k, e))
    | inr (d, k) ↦
        alike
          (record s {
            reading = waiting;
            out = s.out ++ (elim (route_datagram r d) [ none ↦ [] | some o ↦ o ∷ [] ]);
          })
          (ground (arith, q, k, e)) refl refl refl refl refl
  ]
]
  where
    alike :
        (u : Loops)
        → u ≡ t
        → u.last_client ≡ s.last_client
        → u.by_vpn ≡ s.by_vpn
        → u.by_system ≡ s.by_system
        → u.back ≡ s.back
        → u.arrived ≡ s.arrived
        → Alike s t
    alike u h a b c d g =
        subst (Alike s) h (record { last = a; vpn = b; system = c; back = d; arrived = g })

Alike-Settled : (a b : ℕ) (s t : Loops) → Alike s t → Settled a b s → Settled a b t
Alike-Settled a b s t k h = record {
  known = (h.known.0, k.last ∙ h.known.1);
  on_vpn = h.on_vpn;
  on_system = h.on_system;
  vpn = subst (λ x. Past x h.on_vpn) (sym k.vpn) h.vpn;
  system = subst (λ x. Past x h.on_system) (sym k.system) h.system;
  count = rw (k.back, k.arrived) h.count;
}

some-equal : {A : Type 0} (x y : A) → Option.some x ≡ some y → x ≡ y
some-equal x y e = cc

step-Settled :
    (r : Relay) (a b : ℕ) (s t : Loops) (m : Move)
    → step r s m ≡ some t
    → Settled a b s
    → Settled a b t
unfolding step
step-Settled r a b s t (from_client c p) e h =
    subst (Settled a b) (some-equal _ _ e) (read-Settled a b s c p h)
step-Settled r a b s t client_loop e h = Alike-Settled a b s t (round_lem-Alike r s t e) h
step-Settled r a b s t (to_vpn f p) e h =
    subst (Settled a b) (some-equal _ _ e)
      (by_vpn-Settled a b s _ h (read_lem s s.by_vpn h.on_vpn f p h.known h.vpn))
step-Settled r a b s t (to_system f p) e h =
    subst (Settled a b) (some-equal _ _ e)
      (by_system-Settled a b s _ h (read_lem s s.by_system h.on_system f p h.known h.system))
step-Settled r a b s t vpn_loop e h =
    subst (Settled a b) (some-equal _ _ e)
      (by_vpn-Settled a b s _ h (round_lem s s.by_vpn h.on_vpn h.known h.vpn))
step-Settled r a b s t system_loop e h =
    subst (Settled a b) (some-equal _ _ e)
      (by_system-Settled a b s _ h (round_lem s s.by_system h.on_system h.known h.system))

pub run-Settled :
    (r : Relay) (a b : ℕ) (s t : Loops) (ms : List Move)
    → run r s ms ≡ some t
    → Settled a b s
    → Settled a b t
unfolding run
run-Settled r a b s t [] e h = subst (Settled a b) (some-equal _ _ e) h
run-Settled r a b s t (m ∷ ms) e h = elim (Option-cases (step r s m)) [
  | inl q ↦ absurd (ground (arith, q, e))
  | inr (u, q) ↦ run-Settled r a b u t ms (ground (arith, q, e)) (step-Settled r a b s u m q h)
]

-- Behind a client's datagram at the start.
pub first-Settled : (client packet : Bytes) → Settled 0 0 (client_read start client packet)
unfolding client_read udps
first-Settled client packet = record {
  known = (client, refl);
  on_vpn = 0;
  on_system = 0;
  vpn = at_rest;
  system = at_rest;
  count = refl;
}
