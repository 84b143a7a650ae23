-- ===== src/Socks/Associate/Steps.antt =====
-- socks.go, the loops of the UDP half: every step keeps what holds between them.
use urnetwork_client.Base.{
  ◌≡◌, refl, sym, inl, inr, List, [], ◌∷◌, ◌++◌, All-append, Option, none, some, arith, Bytes,
  Option-cases, subst,
}
use urnetwork_client.Socks.Associate.{
  Remote, Reading, waiting, stored, offered, Answering, resting, asks, took, ready, Loops, Move,
  from_client, client_loop, to_vpn, to_system, vpn_loop, system_loop, client_read, client_round,
  write_back, remote_read, remote_round, step, run, start,
}
use urnetwork_client.Socks.Associate.Kept.{
  sent_for, outgoing, outgoing-snoc, In, In-more, In-last, Known, Known-more, IsReply, IsReply-more,
  SentOut, at_none, at_stored, at_offered, Seen, Seen-more, InHand, InHand-more, Holds,
  Reading-cases,
}
use urnetwork_client.Socks.Datagram.{Relay, Outgoing, parse_datagram, reply_packet}
use urnetwork_client.Socks.Datagram.Header.{parse_datagram-ne_none}

module _ (r : Relay) where
  reads_next :
      (ds : List (Bytes × Bytes)) (out : List Outgoing) (c p : Bytes)
      → SentOut r waiting ds out
      → SentOut r (stored c p) (ds ++ ((c, p) ∷ [])) out
  reads_next _ _ c p (at_none ds) = at_stored ds c p

  offers :
      (ds : List (Bytes × Bytes)) (out : List Outgoing) (c p : Bytes)
      → SentOut r (stored c p) ds out
      → Known ds c × SentOut r (offered p) ds out
  offers _ _ _ _ (at_stored ds c p) = ((p, In-last ds (c, p)), at_offered ds c p)

  sends_out :
      (ds : List (Bytes × Bytes)) (out : List Outgoing) (p : Bytes)
      → SentOut r (offered p) ds out
      → SentOut r waiting ds (out ++ sent_for r p)
  sends_out _ _ _ (at_offered ds c p) =
      subst (SentOut r waiting (ds ++ ((c, p) ∷ []))) (outgoing-snoc r ds c p)
        (at_none (ds ++ ((c, p) ∷ [])))

  sent_as : (s : Loops) (l : Reading) → Holds r s → s.reading ≡ l → SentOut r l s.received s.out
  sent_as s l h e = subst (λ x. SentOut r x s.received s.out) e h.sent

  client_read-Holds : (s : Loops) (c p : Bytes) → Holds r s → Holds r (client_read s c p)
  unfolding client_read Seen
  client_read-Holds s c p h = elim (Reading-cases s.reading) [
    | inl e ↦
        let now = s.received ++ ((c, p) ∷ []) in
        let t : Loops = record s { reading = stored c p; last_client = some c; received = now } in
        let more = Known-more s.received ((c, p) ∷ []) in
        let same : client_read s c p ≡ t = ground (arith, e) in
        subst (Holds r) (sym same) (record {
          sent = reads_next s.received s.out c p (sent_as s waiting h e);
          last = (p, In-last s.received (c, p));
          queue = Seen-more s.received now s.queued more h.queue;
          vpn = InHand-more s.received now s.arrived s.arrived s.by_vpn more (λ x k. k) h.vpn;
          system =
              InHand-more s.received now s.arrived s.arrived s.by_system more (λ x k. k) h.system;
          back = IsReply-more s.received now s.arrived s.arrived s.back more (λ x k. k) h.back;
        })
    | inr (inl (d, q, e)) ↦
        let same : client_read s c p ≡ s = ground (arith, e) in subst (Holds r) (sym same) h
    | inr (inr (q, e)) ↦
        let same : client_read s c p ≡ s = ground (arith, e) in subst (Holds r) (sym same) h
  ]

  -- A step that succeeds and keeps what holds.
  unfoldable pub Goes : Option Loops → Type 0
  Goes o = (t : Loops) × (o ≡ some t) × Holds r t

  queued-Seen :
      (xs : List (Bytes × Bytes)) (c : Bytes) (o : Option Bytes)
      → Known xs c
      → Seen xs o
      → Seen xs (elim o [ none ↦ some c | some d ↦ some d ])
  unfolding Seen
  queued-Seen xs c none k h = k
  queued-Seen xs c (some d) k h = h

  client_round-Goes : (s : Loops) → Holds r s → Goes (client_round r s)
  unfolding client_round Goes sent_for
  client_round-Goes s h = elim (Reading-cases s.reading) [
    | inl e ↦ (s, ground (arith, e), h)
    | inr (inl (c, p, e)) ↦
        let k = offers s.received s.out c p (sent_as s (stored c p) h e) in
        (
          record s {
            reading = offered p;
            queued = elim s.queued [ none ↦ some c | some d ↦ some d ];
          },
          ground (arith, e),
          record {
            sent = k.1;
            last = h.last;
            queue = queued-Seen s.received c s.queued k.0 h.queue;
            vpn = h.vpn;
            system = h.system;
            back = h.back;
          },
        )
    | inr (inr (p, e)) ↦ elim (Option-cases (parse_datagram p)) [
      | inl q ↦ absurd (parse_datagram-ne_none p q)
      | inr (d, q) ↦ (
        record s { reading = waiting; out = s.out ++ sent_for r p },
        ground (arith, e, q),
        record {
          sent = sends_out s.received s.out p (sent_as s (offered p) h e);
          last = h.last;
          queue = h.queue;
          vpn = h.vpn;
          system = h.system;
          back = h.back;
        },
      )
    ]
  ]

  -- What holds behind a step of `sendBack`, with what it then has in hand.
  Answers : Loops × Answering → Type 0
  Answers (t, l) = Holds r t × InHand t.received t.arrived l

  remote_read-Answers :
      (s : Loops) (l : Answering) (f : Remote) (p : Bytes)
      → Holds r s
      → InHand s.received s.arrived l
      → Answers (remote_read s l f p)
  unfolding remote_read Answers InHand Seen
  remote_read-Answers s resting f p h k =
      let now = s.arrived ++ ((f, p) ∷ []) in
      let more = In-more s.arrived ((f, p) ∷ []) in
      (
        record {
          sent = h.sent;
          last = h.last;
          queue = h.queue;
          vpn = InHand-more s.received s.received s.arrived now s.by_vpn (λ c q. q) more h.vpn;
          system =
              InHand-more s.received s.received s.arrived now s.by_system (λ c q. q) more h.system;
          back = IsReply-more s.received s.received s.arrived now s.back (λ c q. q) more h.back;
        },
        in_hand s.last_client h.last,
      )
    where
      in_hand :
          (o : Option Bytes)
          → Seen s.received o
          → InHand s.received
              (s.arrived ++ ((f, p) ∷ []))
              (elim o [ none ↦ asks f p | some c ↦ ready c f p ])
      in_hand none q = In-last s.arrived (f, p)
      in_hand (some c) q = (q, In-last s.arrived (f, p))
  remote_read-Answers s (asks g q) f p h k = (h, k)
  remote_read-Answers s (took c g q) f p h k = (h, k)
  remote_read-Answers s (ready c g q) f p h k = (h, k)

  write_back-Holds :
      (s : Loops) (c : Bytes) (f : Remote) (p : Bytes)
      → Holds r s
      → Known s.received c
      → In s.arrived (f, p)
      → Holds r (write_back s c f p)
  unfolding write_back
  write_back-Holds s c none p h k a = h
  write_back-Holds s c (some (ip, port)) p h k a = record {
    sent = h.sent;
    last = h.last;
    queue = h.queue;
    vpn = h.vpn;
    system = h.system;
    back =
        All-append (IsReply s.received s.arrived) s.back ((c, reply_packet ip port p) ∷ []) h.back
          (record { client = k; ip = ip; port = port; payload = p; packet = a; header = refl }, tt);
  }

  remote_round-Answers :
      (s : Loops) (l : Answering)
      → Holds r s
      → InHand s.received s.arrived l
      → Answers (remote_round s l)
  unfolding remote_round Answers InHand Seen
  remote_round-Answers s resting h k = (h, k)
  remote_round-Answers s (asks f p) h k = elim (Option-cases s.queued) [
    | inl e ↦
        let same : remote_round s (asks f p) ≡ (s, resting) = ground (arith, e) in
        subst Answers (sym same) (h, tt)
    | inr (c, e) ↦
        let t : Loops = record s { queued = none } in
        let same : remote_round s (asks f p) ≡ (t, took c f p) = ground (arith, e) in
        subst Answers (sym same) (
          record {
            sent = h.sent;
            last = h.last;
            queue = tt;
            vpn = h.vpn;
            system = h.system;
            back = h.back;
          },
          (subst (Seen s.received) e h.queue, k),
        )
  ]
  remote_round-Answers s (took c f p) h k = (
    record {
      sent = h.sent;
      last = k.0;
      queue = h.queue;
      vpn = h.vpn;
      system = h.system;
      back = h.back;
    },
    k,
  )
  remote_round-Answers s (ready c f p) h k = (write_back-Holds s c f p h k.0 k.1, tt)

  by_vpn-Holds : (a : Loops × Answering) → Answers a → Holds r (record a.0 { by_vpn = a.1 })
  unfolding Answers
  by_vpn-Holds (t, l) (h, k) = record {
    sent = h.sent;
    last = h.last;
    queue = h.queue;
    vpn = k;
    system = h.system;
    back = h.back;
  }

  by_system-Holds : (a : Loops × Answering) → Answers a → Holds r (record a.0 { by_system = a.1 })
  unfolding Answers
  by_system-Holds (t, l) (h, k) = record {
    sent = h.sent;
    last = h.last;
    queue = h.queue;
    vpn = h.vpn;
    system = k;
    back = h.back;
  }

  step-Goes : (s : Loops) (m : Move) → Holds r s → Goes (step r s m)
  unfolding step Goes
  step-Goes s (from_client c p) h = (client_read s c p, refl, client_read-Holds s c p h)
  step-Goes s client_loop h = client_round-Goes s h
  step-Goes s (to_vpn f p) h =
      (_, refl, by_vpn-Holds _ (remote_read-Answers s s.by_vpn f p h h.vpn))
  step-Goes s (to_system f p) h =
      (_, refl, by_system-Holds _ (remote_read-Answers s s.by_system f p h h.system))
  step-Goes s vpn_loop h = (_, refl, by_vpn-Holds _ (remote_round-Answers s s.by_vpn h h.vpn))
  step-Goes s system_loop h =
      (_, refl, by_system-Holds _ (remote_round-Answers s s.by_system h h.system))

  pub run-Goes : (s : Loops) (ms : List Move) → Holds r s → Goes (run r s ms)
  unfolding run Goes
  run-Goes s [] h = (s, refl, h)
  run-Goes s (m ∷ ms) h =
      let (t, e, k) = step-Goes s m h in let (u, e', k') = run-Goes t ms k in (u, rw e e', k')

  pub start-Holds : Holds r start
  unfolding Seen InHand
  start-Holds = record {
    sent = unfold outgoing in at_none [];
    last = tt;
    queue = tt;
    vpn = tt;
    system = tt;
    back = tt;
  }
