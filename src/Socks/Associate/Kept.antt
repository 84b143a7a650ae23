-- ===== src/Socks/Associate/Kept.antt =====
-- socks.go, the loops of the UDP half: what holds between their steps.
use urnetwork_client.Base.{
  ℕ, ◌≡◌, refl, ap, sym, ◌∙◌, ◌⊎◌, inl, inr, List, [], ◌∷◌, ◌++◌, append_assoc, append-nil, All,
  Option, none, some, Bytes, ◌>>=◌,
}
use urnetwork_client.Socks.Associate.{
  Remote, Reading, waiting, stored, offered, Answering, resting, asks, took, ready, Loops,
}
use urnetwork_client.Socks.Datagram.{Relay, Outgoing, parse_datagram, route_datagram, reply_packet}

-- What a datagram sends out.
unfoldable pub sent_for : Relay → Bytes → List Outgoing
sent_for r packet = elim (parse_datagram packet >>= route_datagram r) [
  | none ↦ []
  | some o ↦ o ∷ []
]

-- What some datagrams send out, in order.
unfoldable pub outgoing : Relay → List (Bytes × Bytes) → List Outgoing
outgoing r [] = []
outgoing r ((client, packet) ∷ ds) = sent_for r packet ++ outgoing r ds

pub outgoing-snoc :
    (r : Relay) (ds : List (Bytes × Bytes)) (c p : Bytes)
    → outgoing r (ds ++ ((c, p) ∷ [])) ≡ outgoing r ds ++ sent_for r p
unfolding outgoing
outgoing-snoc r [] c p = append-nil (sent_for r p)
outgoing-snoc r ((d, q) ∷ ds) c p =
    ap (◌++◌ (sent_for r q)) (outgoing-snoc r ds c p)
    ∙ sym (append_assoc (sent_for r q) (outgoing r ds) (sent_for r p))

-- An element of a list.
abbrev pub In : {A : Type 0} → List A → A → Type 0
In {A} xs x = (before : List A) × (behind : List A) × (xs ≡ before ++ (x ∷ behind))

pub In-more : {A : Type 0} (xs ys : List A) (x : A) → In xs x → In (xs ++ ys) x
In-more xs ys x (a, b, e) = (a, b ++ ys, rw e (append_assoc a (x ∷ b) ys))

pub In-last : {A : Type 0} (xs : List A) (x : A) → In (xs ++ (x ∷ [])) x
In-last xs x = (xs, [], refl)

-- A client whose datagram was read.
abbrev pub Known : List (Bytes × Bytes) → Bytes → Type 0
Known received c = (packet : Bytes) × In received (c, packet)

pub Known-more : (xs ys : List (Bytes × Bytes)) (c : Bytes) → Known xs c → Known (xs ++ ys) c
Known-more xs ys c (p, h) = (p, In-more xs ys (c, p) h)

-- A reply goes to such a client, and holds a packet that has arrived, with the header of the address
-- that it came from.
pub record IsReply (received : List (Bytes × Bytes)) (arrived : List (Remote × Bytes))
    (reply : Bytes × Bytes) : Type 0 where
  pub client : Known received reply.0
  pub ip : Bytes
  pub port : ℕ
  pub payload : Bytes
  pub packet : In arrived (some (ip, port), payload)
  pub header : reply.1 ≡ reply_packet ip port payload

-- More is read.
abbrev pub Known-in : List (Bytes × Bytes) → List (Bytes × Bytes) → Type 0
Known-in xs ys = (c : Bytes) → Known xs c → Known ys c

abbrev pub Arrived-in : List (Remote × Bytes) → List (Remote × Bytes) → Type 0
Arrived-in us vs = (x : Remote × Bytes) → In us x → In vs x

pub IsReply-more :
    (xs ys : List (Bytes × Bytes)) (us vs : List (Remote × Bytes)) (ps : List (Bytes × Bytes))
    → Known-in xs ys
    → Arrived-in us vs
    → All (IsReply xs us) ps
    → All (IsReply ys vs) ps
IsReply-more xs ys us vs [] k a h = tt
IsReply-more xs ys us vs (p ∷ ps) k a (h, hs) = (
  record {
    client = k p.0 h.client;
    ip = h.ip;
    port = h.port;
    payload = h.payload;
    packet = a _ h.packet;
    header = h.header;
  },
  IsReply-more xs ys us vs ps k a hs,
)

-- What the loop over the client's socket has sent out of what it has read: all, but for the datagram
-- that it is at.
pub data SentOut (r : Relay) : Reading → List (Bytes × Bytes) → List Outgoing → Type 0 where
  at_none : (ds : List (Bytes × Bytes)) → SentOut r waiting ds (outgoing r ds)
  at_stored :
      (ds : List (Bytes × Bytes)) (c p : Bytes)
      → SentOut r (stored c p) (ds ++ ((c, p) ∷ [])) (outgoing r ds)
  at_offered :
      (ds : List (Bytes × Bytes)) (c p : Bytes)
      → SentOut r (offered p) (ds ++ ((c, p) ∷ [])) (outgoing r ds)

-- A client that may be there.
unfoldable pub Seen : List (Bytes × Bytes) → Option Bytes → Type 0
Seen received none = Unit {0}
Seen received (some c) = Known received c

pub Seen-more :
    (xs ys : List (Bytes × Bytes)) (o : Option Bytes) → Known-in xs ys → Seen xs o → Seen ys o
unfolding Seen
Seen-more xs ys none k h = tt
Seen-more xs ys (some c) k h = k c h

-- What a `sendBack` has in hand.
unfoldable pub InHand : List (Bytes × Bytes) → List (Remote × Bytes) → Answering → Type 0
InHand received arrived resting = Unit {0}
InHand received arrived (asks f p) = In arrived (f, p)
InHand received arrived (took c f p) = Known received c × In arrived (f, p)
InHand received arrived (ready c f p) = Known received c × In arrived (f, p)

pub InHand-more :
    (xs ys : List (Bytes × Bytes)) (us vs : List (Remote × Bytes)) (l : Answering)
    → Known-in xs ys
    → Arrived-in us vs
    → InHand xs us l
    → InHand ys vs l
unfolding InHand
InHand-more xs ys us vs resting k a h = tt
InHand-more xs ys us vs (asks f p) k a h = a (f, p) h
InHand-more xs ys us vs (took c f p) k a h = (k c h.0, a (f, p) h.1)
InHand-more xs ys us vs (ready c f p) k a h = (k c h.0, a (f, p) h.1)

pub record Holds (r : Relay) (s : Loops) : Type 0 where
  pub sent : SentOut r s.reading s.received s.out
  pub last : Seen s.received s.last_client
  pub queue : Seen s.received s.queued
  pub vpn : InHand s.received s.arrived s.by_vpn
  pub system : InHand s.received s.arrived s.by_system
  pub back : All (IsReply s.received s.arrived) s.back

pub Reading-cases :
    (l : Reading)
    → (l ≡ waiting)
      ⊎ (((c : Bytes) × (p : Bytes) × (l ≡ stored c p)) ⊎ ((p : Bytes) × (l ≡ offered p)))
Reading-cases waiting = inl refl
Reading-cases (stored c p) = inr (inl (c, p, refl))
Reading-cases (offered p) = inr (inr (p, refl))

pub SentOut-outgoing :
    (r : Relay) (ds : List (Bytes × Bytes)) (out : List Outgoing)
    → SentOut r waiting ds out
    → out ≡ outgoing r ds
SentOut-outgoing r _ _ (at_none ds) = refl
