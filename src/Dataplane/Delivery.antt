-- ===== src/Dataplane/Delivery.antt =====
-- What the two loops of `vpnRunCore` deliver and count, for every order of their events.
use native.Mathlib.Nat.{add-zero}
use urnetwork_client.Base.{
  ℕ, ◌+◌, ◌/◌, ◌%◌, ◌≡◌, refl, ap, sym, ◌∙◌, inl, inr, Bool, true, false, not, ◌&&◌, List, [], ◌∷◌,
  ◌++◌, append-nil, append_assoc, Option, none, some, arith, Bytes, length, length-append, get_or,
  ltb, ◌==◌, if◌then◌else◌, Bool-cases,
}
use urnetwork_client.Base.Int.{u64_mod}
use urnetwork_client.Inbound.{should_drop_inbound}
use urnetwork_client.Inbound.Policy.{should_drop_inbound_total}
use urnetwork_client.Dataplane.{
  Filter, Plane, add_u64, write_tun, receive, forward, Event, from_provider, from_tun, step, run,
}

-- Does a packet from the provider reach the TUN?
unfoldable pub passes : Filter → Bytes → Bool
passes f p =
    not (ltb 0 (length p) && (get_or p 0 0 / 16 == 6 && not f.enable_ipv6))
    && not (f.block_new && (elim (should_drop_inbound p f.allow) [ some b ↦ b | none ↦ true ]))

-- What reaches the TUN, and what reaches the provider, in order.
unfoldable pub delivered : Filter → List Event → List Bytes
delivered f [] = []
delivered f (from_provider p ∷ es) =
    let rest = delivered f es in if passes f p then p ∷ rest else rest
delivered f (from_tun p ∷ es) = delivered f es

pub forwarded : List Event → List Bytes
forwarded [] = []
forwarded (from_provider p ∷ es) = forwarded es
forwarded (from_tun p ∷ es) = let rest = forwarded es in if ltb 0 (length p) then p ∷ rest else rest

unfoldable pub total : List Bytes → ℕ
total [] = 0
total (p ∷ ps) = length p + total ps

-- The state after some packets more in both directions.
abbrev pub after : Plane → List Bytes → List Bytes → Plane
after s ins outs = record {
  pkts_in = add_u64 s.pkts_in (length ins);
  bytes_in = add_u64 s.bytes_in (total ins);
  pkts_out = add_u64 s.pkts_out (length outs);
  bytes_out = add_u64 s.bytes_out (total outs);
  written = s.written ++ ins;
  sent = s.sent ++ outs;
}

receive-passes :
    (f : Filter) (s : Plane) (p : Bytes)
    → receive f s p ≡ some (if passes f p then write_tun s p else s)
unfolding receive passes
receive-passes f s p = let (b, e) = should_drop_inbound_total p f.allow in ground (arith, e)

-- A counter holds a 64-bit word, if it is there.
abbrev pub IsWord : Option ℕ → Type 0
IsWord none = Unit {0}
IsWord (some n) = n % u64_mod ≡ n

pub record IsPlane (s : Plane) : Type 0 where
  pub pkts_in : IsWord s.pkts_in
  pub bytes_in : IsWord s.bytes_in
  pub pkts_out : IsWord s.pkts_out
  pub bytes_out : IsWord s.bytes_out

add_u64-zero : (c : Option ℕ) → IsWord c → add_u64 c 0 ≡ c
unfolding add_u64
add_u64-zero none h = refl
add_u64-zero (some n) h = ap some (omega arith)

add_u64-add_u64 : (c : Option ℕ) (a b : ℕ) → add_u64 (add_u64 c a) b ≡ add_u64 c (a + b)
unfolding add_u64
add_u64-add_u64 none a b = refl
add_u64-add_u64 (some n) a b = ap some (omega arith)

add_u64-IsWord : (c : Option ℕ) (a : ℕ) → IsWord (add_u64 c a)
unfolding add_u64
add_u64-IsWord none a = tt
add_u64-IsWord (some n) a = omega arith

write_tun-after : (s : Plane) (p : Bytes) → IsPlane s → write_tun s p ≡ after s (p ∷ []) []
unfolding write_tun total
write_tun-after s p h = λ i. record {
  pkts_in = add_u64 s.pkts_in 1;
  bytes_in = add_u64 s.bytes_in (sym (add-zero (length p)) i);
  pkts_out = sym (add_u64-zero s.pkts_out h.pkts_out) i;
  bytes_out = sym (add_u64-zero s.bytes_out h.bytes_out) i;
  written = s.written ++ (p ∷ []);
  sent = sym (append-nil s.sent) i;
}

after_nothing : (s : Plane) → IsPlane s → s ≡ after s [] []
unfolding total
after_nothing s h = λ i. record {
  pkts_in = sym (add_u64-zero s.pkts_in h.pkts_in) i;
  bytes_in = sym (add_u64-zero s.bytes_in h.bytes_in) i;
  pkts_out = sym (add_u64-zero s.pkts_out h.pkts_out) i;
  bytes_out = sym (add_u64-zero s.bytes_out h.bytes_out) i;
  written = sym (append-nil s.written) i;
  sent = sym (append-nil s.sent) i;
}

after_sent :
    (s : Plane) (p : Bytes)
    → IsPlane s
    → ltb 0 (length p) ≡ true
    → forward s p ≡ after s [] (p ∷ [])
unfolding total forward
after_sent s p h e = rw e λ i. record {
  pkts_in = sym (add_u64-zero s.pkts_in h.pkts_in) i;
  bytes_in = sym (add_u64-zero s.bytes_in h.bytes_in) i;
  pkts_out = add_u64 s.pkts_out 1;
  bytes_out = add_u64 s.bytes_out (sym (add-zero (length p)) i);
  written = sym (append-nil s.written) i;
  sent = s.sent ++ (p ∷ []);
}

total-append : (ps qs : List Bytes) → total (ps ++ qs) ≡ total ps + total qs
unfolding total
total-append [] qs = omega arith
total-append (p ∷ ps) qs = omega (arith, total-append ps qs)

pub total-snoc : (ps : List Bytes) (p : Bytes) → total (ps ++ (p ∷ [])) ≡ total ps + length p
unfolding total
total-snoc ps p = omega (arith, total-append ps (p ∷ []))

pub after-after :
    (s : Plane) (i j o u : List Bytes) → after (after s i o) j u ≡ after s (i ++ j) (o ++ u)
after-after s i j o u = simp (add_u64-add_u64, append_assoc, total-append, length-append)

pub after-IsPlane : (s : Plane) (i o : List Bytes) → IsPlane (after s i o)
after-IsPlane s i o = record {
  pkts_in = add_u64-IsWord s.pkts_in _;
  bytes_in = add_u64-IsWord s.bytes_in _;
  pkts_out = add_u64-IsWord s.pkts_out _;
  bytes_out = add_u64-IsWord s.bytes_out _;
}

pub step-after :
    (f : Filter) (s : Plane) (e : Event)
    → IsPlane s
    → step f s e ≡ some (after s (delivered f (e ∷ [])) (forwarded (e ∷ [])))
unfolding step delivered forwarded forward
step-after f s (from_provider p) h = elim (Bool-cases (passes f p)) [
  | inl e ↦ receive-passes f s p ∙ rw e (ap some (write_tun-after s p h))
  | inr e ↦ receive-passes f s p ∙ rw e (ap some (after_nothing s h))
]
step-after f s (from_tun p) h = elim (Bool-cases (ltb 0 (length p))) [
  | inl e ↦ ap some (after_sent s p h e) ∙ rw e
  | inr e ↦ rw e (ap some (after_nothing s h))
]

delivered-cons :
    (f : Filter) (e : Event) (es : List Event)
    → delivered f (e ∷ es) ≡ delivered f (e ∷ []) ++ delivered f es
unfolding delivered
delivered-cons f (from_provider p) es = ground arith
delivered-cons f (from_tun p) es = refl

forwarded-cons :
    (e : Event) (es : List Event) → forwarded (e ∷ es) ≡ forwarded (e ∷ []) ++ forwarded es
unfolding forwarded
forwarded-cons (from_provider p) es = refl
forwarded-cons (from_tun p) es = ground arith

pub delivered-append :
    (f : Filter) (es fs : List Event) → delivered f (es ++ fs) ≡ delivered f es ++ delivered f fs
unfolding delivered
delivered-append f [] fs = refl
delivered-append f (e ∷ es) fs =
    rw (delivered-cons f e (es ++ fs), delivered-cons f e es, delivered-append f es fs)
      (sym (append_assoc (delivered f (e ∷ [])) (delivered f es) (delivered f fs)))

pub forwarded-append : (es fs : List Event) → forwarded (es ++ fs) ≡ forwarded es ++ forwarded fs
unfolding forwarded
forwarded-append [] fs = refl
forwarded-append (e ∷ es) fs =
    rw (forwarded-cons e (es ++ fs), forwarded-cons e es, forwarded-append es fs)
      (sym (append_assoc (forwarded (e ∷ [])) (forwarded es) (forwarded fs)))

-- For every order of the two loops' events a run ends without a panic, and its state is the start
-- with what passed the filter written to the TUN in order, every nonempty packet of the TUN sent
-- in order, and all four counters advanced by the packets and bytes carried, modulo 2^64.
pub run-after :
    (f : Filter) (s : Plane) (es : List Event)
    → IsPlane s
    → run f s es ≡ some (after s (delivered f es) (forwarded es))
unfolding run
run-after f s [] h = unfold delivered forwarded in ap some (after_nothing s h)
run-after f s (e ∷ es) h =
    rw (step-after f s e h, delivered-cons f e es, forwarded-cons e es)
      (run-after f (after s (delivered f (e ∷ [])) (forwarded (e ∷ []))) es (after-IsPlane s _ _)
        ∙ ap some (after-after s _ _ _ _))

-- Without `--enable_ipv6` no IPv6 packet reaches the TUN.
pub passes_ipv6 :
    (f : Filter) (x : ℕ) (p : Bytes) → f.enable_ipv6 ≡ false → x / 16 ≡ 6 → passes f (x ∷ p) ≡ false
unfolding passes
passes_ipv6 f x p h e = ground arith
