-- ===== src/Dataplane/Stats/Reported.antt =====
-- What the lines on the counters say.
use urnetwork_client.Base.{ℕ, ◌+◌, ◌%◌, ◌≡◌, List, [], ◌∷◌, ◌++◌, some, Bytes, length}
use urnetwork_client.Base.Int.{u64_mod}
use urnetwork_client.Dataplane.{Filter}
use urnetwork_client.Dataplane.Delivery.{total}
use urnetwork_client.Dataplane.Stats.{
  Counts, Lane, idle, carried, counted, Live, Move, Moment, moves, ticks, move, run_moves,
  run_stats,
}

-- What a loop has carried, and its two counters.
data Side : Lane → List Bytes → ℕ → ℕ → Type 0 where
  rests :
      (ws : List Bytes) (n k : ℕ)
      → n ≡ length ws % u64_mod
      → k ≡ total ws % u64_mod
      → Side idle ws n k
  uncounted :
      (ws : List Bytes) (p : Bytes) (n k : ℕ)
      → n ≡ length ws % u64_mod
      → k ≡ total ws % u64_mod
      → Side (carried p) (ws ++ (p ∷ [])) n k
  unweighed :
      (ws : List Bytes) (p : Bytes) (n k : ℕ)
      → n ≡ (length ws + 1) % u64_mod
      → k ≡ total ws % u64_mod
      → Side (counted p) (ws ++ (p ∷ [])) n k

record Accounted (s : Live) : Type 0 where
  into : Side s.incoming s.written s.pkts_in s.bytes_in
  out : Side s.outgoing s.sent s.pkts_out s.bytes_out

-- All of what was carried, or all but the last packet.
pub data Near (ps : List Bytes) : List Bytes → Type 0 where
  all_of : Near ps ps
  but_one : (p : Bytes) → Near ps (ps ++ (p ∷ []))

-- A number of packets, and one of bytes, in 64 bits.
abbrev pub Counted : List Bytes → ℕ → Type 0
Counted ws n = (ps : List Bytes) × Near ps ws × (n ≡ length ps % u64_mod)

abbrev pub Weighed : List Bytes → ℕ → Type 0
Weighed ws n = (ps : List Bytes) × Near ps ws × (n ≡ total ps % u64_mod)

-- A move from `s` that keeps the books.
record Moved (f : Filter) (s : Live) (m : Move) : Type 0 where
  next : Live
  steps : move f s m ≡ some next
  books : Accounted next

-- The moves from `s` end without a panic, and keep the books.
Kept : Filter → Live → List Move → Type 0
Kept f s ms = (t : Live) × (run_moves f s ms ≡ some t) × Accounted t

-- The lines of a course from `s`. In each, a number of packets is that of all packets, or all but the
-- last one, which the loop had written or sent when the number was loaded, and a number of bytes is
-- that of all of them, or all but the last one, when it was loaded.
pub data Reports (f : Filter) : Live → List Moment → List Counts → Type 0 where
  ends : (s : Live) → Reports f s [] []
  goes_on :
      (s t : Live) (m : Move) (ms : List Moment) (ls : List Counts)
      → move f s m ≡ some t
      → Reports f t ms ls
      → Reports f s (moves m ∷ ms) ls
  reports :
      (s t u v : Live) (a b c : List Move) (ms : List Moment) (l : Counts) (ls : List Counts)
      → run_moves f s a ≡ some t
      → run_moves f t b ≡ some u
      → run_moves f u c ≡ some v
      → Counted s.written l.pkts_in
      → Weighed t.written l.bytes_in
      → Counted u.sent l.pkts_out
      → Weighed v.sent l.bytes_out
      → Reports f v ms ls
      → Reports f s (ticks a b c ∷ ms) (l ∷ ls)

pub Reported : Filter → Live → List Moment → Type 0
Reported f s ms = (r : Live × List Counts) × (run_stats f s ms ≡ some r) × Reports f s ms r.1
