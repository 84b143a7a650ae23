-- ===== src/Dataplane/Stats.antt =====
-- vpn_core.go: the periodic line on the four counters of `vpnRunCore`. Its goroutine loads them one
-- after the other while the two packet loops go on, which write a packet, count it and add its bytes
-- one after the other too. The connect library is taken to hand on one packet at a time.
pub mod Reported
use urnetwork_client.Base.{
  ℕ, ◌+◌, ◌/◌, ◌%◌, Bool, true, false, not, ◌&&◌, List, [], ◌∷◌, ◌++◌, Option, none, some, ◌>>=◌,
  Bytes, length, get_or, ltb, ◌==◌, if◌then◌else◌,
}
use urnetwork_client.Base.Int.{is_positive, u64_mod}
use urnetwork_client.Config.{VpnConfig}
use urnetwork_client.Dataplane.{Filter, Plane}
use urnetwork_client.Inbound.{should_drop_inbound}
use urnetwork_client.Logger.{LogLevel, info, is_enabled}

-- The numbers of a line.
pub record Counts : Type 0 where
  pub pkts_in : ℕ
  pub bytes_in : ℕ
  pub pkts_out : ℕ
  pub bytes_out : ℕ

-- Where a packet loop is: between two packets, behind the write of one, or behind counting it.
pub data Lane : Type 0 where
  idle : Lane
  carried counted : Bytes → Lane

-- The two loops with the four counters, which both callers give, and what was written to the TUN and
-- sent to the provider.
pub record Live : Type 0 where
  pub incoming : Lane
  pub outgoing : Lane
  pub pkts_in : ℕ
  pub bytes_in : ℕ
  pub pkts_out : ℕ
  pub bytes_out : ℕ
  pub written : List Bytes
  pub sent : List Bytes

-- A packet comes for one of the loops, or the loop goes on by one step. A packet that comes while the
-- loop has another one waits.
pub data Move : Type 0 where
  arrives reads : Bytes → Move
  receiver sender : Move

-- A move, or a tick, with the moves between its first load and the second, the second and the third,
-- and the third and the fourth.
pub data Moment : Type 0 where
  moves : Move → Moment
  ticks : List Move → List Move → List Move → Moment

-- The counters where the session starts.
abbrev pub new_plane : Plane
new_plane = record {
  pkts_in = some 0;
  bytes_in = some 0;
  pkts_out = some 0;
  bytes_out = some 0;
  written = [];
  sent = [];
}

abbrev pub new_live : Live
new_live = record {
  incoming = idle;
  outgoing = idle;
  pkts_in = 0;
  bytes_in = 0;
  pkts_out = 0;
  bytes_out = 0;
  written = [];
  sent = [];
}

abbrev is_there : Option ℕ → Bool
is_there none = false
is_there (some _) = Bool.true

-- Is the goroutine started?
unfoldable pub has_stats : VpnConfig → LogLevel → Plane → Bool
has_stats cfg level s =
    is_positive cfg.stats_interval
    && (is_enabled info level
        && (is_there s.pkts_in
            && (is_there s.bytes_in && (is_there s.pkts_out && is_there s.bytes_out))))

-- The tests of `receive`: is the packet written? `none` is a panic.
unfoldable pub takes : Filter → Bytes → Option Bool
takes f packet =
    if ltb 0 (length packet) && (get_or packet 0 0 / 16 == 6 && not f.enable_ipv6)
    then some false
    else if f.block_new
    then (should_drop_inbound packet f.allow >>= λ dropped. some (not dropped))
    else some true

-- One step of a loop.
unfoldable pub move : Filter → Live → Move → Option Live
move f s (arrives packet) = elim s.incoming [
  | idle ↦ takes f packet >>= λ b. some (
      if b then record s { incoming = carried packet; written = s.written ++ (packet ∷ []) } else s)
  | carried _ ↦ some s
  | counted _ ↦ some s
]
move f s receiver = some (elim s.incoming [
  | idle ↦ s
  | carried p ↦ record s { incoming = counted p; pkts_in = (s.pkts_in + 1) % u64_mod }
  | counted p ↦ record s { incoming = idle; bytes_in = (s.bytes_in + length p) % u64_mod }
])
move f s (reads packet) = some (elim s.outgoing [
  | idle ↦
      (if ltb 0 (length packet)
        then record s { outgoing = carried packet; sent = s.sent ++ (packet ∷ []) }
        else s)
  | carried _ ↦ s
  | counted _ ↦ s
])
move f s sender = some (elim s.outgoing [
  | idle ↦ s
  | carried p ↦ record s { outgoing = counted p; pkts_out = (s.pkts_out + 1) % u64_mod }
  | counted p ↦ record s { outgoing = idle; bytes_out = (s.bytes_out + length p) % u64_mod }
])

unfoldable pub run_moves : Filter → Live → List Move → Option Live
unfolding move
run_moves f s [] = some s
run_moves f s (m ∷ ms) = move f s m >>= λ t. run_moves f t ms

-- The loops and the ticker: the state, and the lines that are logged.
unfoldable pub run_stats : Filter → Live → List Moment → Option (Live × List Counts)
unfolding run_moves
run_stats f s [] = some (s, [])
run_stats f s (moves m ∷ ms) = move f s m >>= λ t. run_stats f t ms
run_stats f s (ticks a b c ∷ ms) =
    let in_p = s.pkts_in in
    run_moves f s a >>= λ t.
    let in_b = t.bytes_in in
    run_moves f t b >>= λ u.
    let out_p = u.pkts_out in
    run_moves f u c >>= λ v.
    let out_b = v.bytes_out in
    run_stats f v ms >>= λ (rest : Live × List Counts). some (
      rest.0,
      record { pkts_in = in_p; bytes_in = in_b; pkts_out = out_p; bytes_out = out_b } ∷ rest.1,
    )
