-- ===== src/Socks/Associate/Replies.antt =====
-- socks.go, the loops of the UDP half: who gets the replies, and what leaves.
use urnetwork_client.Base.{ℕ, ◌+◌, ◌≡◌, All, length}
use urnetwork_client.Socks.Associate.{Loops}
use urnetwork_client.Socks.Associate.Answered.{udps, Past}
use urnetwork_client.Socks.Associate.Kept.{IsReply, SentOut}
use urnetwork_client.Socks.Datagram.{Relay}

-- What was sent to remote hosts, and who got the replies.
pub record Relayed (r : Relay) (t : Loops) : Type 0 where
  pub sent : SentOut r t.reading t.received t.out
  pub replies : All (IsReply t.received t.arrived) t.back

-- Every packet of a UDP address is answered, or in hand on its way to a client.
pub record IsAnswered (t : Loops) : Type 0 where
  pub on_vpn : ℕ
  pub on_system : ℕ
  pub vpn : Past t.by_vpn on_vpn
  pub system : Past t.by_system on_system
  pub count : length t.back + on_vpn + on_system ≡ udps t.arrived
