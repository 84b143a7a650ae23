-- ===== src/Socks/Associate/Sockets.antt =====
-- socks.go, `runUDPAssociate`: which sockets stay open behind it.
use urnetwork_client.Base.{
  ◌≡◌, refl, inl, inr, Option-cases, Bool-cases, Bool, true, false, not, ◌&&◌, ◌||◌, List, [], ◌∷◌,
  none, some, arith, Bytes, if◌then◌else◌,
}
use urnetwork_client.Text.{is_empty}
use urnetwork_client.Socks.Associate.{
  Socket, client_socket, vpn_socket, system_socket, Ports, Association, bound_reply,
  run_udp_associate,
}

is_client : Socket → Bool
is_client client_socket = true
is_client vpn_socket = false
is_client system_socket = false

abbrev same : Socket → Socket → Bool
same client_socket client_socket = true
same vpn_socket vpn_socket = true
same system_socket system_socket = true
same _ _ = false

pub contains_socket : Socket → List Socket → Bool
contains_socket k [] = false
contains_socket k (x ∷ xs) = if same k x then true else contains_socket k xs

-- Opened, and not closed when the function returns.
pub is_left_open : Socket → Association → Bool
is_left_open k a = contains_socket k a.opened && not (contains_socket k a.closed)

-- Whether the client's socket is there and the client gets its address.
pub is_answered : Ports → Bool
is_answered w = elim w.client [ none ↦ false | some (ip, port) ↦ w.accepts (bound_reply ip port) ]

abbrev has_vpn : Ports → Bytes → Bool
has_vpn w bind_if = not (is_empty bind_if) && w.vpn_opens

-- What is left of an association `a`.
pub record Leaves (w : Ports) (deadline : Bool) (bind_if : Bytes) (a : Association) : Type 0 where
  pub client : is_left_open client_socket a ≡ false
  pub system : is_left_open system_socket a ≡ (is_answered w && w.system_opens)
  pub vpn : is_left_open vpn_socket a ≡ (is_answered w && has_vpn w bind_if)
  pub closes : (k : Socket) → contains_socket k a.closed ≡ true → contains_socket k a.opened ≡ true
  pub serves : a.served ≡ (is_left_open system_socket a || is_left_open vpn_socket a)
  pub waits : a.times_out ≡ (a.served && deadline)

-- Whatever can be opened, wherever the function ends, it leaves the client's own socket closed and
-- closes only what it opened. The outbound sockets are left open on the way where the client got its
-- address, each where it could be opened, the one bound to the VPN where an interface is given; the
-- function comes to wait for the client exactly if it leaves one of them open, and a deadline on the
-- control connection ends each such wait.
pub run_udp_associate-Leaves :
    (w : Ports) (deadline : Bool) (bind_if : Bytes)
    → Leaves w deadline bind_if (run_udp_associate w deadline bind_if)
unfolding run_udp_associate is_left_open contains_socket is_answered
run_udp_associate-Leaves w deadline bind_if = elim (Option-cases w.client) [
  | inl e ↦
      rw (e, run_udp_associate, is_answered)
        (record {
          client = refl;
          system = refl;
          vpn = refl;
          closes = λ k h. h;
          serves = refl;
          waits = refl;
        })
  | inr ((ip, port), e) ↦ elim (Bool-cases (w.accepts (bound_reply ip port))) [
    | inl a ↦ record {
      client = ground arith;
      system = ground arith;
      vpn = ground arith;
      closes = λ k. elim k [
        | client_socket ↦ λ h. ground arith
        | vpn_socket ↦ λ h. ground arith
        | system_socket ↦ λ h. ground arith
      ];
      serves = ground arith;
      waits = ground arith;
    }
    | inr a ↦ record {
      client = ground arith;
      system = ground arith;
      vpn = ground arith;
      closes = λ k. elim k [
        | client_socket ↦ λ h. ground arith
        | vpn_socket ↦ λ h. ground arith
        | system_socket ↦ λ h. ground arith
      ];
      serves = ground arith;
      waits = ground arith;
    }
  ]
]
