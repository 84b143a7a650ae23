-- ===== src/Dataplane/Guarded.antt =====
-- What of the provider's packets reaches the TUN in a session, by its settings.
use urnetwork_client.Base.{
  ℕ, ◌/◌, ◌<◌, ◌≡◌, refl, ◌⊎◌, inl, inr, true, List, [], ◌∷◌, All, Exists, some, arith, Bytes,
  length, get_or, Bool-cases,
}
use urnetwork_client.Config.{VpnConfig}
use urnetwork_client.Dataplane.{
  AddressParser, block_new_inbound, allow_inbound_cidrs, session_filter, Plane, Event,
  from_provider, from_tun, run,
}
use urnetwork_client.Dataplane.Allowlist.{sources, Admits, allow_inbound_cidrs_iff}
use urnetwork_client.Dataplane.Delivery.{passes, delivered, forwarded, after, run-after}
use urnetwork_client.Dataplane.Stats.{new_plane}
use urnetwork_client.Inbound.{has_bit}
use urnetwork_client.Inbound.Policy.{TcpSegment, should_drop_inbound-segment}

module _ (P : AddressParser) (cfg : VpnConfig) where
  -- A packet that may be let in: as a TCP segment, which is one with a whole header that the filter can
  -- read, it has an ACK, or it is a SYN from a source that one of the texts of the settings names; and
  -- it is an IPv6 packet only where these are enabled.
  pub record IsLetIn (p : Bytes) : Type 0 where
    pub tcp :
        (src : Bytes) (flags : ℕ)
        → TcpSegment p src flags
        → (has_bit flags 4 ≡ true)
          ⊎ ((has_bit flags 1 ≡ true) × Exists (Admits P src) (sources cfg))
    pub ipv6 : 0 < length p → get_or p 0 0 / 16 ≡ 6 → cfg.enable_ipv6 ≡ true

  passes-IsLetIn :
      (p : Bytes)
      → block_new_inbound cfg ≡ true
      → passes (session_filter P cfg) p ≡ true
      → IsLetIn p
  unfolding passes session_filter
  passes-IsLetIn p b h = record {
    tcp = λ src flags t.
        let e = should_drop_inbound-segment p src flags (allow_inbound_cidrs P cfg) t in
        elim (Bool-cases (has_bit flags 4)) [
          | inl ack ↦ inl ack
          | inr no_ack ↦ inr (
            ground (arith, e, b, h),
            (allow_inbound_cidrs_iff P cfg src).0 (ground (arith, e, b, h)),
          )
        ];
    ipv6 = λ l v. ground (arith, h);
  }

  delivered-IsLetIn :
      (es : List Event)
      → block_new_inbound cfg ≡ true
      → All IsLetIn (delivered (session_filter P cfg) es)
  unfolding delivered
  delivered-IsLetIn [] b = tt
  delivered-IsLetIn (from_provider p ∷ es) b = elim (Bool-cases (passes (session_filter P cfg) p)) [
    | inl e ↦ rw e (passes-IsLetIn p b e, delivered-IsLetIn es b)
    | inr e ↦ rw e (delivered-IsLetIn es b)
  ]
  delivered-IsLetIn (from_tun p ∷ es) b = delivered-IsLetIn es b

  -- In a session whose settings control new inbound connections, for every order of the packets of both
  -- directions, the loops run on without a panic, and every packet that they have written to the TUN
  -- may be let in. For one that holds a whole TCP header, in IPv4 behind a header of 20 bytes or more,
  -- in IPv6 directly behind the fixed header, this says that it has an ACK, or is a SYN from a source
  -- that `--allow_inbound_src`, or with `--allow_inbound_local` the local ranges or the TUN's own
  -- subnet, names. It says nothing on TCP behind an IPv6 extension header or with a header cut short,
  -- which the filter lets through. And no IPv6 packet is written without `--enable_ipv6`.
  pub run-IsLetIn :
      (es : List Event)
      → block_new_inbound cfg ≡ true
      → (s : Plane) × (run (session_filter P cfg) new_plane es ≡ some s) × All IsLetIn s.written
  run-IsLetIn es b = (
    after new_plane (delivered (session_filter P cfg) es) (forwarded es),
    run-after (session_filter P cfg) new_plane es
        (record { pkts_in = refl; bytes_in = refl; pkts_out = refl; bytes_out = refl }),
    delivered-IsLetIn es b,
  )
