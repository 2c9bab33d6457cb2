-- ===== src/VpnManager/Transit.antt =====
-- What a round of src/fptn-server/vpn/manager.cpp does to the table of sessions: it moves the
-- cursors of the multiplexers, and nothing else.
use fptn_keenetic.Base.{
  true, ℕ, ◌+◌, ◌%◌, ◌^◌, ◌≡◌, refl, [], Option, none, some, ◌||◌, arith, Option-cases, Bool-cases,
  inl, inr,
}
use fptn_keenetic.Packet.{
  IpPacket, size, is_tcp, is_udp, is_ipv4, is_ipv6, get_dst_ipv4_address, get_dst_ipv6_address,
}
use fptn_keenetic.Network.Address.{to_int}
use fptn_keenetic.Nat.Multiplexer.{Multiplexer, has_client_id, empty, is_nil}
use fptn_keenetic.Nat.Multiplexer.Receiver.{next_receiver_client_id}
use fptn_keenetic.Nat.Multiplexer.Rewrite.{change_ip_address_to_client_ip}
use fptn_keenetic.Nat.Table.{
  Table, update, get_multiplexer_by_fake_ipv4, get_multiplexer_by_fake_ipv6,
}
use fptn_keenetic.Nat.Table.Invariant.{IsValid, IsLive-at, SameIdentity}
use fptn_keenetic.Nat.Table.Shrink.{shrink-IsPending}
use fptn_keenetic.Nat.Table.Routing.{IsHome, IsRouted, update-IsRouted}
use fptn_keenetic.VpnManager.{
  Manager, System, is_ip, may_pass, receiver_session, hand_over, packet_to_client,
}

-- The choice of a receiver moves the cursor only.
pub next_receiver-cursor :
    (packet : IpPacket) (m : Multiplexer)
    → (cursor : ℕ) × ((next_receiver_client_id packet m).0
        ≡ record m { round_robin_cursor = cursor })
unfolding next_receiver_client_id
next_receiver-cursor packet m = elim (Bool-cases (is_nil m.receiving)) [
  | inl nobody ↦ rw nobody (m.round_robin_cursor, refl)
  | inr present ↦ elim (Bool-cases (is_tcp packet || is_udp packet)) [
    | inl port ↦ rw (present, port) (m.round_robin_cursor, refl)
    | inr other ↦ rw (present, other) ((m.round_robin_cursor + 1) % 2 ^ 64, refl)
  ]
]

-- A table that is well formed and routed.
pub record IsReady (t : Table) : Type 0 where
  pub valid : IsValid t
  pub routed : IsRouted t

cursor-IsReady :
    (t : Table) (p : ℕ) (m : Multiplexer) (cursor : ℕ)
    → IsReady t
    → IsHome t p m
    → IsReady (record t { heap = update t.heap p (record m { round_robin_cursor = cursor }) })
unfolding has_client_id empty
cursor-IsReady t p m cursor ready home =
    let live = IsLive-at m.session_id p m ready.valid home.session home.stands in
    record {
      valid =
          shrink-IsPending [] [] [] [] t p m (record m { round_robin_cursor = cursor }) ready.valid
            home.session home.stands
            (record {
              same = same;
              distinct = record {
                sending = live.distinct.sending;
                receiving = live.distinct.receiving;
              };
              left = λ c. ground arith;
              had = λ c h. ground arith;
            })
            (λ q h. refl) (λ h. live.occupied h);
      routed =
          update-IsRouted t p m (record m { round_robin_cursor = cursor }) home.stands same
            ready.routed;
    }
  where
    same : SameIdentity m (record m { round_robin_cursor = cursor })
    same = record { session = refl; ipv4 = refl; ipv6 = refl; user = refl }

-- The packet was sent to the address of the session.
pub data IsAddressee (system : System) (packet : IpPacket) (m : Multiplexer) : Type 0 where
  by_ipv4 :
      is_ipv4 packet ≡ true
      → to_int m.fake_client_ipv4 ≡ to_int (get_dst_ipv4_address system.asio system.inet packet)
      → IsAddressee system packet m
  by_ipv6 :
      is_ipv6 packet ≡ true
      → m.fake_client_ipv6.ip ≡ (get_dst_ipv6_address system.asio system.inet packet).ip
      → IsAddressee system packet m

-- Where a packet's session is found, it is live, and has the packet's address.
pub receiver-IsHome :
    (system : System) (packet : IpPacket) (t : Table) (p : ℕ)
    → IsReady t
    → receiver_session system packet t ≡ some p
    → (m : Multiplexer) × (IsHome t p m × IsAddressee system packet m)
unfolding receiver_session get_multiplexer_by_fake_ipv4 get_multiplexer_by_fake_ipv6
receiver-IsHome system packet t p ready h = elim (Bool-cases (is_ipv4 packet)) [
  | inl four ↦
      let (m, (home, e)) =
        ready.routed.ipv4 (to_int (get_dst_ipv4_address system.asio system.inet packet)) p
          (ground (arith, h, four)) in
      (m, (home, by_ipv4 four e))
  | inr other ↦ elim (Bool-cases (is_ipv6 packet)) [
    | inl six ↦
        let (m, (home, e)) =
          ready.routed.ipv6 (get_dst_ipv6_address system.asio system.inet packet).ip p
            (ground (arith, h, other, six)) in
        (m, (home, by_ipv6 six e))
    | inr neither ↦ absurd (ground (arith, h, other, neither))
  ]
]

hand_over-state :
    (system : System) (packet : IpPacket) (p : ℕ) (m : Multiplexer) (s : Manager)
    → (hand_over system packet p m s).0 ≡ record s {
      nat = record s.nat { heap = update s.nat.heap p (next_receiver_client_id packet m).0 };
    }
unfolding hand_over
hand_over-state system packet p m s = elim (Option-cases (next_receiver_client_id packet m).1) [
  | inl nobody ↦ rw (nobody, hand_over) refl
  | inr (k, e) ↦
      rw (e, hand_over)
        (elim (Option-cases (
          change_ip_address_to_client_ip system.inet_pton packet k
            (next_receiver_client_id packet m).0)) [
              | inl refused ↦ rw refused refl
              | inr (q, made) ↦ rw made refl
            ])
]

hand_over-IsReady :
    (system : System) (packet : IpPacket) (p : ℕ) (m : Multiplexer) (s : Manager)
    → IsReady s.nat
    → IsHome s.nat p m
    → IsReady (hand_over system packet p m s).0.nat
hand_over-IsReady system packet p m s ready home =
    let (cursor, e) = next_receiver-cursor packet m in
    rw (hand_over-state system packet p m s, e) (cursor-IsReady s.nat p m cursor ready home)

pub packet_to_client-IsReady :
    (system : System) (i : ℕ) (packet : Option IpPacket) (s : Manager)
    → IsReady s.nat
    → IsReady (packet_to_client system i packet s).0.nat
unfolding packet_to_client
packet_to_client-IsReady system i none s ready = ready
packet_to_client-IsReady system i (some packet) s ready = elim (Bool-cases (is_ip packet)) [
  | inr other ↦ rw other ready
  | inl ip ↦ elim (Option-cases (receiver_session system packet s.nat)) [
    | inl nobody ↦ rw (ip, nobody) ready
    | inr (p, found) ↦
        let (m, (home, _)) = receiver-IsHome system packet s.nat p ready found in
        let limited = may_pass m.shaper_to_client (size packet) (system.clock i) s.shapers in
        rw (ip, found, home.stands)
          (elim (Bool-cases limited.1) [
            | inr slow ↦ rw slow ready
            | inl fast ↦
                rw fast (
                  hand_over-IsReady system packet p m (record s { shapers = limited.0 }) ready home)
          ])
  ]
]
