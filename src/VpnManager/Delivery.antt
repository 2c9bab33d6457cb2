-- ===== src/VpnManager/Delivery.antt =====
-- Where the packets of src/fptn-server/vpn/manager.cpp go, and where they say that they come from.
use fptn_keenetic.Base.{
  ℕ, ◌<◌, ◌≡◌, refl, List, none, some, true, false, arith, All, Option-cases, Bool-cases, inl, inr,
  take, drop,
}
use fptn_keenetic.Network.Address.{to_int}
use fptn_keenetic.Packet.{IpPacket, at, size}
use fptn_keenetic.Packet.Rewrite.{u32_be}
use fptn_keenetic.Packet.Rewrite.Sent.{IsSent}
use fptn_keenetic.Packet.Transport.Unchanged.{IsIpv4}
use fptn_keenetic.Filter.{BaseFilter, Keeps, apply, apply_lem, passes}
use fptn_keenetic.Nat.Multiplexer.{Multiplexer, has_client_id, is_nil}
use fptn_keenetic.Nat.Multiplexer.Receiver.{next_receiver_client_id, next_receiver-contains}
use fptn_keenetic.Nat.Multiplexer.Rewrite.{
  change_ip_address_to_client_ip, change_ip_address_to_fake_ip, change_ip-client_id, to_fake_ip,
}
use fptn_keenetic.Nat.Table.{Table, get_multiplexer_by_client_id}
use fptn_keenetic.Nat.Table.Invariant.{owner_of}
use fptn_keenetic.Nat.Table.Routing.{IsHome}
use fptn_keenetic.VpnManager.{
  Manager, System, is_ip, may_pass, receiver_session, hand_over, packet_to_client,
  packet_from_client,
}
use fptn_keenetic.VpnManager.Transit.{IsReady, IsAddressee, receiver-IsHome}

-- The packet `q`, handed to the client `k`, is marked with it, and the client belongs to the
-- session that has the address to which `packet` was sent.
pub record IsDelivery (system : System) (t : Table) (packet : IpPacket) (k : ℕ) (q : IpPacket)
    : Type 0 where
  pub marked : q.client_id ≡ k
  pub session : ℕ
  pub multiplexer : Multiplexer
  pub stands : t.heap session ≡ some multiplexer
  pub addressee : IsAddressee system packet multiplexer
  pub owner : owner_of t k ≡ some session

no_receiver :
    (packet : IpPacket) (m : Multiplexer)
    → is_nil m.receiving ≡ true
    → (next_receiver_client_id packet m).1 ≡ none
unfolding next_receiver_client_id
no_receiver packet m h = rw h refl

chosen :
    (packet : IpPacket) (m : Multiplexer) (k : ℕ)
    → (next_receiver_client_id packet m).1 ≡ some k
    → has_client_id m k ≡ true
unfolding has_client_id
chosen packet m k h = elim (Bool-cases (is_nil m.receiving)) [
  | inl nobody ↦ absurd (ground (arith, h, no_receiver packet m nobody))
  | inr present ↦
      let (j, e, member) = next_receiver-contains packet m present in ground (arith, h, e, member)
]

hand_over-IsDelivery :
    (system : System) (packet : IpPacket) (p : ℕ) (m : Multiplexer) (s : Manager) (k : ℕ)
    (q : IpPacket)
    → IsReady s.nat
    → IsHome s.nat p m
    → IsAddressee system packet m
    → (hand_over system packet p m s).1 ≡ some (k, q)
    → IsDelivery system s.nat packet k q
unfolding hand_over
hand_over-IsDelivery system packet p m s k q ready home found h =
    elim (Option-cases (next_receiver_client_id packet m).1) [
      | inl nobody ↦ absurd (ground (arith, h, nobody))
      | inr (j, e) ↦
          elim (Option-cases (
            change_ip_address_to_client_ip system.inet_pton packet j
              (next_receiver_client_id packet m).0)) [
                | inl refused ↦ absurd (ground (arith, h, e, refused))
                | inr (r, made) ↦
                    let id : j ≡ k = ground (arith, h, e, made) in
                    let packets : r ≡ q = ground (arith, h, e, made) in
                    record {
                      marked = ground (
                        arith,
                        id,
                        packets,
                        change_ip-client_id system.inet_pton packet j
                            (next_receiver_client_id packet m).0 r made,
                      );
                      session = p;
                      multiplexer = m;
                      stands = home.stands;
                      addressee = found;
                      owner = ground (
                        arith,
                        id,
                        ready.valid.members m.session_id p m j home.session home.stands
                            (chosen packet m j e),
                      );
                    }
              ]
    ]

-- In a well-formed and routed table, a packet from the network is handed only to a client of a
-- session whose address is the packet's destination, and carries the id of that client.
pub packet_to_client-IsDelivery :
    (system : System) (i : ℕ) (packet : IpPacket) (s : Manager) (k : ℕ) (q : IpPacket)
    → IsReady s.nat
    → (packet_to_client system i (some packet) s).1 ≡ some (k, q)
    → IsDelivery system s.nat packet k q
unfolding packet_to_client
packet_to_client-IsDelivery system i packet s k q ready h = elim (Bool-cases (is_ip packet)) [
  | inr other ↦ absurd (ground (arith, h, other))
  | inl ip ↦ elim (Option-cases (receiver_session system packet s.nat)) [
    | inl nobody ↦ absurd (ground (arith, h, ip, nobody))
    | inr (p, found) ↦
        let (m, (home, addressee)) = receiver-IsHome system packet s.nat p ready found in
        let limited = may_pass m.shaper_to_client (size packet) (system.clock i) s.shapers in
        elim (Bool-cases limited.1) [
          | inr slow ↦ absurd (ground (arith, h, ip, found, home.stands, slow))
          | inl fast ↦
              hand_over-IsDelivery system packet p m (record s { shapers = limited.0 }) k q ready
                home addressee (rw (ip, found, home.stands, fast) at h)
        ]
  ]
]

filtered :
    (packet : IpPacket) (filters : List BaseFilter) (q : IpPacket)
    → All (Keeps packet) filters
    → apply filters packet ≡ some q
    → q ≡ packet
filtered packet filters q kept h = elim (Bool-cases (passes packet filters)) [
  | inl all ↦ ground (arith, h, apply_lem packet filters kept, all)
  | inr fails ↦ absurd (ground (arith, h, apply_lem packet filters kept, fails))
]

-- No client can send from an address that is not its session's: where its session has checksums
-- on, no filter changes the packet, and the packet has a whole IPv4 header and time to live, what
-- leaves comes from the session's address, whatever source the client wrote, and goes to the same
-- destination, as long as it was and with a header checksum that verifies.
pub packet_from_client-IsSent :
    (system : System) (i : ℕ) (filters : List BaseFilter) (packet : IpPacket) (s : Manager) (p : ℕ)
    (m : Multiplexer) (q : IpPacket)
    → get_multiplexer_by_client_id packet.client_id s.nat ≡ some p
    → s.nat.heap p ≡ some m
    → m.disable_checksum_calculation ≡ false
    → All (Keeps packet) filters
    → IsIpv4 packet.bytes
    → 0 < at packet 8
    → (packet_from_client system i filters (some packet) s).1 ≡ some q
    → IsSent
        (u32_be (to_int m.fake_client_ipv4))
        (take 4 (drop 16 packet.bytes))
        packet.bytes
        q.bytes
unfolding packet_from_client
packet_from_client-IsSent system i filters packet s p m q client stands on kept v alive h =
    elim (Bool-cases (is_ip packet)) [
      | inr other ↦ absurd (ground (arith, h, other))
      | inl ip ↦
          let limited = may_pass m.shaper_from_client (size packet) (system.clock i) s.shapers in
          elim (Bool-cases limited.1) [
            | inr slow ↦ absurd (ground (arith, h, ip, client, stands, slow))
            | inl fast ↦ elim (Option-cases (apply filters packet)) [
              | inl dropped ↦ absurd (ground (arith, h, ip, client, stands, fast, dropped))
              | inr (r, passed) ↦
                  let left = rw (ip, client, stands, fast, passed) at h in
                  let same : r ≡ packet = filtered packet filters r kept passed in
                  let out : change_ip_address_to_fake_ip system.inet_pton packet m ≡ q =
                    ground (arith, left, same) in
                  rw (← out) (to_fake_ip system.inet_pton packet m on v alive)
            ]
          ]
    ]
