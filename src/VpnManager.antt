-- ===== src/VpnManager.antt =====
-- src/fptn-server/vpn/manager.cpp: one round of the loops that carry packets between the network
-- interface and the clients. A round reads the clock once for each packet. Null pointers are
-- `none`; `batches` is an association list, in the order of the first packets. The multiplexers
-- and the shapers are shared objects, which the table's heap and `shapers` hold.
pub mod Delivery
pub mod Transit
pub mod Batches
mod Tests
use fptn_keenetic.Base.{
  ℕ, ◌+◌, List, [], ◌∷◌, ◌++◌, Option, none, some, Bool, true, false, not, ◌&&◌, ◌||◌, ◌==◌,
  if◌then◌else◌, String, ℕ_discrete,
}
use fptn_keenetic.Base.Dict.{Dict, find, assign}
use fptn_keenetic.Network.Address.{Asio}
use fptn_keenetic.Packet.{
  IpPacket, Inet, size, is_ipv4, is_ipv6, get_dst_ipv4_address, get_dst_ipv6_address,
}
use fptn_keenetic.Shaper.{LeakyBucket, check_speed_limit}
use fptn_keenetic.Filter.{BaseFilter, apply}
use fptn_keenetic.Nat.Multiplexer.{Clock, Multiplexer}
use fptn_keenetic.Nat.Multiplexer.Receiver.{next_receiver_client_id}
use fptn_keenetic.Nat.Multiplexer.Rewrite.{
  change_ip_address_to_client_ip, change_ip_address_to_fake_ip,
}
use fptn_keenetic.Nat.Table.{
  Table, update, get_multiplexer_by_fake_ipv4, get_multiplexer_by_fake_ipv6,
  get_multiplexer_by_client_id, update_connections_status,
}

pub record Manager : Type 0 where
  pub nat : Table
  pub shapers : ℕ → LeakyBucket

-- The system's functions on addresses, and the clock.
pub record System : Type 0 where
  pub asio : Asio
  pub inet : Inet
  pub inet_pton : String → Option (List ℕ)
  pub clock : Clock

abbrev pub is_ip : IpPacket → Bool
is_ip packet = is_ipv4 packet || is_ipv6 packet

-- `shaper && !shaper->CheckSpeedLimit(size)`, negated, with the shapers afterwards.
unfoldable pub may_pass : Option ℕ → ℕ → ℕ → (ℕ → LeakyBucket) → (ℕ → LeakyBucket) × Bool
may_pass none packet_size now shapers = (shapers, true)
may_pass (some a) packet_size now shapers =
    let (bucket, ok) = check_speed_limit (shapers a) packet_size now in
    ((λ b. if b == a then bucket else shapers b), ok)

-- `batches[client_id].push_back(packet)`.
unfoldable pub push_back : ℕ → IpPacket → Dict ℕ (List IpPacket) → Dict ℕ (List IpPacket)
push_back k q batches = elim (find ℕ_discrete k batches) [
  | none ↦ assign ℕ_discrete k (q ∷ []) batches
  | some batch ↦ assign ℕ_discrete k (batch ++ (q ∷ [])) batches
]

module _ (system : System) where
  open system use {asio, inet, inet_pton, clock}

  unfoldable pub receiver_session : IpPacket → Table → Option ℕ
  receiver_session packet t =
      if is_ipv4 packet
      then get_multiplexer_by_fake_ipv4 (get_dst_ipv4_address asio inet packet) t
      else if is_ipv6 packet
      then get_multiplexer_by_fake_ipv6 (get_dst_ipv6_address asio inet packet) t
      else none

  -- The packet as the client gets it, from the choice of the receiver on.
  unfoldable pub hand_over : IpPacket → ℕ → Multiplexer → Manager → Manager × Option (ℕ × IpPacket)
  hand_over packet p m s =
      let (m', client_id) = next_receiver_client_id packet m in
      let s' = record s { nat = record s.nat { heap = update s.nat.heap p m' } } in
      elim client_id [
        | none ↦ (s', none)
        | some k ↦ elim (change_ip_address_to_client_ip inet_pton packet k m') [
          | none ↦ (s', none)
          | some q ↦ (s', some (k, q))
        ]
      ]

  -- The body of the loop of `RunToClient` over the packets.
  unfoldable pub packet_to_client : ℕ → Option IpPacket → Manager → Manager × Option (ℕ × IpPacket)
  packet_to_client i none s = (s, none)
  packet_to_client i (some packet) s =
      if not (is_ip packet) then (s, none) else elim (receiver_session packet s.nat) [
        | none ↦ (s, none)
        | some p ↦ elim (s.nat.heap p) [
          | none ↦ (s, none)
          | some m ↦
              let (shapers, ok) = may_pass m.shaper_to_client (size packet) (clock i) s.shapers in
              let s' = record s { shapers = shapers } in
              if not ok then (s', none) else hand_over packet p m s'
        ]
      ]

  unfoldable pub to_client :
      ℕ
      → List (Option IpPacket)
      → Manager
      → Dict ℕ (List IpPacket)
      → Manager × Dict ℕ (List IpPacket)
  to_client i [] s batches = (s, batches)
  to_client i (packet ∷ packets) s batches =
      let (s', delivered) = packet_to_client i packet s in
      to_client (i + 1) packets s'
        (elim delivered [ none ↦ batches | some d ↦ push_back d.0 d.1 batches ])

  -- The body of the loop of `RunFromClient` over the packets.
  unfoldable pub packet_from_client :
      ℕ → List BaseFilter → Option IpPacket → Manager → Manager × Option IpPacket
  packet_from_client i filters none s = (s, none)
  packet_from_client i filters (some packet) s =
      if not (is_ip packet)
      then (s, none)
      else elim (get_multiplexer_by_client_id packet.client_id s.nat) [
        | none ↦ (s, none)
        | some p ↦ elim (s.nat.heap p) [
          | none ↦ (s, none)
          | some m ↦
              let (shapers, ok) = may_pass m.shaper_from_client (size packet) (clock i) s.shapers in
              let s' = record s { shapers = shapers } in
              if not ok then (s', none) else elim (apply filters packet) [
                | none ↦ (s', none)
                | some q ↦ (s', some (change_ip_address_to_fake_ip inet_pton q m))
              ]
        ]
      ]

  unfoldable pub from_client :
      ℕ
      → List BaseFilter
      → List (Option IpPacket)
      → Manager
      → List IpPacket
      → Manager × List IpPacket
  from_client i filters [] s prepared_batch = (s, prepared_batch)
  from_client i filters (packet ∷ packets) s prepared_batch =
      let (s', prepared) = packet_from_client i filters packet s in
      from_client (i + 1) filters packets s'
        (elim prepared [ none ↦ prepared_batch | some q ↦ prepared_batch ++ (q ∷ []) ])

-- `web_session->SendBatch`, for the clients whose session is still open: what goes out.
unfoldable pub send_batches : (ℕ → Bool) → Dict ℕ (List IpPacket) → Dict ℕ (List IpPacket)
send_batches has_session [] = []
send_batches has_session ((client_id, batch) ∷ batches) =
    let rest = send_batches has_session batches in
    if has_session client_id then (client_id, batch) ∷ rest else rest

-- One round of `RunUpdateConnectionsStatus`: the table, and the clients whose sessions are closed.
unfoldable pub update_status : Clock → (ℕ → ℕ) → (ℕ → Bool) → Manager → Manager × List ℕ
update_status clock reading has_session s =
    let (t, expired) = update_connections_status clock reading s.nat in
    (record s { nat = t }, with_session has_session expired)
  where
    with_session : (ℕ → Bool) → List ℕ → List ℕ
    with_session has_session [] = []
    with_session has_session (k ∷ ks) =
        let rest = with_session has_session ks in if has_session k then k ∷ rest else rest
