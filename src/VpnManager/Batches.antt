-- ===== src/VpnManager/Batches.antt =====
-- The batches of a round of src/fptn-server/vpn/manager.cpp, and which packets get into them.
use fptn_keenetic.Base.{
  ℕ, ◌+◌, ◌≡◌, refl, List, [], ◌∷◌, ◌++◌, Option, none, some, true, false, ◌==◌, arith, All,
  All-append, Option-cases, Bool-cases, inl, inr, String, if_pos, if_neg, ℕ_discrete,
  String_discrete,
}
use fptn_keenetic.Base.Dict.{Dict, find, assign}
use fptn_keenetic.Packet.{
  IpPacket, size, is_ipv4, is_ipv6, get_dst_ipv4_address, get_dst_ipv6_address,
}
use fptn_keenetic.Network.Address.{to_int}
use fptn_keenetic.Nat.Table.{Table, get_multiplexer_by_fake_ipv4, get_multiplexer_by_fake_ipv6}
use fptn_keenetic.Nat.Connection.{ClientConnection, id_of}
use fptn_keenetic.Nat.Multiplexer.{Multiplexer, contains, find_by_client_id, is_nil}
use fptn_keenetic.Nat.Multiplexer.Receiver.{next_receiver_client_id, next_receiver-contains}
use fptn_keenetic.Nat.Multiplexer.Rewrite.{change_ip_address_to_client_ip, change_ip-client_id}
use fptn_keenetic.VpnManager.{
  Manager, System, is_ip, may_pass, receiver_session, hand_over, packet_to_client, push_back,
  to_client,
}
use fptn_keenetic.VpnManager.Transit.{next_receiver-cursor, IsReady, packet_to_client-IsReady}
use fptn_keenetic.VpnManager.Delivery.{packet_to_client-IsDelivery}

-- Every packet of a batch carries the id of the batch's client.
abbrev pub AreMarked : Dict ℕ (List IpPacket) → Type 0
AreMarked = All (λ e. All (λ q. q.client_id ≡ e.0) e.1)

assign-AreMarked :
    (k : ℕ) (batch : List IpPacket) (batches : Dict ℕ (List IpPacket))
    → All (λ q. q.client_id ≡ k) batch
    → AreMarked batches
    → AreMarked (assign ℕ_discrete k batch batches)
unfolding assign
assign-AreMarked k batch [] h v = (h, tt)
assign-AreMarked k batch ((j, old) ∷ batches) h v = elim (ℕ_discrete k j) [
  | yes same ↦ rw (if_pos _ same) (h, v.1)
  | no other ↦ rw (if_neg _ other) (v.0, assign-AreMarked k batch batches h v.1)
]

found-AreMarked :
    (k : ℕ) (batch : List IpPacket) (batches : Dict ℕ (List IpPacket))
    → AreMarked batches
    → find ℕ_discrete k batches ≡ some batch
    → All (λ q. q.client_id ≡ k) batch
unfolding find
found-AreMarked k batch [] v h = cc
found-AreMarked k batch ((j, old) ∷ batches) v h = elim (ℕ_discrete k j) [
  | yes same ↦ let e : old ≡ batch = ground (arith, h, same) in rw (same, ← e) v.0
  | no other ↦ found-AreMarked k batch batches v.1 (rw (if_neg _ other) at h)
]

push_back-AreMarked :
    (k : ℕ) (q : IpPacket) (batches : Dict ℕ (List IpPacket))
    → q.client_id ≡ k
    → AreMarked batches
    → AreMarked (push_back k q batches)
unfolding push_back
push_back-AreMarked k q batches marked v = elim (Option-cases (find ℕ_discrete k batches)) [
  | inl new ↦ rw (new, push_back) (assign-AreMarked k (q ∷ []) batches (marked, tt) v)
  | inr (batch, old) ↦
      rw (old, push_back)
        (assign-AreMarked k (batch ++ (q ∷ [])) batches
          (All-append (λ r. r.client_id ≡ k) batch (q ∷ []) (found-AreMarked k batch batches v old)
            (marked, tt))
          v)
]

next-AreMarked :
    (system : System) (i : ℕ) (packet : Option IpPacket) (s : Manager)
    (batches : Dict ℕ (List IpPacket))
    → IsReady s.nat
    → AreMarked batches
    → AreMarked (elim (packet_to_client system i packet s).1 [
      | none ↦ batches
      | some d ↦ push_back d.0 d.1 batches
    ])
unfolding packet_to_client
next-AreMarked system i none s batches ready v = v
next-AreMarked system i (some packet) s batches ready v =
    elim (Option-cases (packet_to_client system i (some packet) s).1) [
      | inl dropped ↦ rw dropped v
      | inr (d, e) ↦ rw e (
          push_back-AreMarked d.0 d.1 batches
            (packet_to_client-IsDelivery system i packet s d.0 d.1 ready e).marked v)
    ]

-- A round that starts with a well-formed and routed table keeps this: every packet of the batch of
-- a client carries that client's id.
pub to_client-AreMarked :
    (system : System) (i : ℕ) (packets : List (Option IpPacket)) (s : Manager)
    (batches : Dict ℕ (List IpPacket))
    → IsReady s.nat
    → AreMarked batches
    → AreMarked (to_client system i packets s batches).1
unfolding to_client
to_client-AreMarked system i [] s batches ready v = v
to_client-AreMarked system i (packet ∷ packets) s batches ready v =
    to_client-AreMarked system (i + 1) packets (packet_to_client system i packet s).0 _
      (packet_to_client-IsReady system i packet s ready)
      (next-AreMarked system i packet s batches ready v)

find-contains :
    (cs : List ClientConnection) (k : ℕ)
    → contains cs k ≡ true
    → (c : ClientConnection) × (find_by_client_id cs k ≡ some c)
unfolding contains find_by_client_id
find-contains [] k h = cc
find-contains (c ∷ cs) k h = elim (Bool-cases (id_of c == k)) [
  | inl same ↦ rw same (c, refl)
  | inr other ↦ rw other (find-contains cs k (rw other at h))
]

changed :
    (inet_pton : String → Option (List ℕ)) (packet : IpPacket) (k : ℕ) (m : Multiplexer)
    → contains m.receiving k ≡ true
    → (q : IpPacket) × (change_ip_address_to_client_ip inet_pton packet k m ≡ some q)
unfolding change_ip_address_to_client_ip
changed inet_pton packet k m h = elim (Bool-cases m.disable_checksum_calculation) [
  | inl off ↦ rw off (_, refl)
  | inr on ↦ let (c, found) = find-contains m.receiving k h in rw (on, found) (_, refl)
]

-- The address maps lead from the packet's destination to the session at `p`.
pub data LeadsTo (system : System) (packet : IpPacket) (t : Table) (p : ℕ) : Type 0 where
  by_ipv4 :
      is_ipv4 packet ≡ true
      → find ℕ_discrete
          (to_int (get_dst_ipv4_address system.asio system.inet packet))
          t.ipv4_to_mplx
        ≡ some p
      → LeadsTo system packet t p
  by_ipv6 :
      is_ipv4 packet ≡ false
      → is_ipv6 packet ≡ true
      → find String_discrete (get_dst_ipv6_address system.asio system.inet packet).ip t.ipv6_to_mplx
        ≡ some p
      → LeadsTo system packet t p

leads-receiver_session :
    (system : System) (packet : IpPacket) (t : Table) (p : ℕ)
    → LeadsTo system packet t p
    → (is_ip packet ≡ true) × (receiver_session system packet t ≡ some p)
unfolding receiver_session get_multiplexer_by_fake_ipv4 get_multiplexer_by_fake_ipv6
leads-receiver_session system packet t p (by_ipv4 four e) =
    (rw four refl, rw (four, receiver_session) e)
leads-receiver_session system packet t p (by_ipv6 other six e) =
    (rw (other, six) refl, rw (other, six, receiver_session) e)

-- Where the table and the connections do not change during the round: a packet whose destination
-- the address maps lead to a session that has a receiving connection, and whose shaper lets it
-- pass, is handed to a client with such a connection in that session, and carries its id.
pub packet_to_client-delivered :
    (system : System) (i : ℕ) (packet : IpPacket) (s : Manager) (p : ℕ) (m : Multiplexer)
    → LeadsTo system packet s.nat p
    → s.nat.heap p ≡ some m
    → is_nil m.receiving ≡ false
    → (may_pass m.shaper_to_client (size packet) (system.clock i) s.shapers).1 ≡ true
    → (k : ℕ) × ((q : IpPacket) × (((packet_to_client system i (some packet) s).1 ≡ some (k, q))
          × ((contains m.receiving k ≡ true) × (q.client_id ≡ k))))
unfolding packet_to_client hand_over
packet_to_client-delivered system i packet s p m leads stands present fast =
    let (ip, found) = leads-receiver_session system packet s.nat p leads in
    let (k, chosen, member) = next_receiver-contains packet m present in
    let (cursor, e) = next_receiver-cursor packet m in
    let (q, made) =
      changed system.inet_pton packet k (next_receiver_client_id packet m).0 (rw e member) in
    (
      k,
      (
        q,
        (
          rw (ip, found, stands, fast, hand_over, chosen, made) refl,
          (member, change_ip-client_id system.inet_pton packet k _ q made),
        ),
      ),
    )
