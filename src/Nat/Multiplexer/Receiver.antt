-- ===== src/Nat/Multiplexer/Receiver.antt =====
-- Which client of a session gets a packet: `NextReceiverClientId` of connection_multiplexer.cpp. A
-- null packet does not come up; the packet is handed back unchanged.
use fptn_keenetic.Base.{
  ℕ, zero, suc, ◌+◌, ◌%◌, ◌^◌, ◌≡◌, List, [], ◌∷◌, arith, Option, none, some, true, false, ◌||◌,
  if◌then◌else◌, length, get_elem?, get_elem?-lt,
}
use fptn_keenetic.Packet.{IpPacket, is_tcp, is_udp, get_tcp_dst_port, get_udp_dst_port}
use fptn_keenetic.Nat.Connection.{ClientConnection, id_of}
use fptn_keenetic.Nat.Multiplexer.{Multiplexer, contains, is_nil}

-- Where the choice starts: a TCP or UDP packet stays with the client that its port gives, the rest
-- go round.
unfoldable pub start_of : IpPacket → ℕ → ℕ
start_of packet cursor =
    if is_tcp packet
    then get_tcp_dst_port packet
    else if is_udp packet
    then get_udp_dst_port packet
    else cursor

abbrev pub id_at : List ClientConnection → ℕ → Option ℕ
id_at connections index = elim (get_elem? connections index) [
  | none ↦ none
  | some c ↦ some (id_of c)
]

-- The multiplexer afterwards, and the client.
unfoldable pub next_receiver_client_id : IpPacket → Multiplexer → Multiplexer × Option ℕ
unfolding start_of
next_receiver_client_id packet m = if is_nil m.receiving then (m, none) else (
  if is_tcp packet || is_udp packet
      then m
      else record m { round_robin_cursor = (m.round_robin_cursor + 1) % 2 ^ 64 },
  id_at m.receiving (start_of packet m.round_robin_cursor % length m.receiving),
)

contains-get_elem? :
    (cs : List ClientConnection) (i : ℕ) (c : ClientConnection)
    → get_elem? cs i ≡ some c
    → contains cs (id_of c) ≡ true
unfolding contains
contains-get_elem? [] i c h = ground arith
contains-get_elem? (x ∷ cs) zero c h = ground arith
contains-get_elem? (x ∷ cs) (suc i) c h = ground (arith, contains-get_elem? cs i c h)

id_at-contains :
    (cs : List ClientConnection) (start : ℕ)
    → is_nil cs ≡ false
    → (k : ℕ) × (id_at cs (start % length cs) ≡ some k) × (contains cs k ≡ true)
id_at-contains [] start h = ground arith
id_at-contains (x ∷ cs) start h =
    let (c, e) = get_elem?-lt (x ∷ cs) (start % length (x ∷ cs)) (omega arith) in
    (id_of c, rw (e, id_at), contains-get_elem? (x ∷ cs) (start % length (x ∷ cs)) c e)

-- Unless the session has no receiving connection, a packet goes to one of its receiving
-- connections.
pub next_receiver-contains :
    (packet : IpPacket) (m : Multiplexer)
    → is_nil m.receiving ≡ false
    → (k : ℕ) × ((next_receiver_client_id packet m).1 ≡ some k) × (contains m.receiving k ≡ true)
unfolding next_receiver_client_id
next_receiver-contains packet m h =
    rw h (id_at-contains m.receiving (start_of packet m.round_robin_cursor) h)
