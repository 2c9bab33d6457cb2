-- ===== src/VpnManager/Tests.antt =====
-- One packet each way through src/fptn-server/vpn/manager.cpp.
use fptn_keenetic.Base.{
  true, ℕ, ◌≡◌, refl, List, [], ◌∷◌, none, some, arith, String_discrete, ℕ_discrete, take, drop,
}
use fptn_keenetic.Base.Dict.{find, assign, erase, insert}
use fptn_keenetic.Network.Address.{Asio, v4, v6, to_int, ip_address, ipv4_address}
use fptn_keenetic.Packet.{
  IpPacket, is_ipv4, is_ipv6, has_protocol, is_tcp, is_udp, ipv4_ihl, ip_header_size, read_u16_be,
  get_udp_dst_port, get_dst_ipv4_address, get_tcp_dst_port, set_client_id,
}
use fptn_keenetic.Packet.Bytes.{are_bytes-AreBytes, overwrite, write_at, u16_be, write_u16_be}
use fptn_keenetic.Packet.Checksum.{add_words, fold, rfc1071, words}
use fptn_keenetic.Packet.Rewrite.{
  u32_be, compute_calculate_fields, set_dst_ipv4_address, set_src_ipv4_address,
}
use fptn_keenetic.Packet.Rewrite.Sent.{IsSent}
use fptn_keenetic.Packet.Transport.{
  ihl, u16_at, seal, checksum_ipv4_header, ipv4_transport_len, ipv4_pseudo_header,
  checksum_tcp_ipv4, checksum_udp_ipv4, checksum_icmp_ipv4, checksum_ipv4_transport,
  recalculate_checksums,
}
use fptn_keenetic.Packet.Transport.Unchanged.{IsIpv4}
use fptn_keenetic.Packet.Transport.Receiver.{ipv4_segment, received_ipv4_sum}
use fptn_keenetic.Filter.{apply}
use fptn_keenetic.Nat.Connection.{
  ConnectParams, ClientConnection, is_bidirectional, is_sending, is_receiving,
}
use fptn_keenetic.Nat.Multiplexer
use fptn_keenetic.Nat.Multiplexer.{
  Multiplexer, contains, place_by_role, has_client_id, find_by_client_id, is_nil,
}
use fptn_keenetic.Nat.Multiplexer.Receiver.{start_of, next_receiver_client_id}
use fptn_keenetic.Nat.Multiplexer.Rewrite.{
  to_connection, change_ip_address_to_client_ip, change_ip_address_to_fake_ip,
}
use fptn_keenetic.Nat.Table.{
  Table, open_session, join_session, add_connection, get_multiplexer_by_fake_ipv4,
  get_multiplexer_by_client_id,
}
use fptn_keenetic.Nat.Table.Tests.{
  fresh, fresh-IsValid, fresh-IsRouted, clock, clock-IsSteady, address,
}
use fptn_keenetic.Nat.Table.History.{Call, adds, step, run, run-Keeps}
use fptn_keenetic.Nat.Table.Routing.Calls.{run-IsRouted}
use fptn_keenetic.VpnManager.{
  Manager, System, may_pass, receiver_session, hand_over, packet_to_client, push_back, to_client,
  packet_from_client, from_client,
}
use fptn_keenetic.VpnManager.Transit.{IsReady}
use fptn_keenetic.VpnManager.Delivery.{
  IsDelivery, packet_to_client-IsDelivery, packet_from_client-IsSent,
}
use fptn_keenetic.VpnManager.Batches.{
  AreMarked, by_ipv4, to_client-AreMarked, packet_to_client-delivered,
}

program : Unit {0}
unfolding String_discrete ℕ_discrete find assign insert erase to_int ip_address ipv4_address is_ipv4
    is_ipv6 has_protocol is_tcp is_udp ipv4_ihl ip_header_size read_u16_be get_udp_dst_port
    get_tcp_dst_port get_dst_ipv4_address set_client_id overwrite write_at u16_be write_u16_be
    add_words fold rfc1071 words u32_be compute_calculate_fields set_dst_ipv4_address
    set_src_ipv4_address ihl u16_at seal checksum_ipv4_header ipv4_transport_len ipv4_pseudo_header
    checksum_tcp_ipv4 checksum_udp_ipv4 checksum_icmp_ipv4 checksum_ipv4_transport
    recalculate_checksums ipv4_segment received_ipv4_sum apply is_bidirectional is_sending
    is_receiving Multiplexer.create Multiplexer.add_client_connection contains place_by_role
    has_client_id find_by_client_id start_of next_receiver_client_id to_connection
    change_ip_address_to_client_ip change_ip_address_to_fake_ip open_session join_session
    add_connection get_multiplexer_by_fake_ipv4 get_multiplexer_by_client_id step run may_pass
    receiver_session hand_over packet_to_client push_back to_client packet_from_client from_client
program = tt

-- A client that sends and receives.
abbrev params : ConnectParams
params = record {
  client_id = 7;
  request = record {
    url = "/fptn";
    jwt_auth_token = "token";
    session_id = "a";
    connection_weight = 1;
    send_duration_ms = 0;
    ttl_ms = 0;
    client_ipv4 = address "192.168.0.1" 10;
    client_tun_vpn_ipv4 = address "10.10.0.1" 0x0A0A0001;
    client_tun_vpn_ipv6 = record { ip = "fc00::1"; ip_impl = v4 0 };
  };
  user = record { username = "user"; bandwidth_bites_seconds = 8000 };
}

abbrev calls : List Call
calls = adds 0 params none none ∷ []

abbrev nat : Table
nat = run clock calls fresh

nat-IsReady : IsReady nat
unfolding program
nat-IsReady = record {
  valid = (run-Keeps clock calls fresh clock-IsSteady fresh-IsValid (refl, tt)).valid;
  routed = run-IsRouted clock calls fresh clock-IsSteady fresh-IsValid fresh-IsRouted (refl, tt);
}

-- Every address parses as the session's.
abbrev asio : Asio
asio = record {
  make_address = λ s. some (v4 2);
  make_address_v4 = λ s. some 2;
  make_address_v6 = λ s. none;
  to_string = λ a. "10.0.0.2";
}

abbrev system : System
system = record {
  asio = asio;
  inet = record { inet_ntop_v4 = λ b. "10.0.0.2"; inet_ntop_v6 = λ b. "::" };
  inet_pton = λ s. none;
  clock = clock;
}

abbrev manager : Manager
manager = record {
  nat = nat;
  shapers = λ a. record {
    current_amount = 0;
    max_bytes_per_second = 0;
    last_leak_time = 0;
    full_data_amount = 0;
  };
}

-- UDP from 1.2.3.4 to 10.0.0.2, of one byte.
abbrev packet : IpPacket
packet = record {
  bytes =
      0x45 ∷ 0 ∷ 0 ∷ 29 ∷ 0 ∷ 1 ∷ 0 ∷ 0 ∷ 64 ∷ 17 ∷ 0 ∷ 0 ∷ 1 ∷ 2 ∷ 3 ∷ 4 ∷ 10 ∷ 0 ∷ 0 ∷ 2 ∷ 0 ∷ 53
      ∷ 1 ∷ 0 ∷ 0 ∷ 9 ∷ 0 ∷ 0 ∷ 77 ∷ [];
  client_id = 7;
}

packet-IsIpv4 : IsIpv4 packet.bytes
unfolding program
packet-IsIpv4 = record {
  bytes = are_bytes-AreBytes packet.bytes refl;
  version = refl;
  least = omega arith;
  whole = omega arith;
}

abbrev delivered : IpPacket
delivered = record {
  bytes =
      0x45 ∷ 0 ∷ 0 ∷ 29 ∷ 0 ∷ 1 ∷ 0 ∷ 0 ∷ 64 ∷ 17 ∷ 108 ∷ 191 ∷ 1 ∷ 2 ∷ 3 ∷ 4 ∷ 10 ∷ 10 ∷ 0 ∷ 1 ∷ 0
      ∷ 53 ∷ 1 ∷ 0 ∷ 0 ∷ 9 ∷ 163 ∷ 150 ∷ 77 ∷ [];
  client_id = 7;
}

abbrev session : Multiplexer
session =
    Multiplexer.create clock 0 params (address "10.0.0.2" 2)
      (record { ip = "fd00::2"; ip_impl = v6 [] }) none none

-- The source that the client wrote is replaced.
abbrev sent : IpPacket
sent = change_ip_address_to_fake_ip system.inet_pton packet session

main :
    ((packet_to_client system 0 (some packet) manager).1 ≡ some (7, delivered))
    × ((to_client system 0 (some packet ∷ none ∷ some packet ∷ []) manager []).1
        ≡ (7, delivered ∷ delivered ∷ []) ∷ [])
    × ((from_client system 0 [] (some packet ∷ none ∷ []) manager []).1 ≡ sent ∷ [])
    × (take 4 (drop 12 sent.bytes) ≡ 0 ∷ 0 ∷ 0 ∷ 2 ∷ [])
unfolding program
main = (refl, refl, refl, refl)

packet_to_client-IsDelivery_example : IsDelivery system nat packet 7 delivered
unfolding program
packet_to_client-IsDelivery_example =
    packet_to_client-IsDelivery system 0 packet manager 7 delivered nat-IsReady refl

packet_from_client-IsSent_example :
    IsSent (0 ∷ 0 ∷ 0 ∷ 2 ∷ []) (10 ∷ 0 ∷ 0 ∷ 2 ∷ []) packet.bytes sent.bytes
unfolding program
packet_from_client-IsSent_example =
    packet_from_client-IsSent system 0 [] packet manager 0 session sent refl refl refl tt
      packet-IsIpv4 (omega arith) refl

to_client-AreMarked_example :
    AreMarked (to_client system 0 (some packet ∷ none ∷ some packet ∷ []) manager []).1
to_client-AreMarked_example =
    to_client-AreMarked system 0 (some packet ∷ none ∷ some packet ∷ []) manager [] nat-IsReady tt

packet_to_client-delivered_example :
    (k : ℕ) × ((q : IpPacket) × (((packet_to_client system 0 (some packet) manager).1 ≡ some (k, q))
        × ((contains session.receiving k ≡ true) × (q.client_id ≡ k))))
unfolding program
packet_to_client-delivered_example =
    packet_to_client-delivered system 0 packet manager 0 session (by_ipv4 refl refl) refl refl refl

abbrev connection : ClientConnection
connection = record { params = params; accepted_at = 0 }
