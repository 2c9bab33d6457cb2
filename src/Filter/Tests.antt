-- ===== src/Filter/Tests.antt =====
-- Packets that the filters of src/fptn-server/filter see.
use fptn_keenetic.Base.{
  ℕ, ◌^◌, ◌-◌, ◌≡◌, refl, List, [], ◌∷◌, ◌++◌, none, some, ◌||◌, String_discrete,
}
use fptn_keenetic.Network.Address.{Asio, v4, to_int, ip_address, ipv4_address}
use fptn_keenetic.Packet.{
  IpPacket, read_u16_be, ipv4_ihl, parse, is_ipv4, is_ipv6, has_protocol, is_tcp, is_udp,
  ip_header_size, get_tcp_payload, get_udp_payload, get_dst_ipv4_address, get_dst_ipv6_address,
}
use fptn_keenetic.Filter.{BaseFilter, apply}
use fptn_keenetic.Filter.BitTorrent
use fptn_keenetic.Filter.BitTorrent.{
  begins, classic, extension_protocol, dht, detect_bit_torrent, detect_bit_torrent_lem,
}
use fptn_keenetic.Filter.AntiScan
use fptn_keenetic.Filter.AntiScan.{AntiScan, ipv4_mask, passes_ipv4, passes_ipv4_lem}

program : Unit {0}
unfolding String_discrete to_int ip_address ipv4_address read_u16_be ipv4_ihl parse is_ipv4 is_ipv6
    has_protocol is_tcp is_udp ip_header_size get_tcp_payload get_udp_payload get_dst_ipv4_address
    get_dst_ipv6_address apply BitTorrent.apply begins detect_bit_torrent ipv4_mask passes_ipv4
    AntiScan.apply AntiScan.passes_ipv6
program = tt

-- A library that reads every text as the broadcast address.
abbrev asio : Asio
asio = record {
  make_address = λ s. some (v4 (2 ^ 32 - 1));
  make_address_v4 = λ s. some (2 ^ 32 - 1);
  make_address_v6 = λ s. none;
  to_string = λ a. "255.255.255.255";
}

-- An IPv4 packet of UDP to port 6881 with four bytes.
abbrev udp_bytes : List ℕ
udp_bytes =
    0x45 ∷ 0 ∷ 0 ∷ 32 ∷ 0 ∷ 0 ∷ 0 ∷ 0 ∷ 64 ∷ 17 ∷ 0 ∷ 0 ∷ 10 ∷ 20 ∷ 0 ∷ 2 ∷ 10 ∷ 20 ∷ 0 ∷ 1 ∷ 0x1A
    ∷ 0xE1 ∷ 0x1A ∷ 0xE1 ∷ 0 ∷ 12 ∷ 0 ∷ 0 ∷ 1 ∷ 2 ∷ 3 ∷ 4 ∷ []

abbrev udp : IpPacket
udp = record { bytes = udp_bytes; client_id = 7 }

abbrev dht_packet : IpPacket
dht_packet = record {
  bytes =
      (0x45 ∷ 0 ∷ 0 ∷ 38 ∷ 0 ∷ 0 ∷ 0 ∷ 0 ∷ 64 ∷ 17 ∷ 0 ∷ 0 ∷ 10 ∷ 20 ∷ 0 ∷ 2 ∷ 10 ∷ 20 ∷ 0 ∷ 1
        ∷ 0x1A ∷ 0xE1 ∷ 0x1A ∷ 0xE1 ∷ 0 ∷ 18 ∷ 0 ∷ 0 ∷ [])
      ++ dht;
  client_id = 7;
}

main :
    (parse udp_bytes 7 ≡ some udp)
    × (get_udp_payload udp ≡ some (1 ∷ 2 ∷ 3 ∷ 4 ∷ []))
    × (BitTorrent.apply udp ≡ some udp)
    × (BitTorrent.apply dht_packet ≡ none)
unfolding program
main = (refl, refl, refl, refl)

detect_bit_torrent_lem_example :
    detect_bit_torrent dht ≡ begins classic dht || begins extension_protocol dht || begins dht dht
detect_bit_torrent_lem_example = detect_bit_torrent_lem dht

abbrev filters : List BaseFilter
filters = BitTorrent.apply ∷ (λ p. none) ∷ []

abbrev scan : AntiScan
scan = record {
  server_ipv4 = 0x0A14_0001;
  server_ipv4_net = 0x0A14_0000;
  server_ipv4_mask = ipv4_mask 16;
  server_ipv6 = 1;
  server_ipv6_net = 0;
  server_ipv6_mask = 2 ^ 16 - 1;
}
