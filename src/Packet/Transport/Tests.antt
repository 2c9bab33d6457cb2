-- ===== src/Packet/Transport/Tests.antt =====
-- Checksums of src/common/network/ip_utils.h on small packets.
use fptn_keenetic.Base.{ℕ, ◌*◌, ◌≡◌, refl, List, [], ◌∷◌, arith, inl, inr, take}
use fptn_keenetic.Packet.Bytes.{are_bytes-AreBytes, overwrite, write_at, u16_be, write_u16_be}
use fptn_keenetic.Packet.Checksum.{add_words, fold, rfc1071, words}
use fptn_keenetic.Packet.Transport.{
  ihl, u16_at, seal, checksum_ipv4_header, ipv4_transport_len, ipv4_pseudo_header,
  checksum_tcp_ipv4, checksum_udp_ipv4, checksum_icmp_ipv4, checksum_ipv4_transport,
  ipv6_transport_len, ipv6_pseudo_header, checksum_tcp_ipv6, checksum_udp_ipv6,
  checksum_icmpv6_ipv6, checksum_ipv6_transport, recalculate_checksums,
}
use fptn_keenetic.Packet.Transport.Unchanged.{IsIpv4}
use fptn_keenetic.Packet.Transport.Ipv4.{recalculate-header}
use fptn_keenetic.Packet.Transport.Receiver.{
  ipv4_segment, received_ipv4_sum, ipv6_segment, received_ipv6_sum, recalculate-received_ipv4_sum,
  recalculate-received_ipv6_sum,
}
use fptn_keenetic.Packet.Transport.Ipv6.{IsIpv6}

program : Unit {0}
unfolding overwrite write_at u16_be write_u16_be add_words fold rfc1071 words ihl u16_at seal
    checksum_ipv4_header ipv4_transport_len ipv4_pseudo_header checksum_tcp_ipv4 checksum_udp_ipv4
    checksum_icmp_ipv4 checksum_ipv4_transport ipv6_transport_len ipv6_pseudo_header
    checksum_tcp_ipv6 checksum_udp_ipv6 checksum_icmpv6_ipv6 checksum_ipv6_transport
    recalculate_checksums ipv4_segment received_ipv4_sum ipv6_segment received_ipv6_sum
program = tt

-- An echo request.
abbrev ping : List ℕ
ping =
    0x45 ∷ 0 ∷ 0 ∷ 28 ∷ 0 ∷ 1 ∷ 0 ∷ 0 ∷ 64 ∷ 1 ∷ 0 ∷ 0 ∷ 10 ∷ 0 ∷ 0 ∷ 1 ∷ 10 ∷ 0 ∷ 0 ∷ 2 ∷ 8 ∷ 0 ∷ 0
    ∷ 0 ∷ 0 ∷ 1 ∷ 0 ∷ 1 ∷ []

-- UDP over IPv6, of one byte.
abbrev udp6 : List ℕ
udp6 =
    0x60 ∷ 0 ∷ 0 ∷ 0 ∷ 0 ∷ 9 ∷ 17 ∷ 64 ∷ 0xFD ∷ 0 ∷ 0 ∷ 0 ∷ 0 ∷ 0 ∷ 0 ∷ 0 ∷ 0 ∷ 0 ∷ 0 ∷ 0 ∷ 0 ∷ 0
    ∷ 0 ∷ 1 ∷ 0xFD ∷ 0 ∷ 0 ∷ 0 ∷ 0 ∷ 0 ∷ 0 ∷ 0 ∷ 0 ∷ 0 ∷ 0 ∷ 0 ∷ 0 ∷ 0 ∷ 0 ∷ 2 ∷ 0 ∷ 53 ∷ 0 ∷ 53 ∷ 0
    ∷ 9 ∷ 0 ∷ 0 ∷ 77 ∷ []

ping-IsIpv4 : IsIpv4 ping
unfolding program
ping-IsIpv4 = record {
  bytes = are_bytes-AreBytes ping refl;
  version = refl;
  least = omega arith;
  whole = omega arith;
}

udp6-IsIpv6 : IsIpv6 udp6
unfolding program
udp6-IsIpv6 = record { bytes = are_bytes-AreBytes udp6 refl; version = refl; whole = omega arith }

recalculate-header_example :
    (k : ℕ) × (words (take (ihl ping) (recalculate_checksums ping)) ≡ k * 65535)
recalculate-header_example = recalculate-header ping ping-IsIpv4

recalculate-received_ipv4_sum_example :
    (k : ℕ) × (received_ipv4_sum (recalculate_checksums ping) ≡ k * 65535)
unfolding program
recalculate-received_ipv4_sum_example =
    recalculate-received_ipv4_sum ping ping-IsIpv4 (inr (inr refl)) (omega arith)

recalculate-received_ipv6_sum_example :
    (k : ℕ) × (received_ipv6_sum (recalculate_checksums udp6) ≡ k * 65535)
unfolding program
recalculate-received_ipv6_sum_example =
    recalculate-received_ipv6_sum udp6 udp6-IsIpv6 (inr (inl refl)) (omega arith)
