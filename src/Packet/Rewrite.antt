-- ===== src/Packet/Rewrite.antt =====
-- The setters of src/common/network/ip_packet.h, which change an address and recalculate the
-- checksums. `inet_pton`, which reads an IPv6 address, is a parameter.
pub mod Sent
use fptn_keenetic.Base.{
  ℕ, ◌+◌, ◌/◌, ◌%◌, ◌^◌, ◌≤◌, ◌<◌, ◌≡◌, ◌≢◌, refl, ◌∙◌, ap, List, [], ◌∷◌, arith, Bool, true, false,
  Option, none, some, not, ◌||◌, ◌==◌, ltb, if◌then◌else◌, length, take, drop, get_or, String, ◌⊎◌,
}
use fptn_keenetic.Network.Address.{IpAddress, to_int}
use fptn_keenetic.Packet.{IpPacket, at, size, is_ipv4, is_ipv6}
use fptn_keenetic.Packet.Bytes.{
  AreBytes, write_at, length-write_at, write_at-AreBytes, get_or-write_at_before, read-write_at,
  slice-write_at_before, drop-write_at_before,
}
use fptn_keenetic.Packet.Checksum.{words}
use fptn_keenetic.Packet.Transport.{ihl, u16_at, ipv4_transport_len, recalculate_checksums}
use fptn_keenetic.Packet.Transport.Unchanged.{
  IsIpv4, SameHeader, checksum_field, ihl-SameHeader, len-SameHeader,
}
use fptn_keenetic.Packet.Transport.Ipv4.{
  ipv4_transport_sum, recalculate-header, recalculate-transport, recalculate-Keeps,
}

-- What `memcpy` copies from `htonl`.
unfoldable pub u32_be : ℕ → List ℕ
u32_be n = n / 2 ^ 24 % 2 ^ 8 ∷ n / 2 ^ 16 % 2 ^ 8 ∷ n / 2 ^ 8 % 2 ^ 8 ∷ n % 2 ^ 8 ∷ []

unfoldable pub compute_calculate_fields : IpPacket → IpPacket
compute_calculate_fields p =
    if ltb (size p) 20 then p else record p { bytes = recalculate_checksums p.bytes }

-- An IPv4 packet whose time to live is 0 keeps its address.
unfoldable pub set_dst_ipv4_address : IpAddress → IpPacket → IpPacket
set_dst_ipv4_address dst p =
    if not (is_ipv4 p) || ltb (size p) 20
    then p
    else if at p 8 == 0
    then p
    else record p { bytes = recalculate_checksums (write_at 16 (u32_be (to_int dst)) p.bytes) }

unfoldable pub set_src_ipv4_address : IpAddress → IpPacket → IpPacket
set_src_ipv4_address src p =
    if not (is_ipv4 p) || ltb (size p) 20
    then p
    else if at p 8 == 0
    then p
    else record p { bytes = recalculate_checksums (write_at 12 (u32_be (to_int src)) p.bytes) }

module _ (inet_pton : String → Option (List ℕ)) where
  unfoldable pub set_dst_ipv6_address : IpAddress → IpPacket → IpPacket
  set_dst_ipv6_address dst p =
      if not (is_ipv6 p) || ltb (size p) 40 then p else elim (inet_pton dst.ip) [
        | none ↦ p
        | some addr ↦ record p { bytes = recalculate_checksums (write_at 24 addr p.bytes) }
      ]

  unfoldable pub set_src_ipv6_address : IpAddress → IpPacket → IpPacket
  set_src_ipv6_address src p =
      if not (is_ipv6 p) || ltb (size p) 40 then p else elim (inet_pton src.ip) [
        | none ↦ p
        | some addr ↦ record p { bytes = recalculate_checksums (write_at 8 addr p.bytes) }
      ]
