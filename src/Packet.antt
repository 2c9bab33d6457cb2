-- ===== src/Packet.antt =====
-- src/common/network/ip_packet.h: a packet is its bytes and the client it came from. The reads
-- past the end, which would be undefined, give 0 here; `parse` lets no packet through that is
-- shorter than its fixed header.
pub mod Bytes
pub mod Checksum
pub mod TlsHello
pub mod Reader
pub mod Dns
pub mod Rewrite
pub mod Transport
use fptn_keenetic.Base.{
  ℕ, ◌+◌, ◌*◌, ◌/◌, ◌%◌, ◌^◌, List, Option, none, some, Bool, false, not, ◌&&◌, ◌||◌, ◌==◌, ltb,
  leb, if◌then◌else◌, bit_and, bit_or, length, get_or, take, drop, String,
}
use fptn_keenetic.Network.Address.{Asio, IpAddress, unspecified, ipv4_address, ipv6_address}

pub record IpPacket : Type 0 where
  pub bytes : List ℕ
  pub client_id : ℕ

abbrev pub at : IpPacket → ℕ → ℕ
at p i = get_or p.bytes i 0

abbrev pub size : IpPacket → ℕ
size p = length p.bytes

unfoldable pub read_u16_be : IpPacket → ℕ → ℕ
read_u16_be p i = bit_or (at p i * 2 ^ 8 % 2 ^ 16) (at p (i + 1))

unfoldable pub ipv4_ihl : IpPacket → ℕ
ipv4_ihl p = bit_and (at p 0) 0x0F * 4

unfoldable pub parse : List ℕ → ℕ → Option IpPacket
parse buffer client_id =
    let version = get_or buffer 0 0 / 2 ^ 4 in
    if ltb (length buffer) 20
    then none
    else if version == 4 || (version == 6 && leb 40 (length buffer))
    then some (record { bytes = buffer; client_id = client_id })
    else none

unfoldable pub set_client_id : ℕ → IpPacket → IpPacket
set_client_id client_id p = record p { client_id = client_id }

unfoldable pub is_ipv4 : IpPacket → Bool
is_ipv4 p = ltb 0 (size p) && at p 0 / 2 ^ 4 == 4

unfoldable pub is_ipv6 : IpPacket → Bool
is_ipv6 p = ltb 0 (size p) && at p 0 / 2 ^ 4 == 6

-- `IsTCP` and `IsUDP` are this for the protocols 6 and 17.
unfoldable pub has_protocol : ℕ → IpPacket → Bool
unfolding is_ipv4 is_ipv6
has_protocol protocol p =
    if is_ipv4 p
    then leb 20 (size p) && at p 9 == protocol
    else if is_ipv6 p
    then leb 40 (size p) && at p 6 == protocol
    else false

unfoldable pub is_tcp : IpPacket → Bool
unfolding has_protocol
is_tcp p = has_protocol 6 p

unfoldable pub is_udp : IpPacket → Bool
unfolding has_protocol
is_udp p = has_protocol 17 p

unfoldable pub is_icmpv4 : IpPacket → Bool
unfolding is_ipv4
is_icmpv4 p = is_ipv4 p && leb 20 (size p) && at p 9 == 1

unfoldable pub is_icmpv6 : IpPacket → Bool
unfolding is_ipv6
is_icmpv6 p = is_ipv6 p && leb 40 (size p) && at p 6 == 58

unfoldable pub ip_header_size : IpPacket → ℕ
unfolding is_ipv4 ipv4_ihl
ip_header_size p = if is_ipv4 p then ipv4_ihl p else 40

unfoldable pub get_tcp_src_port : IpPacket → ℕ
unfolding ip_header_size read_u16_be
get_tcp_src_port p =
    if ltb (size p) (ip_header_size p + 2) then 0 else read_u16_be p (ip_header_size p)

unfoldable pub get_udp_src_port : IpPacket → ℕ
unfolding ip_header_size read_u16_be
get_udp_src_port p =
    if ltb (size p) (ip_header_size p + 2) then 0 else read_u16_be p (ip_header_size p)

unfoldable pub get_tcp_dst_port : IpPacket → ℕ
unfolding ip_header_size read_u16_be
get_tcp_dst_port p =
    if ltb (size p) (ip_header_size p + 4) then 0 else read_u16_be p (ip_header_size p + 2)

unfoldable pub get_udp_dst_port : IpPacket → ℕ
unfolding ip_header_size read_u16_be
get_udp_dst_port p =
    if ltb (size p) (ip_header_size p + 4) then 0 else read_u16_be p (ip_header_size p + 2)

-- A null pointer is `none`.
unfoldable pub get_tcp_payload : IpPacket → Option (List ℕ)
unfolding ip_header_size is_ipv4
get_tcp_payload p =
    if not ((if is_ipv4 p then at p 9 else at p 6) == 6)
    then none
    else if ltb (size p) (ip_header_size p + 20)
    then none
    else if ltb (size p) (ip_header_size p + tcp_hdr)
    then none
    else some (drop (ip_header_size p + tcp_hdr) p.bytes)
  where
    tcp_hdr : ℕ
    tcp_hdr = at p (ip_header_size p + 12) / 2 ^ 4 * 4

unfoldable pub get_udp_payload : IpPacket → Option (List ℕ)
unfolding ip_header_size is_ipv4
get_udp_payload p =
    if not ((if is_ipv4 p then at p 9 else at p 6) == 17)
    then none
    else if ltb (size p) (ip_header_size p + 8)
    then none
    else some (drop (ip_header_size p + 8) p.bytes)

-- `inet_ntop`, from the bytes of an address in network order.
pub record Inet : Type 0 where
  pub inet_ntop_v4 : List ℕ → String
  pub inet_ntop_v6 : List ℕ → String

-- The default address.
abbrev no_address : IpAddress
no_address = record { ip = ""; ip_impl = unspecified }

module _ (asio : Asio) (inet : Inet) where
  open inet use {inet_ntop_v4, inet_ntop_v6}

  unfoldable pub get_src_ipv4_address : IpPacket → IpAddress
  unfolding is_ipv4
  get_src_ipv4_address p =
      if not (is_ipv4 p) || ltb (size p) 20
      then no_address
      else ipv4_address asio (inet_ntop_v4 (take 4 (drop 12 p.bytes)))

  unfoldable pub get_src_ipv6_address : IpPacket → IpAddress
  unfolding is_ipv6
  get_src_ipv6_address p =
      if not (is_ipv6 p) || ltb (size p) 40
      then no_address
      else ipv6_address asio (inet_ntop_v6 (take 16 (drop 8 p.bytes)))

  unfoldable pub get_dst_ipv4_address : IpPacket → IpAddress
  unfolding is_ipv4
  get_dst_ipv4_address p =
      if not (is_ipv4 p) || ltb (size p) 20
      then no_address
      else ipv4_address asio (inet_ntop_v4 (take 4 (drop 16 p.bytes)))

  unfoldable pub get_dst_ipv6_address : IpPacket → IpAddress
  unfolding is_ipv6
  get_dst_ipv6_address p =
      if not (is_ipv6 p) || ltb (size p) 40
      then no_address
      else ipv6_address asio (inet_ntop_v6 (take 16 (drop 24 p.bytes)))
