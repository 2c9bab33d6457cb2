-- ===== src/Packet/Transport.antt =====
-- The checksums that src/common/network/ip_utils.h writes into a packet after a change of its
-- addresses. An `int` length that is not positive is 0 here.
pub mod Seal
pub mod Unchanged
pub mod Receiver
pub mod Ipv4
pub mod Ipv6
mod Tests
use fptn_keenetic.Base.{
  ℕ, ◌+◌, ◌-◌, ◌*◌, ◌/◌, ◌%◌, ◌^◌, List, [], ◌∷◌, ◌++◌, ◌==◌, ltb, if◌then◌else◌, min, bit_and,
  bit_or, length, get_or, take, drop,
}
use fptn_keenetic.Packet.Checksum.{add_words, rfc1071}
use fptn_keenetic.Packet.Bytes.{u16_be, write_u16_be}

unfoldable pub ihl : List ℕ → ℕ
ihl p = bit_and (get_or p 0 0) 0x0F * 4

unfoldable pub u16_at : List ℕ → ℕ → ℕ
u16_at p i = bit_or (get_or p i 0 * 2 ^ 8 % 2 ^ 16) (get_or p (i + 1) 0)

-- The two lines that end each function: the checksum at `field` of what starts at `start` is
-- cleared, computed over `len` bytes, and written as `finish` makes it.
unfoldable pub seal : (ℕ → ℕ) → ℕ → ℕ → ℕ → ℕ → List ℕ → List ℕ
unfolding write_u16_be rfc1071
seal finish start field len seed p =
    let cleared = write_u16_be (start + field) 0 p in
    write_u16_be (start + field) (finish (rfc1071 (take len (drop start cleared)) seed)) cleared

abbrev pub as_is : ℕ → ℕ
as_is ck = ck

-- RFC 768: 0xFFFF instead of 0.
abbrev pub never_zero : ℕ → ℕ
never_zero ck = if ck == 0 then 0xFFFF else ck

unfoldable pub checksum_ipv4_header : List ℕ → List ℕ
unfolding ihl seal
checksum_ipv4_header p = seal as_is 0 10 (ihl p) 0 p

-- `std::min(total - ihl, buf_size - ihl)`.
unfoldable pub ipv4_transport_len : List ℕ → ℕ
unfolding ihl u16_at
ipv4_transport_len p = min (u16_at p 2 - ihl p) (length p - ihl p)

-- The loop over the 12-byte pseudo-header.
unfoldable pub ipv4_pseudo_header : ℕ → ℕ → List ℕ → List ℕ
unfolding u16_be
ipv4_pseudo_header protocol len p =
    take 4 (drop 12 p) ++ take 4 (drop 16 p) ++ (0 ∷ protocol ∷ u16_be len)

unfoldable pub checksum_tcp_ipv4 : List ℕ → List ℕ
unfolding ihl ipv4_transport_len ipv4_pseudo_header add_words seal
checksum_tcp_ipv4 p =
    let tcp_len = ipv4_transport_len p in
    let sum = add_words (ipv4_pseudo_header 6 tcp_len p) 0 in
    if ltb (length p) (ihl p + 18)
    then p
    else if tcp_len == 0
    then p
    else seal as_is (ihl p) 16 tcp_len sum p

unfoldable pub checksum_udp_ipv4 : List ℕ → List ℕ
unfolding ihl ipv4_transport_len ipv4_pseudo_header add_words seal
checksum_udp_ipv4 p =
    let udp_len = ipv4_transport_len p in
    let sum = add_words (ipv4_pseudo_header 17 udp_len p) 0 in
    if ltb (length p) (ihl p + 8)
    then p
    else if udp_len == 0
    then p
    else seal never_zero (ihl p) 6 udp_len sum p

unfoldable pub checksum_icmp_ipv4 : List ℕ → List ℕ
unfolding ihl ipv4_transport_len seal
checksum_icmp_ipv4 p =
    let icmp_len = ipv4_transport_len p in
    if ltb (length p) (ihl p + 4)
    then p
    else if icmp_len == 0
    then p
    else seal as_is (ihl p) 2 icmp_len 0 p

-- `std::min(payload_length, buf_size - 40)`.
unfoldable pub ipv6_transport_len : List ℕ → ℕ
unfolding u16_at
ipv6_transport_len p = min (u16_at p 4) (length p - 40)

-- The 40-byte pseudo-header.
unfoldable pub ipv6_pseudo_header : ℕ → ℕ → List ℕ → List ℕ
unfolding u16_be
ipv6_pseudo_header next_header len p =
    take 16 (drop 8 p)
    ++ take 16 (drop 24 p)
    ++ (0 ∷ 0 ∷ u16_be len)
    ++ (0 ∷ 0 ∷ 0 ∷ next_header ∷ [])

unfoldable pub checksum_tcp_ipv6 : List ℕ → List ℕ
unfolding ipv6_transport_len ipv6_pseudo_header add_words seal
checksum_tcp_ipv6 p =
    let tcp_len = ipv6_transport_len p in
    let sum = add_words (ipv6_pseudo_header 6 tcp_len p) 0 in
    if ltb (length p) (40 + 18)
    then p
    else if tcp_len == 0
    then p
    else seal as_is 40 16 tcp_len sum p

unfoldable pub checksum_udp_ipv6 : List ℕ → List ℕ
unfolding ipv6_transport_len ipv6_pseudo_header add_words seal
checksum_udp_ipv6 p =
    let udp_len = ipv6_transport_len p in
    let sum = add_words (ipv6_pseudo_header 17 udp_len p) 0 in
    if ltb (length p) (40 + 8)
    then p
    else if udp_len == 0
    then p
    else seal never_zero 40 6 udp_len sum p

unfoldable pub checksum_icmpv6_ipv6 : List ℕ → List ℕ
unfolding ipv6_transport_len ipv6_pseudo_header add_words seal
checksum_icmpv6_ipv6 p =
    let icmp_len = ipv6_transport_len p in
    let sum = add_words (ipv6_pseudo_header 58 icmp_len p) 0 in
    if ltb (length p) (40 + 4)
    then p
    else if icmp_len == 0
    then p
    else seal as_is 40 2 icmp_len sum p

-- The `switch` over the protocol of an IPv4 packet.
unfoldable pub checksum_ipv4_transport : List ℕ → List ℕ
unfolding checksum_tcp_ipv4 checksum_udp_ipv4 checksum_icmp_ipv4
checksum_ipv4_transport p =
    if get_or p 9 0 == 6
    then checksum_tcp_ipv4 p
    else if get_or p 9 0 == 17
    then checksum_udp_ipv4 p
    else if get_or p 9 0 == 1
    then checksum_icmp_ipv4 p
    else p

-- The `switch` over the next header of an IPv6 packet.
unfoldable pub checksum_ipv6_transport : List ℕ → List ℕ
unfolding checksum_tcp_ipv6 checksum_udp_ipv6 checksum_icmpv6_ipv6
checksum_ipv6_transport p =
    if get_or p 6 0 == 6
    then checksum_tcp_ipv6 p
    else if get_or p 6 0 == 17
    then checksum_udp_ipv6 p
    else if get_or p 6 0 == 58
    then checksum_icmpv6_ipv6 p
    else p

unfoldable pub recalculate_checksums : List ℕ → List ℕ
unfolding checksum_ipv4_transport checksum_ipv4_header checksum_ipv6_transport
recalculate_checksums p =
    if ltb (length p) 1
    then p
    else if get_or p 0 0 / 2 ^ 4 == 4
    then (if ltb (length p) 20 then p else checksum_ipv4_header (checksum_ipv4_transport p))
    else if get_or p 0 0 / 2 ^ 4 == 6
    then (if ltb (length p) 40 then p else checksum_ipv6_transport p)
    else p
