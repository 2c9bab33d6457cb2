-- ===== src/Packet/Rewrite/Sent.antt =====
-- The IPv4 packets that the setters of src/common/network/ip_packet.h make.
use fptn_keenetic.Base.{
  String, Option, Option-cases, inl, inr, ℕ, ◌+◌, ◌*◌, ◌≤◌, ◌<◌, ◌≡◌, refl, ◌∙◌, ap, List, arith,
  Bool, true, false, not, ◌||◌, ◌==◌, ltb, if◌then◌else◌, length, take, drop, get_or, ◌⊎◌,
}
use fptn_keenetic.Network.Address.{IpAddress, to_int}
use fptn_keenetic.Packet.{IpPacket, at, size, is_ipv4, is_ipv6}
use fptn_keenetic.Packet.Bytes.{
  AreBytes, write_at, length-write_at, write_at-AreBytes, get_or-write_at_before, read-write_at,
  slice-write_at_before, drop-write_at_before,
}
use fptn_keenetic.Packet.Checksum.{words}
use fptn_keenetic.Packet.Transport.{ihl, u16_at, ipv4_transport_len, recalculate_checksums}
use fptn_keenetic.Packet.Transport.Unchanged.{
  IsIpv4, below, zero-below, checksum_field, ihl-SameHeader, len-SameHeader,
}
use fptn_keenetic.Packet.Transport.Receiver.{
  received_ipv4_sum, recalculate-received_ipv4_sum, segment_length,
}
use fptn_keenetic.Packet.Transport.Ipv4.{recalculate-header, recalculate-Keeps}
use fptn_keenetic.Packet.Rewrite.{
  u32_be, compute_calculate_fields, set_dst_ipv4_address, set_src_ipv4_address,
  set_dst_ipv6_address,
}

-- The bytes `q` are a whole IPv4 packet as long as `p`, from `src` to `dst`, whose header the
-- receiver accepts.
pub record IsSent (src dst p q : List ℕ) : Type 0 where
  pub size : length q ≡ length p
  pub source : take 4 (drop 12 q) ≡ src
  pub destination : take 4 (drop 16 q) ≡ dst
  pub valid : IsIpv4 q
  pub header : (k : ℕ) × (words (take (ihl q) q) ≡ k * 65535)
  pub protocol : get_or q 9 0 ≡ get_or p 9 0
  pub room : ipv4_transport_len q ≡ ipv4_transport_len p

abbrev source_of : List ℕ → List ℕ
source_of p = take 4 (drop 12 p)

abbrev destination_of : List ℕ → List ℕ
destination_of p = take 4 (drop 16 p)

recalculate-IsSent :
    (p : List ℕ) → IsIpv4 p → IsSent (source_of p) (destination_of p) p (recalculate_checksums p)
recalculate-IsSent p v =
    let (s, valid) = recalculate-Keeps p v in
    let (k, sum) = recalculate-header p v in
    record {
      size = s.size;
      source = s.source;
      destination = s.destination;
      valid = valid;
      header = (k, rw (ihl-SameHeader p (recalculate_checksums p) s) sum);
      protocol = s.head 9 (omega arith);
      room = len-SameHeader p (recalculate_checksums p) s;
    }

-- To recalculate again keeps that.
again :
    (source destination p q : List ℕ)
    → IsSent source destination p q
    → IsSent source destination p (recalculate_checksums q)
again source destination p q s =
    let t = recalculate-IsSent q s.valid in
    record {
      size = t.size ∙ s.size;
      source = t.source ∙ s.source;
      destination = t.destination ∙ s.destination;
      valid = t.valid;
      header = t.header;
      protocol = t.protocol ∙ s.protocol;
      room = t.room ∙ s.room;
    }

-- A write behind the first ten bytes leaves the header's fields.
write-ihl : (i : ℕ) (xs p : List ℕ) → 10 ≤ i → ihl (write_at i xs p) ≡ ihl p
unfolding ihl
write-ihl i xs p h = rw (get_or-write_at_before 0 i xs p (omega arith)) refl

write-len :
    (i : ℕ) (xs p : List ℕ) → 10 ≤ i → ipv4_transport_len (write_at i xs p) ≡ ipv4_transport_len p
unfolding ipv4_transport_len u16_at
write-len i xs p h =
    rw
      (
        write-ihl i xs p h,
        get_or-write_at_before 2 i xs p (omega arith),
        get_or-write_at_before 3 i xs p (omega arith),
        length-write_at i xs p,
      )
      refl

write-IsIpv4 : (i : ℕ) (xs p : List ℕ) → 10 ≤ i → AreBytes xs → IsIpv4 p → IsIpv4 (write_at i xs p)
write-IsIpv4 i xs p h bytes v = record {
  bytes = write_at-AreBytes i xs p bytes v.bytes;
  version = rw (get_or-write_at_before 0 i xs p (omega arith)) v.version;
  least = omega (arith, v.least, write-ihl i xs p h);
  whole = omega (arith, v.whole, length-write_at i xs p, write-ihl i xs p h);
}

write-IsSent :
    (i : ℕ) (xs source destination p : List ℕ)
    → 10 ≤ i
    → AreBytes xs
    → IsIpv4 p
    → source_of (write_at i xs p) ≡ source
    → destination_of (write_at i xs p) ≡ destination
    → IsSent source destination p (recalculate_checksums (write_at i xs p))
write-IsSent i xs source destination p h bytes v es ed =
    let w = write_at i xs p in
    let t = recalculate-IsSent w (write-IsIpv4 i xs p h bytes v) in
    record {
      size = t.size ∙ length-write_at i xs p;
      source = t.source ∙ es;
      destination = t.destination ∙ ed;
      valid = t.valid;
      header = t.header;
      protocol = t.protocol ∙ get_or-write_at_before 9 i xs p (omega arith);
      room = t.room ∙ write-len i xs p h;
    }

u32_be-AreBytes : (n : ℕ) → AreBytes (u32_be n)
unfolding u32_be
u32_be-AreBytes n = (omega arith, (omega arith, (omega arith, (omega arith, tt))))

long : (p : List ℕ) → IsIpv4 p → 20 ≤ length p
long p v = omega (arith, v.least, v.whole)

dst-read :
    (n : ℕ) (p : List ℕ) → 20 ≤ length p → destination_of (write_at 16 (u32_be n) p) ≡ u32_be n
unfolding u32_be
dst-read n p h = read-write_at 16 (u32_be n) p h

src-read : (n : ℕ) (p : List ℕ) → 20 ≤ length p → source_of (write_at 12 (u32_be n) p) ≡ u32_be n
unfolding u32_be
src-read n p h = read-write_at 12 (u32_be n) p (omega arith)

src-kept : (n : ℕ) (p : List ℕ) → destination_of (write_at 12 (u32_be n) p) ≡ destination_of p
unfolding u32_be
src-kept n p = ap (take 4) (drop-write_at_before 16 12 (u32_be n) p (omega arith))

open_gate : (p : IpPacket) → IsIpv4 p.bytes → (not (is_ipv4 p) || ltb (size p) 20) ≡ false
unfolding is_ipv4
open_gate p v = rw (v.version, below (size p) 20 (long p.bytes v)) (ground (arith, long p.bytes v))

-- `SetDstIPv4Address`.
pub set_dst-IsSent :
    (dst : IpAddress) (p : IpPacket)
    → IsIpv4 p.bytes
    → 0 < at p 8
    → IsSent (source_of p.bytes) (u32_be (to_int dst)) p.bytes (set_dst_ipv4_address dst p).bytes
unfolding set_dst_ipv4_address
set_dst-IsSent dst p v alive =
    rw (open_gate p v, zero-below (at p 8) alive)
      (write-IsSent 16 (u32_be (to_int dst)) _ _ p.bytes (omega arith) (u32_be-AreBytes _) v
        (slice-write_at_before 12 4 16 (u32_be (to_int dst)) p.bytes (omega arith))
        (dst-read (to_int dst) p.bytes (long p.bytes v)))

-- `SetSrcIPv4Address`.
pub set_src-IsSent :
    (src : IpAddress) (p : IpPacket)
    → IsIpv4 p.bytes
    → 0 < at p 8
    → IsSent
        (u32_be (to_int src))
        (destination_of p.bytes)
        p.bytes
        (set_src_ipv4_address src p).bytes
unfolding set_src_ipv4_address
set_src-IsSent src p v alive =
    rw (open_gate p v, zero-below (at p 8) alive)
      (write-IsSent 12 (u32_be (to_int src)) _ _ p.bytes (omega arith) (u32_be-AreBytes _) v
        (src-read (to_int src) p.bytes (long p.bytes v)) (src-kept (to_int src) p.bytes))

-- `ComputeCalculateFields`.
pub compute-IsSent :
    (source destination p : List ℕ) (q : IpPacket)
    → IsSent source destination p q.bytes
    → IsSent source destination p (compute_calculate_fields q).bytes
unfolding compute_calculate_fields
compute-IsSent source destination p q s =
    rw (below (size q) 20 (long q.bytes s.valid)) (again source destination p q.bytes s)

-- After it the receiver accepts the segment too.
pub compute-transport :
    (source destination p : List ℕ) (q : IpPacket)
    → IsSent source destination p q.bytes
    → (get_or p 9 0 ≡ 6) ⊎ ((get_or p 9 0 ≡ 17) ⊎ (get_or p 9 0 ≡ 1))
    → checksum_field (get_or p 9 0) + 2 ≤ ipv4_transport_len p
    → (k : ℕ) × (received_ipv4_sum (compute_calculate_fields q).bytes ≡ k * 65535)
unfolding compute_calculate_fields
compute-transport source destination p q s known room =
    rw (below (size q) 20 (long q.bytes s.valid)) (
      recalculate-received_ipv4_sum q.bytes s.valid (rw s.protocol known)
        (rw (segment_length q.bytes s.valid.bytes, s.protocol, s.room) room))

pub if_client_id :
    (p q : IpPacket) {k : ℕ} (b : Bool)
    → p.client_id ≡ k
    → q.client_id ≡ k
    → (if b then p else q).client_id ≡ k
if_client_id p q true h h' = h
if_client_id p q false h h' = h'

pub compute-client_id : (q : IpPacket) → (compute_calculate_fields q).client_id ≡ q.client_id
unfolding compute_calculate_fields
compute-client_id q = if_client_id _ _ (ltb (size q) 20) refl refl

pub set_dst-client_id :
    (dst : IpAddress) (p : IpPacket) → (set_dst_ipv4_address dst p).client_id ≡ p.client_id
unfolding set_dst_ipv4_address
set_dst-client_id dst p =
    if_client_id _ _ (not (is_ipv4 p) || ltb (size p) 20) refl
      (if_client_id _ _ (at p 8 == 0) refl refl)

pub set_dst_ipv6-client_id :
    (inet_pton : String → Option (List ℕ)) (dst : IpAddress) (p : IpPacket)
    → (set_dst_ipv6_address inet_pton dst p).client_id ≡ p.client_id
unfolding set_dst_ipv6_address
set_dst_ipv6-client_id inet_pton dst p =
    if_client_id _ _ (not (is_ipv6 p) || ltb (size p) 40) refl
      (elim (Option-cases (inet_pton dst.ip)) [
        | inl unread ↦ rw unread refl
        | inr (addr, e) ↦ rw e refl
      ])
