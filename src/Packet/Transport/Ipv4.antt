-- ===== src/Packet/Transport/Ipv4.antt =====
-- `RecalculateChecksums` of src/common/network/ip_utils.h on an IPv4 packet, against the sums that
-- a receiver checks.
use fptn_keenetic.Base.{
  ℕ, ◌+◌, ◌-◌, ◌*◌, ◌^◌, ◌≤◌, ◌<◌, ◌≡◌, refl, subst, ◌∙◌, List, ◌∷◌, ◌++◌, arith, true, ◌==◌,
  if◌then◌else◌, length, take, drop, get_or, ◌⊎◌, inl, inr, length-append, length-take, All-append,
  Bool-cases,
}
use fptn_keenetic.Packet.Checksum.{words, add_words, add_words_lem}
use fptn_keenetic.Packet.Bytes.{AreBytes, u16_be}
use fptn_keenetic.Packet.Transport.{
  ihl, seal, as_is, never_zero, ipv4_transport_len, ipv4_pseudo_header, checksum_ipv4_header,
  checksum_tcp_ipv4, checksum_udp_ipv4, checksum_icmp_ipv4, checksum_ipv4_transport,
  recalculate_checksums,
}
use fptn_keenetic.Packet.Transport.Seal.{
  IsFinish, as_is-IsFinish, never_zero-IsFinish, is_even, seal_lem, seal-AreBytes, drop-seal,
  words-bound, u16_be-AreBytes, take-AreBytes, drop-AreBytes,
}
use fptn_keenetic.Packet.Transport.Unchanged.{
  IsIpv4, SameHeader, checksum_field, get_or-byte, u16_at-small, zero-below, ihl-SameHeader,
  len-SameHeader, pseudo-SameHeader, header-SameHeader, trans_SameHeader, transport-Keeps,
  ihl-small, below, recalculate-eq,
}

-- The words that a receiver adds up: the pseudo-header, but for ICMP, and all of the segment.
unfoldable pub ipv4_transport_sum : List ℕ → ℕ
unfolding ihl ipv4_transport_len ipv4_pseudo_header words
ipv4_transport_sum p =
    let area = words (take (ipv4_transport_len p) (drop (ihl p) p)) in
    if get_or p 9 0 == 1
    then area
    else words (ipv4_pseudo_header (get_or p 9 0) (ipv4_transport_len p) p) + area

-- The sum that a receiver checks in the header of an IPv4 packet with a whole header is right after the recalculation: the
-- header's words add up to a multiple of 65535.
pub recalculate-header :
    (p : List ℕ) → IsIpv4 p → (k : ℕ) × (words (take (ihl p) (recalculate_checksums p)) ≡ k * 65535)
unfolding checksum_ipv4_header
recalculate-header p v =
    let t = checksum_ipv4_transport p in
    let (same, bytes) = transport-Keeps p v.least v.bytes in
    let len : ihl t ≡ ihl p = ihl-SameHeader p t same in
    let (k, sum) =
      seal_lem as_is 0 10 (ihl t) 0 t as_is-IsFinish bytes refl (omega (arith, len, v.least))
        (omega (arith, len, v.whole, same.size)) (ihl-small t) (omega arith) in
    (k, rw (recalculate-eq p v, ← len) (omega (arith, sum)))

pub len-small : (p : List ℕ) → AreBytes p → ipv4_transport_len p < 2 ^ 16
unfolding ipv4_transport_len
len-small p h = omega (arith, u16_at-small p 2 h)

pub len-inside : (p : List ℕ) → ipv4_transport_len p ≤ length p - ihl p
unfolding ipv4_transport_len
len-inside p = omega arith

-- The sum that seeds the checksum of a segment.
abbrev seed_of : ℕ → List ℕ → ℕ
seed_of protocol p =
    if protocol == 1 then 0 else add_words (ipv4_pseudo_header protocol (ipv4_transport_len p) p) 0

-- The segment's checksum has been written.
sealed_transport :
    (p : List ℕ) (protocol : ℕ)
    → get_or p 9 0 ≡ protocol
    → (protocol ≡ 6) ⊎ ((protocol ≡ 17) ⊎ (protocol ≡ 1))
    → checksum_field protocol + 2 ≤ ipv4_transport_len p
    → (finish : ℕ → ℕ) × (IsFinish finish
        × (checksum_ipv4_transport p
            ≡ seal finish
                (ihl p)
                (checksum_field protocol)
                (ipv4_transport_len p)
                (seed_of protocol p)
                p))
unfolding checksum_ipv4_transport checksum_tcp_ipv4 checksum_udp_ipv4 checksum_icmp_ipv4
sealed_transport p protocol e (inl tcp) fits =
    let room : 18 ≤ ipv4_transport_len p =
      subst (λ x. checksum_field x + 2 ≤ ipv4_transport_len p) tcp fits in
    (
      as_is,
      (
        as_is-IsFinish,
        rw
            (
              e,
              tcp,
              below (length p) (ihl p + 18) (omega (arith, len-inside p, room)),
              zero-below (ipv4_transport_len p) (omega (arith, room)),
            )
            refl,
      ),
    )
sealed_transport p protocol e (inr (inl udp)) fits =
    let room : 8 ≤ ipv4_transport_len p =
      subst (λ x. checksum_field x + 2 ≤ ipv4_transport_len p) udp fits in
    (
      never_zero,
      (
        never_zero-IsFinish,
        rw
            (
              e,
              udp,
              below (length p) (ihl p + 8) (omega (arith, len-inside p, room)),
              zero-below (ipv4_transport_len p) (omega (arith, room)),
            )
            refl,
      ),
    )
sealed_transport p protocol e (inr (inr icmp)) fits =
    let room : 4 ≤ ipv4_transport_len p =
      subst (λ x. checksum_field x + 2 ≤ ipv4_transport_len p) icmp fits in
    (
      as_is,
      (
        as_is-IsFinish,
        rw
            (
              e,
              icmp,
              below (length p) (ihl p + 4) (omega (arith, len-inside p, room)),
              zero-below (ipv4_transport_len p) (omega (arith, room)),
            )
            refl,
      ),
    )

pseudo_header_bytes :
    (protocol len : ℕ) (p : List ℕ)
    → protocol < 256
    → AreBytes p
    → AreBytes (ipv4_pseudo_header protocol len p)
unfolding ipv4_pseudo_header
pseudo_header_bytes protocol len p small h =
    All-append (λ b. b < 256) (take 4 (drop 12 p) ++ take 4 (drop 16 p)) _
      (All-append (λ b. b < 256) (take 4 (drop 12 p)) (take 4 (drop 16 p))
        (take-AreBytes 4 _ (drop-AreBytes 12 p h)) (take-AreBytes 4 _ (drop-AreBytes 16 p h)))
      (omega arith, (small, u16_be-AreBytes len))

pseudo_header_length :
    (protocol len : ℕ) (p : List ℕ) → length (ipv4_pseudo_header protocol len p) ≤ 12
unfolding ipv4_pseudo_header u16_be
pseudo_header_length protocol len p = omega (
  arith,
  length-append (take 4 (drop 12 p) ++ take 4 (drop 16 p)) (0 ∷ protocol ∷ u16_be len),
  length-append (take 4 (drop 12 p)) (take 4 (drop 16 p)),
  length-take 4 (drop 12 p),
  length-take 4 (drop 16 p),
)

-- The seed is the sum of the pseudo-header, far below 2 ^ 32.
seed_lem :
    (protocol : ℕ) (p : List ℕ)
    → protocol < 256
    → AreBytes p
    → (seed_of protocol p < 2 ^ 21)
      × (seed_of protocol p ≡ (
          if protocol == 1
          then 0
          else words (ipv4_pseudo_header protocol (ipv4_transport_len p) p)))
seed_lem protocol p small h = elim (Bool-cases (protocol == 1)) [
  | inl icmp ↦ rw icmp (omega arith, refl)
  | inr other ↦ rw other (omega (arith, sum, bound), sum)
]
  where
    ph : List ℕ
    ph = ipv4_pseudo_header protocol (ipv4_transport_len p) p

    bytes : AreBytes ph
    bytes = pseudo_header_bytes protocol (ipv4_transport_len p) p small h

    bound : words ph < 2 ^ 21
    bound =
        omega (arith, words-bound ph bytes, pseudo_header_length protocol (ipv4_transport_len p) p)

    sum : add_words ph 0 ≡ words ph
    sum = add_words_lem ph 0 bytes (omega (arith, bound)) ∙ omega arith

-- The sum of a packet with an equal header and a given segment.
sum-SameHeader :
    (p q : List ℕ)
    → SameHeader p q
    → ipv4_transport_sum q
      ≡ (if get_or p 9 0 == 1
          then 0
          else words (ipv4_pseudo_header (get_or p 9 0) (ipv4_transport_len p) p))
        + words (take (ipv4_transport_len p) (drop (ihl p) q))
unfolding ipv4_transport_sum
sum-SameHeader p q s =
    rw
      (
        s.head 9 (omega arith),
        len-SameHeader p q s,
        ihl-SameHeader p q s,
        pseudo-SameHeader (get_or p 9 0) (ipv4_transport_len p) p q s,
      )
      (ground arith)

field-even : (protocol : ℕ) → is_even (checksum_field protocol) ≡ true
field-even protocol = ground arith

header-segment : (p : List ℕ) (m : ℕ) → 12 ≤ m → drop m (checksum_ipv4_header p) ≡ drop m p
unfolding checksum_ipv4_header
header-segment p m h = drop-seal as_is m 0 10 (ihl p) 0 p (omega arith)

-- So is the sum that a receiver checks in the segment, of TCP, UDP or ICMP, where the segment has
-- room for the checksum.
pub recalculate-transport :
    (p : List ℕ)
    → IsIpv4 p
    → (get_or p 9 0 ≡ 6) ⊎ ((get_or p 9 0 ≡ 17) ⊎ (get_or p 9 0 ≡ 1))
    → checksum_field (get_or p 9 0) + 2 ≤ ipv4_transport_len p
    → (k : ℕ) × (ipv4_transport_sum (recalculate_checksums p) ≡ k * 65535)
recalculate-transport p v known fits =
    let protocol = get_or p 9 0 in
    let (finish, (good, e)) = sealed_transport p protocol refl known fits in
    let t = checksum_ipv4_transport p in
    let (same, bytes) = transport-Keeps p v.least v.bytes in
    let (small, seed) = seed_lem protocol p (get_or-byte p 9 v.bytes) v.bytes in
    let (k, sum) =
      seal_lem finish (ihl p) (checksum_field protocol) (ipv4_transport_len p) (seed_of protocol p)
        p good v.bytes (field-even protocol) fits (omega (arith, len-inside p, v.whole))
        (len-small p v.bytes) small in
    let h = checksum_ipv4_header t in
    let whole : SameHeader p h = trans_SameHeader p t h same (header-SameHeader t) in
    (
      k,
      rw
          (
            recalculate-eq p v,
            sum-SameHeader p h whole,
            header-segment t (ihl p) (omega (arith, v.least)),
            e,
            ← seed,
          )
          sum,
    )

-- The recalculation keeps the length, the addresses and all of the header before the checksum.
pub recalculate-Keeps :
    (p : List ℕ)
    → IsIpv4 p
    → SameHeader p (recalculate_checksums p) × IsIpv4 (recalculate_checksums p)
unfolding checksum_ipv4_header
recalculate-Keeps p v =
    let t = checksum_ipv4_transport p in
    let (same, bytes) = transport-Keeps p v.least v.bytes in
    let s : SameHeader p (checksum_ipv4_header t) =
      trans_SameHeader p t _ same (header-SameHeader t) in
    rw (recalculate-eq p v)
      (s, of_SameHeader p (checksum_ipv4_header t) v s (seal-AreBytes as_is 0 10 (ihl t) 0 t bytes))
  where
    of_SameHeader : (p q : List ℕ) → IsIpv4 p → SameHeader p q → AreBytes q → IsIpv4 q
    of_SameHeader p q v s bytes = record {
      bytes = bytes;
      version = rw (s.head 0 (omega arith)) v.version;
      least = omega (arith, v.least, ihl-SameHeader p q s);
      whole = omega (arith, v.whole, s.size, ihl-SameHeader p q s);
    }
