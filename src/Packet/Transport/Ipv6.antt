-- ===== src/Packet/Transport/Ipv6.antt =====
-- `RecalculateChecksums` of src/common/network/ip_utils.h on an IPv6 packet.
use fptn_keenetic.Base.{
  ℕ, ◌+◌, ◌-◌, ◌*◌, ◌/◌, ◌^◌, ◌≤◌, ◌<◌, ◌≡◌, refl, subst, List, [], ◌∷◌, ◌++◌, arith, true, ◌==◌,
  if◌then◌else◌, length, take, drop, get_or, ◌⊎◌, inl, inr, length-append, length-take, All-append,
}
use fptn_keenetic.Packet.Checksum.{words, add_words, add_words_lem}
use fptn_keenetic.Packet.Bytes.{AreBytes, u16_be}
use fptn_keenetic.Packet.Transport.{
  u16_at, seal, as_is, never_zero, ipv6_transport_len, ipv6_pseudo_header, checksum_tcp_ipv6,
  checksum_udp_ipv6, checksum_icmpv6_ipv6, checksum_ipv6_transport, recalculate_checksums,
}
use fptn_keenetic.Packet.Transport.Seal.{
  IsFinish, as_is-IsFinish, never_zero-IsFinish, is_even, seal_lem, length-seal, seal-AreBytes,
  slice-seal, get_or-seal, words-bound, u16_be-AreBytes, take-AreBytes, drop-AreBytes,
}
use fptn_keenetic.Packet.Transport.Unchanged.{below, zero-below, get_or-byte, u16_at-small}

-- The bytes of an IPv6 packet whose header is whole.
pub record IsIpv6 (p : List ℕ) : Type 0 where
  pub bytes : AreBytes p
  pub version : get_or p 0 0 / 2 ^ 4 ≡ 6
  pub whole : 40 ≤ length p

-- Where the header that follows has its checksum.
abbrev pub checksum_field : ℕ → ℕ
checksum_field next_header = if next_header == 6 then 16 else if next_header == 17 then 6 else 2

-- The words that a receiver adds up: the pseudo-header and all of the segment.
unfoldable pub ipv6_transport_sum : List ℕ → ℕ
unfolding ipv6_transport_len ipv6_pseudo_header words
ipv6_transport_sum p =
    words (ipv6_pseudo_header (get_or p 6 0) (ipv6_transport_len p) p)
    + words (take (ipv6_transport_len p) (drop 40 p))

pub len-small : (p : List ℕ) → AreBytes p → ipv6_transport_len p < 2 ^ 16
unfolding ipv6_transport_len
len-small p h = omega (arith, u16_at-small p 4 h)

pub len-inside : (p : List ℕ) → ipv6_transport_len p ≤ length p - 40
unfolding ipv6_transport_len
len-inside p = omega arith

abbrev seed_of : ℕ → List ℕ → ℕ
seed_of next_header p = add_words (ipv6_pseudo_header next_header (ipv6_transport_len p) p) 0

sealed_transport :
    (p : List ℕ) (next_header : ℕ)
    → get_or p 6 0 ≡ next_header
    → (next_header ≡ 6) ⊎ ((next_header ≡ 17) ⊎ (next_header ≡ 58))
    → checksum_field next_header + 2 ≤ ipv6_transport_len p
    → (finish : ℕ → ℕ) × (IsFinish finish
        × (checksum_ipv6_transport p
            ≡ seal finish 40
                (checksum_field next_header)
                (ipv6_transport_len p)
                (seed_of next_header p)
                p))
unfolding checksum_ipv6_transport checksum_tcp_ipv6 checksum_udp_ipv6 checksum_icmpv6_ipv6
sealed_transport p next_header e (inl tcp) fits =
    let room : 18 ≤ ipv6_transport_len p =
      subst (λ x. checksum_field x + 2 ≤ ipv6_transport_len p) tcp fits in
    (
      as_is,
      (
        as_is-IsFinish,
        rw
            (
              e,
              tcp,
              below (length p) 58 (omega (arith, len-inside p, room)),
              zero-below (ipv6_transport_len p) (omega (arith, room)),
            )
            refl,
      ),
    )
sealed_transport p next_header e (inr (inl udp)) fits =
    let room : 8 ≤ ipv6_transport_len p =
      subst (λ x. checksum_field x + 2 ≤ ipv6_transport_len p) udp fits in
    (
      never_zero,
      (
        never_zero-IsFinish,
        rw
            (
              e,
              udp,
              below (length p) 48 (omega (arith, len-inside p, room)),
              zero-below (ipv6_transport_len p) (omega (arith, room)),
            )
            refl,
      ),
    )
sealed_transport p next_header e (inr (inr icmp)) fits =
    let room : 4 ≤ ipv6_transport_len p =
      subst (λ x. checksum_field x + 2 ≤ ipv6_transport_len p) icmp fits in
    (
      as_is,
      (
        as_is-IsFinish,
        rw
            (
              e,
              icmp,
              below (length p) 44 (omega (arith, len-inside p, room)),
              zero-below (ipv6_transport_len p) (omega (arith, room)),
            )
            refl,
      ),
    )

pseudo_header_bytes :
    (next_header len : ℕ) (p : List ℕ)
    → next_header < 256
    → AreBytes p
    → AreBytes (ipv6_pseudo_header next_header len p)
unfolding ipv6_pseudo_header
pseudo_header_bytes next_header len p small h =
    All-append (λ b. b < 256) (take 16 (drop 8 p) ++ take 16 (drop 24 p) ++ (0 ∷ 0 ∷ u16_be len)) _
      (All-append (λ b. b < 256) (take 16 (drop 8 p) ++ take 16 (drop 24 p)) _
        (All-append (λ b. b < 256) (take 16 (drop 8 p)) (take 16 (drop 24 p))
          (take-AreBytes 16 _ (drop-AreBytes 8 p h)) (take-AreBytes 16 _ (drop-AreBytes 24 p h)))
        (omega arith, (omega arith, u16_be-AreBytes len)))
      (omega arith, (omega arith, (omega arith, (small, tt))))

pseudo_header_length :
    (next_header len : ℕ) (p : List ℕ) → length (ipv6_pseudo_header next_header len p) ≤ 40
unfolding ipv6_pseudo_header u16_be
pseudo_header_length next_header len p = omega (
  arith,
  length-append (take 16 (drop 8 p) ++ take 16 (drop 24 p) ++ (0 ∷ 0 ∷ u16_be len))
      (0 ∷ 0 ∷ 0 ∷ next_header ∷ []),
  length-append (take 16 (drop 8 p) ++ take 16 (drop 24 p)) (0 ∷ 0 ∷ u16_be len),
  length-append (take 16 (drop 8 p)) (take 16 (drop 24 p)),
  length-take 16 (drop 8 p),
  length-take 16 (drop 24 p),
)

seed_lem :
    (next_header : ℕ) (p : List ℕ)
    → next_header < 256
    → AreBytes p
    → (seed_of next_header p < 2 ^ 21)
      × (seed_of next_header p ≡ words (ipv6_pseudo_header next_header (ipv6_transport_len p) p))
seed_lem next_header p small h = (omega (arith, sum, bound), omega (arith, sum))
  where
    ph : List ℕ
    ph = ipv6_pseudo_header next_header (ipv6_transport_len p) p

    bytes : AreBytes ph
    bytes = pseudo_header_bytes next_header (ipv6_transport_len p) p small h

    bound : words ph < 2 ^ 21
    bound =
        omega
          (arith, words-bound ph bytes, pseudo_header_length next_header (ipv6_transport_len p) p)

    sum : add_words ph 0 ≡ 0 + words ph
    sum = add_words_lem ph 0 bytes (omega (arith, bound))

-- The sum of a packet whose segment's checksum has been written.
sum-seal :
    (finish : ℕ → ℕ) (field len seed : ℕ) (p : List ℕ)
    → ipv6_transport_sum (seal finish 40 field len seed p)
      ≡ words (ipv6_pseudo_header (get_or p 6 0) (ipv6_transport_len p) p)
        + words (take (ipv6_transport_len p) (drop 40 (seal finish 40 field len seed p)))
unfolding ipv6_transport_sum ipv6_transport_len ipv6_pseudo_header u16_at
sum-seal finish field len seed p =
    rw
      (
        get_or-seal finish 6 40 field len seed p (omega arith),
        get_or-seal finish 4 40 field len seed p (omega arith),
        get_or-seal finish 5 40 field len seed p (omega arith),
        length-seal finish 40 field len seed p,
        slice-seal finish 8 16 40 field len seed p (omega arith),
        slice-seal finish 24 16 40 field len seed p (omega arith),
      )
      refl

recalculate-eq : (p : List ℕ) → IsIpv6 p → recalculate_checksums p ≡ checksum_ipv6_transport p
unfolding recalculate_checksums
recalculate-eq p v =
    rw (below (length p) 1 (omega (arith, v.whole)), v.version, below (length p) 40 v.whole) refl

field-even : (next_header : ℕ) → is_even (checksum_field next_header) ≡ true
field-even next_header = ground arith

-- The recalculation keeps the length.
pub recalculate-size :
    (p : List ℕ)
    → IsIpv6 p
    → (get_or p 6 0 ≡ 6) ⊎ ((get_or p 6 0 ≡ 17) ⊎ (get_or p 6 0 ≡ 58))
    → checksum_field (get_or p 6 0) + 2 ≤ ipv6_transport_len p
    → AreBytes (recalculate_checksums p) × (length (recalculate_checksums p) ≡ length p)
recalculate-size p v known fits =
    let (finish, (good, e)) = sealed_transport p (get_or p 6 0) refl known fits in
    rw (recalculate-eq p v, e)
      (seal-AreBytes finish 40 _ _ _ p v.bytes, length-seal finish 40 _ _ _ p)

-- The sum that a receiver checks in the segment of an IPv6 packet with a whole header is right after the recalculation, for TCP,
-- UDP and ICMPv6 with no extension header, where the segment has room for the checksum: a multiple
-- of 65535.
pub recalculate-ipv6 :
    (p : List ℕ)
    → IsIpv6 p
    → (get_or p 6 0 ≡ 6) ⊎ ((get_or p 6 0 ≡ 17) ⊎ (get_or p 6 0 ≡ 58))
    → checksum_field (get_or p 6 0) + 2 ≤ ipv6_transport_len p
    → (k : ℕ) × (ipv6_transport_sum (recalculate_checksums p) ≡ k * 65535)
recalculate-ipv6 p v known fits =
    let next_header = get_or p 6 0 in
    let (finish, (good, e)) = sealed_transport p next_header refl known fits in
    let (small, seed) = seed_lem next_header p (get_or-byte p 6 v.bytes) v.bytes in
    let (k, sum) =
      seal_lem finish 40 (checksum_field next_header) (ipv6_transport_len p) (seed_of next_header p)
        p good v.bytes (field-even next_header) fits (omega (arith, len-inside p, v.whole))
        (len-small p v.bytes) small in
    (
      k,
      rw
          (
            recalculate-eq p v,
            e,
            sum-seal finish (checksum_field next_header) (ipv6_transport_len p)
                (seed_of next_header p) p,
            ← seed,
          )
          sum,
    )
