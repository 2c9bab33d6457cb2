-- ===== src/Packet/Transport/Receiver.antt =====
-- What a receiver adds up in a packet, by RFC 1071, 791, 8200, 768 and 9293, for the checksums of
-- src/common/network/ip_utils.h.
use fptn_keenetic.Base.{
  ℕ, zero, suc, ◌+◌, ◌-◌, ◌*◌, ◌/◌, ◌%◌, ◌^◌, true, ◌≤◌, ◌<◌, ◌⊎◌, ◌≡◌, refl, ap, sym, ◌∙◌, List,
  [], ◌∷◌, ◌++◌, arith, ◌==◌, if◌then◌else◌, length, take, drop, get_or, min, bit_and, bit_or,
  length-append, length-take, length-drop,
}
use fptn_keenetic.Base.Bits.{bit_and_low, bit_or-eq-add}
use fptn_keenetic.Packet.Checksum.{words}
use fptn_keenetic.Packet.Bytes.{AreBytes, u16_be}
use fptn_keenetic.Packet.Transport.{
  ihl, u16_at, ipv4_transport_len, ipv4_pseudo_header, ipv6_transport_len, ipv6_pseudo_header,
  recalculate_checksums,
}
use fptn_keenetic.Packet.Transport.Unchanged.{get_or-byte, IsIpv4, checksum_field}
use fptn_keenetic.Packet.Transport.Seal.{is_even}
use fptn_keenetic.Packet.Transport.Ipv4.{
  ipv4_transport_sum, len-small, len-inside, recalculate-transport, recalculate-Keeps,
}
use fptn_keenetic.Packet.Transport.Ipv6.{
  checksum_field as checksum_field6, ipv6_transport_sum, IsIpv6, len-small as len6-small,
  recalculate-ipv6, recalculate-size,
}

-- What follows the header, up to the packet's total length.
unfoldable pub ipv4_segment : List ℕ → List ℕ
ipv4_segment p = drop (get_or p 0 0 % 16 * 4) (take (get_or p 2 0 * 256 + get_or p 3 0) p)

-- The words of the segment and, but for ICMP, of the addresses, the protocol and the length.
unfoldable pub received_ipv4_sum : List ℕ → ℕ
received_ipv4_sum p =
    (if get_or p 9 0 == 1
      then 0
      else words (take 8 (drop 12 p)) + get_or p 9 0 + length (ipv4_segment p))
    + words (ipv4_segment p)

-- What follows the fixed header, up to the payload's length.
unfoldable pub ipv6_segment : List ℕ → List ℕ
ipv6_segment p = take (get_or p 4 0 * 256 + get_or p 5 0) (drop 40 p)

-- The words of the segment, the addresses, the next header and the length.
unfoldable pub received_ipv6_sum : List ℕ → ℕ
received_ipv6_sum p =
    words (take 32 (drop 8 p)) + get_or p 6 0 + length (ipv6_segment p) + words (ipv6_segment p)

take-nil : (n : ℕ) → take {A = ℕ} n [] ≡ []
take-nil zero = refl
take-nil (suc n) = refl

drop-take : (m n : ℕ) (xs : List ℕ) → drop m (take n xs) ≡ take (n - m) (drop m xs)
drop-take zero n xs = ap (λ k. take k xs) (omega arith)
drop-take (suc m) zero xs =
    let e : 0 - suc m ≡ 0 = omega arith in sym (ap (λ k. take k (drop (suc m) xs)) e)
drop-take (suc m) (suc n) [] = sym (take-nil (suc n - suc m))
drop-take (suc m) (suc n) (x ∷ xs) = drop-take m n xs ∙ ap (λ k. take k (drop m xs)) (omega arith)

take-min : (n k : ℕ) (xs : List ℕ) → length xs ≤ k → take (min n k) xs ≡ take n xs
take-min n k [] h = take-nil (min n k) ∙ sym (take-nil n)
take-min zero k (x ∷ xs) h = let e : min 0 k ≡ 0 = omega arith in ap (λ j. take j (x ∷ xs)) e
take-min (suc n) zero (x ∷ xs) h = absurd (omega arith)
take-min (suc n) (suc k) (x ∷ xs) h =
    let step : min (suc n) (suc k) ≡ suc (min n k) = omega arith in
    ap (λ j. take j (x ∷ xs)) step ∙ ap (λ r. x ∷ r) (take-min n k xs (omega arith))

pub u16_at-eq :
    (p : List ℕ) (i : ℕ) → AreBytes p → u16_at p i ≡ get_or p i 0 * 256 + get_or p (i + 1) 0
unfolding u16_at
u16_at-eq p i h =
    let high = get_or-byte p i h in
    let low = get_or-byte p (i + 1) h in
    omega (arith, bit_or-eq-add 8 (get_or p i 0) (get_or p (i + 1) 0) low, fits)
  where
    fits :
        bit_or (get_or p i 0 * 2 ^ 8 % 2 ^ 16) (get_or p (i + 1) 0)
        ≡ bit_or (get_or p i 0 * 2 ^ 8) (get_or p (i + 1) 0)
    fits = ap (λ a. bit_or a (get_or p (i + 1) 0)) (omega (arith, get_or-byte p i h))

ihl-eq : (p : List ℕ) → ihl p ≡ get_or p 0 0 % 16 * 4
unfolding ihl
ihl-eq p =
    let a = get_or p 0 0 in
    let split : a / 16 * 2 ^ 4 + a % 16 ≡ a = omega arith in
    let low : bit_and a 0x0F ≡ a % 16 =
      rw split at (bit_and_low 4 (a / 16) (a % 16) (omega arith)) in
    omega (arith, low)

segment_lem :
    (p : List ℕ) → AreBytes p → ipv4_segment p ≡ take (ipv4_transport_len p) (drop (ihl p) p)
unfolding ipv4_segment ipv4_transport_len
segment_lem p h =
    rw (u16_at-eq p 2 h, ← ihl-eq p)
      (drop-take (ihl p) (get_or p 2 0 * 256 + get_or p 3 0) p
        ∙ sym (
            take-min (get_or p 2 0 * 256 + get_or p 3 0 - ihl p) (length p - ihl p) (drop (ihl p) p)
              (omega (arith, length-drop (ihl p) p))))

words-append :
    (xs ys : List ℕ) → is_even (length xs) ≡ true → words (xs ++ ys) ≡ words xs + words ys
unfolding words
words-append [] ys h = omega arith
words-append (a ∷ []) ys h = cc
words-append (a ∷ b ∷ xs) ys h = omega (arith, words-append xs ys h)

words-take :
    (m n : ℕ) (ys : List ℕ)
    → is_even m ≡ true
    → m ≤ length ys
    → words (take (m + n) ys) ≡ words (take m ys) + words (take n (drop m ys))
unfolding words
words-take zero n ys h room = let same : 0 + n ≡ n = omega arith in rw same (omega arith)
words-take (suc zero) n ys h room = cc
words-take (suc (suc m)) n [] h room = absurd (omega arith)
words-take (suc (suc m)) n (a ∷ []) h room = absurd (omega arith)
words-take (suc (suc m)) n (a ∷ b ∷ ys) h room =
    let step : suc (suc m) + n ≡ suc (suc (m + n)) = omega arith in
    rw step (omega (arith, words-take m n ys h (omega arith)))

drop-drop : (m n : ℕ) (xs : List ℕ) → drop m (drop n xs) ≡ drop (n + m) xs
drop-drop m zero xs = ap (λ k. drop k xs) (omega arith)
drop-drop zero (suc n) [] = let e : suc n ≡ suc n + 0 = omega arith in ap (λ k. drop {A = ℕ} k []) e
drop-drop (suc m) (suc n) [] =
    let step : suc n + suc m ≡ suc (n + suc m) = omega arith in rw step refl
drop-drop m (suc n) (x ∷ xs) =
    let step : suc n + m ≡ suc (n + m) = omega arith in rw step (drop-drop m n xs)

-- Two neighbouring fields of `n` bytes, an even number.
fields :
    (n i j k : ℕ) (p : List ℕ)
    → is_even n ≡ true
    → n + n ≡ k
    → i + n ≡ j
    → j + n ≤ length p
    → words (take k (drop i p)) ≡ words (take n (drop i p)) + words (take n (drop j p))
fields n i j k p even twice next room =
    rw (← twice, ← next, ← drop-drop n i p)
      (words-take n n (drop i p) even (omega (arith, length-drop i p)))

slice_length : (n i : ℕ) (p : List ℕ) → i + n ≤ length p → length (take n (drop i p)) ≡ n
slice_length n i p h = omega (arith, length-take n (drop i p), length-drop i p)

length_word :
    (len : ℕ) (rest : List ℕ) → len < 2 ^ 16 → words (u16_be len ++ rest) ≡ len + words rest
unfolding words u16_be
length_word len rest h =
    let low : bit_and len 0xFF ≡ len % 256 =
      let split : len / 256 * 2 ^ 8 + len % 256 ≡ len = omega arith in
      rw split at (bit_and_low 8 (len / 256) (len % 256) (omega arith)) in
    omega (arith, low)

ipv4_pseudo_lem :
    (protocol len : ℕ) (p : List ℕ)
    → 20 ≤ length p
    → len < 2 ^ 16
    → words (ipv4_pseudo_header protocol len p) ≡ words (take 8 (drop 12 p)) + protocol + len
unfolding ipv4_pseudo_header words u16_be
ipv4_pseudo_lem protocol len p room small =
    let source = take 4 (drop 12 p) in
    let destination = take 4 (drop 16 p) in
    let size = slice_length 4 12 p (omega arith) in
    let size' = slice_length 4 16 p (omega arith) in
    let both : length (source ++ destination) ≡ 8 =
      omega (arith, length-append source destination, size, size') in
    let whole = words-append (source ++ destination) (0 ∷ protocol ∷ u16_be len) (rw both refl) in
    let halves = words-append source destination (rw size refl) in
    let field = length_word len [] small in
    omega (arith, whole, halves, field, fields 4 12 16 8 p refl refl refl (omega arith))

ipv6_pseudo_lem :
    (next_header len : ℕ) (p : List ℕ)
    → 40 ≤ length p
    → len < 2 ^ 16
    → words (ipv6_pseudo_header next_header len p) ≡ words (take 32 (drop 8 p)) + next_header + len
unfolding ipv6_pseudo_header words u16_be
ipv6_pseudo_lem next_header len p room small =
    let source = take 16 (drop 8 p) in
    let destination = take 16 (drop 24 p) in
    let size = slice_length 16 8 p (omega arith) in
    let size' = slice_length 16 24 p (omega arith) in
    let both : length (source ++ destination) ≡ 32 =
      omega (arith, length-append source destination, size, size') in
    let all : length (source ++ destination ++ (0 ∷ 0 ∷ u16_be len)) ≡ 36 =
      omega (arith, length-append (source ++ destination) (0 ∷ 0 ∷ u16_be len), both) in
    let whole =
      words-append (source ++ destination ++ (0 ∷ 0 ∷ u16_be len)) (0 ∷ 0 ∷ 0 ∷ next_header ∷ [])
        (rw all refl) in
    let front = words-append (source ++ destination) (0 ∷ 0 ∷ u16_be len) (rw both refl) in
    let halves = words-append source destination (rw size refl) in
    let field = length_word len [] small in
    omega (arith, whole, front, halves, field, fields 16 8 24 32 p refl refl refl (omega arith))

pub segment_length : (p : List ℕ) → AreBytes p → length (ipv4_segment p) ≡ ipv4_transport_len p
segment_length p h = rw (segment_lem p h) (
    omega (
      arith,
      length-take (ipv4_transport_len p) (drop (ihl p) p),
      length-drop (ihl p) p,
      len-inside p,
    ))

received_ipv4_lem : (p : List ℕ) → IsIpv4 p → received_ipv4_sum p ≡ ipv4_transport_sum p
unfolding received_ipv4_sum ipv4_transport_sum
received_ipv4_lem p v =
    let pseudo =
      ipv4_pseudo_lem (get_or p 9 0) (ipv4_transport_len p) p (omega (arith, v.least, v.whole))
        (len-small p v.bytes) in
    rw (segment_length p v.bytes, segment_lem p v.bytes, pseudo) (ground arith)

-- The segment of an IPv4 packet with a whole header, of TCP, UDP or ICMP and with room for its
-- checksum, has after the recalculation a sum that a receiver accepts, a multiple of 65535: that of
-- its words and, but for ICMP, of the addresses, the protocol and its length.
pub recalculate-received_ipv4_sum :
    (p : List ℕ)
    → IsIpv4 p
    → (get_or p 9 0 ≡ 6) ⊎ ((get_or p 9 0 ≡ 17) ⊎ (get_or p 9 0 ≡ 1))
    → checksum_field (get_or p 9 0) + 2 ≤ length (ipv4_segment p)
    → (k : ℕ) × (received_ipv4_sum (recalculate_checksums p) ≡ k * 65535)
recalculate-received_ipv4_sum p v known fits =
    let (_, after) = recalculate-Keeps p v in
    let (k, sum) = recalculate-transport p v known (rw (segment_length p v.bytes) at fits) in
    (k, received_ipv4_lem (recalculate_checksums p) after ∙ sum)

segment6_length : (p : List ℕ) → AreBytes p → length (ipv6_segment p) ≡ ipv6_transport_len p
unfolding ipv6_segment ipv6_transport_len
segment6_length p h =
    rw (u16_at-eq p 4 h)
      (omega (arith, length-take (get_or p 4 0 * 256 + get_or p 5 0) (drop 40 p), length-drop 40 p))

segment6_lem : (p : List ℕ) → AreBytes p → ipv6_segment p ≡ take (ipv6_transport_len p) (drop 40 p)
unfolding ipv6_segment ipv6_transport_len
segment6_lem p h = rw (u16_at-eq p 4 h) (
    sym (
      take-min (get_or p 4 0 * 256 + get_or p 5 0) (length p - 40) (drop 40 p)
        (omega (arith, length-drop 40 p))))

received_ipv6_lem :
    (p : List ℕ) → AreBytes p → 40 ≤ length p → received_ipv6_sum p ≡ ipv6_transport_sum p
unfolding received_ipv6_sum ipv6_transport_sum
received_ipv6_lem p bytes whole =
    let pseudo =
      ipv6_pseudo_lem (get_or p 6 0) (ipv6_transport_len p) p whole (len6-small p bytes) in
    rw (segment6_length p bytes, segment6_lem p bytes, pseudo) refl

-- The segment of an IPv6 packet with a whole header, of TCP, UDP or ICMPv6 with no extension header
-- and with room for its checksum, has after the recalculation a sum that a receiver accepts, a
-- multiple of 65535: that of its words, the addresses, the next header and its length.
pub recalculate-received_ipv6_sum :
    (p : List ℕ)
    → IsIpv6 p
    → (get_or p 6 0 ≡ 6) ⊎ ((get_or p 6 0 ≡ 17) ⊎ (get_or p 6 0 ≡ 58))
    → checksum_field6 (get_or p 6 0) + 2 ≤ length (ipv6_segment p)
    → (k : ℕ) × (received_ipv6_sum (recalculate_checksums p) ≡ k * 65535)
recalculate-received_ipv6_sum p v known fits =
    let fits' = rw (segment6_length p v.bytes) at fits in
    let (bytes, size) = recalculate-size p v known fits' in
    let (k, sum) = recalculate-ipv6 p v known fits' in
    (k, received_ipv6_lem (recalculate_checksums p) bytes (omega (arith, size, v.whole)) ∙ sum)
