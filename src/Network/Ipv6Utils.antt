-- ===== src/Network/Ipv6Utils.antt =====
-- src/common/network/ipv6_utils.h: a 128-bit address as a number and as its 16 bytes.
use fptn_keenetic.Base.{
  ℕ, ◌+◌, ◌*◌, ◌/◌, ◌%◌, ◌^◌, ◌<◌, ◌≡◌, refl, List, [], ◌∷◌, ◌++◌, arith, bit_or, bit_and, length,
  String, Option, none, some, All, ◌∙◌, ap, sym,
}
use mathlib.Core.List.{append-nil}
use fptn_keenetic.Base.Bits.{bit_or-eq-add, bit_and_low}
use fptn_keenetic.Network.Address.{Asio, IsPrinting, v6, IpAddress}

-- `(result <<= 8) |= b` for each byte, in 128 bits.
unfoldable pub to_uint128_from : ℕ → List ℕ → ℕ
to_uint128_from result [] = result
to_uint128_from result (b ∷ bytes) = to_uint128_from (bit_or (result * 2 ^ 8 % 2 ^ 128) b) bytes

unfoldable pub to_uint128 : List ℕ → ℕ
unfolding to_uint128_from
to_uint128 bytes = to_uint128_from 0 bytes

-- `static_cast<unsigned char>(x >> k)`.
abbrev byte_at : ℕ → ℕ → ℕ
byte_at x k = x / 2 ^ k % 256

bytes_of_uint64 : ℕ → List ℕ
bytes_of_uint64 x =
    byte_at x 56
    ∷ byte_at x 48
    ∷ byte_at x 40
    ∷ byte_at x 32
    ∷ byte_at x 24
    ∷ byte_at x 16
    ∷ byte_at x 8
    ∷ byte_at x 0
    ∷ []

-- The array of bytes that `toString` builds, from the halves of the number.
unfoldable pub bytes_of_uint128 : ℕ → List ℕ
unfolding bytes_of_uint64
bytes_of_uint128 val =
    let high = val / 2 ^ 64 % 2 ^ 64 in
    let low = bit_and val 0xFFFF_FFFF_FFFF_FFFF % 2 ^ 64 in
    bytes_of_uint64 high ++ bytes_of_uint64 low

module _ (asio : Asio) where
  open asio use {make_address_v6, to_string}

  -- `toUInt128(const IPv6Address&)`; the parse may throw.
  unfoldable pub to_uint128_ip : IpAddress → Option ℕ
  to_uint128_ip address = elim (make_address_v6 address.ip) [
    | none ↦ none
    | some bytes ↦ some (to_uint128 bytes)
  ]

  unfoldable pub to_string_uint128 : ℕ → String
  to_string_uint128 val = to_string (v6 (bytes_of_uint128 val))

-- One round of the loop, towards a number whose upper and lowest bytes are at hand.
join_byte :
    (z r b : ℕ) → z < 2 ^ 128 → r ≡ z / 256 → b ≡ z % 256 → bit_or (r * 2 ^ 8 % 2 ^ 128) b ≡ z
join_byte z r b h p q = ap (λ t. bit_or t b) fits ∙ bit_or-eq-add 8 r b (omega arith) ∙ omega arith
  where
    fits : r * 2 ^ 8 % 2 ^ 128 ≡ r * 2 ^ 8
    fits = omega arith

-- Eight bytes on from `r`, the loop holds `r` shifted and the number of the bytes.
to_uint128_from-bytes_of_uint64 :
    (r x : ℕ) (rest : List ℕ)
    → r < 2 ^ 64
    → x < 2 ^ 64
    → to_uint128_from r (bytes_of_uint64 x ++ rest) ≡ to_uint128_from (r * 2 ^ 64 + x) rest
unfolding to_uint128_from bytes_of_uint64
to_uint128_from-bytes_of_uint64 r x rest h k = rw (
  join_byte (y / 2 ^ 56) r (byte_at x 56) (omega arith) (omega arith) (omega arith),
  join_byte (y / 2 ^ 48) (y / 2 ^ 56) (byte_at x 48) (omega arith) (omega arith) (omega arith),
  join_byte (y / 2 ^ 40) (y / 2 ^ 48) (byte_at x 40) (omega arith) (omega arith) (omega arith),
  join_byte (y / 2 ^ 32) (y / 2 ^ 40) (byte_at x 32) (omega arith) (omega arith) (omega arith),
  join_byte (y / 2 ^ 24) (y / 2 ^ 32) (byte_at x 24) (omega arith) (omega arith) (omega arith),
  join_byte (y / 2 ^ 16) (y / 2 ^ 24) (byte_at x 16) (omega arith) (omega arith) (omega arith),
  join_byte (y / 2 ^ 8) (y / 2 ^ 16) (byte_at x 8) (omega arith) (omega arith) (omega arith),
  join_byte y (y / 2 ^ 8) (byte_at x 0) (omega arith) (omega arith) (omega arith),
)
  where
    y : ℕ
    y = r * 2 ^ 64 + x

-- Decoding the bytes of a 128-bit number, high byte first, gives the number back.
pub to_uint128-bytes_of_uint128 :
    (val : ℕ) → val < 2 ^ 128 → to_uint128 (bytes_of_uint128 val) ≡ val
unfolding to_uint128 bytes_of_uint128
to_uint128-bytes_of_uint128 val h =
    to_uint128_from-bytes_of_uint64 0 high (bytes_of_uint64 low) (omega arith) (omega arith)
    ∙ ap (λ bytes. to_uint128_from (0 * 2 ^ 64 + high) bytes)
        (sym (append-nil (bytes_of_uint64 low)))
    ∙ to_uint128_from-bytes_of_uint64 (0 * 2 ^ 64 + high) low [] (omega arith) (omega arith)
    ∙ joined
  where
    high : ℕ
    high = val / 2 ^ 64 % 2 ^ 64

    low : ℕ
    low = bit_and val 0xFFFF_FFFF_FFFF_FFFF % 2 ^ 64

    split : val / 2 ^ 64 * 2 ^ 64 + val % 2 ^ 64 ≡ val
    split = omega arith

    masked : bit_and val 0xFFFF_FFFF_FFFF_FFFF ≡ val % 2 ^ 64
    masked = rw split at (bit_and_low 64 (val / 2 ^ 64) (val % 2 ^ 64) (omega arith))

    joined : (0 * 2 ^ 64 + high) * 2 ^ 64 + low ≡ val
    joined = omega (arith, masked)

-- `toString` writes 16 bytes.
bytes_of_uint128_shape :
    (val : ℕ) → (length (bytes_of_uint128 val) ≡ 16) × All (λ b. b < 256) (bytes_of_uint128 val)
unfolding bytes_of_uint128 bytes_of_uint64
bytes_of_uint128_shape val = (refl, omega arith)

-- An address number that is printed as text and read back is the number it was: `toUInt128` undoes
-- `toString` on every number below 2 ^ 128.
pub to_uint128_ip-to_string_uint128 :
    (asio : Asio) (val : ℕ) (a : IpAddress)
    → IsPrinting asio
    → val < 2 ^ 128
    → a.ip ≡ to_string_uint128 asio val
    → to_uint128_ip asio a ≡ some val
unfolding to_uint128_ip to_string_uint128
to_uint128_ip-to_string_uint128 asio val a printing h e = ground (
  arith,
  printing (bytes_of_uint128 val) (bytes_of_uint128_shape val).0 (bytes_of_uint128_shape val).1,
  to_uint128-bytes_of_uint128 val h,
)
