-- ===== src/Packet/Transport/Seal.antt =====
-- What a checksum written by `seal` does to the sum of the words that it covers.
use fptn_keenetic.Base.{
  ℕ, zero, suc, ◌+◌, ◌*◌, ◌/◌, ◌%◌, ◌^◌, ◌≤◌, ◌<◌, ◌≡◌, refl, ap, ◌∙◌, List, [], ◌∷◌, arith, Bool,
  true, false, ◌==◌, bit_and, length, take, drop, get_or, Bool-cases, inl, inr, length-take,
  length-drop,
}
use fptn_keenetic.Base.Bits.{bit_and_low}
use fptn_keenetic.Packet.Checksum.{words, rfc1071, rfc1071_lem}
use fptn_keenetic.Packet.Bytes.{
  AreBytes, overwrite, write_at, u16_be, write_u16_be, write_at-AreBytes, length-write_at,
  take-write_at, drop-write_at, take-write_at_after, drop-write_at_before, slice-write_at_before,
  get_or-write_at_before,
}
use fptn_keenetic.Packet.Transport.{seal, as_is, never_zero}

abbrev pub is_even : ℕ → Bool
is_even zero = true
is_even (suc zero) = false
is_even (suc (suc n)) = is_even n

low_byte : (v : ℕ) → bit_and v 0xFF ≡ v % 2 ^ 8
low_byte v = rw whole at (bit_and_low 8 (v / 2 ^ 8) (v % 2 ^ 8) (omega arith))
  where
    whole : v / 2 ^ 8 * 2 ^ 8 + v % 2 ^ 8 ≡ v
    whole = omega arith

pub u16_be-AreBytes : (v : ℕ) → AreBytes (u16_be v)
unfolding u16_be
u16_be-AreBytes v = (omega arith, (omega (arith, low_byte v), tt))

-- Writing the word `v` over the word `v'` adds the difference of the two to the sum.
words-write :
    (field : ℕ) (v v' : ℕ) (bytes : List ℕ)
    → is_even field ≡ true
    → field + 2 ≤ length bytes
    → v < 2 ^ 16
    → v' < 2 ^ 16
    → words (write_u16_be field v bytes) + v' ≡ words (write_u16_be field v' bytes) + v
unfolding words write_u16_be write_at overwrite u16_be
words-write zero v v' [] e h k k' = absurd (omega arith)
words-write zero v v' (a ∷ []) e h k k' = absurd (omega arith)
words-write zero v v' (a ∷ b ∷ bytes) e h k k' = omega (arith, low_byte v, low_byte v')
words-write (suc zero) v v' bytes e h k k' = cc
words-write (suc (suc field)) v v' [] e h k k' = absurd (omega arith)
words-write (suc (suc field)) v v' (a ∷ []) e h k k' = absurd (omega arith)
words-write (suc (suc field)) v v' (a ∷ b ∷ bytes) e h k k' =
    omega (arith, words-write field v v' bytes e (omega arith) k k')

pub words-bound : (bytes : List ℕ) → AreBytes bytes → words bytes ≤ 32768 * length bytes + 32768
unfolding words
words-bound [] h = omega arith
words-bound (a ∷ []) h = omega arith
words-bound (a ∷ b ∷ bytes) h = omega (arith, words-bound bytes h.1.1)

pub take-AreBytes : (n : ℕ) (bytes : List ℕ) → AreBytes bytes → AreBytes (take n bytes)
take-AreBytes zero bytes h = tt
take-AreBytes (suc n) [] h = tt
take-AreBytes (suc n) (b ∷ bytes) h = (h.0, take-AreBytes n bytes h.1)

pub drop-AreBytes : (n : ℕ) (bytes : List ℕ) → AreBytes bytes → AreBytes (drop n bytes)
drop-AreBytes zero bytes h = h
drop-AreBytes (suc n) [] h = tt
drop-AreBytes (suc n) (b ∷ bytes) h = drop-AreBytes n bytes h.1

-- A checksum is finished by a function that changes it by a multiple of 65535, to 16 bits.
abbrev pub IsFinish : (ℕ → ℕ) → Type 0
IsFinish finish =
    (ck : ℕ) → ck < 2 ^ 16 → (finish ck < 2 ^ 16) × ((j : ℕ) × (finish ck ≡ ck + j * 65535))

pub as_is-IsFinish : IsFinish as_is
as_is-IsFinish ck h = (h, (0, omega arith))

pub never_zero-IsFinish : IsFinish never_zero
never_zero-IsFinish ck h = elim (Bool-cases (ck == 0)) [
  | inl none ↦ rw none (omega arith, (1, ground arith))
  | inr some ↦ rw some (h, (0, omega arith))
]

-- What stands in the area after a write to it.
pub area-write :
    (start field len v : ℕ) (p : List ℕ)
    → take len (drop start (write_u16_be (start + field) v p))
      ≡ write_u16_be field v (take len (drop start p))
unfolding write_u16_be
area-write start field len v p =
    ap (take len) (drop-write_at start field (start + field) (u16_be v) p refl)
    ∙ take-write_at len field (u16_be v) (drop start p)

overwrite-overwrite :
    (v v' : ℕ) (bytes : List ℕ)
    → overwrite (u16_be v) (overwrite (u16_be v') bytes) ≡ overwrite (u16_be v) bytes
unfolding overwrite u16_be
overwrite-overwrite v v' [] = refl
overwrite-overwrite v v' (a ∷ []) = refl
overwrite-overwrite v v' (a ∷ b ∷ bytes) = refl

-- The second of two writes to a place counts.
write-write :
    (field v v' : ℕ) (bytes : List ℕ)
    → write_u16_be field v (write_u16_be field v' bytes) ≡ write_u16_be field v bytes
unfolding write_u16_be write_at
write-write zero v v' bytes = overwrite-overwrite v v' bytes
write-write (suc field) v v' [] = refl
write-write (suc field) v v' (b ∷ bytes) = ap (◌∷◌ b) (write-write field v v' bytes)

-- The checksum of the bytes `area`, cleared at `field`, and the sum with it.
sealed :
    (finish : ℕ → ℕ) (field seed : ℕ) (area : List ℕ)
    → IsFinish finish
    → AreBytes area
    → is_even field ≡ true
    → field + 2 ≤ length area
    → length area < 2 ^ 16
    → seed < 2 ^ 21
    → let ck = finish (rfc1071 (write_u16_be field 0 area) seed) in
      (k : ℕ) × (seed + words (write_u16_be field ck area) ≡ k * 65535)
unfolding write_u16_be
sealed finish field seed area good h e fits short small =
    let cleared = write_u16_be field 0 area in
    let bytes : AreBytes cleared = write_at-AreBytes field (u16_be 0) area (u16_be-AreBytes 0) h in
    let len : length cleared ≡ length area = length-write_at field (u16_be 0) area in
    let (below, (k, sum)) =
      rfc1071_lem cleared seed bytes (omega (arith, words-bound cleared bytes, len)) in
    let (below', (j, shift)) = good (rfc1071 cleared seed) below in
    (
      k + j,
      omega (
        arith,
        sum,
        shift,
        words-write field (finish (rfc1071 cleared seed)) 0 area e fits below' (omega arith),
      ),
    )

pub seal-area :
    (finish : ℕ → ℕ) (start field len seed : ℕ) (p : List ℕ)
    → take len (drop start (seal finish start field len seed p))
      ≡ write_u16_be field
          (finish (rfc1071 (write_u16_be field 0 (take len (drop start p))) seed))
          (take len (drop start p))
unfolding seal
seal-area finish start field len seed p =
    rw (area-write start field len _ _, area-write start field len 0 p)
      (write-write field _ 0 (take len (drop start p)))

-- Where the checksum lies in the area that it covers and the area in the packet, the words of the
-- area, the checksum with them, and the seed add up to a multiple of 65535.
pub seal_lem :
    (finish : ℕ → ℕ) (start field len seed : ℕ) (p : List ℕ)
    → IsFinish finish
    → AreBytes p
    → is_even field ≡ true
    → field + 2 ≤ len
    → start + len ≤ length p
    → len < 2 ^ 16
    → seed < 2 ^ 21
    → (k : ℕ) × (seed + words (take len (drop start (seal finish start field len seed p)))
        ≡ k * 65535)
seal_lem finish start field len seed p good h e fits inside short small =
    rw (seal-area finish start field len seed p) (
      sealed finish field seed (take len (drop start p)) good
        (take-AreBytes len _ (drop-AreBytes start p h)) e (omega (arith, length_area))
        (omega (arith, length_area)) small)
  where
    length_area : length (take len (drop start p)) ≡ len
    length_area = omega (arith, length-take len (drop start p), length-drop start p)

pub length-seal :
    (finish : ℕ → ℕ) (start field len seed : ℕ) (p : List ℕ)
    → length (seal finish start field len seed p) ≡ length p
unfolding seal write_u16_be
length-seal finish start field len seed p =
    rw (length-write_at (start + field) _ _, length-write_at (start + field) _ p) refl

pub seal-AreBytes :
    (finish : ℕ → ℕ) (start field len seed : ℕ) (p : List ℕ)
    → AreBytes p
    → AreBytes (seal finish start field len seed p)
unfolding seal write_u16_be
seal-AreBytes finish start field len seed p h =
    write_at-AreBytes (start + field) _ _ (u16_be-AreBytes _)
      (write_at-AreBytes (start + field) _ p (u16_be-AreBytes 0) h)

-- What lies before the checksum stays.
pub take-seal :
    (finish : ℕ → ℕ) (n start field len seed : ℕ) (p : List ℕ)
    → n ≤ start + field
    → take n (seal finish start field len seed p) ≡ take n p
unfolding seal write_u16_be
take-seal finish n start field len seed p h =
    take-write_at_after n (start + field) _ _ h ∙ take-write_at_after n (start + field) _ p h

-- What lies behind it stays.
pub drop-seal :
    (finish : ℕ → ℕ) (n start field len seed : ℕ) (p : List ℕ)
    → start + field + 2 ≤ n
    → drop n (seal finish start field len seed p) ≡ drop n p
unfolding seal write_u16_be u16_be
drop-seal finish n start field len seed p h =
    drop-write_at_before n (start + field) _ _ (omega arith)
    ∙ drop-write_at_before n (start + field) _ p (omega arith)

pub slice-seal :
    (finish : ℕ → ℕ) (m n start field len seed : ℕ) (p : List ℕ)
    → m + n ≤ start + field
    → take n (drop m (seal finish start field len seed p)) ≡ take n (drop m p)
unfolding seal write_u16_be
slice-seal finish m n start field len seed p h =
    slice-write_at_before m n (start + field) _ _ h
    ∙ slice-write_at_before m n (start + field) _ p h

pub get_or-seal :
    (finish : ℕ → ℕ) (i start field len seed : ℕ) (p : List ℕ)
    → i < start + field
    → get_or (seal finish start field len seed p) i 0 ≡ get_or p i 0
unfolding seal write_u16_be
get_or-seal finish i start field len seed p h =
    get_or-write_at_before i (start + field) _ _ h ∙ get_or-write_at_before i (start + field) _ p h
