-- ===== src/Packet/Bytes.antt =====
-- Bytes written into a packet: `memcpy` to an offset, and `WriteU16Be` of
-- src/common/network/ip_utils.h. What would be written past the end, which is undefined, is
-- dropped here.
use fptn_keenetic.Base.{
  ℕ, zero, suc, ◌+◌, ◌/◌, ◌%◌, ◌^◌, ◌≤◌, ◌<◌, ◌≡◌, refl, ap, List, [], ◌∷◌, arith, Bool, ltb, ◌&&◌,
  true, bit_and, length, get_or, take, drop, All,
}

unfoldable pub overwrite : List ℕ → List ℕ → List ℕ
overwrite [] bytes = bytes
overwrite (x ∷ xs) [] = []
overwrite (x ∷ xs) (b ∷ bytes) = x ∷ overwrite xs bytes

unfoldable pub write_at : ℕ → List ℕ → List ℕ → List ℕ
unfolding overwrite
write_at zero xs bytes = overwrite xs bytes
write_at (suc offset) xs [] = []
write_at (suc offset) xs (b ∷ bytes) = b ∷ write_at offset xs bytes

unfoldable pub u16_be : ℕ → List ℕ
u16_be v = v / 2 ^ 8 % 2 ^ 8 ∷ bit_and v 0xFF ∷ []

unfoldable pub write_u16_be : ℕ → ℕ → List ℕ → List ℕ
unfolding write_at u16_be
write_u16_be offset v bytes = write_at offset (u16_be v) bytes

length-overwrite : (xs bytes : List ℕ) → length (overwrite xs bytes) ≡ length bytes
unfolding overwrite
length-overwrite [] bytes = refl
length-overwrite (x ∷ xs) [] = refl
length-overwrite (x ∷ xs) (b ∷ bytes) = ap suc (length-overwrite xs bytes)

pub length-write_at :
    (offset : ℕ) (xs bytes : List ℕ) → length (write_at offset xs bytes) ≡ length bytes
unfolding write_at
length-write_at zero xs bytes = length-overwrite xs bytes
length-write_at (suc offset) xs [] = refl
length-write_at (suc offset) xs (b ∷ bytes) = ap suc (length-write_at offset xs bytes)

take-overwrite :
    (n : ℕ) (xs bytes : List ℕ) → take n (overwrite xs bytes) ≡ overwrite xs (take n bytes)
unfolding overwrite
take-overwrite zero [] bytes = refl
take-overwrite zero (x ∷ xs) bytes = refl
take-overwrite (suc n) [] bytes = refl
take-overwrite (suc n) (x ∷ xs) [] = refl
take-overwrite (suc n) (x ∷ xs) (b ∷ bytes) = ap (◌∷◌ x) (take-overwrite n xs bytes)

-- A prefix of the written bytes is the prefix, written.
pub take-write_at :
    (n offset : ℕ) (xs bytes : List ℕ)
    → take n (write_at offset xs bytes) ≡ write_at offset xs (take n bytes)
unfolding write_at
take-write_at n zero xs bytes = take-overwrite n xs bytes
take-write_at zero (suc offset) xs bytes = refl
take-write_at (suc n) (suc offset) xs [] = refl
take-write_at (suc n) (suc offset) xs (b ∷ bytes) = ap (◌∷◌ b) (take-write_at n offset xs bytes)

-- A write at or behind `n` shows in what follows the first `n` bytes.
pub drop-write_at :
    (n offset i : ℕ) (xs bytes : List ℕ)
    → i ≡ n + offset
    → drop n (write_at i xs bytes) ≡ write_at offset xs (drop n bytes)
unfolding write_at overwrite
drop-write_at zero offset i xs bytes e = ap (λ j. write_at j xs bytes) (omega (arith, e))
drop-write_at (suc n) zero zero xs bytes e = absurd (omega arith)
drop-write_at (suc n) offset zero xs bytes e = absurd (omega arith)
drop-write_at (suc n) zero (suc i) [] [] e = refl
drop-write_at (suc n) zero (suc i) (x ∷ xs) [] e = refl
drop-write_at (suc n) (suc offset) (suc i) xs [] e = refl
drop-write_at (suc n) offset (suc i) xs (b ∷ bytes) e =
    drop-write_at n offset i xs bytes (omega arith)

-- A write behind the first `n` bytes leaves them as they are.
pub take-write_at_after :
    (n offset : ℕ) (xs bytes : List ℕ)
    → n ≤ offset
    → take n (write_at offset xs bytes) ≡ take n bytes
unfolding write_at
take-write_at_after zero offset xs bytes h = refl
take-write_at_after (suc n) zero xs bytes h = absurd (omega arith)
take-write_at_after (suc n) (suc offset) xs [] h = refl
take-write_at_after (suc n) (suc offset) xs (b ∷ bytes) h =
    ap (◌∷◌ b) (take-write_at_after n offset xs bytes (omega arith))

drop-overwrite :
    (n : ℕ) (xs bytes : List ℕ) → length xs ≤ n → drop n (overwrite xs bytes) ≡ drop n bytes
unfolding overwrite
drop-overwrite n [] bytes h = refl
drop-overwrite zero (x ∷ xs) bytes h = absurd (omega arith)
drop-overwrite (suc n) (x ∷ xs) [] h = refl
drop-overwrite (suc n) (x ∷ xs) (b ∷ bytes) h = drop-overwrite n xs bytes (omega arith)

-- A write that ends before `n` leaves what follows as it is.
pub drop-write_at_before :
    (n offset : ℕ) (xs bytes : List ℕ)
    → offset + length xs ≤ n
    → drop n (write_at offset xs bytes) ≡ drop n bytes
unfolding write_at
drop-write_at_before n zero xs bytes h = drop-overwrite n xs bytes (omega arith)
drop-write_at_before zero (suc offset) xs bytes h = absurd (omega arith)
drop-write_at_before (suc n) (suc offset) xs [] h = refl
drop-write_at_before (suc n) (suc offset) xs (b ∷ bytes) h =
    drop-write_at_before n offset xs bytes (omega arith)

overwrite-same :
    (xs bytes : List ℕ) → length xs ≤ length bytes → take (length xs) (overwrite xs bytes) ≡ xs
unfolding overwrite
overwrite-same [] bytes h = refl
overwrite-same (x ∷ xs) [] h = absurd (omega arith)
overwrite-same (x ∷ xs) (b ∷ bytes) h = ap (◌∷◌ x) (overwrite-same xs bytes (omega arith))

-- What was written is read back.
pub read-write_at :
    (offset : ℕ) (xs bytes : List ℕ)
    → offset + length xs ≤ length bytes
    → take (length xs) (drop offset (write_at offset xs bytes)) ≡ xs
unfolding write_at
read-write_at zero xs bytes h = overwrite-same xs bytes (omega arith)
read-write_at (suc offset) xs [] h = absurd (omega arith)
read-write_at (suc offset) xs (b ∷ bytes) h = read-write_at offset xs bytes (omega arith)

abbrev pub AreBytes : List ℕ → Type 0
AreBytes = All (λ b. b < 256)

overwrite-AreBytes :
    (xs bytes : List ℕ) → AreBytes xs → AreBytes bytes → AreBytes (overwrite xs bytes)
unfolding overwrite
overwrite-AreBytes [] bytes h k = k
overwrite-AreBytes (x ∷ xs) [] h k = tt
overwrite-AreBytes (x ∷ xs) (b ∷ bytes) h k = (h.0, overwrite-AreBytes xs bytes h.1 k.1)

pub write_at-AreBytes :
    (offset : ℕ) (xs bytes : List ℕ)
    → AreBytes xs
    → AreBytes bytes
    → AreBytes (write_at offset xs bytes)
unfolding write_at
write_at-AreBytes zero xs bytes h k = overwrite-AreBytes xs bytes h k
write_at-AreBytes (suc offset) xs [] h k = tt
write_at-AreBytes (suc offset) xs (b ∷ bytes) h k = (k.0, write_at-AreBytes offset xs bytes h k.1)

-- A read before the write, or behind it.
pub get_or-write_at_before :
    (i offset : ℕ) (xs bytes : List ℕ)
    → i < offset
    → get_or (write_at offset xs bytes) i 0 ≡ get_or bytes i 0
unfolding write_at
get_or-write_at_before i zero xs bytes h = absurd (omega arith)
get_or-write_at_before i (suc offset) xs [] h = refl
get_or-write_at_before zero (suc offset) xs (b ∷ bytes) h = refl
get_or-write_at_before (suc i) (suc offset) xs (b ∷ bytes) h =
    get_or-write_at_before i offset xs bytes (omega arith)

-- A slice that ends before the write.
pub slice-write_at_before :
    (m n offset : ℕ) (xs bytes : List ℕ)
    → m + n ≤ offset
    → take n (drop m (write_at offset xs bytes)) ≡ take n (drop m bytes)
unfolding write_at
slice-write_at_before zero n offset xs bytes h = take-write_at_after n offset xs bytes (omega arith)
slice-write_at_before (suc m) n zero xs bytes h = absurd (omega arith)
slice-write_at_before (suc m) n (suc offset) xs [] h = refl
slice-write_at_before (suc m) n (suc offset) xs (b ∷ bytes) h =
    slice-write_at_before m n offset xs bytes (omega arith)

-- The test of the same, for concrete bytes.
abbrev pub are_bytes : List ℕ → Bool
are_bytes [] = true
are_bytes (b ∷ bytes) = ltb b 256 && are_bytes bytes

pub are_bytes-AreBytes : (bytes : List ℕ) → are_bytes bytes ≡ true → AreBytes bytes
are_bytes-AreBytes [] h = tt
are_bytes-AreBytes (b ∷ bytes) h = (ground arith, are_bytes-AreBytes bytes (ground arith))
