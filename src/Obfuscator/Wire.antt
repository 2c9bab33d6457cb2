-- ===== src/Obfuscator/Wire.antt =====
-- What the two obfuscators of src/fptn-protocol-lib/https/obfuscator/methods share: numbers in
-- network byte order, the transform by a key, and the bounded input buffer. A byte is a number
-- below 256.
use fptn_keenetic.Base.{
  ℕ, zero, suc, ◌+◌, ◌-◌, ◌*◌, ◌/◌, ◌%◌, ◌^◌, ◌≤◌, ◌<◌, ◌≡◌, refl, ap, ◌∙◌, sym, List, [], ◌∷◌,
  ◌++◌, map, arith, Bool, true, false, bit_xor, ltb, if◌then◌else◌, All, length, length-append,
  length-take, length-map, get_or, take, drop,
}
use fptn_keenetic.Base.Bits.{bit_xor_twice}

abbrev pub IsByte : ℕ → Type 0
IsByte b = b < 256

-- `HostToNetwork16` and the copy into the record.
unfoldable pub write_uint16 : ℕ → List ℕ
write_uint16 value = value / 256 % 256 ∷ value % 256 ∷ []

-- `NetworkToHost16` of the two bytes at an offset.
unfoldable pub read_uint16 : List ℕ → ℕ → ℕ
read_uint16 bytes i = get_or bytes i 0 * 256 + get_or bytes (i + 1) 0

-- The same for 32 bits.
unfoldable pub write_uint32 : ℕ → List ℕ
write_uint32 value =
    value / 2 ^ 24 % 256 ∷ value / 2 ^ 16 % 256 ∷ value / 2 ^ 8 % 256 ∷ value % 256 ∷ []

unfoldable pub read_uint32 : List ℕ → ℕ → ℕ
read_uint32 bytes i =
    ((get_or bytes i 0 * 256 + get_or bytes (i + 1) 0) * 256 + get_or bytes (i + 2) 0) * 256
    + get_or bytes (i + 3) 0

-- The bytes of a 64-bit number in the order of the host, which is taken to be little-endian.
unfoldable pub write_uint64 : ℕ → List ℕ
write_uint64 value =
    value % 256
    ∷ value / 2 ^ 8 % 256
    ∷ value / 2 ^ 16 % 256
    ∷ value / 2 ^ 24 % 256
    ∷ value / 2 ^ 32 % 256
    ∷ value / 2 ^ 40 % 256
    ∷ value / 2 ^ 48 % 256
    ∷ value / 2 ^ 56 % 256
    ∷ []

unfoldable pub apply_xor_transform : List ℕ → ℕ → List ℕ
apply_xor_transform message key = map (λ b. bit_xor b key) message

-- `AddData`: the buffer afterwards, and the answer.
unfoldable pub add_bounded : ℕ → List ℕ → List ℕ → List ℕ × Bool
add_bounded max_buffer_size message input_buffer =
    let available_space = max_buffer_size - length input_buffer in
    if ltb 0 (length message)
    then (if ltb max_buffer_size (length input_buffer + length message)
        then (if ltb 0 available_space
            then (input_buffer ++ take available_space message, true)
            else (input_buffer, false))
        else (input_buffer ++ message, true))
    else (input_buffer, false)

pub length-apply_xor_transform :
    (message : List ℕ) (key : ℕ) → length (apply_xor_transform message key) ≡ length message
unfolding apply_xor_transform
length-apply_xor_transform message key = length-map message (λ b. bit_xor b key)

-- Transforming twice by one key changes nothing.
pub apply_xor_transform_twice :
    (message : List ℕ) (key : ℕ)
    → All IsByte message
    → IsByte key
    → apply_xor_transform (apply_xor_transform message key) key ≡ message
unfolding apply_xor_transform
apply_xor_transform_twice [] key h k = refl
apply_xor_transform_twice (b ∷ message) key h k = rw (
  (bit_xor_twice 8 b key h.0 k).1,
  apply_xor_transform_twice message key h.1 k,
  apply_xor_transform,
)

take_nil : {A : Type 0} (n : ℕ) → take {A = A} n [] ≡ []
take_nil zero = refl
take_nil (suc n) = refl

drop_nil : {A : Type 0} (n : ℕ) → drop {A = A} n [] ≡ []
drop_nil zero = refl
drop_nil (suc n) = refl

pub drop_add : {A : Type 0} (m n : ℕ) (xs : List A) → drop (m + n) xs ≡ drop n (drop m xs)
drop_add zero n xs = ap (λ k. drop k xs) (omega arith)
drop_add (suc m) n [] = drop_nil (suc m + n) ∙ sym (drop_nil n)
drop_add (suc m) n (x ∷ xs) = ap (λ k. drop k (x ∷ xs)) more ∙ drop_add m n xs
  where
    more : suc m + n ≡ suc (m + n)
    more = omega arith

pub take_add :
    {A : Type 0} (m n : ℕ) (xs : List A) → take (m + n) xs ≡ take m xs ++ take n (drop m xs)
take_add zero n xs = ap (λ k. take k xs) (omega arith)
take_add (suc m) n [] = take_nil (suc m + n) ∙ sym (take_nil n)
take_add (suc m) n (x ∷ xs) = ap (λ k. take k (x ∷ xs)) more ∙ ap (◌∷◌ x) (take_add m n xs)
  where
    more : suc m + n ≡ suc (m + n)
    more = omega arith

-- Two bytes in network order give back the number they were made of.
pub uint16_digits : (value : ℕ) → value < 2 ^ 16 → value / 256 % 256 * 256 + value % 256 ≡ value
uint16_digits value h = omega arith

pub uint32_digits :
    (value : ℕ)
    → value < 2 ^ 32
    → ((value / 16777216 % 256 * 256 + value / 65536 % 256) * 256 + value / 256 % 256) * 256
        + value % 256
      ≡ value
uint32_digits value h = omega arith

-- A buffer that is within its bound stays so when bytes are added.
pub add_bounded_le :
    (cap : ℕ) (message input_buffer : List ℕ)
    → length input_buffer ≤ cap
    → length (add_bounded cap message input_buffer).0 ≤ cap
unfolding add_bounded
add_bounded_le cap message input_buffer h = ground (
  arith,
  length-append input_buffer message,
  length-append input_buffer (take (cap - length input_buffer) message),
  length-take (cap - length input_buffer) message,
)
