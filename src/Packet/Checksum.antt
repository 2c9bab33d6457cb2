-- ===== src/Packet/Checksum.antt =====
-- The checksum of src/common/network/ip_utils.h, in `std::uint32_t`. The loop that folds the sum
-- runs on fuel.
mod Tests
use fptn_keenetic.Base.{
  ℕ, zero, suc, ◌+◌, ◌-◌, ◌*◌, ◌/◌, ◌%◌, ◌^◌, ◌≤◌, ◌<◌, ◌≡◌, refl, ap, sym, ◌∙◌, List, [], ◌∷◌,
  arith, Bool, true, false, ltb, if◌then◌else◌, bit_and, bit_or, All, Bool-cases, inl, inr,
}
use fptn_keenetic.Base.Bits.{bit_and_low, bit_or-eq-add}

-- The loop over the words, and the odd byte at the end.
unfoldable pub add_words : List ℕ → ℕ → ℕ
add_words [] sum = sum
add_words (a ∷ []) sum = (sum + a * 2 ^ 8) % 2 ^ 32
add_words (a ∷ b ∷ bytes) sum = add_words bytes ((sum + bit_or (a * 2 ^ 8) b) % 2 ^ 32)

unfoldable pub fold : ℕ → ℕ → ℕ
fold zero sum = sum
fold (suc rounds) sum =
    let next = fold rounds ((bit_and sum 0xFFFF + sum / 2 ^ 16) % 2 ^ 32) in
    if ltb 0 (sum / 2 ^ 16) then next else sum

-- Two rounds are enough.
unfoldable pub rfc1071 : List ℕ → ℕ → ℕ
unfolding add_words fold
rfc1071 bytes sum = (2 ^ 32 - 1 - fold 2 (add_words bytes sum)) % 2 ^ 16

-- The sum of the 16-bit words.
unfoldable pub words : List ℕ → ℕ
words [] = 0
words (a ∷ []) = a * 256
words (a ∷ b ∷ bytes) = a * 256 + b + words bytes

pub add_words_lem :
    (bytes : List ℕ) (sum : ℕ)
    → All (λ b. b < 256) bytes
    → sum + words bytes < 2 ^ 32
    → add_words bytes sum ≡ sum + words bytes
unfolding add_words words
add_words_lem [] sum h fits = omega arith
add_words_lem (a ∷ []) sum h fits = omega arith
add_words_lem (a ∷ b ∷ bytes) sum h fits =
    ap (add_words bytes) word
    ∙ add_words_lem bytes (sum + (a * 256 + b)) h.1.1 (omega arith)
    ∙ omega arith
  where
    word : (sum + bit_or (a * 2 ^ 8) b) % 2 ^ 32 ≡ sum + (a * 256 + b)
    word = omega (arith, bit_or-eq-add 8 a b h.1.0)

low_half : (sum : ℕ) → bit_and sum 0xFFFF ≡ sum % 2 ^ 16
low_half sum = rw whole at (bit_and_low 16 (sum / 2 ^ 16) (sum % 2 ^ 16) (omega arith))
  where
    whole : sum / 2 ^ 16 * 2 ^ 16 + sum % 2 ^ 16 ≡ sum
    whole = omega arith

round : ℕ → ℕ
round sum = sum % 2 ^ 16 + sum / 2 ^ 16

fold-round :
    (rounds sum : ℕ)
    → sum < 2 ^ 32
    → fold (suc rounds) sum ≡ (if ltb 0 (sum / 2 ^ 16) then fold rounds (round sum) else sum)
unfolding fold round
fold-round rounds sum h = ap (λ s. if ltb 0 (sum / 2 ^ 16) then fold rounds s else sum) one
  where
    one : (bit_and sum 0xFFFF + sum / 2 ^ 16) % 2 ^ 32 ≡ sum % 2 ^ 16 + sum / 2 ^ 16
    one = omega (arith, low_half sum)

fold_one :
    (sum : ℕ) → sum < 2 ^ 17 - 1 → (fold 1 sum < 2 ^ 16) × (sum ≡ fold 1 sum + sum / 2 ^ 16 * 65535)
unfolding fold
fold_one sum h = ground (arith, low_half sum)

-- Two rounds bring the sum below 2 ^ 16, and do not change it modulo 65535.
fold_lem :
    (sum : ℕ) → sum < 2 ^ 32 → (fold 2 sum < 2 ^ 16) × ((k : ℕ) × (sum ≡ fold 2 sum + k * 65535))
unfolding round
fold_lem sum h = elim (Bool-cases (ltb 0 (sum / 2 ^ 16))) [
  | inl more ↦
      let (below, e) = fold_one (round sum) (omega arith) in
      rw (fold-round 1 sum h, more) (below, (sum / 2 ^ 16 + round sum / 2 ^ 16, omega (arith, e)))
  | inr done ↦ rw (fold-round 1 sum h, done) (ground arith, (0, omega arith))
]

-- The checksum is the complement of the sum of the words and the seed: added to them it gives a
-- multiple of 65535. The sum of the words and the seed fits 32 bits.
pub rfc1071_lem :
    (bytes : List ℕ) (sum : ℕ)
    → All (λ b. b < 256) bytes
    → sum + words bytes < 2 ^ 32
    → (rfc1071 bytes sum < 2 ^ 16)
      × ((k : ℕ) × (rfc1071 bytes sum + (sum + words bytes) ≡ k * 65535))
unfolding rfc1071
rfc1071_lem bytes sum h fits =
    let (below, (k, e)) =
      fold_lem (add_words bytes sum) (omega (arith, add_words_lem bytes sum h fits)) in
    (omega arith, (k + 1, omega (arith, e, below, add_words_lem bytes sum h fits)))
