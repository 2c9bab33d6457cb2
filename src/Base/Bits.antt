-- ===== src/Base/Bits.antt =====
-- Facts about the bit operations at variables: masks of a prefix, and joining a prefix to the bits
-- below it.
use Prim.Native.Nat.{
  ℕ, zero, suc, ◌+◌, ◌-◌, ◌*◌, ◌/◌, ◌%◌, ◌^◌, ◌≤◌, ◌<◌, min, max, bit_and, bit_or, bit_xor, digits,
  differ, bit_and-bitwise, bit_or-bitwise, bit_xor-bitwise,
}
use mathlib.Core.Path.{◌≡◌, refl, ap, ◌∙◌}
use native.Mathlib.Omega.{arith}
use native.Mathlib.Nat.{add-zero, add-suc, pow-suc, div-div-eq-div-mul, mul-le-mul_right}

-- Any two amounts of fuel that cover the first number give one result.
module _ (z : ℕ → ℕ) (f : ℕ → ℕ → ℕ) where
  digits_enough : (n m a b : ℕ) → a ≤ n → a ≤ m → digits z f n a b ≡ digits z f m a b
  digits_enough zero zero a b p q = refl
  digits_enough (suc n) zero zero b p q = refl
  digits_enough zero (suc m) zero b p q = refl
  digits_enough (suc n) (suc m) zero b p q = refl
  digits_enough zero (suc m) (suc a) b p q = absurd (omega arith)
  digits_enough (suc n) zero (suc a) b p q = absurd (omega arith)
  digits_enough (suc n) (suc m) (suc a) b p q =
      ap (λ d. d * 2 + f (suc a % 2) (b % 2))
        (digits_enough n m (suc a / 2) (b / 2) (omega arith) (omega arith))

pub bit_and-halves : (a b : ℕ) → bit_and a b ≡ bit_and (a / 2) (b / 2) * 2 + min (a % 2) (b % 2)
bit_and-halves zero b = omega (arith, bit_and-bitwise 0 b, bit_and-bitwise 0 (b / 2))
bit_and-halves (suc a) b = omega (
  arith,
  bit_and-bitwise (suc a) b,
  bit_and-bitwise (suc a / 2) (b / 2),
  digits_enough (λ _. 0) min a (suc a / 2) (suc a / 2) (b / 2),
)

pub bit_or-halves : (a b : ℕ) → bit_or a b ≡ bit_or (a / 2) (b / 2) * 2 + max (a % 2) (b % 2)
bit_or-halves zero b = omega (arith, bit_or-bitwise 0 b, bit_or-bitwise 0 (b / 2))
bit_or-halves (suc a) b = omega (
  arith,
  bit_or-bitwise (suc a) b,
  bit_or-bitwise (suc a / 2) (b / 2),
  digits_enough (λ c. c) max a (suc a / 2) (suc a / 2) (b / 2),
)

bit_or-zero_right_le : (n a : ℕ) → a ≤ n → bit_or a 0 ≡ a
bit_or-zero_right_le n zero h = bit_or-bitwise 0 0
bit_or-zero_right_le zero (suc a) h = absurd (omega arith)
bit_or-zero_right_le (suc n) (suc a) h =
    omega (arith, bit_or-halves (suc a) 0, bit_or-zero_right_le n (suc a / 2) (omega arith))

bit_and_nothing : (n a : ℕ) → a ≤ n → bit_and a 0 ≡ 0
bit_and_nothing n zero h = bit_and-bitwise 0 0
bit_and_nothing zero (suc a) h = absurd (omega arith)
bit_and_nothing (suc n) (suc a) h =
    omega (arith, bit_and-halves (suc a) 0, bit_and_nothing n (suc a / 2) (omega arith))

-- The digits of an exclusive or.
pub differ_bits : (x y : ℕ) → x < 2 → y < 2 → (differ x y < 2) × (differ (differ x y) y ≡ x)
differ_bits zero zero p q = (omega arith, refl)
differ_bits zero (suc zero) p q = (omega arith, refl)
differ_bits (suc zero) zero p q = (omega arith, refl)
differ_bits (suc zero) (suc zero) p q = (omega arith, refl)
differ_bits (suc (suc x)) y p q = absurd (omega arith)
differ_bits x (suc (suc y)) p q = absurd (omega arith)

pub bit_xor-halves : (a b : ℕ) → bit_xor a b ≡ bit_xor (a / 2) (b / 2) * 2 + differ (a % 2) (b % 2)
bit_xor-halves zero b = omega (arith, bit_xor-bitwise 0 b, bit_xor-bitwise 0 (b / 2), refl_differ)
  where
    refl_differ : differ (0 % 2) (b % 2) ≡ b % 2
    refl_differ = refl
bit_xor-halves (suc a) b = omega (
  arith,
  bit_xor-bitwise (suc a) b,
  bit_xor-bitwise (suc a / 2) (b / 2),
  digits_enough (λ c. c) differ a (suc a / 2) (suc a / 2) (b / 2),
)

pub pow_two_suc : (k : ℕ) → 2 ^ suc k ≡ 2 ^ k * 2
pow_two_suc k = pow-suc 2 k

pub pow_two_pos : (k : ℕ) → 0 < 2 ^ k
pow_two_pos zero = omega arith
pow_two_pos (suc k) = omega (arith, pow_two_suc k, pow_two_pos k)

pub pow_two_add : (m k : ℕ) → 2 ^ (m + k) ≡ 2 ^ m * 2 ^ k
pow_two_add m zero = omega (arith, ap (λ (t : ℕ). 2 ^ t) (add-zero m))
pow_two_add m (suc k) =
    ap (λ t. 2 ^ t) (add-suc m k)
    ∙ omega (arith, pow_two_suc (m + k), pow_two_add m k, ap (λ (t : ℕ). 2 ^ m * t) (pow_two_suc k))

pub pow_two-lt : (m k : ℕ) → 0 < m → 2 ^ k * 2 ≤ 2 ^ (m + k)
pow_two-lt zero k h = elim h [ ]
pow_two-lt (suc m) k h =
    let half : 2 ^ suc m ≡ 2 ^ m * 2 = pow_two_suc m in
    let split : 2 ^ (suc m + k) ≡ 2 ^ suc m * 2 ^ k = pow_two_add (suc m) k in
    grind (arith, pow_two_pos m)

pub two-le-pow_two : (k : ℕ) → 0 < k → 2 ≤ 2 ^ k
two-le-pow_two zero h = elim h [ ]
two-le-pow_two (suc k) h = omega (arith, pow_two_suc k, pow_two_pos k)

-- A network of `k` host bits ends within its width.
pub network_end-le : (m k q : ℕ) → q < 2 ^ m → q * 2 ^ k + 2 ^ k ≤ 2 ^ (m + k)
network_end-le m k q h = omega (arith, mul-le-mul_right (2 ^ k) h, pow_two_add m k)

-- An exclusive or stays within the width, and a second one with the same number undoes it.
pub bit_xor_twice :
    (w a b : ℕ) → a < 2 ^ w → b < 2 ^ w → (bit_xor a b < 2 ^ w) × (bit_xor (bit_xor a b) b ≡ a)
bit_xor_twice zero zero zero p q = (omega arith, refl)
bit_xor_twice zero (suc a) b p q = absurd (omega arith)
bit_xor_twice zero zero (suc b) p q = absurd (omega arith)
bit_xor_twice (suc w) a b p q =
    let (below, back) =
      bit_xor_twice w (a / 2) (b / 2) (omega (arith, pow_two_suc w))
        (omega (arith, pow_two_suc w)) in
    let (bit, bit_back) = differ_bits (a % 2) (b % 2) (omega arith) (omega arith) in
    let first : bit_xor a b ≡ bit_xor (a / 2) (b / 2) * 2 + differ (a % 2) (b % 2) =
      bit_xor-halves a b in
    let high : bit_xor a b / 2 ≡ bit_xor (a / 2) (b / 2) = omega arith in
    let low : bit_xor a b % 2 ≡ differ (a % 2) (b % 2) = omega arith in
    (
      omega (arith, pow_two_suc w),
      bit_xor-halves (bit_xor a b) b ∙ rw (high, low, back, bit_back) (omega arith),
    )

-- A prefix mask of `w` ones above `k` zeros.
bit_and_double : (a x : ℕ) → bit_and a (x * 2) ≡ bit_and (a / 2) x * 2
bit_and_double a x = rw (bit_and-halves a (x * 2), half) (omega arith)
  where
    half : x * 2 / 2 ≡ x
    half = omega arith

bit_and_shift : (k a x : ℕ) → bit_and a (x * 2 ^ k) ≡ bit_and (a / 2 ^ k) x * 2 ^ k
bit_and_shift zero a x = rw (one_mul, one_div) (omega arith)
  where
    one_mul : x * 2 ^ 0 ≡ x
    one_mul = omega arith

    one_div : a / 2 ^ 0 ≡ a
    one_div = omega arith
bit_and_shift (suc k) a x =
    rw (twice, bit_and_double a (x * 2 ^ k), bit_and_shift k (a / 2) x, halved)
      (omega (arith, ap (λ (t : ℕ). bit_and (a / 2 ^ suc k) x * t) (pow_two_suc k)))
  where
    twice : x * 2 ^ suc k ≡ x * 2 ^ k * 2
    twice = omega (arith, ap (λ (t : ℕ). x * t) (pow_two_suc k))

    halved : a / 2 / 2 ^ k ≡ a / 2 ^ suc k
    halved = div-div-eq-div-mul a 2 (2 ^ k) ∙ ap (λ t. a / t) (omega (arith, pow_two_suc k))

-- Under `w` ones a number keeps its low `w` bits.
pub bit_and_low : (w q r : ℕ) → r < 2 ^ w → bit_and (q * 2 ^ w + r) (2 ^ w - 1) ≡ r
bit_and_low zero q (suc r) h = absurd (omega arith)
bit_and_low zero q zero h = bit_and_nothing (q * 1 + 0) (q * 1 + 0) (omega arith)
bit_and_low (suc w) q r h =
    bit_and-halves (q * 2 ^ suc w + r) (2 ^ suc w - 1)
    ∙ rw (upper, lower, bit_and_low w q (r / 2) (omega (arith, pow_two_suc w)))
        (omega (arith, pow_two_suc w, pow_two_pos w, product))
  where
    product : q * 2 ^ suc w ≡ q * 2 ^ w * 2
    product = omega (arith, ap (λ (t : ℕ). q * t) (pow_two_suc w))

    upper : (q * 2 ^ suc w + r) / 2 ≡ q * 2 ^ w + r / 2
    upper = omega (arith, product)

    lower : (2 ^ suc w - 1) / 2 ≡ 2 ^ w - 1
    lower = omega (arith, pow_two_suc w)

bit_and_ones : (w a : ℕ) → a < 2 ^ w → bit_and a (2 ^ w - 1) ≡ a
bit_and_ones w a h = rw zero_left at (bit_and_low w 0 a h)
  where
    zero_left : 0 * 2 ^ w + a ≡ a
    zero_left = omega arith

-- Under a mask of `w` ones above `k` zeros, a number of `w + k` bits keeps its prefix.
pub bit_and_prefix :
    (w k a : ℕ) → a / 2 ^ k < 2 ^ w → bit_and a ((2 ^ w - 1) * 2 ^ k) ≡ a / 2 ^ k * 2 ^ k
bit_and_prefix w k a h = rw (bit_and_shift k a (2 ^ w - 1), bit_and_ones w (a / 2 ^ k) h)

-- Joining a multiple of `2 ^ k` to a number of `k` bits adds them.
pub bit_or-eq-add : (k x y : ℕ) → y < 2 ^ k → bit_or (x * 2 ^ k) y ≡ x * 2 ^ k + y
bit_or-eq-add zero x (suc y) h = absurd (omega arith)
bit_or-eq-add zero x zero h = bit_or-zero_right_le (x * 1) (x * 1) (omega arith) ∙ omega arith
bit_or-eq-add (suc k) x y h =
    bit_or-halves (x * 2 ^ suc k) y
    ∙ rw (upper, bit_or-eq-add k x (y / 2) (omega (arith, pow_two_suc k))) (omega (arith, product))
  where
    product : x * 2 ^ suc k ≡ x * 2 ^ k * 2
    product = omega (arith, ap (λ (t : ℕ). x * t) (pow_two_suc k))

    upper : (x * 2 ^ suc k) / 2 ≡ x * 2 ^ k
    upper = omega (arith, product)
