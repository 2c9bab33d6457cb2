-- ===== src/Users/Decimal.antt =====
-- A number written by src/common/user/common_user_manager.h is read back.
use fptn_keenetic.Base.{
  ℕ, zero, suc, ◌+◌, ◌-◌, ◌*◌, ◌/◌, ◌%◌, ◌≤◌, ◌<◌, ◌≡◌, refl, ◌∙◌, List, [], ◌∷◌, ◌++◌, some, true,
  false, ◌&&◌, ltb, lt→ltb, leb, All, All-append, Bool-cases, inl, inr, arith,
}
use fptn_keenetic.Users.{
  ℤ, pos, negsuc, int_mod, digits, print_int, is_digit, read_digits, starts_with_digit,
  read_unsigned, read_signed,
}

abbrev pub AreDigits : List ℕ → Type 0
AreDigits = All (λ c. (48 ≤ c) × (c ≤ 57))

-- What the digits of a text stand for, after `acc`.
abbrev value : ℕ → List ℕ → ℕ
value acc [] = acc
value acc (c ∷ text) = value (acc * 10 + (c - 48)) text

value-append :
    (acc c : ℕ) (text : List ℕ) → value acc (text ++ c ∷ []) ≡ value acc text * 10 + (c - 48)
value-append acc c [] = refl
value-append acc c (x ∷ text) = value-append (acc * 10 + (x - 48)) c text

read_digits-append :
    (acc : ℕ) (text : List ℕ) → AreDigits text → read_digits acc text ≡ value acc text
unfolding read_digits is_digit
read_digits-append acc [] d = refl
read_digits-append acc (c ∷ text) d =
    let yes_digit : (leb 48 c && leb c 57) ≡ true = ground (arith, d.0) in
    rw (yes_digit, read_digits) (read_digits-append (acc * 10 + (c - 48)) text d.1)

pub digits-AreDigits : (fuel n : ℕ) → AreDigits (digits fuel n)
unfolding digits
digits-AreDigits zero n = tt
digits-AreDigits (suc fuel) n = elim (Bool-cases (ltb n 10)) [
  | inl y ↦ rw (y, digits) ((omega arith, ground (arith, y)), tt)
  | inr m ↦
      rw (m, digits)
        (All-append (λ c. (48 ≤ c) × (c ≤ 57)) (digits fuel (n / 10)) ((48 + n % 10) ∷ [])
          (digits-AreDigits fuel (n / 10)) ((omega arith, omega arith), tt))
]

value-digits : (fuel n : ℕ) → n < fuel → value 0 (digits fuel n) ≡ n
unfolding digits
value-digits zero n h = absurd (omega arith)
value-digits (suc fuel) n h = elim (Bool-cases (ltb n 10)) [
  | inl y ↦ rw (y, digits) (omega arith)
  | inr m ↦
      let big : 10 ≤ n = ground (arith, m) in
      let high : value 0 (digits fuel (n / 10)) ≡ n / 10 =
        value-digits fuel (n / 10) (omega arith) in
      rw (m, digits) (value-append 0 (48 + n % 10) (digits fuel (n / 10)) ∙ omega (arith, high))
]

-- There is a digit, and it is in front.
pub digits_front : (fuel n : ℕ) → n < fuel → starts_with_digit (digits fuel n) ≡ true
unfolding digits starts_with_digit is_digit
digits_front zero n h = absurd (omega arith)
digits_front (suc fuel) n h = elim (Bool-cases (ltb n 10)) [
  | inl y ↦ rw (y, digits) (ground (arith, y))
  | inr m ↦
      let big : 10 ≤ n = ground (arith, m) in
      rw (m, digits)
        (front-append (digits fuel (n / 10)) ((48 + n % 10) ∷ [])
          (digits_front fuel (n / 10) (omega arith)))
]
  where
    front-append : (a b : List ℕ) → starts_with_digit a ≡ true → starts_with_digit (a ++ b) ≡ true
    front-append [] b h = cc
    front-append (x ∷ a) b h = h

abbrev pub InRange : ℤ → Type 0
InRange (pos n) = n < int_mod
InRange (negsuc n) = n < int_mod

read_digits-digits : (n : ℕ) → read_digits 0 (digits (suc n) n) ≡ n
read_digits-digits n =
    read_digits-append 0 (digits (suc n) n) (digits-AreDigits (suc n) n)
    ∙ value-digits (suc n) n (omega arith)

-- The text in front of which a number stands is not a sign.
unsigned :
    (text : List ℕ) → starts_with_digit text ≡ true → read_signed text ≡ read_unsigned false text
unfolding read_signed starts_with_digit is_digit
unsigned [] h = cc
unsigned (c ∷ text) h = ground (arith, h)

read_positive :
    (text : List ℕ) (n : ℕ)
    → starts_with_digit text ≡ true
    → read_digits 0 text ≡ n
    → n < int_mod
    → read_unsigned false text ≡ some (pos n)
unfolding read_unsigned
read_positive text n front e h =
    let small : ltb n int_mod ≡ true = lt→ltb _ _ h in rw (e, front, small, read_unsigned) refl

read_negative :
    (text : List ℕ) (n : ℕ)
    → starts_with_digit text ≡ true
    → read_digits 0 text ≡ suc n
    → n < int_mod
    → read_unsigned true text ≡ some (negsuc n)
unfolding read_unsigned
read_negative text n front e h =
    let small : ltb int_mod (suc n) ≡ false = ground arith in ground (arith, e, front, small)

pub read_signed-print_int : (z : ℤ) → InRange z → read_signed (print_int z) ≡ some z
unfolding print_int
read_signed-print_int (pos n) h =
    let front = digits_front (suc n) n (omega arith) in
    unsigned (digits (suc n) n) front
    ∙ read_positive (digits (suc n) n) n front (read_digits-digits n) h
read_signed-print_int (negsuc n) h =
    unfold read_signed in
    read_negative (digits (suc (suc n)) (suc n)) n
      (digits_front (suc (suc n)) (suc n) (omega arith)) (read_digits-digits (suc n)) h
