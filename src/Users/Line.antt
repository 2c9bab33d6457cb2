-- ===== src/Users/Line.antt =====
-- A line of the file of src/common/user/common_user_manager.h is read back.
use fptn_keenetic.Base.{
  ℕ, suc, ◌≡◌, refl, ap, ◌∙◌, List, [], ◌∷◌, ◌++◌, some, true, false, All, arith,
}
use fptn_keenetic.Text.{is_space, skip_space}
use fptn_keenetic.Users.{
  ℤ, pos, negsuc, User, digits, print_int, read_signed, read_int, word, not_empty, read_word,
  read_line, starts_with_digit,
}
use fptn_keenetic.Users.Decimal.{
  AreDigits, InRange, digits-AreDigits, digits_front, read_signed-print_int,
}

abbrev pub NoSpace : List ℕ → Type 0
NoSpace = All (λ c. is_space c ≡ false)

-- A text that `>>` reads as one.
abbrev pub IsWord : List ℕ → Type 0
IsWord [] = ⊥
IsWord (c ∷ text) = (is_space c ≡ false) × NoSpace text

pub NoSpace-of_word : (text : List ℕ) → IsWord text → NoSpace text
NoSpace-of_word [] w = tt
NoSpace-of_word (c ∷ text) w = w

word_before : (text rest : List ℕ) → NoSpace text → word (text ++ (32 ∷ rest)) ≡ (text, 32 ∷ rest)
unfolding word is_space
word_before [] rest w = refl
word_before (c ∷ text) rest w = rw (w.0, word_before text rest w.1)

skip_space_front : (c : ℕ) (text : List ℕ) → is_space c ≡ false → skip_space (c ∷ text) ≡ c ∷ text
unfolding skip_space
skip_space_front c text h = rw (h, skip_space) refl

read_word-front :
    (text rest : List ℕ) → IsWord text → read_word (text ++ (32 ∷ rest)) ≡ some (text, 32 ∷ rest)
unfolding read_word not_empty
read_word-front [] rest w = absurd w
read_word-front (c ∷ text) rest w =
    ap (λ t. not_empty (word t)) (skip_space_front c (text ++ (32 ∷ rest)) w.0)
    ∙ ap not_empty (word_before (c ∷ text) rest w)

read_word-space : (text : List ℕ) → read_word (32 ∷ text) ≡ read_word text
unfolding read_word skip_space is_space
read_word-space text = refl

read_int-space : (text : List ℕ) → IsWord text → read_int (32 ∷ text) ≡ read_signed text
unfolding read_int skip_space is_space
read_int-space [] w = absurd w
read_int-space (c ∷ text) w = ap read_signed (skip_space_front c text w.0)

NoSpace-digits : (text : List ℕ) → AreDigits text → NoSpace text
unfolding is_space
NoSpace-digits [] d = tt
NoSpace-digits (c ∷ text) d = (ground (arith, d.0), NoSpace-digits text d.1)

digits-IsWord : (text : List ℕ) → starts_with_digit text ≡ true → AreDigits text → IsWord text
unfolding starts_with_digit
digits-IsWord [] h d = cc
digits-IsWord (c ∷ text) h d = NoSpace-digits (c ∷ text) d

pub print_int-IsWord : (z : ℤ) → IsWord (print_int z)
unfolding print_int is_space
print_int-IsWord (pos n) =
    digits-IsWord (digits (suc n) n) (digits_front (suc n) n (omega arith))
      (digits-AreDigits (suc n) n)
print_int-IsWord (negsuc n) =
    (refl, NoSpace-digits (digits (suc (suc n)) (suc n)) (digits-AreDigits (suc (suc n)) (suc n)))

pub read_line-print :
    (username : List ℕ) (user : User)
    → IsWord username
    → IsWord user.hash
    → InRange user.bandwidth
    → read_line (username ++ (32 ∷ (user.hash ++ (32 ∷ print_int user.bandwidth))))
      ≡ some (username, user)
unfolding read_line
read_line-print username user w h r =
    rw
      (
        read_word-front username (user.hash ++ (32 ∷ print_int user.bandwidth)) w,
        read_word-space (user.hash ++ (32 ∷ print_int user.bandwidth)),
        read_word-front user.hash (print_int user.bandwidth) h,
        read_int-space (print_int user.bandwidth) (print_int-IsWord user.bandwidth),
        read_signed-print_int user.bandwidth r,
        read_line,
      )
      refl
