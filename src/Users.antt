-- ===== src/Users.antt =====
-- The users of a server and their file: src/common/user/common_user_manager.h. Texts are their
-- bytes, and an int that is not negative is a natural number below 2 ^ 31. The dictionary's order is
-- that in which the hash table is walked. The digest of OpenSSL is the parameter `digest`, none where
-- it fails. Console output is left out.
pub mod Decimal
pub mod Line
pub mod File
pub mod Store
pub mod Savable
pub mod Accounts
mod Tests
use fptn_keenetic.Base.{
  ℕ, zero, suc, ◌+◌, ◌-◌, ◌*◌, ◌/◌, ◌%◌, ◌^◌, List, [], ◌∷◌, ◌++◌, Option, none, some, Bool, true,
  false, not, ◌&&◌, ◌||◌, ◌==◌, ltb, leb, if◌then◌else◌, ite, ◌≡◌, refl, ℕ_discrete,
}
use fptn_keenetic.Base.Dict.{Dict, find, assign, erase}
use fptn_keenetic.Text.{is_space, skip_space}

abbrev pub int_mod : ℕ
int_mod = 2 ^ 31

unfoldable pub text_discrete : Discrete (List ℕ)
unfolding ℕ_discrete
text_discrete [] [] = yes refl
text_discrete [] (y ∷ b) = no (λ e. cc)
text_discrete (x ∷ a) [] = no (λ e. cc)
text_discrete (x ∷ a) (y ∷ b) = elim (ℕ_discrete x y) [
  | no n ↦ no (λ e. n (cc))
  | yes p ↦ elim (text_discrete a b) [ yes q ↦ yes (cc) | no n ↦ no (λ e. n (cc)) ]
]

-- `negsuc n` is -(n + 1).
pub data ℤ : Type 0 where
  pos : ℕ → ℤ
  negsuc : ℕ → ℤ

pub record User : Type 0 where
  pub hash : List ℕ
  pub bandwidth : ℤ

-- The decimal digits of a number, with fuel.
unfoldable pub digits : ℕ → ℕ → List ℕ
digits zero n = []
digits (suc fuel) n =
    let high = digits fuel (n / 10) in
    if ltb n 10 then (48 + n) ∷ [] else high ++ (48 + n % 10) ∷ []

-- `<<` of an int; a number has no more digits than it counts.
unfoldable pub print_int : ℤ → List ℕ
print_int (pos n) = digits (suc n) n
print_int (negsuc n) = 45 ∷ digits (suc (suc n)) (suc n)

unfoldable pub is_digit : ℕ → Bool
is_digit c = leb 48 c && leb c 57

-- The number that digits in front of the text go on to, and whether there is one.
unfoldable pub read_digits : ℕ → List ℕ → ℕ
unfolding is_digit
read_digits acc [] = acc
read_digits acc (c ∷ text) =
    let more = read_digits (acc * 10 + (c - 48)) text in if is_digit c then more else acc

unfoldable pub starts_with_digit : List ℕ → Bool
unfolding is_digit
starts_with_digit [] = false
starts_with_digit (c ∷ text) = is_digit c

unfoldable pub read_unsigned : Bool → List ℕ → Option ℤ
unfolding read_digits starts_with_digit
read_unsigned negative text =
    let n = read_digits 0 text in
    if not (starts_with_digit text)
    then none
    else if negative
    then if ltb int_mod n then none else some (if n == 0 then pos 0 else negsuc (n - 1))
    else if ltb n int_mod
    then some (pos n)
    else none

-- `>>` into an int, behind the white space. A number out of range fails.
unfoldable pub read_signed : List ℕ → Option ℤ
unfolding read_unsigned
read_signed [] = none
read_signed (c ∷ text) =
    if c == 45
    then read_unsigned true text
    else if c == 43
    then read_unsigned false text
    else read_unsigned false (c ∷ text)

unfoldable pub read_int : List ℕ → Option ℤ
unfolding read_signed skip_space
read_int text = read_signed (skip_space text)

-- The text up to the first white space, and the rest.
unfoldable pub word : List ℕ → List ℕ × List ℕ
word [] = ([], [])
word (c ∷ text) =
    let (first, rest) = word text in if is_space c then ([], c ∷ text) else (c ∷ first, rest)

-- A string of no characters is a failure.
unfoldable pub not_empty : List ℕ × List ℕ → Option (List ℕ × List ℕ)
not_empty ([], rest) = none
not_empty (c ∷ first, rest) = some (c ∷ first, rest)

-- `>>` into a string.
unfoldable pub read_word : List ℕ → Option (List ℕ × List ℕ)
unfolding word skip_space not_empty
read_word text = not_empty (word (skip_space text))

-- A line of LoadUsers.
unfoldable pub read_line : List ℕ → Option (List ℕ × User)
unfolding read_word read_int
read_line line = elim (read_word line) [
  | none ↦ none
  | some (username, rest) ↦ elim (read_word rest) [
    | none ↦ none
    | some (hash, rest') ↦ elim (read_int rest') [
      | none ↦ none
      | some bandwidth ↦ some (username, record { hash = hash; bandwidth = bandwidth })
    ]
  ]
]

-- `std::getline`; `line` is what was read of the current one. At the end of the file a line with
-- no characters is none.
unfoldable pub lines : List ℕ → List ℕ → List (List ℕ)
lines [] [] = []
lines (x ∷ line) [] = (x ∷ line) ∷ []
lines line (c ∷ text) =
    let next = lines [] text in
    let more = lines (line ++ (c ∷ [])) text in if c == 10 then line ∷ next else more

unfoldable pub add_line : List ℕ → Dict (List ℕ) User → Dict (List ℕ) User
unfolding read_line
add_line line users = elim (read_line line) [
  | none ↦ users
  | some (username, user) ↦ assign text_discrete username user users
]

unfoldable pub add_lines : List (List ℕ) → Dict (List ℕ) User → Dict (List ℕ) User
unfolding add_line
add_lines [] users = users
add_lines (line ∷ rest) users = add_lines rest (add_line line users)

-- LoadUsers, of a file that opens.
unfoldable pub load_users : List ℕ → Dict (List ℕ) User
unfolding add_lines lines
load_users file = add_lines (lines [] file) []

unfoldable pub print_line : List ℕ × User → List ℕ
unfolding print_int
print_line (username, user) =
    username ++ (32 ∷ (user.hash ++ (32 ∷ (print_int user.bandwidth ++ (10 ∷ [])))))

-- SaveUsers, of a file that opens.
unfoldable pub save_users : Dict (List ℕ) User → List ℕ
unfolding print_line
save_users [] = []
save_users (entry ∷ users) = print_line entry ++ save_users users
