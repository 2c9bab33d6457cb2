-- ===== src/Users/File.antt =====
-- The file of src/common/user/common_user_manager.h is read back.
use mathlib.Core.List.{append-nil, append_assoc}
use fptn_keenetic.Base.{
  ℕ, ◌≡◌, refl, sym, ap, ◌∙◌, List, [], ◌∷◌, ◌++◌, Option, none, some, false, ◌==◌, if◌then◌else◌,
  map, All, All-append, if_pos, if_neg, Option-cases, inl, inr, arith,
}
use fptn_keenetic.Base.Dict.{Dict, find, assign, find-assign}
use fptn_keenetic.Text.{is_space}
use fptn_keenetic.Users.{
  User, text_discrete, print_int, lines, add_line, add_lines, load_users, print_line, save_users,
}
use fptn_keenetic.Users.Decimal.{InRange}
use fptn_keenetic.Users.Line.{NoSpace, IsWord, NoSpace-of_word, print_int-IsWord, read_line-print}

-- What can be saved: the texts are words, and the bandwidth is an int.
abbrev pub IsSavable : List ℕ × User → Type 0
IsSavable (username, user) = IsWord username × IsWord user.hash × InRange user.bandwidth

-- No name stands twice.
abbrev pub AreDistinct : Dict (List ℕ) User → Type 0
AreDistinct [] = Unit
AreDistinct ((username, user) ∷ users) =
    (find text_discrete username users ≡ none) × AreDistinct users

-- A line without its end.
abbrev line_of : List ℕ × User → List ℕ
line_of (username, user) = username ++ (32 ∷ (user.hash ++ (32 ∷ print_int user.bandwidth)))

abbrev IsLine : List ℕ → Type 0
IsLine = All (λ c. (c == 10) ≡ false)

IsLine-of_word : (text : List ℕ) → NoSpace text → IsLine text
unfolding is_space
IsLine-of_word [] w = tt
IsLine-of_word (c ∷ text) w = (ground (arith, w.0), IsLine-of_word text w.1)

word-IsLine : (text : List ℕ) → IsWord text → IsLine text
word-IsLine text w = IsLine-of_word text (NoSpace-of_word text w)

line_of-IsLine : (entry : List ℕ × User) → IsSavable entry → IsLine (line_of entry)
line_of-IsLine (username, user) (w, h, r) = All-append _ username _ (word-IsLine username w) (
  refl,
  All-append _ user.hash _ (word-IsLine user.hash h)
      (refl, word-IsLine (print_int user.bandwidth) (print_int-IsWord user.bandwidth)),
)

lines_step :
    (line : List ℕ) (c : ℕ) (text : List ℕ)
    → lines line (c ∷ text)
      ≡ (if c == 10 then line ∷ lines [] text else lines (line ++ c ∷ []) text)
unfolding lines
lines_step [] c text = refl
lines_step (x ∷ line) c text = refl

lines-next :
    (line text rest : List ℕ)
    → IsLine text
    → lines line (text ++ (10 ∷ rest)) ≡ (line ++ text) ∷ lines [] rest
lines-next line [] rest h =
    lines_step line 10 rest ∙ ap (λ l. l ∷ lines [] rest) (sym (append-nil line))
lines-next line (c ∷ text) rest h =
    lines_step line c (text ++ (10 ∷ rest))
    ∙ rw h.0 (
        lines-next (line ++ c ∷ []) text rest h.1
        ∙ ap (λ l. l ∷ lines [] rest) (append_assoc line (c ∷ []) text))

print_line-append :
    (username : List ℕ) (user : User) (rest : List ℕ)
    → print_line (username, user) ++ rest ≡ line_of (username, user) ++ (10 ∷ rest)
unfolding print_line
print_line-append username user rest = simp append_assoc

lines-save :
    (users : Dict (List ℕ) User)
    → All IsSavable users
    → lines [] (save_users users) ≡ map line_of users
unfolding save_users lines
lines-save [] h = refl
lines-save ((username, user) ∷ users) (h, t) =
    ap (lines []) (print_line-append username user (save_users users))
    ∙ lines-next [] (line_of (username, user)) (save_users users)
        (line_of-IsLine (username, user) h)
    ∙ ap (λ rest. line_of (username, user) ∷ rest) (lines-save users t)

add_line-print :
    (entry : List ℕ × User) (users : Dict (List ℕ) User)
    → IsSavable entry
    → add_line (line_of entry) users ≡ assign text_discrete entry.0 entry.1 users
unfolding add_line
add_line-print (username, user) users (w, h, r) =
    rw (read_line-print username user w h r, add_line) refl

-- The first user that is there.
abbrev first_of : Option User → Option User → Option User
first_of none b = b
first_of (some u) b = some u

-- Lines added to a dictionary.
find-add_lines :
    (k : List ℕ) (entries users : Dict (List ℕ) User)
    → All IsSavable entries
    → AreDistinct entries
    → find text_discrete k (add_lines (map line_of entries) users)
      ≡ first_of (find text_discrete k entries) (find text_discrete k users)
unfolding add_lines find
find-add_lines k [] users h d = refl
find-add_lines k ((username, user) ∷ entries) users (h, t) (new, d) =
    ap (λ x. find text_discrete k (add_lines (map line_of entries) x))
      (add_line-print (username, user) users h)
    ∙ find-add_lines k entries (assign text_discrete username user users) t d
    ∙ elim (text_discrete k username) [
      | yes p ↦
          let absent : find text_discrete k entries ≡ none = rw p new in
          let head : find text_discrete k ((username, user) ∷ entries) ≡ some user =
            if_pos (text_discrete k username) p (some user) (find text_discrete k entries) in
          ap (λ x. first_of x (find text_discrete k (assign text_discrete username user users)))
            absent
          ∙ find-assign text_discrete username k user users
          ∙ if_pos (text_discrete username k) (sym p) (some user) (find text_discrete k users)
          ∙ sym (ap (λ x. first_of x (find text_discrete k users)) head)
      | no n ↦
          let same : find text_discrete k (assign text_discrete username user users)
              ≡ find text_discrete k users =
            find-assign text_discrete username k user users
            ∙ if_neg (text_discrete username k) (λ e. n (sym e)) (some user)
                (find text_discrete k users) in
          let tail : find text_discrete k ((username, user) ∷ entries)
              ≡ find text_discrete k entries =
            if_neg (text_discrete k username) n (some user) (find text_discrete k entries) in
          ap (first_of (find text_discrete k entries)) same
          ∙ sym (ap (λ x. first_of x (find text_discrete k users)) tail)
    ]

-- Whatever users with distinct names are saved, their names and hashes words without white space and
-- their bandwidths ints, the file that is written gives the same user for every name.
pub load-save :
    (k : List ℕ) (users : Dict (List ℕ) User)
    → All IsSavable users
    → AreDistinct users
    → find text_discrete k (load_users (save_users users)) ≡ find text_discrete k users
unfolding load_users find
load-save k users h d =
    ap (λ l. find text_discrete k (add_lines l [])) (lines-save users h)
    ∙ find-add_lines k users [] h d
    ∙ elim (Option-cases (find text_discrete k users)) [
      | inl missing ↦ rw missing refl
      | inr (u, there) ↦ rw there refl
    ]
