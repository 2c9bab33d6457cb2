-- ===== src/Users/Tests.antt =====
-- Runs of the model of src/common/user/common_user_manager.h.
use fptn_keenetic.Base.{
  ℕ, ℕ_discrete, ◌≡◌, refl, List, [], ◌∷◌, Option, some, Bool, true, false, arith, ite, All,
}
use fptn_keenetic.Base.Dict.{Dict, find, assign, erase}
use fptn_keenetic.Network.Address.{list_eq}
use fptn_keenetic.Text.{is_space, skip_space}
use fptn_keenetic.Users.{
  pos, negsuc, User, text_discrete, digits, print_int, is_digit, read_digits, starts_with_digit,
  read_unsigned, read_signed, read_int, word, not_empty, read_word, read_line, lines, add_line,
  add_lines, load_users, print_line, save_users,
}
use fptn_keenetic.Users.File.{IsSavable, AreDistinct, load-save}
use fptn_keenetic.Users.Store.{
  Disk, CommonUserManager, is_alnum, all_alnum, validate_username, hex_digit, hex, load, save,
  reload_if_changed, delete_user, times_mega, get_user_bandwidth_bit, get_user_bandwidth,
  hash_password, add_user, accepts, authenticate,
}
use fptn_keenetic.Users.Accounts.{add_user-authenticate, delete_user-authenticate}

program : Unit {0}
unfolding ℕ_discrete find assign erase is_space skip_space text_discrete digits print_int is_digit
    read_digits starts_with_digit read_unsigned read_signed read_int word not_empty read_word
    read_line lines add_line add_lines load_users print_line save_users is_alnum all_alnum
    validate_username hex_digit hex load save reload_if_changed delete_user times_mega
    get_user_bandwidth_bit get_user_bandwidth hash_password add_user accepts authenticate
program = tt

-- A digest of one byte, the first of the text.
abbrev digest : List ℕ → Option (List ℕ)
digest [] = some (0 ∷ [])
digest (c ∷ text) = some (c ∷ [])

abbrev empty : CommonUserManager
empty = record { users = []; last_write_time = 0 }

abbrev disk : Disk
disk = record { file = []; write_time = 0; opens = true }

-- The user "ann" with the password "x" and 250 MB, in the file.
ann_file :
    (add_user digest 5 (97 ∷ 110 ∷ 110 ∷ []) (120 ∷ []) (pos 250) empty disk).1.file
    ≡ 97 ∷ 110 ∷ 110 ∷ 32 ∷ 55 ∷ 56 ∷ 32 ∷ 50 ∷ 53 ∷ 48 ∷ 10 ∷ []
unfolding program
ann_file = refl

abbrev ann : User
ann = record { hash = 55 ∷ 56 ∷ []; bandwidth = pos 250 }

abbrev users : Dict (List ℕ) User
users = (97 ∷ 110 ∷ 110 ∷ [], ann) ∷ (98 ∷ [], record ann { bandwidth = negsuc 6 }) ∷ []

users-IsSavable : All IsSavable users
unfolding program
users-IsSavable = (
  ((refl, (refl, (refl, tt))), (refl, (refl, tt)), omega arith),
  (((refl, tt), (refl, (refl, tt)), omega arith), tt),
)

users-AreDistinct : AreDistinct users
unfolding program
users-AreDistinct = (refl, (refl, tt))

load-save_example :
    find text_discrete (98 ∷ []) (load_users (save_users users))
    ≡ find text_discrete (98 ∷ []) users
load-save_example = load-save (98 ∷ []) users users-IsSavable users-AreDistinct

abbrev added : CommonUserManager × Disk × Bool
added = add_user digest 5 (97 ∷ []) (120 ∷ []) (pos 250) empty disk

added_well : added.2 ≡ true
unfolding program
added_well = refl

digests : (text : List ℕ) → (b : ℕ) × ((bytes : List ℕ) × (digest text ≡ some (b ∷ bytes)))
digests [] = (0, ([], refl))
digests (c ∷ text) = (c, ([], refl))

add_user-authenticate_example :
    (authenticate digest (97 ∷ []) (121 ∷ []) added.0 added.1).1
    ≡ ite
        (text_discrete (97 ∷ []) (97 ∷ []))
        (list_eq (hash_password digest (120 ∷ [])) (hash_password digest (121 ∷ [])))
        (accepts (find text_discrete (97 ∷ []) []) (hash_password digest (121 ∷ [])))
add_user-authenticate_example =
    add_user-authenticate digest 5 (97 ∷ []) (120 ∷ []) (pos 250) empty disk (97 ∷ []) (121 ∷ [])
      digests (omega arith) (tt, tt) refl added_well

abbrev two : CommonUserManager
two = record { users = users; last_write_time = 0 }

deleted_well : (delete_user 7 (98 ∷ []) two disk).2 ≡ true
unfolding program
deleted_well = refl

delete_user-authenticate_example :
    (authenticate digest
      (98 ∷ [])
      (120 ∷ [])
      (delete_user 7 (98 ∷ []) two disk).0
      (delete_user 7 (98 ∷ []) two disk).1).1
    ≡ ite
        (text_discrete (98 ∷ []) (98 ∷ []))
        false
        (accepts (find text_discrete (98 ∷ []) users) (hash_password digest (120 ∷ [])))
delete_user-authenticate_example =
    delete_user-authenticate digest 7 (98 ∷ []) two disk (98 ∷ []) (120 ∷ [])
      (users-IsSavable, users-AreDistinct) refl deleted_well
