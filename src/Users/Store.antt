-- ===== src/Users/Store.antt =====
-- The operations on the users in src/common/user/common_user_manager.h, with the file on the disk.
use fptn_keenetic.Base.{
  ℕ, ◌+◌, ◌-◌, ◌*◌, ◌/◌, ◌%◌, List, [], ◌∷◌, Option, none, some, Bool, true, false, not, ◌&&◌, ◌||◌,
  ◌==◌, ltb, leb, if◌then◌else◌,
}
use fptn_keenetic.Base.Dict.{Dict, find, assign, erase}
use fptn_keenetic.Network.Address.{list_eq}
use fptn_keenetic.Users.{ℤ, pos, negsuc, int_mod, User, text_discrete, load_users, save_users}

-- The file, when it was written last, and whether it can be opened.
pub record Disk : Type 0 where
  pub file : List ℕ
  pub write_time : ℕ
  pub opens : Bool

pub record CommonUserManager : Type 0 where
  pub users : Dict (List ℕ) User
  pub last_write_time : ℕ

unfoldable pub is_alnum : ℕ → Bool
is_alnum c = (leb 48 c && leb c 57) || (leb 65 c && leb c 90) || (leb 97 c && leb c 122)

unfoldable pub all_alnum : List ℕ → Bool
unfolding is_alnum
all_alnum [] = true
all_alnum (c ∷ text) = is_alnum c && all_alnum text

unfoldable pub validate_username : List ℕ → Bool
unfolding all_alnum
validate_username [] = false
validate_username (c ∷ text) = all_alnum (c ∷ text)

unfoldable pub hex_digit : ℕ → ℕ
hex_digit d = if ltb d 10 then 48 + d else 87 + d

unfoldable pub hex : List ℕ → List ℕ
unfolding hex_digit
hex [] = []
hex (b ∷ bytes) = hex_digit (b / 16) ∷ hex_digit (b % 16) ∷ hex bytes

unfoldable pub load : Disk → Dict (List ℕ) User
unfolding load_users
load d = if d.opens then load_users d.file else []

-- SaveUsers at the time `now`.
unfoldable pub save : ℕ → Dict (List ℕ) User → Disk → Disk
unfolding save_users
save now users d = if d.opens then record d { file = save_users users; write_time = now } else d

unfoldable pub reload_if_changed : Disk → CommonUserManager → CommonUserManager
unfolding load
reload_if_changed d m =
    if d.write_time == m.last_write_time
    then m
    else record { users = load d; last_write_time = d.write_time }

unfoldable pub delete_user : ℕ → List ℕ → CommonUserManager → Disk → CommonUserManager × Disk × Bool
unfolding save find erase
delete_user now username m d = elim (find text_discrete username m.users) [
  | none ↦ (m, d, false)
  | some u ↦
      let users = erase text_discrete username m.users in
      (record m { users = users }, save now users d, true)
]

-- `int`, where none is an overflow, which is undefined.
unfoldable pub times_mega : ℤ → Option ℤ
times_mega (pos n) = if ltb (n * 1024 * 1024) int_mod then some (pos (n * 1024 * 1024)) else none
times_mega (negsuc n) =
    if leb ((n + 1) * 1024 * 1024) int_mod then some (negsuc ((n + 1) * 1024 * 1024 - 1)) else none

unfoldable pub get_user_bandwidth_bit : List ℕ → CommonUserManager → Option ℤ
unfolding find times_mega
get_user_bandwidth_bit username m = elim (find text_discrete username m.users) [
  | none ↦ some (pos 0)
  | some u ↦ times_mega u.bandwidth
]

unfoldable pub get_user_bandwidth : List ℕ → CommonUserManager → ℤ
unfolding find
get_user_bandwidth username m = elim (find text_discrete username m.users) [
  | none ↦ pos 0
  | some u ↦ u.bandwidth
]

-- What is found for a name decides.
unfoldable pub accepts : Option User → List ℕ → Bool
accepts none hash = false
accepts (some u) hash = list_eq u.hash hash

module _ (digest : List ℕ → Option (List ℕ)) where
  unfoldable pub hash_password : List ℕ → List ℕ
  unfolding hex
  hash_password password = elim (digest password) [ none ↦ [] | some bytes ↦ hex bytes ]

  unfoldable pub add_user :
      ℕ → List ℕ → List ℕ → ℤ → CommonUserManager → Disk → CommonUserManager × Disk × Bool
  unfolding validate_username hash_password save find assign
  add_user now username password bandwidth m d =
      let user : User = record { hash = hash_password password; bandwidth = bandwidth } in
      let users = assign text_discrete username user m.users in
      if not (validate_username username) then (m, d, false) else elim bandwidth [
        | negsuc n ↦ (m, d, false)
        | pos n ↦ elim (find text_discrete username m.users) [
          | some u ↦ (m, d, false)
          | none ↦ (record m { users = users }, save now users d, true)
        ]
      ]

  unfoldable pub authenticate :
      List ℕ → List ℕ → CommonUserManager → Disk → CommonUserManager × Bool
  unfolding reload_if_changed hash_password find accepts
  authenticate username password m d =
      let m' = reload_if_changed d m in
      (m', accepts (find text_discrete username m'.users) (hash_password password))
