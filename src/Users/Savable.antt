-- ===== src/Users/Savable.antt =====
-- The operations of src/common/user/common_user_manager.h keep users that the file can hold.
use fptn_keenetic.Base.{
  ℕ, ◌/◌, ◌%◌, ◌≡◌, refl, ◌∙◌, List, [], ◌∷◌, Option, none, some, true, false, All, if_pos, if_neg,
  arith,
}
use fptn_keenetic.Base.Dict.{Dict, find, assign, erase, find-assign, find-erase}
use fptn_keenetic.Text.{is_space}
use fptn_keenetic.Users.{User, text_discrete}
use fptn_keenetic.Users.Line.{NoSpace, IsWord}
use fptn_keenetic.Users.File.{IsSavable, AreDistinct}
use fptn_keenetic.Users.Store.{
  is_alnum, all_alnum, validate_username, hex_digit, hex, hash_password,
}

-- The file can hold these users.
abbrev pub IsGood : Dict (List ℕ) User → Type 0
IsGood users = All IsSavable users × AreDistinct users

alnum_NoSpace : (text : List ℕ) → all_alnum text ≡ true → NoSpace text
unfolding all_alnum is_alnum is_space
alnum_NoSpace [] h = tt
alnum_NoSpace (c ∷ text) h = (ground (arith, h), alnum_NoSpace text (ground (arith, h)))

pub username-IsWord : (username : List ℕ) → validate_username username ≡ true → IsWord username
unfolding validate_username
username-IsWord [] h = cc
username-IsWord (c ∷ text) h = alnum_NoSpace (c ∷ text) h

hex_digit-NoSpace : (d : ℕ) → is_space (hex_digit d) ≡ false
unfolding is_space hex_digit
hex_digit-NoSpace d = ground arith

hex-NoSpace : (bytes : List ℕ) → NoSpace (hex bytes)
unfolding hex
hex-NoSpace [] = tt
hex-NoSpace (b ∷ bytes) =
    (hex_digit-NoSpace (b / 16), (hex_digit-NoSpace (b % 16), hex-NoSpace bytes))

-- The digest does not fail, and has a byte at least.
abbrev pub Digests : (List ℕ → Option (List ℕ)) → Type 0
Digests digest = (text : List ℕ) → (b : ℕ) × ((bytes : List ℕ) × (digest text ≡ some (b ∷ bytes)))

pub hash-IsWord :
    (digest : List ℕ → Option (List ℕ)) (password : List ℕ)
    → Digests digest
    → IsWord (hash_password digest password)
unfolding hash_password hex
hash-IsWord digest password h =
    let (b, (bytes, e)) = h password in rw (e, hash_password) (hex-NoSpace (b ∷ bytes))

pub All-assign :
    (k : List ℕ) (v : User) (users : Dict (List ℕ) User)
    → IsSavable (k, v)
    → All IsSavable users
    → All IsSavable (assign text_discrete k v users)
unfolding assign
All-assign k v [] s h = (s, tt)
All-assign k v ((j, w) ∷ users) s h = elim (text_discrete k j) [
  | yes p ↦ rw (if_pos (text_discrete k j) p) (s, h.1)
  | no n ↦ rw (if_neg (text_discrete k j) n) (h.0, All-assign k v users s h.1)
]

pub AreDistinct-assign :
    (k : List ℕ) (v : User) (users : Dict (List ℕ) User)
    → AreDistinct users
    → AreDistinct (assign text_discrete k v users)
unfolding assign find
AreDistinct-assign k v [] d = (refl, tt)
AreDistinct-assign k v ((j, w) ∷ users) d = elim (text_discrete k j) [
  | yes p ↦
      let absent : find text_discrete k users ≡ none = rw p d.0 in
      rw (if_pos (text_discrete k j) p) (absent, d.1)
  | no n ↦
      let absent : find text_discrete j (assign text_discrete k v users) ≡ none =
        find-assign text_discrete k j v users
        ∙ if_neg (text_discrete k j) n (some v) (find text_discrete j users)
        ∙ d.0 in
      rw (if_neg (text_discrete k j) n) (absent, AreDistinct-assign k v users d.1)
]

pub All-erase :
    (k : List ℕ) (users : Dict (List ℕ) User)
    → All IsSavable users
    → All IsSavable (erase text_discrete k users)
unfolding erase
All-erase k [] h = tt
All-erase k ((j, w) ∷ users) h = elim (text_discrete k j) [
  | yes p ↦ rw (if_pos (text_discrete k j) p) (All-erase k users h.1)
  | no n ↦ rw (if_neg (text_discrete k j) n) (h.0, All-erase k users h.1)
]

pub AreDistinct-erase :
    (k : List ℕ) (users : Dict (List ℕ) User)
    → AreDistinct users
    → AreDistinct (erase text_discrete k users)
unfolding erase find
AreDistinct-erase k [] d = tt
AreDistinct-erase k ((j, w) ∷ users) d = elim (text_discrete k j) [
  | yes p ↦ rw (if_pos (text_discrete k j) p) (AreDistinct-erase k users d.1)
  | no n ↦
      let absent : find text_discrete j (erase text_discrete k users) ≡ none =
        find-erase text_discrete k j users
        ∙ if_neg (text_discrete k j) n none (find text_discrete j users)
        ∙ d.0 in
      rw (if_neg (text_discrete k j) n) (absent, AreDistinct-erase k users d.1)
]
