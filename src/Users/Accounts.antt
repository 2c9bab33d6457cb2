-- ===== src/Users/Accounts.antt =====
-- Who may log in after the operations of src/common/user/common_user_manager.h.
use fptn_keenetic.Base.{
  ℕ, ◌≡◌, refl, ap, ◌∙◌, List, Option, none, some, Bool, true, false, ◌==◌, ite, Bool-cases,
  Option-cases, inl, inr, arith,
}
use fptn_keenetic.Base.Dict.{Dict, find, assign, erase, find-assign, find-erase}
use fptn_keenetic.Network.Address.{list_eq}
use fptn_keenetic.Users.{ℤ, pos, negsuc, User, text_discrete, save_users}
use fptn_keenetic.Users.Decimal.{InRange}
use fptn_keenetic.Users.File.{IsSavable, load-save}
use fptn_keenetic.Users.Store.{
  Disk, CommonUserManager, validate_username, load, save, reload_if_changed, delete_user,
  hash_password, add_user, accepts, authenticate,
}
use fptn_keenetic.Users.Savable.{
  IsGood, Digests, username-IsWord, hash-IsWord, All-assign, AreDistinct-assign, All-erase,
  AreDistinct-erase,
}

-- A manager whose users are those of the file.
find-reload :
    (k : List ℕ) (m : CommonUserManager) (d : Disk)
    → d.opens ≡ true
    → d.file ≡ save_users m.users
    → IsGood m.users
    → find text_discrete k (reload_if_changed d m).users ≡ find text_discrete k m.users
unfolding reload_if_changed load
find-reload k m d opens e good = elim (Bool-cases (d.write_time == m.last_write_time)) [
  | inl same ↦ rw (same, reload_if_changed) refl
  | inr changed ↦ rw (changed, opens, e, reload_if_changed) (load-save k m.users good.0 good.1)
]

save-file :
    (now : ℕ) (users : Dict (List ℕ) User) (d : Disk)
    → d.opens ≡ true
    → ((save now users d).opens ≡ true) × ((save now users d).file ≡ save_users users)
unfolding save
save-file now users d h = ground (arith, h)

accepts-ite :
    {P : Type 0} (dec : Dec P) (a b : Option User) (hash : List ℕ)
    → accepts (ite dec a b) hash ≡ ite dec (accepts a hash) (accepts b hash)
accepts-ite (yes p) a b hash = refl
accepts-ite (no n) a b hash = refl

module _ (digest : List ℕ → Option (List ℕ)) where
  authenticate-found :
      (username password : List ℕ) (m : CommonUserManager) (d : Disk)
      → d.opens ≡ true
      → d.file ≡ save_users m.users
      → IsGood m.users
      → (authenticate digest username password m d).1
        ≡ accepts (find text_discrete username m.users) (hash_password digest password)
  unfolding authenticate
  authenticate-found username password m d opens e good =
      ap (λ o. accepts o (hash_password digest password)) (find-reload username m d opens e good)

  -- What a successful AddUser has done.
  add_user-inverse :
      (now : ℕ) (username password : List ℕ) (bandwidth : ℤ) (m : CommonUserManager) (d : Disk)
      → (add_user digest now username password bandwidth m d).2 ≡ true
      → let users =
          assign text_discrete username
            (record { hash = hash_password digest password; bandwidth = bandwidth })
            m.users in
        (add_user digest now username password bandwidth m d
          ≡ (record m { users = users }, save now users d, true))
        × (validate_username username ≡ true)
        × (find text_discrete username m.users ≡ none)
  unfolding add_user
  add_user-inverse now username password (negsuc n) m d h =
      elim (Bool-cases (validate_username username)) [
        | inr bad ↦ cc (rw (bad, add_user) at h)
        | inl valid ↦ cc (rw (valid, add_user) at h)
      ]
  add_user-inverse now username password (pos n) m d h =
      elim (Bool-cases (validate_username username)) [
        | inr bad ↦ cc (rw (bad, add_user) at h)
        | inl valid ↦ elim (Option-cases (find text_discrete username m.users)) [
          | inl new ↦ rw (valid, new, add_user) (refl, refl, refl)
          | inr (u, there) ↦ cc (rw (valid, there, add_user) at h)
        ]
      ]

  -- Where the digest always gives a hash of at least one byte, and the users in memory have distinct
  -- names and can be saved, names and hashes being words and bandwidths ints: if AddUser succeeds,
  -- with a bandwidth that is an int and a file that opens, then afterwards a name may log in with a
  -- password just when it is the new one and the hashes are equal, or it is another whose hash, among
  -- the users in memory before, is that of the password; whether or not the file is read again in
  -- between.
  pub add_user-authenticate :
      (now : ℕ) (username password : List ℕ) (bandwidth : ℤ) (m : CommonUserManager) (d : Disk)
      (other attempt : List ℕ)
      → Digests digest
      → InRange bandwidth
      → IsGood m.users
      → d.opens ≡ true
      → (add_user digest now username password bandwidth m d).2 ≡ true
      → let (m', d', _) = add_user digest now username password bandwidth m d in
        (authenticate digest other attempt m' d').1
        ≡ ite
            (text_discrete username other)
            (list_eq (hash_password digest password) (hash_password digest attempt))
            (accepts (find text_discrete other m.users) (hash_password digest attempt))
  unfolding accepts
  add_user-authenticate now username password bandwidth m d other attempt digests range good opens
        h =
      let user : User = record { hash = hash_password digest password; bandwidth = bandwidth } in
      let users = assign text_discrete username user m.users in
      let (done, valid, new) = add_user-inverse now username password bandwidth m d h in
      let savable : IsSavable (username, user) =
        (username-IsWord username valid, hash-IsWord digest password digests, range) in
      let (still_open, file) = save-file now users d opens in
      ap (λ (r : CommonUserManager × Disk × Bool). (authenticate digest other attempt r.0 r.1).1)
        done
      ∙ authenticate-found other attempt (record m { users = users }) (save now users d) still_open
          file
          (
            All-assign username user m.users savable good.0,
            AreDistinct-assign username user m.users good.1,
          )
      ∙ ap (λ o. accepts o (hash_password digest attempt))
          (find-assign text_discrete username other user m.users)
      ∙ accepts-ite (text_discrete username other) (some user) (find text_discrete other m.users)
          (hash_password digest attempt)

  -- Where the users in memory have distinct names and can be saved, names and hashes being words and
  -- bandwidths ints: after a successful DeleteUser, with a file that opens, the name may not log in
  -- with any password, and every other name may just with a password that has its hash among the
  -- users in memory before, whatever the file had then; whether or not the file is read again in
  -- between.
  pub delete_user-authenticate :
      (now : ℕ) (username : List ℕ) (m : CommonUserManager) (d : Disk) (other attempt : List ℕ)
      → IsGood m.users
      → d.opens ≡ true
      → (delete_user now username m d).2 ≡ true
      → let (m', d', _) = delete_user now username m d in
        (authenticate digest other attempt m' d').1
        ≡ ite
            (text_discrete username other)
            false
            (accepts (find text_discrete other m.users) (hash_password digest attempt))
  unfolding delete_user accepts
  delete_user-authenticate now username m d other attempt good opens h =
      let users = erase text_discrete username m.users in
      let (still_open, file) = save-file now users d opens in
      elim (Option-cases (find text_discrete username m.users)) [
        | inl missing ↦ cc (rw (missing, delete_user) at h)
        | inr (u, there) ↦
            let done : delete_user now username m d
                ≡ (record m { users = users }, save now users d, true) =
              rw (there, delete_user) refl in
            ap
              (λ (r : CommonUserManager × Disk × Bool).
                (authenticate digest other attempt r.0 r.1).1)
              done
            ∙ authenticate-found other attempt (record m { users = users }) (save now users d)
                still_open file
                (All-erase username m.users good.0, AreDistinct-erase username m.users good.1)
            ∙ ap (λ o. accepts o (hash_password digest attempt))
                (find-erase text_discrete username other m.users)
            ∙ accepts-ite (text_discrete username other) none (find text_discrete other m.users)
                (hash_password digest attempt)
      ]
