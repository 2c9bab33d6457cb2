-- ===== src/Nat/Table/Pool.antt =====
-- The addresses of a table are a fixed stock: a session takes one of each family out of the free
-- lists and gives it back.
use mathlib.Core.List.{perm_middle, mem-append_right, Nodup-cons}
use mathlib.Core.List.Perm
use mathlib.Core.List.Nodup
use fptn_keenetic.Base.{◌≡◌, List, ◌∷◌, ◌++◌, some, none, Nodup, Perm}
use fptn_keenetic.Base.Dict.{
  Dict, keys, find, insert, erase, find_of_not-mem, keys-erase-perm, keys-insert,
}

module _ {K V : Type 0} (dec : Discrete K) (free : List K) (d : Dict K V) (k : K) where
  -- Taking a free key into use.
  pub find_of_free : Nodup ((k ∷ free) ++ keys d) → find dec k d ≡ none
  find_of_free n = find_of_not-mem dec k d (λ m. (Nodup-cons.0 n).0 (mem-append_right free m))

  pub taken-perm :
      (v : V) → find dec k d ≡ none → Perm (free ++ keys (insert dec k v d)) ((k ∷ free) ++ keys d)
  taken-perm v h = rw (keys-insert dec k v d h) (perm_middle free (keys d))

  -- Giving it back.
  pub given-perm :
      {v : V}
      → Nodup (free ++ keys d)
      → find dec k d ≡ some v
      → Perm ((k ∷ free) ++ keys (erase dec k d)) (free ++ keys d)
  given-perm n h =
      Perm.trans (Perm.symm (perm_middle free (keys (erase dec k d)))) (
        Perm.append_left free
          (Perm.symm (keys-erase-perm dec k d (Nodup.of_append_right free n) h)))
