-- ===== src/Text/Tests.antt =====
-- Texts through src/common/utils/utils.h.
use fptn_keenetic.Base.{◌≡◌, refl, [], ◌∷◌, reverse, true}
use fptn_keenetic.Text.{is_space, skip_space, trim, items, trimmed_items, split_comma_separated}
use fptn_keenetic.Text.Trimming.{starts_clean, trim_lem, IsItem}

program : Unit {0}
unfolding is_space skip_space trim items trimmed_items split_comma_separated
program = tt

-- " a, ,b," and a tab.
main :
    split_comma_separated (32 ∷ 97 ∷ 44 ∷ 32 ∷ 44 ∷ 98 ∷ 44 ∷ 9 ∷ []) ≡ (97 ∷ []) ∷ (98 ∷ []) ∷ []
unfolding program
main = refl

trim_lem_example :
    (starts_clean (trim (32 ∷ 97 ∷ 9 ∷ [])) ≡ true)
    × ((starts_clean (reverse (trim (32 ∷ 97 ∷ 9 ∷ []))) ≡ true)
        × (trim (trim (32 ∷ 97 ∷ 9 ∷ [])) ≡ trim (32 ∷ 97 ∷ 9 ∷ [])))
trim_lem_example = trim_lem (32 ∷ 97 ∷ 9 ∷ [])

one-IsItem : IsItem (97 ∷ [])
unfolding program
one-IsItem = record { not_empty = λ e. cc; no_comma = (refl, tt); front = refl; back = refl }

two-IsItem : IsItem (98 ∷ 32 ∷ 99 ∷ [])
unfolding program
two-IsItem = record {
  not_empty = λ e. cc;
  no_comma = (refl, (refl, (refl, tt)));
  front = refl;
  back = refl;
}
