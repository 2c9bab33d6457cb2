-- ===== src/Text.antt =====
-- The text helpers of src/common/utils/utils.h. A text is its bytes; `std::isspace` is that of the
-- C locale.
pub mod Trimming
mod Tests
use fptn_keenetic.Base.{
  ℕ, List, [], ◌∷◌, ◌++◌, reverse, Bool, true, false, ◌&&◌, ◌||◌, ◌==◌, leb, if◌then◌else◌,
}

unfoldable pub is_space : ℕ → Bool
is_space c = c == 32 || (leb 9 c && leb c 13)

-- `find_if_not` from the front.
unfoldable pub skip_space : List ℕ → List ℕ
skip_space [] = []
skip_space (c ∷ text) = let rest = skip_space text in if is_space c then rest else c ∷ text

unfoldable pub trim : List ℕ → List ℕ
trim text = reverse (skip_space (reverse (skip_space text)))

-- The items of `std::getline` with a comma; `item` is what was read of the current one. At the
-- end of the text an item with no characters is none.
unfoldable pub items : List ℕ → List ℕ → List (List ℕ)
items [] [] = []
items (x ∷ item) [] = (x ∷ item) ∷ []
items item (c ∷ text) =
    let next = items [] text in
    let more = items (item ++ (c ∷ [])) text in if c == 44 then item ∷ next else more

unfoldable pub trimmed_items : List (List ℕ) → List (List ℕ)
trimmed_items [] = []
trimmed_items (item ∷ rest) =
    let others = trimmed_items rest in
    elim (trim item) [ [] ↦ others | x ∷ trimmed ↦ (x ∷ trimmed) ∷ others ]

unfoldable pub split_comma_separated : List ℕ → List (List ℕ)
split_comma_separated input = trimmed_items (items [] input)
