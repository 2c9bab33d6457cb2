-- ===== src/Text/Trimming.antt =====
-- What `Trim` and `SplitCommaSeparated` of src/common/utils/utils.h make of a text.
use mathlib.Core.List.{append-nil, append_assoc, reverse-append, reverse-reverse}
use fptn_keenetic.Base.{
  ℕ, ◌≡◌, ◌≢◌, refl, sym, ap, ◌∙◌, List, [], ◌∷◌, ◌++◌, reverse, Bool, true, false, ◌==◌, All,
  arith, Bool-cases, inl, inr, if◌then◌else◌,
}
use fptn_keenetic.Text.{is_space, skip_space, trim, items, trimmed_items, split_comma_separated}

-- The text does not start with a space.
abbrev pub starts_clean : List ℕ → Bool
starts_clean [] = true
starts_clean (c ∷ text) = if is_space c then false else true

pub skip_space-starts_clean : (text : List ℕ) → starts_clean (skip_space text) ≡ true
unfolding skip_space
skip_space-starts_clean [] = refl
skip_space-starts_clean (c ∷ text) = elim (Bool-cases (is_space c)) [
  | inl space ↦ rw space (skip_space-starts_clean text)
  | inr other ↦ rw other (rw other refl)
]

pub skip_space_clean : (text : List ℕ) → starts_clean text ≡ true → skip_space text ≡ text
unfolding skip_space
skip_space_clean [] h = refl
skip_space_clean (c ∷ text) h = elim (Bool-cases (is_space c)) [
  | inl space ↦ absurd (ground (arith, h, space))
  | inr other ↦ rw other refl
]

-- What ends with a character that is no space keeps that end.
skip_space-last :
    (xs : List ℕ) (c : ℕ)
    → is_space c ≡ false
    → (ys : List ℕ) × (skip_space (xs ++ (c ∷ [])) ≡ ys ++ (c ∷ []))
unfolding skip_space
skip_space-last [] c h = ([], rw h refl)
skip_space-last (x ∷ xs) c h = elim (Bool-cases (is_space x)) [
  | inl space ↦ let (ys, e) = skip_space-last xs c h in (ys, rw (space, e) refl)
  | inr other ↦ (x ∷ xs, rw other refl)
]

kept_front :
    (text : List ℕ)
    → starts_clean text ≡ true
    → starts_clean (reverse (skip_space (reverse text))) ≡ true
unfolding skip_space
kept_front [] h = refl
kept_front (c ∷ text) h = elim (Bool-cases (is_space c)) [
  | inl space ↦ absurd (ground (arith, h, space))
  | inr other ↦
      let (ys, e) = skip_space-last (reverse text) c other in
      rw (reverse-append (c ∷ []) text, e, reverse-append ys (c ∷ [])) (rw other refl)
]

pub trim_clean :
    (text : List ℕ)
    → starts_clean text ≡ true
    → starts_clean (reverse text) ≡ true
    → trim text ≡ text
unfolding trim
trim_clean text h k =
    rw (skip_space_clean text h, skip_space_clean (reverse text) k) (reverse-reverse text)

-- A text that was trimmed has no space at either end, and a text with no space at either end is
-- left as it is: to trim twice is to trim once.
pub trim_lem :
    (text : List ℕ)
    → (starts_clean (trim text) ≡ true)
      × ((starts_clean (reverse (trim text)) ≡ true) × (trim (trim text) ≡ trim text))
unfolding trim
trim_lem text = (front, (back, trim_clean (trim text) front back))
  where
    front : starts_clean (trim text) ≡ true
    front = kept_front (skip_space text) (skip_space-starts_clean text)

    back : starts_clean (reverse (trim text)) ≡ true
    back =
        rw (reverse-reverse (skip_space (reverse (skip_space text))))
          (skip_space-starts_clean (reverse (skip_space text)))

-- A text that stands between commas as it is: not empty, with no comma, and no space at its ends.
pub record IsItem (item : List ℕ) : Type 0 where
  pub not_empty : item ≢ []
  pub no_comma : All (λ c. (c == 44) ≡ false) item
  pub front : starts_clean item ≡ true
  pub back : starts_clean (reverse item) ≡ true

abbrev pub join_commas : List (List ℕ) → List ℕ
join_commas [] = []
join_commas (item ∷ []) = item
join_commas (item ∷ rest) = item ++ (44 ∷ join_commas rest)

items-last :
    (item text : List ℕ)
    → All (λ c. (c == 44) ≡ false) text
    → items item text ≡ items (item ++ text) []
unfolding items
items-last item [] h = ap (λ x. items x []) (sym (append-nil item))
items-last item (c ∷ text) h =
    rw (items, h.0)
      (items-last (item ++ (c ∷ [])) text h.1
        ∙ ap (λ x. items x []) (append_assoc item (c ∷ []) text))

items-comma :
    (item text rest : List ℕ)
    → All (λ c. (c == 44) ≡ false) text
    → items item (text ++ (44 ∷ rest)) ≡ (item ++ text) ∷ items [] rest
unfolding items
items-comma item [] rest h = ap (λ x. x ∷ items [] rest) (sym (append-nil item))
items-comma item (c ∷ text) rest h =
    rw (items, h.0)
      (items-comma (item ++ (c ∷ [])) text rest h.1
        ∙ ap (λ x. x ∷ items [] rest) (append_assoc item (c ∷ []) text))

items-one : (item : List ℕ) → IsItem item → items [] item ≡ item ∷ []
unfolding items
items-one [] v = absurd (v.not_empty refl)
items-one (x ∷ item) v = items-last [] (x ∷ item) v.no_comma

trimmed-cons :
    (item : List ℕ) (rest : List (List ℕ))
    → IsItem item
    → trimmed_items (item ∷ rest) ≡ item ∷ trimmed_items rest
unfolding trimmed_items
trimmed-cons [] rest v = absurd (v.not_empty refl)
trimmed-cons (x ∷ item) rest v = rw (trimmed_items, trim_clean (x ∷ item) v.front v.back) refl

-- Items that are not empty, have no comma and no space at their ends are read back from the text
-- that joins them with commas, in their order.
pub split_comma_separated-join :
    (list : List (List ℕ)) → All IsItem list → split_comma_separated (join_commas list) ≡ list
unfolding split_comma_separated items trimmed_items
split_comma_separated-join [] h = refl
split_comma_separated-join (item ∷ []) h = rw (items-one item h.0) (trimmed-cons item [] h.0)
split_comma_separated-join (item ∷ next ∷ rest) h =
    rw (items-comma [] item (join_commas (next ∷ rest)) h.0.no_comma) (
      trimmed-cons item (items [] (join_commas (next ∷ rest))) h.0
      ∙ ap (◌∷◌ item) (split_comma_separated-join (next ∷ rest) h.1))
