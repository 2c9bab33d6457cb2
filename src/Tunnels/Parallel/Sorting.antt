-- ===== src/Tunnels/Parallel/Sorting.antt =====
-- What the sort of src/fptn-protocol-lib/connection/strategies/parallel_tunnels/parallel_tunnels.h
-- gives.
use fptn_keenetic.Base.{
  ℕ, suc, ◌≤◌, ◌≡◌, List, [], ◌∷◌, leb, leb→le, length, All, Bool-cases, inl, inr, arith,
}
use fptn_keenetic.Tunnels.Parallel.Lifetime.{insert_sorted, sort}

-- The list rises from `r`.
abbrev pub Rises : ℕ → List ℕ → Type 0
Rises r [] = Unit
Rises r (x ∷ xs) = (r ≤ x) × Rises x xs

abbrev pub IsSorted : List ℕ → Type 0
IsSorted [] = Unit
IsSorted (x ∷ xs) = Rises x xs

insert_sorted-Rises : (a r : ℕ) (xs : List ℕ) → r ≤ a → Rises r xs → Rises r (insert_sorted a xs)
unfolding insert_sorted
insert_sorted-Rises a r [] h s = (h, tt)
insert_sorted-Rises a r (x ∷ xs) h s = elim (Bool-cases (leb a x)) [
  | inl y ↦ rw y (h, (leb→le a x y, s.1))
  | inr n ↦ rw n (s.0, insert_sorted-Rises a x xs (ground (arith, n)) s.1)
]

insert_sorted-IsSorted : (a : ℕ) (xs : List ℕ) → IsSorted xs → IsSorted (insert_sorted a xs)
unfolding insert_sorted
insert_sorted-IsSorted a [] s = tt
insert_sorted-IsSorted a (x ∷ xs) s = elim (Bool-cases (leb a x)) [
  | inl y ↦ rw y (leb→le a x y, s)
  | inr n ↦ rw n (insert_sorted-Rises a x xs (ground (arith, n)) s)
]

pub sort-IsSorted : (xs : List ℕ) → IsSorted (sort xs)
unfolding sort
sort-IsSorted [] = tt
sort-IsSorted (x ∷ xs) = insert_sorted-IsSorted x (sort xs) (sort-IsSorted xs)

module _ {ℓ} (P : ℕ → Type ℓ) where
  All-insert_sorted : (a : ℕ) (xs : List ℕ) → P a → All P xs → All P (insert_sorted a xs)
  unfolding insert_sorted
  All-insert_sorted a [] p h = (p, tt)
  All-insert_sorted a (x ∷ xs) p h = elim (Bool-cases (leb a x)) [
    | inl y ↦ rw y (p, h)
    | inr n ↦ rw n (h.0, All-insert_sorted a xs p h.1)
  ]

  pub All-sort : (xs : List ℕ) → All P xs → All P (sort xs)
  unfolding sort
  All-sort [] h = tt
  All-sort (x ∷ xs) h = All-insert_sorted x (sort xs) h.0 (All-sort xs h.1)

  insert_sorted-All : (a : ℕ) (xs : List ℕ) → All P (insert_sorted a xs) → P a × All P xs
  unfolding insert_sorted
  insert_sorted-All a [] h = h
  insert_sorted-All a (x ∷ xs) h = elim (Bool-cases (leb a x)) [
    | inl y ↦ (rw y at h)
    | inr n ↦
        let (p, q) = (rw n at h) in let (pa, rest) = insert_sorted-All a xs q in (pa, (p, rest))
  ]

  pub sort-All : (xs : List ℕ) → All P (sort xs) → All P xs
  unfolding sort
  sort-All [] h = tt
  sort-All (x ∷ xs) h = let (p, rest) = insert_sorted-All x (sort xs) h in (p, sort-All xs rest)

length-insert_sorted : (a : ℕ) (xs : List ℕ) → length (insert_sorted a xs) ≡ suc (length xs)
unfolding insert_sorted
length-insert_sorted a [] = omega arith
length-insert_sorted a (x ∷ xs) = ground (arith, length-insert_sorted a xs)

pub length-sort : (xs : List ℕ) → length (sort xs) ≡ length xs
unfolding sort
length-sort [] = omega arith
length-sort (x ∷ xs) = omega (arith, length-insert_sorted x (sort xs), length-sort xs)
