-- ===== src/Base/Dict.antt =====
-- `std::unordered_map` as an association list: `find`, `insert`, which keeps an entry that is
-- there, `operator[]` with an assignment, and `erase`.
use mathlib.Core.Path.{◌≡◌, refl}
use mathlib.Core.List.{
  List, [], ◌∷◌, map, Perm, Mem, Nodup, mem-cons_self, mem-cons_of_mem, not-mem-nil,
  eq-or-mem_of_mem-cons, Nodup-cons,
}
use mathlib.Core.List.Perm
use mathlib.Core.Logic.Or
use mathlib.Core.HLevel.{⊥_prop}
use fptn_keenetic.Base.Lists.{All}
use mathlib.Core.Logic.{◌≢◌, ite, if_pos, if_neg}
use mathlib.Core.Option.{Option, none, some}
use native.Mathlib.Omega.{arith}

abbrev pub Dict {ℓ κ} : Type ℓ → Type κ → Type (ℓ ⊔ κ)
Dict K V = List (K × V)

module _ {ℓ κ} {K : Type ℓ} {V : Type κ} where
  abbrev pub keys : Dict K V → List K
  keys = map (λ e. e.0)

module _ {ℓ} {K V : Type ℓ} (dec : Discrete K) where
  unfoldable pub find : K → Dict K V → Option V
  find k [] = none
  find k ((j, v) ∷ d) = ite (dec k j) (some v) (find k d)

  unfoldable pub assign : K → V → Dict K V → Dict K V
  assign k v [] = (k, v) ∷ []
  assign k v ((j, w) ∷ d) = ite (dec k j) ((k, v) ∷ d) ((j, w) ∷ assign k v d)

  unfoldable pub erase : K → Dict K V → Dict K V
  erase k [] = []
  erase k ((j, w) ∷ d) = ite (dec k j) (erase k d) ((j, w) ∷ erase k d)

  unfoldable pub insert : K → V → Dict K V → Dict K V
  insert k v d = elim (find k d) [ none ↦ (k, v) ∷ d | some _ ↦ d ]

  pub find-assign :
      (k j : K) (v : V) (d : Dict K V) → find j (assign k v d) ≡ ite (dec k j) (some v) (find j d)
  unfolding find assign
  find-assign k j v [] = ground arith
  find-assign k j v ((i, w) ∷ d) = ground (arith, find-assign k j v d)

  pub find-erase : (k j : K) (d : Dict K V) → find j (erase k d) ≡ ite (dec k j) none (find j d)
  unfolding find erase
  find-erase k j [] = ground arith
  find-erase k j ((i, w) ∷ d) = ground (arith, find-erase k j d)

  pub find-insert :
      (k j : K) (v : V) (d : Dict K V)
      → find k d ≡ none
      → find j (insert k v d) ≡ ite (dec k j) (some v) (find j d)
  unfolding find insert
  find-insert k j v d h = ground arith

  pub find_of_not-mem : (k : K) (d : Dict K V) → ¬ Mem k (keys d) → find k d ≡ none
  unfolding find
  find_of_not-mem k [] h = refl
  find_of_not-mem k ((j, w) ∷ d) h = elim (dec k j) [
    | yes p ↦ absurd (h (rw (← p) mem-cons_self))
    | no p ↦ rw (if_neg _ p) (find_of_not-mem k d (λ m. h (mem-cons_of_mem j m)))
  ]

  pub not-mem_of_find : (k : K) (d : Dict K V) → find k d ≡ none → ¬ Mem k (keys d)
  unfolding find
  not-mem_of_find k [] h = not-mem-nil
  not-mem_of_find k ((j, w) ∷ d) h = λ m.
      Or.elim ⊥_prop (eq-or-mem_of_mem-cons m) (λ p. ground arith)
        (not-mem_of_find k d (ground arith))

  pub erase_absent : (k : K) (d : Dict K V) → find k d ≡ none → erase k d ≡ d
  unfolding find erase
  erase_absent k [] h = refl
  erase_absent k ((j, w) ∷ d) h = ground (arith, erase_absent k d)

  -- Of distinct keys, `erase` drops exactly one.
  pub keys-erase-perm :
      (k : K) (d : Dict K V) {v : V}
      → Nodup (keys d)
      → find k d ≡ some v
      → Perm (keys d) (k ∷ keys (erase k d))
  unfolding find erase
  keys-erase-perm k [] n h = cc
  keys-erase-perm k ((j, w) ∷ d) {v} n h = elim (dec k j) [
    | yes p ↦
        let away : find k d ≡ none = rw p (find_of_not-mem j d (Nodup-cons.0 n).0) in
        rw (if_pos _ p, erase_absent k d away, p) (Perm.refl _)
    | no p ↦ rw (if_neg _ p) (
        Perm.trans (Perm.cons j (keys-erase-perm k d {v = v} (Nodup-cons.0 n).1 (ground arith)))
          (Perm.swap k j _))
  ]

  pub keys-insert :
      (k : K) (v : V) (d : Dict K V) → find k d ≡ none → keys (insert k v d) ≡ k ∷ keys d
  unfolding insert
  keys-insert k v d h = ground arith

  -- Every entry is the one that its key finds: no key comes twice.
  abbrev pub Listed : Dict K V → Type ℓ
  Listed d = All (λ e. find e.0 d ≡ some e.1) d

  All-weaken : {P Q : K × V → Type ℓ} (d : Dict K V) → ((e : K × V) → P e → Q e) → All P d → All Q d
  All-weaken [] f h = tt
  All-weaken (e ∷ d) f h = (f e h.0, All-weaken d f h.1)

  All-erase :
      {P Q : K × V → Type ℓ} (k : K) (d : Dict K V)
      → ((e : K × V) → k ≢ e.0 → P e → Q e)
      → All P d
      → All Q (erase k d)
  unfolding erase
  All-erase k [] f h = tt
  All-erase k (e ∷ d) f h = elim (dec k e.0) [
    | yes p ↦ rw (if_pos _ p) (All-erase k d f h.1)
    | no p ↦ rw (if_neg _ p) (f e p h.0, All-erase k d f h.1)
  ]

  pub insert-Listed :
      (k : K) (v : V) (d : Dict K V) → find k d ≡ none → Listed d → Listed (insert k v d)
  unfolding insert find
  insert-Listed k v d new h =
      rw (new, insert) (ground arith, All-weaken d (λ e found. ground arith) h)

  pub erase-Listed : (k : K) (d : Dict K V) → Listed d → Listed (erase k d)
  erase-Listed k d h = All-erase k d (λ e other found. ground (arith, find-erase k e.0 d)) h
