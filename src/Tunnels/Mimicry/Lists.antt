-- ===== src/Tunnels/Mimicry/Lists.antt =====
-- How often a number stands in the lists of
-- src/fptn-protocol-lib/connection/strategies/browser_mimicry/browser_mimicry.cpp, through a loop
-- over the connections.
use fptn_keenetic.Base.{
  ◌⊎◌, ==_iff, ◌&&◌, ℕ, suc, ◌+◌, ◌-◌, ◌≤◌, ◌≡◌, refl, List, [], ◌∷◌, ◌++◌, Option, none, some,
  Option-cases, Bool, true, Bool-cases, inl, inr, ◌∙◌, ◌==◌, if◌then◌else◌, arith,
}
use fptn_keenetic.Tunnels.Mimicry.{
  ConnectionContext, ConnectionStatus, Modes, is_sending, is_receiving, remove_from_connection_list,
  for_each,
}

unfoldable pub count : ℕ → List ℕ → ℕ
count j [] = 0
count j (x ∷ xs) = let rest = count j xs in if x == j then suc rest else rest

-- The connections of a number whose status passes.
unfoldable pub tally : (ConnectionStatus → Bool) → ℕ → List ConnectionContext → ℕ
tally test j [] = 0
tally test j (c ∷ cs) =
    let rest = tally test j cs in if c.connection_id == j && test c.status then suc rest else rest

abbrev pub present : ℕ → List ConnectionContext → ℕ
present j cs = tally (λ status. true) j cs

pub count-remove_other :
    (id j : ℕ) (xs : List ℕ) → ¬ (id ≡ j) → count j (remove_from_connection_list id xs) ≡ count j xs
unfolding count remove_from_connection_list
count-remove_other id j [] h = refl
count-remove_other id j (x ∷ xs) h = grind (arith, ==_iff, count-remove_other id j xs h)

pub count-remove_own :
    (j : ℕ) (xs : List ℕ) → count j (remove_from_connection_list j xs) ≡ count j xs - 1
unfolding count remove_from_connection_list
count-remove_own j [] = refl
count-remove_own j (x ∷ xs) = grind (arith, ==_iff, count-remove_own j xs)

pub count-append : (j : ℕ) (xs ys : List ℕ) → count j (xs ++ ys) ≡ count j xs + count j ys
unfolding count
count-append j [] ys = omega arith
count-append j (x ∷ xs) ys = grind (arith, count-append j xs ys)

pub tally-append :
    (test : ConnectionStatus → Bool) (j : ℕ) (cs ds : List ConnectionContext)
    → tally test j (cs ++ ds) ≡ tally test j cs + tally test j ds
unfolding tally
tally-append test j [] ds = omega arith
tally-append test j (c ∷ cs) ds = grind (arith, tally-append test j cs ds)

pub tally-le-present :
    (test : ConnectionStatus → Bool) (j : ℕ) (cs : List ConnectionContext)
    → tally test j cs ≤ present j cs
unfolding tally
tally-le-present test j [] = omega arith
tally-le-present test j (c ∷ cs) = ground (arith, tally-le-present test j cs)

-- The lists are those that send and those that receive, as far as a number goes, and it is no
-- other connection's.
unfoldable pub Fits : ℕ → List ConnectionContext → Modes → Type 0
Fits j cs m =
    (count j m.sending ≡ tally is_sending j cs)
    × (count j m.getting ≡ tally is_receiving j cs)
    × (present j cs ≤ 1)

abbrev pub Same : ℕ → Modes → Modes → Type 0
Same j m m' = (count j m'.sending ≡ count j m.sending) × (count j m'.getting ≡ count j m.getting)

abbrev pub out : Option ConnectionContext → List ConnectionContext
out none = []
out (some c) = c ∷ []

-- What a loop's body does to one connection: the lists keep the others, and fit it still.
pub record Local (act : ConnectionContext → Modes → Option ConnectionContext × Modes) : Type 0 where
  pub others :
      (c : ConnectionContext) (m : Modes) (j : ℕ)
      → ¬ (c.connection_id ≡ j)
      → Same j m (act c m).1 × (present j (out (act c m).0) ≡ 0)
  pub own :
      (c : ConnectionContext) (m : Modes) (j : ℕ)
      → c.connection_id ≡ j
      → Fits j (c ∷ []) m
      → Fits j (out (act c m).0) (act c m).1

absent-cons :
    (j : ℕ) (c : ConnectionContext) (cs : List ConnectionContext)
    → present j (c ∷ cs) ≡ 0
    → ¬ (c.connection_id ≡ j) × (present j cs ≡ 0)
unfolding tally
absent-cons j c cs h = grind (arith, ==_iff)

absent-tally :
    (test : ConnectionStatus → Bool) (j : ℕ) (cs : List ConnectionContext)
    → present j cs ≡ 0
    → tally test j cs ≡ 0
absent-tally test j cs h = let le = tally-le-present test j cs in omega arith

-- The number is of the first connection and of no later one, or only of a later one.
split :
    (j : ℕ) (c : ConnectionContext) (cs : List ConnectionContext) (m : Modes)
    → Fits j (c ∷ cs) m
    → ((c.connection_id ≡ j) × (present j cs ≡ 0) × Fits j (c ∷ []) m)
      ⊎ (¬ (c.connection_id ≡ j) × Fits j cs m)
unfolding Fits tally
split j c cs m (s, g, p) = elim (Bool-cases (c.connection_id == j)) [
  | inl y ↦
      let absent : present j cs ≡ 0 = grind arith in
      let none_sends = absent-tally is_sending j cs absent in
      let none_gets = absent-tally is_receiving j cs absent in
      inl ((==_iff c.connection_id j).0 y, absent, grind arith)
  | inr n ↦ inr (grind (arith, ==_iff), grind arith)
]

module _ (act : ConnectionContext → Modes → Option ConnectionContext × Modes) (law : Local act)
    (j : ℕ) where
  tally-cons :
      (test : ConnectionStatus → Bool) (c : ConnectionContext) (cs : List ConnectionContext)
      (m : Modes)
      → tally test j (for_each act (c ∷ cs) m).0
        ≡ tally test j (out (act c m).0) + tally test j (for_each act cs (act c m).1).0
  unfolding for_each tally
  tally-cons test c cs m = elim (Option-cases (act c m).0) [
    | inl nothing ↦ rw nothing (omega arith)
    | inr (c', same) ↦ rw same (ground arith)
  ]

  for_each-away :
      (cs : List ConnectionContext) (m : Modes)
      → present j cs ≡ 0
      → Same j m (for_each act cs m).1 × (present j (for_each act cs m).0 ≡ 0)
  unfolding for_each tally
  for_each-away [] m h = ((refl, refl), refl)
  for_each-away (c ∷ cs) m h =
      let (different, absent) = absent-cons j c cs h in
      let ((s, g), gone) = law.others c m j different in
      let ((s', g'), gone') = for_each-away cs (act c m).1 absent in
      let all = tally-cons (λ status. true) c cs m in ((s' ∙ s, g' ∙ g), omega arith)

  pub for_each-Fits :
      (cs : List ConnectionContext) (m : Modes)
      → Fits j cs m
      → Fits j (for_each act cs m).0 (for_each act cs m).1
  unfolding for_each tally Fits
  for_each-Fits [] m h = h
  for_each-Fits (c ∷ cs) m h =
      let all = tally-cons (λ status. true) c cs m in
      let senders = tally-cons is_sending c cs m in
      let getters = tally-cons is_receiving c cs m in
      elim (split j c cs m h) [
        | inl (mine, absent, alone) ↦
            let (s, g, p) = law.own c m j mine alone in
            let ((s', g'), gone) = for_each-away cs (act c m).1 absent in
            let no_sender = absent-tally is_sending j (for_each act cs (act c m).1).0 gone in
            let no_getter = absent-tally is_receiving j (for_each act cs (act c m).1).0 gone in
            (omega arith, omega arith, omega arith)
        | inr (different, (rs, rg, rp)) ↦
            let ((s, g), gone) = law.others c m j different in
            let no_sender = absent-tally is_sending j (out (act c m).0) gone in
            let no_getter = absent-tally is_receiving j (out (act c m).0) gone in
            let (s', g', p') = for_each-Fits cs (act c m).1 (s ∙ rs, g ∙ rg, rp) in
            (omega arith, omega arith, omega arith)
      ]
