-- ===== src/Tunnels/Parallel/Sending.antt =====
-- Send of src/fptn-protocol-lib/connection/strategies/parallel_tunnels/parallel_tunnels.h.
use native.Mathlib.Nat.{mod-lt, mod-eq_of_lt, div-add-mod', mul-add-mod_self_right, suc-mul}
use fptn_keenetic.Base.{
  ℕ, zero, suc, ◌+◌, ◌-◌, ◌*◌, ◌/◌, ◌%◌, ◌≤◌, ◌<◌, ◌≡◌, refl, sym, ap, subst, ◌∙◌, List, [], ◌∷◌,
  Option, none, some, Bool, true, false, not, ◌||◌, ◌==◌, length, get_elem?, get_elem?-lt,
  if◌then◌else◌, Bool-cases, inl, inr, arith, dec_lt, ℕ_discrete, ◌⊎◌,
}
use fptn_keenetic.Packet.{IpPacket}
use fptn_keenetic.Tunnels.Parallel.{
  Channel, ParallelTunnels, Instant, size_mod, start_of, find_started, send,
}

-- Some round of a full turn comes to each place.
turn : (start n m : ℕ) → m < n → (j : ℕ) × (j < n) × ((start + j) % n ≡ m)
turn start n m h = elim (dec_lt m (start % n)) [
  | no ahead ↦
      (m - start % n, omega arith, at (start / n) (start + (m - start % n)) (omega (arith, parts)))
  | yes behind ↦ (
    m + n - start % n,
    omega arith,
    at (suc (start / n)) (start + (m + n - start % n)) (rw suc-mul (omega (arith, parts, below))),
  )
]
  where
    parts : start / n * n + start % n ≡ start
    parts = div-add-mod' start n

    below : start % n < n
    below = mod-lt start (omega arith)

    at : (q x : ℕ) → q * n + m ≡ x → x % n ≡ m
    at q x e = sym (ap (λ (t : ℕ). t % n) e) ∙ mul-add-mod_self_right q n m ∙ mod-eq_of_lt h

-- One look of the loop.
abbrev look : (ℕ → Bool) → Option Channel → Option Channel → Option Channel
look is_started o rest = elim o [
  | none ↦ none
  | some c ↦ if is_started c.connection_id then some c else rest
]

looked :
    (is_started : ℕ → Bool) (o rest : Option Channel) (c : Channel)
    → look is_started o rest ≡ some c
    → ((o ≡ some c) × (is_started c.connection_id ≡ true)) ⊎ (rest ≡ some c)
looked is_started none rest c h = cc
looked is_started (some d) rest c h = elim (Bool-cases (is_started d.connection_id)) [
  | inl y ↦ let same : some d ≡ some c = rw y at h in inl (same, of_same d c same y)
  | inr n ↦ inr (rw n at h)
]
  where
    of_same :
        (d c : Channel)
        → some d ≡ some c
        → is_started d.connection_id ≡ true
        → is_started c.connection_id ≡ true
    of_same d c same y = cc

look-some :
    (is_started : ℕ → Bool) (d : Channel) (rest : Option Channel)
    → (is_started d.connection_id ≡ true) ⊎ ((c : Channel) × (rest ≡ some c))
    → (c : Channel) × (look is_started (some d) rest ≡ some c)
look-some is_started d rest h = elim (Bool-cases (is_started d.connection_id)) [
  | inl y ↦ (d, rw y refl)
  | inr n ↦ elim h [ inl y ↦ cc (sym n ∙ y) | inr (c, e) ↦ (c, rw (n, e) refl) ]
]

module _ (is_started : ℕ → Bool) (cs : List Channel) (start : ℕ) where
  find_started_sound :
      (rounds i : ℕ) (c : Channel)
      → find_started is_started cs start rounds i ≡ some c
      → (is_started c.connection_id ≡ true) × ((k : ℕ) × (get_elem? cs k ≡ some c))
  unfolding find_started
  find_started_sound zero i c h = cc
  find_started_sound (suc rounds) i c h =
      let k = (start + i) % size_mod % length cs in
      elim (looked is_started (get_elem? cs k) (find_started is_started cs start rounds (i + 1)) c
        h) [
          | inl (there, y) ↦ (y, (k, there))
          | inr later ↦ find_started_sound rounds (i + 1) c later
        ]

  find_started_complete :
      (rounds i j : ℕ) (d : Channel)
      → i ≤ j
      → j < i + rounds
      → 0 < length cs
      → get_elem? cs ((start + j) % size_mod % length cs) ≡ some d
      → is_started d.connection_id ≡ true
      → (c : Channel) × (find_started is_started cs start rounds i ≡ some c)
  unfolding find_started
  find_started_complete zero i j d lo hi pos there up = absurd (omega arith)
  find_started_complete (suc rounds) i j d lo hi pos there up = elim (ℕ_discrete i j) [
    | yes same ↦
        let (c, e) =
          look-some is_started d (find_started is_started cs start rounds (i + 1)) (inl up) in
        let here : get_elem? cs ((start + i) % size_mod % length cs) ≡ some d =
          subst (λ (n : ℕ). get_elem? cs ((start + n) % size_mod % length cs) ≡ some d) (sym same)
            there in
        (c, rw (here, find_started) e)
    | no other ↦
        let (d', there') = get_elem?-lt cs ((start + i) % size_mod % length cs) (mod-lt _ pos) in
        let (c, e) = look-some is_started d' (find_started is_started cs start rounds (i + 1)) (
          inr
            (find_started_complete rounds (i + 1) j d (omega arith) (omega arith) pos there up)) in
        (c, rw (there', find_started) e)
  ]

if_false : {A : Type 0} (b : Bool) (x y : A) → b ≡ false → (if b then x else y) ≡ y
if_false true x y h = cc
if_false false x y h = refl

-- While the pool runs, a packet goes to a started connection of it whenever one is started, as long
-- as the cursor or port and the number of connections do not add up to 2 ^ 64.
pub send-reaches :
    (at : Instant) (p : IpPacket) (t : ParallelTunnels) (k : ℕ) (d : Channel)
    → t.running ≡ true
    → (start_of p t).0 + length t.connections ≤ size_mod
    → get_elem? t.connections k ≡ some d
    → at.is_started d.connection_id ≡ true
    → (c : Channel) × ((send at (some p) t).1 ≡ some c)
      × (at.is_started c.connection_id ≡ true)
      × ((j : ℕ) × (get_elem? t.connections j ≡ some c))
unfolding send
send-reaches at p t k d on small there up =
    let inside : k < length t.connections = get_elem?-below t.connections k d there in
    let (j, below, comes) = turn (start_of p t).0 (length t.connections) k inside in
    let plain : ((start_of p t).0 + j) % size_mod ≡ (start_of p t).0 + j =
      mod-eq_of_lt (omega arith) in
    let (c, e) =
      find_started_complete at.is_started t.connections (start_of p t).0 (length t.connections) 0 j
        d (omega arith) (omega arith) (omega arith) (rw (plain, comes) there) up in
    let (y, here) =
      find_started_sound at.is_started t.connections (start_of p t).0 (length t.connections) 0 c
        e in
    let gate : (not t.running || length t.connections == 0) ≡ false = ground (arith, on, inside) in
    (c, ap (λ (r : ParallelTunnels × Option Channel). r.1) (if_false _ _ _ gate) ∙ e, y, here)
  where
    get_elem?-below :
        (cs : List Channel) (k : ℕ) (d : Channel) → get_elem? cs k ≡ some d → k < length cs
    get_elem?-below [] k d h = cc
    get_elem?-below (c ∷ cs) zero d h = omega arith
    get_elem?-below (c ∷ cs) (suc k) d h = omega (arith, get_elem?-below cs k d h)
