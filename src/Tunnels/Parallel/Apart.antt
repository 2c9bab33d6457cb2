-- ===== src/Tunnels/Parallel/Apart.antt =====
-- The connections of the pool in
-- src/fptn-protocol-lib/connection/strategies/parallel_tunnels/parallel_tunnels.h close at different
-- times.
use native.Mathlib.Nat.{
  le-div_iff_mul-le, div-mul-le_self, mul-le-mul_left, div-le_of_le-mul, div-le_self, suc-mul,
}
use fptn_keenetic.Base.{
  ◌≡◌, ap, zero, true, some, get_elem?, ℕ, suc, ◌+◌, ◌-◌, ◌*◌, ◌/◌, ◌≤◌, ◌<◌, refl, sym, subst,
  List, [], ◌∷◌, ◌&&◌, ltb, leb, leb→le, if◌then◌else◌, length, min, All, Bool-cases, inl, inr,
  arith,
}
use fptn_keenetic.Tunnels.Parallel.{Kind, Channel, seconds}
use fptn_keenetic.Tunnels.Parallel.Sorting.{
  Rises, IsSorted, sort-IsSorted, All-sort, sort-All, length-sort,
}
use fptn_keenetic.Tunnels.Parallel.Lifetime.{
  slot_seconds, remaining, sort, back, widen, place, next_lifetime_seconds,
}

abbrev pub distance : ℕ → ℕ → ℕ
distance a b = (a - b) + (b - a)

-- The widest gap never shrinks.
widen_grows : (prev w b : ℕ) (rs : List ℕ) → w ≤ (widen prev w b rs).0
unfolding widen
widen_grows prev w b [] = omega arith
widen_grows prev w b (r ∷ rs) = elim (Bool-cases (ltb w (r - prev))) [
  | inl y ↦ rw (y, widen) (ground (arith, widen_grows r (r - prev) (prev + (r - prev) / 2) rs))
  | inr n ↦ rw (n, widen) (widen_grows r w b rs)
]

-- A point behind stays half the widest gap away.
widen_keeps :
    (p prev w b : ℕ) (rs : List ℕ)
    → p ≤ prev
    → Rises prev rs
    → w / 2 ≤ distance b p
    → (widen prev w b rs).0 / 2 ≤ distance (widen prev w b rs).1 p
unfolding widen
widen_keeps p prev w b [] h s d = d
widen_keeps p prev w b (r ∷ rs) h s d = elim (Bool-cases (ltb w (r - prev))) [
  | inl y ↦
      rw (y, widen)
        (widen_keeps p r (r - prev) (prev + (r - prev) / 2) rs (omega (arith, s.0)) s.1
          (omega arith))
  | inr n ↦ rw (n, widen) (widen_keeps p r w b rs (omega (arith, s.0)) s.1 d)
]

-- So do the points ahead.
widen_apart :
    (prev w b : ℕ) (rs : List ℕ)
    → Rises prev rs
    → b + w / 2 ≤ prev
    → All (λ r. (widen prev w b rs).0 / 2 ≤ distance (widen prev w b rs).1 r) rs
unfolding widen
widen_apart prev w b [] s h = tt
widen_apart prev w b (r ∷ rs) s h =
    let gap = r - prev in
    let wider = ltb w gap in
    let w' = if wider then gap else w in
    let b' = if wider then prev + gap / 2 else b in
    let rises = s.0 in
    let room : b' + w' / 2 ≤ r = ground arith in
    (widen_keeps r r w' b' rs (omega arith) s.1 (omega arith), widen_apart r w' b' rs s.1 room)

widen_le :
    (prev w b : ℕ) (rs : List ℕ) → Rises prev rs → b ≤ prev → (widen prev w b rs).1 ≤ back prev rs
unfolding widen back
widen_le prev w b [] s h = h
widen_le prev w b (r ∷ rs) s h = elim (Bool-cases (ltb w (r - prev))) [
  | inl y ↦
      let rises = s.0 in
      rw (y, widen) (widen_le r (r - prev) (prev + (r - prev) / 2) rs s.1 (omega arith))
  | inr n ↦ let rises = s.0 in rw (n, widen) (widen_le r w b rs s.1 (omega arith))
]

one_more : (n w prev r last : ℕ) → last ≤ r + n * w → r ≤ prev + w → last ≤ prev + suc n * w
one_more n w prev r last h k = rw suc-mul (omega arith)

-- The last is no further than the gaps take it.
widen_reaches :
    (prev w b : ℕ) (rs : List ℕ)
    → Rises prev rs
    → back prev rs ≤ prev + length rs * (widen prev w b rs).0
unfolding widen back
widen_reaches prev w b [] s = omega arith
widen_reaches prev w b (r ∷ rs) s =
    let gap = r - prev in
    let wider = ltb w gap in
    let w' = if wider then gap else w in
    let b' = if wider then prev + gap / 2 else b in
    let reached : gap ≤ w' = ground arith in
    let grown = widen_grows r w' b' rs in
    one_more (length rs) (widen r w' b' rs).0 prev r _ (widen_reaches r w' b' rs s.1) (omega arith)

-- Seconds that the channels have left are at most a lifetime.
remaining_le :
    (k : Kind) (now : ℕ) (cs : List Channel)
    → All (λ r. r ≤ k.lifetime_seconds) (remaining k now cs)
unfolding remaining
remaining_le k now [] = tt
remaining_le k now (c ∷ cs) =
    let left = (c.close_at - now) / seconds in
    elim (Bool-cases (ltb 0 left && leb left k.lifetime_seconds)) [
      | inl y ↦ rw y (ground (arith, y), remaining_le k now cs)
      | inr n ↦ rw n (remaining_le k now cs)
    ]

length-remaining-le :
    (k : Kind) (now : ℕ) (cs : List Channel) → length (remaining k now cs) ≤ length cs
unfolding remaining
length-remaining-le k now [] = omega arith
length-remaining-le k now (c ∷ cs) = ground (arith, length-remaining-le k now cs)

back-All : (P : ℕ → Type 0) (r : ℕ) (rs : List ℕ) → P r → All P rs → P (back r rs)
unfolding back
back-All P r [] p h = p
back-All P r (x ∷ rs) p h = back-All P x rs h.0 h.1

Rises-back : (r : ℕ) (rs : List ℕ) → Rises r rs → (r ≤ back r rs) × All (λ x. x ≤ back r rs) rs
unfolding back
Rises-back r [] s = (omega arith, tt)
Rises-back r (x ∷ rs) s = let (h, t) = Rises-back x rs s.1 in (omega (arith, s.0), (h, t))

slot_le : (k : Kind) → slot_seconds k ≤ k.lifetime_seconds
unfolding slot_seconds
slot_le k = div-le_self k.lifetime_seconds k.connection_count

-- How far the lifetime of a connection is from those of the others, at least.
abbrev spread : Kind → ℕ → ℕ
spread k others = min (slot_seconds k) ((k.lifetime_seconds - slot_seconds k) / others / 2)

All-mono : {P Q : ℕ → Type 0} (xs : List ℕ) → ((x : ℕ) → P x → Q x) → All P xs → All Q xs
All-mono [] f h = tt
All-mono (x ∷ xs) f h = (f x h.0, All-mono xs f h.1)

-- A lifetime that serves beside the others.
abbrev Serves : Kind → List ℕ → ℕ → Type 0
Serves k rs v = (v ≤ k.lifetime_seconds) × All (λ r. spread k (length rs) ≤ distance v r) rs

appended-Serves :
    (k : Kind) (r : ℕ) (rs : List ℕ)
    → Rises r rs
    → back r rs + slot_seconds k ≤ k.lifetime_seconds
    → Serves k (r ∷ rs) (back r rs + slot_seconds k)
appended-Serves k r rs s h =
    let (first, others) = Rises-back r rs s in
    let far : (x : ℕ)
        → x ≤ back r rs
        → spread k (suc (length rs)) ≤ distance (back r rs + slot_seconds k) x =
      λ x below. omega arith in
    (h, (far r first, All-mono rs far others))

widened-Serves :
    (k : Kind) (r : ℕ) (rs : List ℕ)
    → Rises r rs
    → back r rs ≤ k.lifetime_seconds
    → k.lifetime_seconds < back r rs + slot_seconds k
    → Serves k (r ∷ rs) (widen r r (r / 2) rs).1
widened-Serves k r rs s top over =
    let w = (widen r r (r / 2) rs).0 in
    let grown = widen_grows r r (r / 2) rs in
    let gaps =
      one_more (length rs) w 0 r (back r rs) (widen_reaches r r (r / 2) rs s)
        (omega (arith, grown)) in
    let reached : back r rs ≤ suc (length rs) * w = omega (arith, gaps) in
    let wide : (k.lifetime_seconds - slot_seconds k) / suc (length rs) ≤ w =
      div-le_of_le-mul (suc (length rs)) (omega (arith, reached)) in
    let far : (x : ℕ)
        → w / 2 ≤ distance (widen r r (r / 2) rs).1 x
        → spread k (suc (length rs)) ≤ distance (widen r r (r / 2) rs).1 x =
      λ x h. omega (arith, wide) in
    (
      omega (arith, widen_le r r (r / 2) rs s (omega arith)),
      (
        far r (widen_keeps r r r (r / 2) rs (omega arith) s (omega arith)),
        All-mono rs far (widen_apart r r (r / 2) rs s (omega arith)),
      ),
    )

place-Serves :
    (k : Kind) (rs : List ℕ)
    → 0 < k.connection_count
    → IsSorted rs
    → All (λ r. r ≤ k.lifetime_seconds) rs
    → Serves k rs (place k rs)
unfolding place
place-Serves k [] pos s h = (slot_le k, tt)
place-Serves k (r ∷ rs) pos s h =
    elim (Bool-cases (leb (back r rs + slot_seconds k) k.lifetime_seconds)) [
      | inl y ↦
          subst (Serves k (r ∷ rs)) (sym (rw (y, place) refl))
            (appended-Serves k r rs s (leb→le _ _ y))
      | inr n ↦ subst (Serves k (r ∷ rs)) (sym (rw (n, place) refl)) (
          widened-Serves k r rs s (back-All (λ x. x ≤ k.lifetime_seconds) r rs h.0 h.1)
            (ground (arith, n)))
    ]

-- By a slot, or by half a share of the lifetime without a slot, whichever is less.
abbrev pub apart : Kind → ℕ → ℕ
apart k others =
    let slot = k.lifetime_seconds / k.connection_count in
    min slot ((k.lifetime_seconds - slot) / others / 2)

div-antitone : (a m n : ℕ) → 0 < m → m ≤ n → a / n ≤ a / m
div-antitone a m n pos h =
    let (up, down) = le-div_iff_mul-le {k = m} {x = a / n} {y = a} pos in
    down (omega (arith, div-mul-le_self a n, mul-le-mul_left (a / n) h))

apart-le : (k : Kind) (others all : ℕ) → 0 < others → others ≤ all → apart k all ≤ spread k others
unfolding slot_seconds
apart-le k others all pos h =
    let shares =
      div-antitone (k.lifetime_seconds - k.lifetime_seconds / k.connection_count) others all pos
        h in
    omega (arith, shares)

-- What holds of all the seconds left holds of those of one channel.
remaining-All :
    (P : ℕ → Type 0) (k : Kind) (now : ℕ) (cs : List Channel) (i : ℕ) (c : Channel) (left : ℕ)
    → get_elem? cs i ≡ some c
    → now + left * seconds ≤ c.close_at
    → c.close_at < now + (left + 1) * seconds
    → 0 < left
    → left ≤ k.lifetime_seconds
    → All P (remaining k now cs)
    → P left × (0 < length (remaining k now cs))
unfolding remaining
remaining-All P k now [] i c left at lo hi pos top h = ground (arith, at)
remaining-All P k now (d ∷ cs) zero c left at lo hi pos top h =
    let same : d ≡ c = ground (arith, at) in
    let is : (d.close_at - now) / seconds ≡ left =
      omega (arith, ap (λ (x : Channel). x.close_at) same) in
    let kept : (ltb 0 ((d.close_at - now) / seconds)
          && leb ((d.close_at - now) / seconds) k.lifetime_seconds)
        ≡ true =
      ground (arith, is) in
    (subst P is (rw kept at h).0, rw kept (omega arith))
remaining-All P k now (d ∷ cs) (suc i) c left at lo hi pos top h =
    elim (Bool-cases (
      ltb 0 ((d.close_at - now) / seconds)
      && leb ((d.close_at - now) / seconds) k.lifetime_seconds)) [
        | inl y ↦
            let (p, some_left) = remaining-All P k now cs i c left at lo hi pos top (rw y at h).1 in
            (p, rw y (omega arith))
        | inr n ↦ rw n (remaining-All P k now cs i c left at lo hi pos top (rw n at h))
      ]

-- A new connection is given at most a whole lifetime, and closes apart from every connection of the
-- pool that has yet some whole seconds left, at most a lifetime: by a slot, the lifetime over the
-- number of connections, or by half a share of the lifetime without a slot, each connection of the
-- pool having a share, whichever is less.
pub next_lifetime-apart :
    (k : Kind) (now : ℕ) (cs : List Channel) (i : ℕ) (c : Channel) (left : ℕ)
    → 0 < k.connection_count
    → get_elem? cs i ≡ some c
    → now + left * seconds ≤ c.close_at
    → c.close_at < now + (left + 1) * seconds
    → 0 < left
    → left ≤ k.lifetime_seconds
    → (next_lifetime_seconds k now cs ≤ k.lifetime_seconds)
      × (apart k (length cs) ≤ distance (next_lifetime_seconds k now cs) left)
unfolding next_lifetime_seconds
next_lifetime-apart k now cs i c left pos at lo hi some_left short =
    let rs = remaining k now cs in
    let (top, far) =
      place-Serves k (sort rs) pos (sort-IsSorted rs)
        (All-sort (λ r. r ≤ k.lifetime_seconds) rs (remaining_le k now cs)) in
    let all =
      sort-All (λ r. spread k (length rs) ≤ distance (next_lifetime_seconds k now cs) r) rs
        (rw (length-sort rs) at far) in
    let (here, many) =
      remaining-All (λ r. spread k (length rs) ≤ distance (next_lifetime_seconds k now cs) r) k now
        cs i c left at lo hi some_left short all in
    (
      top,
      omega (arith, apart-le k (length rs) (length cs) many (length-remaining-le k now cs), here),
    )
