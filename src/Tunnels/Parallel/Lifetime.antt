-- ===== src/Tunnels/Parallel/Lifetime.antt =====
-- NextLifetimeSeconds of
-- src/fptn-protocol-lib/connection/strategies/parallel_tunnels/parallel_tunnels.h. The numbers of
-- seconds fit an int, as none is above the lifetime.
use fptn_keenetic.Base.{ℕ, ◌+◌, ◌-◌, ◌/◌, List, [], ◌∷◌, ◌&&◌, ltb, leb, if◌then◌else◌}
use fptn_keenetic.Tunnels.Parallel.{Kind, Channel, seconds}

unfoldable pub slot_seconds : Kind → ℕ
slot_seconds k = k.lifetime_seconds / k.connection_count

-- The seconds that the channels have left. A time before `now` leaves none, where the code has a
-- negative number or 0, and skips both.
unfoldable pub remaining : Kind → ℕ → List Channel → List ℕ
remaining k now [] = []
remaining k now (c ∷ cs) =
    let left = (c.close_at - now) / seconds in
    let rest = remaining k now cs in
    if ltb 0 left && leb left k.lifetime_seconds then left ∷ rest else rest

unfoldable pub insert_sorted : ℕ → List ℕ → List ℕ
insert_sorted a [] = a ∷ []
insert_sorted a (x ∷ xs) = let rest = insert_sorted a xs in if leb a x then a ∷ x ∷ xs else x ∷ rest

unfoldable pub sort : List ℕ → List ℕ
unfolding insert_sorted
sort [] = []
sort (x ∷ xs) = insert_sorted x (sort xs)

-- `remaining.back()`, of a list with `r` before it.
unfoldable pub back : ℕ → List ℕ → ℕ
back r [] = r
back r (x ∷ xs) = back x xs

-- The loop over the gaps, behind `previous`: the widest gap and the lifetime.
unfoldable pub widen : ℕ → ℕ → ℕ → List ℕ → ℕ × ℕ
widen previous widest_gap lifetime [] = (widest_gap, lifetime)
widen previous widest_gap lifetime (r ∷ rs) =
    let gap = r - previous in
    let wider = ltb widest_gap gap in
    widen r (if wider then gap else widest_gap) (if wider then previous + gap / 2 else lifetime) rs

-- What follows on the sorted seconds.
unfoldable pub place : Kind → List ℕ → ℕ
unfolding slot_seconds back widen
place k [] = slot_seconds k
place k (r ∷ rs) =
    let appended = back r rs + slot_seconds k in
    if leb appended k.lifetime_seconds then appended else (widen r r (r / 2) rs).1

unfoldable pub next_lifetime_seconds : Kind → ℕ → List Channel → ℕ
unfolding place sort remaining
next_lifetime_seconds k now cs = place k (sort (remaining k now cs))
