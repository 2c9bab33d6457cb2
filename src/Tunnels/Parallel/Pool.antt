-- ===== src/Tunnels/Parallel/Pool.antt =====
-- The pool of src/fptn-protocol-lib/connection/strategies/parallel_tunnels/parallel_tunnels.h over
-- any calls and rounds.
use fptn_keenetic.Base.{
  ℕ, ◌+◌, ◌≤◌, ◌<◌, ◌≡◌, refl, List, [], ◌∷◌, none, some, Option-cases, ◌∙◌, Bool, true, false, not,
  length, length-append, if◌then◌else◌, Bool-cases, inl, inr, arith,
}
use fptn_keenetic.Tunnels.Parallel.{
  Kind, Channel, ParallelTunnels, Instant, keep, is_dead, start_of, send, stop,
  remove_closed_connections, create_new_connection, Status,
}
use fptn_keenetic.Tunnels.Parallel.Lifetime.{next_lifetime_seconds}
use fptn_keenetic.Tunnels.Parallel.Rounds.{
  Call, sending, stopping, answer, answer_all, Surroundings, wants_connection,
  create_missing_connections, notify_connected_once, finish_round, manage,
}

-- What happens to a pool.
pub data Event : Type 0 where
  call : Call → Event
  round : Surroundings → Event

abbrev pub step : Kind → Event → ParallelTunnels → ParallelTunnels × Bool
step k (call c) t = (answer c t, false)
step k (round s) t = manage k s t

-- The pool after the events, and how often the callback was called.
abbrev pub run : Kind → List Event → ParallelTunnels → ParallelTunnels × ℕ
run k [] t = (t, 0)
run k (e ∷ events) t =
    let (t', called) = step k e t in
    let (last, calls) = run k events t' in (last, (if called then 1 else 0) + calls)

length-keep-le : (test : Channel → Bool) (cs : List Channel) → length (keep test cs) ≤ length cs
unfolding keep
length-keep-le test [] = omega arith
length-keep-le test (c ∷ cs) = ground (arith, length-keep-le test cs)

-- A call leaves the flag, and adds nothing to the pool.
answer_keeps :
    (c : Call) (t : ParallelTunnels)
    → (length (answer c t).connections ≤ length t.connections)
      × ((answer c t).connected_notified ≡ t.connected_notified)
unfolding answer send stop start_of
answer_keeps (sending at none) t = (omega arith, refl)
answer_keeps (sending at (some p)) t = ground arith
answer_keeps stopping t = (omega arith, refl)

answer_all_keeps :
    (calls : List Call) (t : ParallelTunnels)
    → (length (answer_all calls t).connections ≤ length t.connections)
      × ((answer_all calls t).connected_notified ≡ t.connected_notified)
unfolding answer_all
answer_all_keeps [] t = (omega arith, refl)
answer_all_keeps (c ∷ calls) t =
    let (small, same) = answer_keeps c t in
    let (small', same') = answer_all_keeps calls (answer c t) in (omega arith, cc)

wanted_size :
    (k : Kind) (s : Surroundings) (t : ParallelTunnels)
    → wants_connection k s t ≡ true
    → length t.connections < k.connection_count + 1
unfolding wants_connection
wanted_size k s t h = ground arith

create_new_keeps :
    (lifetime now : ℕ) (status : ℕ → Status) (t : ParallelTunnels)
    → ((create_new_connection lifetime now status t).0.connections ≡ t.connections)
      × ((create_new_connection lifetime now status t).0.connected_notified ≡ t.connected_notified)
unfolding create_new_connection
create_new_keeps lifetime now status t = (refl, refl)

create_missing_keeps :
    (k : Kind) (s : Surroundings) (t : ParallelTunnels)
    → length t.connections ≤ k.connection_count + 1
    → (length (create_missing_connections k s t).connections ≤ k.connection_count + 1)
      × ((create_missing_connections k s t).connected_notified ≡ t.connected_notified)
unfolding create_missing_connections
create_missing_keeps k s t h = elim (Bool-cases (wants_connection k s t)) [
  | inr n ↦ rw (n, create_missing_connections) (h, refl)
  | inl y ↦
      let lifetime = next_lifetime_seconds k s.lifetime_now t.connections in
      let made = create_new_connection lifetime s.created_now s.status t in
      let (same, flag) = create_new_keeps lifetime s.created_now s.status t in
      let (small, flag') = answer_all_keeps s.meanwhile made.0 in
      let room = wanted_size k s t y in
      let less : length (answer_all s.meanwhile made.0).connections ≤ length t.connections =
        rw same at small in
      elim (Option-cases made.1) [
        | inl nothing ↦ rw (y, nothing, create_missing_connections) (omega arith, flag' ∙ flag)
        | inr (c, new) ↦
            rw (y, new, create_missing_connections)
              (
                omega (arith, length-append (answer_all s.meanwhile made.0).connections (c ∷ [])),
                flag' ∙ flag,
              )
      ]
]

-- The pool has room for one channel more than it keeps healthy, and the callback has been called
-- at most once, if the flag is set.
abbrev pub Tame : Kind → ParallelTunnels → ParallelTunnels × ℕ → Type 0
Tame k t r =
    (length r.0.connections ≤ k.connection_count + 1)
    × (r.1 + (if t.connected_notified then 1 else 0) ≤ (if r.0.connected_notified then 1 else 0))

notify-Tame :
    (k : Kind) (at : Instant) (t : ParallelTunnels)
    → length t.connections ≤ k.connection_count + 1
    → Tame k t ((notify_connected_once at t).0, (if (notify_connected_once at t).1 then 1 else 0))
unfolding notify_connected_once
notify-Tame k at t h = ground arith

finish_round-Tame :
    (k : Kind) (at : Instant) (t : ParallelTunnels)
    → length t.connections ≤ k.connection_count + 1
    → Tame k t ((finish_round at t).0, (if (finish_round at t).1 then 1 else 0))
unfolding finish_round
finish_round-Tame k at t h = ground (arith, notify-Tame k at t h)

flag_along :
    (b b' : Bool) (n m : ℕ) → b ≡ b' → n + (if b then 1 else 0) ≤ m → n + (if b' then 1 else 0) ≤ m
flag_along b b' n m e h = rw e at h

Tame-if :
    (k : Kind) (t : ParallelTunnels) (b : Bool) (r : ParallelTunnels × Bool)
    → length t.connections ≤ k.connection_count + 1
    → Tame k t (r.0, (if r.1 then 1 else 0))
    → let r' = (if b then (t, false) else r) in Tame k t (r'.0, (if r'.1 then 1 else 0))
Tame-if k t true r h tame = (h, omega arith)
Tame-if k t false r h tame = tame

manage-Tame :
    (k : Kind) (s : Surroundings) (t : ParallelTunnels)
    → length t.connections ≤ k.connection_count + 1
    → Tame k t ((manage k s t).0, (if (manage k s t).1 then 1 else 0))
unfolding manage remove_closed_connections
manage-Tame k s t h =
    let removed = (remove_closed_connections s.removing t).0 in
    let left : length removed.connections ≤ length t.connections =
      length-keep-le (λ c. not (is_dead s.removing c)) t.connections in
    let (size, flag) = create_missing_keeps k s removed (omega arith) in
    let (size', called) =
      finish_round-Tame k s.notifying (create_missing_connections k s removed) size in
    Tame-if k t (not t.running) (finish_round s.notifying (create_missing_connections k s removed))
      h (size', flag_along _ _ _ _ flag called)

-- Whatever happens to a pool in any order, calls of Send and Stop, also while a new client connects,
-- and rounds, it never holds more than one connection above the number it is for; and the callback
-- is called at most once, and not at all if it has been called.
pub run-Tame :
    (k : Kind) (events : List Event) (t : ParallelTunnels)
    → length t.connections ≤ k.connection_count + 1
    → Tame k t (run k events t)
run-Tame k [] t h = (h, omega arith)
run-Tame k (call c ∷ events) t h =
    let (small, same) = answer_keeps c t in
    let (size, calls) = run-Tame k events (answer c t) (omega arith) in
    (size, ground (arith, same, calls))
run-Tame k (round s ∷ events) t h =
    let (small, called) = manage-Tame k s t h in
    let (size, calls) = run-Tame k events (manage k s t).0 small in
    (size, omega (arith, called, calls))
