-- ===== src/Tunnels/Mimicry/Consistent.antt =====
-- The lists of src/fptn-protocol-lib/connection/strategies/browser_mimicry/browser_mimicry.cpp over
-- any steps of the pool.
use fptn_keenetic.Base.{
  ◌∙◌, Option-cases, none, ◌∷◌, List, [], sym, ap, get_elem?-lt, ℕ, zero, suc, ◌+◌, ◌≤◌, ◌<◌, ◌≡◌,
  refl, some, true, false, Bool-cases, inl, inr, ◌==◌, ==_iff, ◌⊎◌, length, get_elem?, arith,
}
use fptn_keenetic.Tunnels.Mimicry.{
  ConnectionContext, ConnectionStatus, creating, sending, receiving, error, BrowserMimicry, Modes,
  Look, is_sending, is_receiving, remove_from_connection_list, remove_from_both, drop_expired,
  is_dead, update_status, next_status, enlist, modes, remove_expired_connections,
  update_connections_status, stop, push_back, pool, send,
}
use fptn_keenetic.Tunnels.Mimicry.Lists.{
  count, tally, present, Fits, Local, Same, out, for_each-Fits, count-remove_other,
  count-remove_own, count-append, tally-append, tally-le-present,
}

-- A pool and its past. The number of a new connection is no older one's.
pub data Reachable : BrowserMimicry → Type 0 where
  created : Reachable (record {
    running = true;
    all_connections = [];
    getting_data_connections = [];
    sending_data_connections = [];
  })
  expired :
      {t t' : BrowserMimicry} (look : Look)
      → remove_expired_connections look t ≡ some t'
      → Reachable t
      → Reachable t'
  updated :
      {t : BrowserMimicry} (look : Look)
      → Reachable t
      → Reachable (update_connections_status look t)
  pushed :
      {t : BrowserMimicry} (c : ConnectionContext)
      → c.status ≡ creating
      → present c.connection_id t.all_connections ≡ 0
      → Reachable t
      → Reachable (push_back c t)
  ended : {t : BrowserMimicry} → Reachable t → Reachable (stop t)

drop_expired-keeps :
    (look : Look) (cs left : List ConnectionContext) → drop_expired look cs ≡ some left → left ≡ cs
unfolding drop_expired
drop_expired-keeps look [] left h = ground (arith, h)
drop_expired-keeps look (c ∷ cs) left h = elim (Bool-cases (is_dead look c)) [
  | inl dead ↦ cc (rw (dead, drop_expired) at h)
  | inr alive ↦ elim (Option-cases (drop_expired look cs)) [
    | inl undefined ↦ cc (rw (alive, undefined, drop_expired) at h)
    | inr (rest, e) ↦
        let same = drop_expired-keeps look cs rest e in
        let whole : some (c ∷ rest) ≡ some left = rw (alive, e, drop_expired) at h in cc
  ]
]

remove_expired-keeps :
    (look : Look) (t t' : BrowserMimicry) → remove_expired_connections look t ≡ some t' → t' ≡ t
unfolding remove_expired_connections
remove_expired-keeps look t t' h = elim (Option-cases (drop_expired look t.all_connections)) [
  | inl undefined ↦ cc (rw (undefined, remove_expired_connections) at h)
  | inr (left, e) ↦
      let same = drop_expired-keeps look t.all_connections left e in
      let made : some (record t { all_connections = left }) ≡ some t' =
        rw (e, remove_expired_connections) at h in
      let kept : record t { all_connections = left } ≡ t' = cc in
      sym kept ∙ ap (λ cs. record t { all_connections = cs }) same
]

-- A connection comes to send or to receive.
next_status-cases :
    (look : Look) (c : ConnectionContext) (status : ConnectionStatus)
    → (next_status look c status ≡ none)
      ⊎ ((next_status look c status ≡ some sending) ⊎ (next_status look c status ≡ some receiving))
unfolding next_status
next_status-cases look c creating = ground arith
next_status-cases look c sending = ground arith
next_status-cases look c receiving = inl refl
next_status-cases look c error = inl refl

update_status-others :
    (look : Look) (c : ConnectionContext) (m : Modes) (j : ℕ)
    → ¬ (c.connection_id ≡ j)
    → Same j m (update_status look c m).1 × (present j (out (update_status look c m).0) ≡ 0)
unfolding update_status remove_from_both tally enlist count
update_status-others look c m j h =
    let s = count-remove_other c.connection_id j m.sending h in
    let g = count-remove_other c.connection_id j m.getting h in
    elim (next_status-cases look c c.status) [
      | inl stays ↦ rw (stays, update_status) (grind (arith, ==_iff))
      | inr (inl sends) ↦
          let added =
            count-append j (remove_from_connection_list c.connection_id m.sending)
              (c.connection_id ∷ []) in
          rw (sends, update_status) (grind (arith, ==_iff))
      | inr (inr gets) ↦
          let added =
            count-append j (remove_from_connection_list c.connection_id m.getting)
              (c.connection_id ∷ []) in
          rw (gets, update_status) (grind (arith, ==_iff))
    ]

update_status-own :
    (look : Look) (c : ConnectionContext) (m : Modes) (j : ℕ)
    → c.connection_id ≡ j
    → Fits j (c ∷ []) m
    → Fits j (out (update_status look c m).0) (update_status look c m).1
unfolding update_status remove_from_both tally Fits enlist count
update_status-own look c m j e (s, g, p) =
    let s' = count-remove_own j m.sending in
    let g' = count-remove_own j m.getting in
    elim (next_status-cases look c c.status) [
      | inl stays ↦ rw (stays, update_status) (s, g, p)
      | inr (inl sends) ↦
          let added =
            count-append j (remove_from_connection_list c.connection_id m.sending)
              (c.connection_id ∷ []) in
          rw (sends, update_status) (grind (arith, ==_iff))
      | inr (inr gets) ↦
          let added =
            count-append j (remove_from_connection_list c.connection_id m.getting)
              (c.connection_id ∷ []) in
          rw (gets, update_status) (grind (arith, ==_iff))
    ]

update_status-Local : (look : Look) → Local (update_status look)
update_status-Local look = record {
  others = update_status-others look;
  own = update_status-own look;
}

push_back-Fits :
    (c : ConnectionContext) (t : BrowserMimicry) (j : ℕ)
    → c.status ≡ creating
    → present c.connection_id t.all_connections ≡ 0
    → Fits j t.all_connections (modes t)
    → Fits j (push_back c t).all_connections (modes (push_back c t))
unfolding push_back Fits tally
push_back-Fits c t j s fresh (sent, got, once) =
    let senders = tally-append is_sending j t.all_connections (c ∷ []) in
    let getters = tally-append is_receiving j t.all_connections (c ∷ []) in
    let all = tally-append (λ status. true) j t.all_connections (c ∷ []) in
    let silent : is_sending c.status ≡ false = rw s refl in
    let deaf : is_receiving c.status ≡ false = rw s refl in
    elim (Bool-cases (c.connection_id == j)) [
      | inl y ↦
          let mine = (==_iff c.connection_id j).0 y in
          let absent : present j t.all_connections ≡ 0 = rw mine at fresh in
          (grind arith, grind arith, grind arith)
      | inr n ↦ (grind arith, grind arith, grind arith)
    ]

-- In every pool, a number is in the list of those that send as often as a connection of this
-- number sends, likewise for those that receive, and no two connections have one number.
pub Reachable-Fits :
    {t : BrowserMimicry} → Reachable t → (j : ℕ) → Fits j t.all_connections (modes t)
unfolding update_connections_status stop Fits count tally
Reachable-Fits created j = (refl, refl, omega arith)
Reachable-Fits (expired {t} {t'} look defined r) j =
    rw (remove_expired-keeps look t t' defined) (Reachable-Fits r j)
Reachable-Fits (updated {t} look r) j =
    for_each-Fits (update_status look) (update_status-Local look) j t.all_connections (modes t)
      (Reachable-Fits r j)
Reachable-Fits (pushed {t} c s fresh r) j = push_back-Fits c t j s fresh (Reachable-Fits r j)
Reachable-Fits (ended r) j = (refl, refl, omega arith)

count-get_elem : (id i : ℕ) (xs : List ℕ) → get_elem? xs i ≡ some id → 0 < count id xs
unfolding count
count-get_elem id i [] h = ground arith
count-get_elem id zero (x ∷ xs) h = grind (arith, ==_iff)
count-get_elem id (suc i) (x ∷ xs) h = ground (arith, count-get_elem id i xs h)

count-length : (j : ℕ) (xs : List ℕ) → count j xs ≤ length xs
unfolding count
count-length j [] = omega arith
count-length j (x ∷ xs) = ground (arith, count-length j xs)

-- The connection of the number sends, or it receives where none sends.
pub Serves : BrowserMimicry → ℕ → Type 0
Serves t id =
    (tally is_sending id t.all_connections ≡ 1)
    ⊎ ((tally is_receiving id t.all_connections ≡ 1)
        × ((j : ℕ) → tally is_sending j t.all_connections ≡ 0))

-- From the list that Send looks in.
pool-Serves : {t : BrowserMimicry} → Reachable t → (id : ℕ) → 0 < count id (pool t) → Serves t id
unfolding pool Fits Serves
pool-Serves {t} r id h =
    let (s, g, p) = Reachable-Fits r id in
    let less = tally-le-present is_sending id t.all_connections in
    let less' = tally-le-present is_receiving id t.all_connections in
    elim (Bool-cases (length t.sending_data_connections == 0)) [
      | inl y ↦
          let empty = (==_iff (length t.sending_data_connections) 0).0 y in
          let some_get : 0 < count id t.getting_data_connections = rw (y, pool) at h in
          inr (
            omega arith,
            λ j.
                let (s', g', p') = Reachable-Fits r j in
                let below = count-length j t.sending_data_connections in omega arith,
          )
      | inr n ↦
          let some_send : 0 < count id t.sending_data_connections = rw (n, pool) at h in
          inl (omega arith)
    ]

pool-nonempty :
    {t : BrowserMimicry}
    → Reachable t
    → (k : ℕ) → 0 < tally is_sending k t.all_connections + tally is_receiving k t.all_connections
    → 0 < length (pool t)
unfolding pool Fits
pool-nonempty {t} r k h =
    let (s, g, p) = Reachable-Fits r k in
    let below = count-length k t.sending_data_connections in
    let below' = count-length k t.getting_data_connections in
    elim (Bool-cases (length t.sending_data_connections == 0)) [
      | inl y ↦ rw (y, pool) (omega (arith, (==_iff (length t.sending_data_connections) 0).0 y))
      | inr n ↦ rw (n, pool) (grind (arith, ==_iff))
    ]

-- In every pool that its steps reach with no undefined behaviour, that runs, and where some
-- connection sends or receives, Send gives a packet to a connection of the pool that sends, or to
-- one that receives if none sends, the random index being below the number of those it chooses from.
pub send-Serves :
    (pick : ℕ → ℕ)
    → ((n : ℕ) → 0 < n → pick n < n)
    → {t : BrowserMimicry} → Reachable t
    → t.running ≡ true
    → (k : ℕ) → 0 < tally is_sending k t.all_connections + tally is_receiving k t.all_connections
    → (id : ℕ) × ((send pick t ≡ some id) × Serves t id)
unfolding send
send-Serves pick below {t} r running k h =
    let full = pool-nonempty r k h in
    let (id, there) =
      get_elem?-lt (pool t) (pick (length (pool t))) (below (length (pool t)) full) in
    (id, (grind arith, pool-Serves r id (count-get_elem id _ (pool t) there)))
