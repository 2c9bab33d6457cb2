-- ===== src/Nat/Table/History.antt =====
-- Tables over time: any sequence of the methods that change a table, and what the maps answer.
use fptn_keenetic.Base.{
  ℕ, ◌≡◌, refl, sym, ◌∙◌, List, [], ◌∷◌, Option, none, some, true, arith, if◌then◌else◌, ℕ_discrete,
  ite, Option-cases, inl, inr,
}
use fptn_keenetic.Base.Dict.{erase, find-erase, find-insert, erase_absent}
use fptn_keenetic.Nat.Connection.{ConnectParams}
use fptn_keenetic.Nat.Multiplexer.{Multiplexer, Clock, IsSteady, has_client_id}
use fptn_keenetic.Nat.Multiplexer.Roles.{mem}
use fptn_keenetic.Nat.Table.{
  Table, Sweep, add_connection, join_session, open_session, del_connection_by_client_id,
  update_connections_status, get_multiplexer_by_fake_ipv4, get_multiplexer_by_fake_ipv6,
  get_multiplexer_by_client_id, release_session, release_session_if_empty, release_all,
  finish_update, sweep,
}
use fptn_keenetic.Nat.Table.Invariant.{owner_of, IsValid, IsLive-at}
use fptn_keenetic.Nat.Table.Operations.{
  SamePool-refl, SamePool-trans, Keeps, add_connection-Keeps, del_connection-Keeps,
}
use fptn_keenetic.Nat.Table.Shrink.{find-erase_clients}
use fptn_keenetic.Nat.Table.Update.{update_connections_status-Keeps}

-- A call of the table; each has the numbers of its readings of the clock.
pub data Call : Type 0 where
  adds : ℕ → ConnectParams → Option ℕ → Option ℕ → Call
  deletes : ℕ → Call
  updates : (ℕ → ℕ) → Call

unfoldable pub step : Clock → Call → Table → Table
step clock (adds i params to from) t = (add_connection clock i params to from t).0
step clock (deletes c) t = (del_connection_by_client_id c t).0
step clock (updates reading) t = (update_connections_status clock reading t).0

unfoldable pub run : Clock → List Call → Table → Table
run clock [] t = t
run clock (c ∷ calls) t = run clock calls (step clock c t)

-- The server numbers its clients one after the other, so a client that is added is new.
abbrev pub IsNew : Call → Table → Type 0
IsNew (adds i params to from) t = owner_of t params.client_id ≡ none
IsNew (deletes c) t = Unit
IsNew (updates reading) t = Unit

abbrev pub AllNew : Clock → List Call → Table → Type 0
AllNew clock [] t = Unit
AllNew clock (c ∷ calls) t = IsNew c t × AllNew clock calls (step clock c t)

pub step-Keeps :
    (clock : Clock) (c : Call) (t : Table)
    → IsSteady clock
    → IsValid t
    → IsNew c t
    → Keeps t (step clock c t)
unfolding step
step-Keeps clock (adds i params to from) t steady valid new =
    add_connection-Keeps clock i params to from t steady valid new
step-Keeps clock (deletes c) t steady valid new = del_connection-Keeps c t valid
step-Keeps clock (updates reading) t steady valid new =
    update_connections_status-Keeps clock reading t steady valid

-- Whatever clients come and go, in any order, with new ids for those that come and a clock that does
-- not run backwards, a well-formed table
-- stays well formed, and the addresses free or in use are always the same: none is lost, and none
-- is given to two sessions.
pub run-Keeps :
    (clock : Clock) (calls : List Call) (t : Table)
    → IsSteady clock
    → IsValid t
    → AllNew clock calls t
    → Keeps t (run clock calls t)
unfolding run
run-Keeps clock [] t steady valid new = record { valid = valid; pool = SamePool-refl t }
run-Keeps clock (c ∷ calls) t steady valid new =
    let first = step-Keeps clock c t steady valid new.0 in
    let rest = run-Keeps clock calls (step clock c t) steady first.valid new.1 in
    record { valid = rest.valid; pool = SamePool-trans first.pool rest.pool }

-- What the maps say of a client: its multiplexer has the client, and both of its addresses lead to
-- it.
pub record LeadsTo (t : Table) (c p : ℕ) (m : Multiplexer) : Type 0 where
  pub stands : t.heap p ≡ some m
  pub member : has_client_id m c ≡ true
  pub ipv4 : get_multiplexer_by_fake_ipv4 m.fake_client_ipv4 t ≡ some p
  pub ipv6 : get_multiplexer_by_fake_ipv6 m.fake_client_ipv6 t ≡ some p

-- In a well-formed table, a packet finds the same session whether it comes from a client, by the client's id, or from the
-- network, by the session's IPv4 or IPv6 address.
pub get_multiplexer_agree :
    (t : Table) (c p : ℕ)
    → IsValid t
    → get_multiplexer_by_client_id c t ≡ some p
    → (m : Multiplexer) × LeadsTo t c p m
unfolding get_multiplexer_by_client_id get_multiplexer_by_fake_ipv4 get_multiplexer_by_fake_ipv6
get_multiplexer_agree t c p valid h =
    let (m, client) = valid.clients c p h in
    let live = IsLive-at m.session_id p m valid client.live client.stands in
    (
      m,
      record {
        stands = client.stands;
        member = client.member refl;
        ipv4 = live.ipv4;
        ipv6 = live.ipv6;
      },
    )

release_if_empty-clients :
    (p : ℕ) (t : Table) → (release_session_if_empty p t).client_to_mplx ≡ t.client_to_mplx
unfolding release_session_if_empty release_session
release_if_empty-clients p t = ground arith

release_all-clients :
    (ps : List ℕ) (t : Table) → (release_all ps t).client_to_mplx ≡ t.client_to_mplx
unfolding release_all
release_all-clients [] t = refl
release_all-clients (p ∷ ps) t =
    release_all-clients ps (release_session_if_empty p t) ∙ release_if_empty-clients p t

del-clients :
    (c : ℕ) (t : Table)
    → (del_connection_by_client_id c t).0.client_to_mplx ≡ erase ℕ_discrete c t.client_to_mplx
unfolding del_connection_by_client_id
del-clients c t = elim (Option-cases (owner_of t c)) [
  | inl e ↦ rw (e, del_connection_by_client_id) (sym (erase_absent ℕ_discrete c t.client_to_mplx e))
  | inr (p, e) ↦
      rw (e, del_connection_by_client_id)
        (elim (Option-cases (t.heap p)) [
          | inl k ↦ rw k
          | inr (m, k) ↦ rw k (release_if_empty-clients p _)
        ])
]

-- Deleting a client makes its id unknown and leaves the others as they were.
pub get_by_client_id-del :
    (c j : ℕ) (t : Table)
    → get_multiplexer_by_client_id j (del_connection_by_client_id c t).0
      ≡ ite (ℕ_discrete c j) none (get_multiplexer_by_client_id j t)
unfolding get_multiplexer_by_client_id del_connection_by_client_id
get_by_client_id-del c j t = rw (del-clients c t) (find-erase ℕ_discrete c j t.client_to_mplx)

-- After the periodic update exactly the ids that it returns are unknown; the others lead where
-- they did.
pub get_by_client_id-update :
    (clock : Clock) (reading : ℕ → ℕ) (j : ℕ) (t : Table)
    → let (t', expired) = update_connections_status clock reading t in
      get_multiplexer_by_client_id j t'
      ≡ (if mem j expired then none else get_multiplexer_by_client_id j t)
unfolding get_multiplexer_by_client_id update_connections_status finish_update
get_by_client_id-update clock reading j t =
    rw (release_all-clients s.emptied _) (find-erase_clients s.expired t.client_to_mplx j)
  where
    s : Sweep
    s = sweep clock reading t.session_to_mplx (record { heap = t.heap; expired = []; emptied = [] })

module _ (clock : Clock) (i : ℕ) (params : ConnectParams) (to from : Option ℕ) (t : Table) where
  -- A connection that is refused changes nothing.
  pub add_connection_refused :
      (add_connection clock i params to from t).1 ≡ none
      → (add_connection clock i params to from t).0 ≡ t
  unfolding add_connection join_session open_session
  add_connection_refused h = ground arith

  -- A connection that is taken in under a new id is found by that id, and no other id is affected.
  pub get_by_client_id-add :
      (p j : ℕ)
      → owner_of t params.client_id ≡ none
      → (add_connection clock i params to from t).1 ≡ some p
      → get_multiplexer_by_client_id j (add_connection clock i params to from t).0
        ≡ ite (ℕ_discrete params.client_id j) (some p) (get_multiplexer_by_client_id j t)
  unfolding get_multiplexer_by_client_id add_connection join_session open_session
  get_by_client_id-add p j new h =
      ground (arith, find-insert ℕ_discrete params.client_id j p t.client_to_mplx new)
