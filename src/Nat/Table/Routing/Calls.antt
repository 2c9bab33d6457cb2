-- ===== src/Nat/Table/Routing/Calls.antt =====
-- Every method of src/fptn-server/nat/table.cpp keeps the address maps leading to live sessions.
use fptn_keenetic.Base.{
  ℕ, ◌<◌, ◌≡◌, refl, subst, List, [], ◌∷◌, Option, none, some, arith, ◌==◌, String, String_discrete,
  ℕ_discrete, Option-cases, Bool-cases, inl, inr,
}
use fptn_keenetic.Base.Dict.{Dict, find, insert, find-insert}
use fptn_keenetic.Network.Address.{IpAddress, to_int, string_eq}
use fptn_keenetic.Nat.Connection.{ConnectParams}
use fptn_keenetic.Nat.Multiplexer
use fptn_keenetic.Nat.Multiplexer.{Multiplexer, Clock, IsSteady, empty}
use fptn_keenetic.Nat.Table.{
  Table, Sweep, add_connection, join_session, open_session, release_session_if_empty,
  del_connection_by_client_id, erase_clients, sweep, release_all, finish_update,
  update_connections_status,
}
use fptn_keenetic.Nat.Table.Invariant.{session_of, IsValid}
use fptn_keenetic.Nat.Table.Join.{add-SameIdentity}
use fptn_keenetic.Nat.Table.History.{Call, adds, deletes, updates, step, run, AllNew, step-Keeps}
use fptn_keenetic.Nat.Table.Routing.{
  IsHome, IsRouted, update-IsRouted, release-IsRouted, find-insert-some,
}

module _ (clock : Clock) (i : ℕ) (params : ConnectParams) (to from : Option ℕ) (a4 a6 : IpAddress)
    (free4 free6 : List IpAddress) (t : Table)
    (fresh : (p : ℕ) (m : Multiplexer) → t.heap p ≡ some m → p < t.next)
    (new : session_of t params.request.session_id ≡ none) (v : IsRouted t) where
  abbrev opened : Table
  opened = (open_session clock i params to from (a4 ∷ free4) (a6 ∷ free6) t).0

  abbrev created : Multiplexer
  created = Multiplexer.create clock i params a4 a6 to from

  kept_home : (p : ℕ) (m : Multiplexer) → IsHome t p m → IsHome opened p m
  unfolding open_session
  kept_home p m home = record {
    stands = ground (arith, fresh p m home.stands, home.stands);
    session = ground (
      arith,
      find-insert String_discrete params.request.session_id m.session_id t.next t.session_to_mplx
          new,
      home.session,
      new,
    );
  }

  created_home : IsHome opened t.next created
  unfolding open_session Multiplexer.create
  created_home = record {
    stands = ground arith;
    session = ground (
      arith,
      find-insert String_discrete params.request.session_id params.request.session_id t.next
          t.session_to_mplx new,
    );
  }

  open-IsRouted : IsRouted opened
  unfolding open_session Multiplexer.create
  open-IsRouted = record {
    ipv4 = λ a p h. elim (find-insert-some ℕ_discrete (to_int a4) a t.next p t.ipv4_to_mplx h) [
      | inl old ↦ let (m, (home, e)) = v.ipv4 a p old in (m, (kept_home p m home, e))
      | inr (e, here) ↦ (created, (subst (λ q. IsHome opened q created) here created_home, e))
    ];
    ipv6 = λ a p h. elim (find-insert-some String_discrete a6.ip a t.next p t.ipv6_to_mplx h) [
      | inl old ↦ let (m, (home, e)) = v.ipv6 a p old in (m, (kept_home p m home, e))
      | inr (e, here) ↦ (created, (subst (λ q. IsHome opened q created) here created_home, e))
    ];
  }

open_session-IsRouted :
    (clock : Clock) (i : ℕ) (params : ConnectParams) (to from : Option ℕ)
    (free4 free6 : List IpAddress) (t : Table)
    → ((p : ℕ) (m : Multiplexer) → t.heap p ≡ some m → p < t.next)
    → session_of t params.request.session_id ≡ none
    → IsRouted t
    → IsRouted (open_session clock i params to from free4 free6 t).0
unfolding open_session
open_session-IsRouted clock i params to from [] free6 t fresh new v = v
open_session-IsRouted clock i params to from (a4 ∷ free4) [] t fresh new v = v
open_session-IsRouted clock i params to from (a4 ∷ free4) (a6 ∷ free6) t fresh new v =
    open-IsRouted clock i params to from a4 a6 free4 free6 t fresh new v

-- The maps of the addresses and of the sessions, and the heap, are all that counts.
with_clients :
    (t : Table) (clients : Dict ℕ ℕ) → IsRouted t → IsRouted (record t { client_to_mplx = clients })
with_clients t clients v = record {
  ipv4 = λ a p h.
      let (m, (home, e)) = v.ipv4 a p h in
      (m, (record { stands = home.stands; session = home.session }, e));
  ipv6 = λ a p h.
      let (m, (home, e)) = v.ipv6 a p h in
      (m, (record { stands = home.stands; session = home.session }, e));
}

join-IsRouted :
    (clock : Clock) (i : ℕ) (params : ConnectParams) (p : ℕ) (m : Multiplexer) (t : Table)
    → t.heap p ≡ some m
    → IsRouted t
    → IsRouted (join_session clock i params p m t).0
unfolding join_session
join-IsRouted clock i params p m t stands v =
    elim (Bool-cases (string_eq m.username params.user.username)) [
      | inr other ↦ rw other v
      | inl same ↦
          rw same (elim (Bool-cases (Multiplexer.add_client_connection clock i params m).1) [
            | inr refused ↦ rw refused v
            | inl added ↦ rw added (
                with_clients _ (insert ℕ_discrete params.client_id p t.client_to_mplx) (
                  update-IsRouted t p m (Multiplexer.add_client_connection clock i params m).0
                    stands (add-SameIdentity clock i params m) v))
          ])
    ]

add-IsRouted :
    (clock : Clock) (i : ℕ) (params : ConnectParams) (to from : Option ℕ) (t : Table)
    → ((p : ℕ) (m : Multiplexer) → t.heap p ≡ some m → p < t.next)
    → IsRouted t
    → IsRouted (add_connection clock i params to from t).0
unfolding add_connection
add-IsRouted clock i params to from t fresh v =
    elim (Option-cases (session_of t params.request.session_id)) [
      | inl e ↦
          rw (e, add_connection)
            (open_session-IsRouted clock i params to from t.free_ipv4 t.free_ipv6 t fresh e v)
      | inr (p, e) ↦ elim (Option-cases (t.heap p)) [
        | inl gone ↦ rw (e, add_connection, gone) v
        | inr (m, stands) ↦
            rw (e, add_connection, stands) (join-IsRouted clock i params p m t stands v)
      ]
    ]

release_if_empty-IsRouted :
    (p : ℕ) (t : Table) → IsRouted t → IsRouted (release_session_if_empty p t)
unfolding release_session_if_empty
release_if_empty-IsRouted p t v = elim (Option-cases (t.heap p)) [
  | inl gone ↦ rw (gone, release_session_if_empty) v
  | inr (m, stands) ↦
      rw (stands, release_session_if_empty)
        (elim (Bool-cases (empty m)) [
          | inr busy ↦ rw busy v
          | inl idle ↦ rw idle (elim (Option-cases (session_of t m.session_id)) [
            | inl nobody ↦ rw nobody v
            | inr (q, found) ↦ rw found (elim (Bool-cases (q == p)) [
              | inr other ↦ rw other v
              | inl same ↦ rw same (release-IsRouted t p m stands (ground (arith, found, same)) v)
            ])
          ])
        ])
]

del-IsRouted : (c : ℕ) (t : Table) → IsRouted t → IsRouted (del_connection_by_client_id c t).0
unfolding del_connection_by_client_id Multiplexer.del_connection_by_client_id
del-IsRouted c t v = elim (Option-cases (find ℕ_discrete c t.client_to_mplx)) [
  | inl unknown ↦ rw (unknown, del_connection_by_client_id) v
  | inr (p, found) ↦ elim (Option-cases (t.heap p)) [
    | inl gone ↦ rw (found, del_connection_by_client_id, gone) (with_clients t _ v)
    | inr (m, stands) ↦
        rw (found, del_connection_by_client_id, stands)
          (release_if_empty-IsRouted p _ (
            with_clients _ _ (
              update-IsRouted t p m (Multiplexer.del_connection_by_client_id c m).0 stands
                (record { session = refl; ipv4 = refl; ipv6 = refl; user = refl }) v)))
  ]
]

sweep-IsRouted :
    (clock : Clock) (reading : ℕ → ℕ) (visited : Dict String ℕ) (s : Sweep) (t : Table)
    → IsRouted (record t { heap = s.heap })
    → IsRouted (record t { heap = (sweep clock reading visited s).heap })
unfolding sweep Multiplexer.update_connections_status
sweep-IsRouted clock reading [] s t v = v
sweep-IsRouted clock reading ((key, p) ∷ visited) s t v = elim (Option-cases (s.heap p)) [
  | inl gone ↦ rw (gone, sweep) (sweep-IsRouted clock reading visited s t v)
  | inr (m, stands) ↦
      rw (stands, sweep)
        (sweep-IsRouted clock reading visited _ t (
          update-IsRouted (record t { heap = s.heap }) p m
            (Multiplexer.update_connections_status clock (reading p) m).0 stands
            (record { session = refl; ipv4 = refl; ipv6 = refl; user = refl }) v))
]

release_all-IsRouted : (ps : List ℕ) (t : Table) → IsRouted t → IsRouted (release_all ps t)
unfolding release_all
release_all-IsRouted [] t v = v
release_all-IsRouted (p ∷ ps) t v =
    release_all-IsRouted ps (release_session_if_empty p t) (release_if_empty-IsRouted p t v)

update_status-IsRouted :
    (clock : Clock) (reading : ℕ → ℕ) (t : Table)
    → IsRouted t
    → IsRouted (update_connections_status clock reading t).0
unfolding update_connections_status finish_update
update_status-IsRouted clock reading t v = release_all-IsRouted s.emptied _ (
    with_clients (record t { heap = s.heap }) (erase_clients s.expired t.client_to_mplx)
      (sweep-IsRouted clock reading t.session_to_mplx
        (record { heap = t.heap; expired = []; emptied = [] }) t v))
  where
    s : Sweep
    s = sweep clock reading t.session_to_mplx (record { heap = t.heap; expired = []; emptied = [] })

step-IsRouted :
    (clock : Clock) (c : Call) (t : Table) → IsValid t → IsRouted t → IsRouted (step clock c t)
unfolding step
step-IsRouted clock (adds i params to from) t valid v =
    add-IsRouted clock i params to from t valid.fresh v
step-IsRouted clock (deletes c) t valid v = del-IsRouted c t v
step-IsRouted clock (updates reading) t valid v = update_status-IsRouted clock reading t v

-- Whatever clients come and go, with new ids for those that come and a clock that does not run
-- backwards, from a well-formed table whose address maps lead to live sessions only: they
-- lead to live sessions only ever after, so no address of a session that is gone is still routed.
pub run-IsRouted :
    (clock : Clock) (calls : List Call) (t : Table)
    → IsSteady clock
    → IsValid t
    → IsRouted t
    → AllNew clock calls t
    → IsRouted (run clock calls t)
unfolding run
run-IsRouted clock [] t steady valid v new = v
run-IsRouted clock (c ∷ calls) t steady valid v new =
    run-IsRouted clock calls (step clock c t) steady (step-Keeps clock c t steady valid new.0).valid
      (step-IsRouted clock c t valid v) new.1
