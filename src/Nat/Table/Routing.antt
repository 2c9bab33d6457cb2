-- ===== src/Nat/Table/Routing.antt =====
-- The address maps of src/fptn-server/nat/table.cpp lead nowhere else than to live sessions.
pub mod Calls
use fptn_keenetic.Base.{
  ℕ, ◌≡◌, ◌≢◌, refl, sym, ap, ◌∙◌, List, [], ◌∷◌, ◌++◌, Option, none, some, Bool, true, false, not,
  arith, ◌==◌, if◌then◌else◌, String, String_discrete, ℕ_discrete, Option-cases, Bool-cases, inl,
  inr, ◌⊎◌, ite,
}
use fptn_keenetic.Base.Dict.{Dict, find, insert, erase, find-erase, find-insert}
use fptn_keenetic.Network.Address.{IpAddress, to_int, string_eq}
use fptn_keenetic.Nat.Connection.{ConnectParams}
use fptn_keenetic.Nat.Multiplexer
use fptn_keenetic.Nat.Multiplexer.{Multiplexer, Clock, empty}
use fptn_keenetic.Nat.Table.{
  Table, Sweep, update, add_connection, join_session, open_session, release_session,
  release_session_if_empty, del_connection_by_client_id, sweep, release_all, erase_clients,
  finish_update, update_connections_status,
}
use fptn_keenetic.Nat.Table.Invariant.{session_of, SameIdentity}
use fptn_keenetic.Nat.Table.Join.{add-SameIdentity}

-- The multiplexer at `p` is that of a live session.
pub record IsHome (t : Table) (p : ℕ) (m : Multiplexer) : Type 0 where
  pub stands : t.heap p ≡ some m
  pub session : session_of t m.session_id ≡ some p

-- Every address that the maps know is the one of a live session.
pub record IsRouted (t : Table) : Type 0 where
  pub ipv4 :
      (a p : ℕ)
      → find ℕ_discrete a t.ipv4_to_mplx ≡ some p
      → (m : Multiplexer) × (IsHome t p m × (to_int m.fake_client_ipv4 ≡ a))
  pub ipv6 :
      (a : String) (p : ℕ)
      → find String_discrete a t.ipv6_to_mplx ≡ some p
      → (m : Multiplexer) × (IsHome t p m × (m.fake_client_ipv6.ip ≡ a))

-- Writing to a multiplexer what keeps its identity.
pub update-IsRouted :
    (t : Table) (p : ℕ) (m n : Multiplexer)
    → t.heap p ≡ some m
    → SameIdentity m n
    → IsRouted t
    → IsRouted (record t { heap = update t.heap p n })
update-IsRouted t p m n stands same v = record {
  ipv4 = λ a q h. moved (λ x. to_int x.fake_client_ipv4) (ap to_int same.ipv4) q (v.ipv4 a q h);
  ipv6 = λ a q h. moved (λ x. x.fake_client_ipv6.ip) (ap (λ a. a.ip) same.ipv6) q (v.ipv6 a q h);
}
  where
    t' : Table
    t' = record t { heap = update t.heap p n }

    moved :
        {A : Type 0} {a : A} (address : Multiplexer → A)
        → address n ≡ address m
        → (q : ℕ) → (x : Multiplexer) × (IsHome t q x × (address x ≡ a))
        → (x : Multiplexer) × (IsHome t' q x × (address x ≡ a))
    moved address kept q (x, (home, e)) = elim (ℕ_discrete q p) [
      | yes here ↦ (
        n,
        (
          record {
            stands = ground arith;
            session = ground (arith, home.stands, home.session, same);
          },
          kept ∙ ap address (ground (arith, home.stands)) ∙ e,
        ),
      )
      | no other ↦ (x, (record { stands = ground (arith, home.stands); session = home.session }, e))
    ]

-- Dropping an empty session with both of its addresses.
release-IsRouted :
    (t : Table) (p : ℕ) (m : Multiplexer)
    → t.heap p ≡ some m
    → session_of t m.session_id ≡ some p
    → IsRouted t
    → IsRouted (release_session m t)
unfolding release_session
release-IsRouted t p m stands session v = record {
  ipv4 = λ a q h.
      let away : to_int m.fake_client_ipv4 ≢ a =
        λ e. ground (arith, find-erase ℕ_discrete (to_int m.fake_client_ipv4) a t.ipv4_to_mplx) in
      let (x, (home, e)) =
        v.ipv4 a q
          (ground (arith, find-erase ℕ_discrete (to_int m.fake_client_ipv4) a t.ipv4_to_mplx)) in
      let other : m.session_id ≢ x.session_id =
        λ s. ground (arith, home.stands, home.session, ap (session_of t) s) in
      (
        x,
        (
          record {
            stands = home.stands;
            session = ground (
              arith,
              home.session,
              find-erase String_discrete m.session_id x.session_id t.session_to_mplx,
            );
          },
          e,
        ),
      );
  ipv6 = λ a q h.
      let away : m.fake_client_ipv6.ip ≢ a =
        λ e. ground (arith, find-erase String_discrete m.fake_client_ipv6.ip a t.ipv6_to_mplx) in
      let (x, (home, e)) =
        v.ipv6 a q
          (ground (arith, find-erase String_discrete m.fake_client_ipv6.ip a t.ipv6_to_mplx)) in
      let other : m.session_id ≢ x.session_id =
        λ s. ground (arith, home.stands, home.session, ap (session_of t) s) in
      (
        x,
        (
          record {
            stands = home.stands;
            session = ground (
              arith,
              home.session,
              find-erase String_discrete m.session_id x.session_id t.session_to_mplx,
            );
          },
          e,
        ),
      );
}

-- A map with one more entry.
find-insert-some :
    {K V : Type 0} (dec : Discrete K) (k j : K) (v w : V) (d : Dict K V)
    → find dec j (insert dec k v d) ≡ some w
    → (find dec j d ≡ some w) ⊎ ((k ≡ j) × (v ≡ w))
find-insert-some dec k j v w d h = elim (Option-cases (find dec k d)) [
  | inr (u, there) ↦ inl (unfold insert in ground (arith, there))
  | inl new ↦ elim (dec k j) [
    | yes same ↦ inr (same, ground (arith, find-insert dec k j v d new))
    | no other ↦ inl (ground (arith, find-insert dec k j v d new))
  ]
]
