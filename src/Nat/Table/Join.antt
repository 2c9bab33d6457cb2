-- ===== src/Nat/Table/Join.antt =====
-- `Table::AddConnection` for a session that exists.
use fptn_keenetic.Base.{
  ℕ, ◌≡◌, ◌≢◌, refl, subst, [], none, some, true, false, arith, ◌==◌, ◌||◌, String, ℕ_discrete, ite,
}
use fptn_keenetic.Base.Dict.{insert, find-insert}
use fptn_keenetic.Nat.Connection.{ConnectParams}
use fptn_keenetic.Nat.Multiplexer
use fptn_keenetic.Nat.Multiplexer.{Multiplexer, Clock, IsSteady, has_client_id, empty}
use fptn_keenetic.Nat.Multiplexer.Roles.{mem, IsDistinct}
use fptn_keenetic.Nat.Multiplexer.Members.{has_client_id-add, add-IsDistinct, empty-has_client_id}
use fptn_keenetic.Nat.Table.{Table, update}
use fptn_keenetic.Nat.Table.Invariant.{
  session_of, owner_of, IsLive, IsClient, IsValid, SameIdentity,
}

-- A table whose multiplexer at `p` has taken in the client.
abbrev pub joined : Clock → ℕ → ConnectParams → ℕ → Multiplexer → Table → Table
joined clock i params p m t = record t {
  heap = update t.heap p (Multiplexer.add_client_connection clock i params m).0;
  client_to_mplx = insert ℕ_discrete params.client_id p t.client_to_mplx;
}

pub add-SameIdentity :
    (clock : Clock) (i : ℕ) (params : ConnectParams) (m : Multiplexer)
    → SameIdentity m (Multiplexer.add_client_connection clock i params m).0
unfolding Multiplexer.add_client_connection
add-SameIdentity clock i params m = ground arith

module _ (clock : Clock) (i : ℕ) (params : ConnectParams) (p : ℕ) (m : Multiplexer) (t : Table)
    (steady : IsSteady clock) (valid : IsValid t) (session : session_of t m.session_id ≡ some p)
    (stands : t.heap p ≡ some m) (new_client : owner_of t params.client_id ≡ none) where
  abbrev t' : Table
  t' = joined clock i params p m t

  abbrev m' : Multiplexer
  m' = (Multiplexer.add_client_connection clock i params m).0

  join-owner_of :
      (c : ℕ) → owner_of t' c ≡ ite (ℕ_discrete params.client_id c) (some p) (owner_of t c)
  join-owner_of c = find-insert ℕ_discrete _ c p t.client_to_mplx new_client

  members_of_m' : (c : ℕ) → has_client_id m' c ≡ has_client_id m c || params.client_id == c
  members_of_m' c = (has_client_id-add clock i params m c steady).1

  join-IsLive_self :
      (s : String) (q : ℕ) (n : Multiplexer) → q ≡ p → IsLive [] t s q n → IsLive [] t' s q m'
  join-IsLive_self s q n here live =
      let same = add-SameIdentity clock i params m in
      record {
        stands = ground arith;
        named = ground (arith, same, live.named, live.stands);
        ipv4 = ground (arith, same, live.ipv4, live.stands);
        ipv6 = ground (arith, same, live.ipv6, live.stands);
        occupied = λ _.
            empty-has_client_id m' params.client_id
              (ground (arith, members_of_m' params.client_id));
        distinct =
            let known : n ≡ m = ground (arith, live.stands) in
            add-IsDistinct clock i params m (subst IsDistinct known live.distinct);
      }

  join-IsLive :
      (s : String) (q : ℕ) (n : Multiplexer) → q ≢ p → IsLive [] t s q n → IsLive [] t' s q n
  join-IsLive s q n other live = record {
    stands = ground (arith, live.stands);
    named = live.named;
    ipv4 = live.ipv4;
    ipv6 = live.ipv6;
    occupied = live.occupied;
    distinct = live.distinct;
  }

  join-sessions :
      (s : String) (q : ℕ) → session_of t' s ≡ some q → (n : Multiplexer) × IsLive [] t' s q n
  join-sessions s q h =
      let (n, live) = valid.sessions s q h in
      elim (ℕ_discrete q p) [
        | yes here ↦ (m', join-IsLive_self s q n here live)
        | no other ↦ (n, join-IsLive s q n other live)
      ]

  join-IsClient_self : (c q : ℕ) → q ≡ p → has_client_id m' c ≡ true → IsClient [] t' c q m'
  join-IsClient_self c q here e = record {
    stands = ground arith;
    live = ground (arith, add-SameIdentity clock i params m, session);
    member = λ _. e;
  }

  join-IsClient :
      (c q : ℕ) (n : Multiplexer) → IsClient [] t c q n → (x : Multiplexer) × IsClient [] t' c q x
  join-IsClient c q n client = elim (ℕ_discrete q p) [
    | yes here ↦ (
      m',
      join-IsClient_self c q here
          (ground (arith, members_of_m' c, client.member refl, client.stands)),
    )
    | no other ↦ (
      n,
      record { stands = ground (arith, client.stands); live = client.live; member = client.member },
    )
  ]

  join-clients : (c q : ℕ) → owner_of t' c ≡ some q → (n : Multiplexer) × IsClient [] t' c q n
  join-clients c q h = elim (ℕ_discrete params.client_id c) [
    | yes new ↦ (
      m',
      join-IsClient_self c q (ground (arith, join-owner_of c)) (ground (arith, members_of_m' c)),
    )
    | no old ↦
        let (n, client) = valid.clients c q (ground (arith, join-owner_of c)) in
        join-IsClient c q n client
  ]

  join-members :
      (s : String) (q : ℕ) (n : Multiplexer) (c : ℕ)
      → session_of t' s ≡ some q
      → t'.heap q ≡ some n
      → has_client_id n c ≡ true
      → (owner_of t' c ≡ some q) × (mem c [] ≡ false)
  join-members s q n c h k e = elim (ℕ_discrete q p) [
    | yes here ↦ (ground (arith, join-owner_of c, members_of_m' c, valid.members s p m c), refl)
    | no other ↦ (ground (arith, join-owner_of c, valid.members s q n c), refl)
  ]

  -- A client id that is new to the table joins its session, and the table stays well formed.
  pub join-IsValid : IsValid t'
  join-IsValid = record {
    sessions = join-sessions;
    clients = join-clients;
    members = join-members;
    listed = valid.listed;
    fresh = λ q n h. ground (arith, valid.fresh q n, valid.fresh p m stands);
    distinct_ipv4 = valid.distinct_ipv4;
    distinct_ipv6 = valid.distinct_ipv6;
  }
