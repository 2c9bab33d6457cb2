-- ===== src/Nat/Table/Open.antt =====
-- `Table::AddConnection` for a new session.
use mathlib.Core.List.Perm
use fptn_keenetic.Base.{
  ℕ, ◌≡◌, refl, ◌∙◌, subst, List, [], ◌∷◌, ◌++◌, map, Option, none, some, true, false, arith,
  String, String_discrete, ℕ_discrete, ite, Nodup, Perm,
}
use fptn_keenetic.Base.Dict.{keys, find, find-insert, insert-Listed}
use fptn_keenetic.Network.Address.{IpAddress, to_int}
use fptn_keenetic.Nat.Connection.{ConnectParams}
use fptn_keenetic.Nat.Multiplexer
use fptn_keenetic.Nat.Multiplexer.{Multiplexer, Clock, IsSteady, has_client_id, empty}
use fptn_keenetic.Nat.Multiplexer.Roles.{mem}
use fptn_keenetic.Nat.Multiplexer.Members.{
  has_client_id-create, create-IsDistinct, empty-has_client_id,
}
use fptn_keenetic.Nat.Table.{Table, open_session}
use fptn_keenetic.Nat.Table.Invariant.{
  pool_ipv4, pool_ipv6, session_of, owner_of, IsLive, IsClient, IsValid,
}
use fptn_keenetic.Nat.Table.Pool.{find_of_free, taken-perm}

module _ (clock : Clock) (i : ℕ) (params : ConnectParams) (to_client from_client : Option ℕ)
    (a4 a6 : IpAddress) (free4 free6 : List IpAddress) (t : Table) (steady : IsSteady clock)
    (valid : IsValid t) (back4 : t.free_ipv4 ≡ a4 ∷ free4) (back6 : t.free_ipv6 ≡ a6 ∷ free6)
    (new_session : session_of t params.request.session_id ≡ none)
    (new_client : owner_of t params.client_id ≡ none) where
  abbrev t' : Table
  t' = (open_session clock i params to_client from_client (a4 ∷ free4) (a6 ∷ free6) t).0

  abbrev m' : Multiplexer
  m' = Multiplexer.create clock i params a4 a6 to_client from_client

  made :
      (m'.session_id ≡ params.request.session_id)
      × (m'.fake_client_ipv4 ≡ a4)
      × (m'.fake_client_ipv6 ≡ a6)
  unfolding Multiplexer.create
  made = (refl, refl, refl)

  unused4 : find ℕ_discrete (to_int a4) t.ipv4_to_mplx ≡ none
  unused4 =
      find_of_free ℕ_discrete (map to_int free4) t.ipv4_to_mplx (to_int a4)
        (subst (λ free. Nodup (map to_int free ++ keys t.ipv4_to_mplx)) back4 valid.distinct_ipv4)

  unused6 : find String_discrete a6.ip t.ipv6_to_mplx ≡ none
  unused6 = find_of_free String_discrete (map (λ a. a.ip) free6) t.ipv6_to_mplx a6.ip (
      subst (λ free. Nodup (map (λ a. a.ip) free ++ keys t.ipv6_to_mplx)) back6 valid.distinct_ipv6)

  pub open-pool_ipv4 : Perm (pool_ipv4 t') (pool_ipv4 t)
  unfolding open_session
  open-pool_ipv4 =
      rw back4 (taken-perm ℕ_discrete (map to_int free4) t.ipv4_to_mplx (to_int a4) t.next unused4)

  pub open-pool_ipv6 : Perm (pool_ipv6 t') (pool_ipv6 t)
  unfolding open_session
  open-pool_ipv6 =
      rw back6
        (taken-perm String_discrete (map (λ a. a.ip) free6) t.ipv6_to_mplx a6.ip t.next unused6)

  open-session_of :
      (s : String)
      → session_of t' s
        ≡ ite (String_discrete params.request.session_id s) (some t.next) (session_of t s)
  unfolding open_session
  open-session_of s = find-insert String_discrete _ s t.next t.session_to_mplx new_session

  open-owner_of :
      (c : ℕ) → owner_of t' c ≡ ite (ℕ_discrete params.client_id c) (some t.next) (owner_of t c)
  unfolding open_session
  open-owner_of c = find-insert ℕ_discrete _ c t.next t.client_to_mplx new_client

  open-IsLive : (s : String) (p : ℕ) (m : Multiplexer) → IsLive [] t s p m → IsLive [] t' s p m
  unfolding open_session
  open-IsLive s p m live = record {
    stands = ground (arith, valid.fresh p m live.stands);
    named = live.named;
    ipv4 = ground (
      arith,
      live.ipv4,
      unused4,
      find-insert ℕ_discrete (to_int a4) (to_int m.fake_client_ipv4) t.next t.ipv4_to_mplx unused4,
    );
    ipv6 = ground (
      arith,
      live.ipv6,
      unused6,
      find-insert String_discrete a6.ip m.fake_client_ipv6.ip t.next t.ipv6_to_mplx unused6,
    );
    occupied = live.occupied;
    distinct = live.distinct;
  }

  open-IsClient : (c p : ℕ) (m : Multiplexer) → IsClient [] t c p m → IsClient [] t' c p m
  unfolding open_session
  open-IsClient c p m client = record {
    stands = ground (arith, valid.fresh p m client.stands);
    live = ground (arith, client.live, open-session_of m.session_id);
    member = client.member;
  }

  open-sessions :
      (s : String) (p : ℕ) → session_of t' s ≡ some p → (m : Multiplexer) × IsLive [] t' s p m
  unfolding open_session
  open-sessions s p h = elim (String_discrete params.request.session_id s) [
    | yes e ↦
        let here : p ≡ t.next = ground (arith, open-session_of s) in
        (
          m',
          record {
            stands = ground arith;
            named = made.0 ∙ e;
            ipv4 = ground (
              arith,
              made,
              find-insert ℕ_discrete (to_int a4) (to_int a4) t.next t.ipv4_to_mplx unused4,
            );
            ipv6 = ground (
              arith,
              made,
              find-insert String_discrete a6.ip a6.ip t.next t.ipv6_to_mplx unused6,
            );
            occupied = λ _. empty-has_client_id m' params.client_id (
                ground (
                  arith,
                  has_client_id-create clock i params a4 a6 to_client from_client params.client_id
                      steady,
                ));
            distinct = create-IsDistinct clock i params a4 a6 to_client from_client;
          },
        )
    | no other ↦
        let (m, live) = valid.sessions s p (ground (arith, open-session_of s)) in
        (m, open-IsLive s p m live)
  ]

  open-clients : (c p : ℕ) → owner_of t' c ≡ some p → (m : Multiplexer) × IsClient [] t' c p m
  unfolding open_session
  open-clients c p h = elim (ℕ_discrete params.client_id c) [
    | yes e ↦
        let here : p ≡ t.next = ground (arith, open-owner_of c) in
        (
          m',
          record {
            stands = ground arith;
            live = ground (arith, made, open-session_of params.request.session_id);
            member = λ _.
                ground
                  (arith, has_client_id-create clock i params a4 a6 to_client from_client c steady);
          },
        )
    | no other ↦
        let (m, client) = valid.clients c p (ground (arith, open-owner_of c)) in
        (m, open-IsClient c p m client)
  ]

  open-members :
      (s : String) (p : ℕ) (m : Multiplexer) (c : ℕ)
      → session_of t' s ≡ some p
      → t'.heap p ≡ some m
      → has_client_id m c ≡ true
      → (owner_of t' c ≡ some p) × (mem c [] ≡ false)
  unfolding open_session
  open-members s p m c h k e = elim (String_discrete params.request.session_id s) [
    | yes same ↦
        let here : p ≡ t.next = ground (arith, open-session_of s) in
        let new : m ≡ m' = ground arith in
        (
          ground (
            arith,
            open-owner_of c,
            has_client_id-create clock i params a4 a6 to_client from_client c steady,
          ),
          refl,
        )
    | no other ↦
        let old : session_of t s ≡ some p = ground (arith, open-session_of s) in
        let (n, live) = valid.sessions s p old in
        let stays : t.heap p ≡ some m = ground (arith, valid.fresh p n live.stands) in
        (ground (arith, open-owner_of c, valid.members s p m c old stays e), refl)
  ]

  pub open-IsValid : IsValid t'
  unfolding open_session
  open-IsValid = record {
    sessions = open-sessions;
    clients = open-clients;
    members = open-members;
    listed =
        insert-Listed String_discrete params.request.session_id t.next t.session_to_mplx new_session
          valid.listed;
    fresh = λ p m h. ground (arith, valid.fresh p m);
    distinct_ipv4 = Perm.nodup (Perm.symm open-pool_ipv4) valid.distinct_ipv4;
    distinct_ipv6 = Perm.nodup (Perm.symm open-pool_ipv6) valid.distinct_ipv6;
  }
