-- ===== src/Nat/Table/Release.antt =====
-- `Table::ReleaseSessionIfEmpty`.
use mathlib.Core.List.Perm
use fptn_keenetic.Base.{
  ℕ, ◌≡◌, ◌≢◌, refl, sym, ap, ◌∙◌, subst, List, [], ◌∷◌, map, none, some, true, false, arith, ◌==◌,
  String, String_discrete, ℕ_discrete, ite, Bool-cases, Option-cases, inl, inr, ==_iff, Perm,
}
use fptn_keenetic.Base.Dict.{find, find-erase, erase-Listed}
use fptn_keenetic.Network.Address.{to_int}
use fptn_keenetic.Nat.Multiplexer.{Multiplexer, empty}
use fptn_keenetic.Nat.Multiplexer.Roles.{mem}
use fptn_keenetic.Nat.Multiplexer.Members.{empty-has_client_id}
use fptn_keenetic.Nat.Table.{Table, release_session, release_session_if_empty}
use fptn_keenetic.Nat.Table.Invariant.{
  pool_ipv4, pool_ipv6, session_of, IsLive, IsClient, IsPending, IsLive-at,
}
use fptn_keenetic.Nat.Table.Pool.{given-perm}

module _ (p : ℕ) (emptied : List ℕ) (t : Table) (valid : IsPending [] (p ∷ emptied) t) where
  -- If no session has an empty multiplexer at `p`, there is nothing to release.
  settled_at :
      ((s : String) (m : Multiplexer)
        → IsLive (p ∷ emptied) t s p m
        → session_of t s ≡ some p
        → empty m ≡ false)
      → IsPending [] emptied t
  settled_at fine = record {
    sessions = λ s q h.
        let (m, live) = valid.sessions s q h in
        (
          m,
          record {
            stands = live.stands;
            named = live.named;
            ipv4 = live.ipv4;
            ipv6 = live.ipv6;
            occupied = λ away. occupied s q m h live away;
            distinct = live.distinct;
          },
        );
    clients = valid.clients;
    members = valid.members;
    listed = valid.listed;
    fresh = valid.fresh;
    distinct_ipv4 = valid.distinct_ipv4;
    distinct_ipv6 = valid.distinct_ipv6;
  }
    where
      occupied :
          (s : String) (q : ℕ) (m : Multiplexer)
          → session_of t s ≡ some q
          → IsLive (p ∷ emptied) t s q m
          → mem q emptied ≡ false
          → empty m ≡ false
      occupied s q m h live away = elim (ℕ_discrete p q) [
        | yes here ↦
            fine s m (subst (λ k. IsLive (p ∷ emptied) t s k m) (sym here) live)
              (h ∙ ap some (sym here))
        | no other ↦ live.occupied (ground arith)
      ]

  module _ (m : Multiplexer) (stands : t.heap p ≡ some m)
      (live : session_of t m.session_id ≡ some p) (vacant : empty m ≡ true) where
    abbrev t' : Table
    t' = release_session m t

    known4 : find ℕ_discrete (to_int m.fake_client_ipv4) t.ipv4_to_mplx ≡ some p
    known4 = (IsLive-at m.session_id p m valid live stands).ipv4

    known6 : find String_discrete m.fake_client_ipv6.ip t.ipv6_to_mplx ≡ some p
    known6 = (IsLive-at m.session_id p m valid live stands).ipv6

    pub release-pool_ipv4 : Perm (pool_ipv4 t') (pool_ipv4 t)
    unfolding release_session
    release-pool_ipv4 =
        given-perm ℕ_discrete (map to_int t.free_ipv4) t.ipv4_to_mplx (to_int m.fake_client_ipv4)
          valid.distinct_ipv4 known4

    pub release-pool_ipv6 : Perm (pool_ipv6 t') (pool_ipv6 t)
    unfolding release_session
    release-pool_ipv6 =
        given-perm String_discrete (map (λ a. a.ip) t.free_ipv6) t.ipv6_to_mplx
          m.fake_client_ipv6.ip valid.distinct_ipv6 known6

    release-session_of :
        (s : String) → session_of t' s ≡ ite (String_discrete m.session_id s) none (session_of t s)
    unfolding release_session
    release-session_of s = find-erase String_discrete m.session_id s t.session_to_mplx

    release-IsLive :
        (s : String) (q : ℕ) (n : Multiplexer)
        → m.session_id ≢ s
        → IsLive (p ∷ emptied) t s q n
        → IsLive emptied t' s q n
    unfolding release_session
    release-IsLive s q n other l =
        let apart : q ≢ p = λ e. other (ground (arith, l.stands, l.named)) in
        record {
          stands = l.stands;
          named = l.named;
          ipv4 = ground (
            arith,
            l.ipv4,
            known4,
            find-erase ℕ_discrete (to_int m.fake_client_ipv4) (to_int n.fake_client_ipv4)
                t.ipv4_to_mplx,
          );
          ipv6 = ground (
            arith,
            l.ipv6,
            known6,
            find-erase String_discrete m.fake_client_ipv6.ip n.fake_client_ipv6.ip t.ipv6_to_mplx,
          );
          occupied = λ away. l.occupied (ground arith);
          distinct = l.distinct;
        }

    release-IsClient : (c q : ℕ) (n : Multiplexer) → IsClient [] t c q n → IsClient [] t' c q n
    unfolding release_session
    release-IsClient c q n client = record {
      stands = client.stands;
      live = ground (
        arith,
        client.live,
        client.stands,
        client.member refl,
        empty-has_client_id n c,
        release-session_of n.session_id,
      );
      member = client.member;
    }

    release-kept :
        (s : String) (q : ℕ)
        → session_of t' s ≡ some q
        → (m.session_id ≢ s) × (session_of t s ≡ some q)
    release-kept s q h = elim (String_discrete m.session_id s) [
      | yes gone ↦ ground (arith, release-session_of s)
      | no other ↦ (other, ground (arith, release-session_of s))
    ]

    release-IsPending : IsPending [] emptied t'
    unfolding release_session
    release-IsPending = record {
      sessions = λ s q h.
          let (other, old) = release-kept s q h in
          let (n, l) = valid.sessions s q old in (n, release-IsLive s q n other l);
      clients =
          λ c q h. let (n, client) = valid.clients c q h in (n, release-IsClient c q n client);
      members = λ s q n c h k e. valid.members s q n c (release-kept s q h).1 k e;
      listed = erase-Listed String_discrete m.session_id t.session_to_mplx valid.listed;
      fresh = valid.fresh;
      distinct_ipv4 = Perm.nodup (Perm.symm release-pool_ipv4) valid.distinct_ipv4;
      distinct_ipv6 = Perm.nodup (Perm.symm release-pool_ipv6) valid.distinct_ipv6;
    }

  -- Either no session has an empty multiplexer at `p` and the table stays, or one has and is
  -- released.
  release_cases {ℓ} :
      (Q : Table → Type ℓ)
      → (((s : String) (m : Multiplexer)
            → IsLive (p ∷ emptied) t s p m
            → session_of t s ≡ some p
            → empty m ≡ false)
          → Q t)
      → ((m : Multiplexer)
          → t.heap p ≡ some m
          → session_of t m.session_id ≡ some p
          → empty m ≡ true
          → Q (release_session m t))
      → Q (release_session_if_empty p t)
  unfolding release_session_if_empty
  release_cases Q stays goes = elim (Option-cases (t.heap p)) [
    | inl e ↦ rw (e, release_session_if_empty) (stays (λ s m l h. ground (arith, l.stands)))
    | inr (m, e) ↦
        rw (e, release_session_if_empty)
          (elim (Bool-cases (empty m)) [
            | inr busy ↦ rw busy (stays (λ s n l h. ground (arith, l.stands)))
            | inl vacant ↦ rw vacant (elim (Option-cases (session_of t m.session_id)) [
              | inl gone ↦ rw gone (stays (λ s n l h. ground (arith, l.stands, l.named)))
              | inr (q, at) ↦ rw at (elim (Bool-cases (q == p)) [
                | inl here ↦ rw here (goes m e (at ∙ ap some ((==_iff q p).0 here)) vacant)
                | inr away ↦ rw away (stays (λ s n l h. ground (arith, l.stands, l.named)))
              ])
            ])
          ])
  ]

  -- Releasing the multiplexer at `p`, if it is empty, leaves one fewer to be released.
  pub release_if_empty-IsPending : IsPending [] emptied (release_session_if_empty p t)
  release_if_empty-IsPending = release_cases (IsPending [] emptied) settled_at release-IsPending

  pub release_if_empty-pool_ipv4 : Perm (pool_ipv4 (release_session_if_empty p t)) (pool_ipv4 t)
  release_if_empty-pool_ipv4 =
      release_cases (λ u. Perm (pool_ipv4 u) (pool_ipv4 t)) (λ _. Perm.refl _) release-pool_ipv4

  pub release_if_empty-pool_ipv6 : Perm (pool_ipv6 (release_session_if_empty p t)) (pool_ipv6 t)
  release_if_empty-pool_ipv6 =
      release_cases (λ u. Perm (pool_ipv6 u) (pool_ipv6 t)) (λ _. Perm.refl _) release-pool_ipv6
