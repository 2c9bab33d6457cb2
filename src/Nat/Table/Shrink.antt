-- ===== src/Nat/Table/Shrink.antt =====
-- Taking clients out of a multiplexer, and then out of the table: the steps that
-- `DelConnectionByClientId` and `UpdateConnectionsStatus` share.
use fptn_keenetic.Base.{
  ℕ, ◌≡◌, refl, subst, List, [], ◌∷◌, ◌++◌, none, some, true, false, not, arith, ◌&&◌,
  if◌then◌else◌, String, ℕ_discrete,
}
use fptn_keenetic.Base.Dict.{Dict, find, erase, find-erase}
use fptn_keenetic.Nat.Multiplexer.{Multiplexer, has_client_id, empty}
use fptn_keenetic.Nat.Multiplexer.Roles.{mem, mem-append, IsDistinct}
use fptn_keenetic.Nat.Table.{Table, update, erase_clients}
use fptn_keenetic.Nat.Table.Invariant.{
  session_of, owner_of, IsLive, IsClient, IsPending, SameIdentity,
}

-- `n` is `m` without the clients `gone`.
pub record IsWithout (gone : List ℕ) (m n : Multiplexer) : Type 0 where
  pub same : SameIdentity m n
  pub distinct : IsDistinct n
  pub left : (c : ℕ) → has_client_id n c ≡ has_client_id m c && not (mem c gone)
  pub had : (c : ℕ) → mem c gone ≡ true → has_client_id m c ≡ true

module _ (expired emptied emptied' gone : List ℕ) (t : Table) (p : ℕ) (m m' : Multiplexer)
    (valid : IsPending expired emptied t) (session : session_of t m.session_id ≡ some p)
    (stands : t.heap p ≡ some m) (without : IsWithout gone m m')
    (more : (q : ℕ) → mem q emptied' ≡ false → mem q emptied ≡ false)
    (noted : mem p emptied' ≡ false → empty m' ≡ false) where
  abbrev t' : Table
  t' = record t { heap = update t.heap p m' }

  shrink-IsLive :
      (s : String) (q : ℕ) (n : Multiplexer)
      → IsLive emptied t s q n
      → (x : Multiplexer) × IsLive emptied' t' s q x
  shrink-IsLive s q n l = elim (ℕ_discrete q p) [
    | yes here ↦ (
      m',
      record {
        stands = ground arith;
        named = ground (arith, without.same, l.named, l.stands);
        ipv4 = ground (arith, without.same, l.ipv4, l.stands);
        ipv6 = ground (arith, without.same, l.ipv6, l.stands);
        occupied = λ away. noted (subst (λ k. mem k emptied' ≡ false) here away);
        distinct = without.distinct;
      },
    )
    | no other ↦ (
      n,
      record {
        stands = ground (arith, l.stands);
        named = l.named;
        ipv4 = l.ipv4;
        ipv6 = l.ipv6;
        occupied = λ away. l.occupied (more q away);
        distinct = l.distinct;
      },
    )
  ]

  shrink-IsClient :
      (c q : ℕ) (n : Multiplexer)
      → IsClient expired t c q n
      → (x : Multiplexer) × IsClient (expired ++ gone) t' c q x
  shrink-IsClient c q n l = elim (ℕ_discrete q p) [
    | yes here ↦ (
      m',
      record {
        stands = ground arith;
        live = ground (arith, without.same, l.live, l.stands);
        member =
            λ kept. ground (arith, l.member, l.stands, without.left c, mem-append c expired gone);
      },
    )
    | no other ↦ (
      n,
      record {
        stands = ground (arith, l.stands);
        live = l.live;
        member = λ kept. ground (arith, l.member, mem-append c expired gone);
      },
    )
  ]

  shrink-members :
      (s : String) (q : ℕ) (n : Multiplexer) (c : ℕ)
      → session_of t s ≡ some q
      → t'.heap q ≡ some n
      → has_client_id n c ≡ true
      → (owner_of t c ≡ some q) × (mem c (expired ++ gone) ≡ false)
  shrink-members s q n c h k e = elim (ℕ_discrete q p) [
    | yes here ↦ ground (arith, valid.members s p m c, without.left c, mem-append c expired gone)
    | no other ↦ ground (
      arith,
      valid.members s q n c,
      valid.members m.session_id p m c,
      without.had c,
      mem-append c expired gone,
    )
  ]

  pub shrink-IsPending : IsPending (expired ++ gone) emptied' t'
  shrink-IsPending = record {
    sessions = λ s q h. let (n, l) = valid.sessions s q h in shrink-IsLive s q n l;
    clients = λ c q h. let (n, l) = valid.clients c q h in shrink-IsClient c q n l;
    members = shrink-members;
    listed = valid.listed;
    fresh = λ q n h. ground (arith, valid.fresh q n, valid.fresh p m stands);
    distinct_ipv4 = valid.distinct_ipv4;
    distinct_ipv6 = valid.distinct_ipv6;
  }

pub find-erase_clients :
    (gone : List ℕ) (d : Dict ℕ ℕ) (c : ℕ)
    → find ℕ_discrete c (erase_clients gone d) ≡ (if mem c gone then none else find ℕ_discrete c d)
unfolding erase_clients
find-erase_clients [] d c = refl
find-erase_clients (g ∷ gone) d c =
    ground (arith, find-erase_clients gone (erase ℕ_discrete g d) c, find-erase ℕ_discrete g c d)

-- Once the expired clients are erased, every client of the table is in its multiplexer.
pub erase_clients-IsPending :
    (expired emptied : List ℕ) (t : Table)
    → IsPending expired emptied t
    → IsPending [] emptied (record t { client_to_mplx = erase_clients expired t.client_to_mplx })
erase_clients-IsPending expired emptied t valid = record {
  sessions = λ s p h.
      let (m, l) = valid.sessions s p h in
      (
        m,
        record {
          stands = l.stands;
          named = l.named;
          ipv4 = l.ipv4;
          ipv6 = l.ipv6;
          occupied = l.occupied;
          distinct = l.distinct;
        },
      );
  clients = λ c p h.
      let (m, l) =
        valid.clients c p (ground (arith, find-erase_clients expired t.client_to_mplx c)) in
      (
        m,
        record {
          stands = l.stands;
          live = l.live;
          member = λ _. l.member (ground (arith, find-erase_clients expired t.client_to_mplx c));
        },
      );
  members = λ s p m c h k e. (
    ground (arith, valid.members s p m c h k e, find-erase_clients expired t.client_to_mplx c),
    refl,
  );
  listed = valid.listed;
  fresh = valid.fresh;
  distinct_ipv4 = valid.distinct_ipv4;
  distinct_ipv6 = valid.distinct_ipv6;
}
