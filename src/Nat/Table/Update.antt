-- ===== src/Nat/Table/Update.antt =====
-- `Table::UpdateConnectionsStatus` keeps the table well formed, and its stock of addresses.
use fptn_keenetic.Base.{
  ℕ, ◌≡◌, refl, ap, ◌∙◌, List, [], ◌∷◌, ◌++◌, some, arith, if◌then◌else◌, String, All,
}
use fptn_keenetic.Base.Dict.{Dict}
use fptn_keenetic.Nat.Multiplexer
use fptn_keenetic.Nat.Multiplexer.{Multiplexer, Clock, IsSteady, has_client_id, empty}
use fptn_keenetic.Nat.Multiplexer.Roles.{mem-append, IsDistinct}
use fptn_keenetic.Nat.Multiplexer.Members.{has_client_id-update, update-IsDistinct}
use fptn_keenetic.Nat.Table.{
  Table, Sweep, update, release_session_if_empty, release_all, sweep, finish_update,
  update_connections_status,
}
use fptn_keenetic.Nat.Table.Invariant.{session_of, IsPending, IsValid, IsLive-at}
use fptn_keenetic.Nat.Table.Release.{
  release_if_empty-IsPending, release_if_empty-pool_ipv4, release_if_empty-pool_ipv6,
}
use fptn_keenetic.Nat.Table.Shrink.{IsWithout, shrink-IsPending, erase_clients-IsPending}
use fptn_keenetic.Nat.Table.Operations.{SamePool-refl, SamePool-trans, Keeps}

update-IsWithout :
    (clock : Clock) (i : ℕ) (m : Multiplexer)
    → IsSteady clock
    → IsDistinct m
    → let (m', ids) = Multiplexer.update_connections_status clock i m in IsWithout ids m m'
unfolding Multiplexer.update_connections_status
update-IsWithout clock i m steady d = record {
  same = record { session = refl; ipv4 = refl; ipv6 = refl; user = refl };
  distinct = update-IsDistinct clock i m steady d;
  left = λ c. (has_client_id-update clock i m c steady d).0;
  had = λ c. (has_client_id-update clock i m c steady d).1;
}

abbrev swept : Table → Sweep → Table
swept t s = record t { heap = s.heap }

sweep_one : Clock → ℕ → ℕ → Multiplexer → Sweep → Sweep
sweep_one clock i p m s =
    let (m', ids) = Multiplexer.update_connections_status clock i m in
    record {
      heap = update s.heap p m';
      expired = s.expired ++ ids;
      emptied = if empty m' then s.emptied ++ (p ∷ []) else s.emptied;
    }

sweep_one-IsPending :
    (clock : Clock) (i p : ℕ) (m : Multiplexer) (s : Sweep) (t : Table)
    → IsSteady clock
    → IsPending s.expired s.emptied (swept t s)
    → session_of t m.session_id ≡ some p
    → s.heap p ≡ some m
    → let s' = sweep_one clock i p m s in IsPending s'.expired s'.emptied (swept t s')
unfolding sweep_one
sweep_one-IsPending clock i p m s t steady pending session stands =
    shrink-IsPending s.expired s.emptied (if empty m' then s.emptied ++ (p ∷ []) else s.emptied) ids
      (swept t s) p m m' pending session stands
      (update-IsWithout clock i m steady
        (IsLive-at m.session_id p m pending session stands).distinct)
      (λ q h. ground (arith, mem-append q s.emptied (p ∷ [])))
      (λ h. ground (arith, mem-append p s.emptied (p ∷ [])))
  where
    m' : Multiplexer
    m' = (Multiplexer.update_connections_status clock i m).0

    ids : List ℕ
    ids = (Multiplexer.update_connections_status clock i m).1

-- Each session that the loop visits may lose clients and become empty; all of that is noted.
pub sweep-IsPending :
    (clock : Clock) (reading : ℕ → ℕ) (visited : Dict String ℕ) (s : Sweep) (t : Table)
    → IsSteady clock
    → IsPending s.expired s.emptied (swept t s)
    → All (λ e. session_of t e.0 ≡ some e.1) visited
    → let s' = sweep clock reading visited s in IsPending s'.expired s'.emptied (swept t s')
unfolding sweep sweep_one
sweep-IsPending clock reading [] s t steady pending h = pending
sweep-IsPending clock reading ((key, p) ∷ visited) s t steady pending h =
    let (m, live) = pending.sessions key p h.0 in
    rw (live.stands, sweep)
      (sweep-IsPending clock reading visited (sweep_one clock (reading p) p m s) t steady
        (sweep_one-IsPending clock (reading p) p m s t steady pending
          (ap (session_of t) live.named ∙ h.0) live.stands)
        h.1)

release_all-Keeps :
    (emptied : List ℕ) (t : Table) → IsPending [] emptied t → Keeps t (release_all emptied t)
unfolding release_all
release_all-Keeps [] t pending = record { valid = pending; pool = SamePool-refl t }
release_all-Keeps (p ∷ emptied) t pending =
    let rest =
      release_all-Keeps emptied (release_session_if_empty p t)
        (release_if_empty-IsPending p emptied t pending) in
    record {
      valid = rest.valid;
      pool =
          SamePool-trans
            (record {
              ipv4 = release_if_empty-pool_ipv4 p emptied t pending;
              ipv6 = release_if_empty-pool_ipv6 p emptied t pending;
            })
            rest.pool;
    }

-- Where the clock does not run backwards, the periodic update keeps a table well formed and its stock of addresses: expired clients are
-- forgotten, and sessions that they leave without connections are gone with their addresses free.
pub update_connections_status-Keeps :
    (clock : Clock) (reading : ℕ → ℕ) (t : Table)
    → IsSteady clock
    → IsValid t
    → Keeps t (update_connections_status clock reading t).0
unfolding update_connections_status finish_update
update_connections_status-Keeps clock reading t steady valid =
    let kept = release_all-Keeps s.emptied _ (
      erase_clients-IsPending s.expired s.emptied (swept t s) (
        sweep-IsPending clock reading t.session_to_mplx
          (record { heap = t.heap; expired = []; emptied = [] }) t steady valid valid.listed)) in
    record { valid = kept.valid; pool = record { ipv4 = kept.pool.ipv4; ipv6 = kept.pool.ipv6 } }
  where
    s : Sweep
    s = sweep clock reading t.session_to_mplx (record { heap = t.heap; expired = []; emptied = [] })
