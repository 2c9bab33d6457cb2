-- ===== src/Nat/Table/Operations.antt =====
-- Every method of `Table` keeps it well formed, and keeps its stock of addresses.
use mathlib.Core.List.Perm
use fptn_keenetic.Base.{
  ℕ, ◌≡◌, refl, ap, ◌∙◌, List, [], ◌∷◌, Option, none, some, true, arith, ℕ_discrete, Bool-cases,
  Option-cases, inl, inr, Perm,
}
use fptn_keenetic.Base.Dict.{erase}
use fptn_keenetic.Network.Address.{IpAddress, string_eq}
use fptn_keenetic.Nat.Connection.{ConnectParams}
use fptn_keenetic.Nat.Multiplexer
use fptn_keenetic.Nat.Multiplexer.{Multiplexer, Clock, IsSteady, has_client_id, empty}
use fptn_keenetic.Nat.Multiplexer.Roles.{IsDistinct}
use fptn_keenetic.Nat.Multiplexer.Members.{has_client_id-del, del-IsDistinct}
use fptn_keenetic.Nat.Table.{
  Table, update, add_connection, join_session, open_session, del_connection_by_client_id,
  erase_clients,
}
use fptn_keenetic.Nat.Table.Invariant.{
  pool_ipv4, pool_ipv6, session_of, owner_of, IsClient, IsPending, IsValid, IsLive-at,
}
use fptn_keenetic.Nat.Table.Open.{open-IsValid, open-pool_ipv4, open-pool_ipv6}
use fptn_keenetic.Nat.Table.Join.{join-IsValid}
use fptn_keenetic.Nat.Table.Release.{
  release_if_empty-IsPending, release_if_empty-pool_ipv4, release_if_empty-pool_ipv6,
}
use fptn_keenetic.Nat.Table.Shrink.{IsWithout, shrink-IsPending, erase_clients-IsPending}

-- The same addresses are free or in use.
pub record SamePool (t u : Table) : Type 0 where
  pub ipv4 : Perm (pool_ipv4 u) (pool_ipv4 t)
  pub ipv6 : Perm (pool_ipv6 u) (pool_ipv6 t)

-- A method's result `u` on the table `t`.
pub record Keeps (t u : Table) : Type 0 where
  pub valid : IsValid u
  pub pool : SamePool t u

pub SamePool-refl : (t : Table) → SamePool t t
SamePool-refl t = record { ipv4 = Perm.refl _; ipv6 = Perm.refl _ }

pub SamePool-trans : {t u v : Table} → SamePool t u → SamePool u v → SamePool t v
SamePool-trans a b = record { ipv4 = Perm.trans b.ipv4 a.ipv4; ipv6 = Perm.trans b.ipv6 a.ipv6 }

join_session-Keeps :
    (clock : Clock) (i : ℕ) (params : ConnectParams) (p : ℕ) (m : Multiplexer) (t : Table)
    → IsSteady clock
    → IsValid t
    → session_of t m.session_id ≡ some p
    → t.heap p ≡ some m
    → owner_of t params.client_id ≡ none
    → Keeps t (join_session clock i params p m t).0
unfolding join_session
join_session-Keeps clock i params p m t steady valid session stands new =
    elim (Bool-cases (string_eq m.username params.user.username)) [
      | inr other ↦ rw other (record { valid = valid; pool = SamePool-refl t })
      | inl same ↦
          rw same (elim (Bool-cases (Multiplexer.add_client_connection clock i params m).1) [
            | inr refused ↦ rw refused (record { valid = valid; pool = SamePool-refl t })
            | inl added ↦ rw added (record {
              valid = join-IsValid clock i params p m t steady valid session stands new;
              pool = record { ipv4 = Perm.refl _; ipv6 = Perm.refl _ };
            })
          ])
    ]

open_session-Keeps :
    (clock : Clock) (i : ℕ) (params : ConnectParams) (to from : Option ℕ)
    (free4 free6 : List IpAddress) (t : Table)
    → IsSteady clock
    → IsValid t
    → t.free_ipv4 ≡ free4
    → t.free_ipv6 ≡ free6
    → session_of t params.request.session_id ≡ none
    → owner_of t params.client_id ≡ none
    → Keeps t (open_session clock i params to from free4 free6 t).0
unfolding open_session
open_session-Keeps clock i params to from [] free6 t steady valid e4 e6 news newc = record {
  valid = valid;
  pool = SamePool-refl t;
}
open_session-Keeps clock i params to from (a4 ∷ free4) [] t steady valid e4 e6 news newc = record {
  valid = valid;
  pool = SamePool-refl t;
}
open_session-Keeps clock i params to from (a4 ∷ free4) (a6 ∷ free6) t steady valid e4 e6 news newc =
    record {
      valid = open-IsValid clock i params to from a4 a6 free4 free6 t steady valid e4 e6 news newc;
      pool = record {
        ipv4 =
            open-pool_ipv4 clock i params to from a4 a6 free4 free6 t steady valid e4 e6 news newc;
        ipv6 =
            open-pool_ipv6 clock i params to from a4 a6 free4 free6 t steady valid e4 e6 news newc;
      };
    }

-- Where the clock does not run backwards, adding a connection whose client id is new keeps a table
-- well formed, whether the connection
-- joins a session, opens one or is refused, and no address is lost or made up.
pub add_connection-Keeps :
    (clock : Clock) (i : ℕ) (params : ConnectParams) (to from : Option ℕ) (t : Table)
    → IsSteady clock
    → IsValid t
    → owner_of t params.client_id ≡ none
    → Keeps t (add_connection clock i params to from t).0
unfolding add_connection
add_connection-Keeps clock i params to from t steady valid new =
    elim (Option-cases (session_of t params.request.session_id)) [
      | inl e ↦
          rw (e, add_connection)
            (open_session-Keeps clock i params to from t.free_ipv4 t.free_ipv6 t steady valid refl
              refl e new)
      | inr (p, e) ↦
          let (m, live) = valid.sessions params.request.session_id p e in
          rw (e, add_connection, live.stands)
            (join_session-Keeps clock i params p m t steady valid (ap (session_of t) live.named ∙ e)
              live.stands new)
    ]

del-IsWithout :
    (c : ℕ) (m : Multiplexer)
    → IsDistinct m
    → has_client_id m c ≡ true
    → IsWithout (c ∷ []) m (Multiplexer.del_connection_by_client_id c m).0
unfolding Multiplexer.del_connection_by_client_id
del-IsWithout c m d h = record {
  same = record { session = refl; ipv4 = refl; ipv6 = refl; user = refl };
  distinct = del-IsDistinct c m d;
  left = λ j. ground (arith, has_client_id-del c m j d);
  had = λ j k. ground arith;
}

del-IsPending :
    (c p : ℕ) (m : Multiplexer) (t : Table)
    → IsValid t
    → IsClient [] t c p m
    → IsPending [] (p ∷ []) (record t {
      client_to_mplx = erase ℕ_discrete c t.client_to_mplx;
      heap = update t.heap p (Multiplexer.del_connection_by_client_id c m).0;
    })
unfolding erase_clients
del-IsPending c p m t valid client = erase_clients-IsPending (c ∷ []) (p ∷ []) _ (
    shrink-IsPending [] [] (p ∷ []) (c ∷ []) t p m (Multiplexer.del_connection_by_client_id c m).0
      valid client.live client.stands
      (del-IsWithout c m (IsLive-at m.session_id p m valid client.live client.stands).distinct
        (client.member refl))
      (λ q h. refl) (λ h. ground arith))

-- Deleting a client keeps the table well formed and its stock of addresses; a session without
-- connections is gone then and its addresses are free.
pub del_connection-Keeps :
    (c : ℕ) (t : Table) → IsValid t → Keeps t (del_connection_by_client_id c t).0
unfolding del_connection_by_client_id
del_connection-Keeps c t valid = elim (Option-cases (owner_of t c)) [
  | inl e ↦ rw (e, del_connection_by_client_id) (record { valid = valid; pool = SamePool-refl t })
  | inr (p, e) ↦
      let (m, client) = valid.clients c p e in
      let pending = del-IsPending c p m t valid client in
      rw (e, del_connection_by_client_id, client.stands)
        (record {
          valid = release_if_empty-IsPending p [] _ pending;
          pool = record {
            ipv4 = release_if_empty-pool_ipv4 p [] _ pending;
            ipv6 = release_if_empty-pool_ipv6 p [] _ pending;
          };
        })
]
