-- ===== src/Nat/Multiplexer/Members.antt =====
-- Which client ids a multiplexer has after each operation of connection_multiplexer.cpp.
use fptn_keenetic.Base.{
  ℕ, ◌+◌, ◌≡◌, refl, List, [], ◌∷◌, arith, true, false, not, ◌&&◌, ◌||◌, ◌==◌, Option,
}
use fptn_keenetic.Network.Address.{IpAddress}
use fptn_keenetic.Nat.Connection.{ConnectParams, ClientConnection, id_of}
use fptn_keenetic.Nat.Multiplexer.{
  Clock, IsSteady, Multiplexer, Buckets, contains, remove, accept, create, has_client_id,
  add_client_connection, del_connection_by_client_id, empty, is_nil, gather, settle,
  update_connections_status,
}
use fptn_keenetic.Nat.Multiplexer.Roles.{
  mem, Distinct, IsDistinct, IsSettled, contains-place_by_role, place_by_role-sending,
  place_by_role-receiving, contains-gather, gather-Distinct, known-settle, settle-IsSettled,
}

pub has_client_id-create :
    (clock : Clock) (i : ℕ) (p : ConnectParams) (a4 a6 : IpAddress) (to from : Option ℕ) (j : ℕ)
    → IsSteady clock
    → has_client_id (create clock i p a4 a6 to from) j ≡ (p.client_id == j)
unfolding has_client_id create contains
has_client_id-create clock i p a4 a6 to from j steady =
    contains-place_by_role clock (i + 1) (accept clock i p) [] [] j steady

pub create-IsDistinct :
    (clock : Clock) (i : ℕ) (p : ConnectParams) (a4 a6 : IpAddress) (to from : Option ℕ)
    → IsDistinct (create clock i p a4 a6 to from)
unfolding create contains
create-IsDistinct clock i p a4 a6 to from = record {
  sending = place_by_role-sending clock (i + 1) (accept clock i p) [] [] tt refl;
  receiving = place_by_role-receiving clock (i + 1) (accept clock i p) [] [] tt refl;
}

-- Where the clock does not run backwards, a connection is added exactly if its id is new, and then the session has that id besides those
-- that it had.
pub has_client_id-add :
    (clock : Clock) (i : ℕ) (p : ConnectParams) (m : Multiplexer) (j : ℕ)
    → IsSteady clock
    → let (m', added) = add_client_connection clock i p m in
      (added ≡ not (has_client_id m p.client_id))
      × (has_client_id m' j ≡ has_client_id m j || p.client_id == j)
unfolding add_client_connection has_client_id
has_client_id-add clock i p m j steady =
    ground (
      arith,
      contains-place_by_role clock (i + 1) (accept clock i p) m.sending m.receiving j steady,
    )

pub add-IsDistinct :
    (clock : Clock) (i : ℕ) (p : ConnectParams) (m : Multiplexer)
    → IsDistinct m
    → IsDistinct (add_client_connection clock i p m).0
unfolding add_client_connection
add-IsDistinct clock i p m v = ground (
  arith,
  place_by_role-sending clock (i + 1) (accept clock i p) m.sending m.receiving v.sending,
  place_by_role-receiving clock (i + 1) (accept clock i p) m.sending m.receiving v.receiving,
)

contains-remove :
    (cs : List ClientConnection) (k j : ℕ)
    → Distinct cs
    → contains (remove cs k).0 j ≡ not (k == j) && contains cs j
unfolding contains remove
contains-remove [] k j d = ground arith
contains-remove (c ∷ cs) k j d = ground (arith, contains-remove cs k j d.1)

remove-found : (cs : List ClientConnection) (k : ℕ) → (remove cs k).1 ≡ contains cs k
unfolding contains remove
remove-found [] k = refl
remove-found (c ∷ cs) k = ground (arith, remove-found cs k)

remove-Distinct : (cs : List ClientConnection) (k : ℕ) → Distinct cs → Distinct (remove cs k).0
unfolding contains remove
remove-Distinct [] k d = tt
remove-Distinct (c ∷ cs) k d =
    ground (arith, remove-Distinct cs k d.1, contains-remove cs k (id_of c) d.1)

-- Where no bucket has an id twice, a connection is removed from both buckets, and the answer says whether the session had it.
pub has_client_id-del :
    (k : ℕ) (m : Multiplexer) (j : ℕ)
    → IsDistinct m
    → let (m', removed) = del_connection_by_client_id k m in
      (removed ≡ has_client_id m k) × (has_client_id m' j ≡ not (k == j) && has_client_id m j)
unfolding has_client_id del_connection_by_client_id
has_client_id-del k m j v = ground (
  arith,
  remove-found m.sending k,
  remove-found m.receiving k,
  contains-remove m.sending k j v.sending,
  contains-remove m.receiving k j v.receiving,
)

pub del-IsDistinct :
    (k : ℕ) (m : Multiplexer) → IsDistinct m → IsDistinct (del_connection_by_client_id k m).0
unfolding del_connection_by_client_id
del-IsDistinct k m v = record {
  sending = remove-Distinct m.sending k v.sending;
  receiving = remove-Distinct m.receiving k v.receiving;
}

abbrev nothing_settled : Buckets
nothing_settled = record { sending = []; receiving = []; expired = [] }

settled :
    (clock : Clock) (i : ℕ) (m : Multiplexer)
    → IsSteady clock
    → IsDistinct m
    → IsSettled (settle clock i (gather m.sending m.receiving) nothing_settled)
unfolding contains
settled clock i m steady v =
    settle-IsSettled clock i (gather m.sending m.receiving) nothing_settled steady
      (gather-Distinct m.sending m.receiving v.sending) (λ j h. refl)
      (record { sending = tt; receiving = tt; split = λ j h. ground arith })

-- Where the clock does not run backwards and no bucket has an id twice, sorting the connections again
-- loses none: an id that the session had is in it afterwards or among
-- the expired ids that are returned, never both, and no other id is.
pub has_client_id-update :
    (clock : Clock) (i : ℕ) (m : Multiplexer) (j : ℕ)
    → IsSteady clock
    → IsDistinct m
    → let (m', expired) = update_connections_status clock i m in
      (has_client_id m' j ≡ has_client_id m j && not (mem j expired))
      × (mem j expired ≡ true → has_client_id m j ≡ true)
unfolding has_client_id update_connections_status contains
has_client_id-update clock i m j steady v = (
  ground (
    arith,
    known-settle clock i (gather m.sending m.receiving) nothing_settled j steady,
    contains-gather m.sending m.receiving j,
    (settled clock i m steady v).split j,
  ),
  λ h. ground (
    arith,
    known-settle clock i (gather m.sending m.receiving) nothing_settled j steady,
    contains-gather m.sending m.receiving j,
  ),
)

pub update-IsDistinct :
    (clock : Clock) (i : ℕ) (m : Multiplexer)
    → IsSteady clock
    → IsDistinct m
    → IsDistinct (update_connections_status clock i m).0
unfolding update_connections_status
update-IsDistinct clock i m steady v =
    let s = settled clock i m steady v in record { sending = s.sending; receiving = s.receiving }

contains-nil : (cs : List ClientConnection) → is_nil cs ≡ true → (j : ℕ) → contains cs j ≡ false
unfolding contains
contains-nil [] h j = refl
contains-nil (c ∷ cs) h j = cc

-- An empty multiplexer has no client.
pub empty-has_client_id : (m : Multiplexer) (j : ℕ) → has_client_id m j ≡ true → empty m ≡ false
unfolding has_client_id empty
empty-has_client_id m j h = ground (
  arith,
  λ (e : is_nil m.sending ≡ true). contains-nil m.sending e j,
  λ (e : is_nil m.receiving ≡ true). contains-nil m.receiving e j,
)
