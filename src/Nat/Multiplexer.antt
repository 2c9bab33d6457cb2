-- ===== src/Nat/Multiplexer.antt =====
-- src/fptn-server/nat/connection_multiplexer: the connections of one logical session, in a bucket
-- of those that send and a bucket of those that receive. A shaper is the address of a shared
-- object. The clock is the sequence of its readings, and an operation takes the number of its first
-- reading; connections are immutable, so a shared pointer to one is its value.
pub mod Roles
pub mod Members
pub mod Receiver
pub mod Rewrite
use fptn_keenetic.Base.{
  ℕ, zero, suc, ◌+◌, ◌%◌, ◌^◌, ◌≤◌, ◌<◌, ◌≡◌, List, [], ◌∷◌, ◌++◌, Option, none, some, Bool, true,
  false, not, ◌&&◌, ◌||◌, ◌==◌, if◌then◌else◌, String, length, get_elem?,
}
use fptn_keenetic.Network.Address.{IpAddress}
use fptn_keenetic.Nat.Connection.{
  ConnectParams, ClientConnection, id_of, is_sending, is_receiving, is_expired,
}

abbrev pub Clock : Type 0
Clock = ℕ → ℕ

-- The steady clock never runs backwards.
abbrev pub IsSteady : Clock → Type 0
IsSteady clock = (i : ℕ) → clock i ≤ clock (i + 1)

pub record Multiplexer : Type 0 where
  pub username : String
  pub session_id : String
  pub fake_client_ipv4 : IpAddress
  pub fake_client_ipv6 : IpAddress
  pub shaper_to_client : Option ℕ
  pub shaper_from_client : Option ℕ
  pub disable_checksum_calculation : Bool
  pub sending : List ClientConnection
  pub receiving : List ClientConnection
  pub round_robin_cursor : ℕ

unfoldable pub contains : List ClientConnection → ℕ → Bool
contains [] client_id = false
contains (c ∷ connections) client_id = id_of c == client_id || contains connections client_id

-- The list without the first connection of that id, and whether there was one.
unfoldable pub remove : List ClientConnection → ℕ → List ClientConnection × Bool
remove [] client_id = ([], false)
remove (c ∷ connections) client_id =
    let (rest, found) = remove connections client_id in
    if id_of c == client_id then (connections, true) else (c ∷ rest, found)

unfoldable pub find_by_client_id : List ClientConnection → ℕ → Option ClientConnection
find_by_client_id [] client_id = none
find_by_client_id (c ∷ connections) client_id =
    if id_of c == client_id then some c else find_by_client_id connections client_id

-- The buckets with the connection added by its role at two readings of the clock.
unfoldable pub place_by_role :
    Clock
    → ℕ
    → ClientConnection
    → List ClientConnection
    → List ClientConnection
    → List ClientConnection × List ClientConnection
place_by_role clock i c sending receiving = (
  if is_sending c (clock i) then sending ++ (c ∷ []) else sending,
  if is_receiving c (clock (i + 1)) then receiving ++ (c ∷ []) else receiving,
)

-- `ClientConnection::Create`, at a reading of the clock.
abbrev pub accept : Clock → ℕ → ConnectParams → ClientConnection
accept clock i params = record { params = params; accepted_at = clock i }

unfoldable pub create :
    Clock → ℕ → ConnectParams → IpAddress → IpAddress → Option ℕ → Option ℕ → Multiplexer
unfolding place_by_role
create clock i params fake_ipv4 fake_ipv6 to_client from_client =
    let (sending, receiving) = place_by_role clock (i + 1) (accept clock i params) [] [] in
    record {
      username = params.user.username;
      session_id = params.request.session_id;
      fake_client_ipv4 = fake_ipv4;
      fake_client_ipv6 = fake_ipv6;
      shaper_to_client = to_client;
      shaper_from_client = from_client;
      disable_checksum_calculation = false;
      sending = sending;
      receiving = receiving;
      round_robin_cursor = 0;
    }

unfoldable pub has_client_id : Multiplexer → ℕ → Bool
has_client_id m client_id = contains m.sending client_id || contains m.receiving client_id

unfoldable pub add_client_connection : Clock → ℕ → ConnectParams → Multiplexer → Multiplexer × Bool
unfolding has_client_id place_by_role
add_client_connection clock i params m =
    let (sending, receiving) =
      place_by_role clock (i + 1) (accept clock i params) m.sending m.receiving in
    if has_client_id m params.client_id
    then (m, false)
    else (record m { sending = sending; receiving = receiving }, true)

unfoldable pub del_connection_by_client_id : ℕ → Multiplexer → Multiplexer × Bool
unfolding remove
del_connection_by_client_id client_id m =
    let (sending, from_sending) = remove m.sending client_id in
    let (receiving, from_receiving) = remove m.receiving client_id in
    (record m { sending = sending; receiving = receiving }, from_sending || from_receiving)

abbrev pub is_nil {ℓ} : {A : Type ℓ} → List A → Bool
is_nil [] = true
is_nil (x ∷ xs) = false

unfoldable pub empty : Multiplexer → Bool
empty m = is_nil m.sending && is_nil m.receiving

-- The first loop of `UpdateConnectionsStatus`: a connection of both buckets is taken once.
unfoldable pub gather : List ClientConnection → List ClientConnection → List ClientConnection
gather connections [] = connections
gather connections (c ∷ receiving) =
    gather (if contains connections (id_of c) then connections else connections ++ (c ∷ []))
      receiving

pub record Buckets : Type 0 where
  pub sending : List ClientConnection
  pub receiving : List ClientConnection
  pub expired : List ℕ

-- The second loop: a connection past its ttl is dropped and its id returned, any other is placed
-- by its role. Each round reads the clock up to three times.
unfoldable pub settle : Clock → ℕ → List ClientConnection → Buckets → Buckets
unfolding place_by_role
settle clock i [] b = b
settle clock i (c ∷ connections) b = elim (is_expired c (clock i)) [
  | true ↦ settle clock (i + 3) connections (record b { expired = b.expired ++ (id_of c ∷ []) })
  | false ↦
      let (sending, receiving) = place_by_role clock (i + 1) c b.sending b.receiving in
      settle clock (i + 3) connections (record b { sending = sending; receiving = receiving })
]

unfoldable pub update_connections_status : Clock → ℕ → Multiplexer → Multiplexer × List ℕ
unfolding gather settle
update_connections_status clock i m =
    let b =
      settle clock i (gather m.sending m.receiving)
        (record { sending = []; receiving = []; expired = [] }) in
    (record m { sending = b.sending; receiving = b.receiving }, b.expired)
