-- ===== src/Tunnels/Mimicry.antt =====
-- src/fptn-protocol-lib/connection/strategies/browser_mimicry: connections that send for a while and
-- then only receive. A connection is known by its number, which is how the lists that share a
-- pointer name it. The code reads the clock for each connection anew. Stopping the clients that are
-- dropped is left out, as are the numbers of connections that CreateMissingConnections asks for.
pub mod Lists
pub mod Consistent
mod Tests
use fptn_keenetic.Base.{
  ℕ, zero, suc, ◌+◌, ◌-◌, ◌*◌, ◌/◌, List, [], ◌∷◌, ◌++◌, Option, none, some, Bool, true, false, not,
  ◌&&◌, ◌||◌, ◌==◌, ltb, leb, length, get_elem?, if◌then◌else◌,
}

pub data ConnectionStatus : Type 0 where
  creating sending receiving error : ConnectionStatus

pub record ConnectionContext : Type 0 where
  pub connection_id : ℕ
  pub status : ConnectionStatus
  pub send_mode_until : ℕ
  pub expire_after : ℕ

pub record BrowserMimicry : Type 0 where
  pub running : Bool
  pub all_connections : List ConnectionContext
  pub getting_data_connections : List ℕ
  pub sending_data_connections : List ℕ

-- What a loop over the connections sees: the clock at its start and at each connection, and which
-- clients are started.
pub record Look : Type 0 where
  pub now : ℕ
  pub now_at : ℕ → ℕ
  pub is_started : ℕ → Bool

abbrev pub is_sending : ConnectionStatus → Bool
is_sending sending = true
is_sending status = false

abbrev pub is_receiving : ConnectionStatus → Bool
is_receiving receiving = true
is_receiving status = false

abbrev pub is_error : ConnectionStatus → Bool
is_error error = true
is_error status = false

unfoldable pub remove_from_connection_list : ℕ → List ℕ → List ℕ
remove_from_connection_list id [] = []
remove_from_connection_list id (x ∷ xs) =
    let rest = remove_from_connection_list id xs in if x == id then xs else x ∷ rest

-- The lists of those that receive and those that send.
pub record Modes : Type 0 where
  pub getting : List ℕ
  pub sending : List ℕ

unfoldable pub remove_from_both : ℕ → Modes → Modes
unfolding remove_from_connection_list
remove_from_both id m = record {
  getting = remove_from_connection_list id m.getting;
  sending = remove_from_connection_list id m.sending;
}

-- The connections that are left after a loop, and the lists.
unfoldable pub for_each :
    (ConnectionContext → Modes → Option ConnectionContext × Modes)
    → List ConnectionContext
    → Modes
    → List ConnectionContext × Modes
for_each act [] m = ([], m)
for_each act (c ∷ cs) m =
    let (left, m') = act c m in
    let (rest, last) = for_each act cs m' in (elim left [ none ↦ rest | some c' ↦ c' ∷ rest ], last)

unfoldable pub is_dead : Look → ConnectionContext → Bool
is_dead look c = leb c.expire_after (look.now_at c.connection_id) || is_error c.status

-- The loop of RemoveExpiredConnections. The reference to a dead connection is used after `erase` has
-- made it invalid, which is undefined, and `none`.
unfoldable pub drop_expired : Look → List ConnectionContext → Option (List ConnectionContext)
unfolding is_dead
drop_expired look [] = some []
drop_expired look (c ∷ cs) =
    let rest = drop_expired look cs in
    if is_dead look c then none else elim rest [ none ↦ none | some left ↦ some (c ∷ left) ]

-- The status that UpdateConnectionsStatus finds, and none where it stays.
unfoldable pub next_status : Look → ConnectionContext → ConnectionStatus → Option ConnectionStatus
next_status look c sending =
    if leb c.send_mode_until (look.now_at c.connection_id) then some receiving else none
next_status look c creating =
    if not (look.is_started c.connection_id)
    then none
    else if ltb look.now c.send_mode_until
    then some sending
    else some receiving
next_status look c receiving = none
next_status look c error = none

-- A connection is put into the list of its new status.
unfoldable pub enlist : ℕ → ConnectionStatus → Modes → Modes
enlist id sending m = record m { sending = m.sending ++ id ∷ [] }
enlist id receiving m = record m { getting = m.getting ++ id ∷ [] }
enlist id creating m = m
enlist id error m = m

-- A connection in UpdateConnectionsStatus.
unfoldable pub update_status : Look → ConnectionContext → Modes → Option ConnectionContext × Modes
unfolding next_status enlist remove_from_both
update_status look c m = elim (next_status look c c.status) [
  | none ↦ (some c, m)
  | some s ↦ (
    some (record c { status = s }),
    enlist c.connection_id s (remove_from_both c.connection_id m),
  )
]

abbrev pub modes : BrowserMimicry → Modes
modes t = record { getting = t.getting_data_connections; sending = t.sending_data_connections }

abbrev pub over :
    (ConnectionContext → Modes → Option ConnectionContext × Modes) → BrowserMimicry → BrowserMimicry
over act t =
    let (cs, m) = for_each act t.all_connections (modes t) in
    record t {
      all_connections = cs;
      getting_data_connections = m.getting;
      sending_data_connections = m.sending;
    }

unfoldable pub remove_expired_connections : Look → BrowserMimicry → Option BrowserMimicry
unfolding drop_expired
remove_expired_connections look t = elim (drop_expired look t.all_connections) [
  | none ↦ none
  | some left ↦ some (record t { all_connections = left })
]

unfoldable pub update_connections_status : Look → BrowserMimicry → BrowserMimicry
unfolding for_each update_status
update_connections_status look t = over (update_status look) t

unfoldable pub stop : BrowserMimicry → BrowserMimicry
stop t = record t {
  running = false;
  all_connections = [];
  getting_data_connections = [];
  sending_data_connections = [];
}

-- The end of a round of CreateMissingConnections: a connection that has come up is kept.
unfoldable pub push_back : ConnectionContext → BrowserMimicry → BrowserMimicry
push_back c t = record t { all_connections = t.all_connections ++ c ∷ [] }

-- Where Send looks for a connection.
unfoldable pub pool : BrowserMimicry → List ℕ
pool t =
    if length t.sending_data_connections == 0
    then t.getting_data_connections
    else t.sending_data_connections

-- The connection that Send gives the packet, where `pick n` is a random number below `n`.
unfoldable pub send : (ℕ → ℕ) → BrowserMimicry → Option ℕ
unfolding pool
send pick t =
    if not t.running || length (pool t) == 0
    then none
    else get_elem? (pool t) (pick (length (pool t)))
