-- ===== src/Tunnels/Parallel.antt =====
-- src/fptn-protocol-lib/connection/strategies/parallel_tunnels/parallel_tunnels.h: a pool of
-- connections that carry one session. A WebSocket client is known by the number of its connection;
-- what it is at a moment is an `Instant`, and in an attempt to connect a `Status` for each look at
-- it. No pointer of the pool is null, as it takes only what CreateNewConnection made. Time points
-- are nanoseconds.
pub mod Lifetime
pub mod Sorting
pub mod Apart
pub mod Rounds
pub mod Pool
pub mod Sending
pub mod Startup
mod Tests
use fptn_keenetic.Base.{
  ℕ, zero, suc, ◌+◌, ◌-◌, ◌*◌, ◌/◌, ◌%◌, ◌^◌, List, [], ◌∷◌, ◌++◌, Option, none, some, Bool, true,
  false, not, ◌&&◌, ◌||◌, ◌==◌, ltb, leb, length, map, get_elem?, if◌then◌else◌,
}
use fptn_keenetic.Packet.{IpPacket, is_tcp, is_udp, get_tcp_src_port, get_udp_src_port}

abbrev pub size_mod : ℕ
size_mod = 2 ^ 64

abbrev pub seconds : ℕ
seconds = 1_000_000_000

-- The template's parameters.
pub record Kind : Type 0 where
  pub connection_count : ℕ
  pub lifetime_seconds : ℕ
  pub stagger_seconds : ℕ

pub record Channel : Type 0 where
  pub connection_id : ℕ
  pub close_at : ℕ

pub record ParallelTunnels : Type 0 where
  pub running : Bool
  pub connected_notified : Bool
  pub connection_id_counter : ℕ
  pub round_robin_cursor : ℕ
  pub last_spawn_time : ℕ
  pub connections : List Channel

-- A new pool. The time of the last connection is that of the clock's start.
unfoldable pub create : ParallelTunnels
create = record {
  running = false;
  connected_notified = false;
  connection_id_counter = 0;
  round_robin_cursor = 0;
  last_spawn_time = 0;
  connections = [];
}

-- Before the rounds.
unfoldable pub start : ParallelTunnels → ParallelTunnels
start t = record t { running = true }

-- The system's clock and the clients, where a lock is held.
pub record Instant : Type 0 where
  pub now : ℕ
  pub is_started : ℕ → Bool
  pub is_stopped : ℕ → Bool

pub data Status : Type 0 where
  connecting started stopped raised : Status

-- Where Send begins, and the cursor behind it.
unfoldable pub start_of : IpPacket → ParallelTunnels → ℕ × ParallelTunnels
start_of p t =
    if is_tcp p then (get_tcp_src_port p, t) else if is_udp p then (get_udp_src_port p, t) else (
      t.round_robin_cursor,
      record t { round_robin_cursor = (t.round_robin_cursor + 1) % size_mod },
    )

-- The loop of Send, with the rounds left.
unfoldable pub find_started : (ℕ → Bool) → List Channel → ℕ → ℕ → ℕ → Option Channel
find_started is_started cs start zero i = none
find_started is_started cs start (suc rounds) i =
    let rest = find_started is_started cs start rounds (i + 1) in
    elim (get_elem? cs ((start + i) % size_mod % length cs)) [
      | none ↦ none
      | some c ↦ if is_started c.connection_id then some c else rest
    ]

-- The channel whose client is given the packet; a null pointer is `none`.
unfoldable pub send : Instant → Option IpPacket → ParallelTunnels → ParallelTunnels × Option Channel
unfolding start_of
send at none t = (t, none)
send at (some p) t =
    if not t.running || length t.connections == 0
    then (t, none)
    else let (start, t') = start_of p t in
      (t', find_started at.is_started t.connections start (length t.connections) 0)

-- The channels that a test holds of.
unfoldable pub keep : (Channel → Bool) → List Channel → List Channel
keep test [] = []
keep test (c ∷ cs) = let rest = keep test cs in if test c then c ∷ rest else rest

unfoldable pub any : (Channel → Bool) → List Channel → Bool
any test [] = false
any test (c ∷ cs) = test c || any test cs

unfoldable pub is_connected : Instant → ParallelTunnels → Bool
is_connected at t = any (λ c. at.is_started c.connection_id) t.connections

-- The pool is emptied, and the clients to stop are given.
unfoldable pub stop : ParallelTunnels → ParallelTunnels × List Channel
stop t = (record t { running = false; connections = [] }, t.connections)

unfoldable pub is_dead : Instant → Channel → Bool
is_dead at c = at.is_stopped c.connection_id || leb c.close_at at.now

-- The pool without its dead channels, and these.
unfoldable pub remove_closed_connections :
    Instant → ParallelTunnels → ParallelTunnels × List Channel
unfolding is_dead
remove_closed_connections at t = (
  record t { connections = keep (λ c. not (is_dead at c)) t.connections },
  keep (is_dead at) t.connections,
)

unfoldable pub is_healthy : Instant → Channel → Bool
is_healthy at c = at.is_started c.connection_id && ltb (at.now + 2 * seconds) c.close_at

-- The ten looks at a new client, with those left.
unfoldable pub comes_up : ℕ → ℕ → (ℕ → Status) → Bool
comes_up zero i status = false
comes_up (suc rounds) i status =
    let rest = comes_up rounds (i + 1) status in
    elim (status i) [ connecting ↦ rest | started ↦ true | stopped ↦ false | raised ↦ false ]

unfoldable pub create_new_connection :
    ℕ → ℕ → (ℕ → Status) → ParallelTunnels → ParallelTunnels × Option Channel
unfolding comes_up
create_new_connection lifetime now status t =
    let id = (t.connection_id_counter + 1) % size_mod in
    (
      record t { connection_id_counter = id },
      if comes_up 10 0 status
          then some (record { connection_id = id; close_at = now + lifetime * seconds })
          else none,
    )
