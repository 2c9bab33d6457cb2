-- ===== src/Tunnels/Parallel/Rounds.antt =====
-- CreateMissingConnections, NotifyConnectedOnce and a round of ManageCoroutine in
-- src/fptn-protocol-lib/connection/strategies/parallel_tunnels/parallel_tunnels.h. While a new
-- client connects, other threads may call Send and Stop.
use fptn_keenetic.Base.{
  ℕ, ◌+◌, ◌-◌, ◌*◌, List, [], ◌∷◌, ◌++◌, Option, none, some, Bool, true, false, not, ◌&&◌, ◌==◌,
  ltb, length, if◌then◌else◌,
}
use fptn_keenetic.Packet.{IpPacket}
use fptn_keenetic.Tunnels.Parallel.{
  Kind, ParallelTunnels, Instant, Status, seconds, keep, is_connected, is_healthy, send, stop,
  remove_closed_connections, create_new_connection,
}
use fptn_keenetic.Tunnels.Parallel.Lifetime.{next_lifetime_seconds}

-- A call by another thread.
pub data Call : Type 0 where
  sending : Instant → Option IpPacket → Call
  stopping : Call

unfoldable pub answer : Call → ParallelTunnels → ParallelTunnels
answer (sending at p) t = (send at p t).0
answer stopping t = (stop t).0

unfoldable pub answer_all : List Call → ParallelTunnels → ParallelTunnels
unfolding answer
answer_all [] t = t
answer_all (c ∷ calls) t = answer_all calls (answer c t)

-- What a round meets. The steady clock is read before and after the new connection.
pub record Surroundings : Type 0 where
  pub removing : Instant
  pub creating : Instant
  pub notifying : Instant
  pub lifetime_now : ℕ
  pub created_now : ℕ
  pub steady_before : ℕ
  pub steady_after : ℕ
  pub status : ℕ → Status
  pub meanwhile : List Call

-- The early returns of CreateMissingConnections.
unfoldable pub wants_connection : Kind → Surroundings → ParallelTunnels → Bool
wants_connection k s t =
    t.running
    && ltb (length (keep (is_healthy s.creating) t.connections)) k.connection_count
    && ltb (length t.connections) (k.connection_count + 1)
    && not (
        ltb 0 k.stagger_seconds
        && ltb (s.steady_before - t.last_spawn_time) (k.stagger_seconds * seconds))

unfoldable pub create_missing_connections : Kind → Surroundings → ParallelTunnels → ParallelTunnels
unfolding wants_connection
create_missing_connections k s t = elim (wants_connection k s t) [
  | false ↦ t
  | true ↦
      let lifetime = next_lifetime_seconds k s.lifetime_now t.connections in
      let (t', channel) = create_new_connection lifetime s.created_now s.status t in
      let later = answer_all s.meanwhile t' in
      elim channel [
        | none ↦ later
        | some c ↦ record later {
          connections = later.connections ++ c ∷ [];
          last_spawn_time = s.steady_after;
        }
      ]
]

-- Whether the callback is called.
unfoldable pub notify_connected_once : Instant → ParallelTunnels → ParallelTunnels × Bool
notify_connected_once at t =
    if t.connected_notified
    then (t, false)
    else if is_connected at t
    then (record t { connected_notified = true }, true)
    else (t, false)

-- The end of a round, and whether the callback is called.
unfoldable pub finish_round : Instant → ParallelTunnels → ParallelTunnels × Bool
finish_round at t =
    if length t.connections == 0
    then (record t { running = false }, false)
    else notify_connected_once at t

unfoldable pub manage : Kind → Surroundings → ParallelTunnels → ParallelTunnels × Bool
unfolding finish_round
manage k s t =
    if not t.running
    then (t, false)
    else finish_round s.notifying
        (create_missing_connections k s (remove_closed_connections s.removing t).0)
