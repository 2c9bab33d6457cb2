-- ===== src/Channel.antt =====
-- src/common/data/channel.h. The head of the list is the front of the queue. The mutex makes each
-- call one step, but for the wait, which gives the lock up: what the other threads do meanwhile is
-- an argument. Counters are `std::size_t`, of 64 bits.
pub mod Fifo
pub mod Capacity
mod Tests
use fptn_keenetic.Base.{
  ℕ, zero, suc, ◌+◌, ◌-◌, ◌*◌, ◌/◌, ◌%◌, ◌^◌, ◌≤◌, ◌<◌, ◌≡◌, ◌≢◌, ◌⊎◌, ◌∙◌, refl, List, [], ◌∷◌,
  ◌++◌, arith, Bool, true, false, ltb, leb, if◌then◌else◌, All, length, length-append, Option, none,
  some, take, drop, take-append-drop, min, inl, inr,
}

pub record Channel {ℓ} (Packet : Type ℓ) : Type ℓ where
  pub max_capacity : ℕ
  pub queue : List Packet
  pub is_full : Bool
  pub dropped : ℕ

module _ {ℓ} {Packet : Type ℓ} where
  unfoldable pub create : ℕ → Channel Packet
  create max_capacity = record {
    max_capacity = max_capacity;
    queue = [];
    is_full = false;
    dropped = 0;
  }

  -- `if (is_full_) { is_full_ = false; …; dropped_ = 0; }`
  unfoldable pub reopen : Channel Packet → Channel Packet
  reopen c = if c.is_full then record c { is_full = false; dropped = 0 } else c

  unfoldable pub push : Packet → Channel Packet → Channel Packet × Bool
  unfolding reopen
  push pkt c =
      if leb (length c.queue) c.max_capacity
      then (record (reopen c) { queue = c.queue ++ (pkt ∷ []) }, true)
      else (record c { dropped = (c.dropped + 1) % 2 ^ 64; is_full = true }, false)

  unfoldable pub push_batch : List Packet → Channel Packet → Channel Packet × Bool
  unfolding reopen
  push_batch packets c =
      if leb c.max_capacity (length c.queue)
      then (record c { dropped = (c.dropped + length packets) % 2 ^ 64; is_full = true }, false)
      else (record (reopen c) { queue = c.queue ++ packets }, true)

  -- The channel as the wait leaves it, if there is nothing to take.
  unfoldable pub waited : (Channel Packet → Channel Packet) → Channel Packet → Channel Packet
  waited meanwhile c = elim c.queue [ [] ↦ meanwhile c | _ ↦ c ]

  unfoldable pub pop_front : Channel Packet → Channel Packet × Option Packet
  pop_front c = elim c.queue [ [] ↦ (c, none) | pkt ∷ rest ↦ (record c { queue = rest }, some pkt) ]

  unfoldable pub wait_for_packet :
      (Channel Packet → Channel Packet) → Channel Packet → Channel Packet × Option Packet
  unfolding waited pop_front
  wait_for_packet meanwhile c = pop_front (waited meanwhile c)

  -- The loop that moves at most `room` more packets from the queue to the batch.
  unfoldable pub fill_batch : ℕ → List Packet → List Packet → List Packet × List Packet
  fill_batch zero queue batch = (queue, batch)
  fill_batch (suc room) [] batch = ([], batch)
  fill_batch (suc room) (pkt ∷ queue) batch = fill_batch room queue (batch ++ (pkt ∷ []))

  unfoldable pub wait_for_packets :
      (Channel Packet → Channel Packet) → ℕ → Channel Packet → Channel Packet × List Packet
  unfolding waited fill_batch
  wait_for_packets meanwhile max_batch_size c =
      let c' = waited meanwhile c in
      let (queue, batch) = fill_batch max_batch_size c'.queue [] in
      (record c' { queue = queue }, batch)

-- What a thread may do to the channel.
pub data Event {ℓ} (Packet : Type ℓ) : Type ℓ where
  pushes : Packet → Event Packet
  pushes_batch : List Packet → Event Packet
  takes : Event Packet
  takes_batch : ℕ → Event Packet

pub record Trace {ℓ} (Packet : Type ℓ) : Type ℓ where
  pub channel : Channel Packet
  pub accepted : List Packet
  pub delivered : List Packet

module _ {ℓ} {Packet : Type ℓ} where
  abbrev pub to_list : Option Packet → List Packet
  to_list none = []
  to_list (some pkt) = pkt ∷ []

  -- One call. A thread that has to wait finds the channel changed by the calls made before it.
  unfoldable pub step : Event Packet → Channel Packet → Trace Packet
  unfolding push push_batch wait_for_packet wait_for_packets
  step (pushes pkt) c =
      let (c', ok) = push pkt c in
      record { channel = c'; accepted = if ok then pkt ∷ [] else []; delivered = [] }
  step (pushes_batch packets) c =
      let (c', ok) = push_batch packets c in
      record { channel = c'; accepted = if ok then packets else []; delivered = [] }
  step takes c =
      let (c', pkt) = wait_for_packet (λ d. d) c in
      record { channel = c'; accepted = []; delivered = to_list pkt }
  step (takes_batch max_batch_size) c =
      let (c', batch) = wait_for_packets (λ d. d) max_batch_size c in
      record { channel = c'; accepted = []; delivered = batch }

  -- The calls of all threads, in the order in which they took the mutex.
  unfoldable pub run : List (Event Packet) → Channel Packet → Trace Packet
  unfolding step
  run [] c = record { channel = c; accepted = []; delivered = [] }
  run (e ∷ events) c =
      let t = step e c in
      let u = run events t.channel in
      record {
        channel = u.channel;
        accepted = t.accepted ++ u.accepted;
        delivered = t.delivered ++ u.delivered;
      }
