-- ===== src/Channel/Capacity.antt =====
-- How far the queue of src/common/data/channel.h grows, and what its counter of lost packets says.
use fptn_keenetic.Base.{
  ℕ, ◌+◌, ◌≤◌, ◌<◌, ◌≡◌, List, [], ◌∷◌, arith, true, false, All, length, length-append, length-drop,
}
use fptn_keenetic.Channel.{
  Channel, Event, pushes, pushes_batch, takes, takes_batch, push, push_batch, reopen, pop_front,
  wait_for_packet, wait_for_packets, step, run, create,
}
use fptn_keenetic.Channel.Fifo.{fill_batch_lem, waited_undisturbed}

module _ {ℓ} {Packet : Type ℓ} where
  -- No batch is longer than `n`.
  abbrev pub Batches : ℕ → Event Packet → Type 0
  Batches n (pushes pkt) = Unit
  Batches n (pushes_batch packets) = length packets ≤ n
  Batches n takes = Unit
  Batches n (takes_batch k) = Unit

  -- The queue is over its capacity by `n` packets at most, and packets are counted as lost only
  -- while the channel is marked full.
  pub record IsBounded (n cap : ℕ) (c : Channel Packet) : Type 0 where
    pub fixed : c.max_capacity ≡ cap
    pub bounded : length c.queue ≤ cap + n
    pub counted : c.is_full ≡ false → c.dropped ≡ 0

  step-IsBounded :
      (n cap : ℕ) (e : Event Packet) (c : Channel Packet)
      → 0 < n
      → Batches n e
      → IsBounded n cap c
      → IsBounded n cap (step e c).channel
  unfolding step push push_batch reopen wait_for_packet pop_front wait_for_packets
  step-IsBounded n cap (pushes pkt) c h b v =
      ground (arith, length-append c.queue (pkt ∷ []), v.counted)
  step-IsBounded n cap (pushes_batch packets) c h b v =
      ground (arith, length-append c.queue packets, v.counted)
  step-IsBounded n cap takes c h b v = rw (waited_undisturbed c) (ground (arith, v.counted))
  step-IsBounded n cap (takes_batch k) c h b v =
      rw (waited_undisturbed c, fill_batch_lem k c.queue [])
        (ground (arith, length-drop k c.queue, v.counted))

  -- Where `n` is positive and no batch has more than `n` packets, a channel that starts so keeps it
  -- through all events: the queue holds at most the capacity and `n` packets, and while the channel
  -- is not marked full no lost packet is counted.
  pub run-IsBounded :
      (n cap : ℕ) (events : List (Event Packet)) (c : Channel Packet)
      → 0 < n
      → All (Batches n) events
      → IsBounded n cap c
      → IsBounded n cap (run events c).channel
  unfolding run
  run-IsBounded n cap [] c h b v = v
  run-IsBounded n cap (e ∷ events) c h b v =
      run-IsBounded n cap events (step e c).channel h b.1 (step-IsBounded n cap e c h b.0 v)

  pub create-IsBounded : (n cap : ℕ) → IsBounded n cap (create cap)
  unfolding create
  create-IsBounded n cap = ground arith

  -- A channel that holds `max_capacity` packets takes one more from `Push`, though `PushBatch`
  -- finds it full and refuses even a single packet.
  pub push_beyond_capacity :
      (pkt : Packet) (c : Channel Packet)
      → length c.queue ≡ c.max_capacity
      → ((push pkt c).1 ≡ true)
        × (length (push pkt c).0.queue ≡ c.max_capacity + 1)
        × ((push_batch (pkt ∷ []) c).1 ≡ false)
  unfolding push push_batch reopen
  push_beyond_capacity pkt c h = ground (arith, length-append c.queue (pkt ∷ []))
