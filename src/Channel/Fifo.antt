-- ===== src/Channel/Fifo.antt =====
-- The order of packets through src/common/data/channel.h.
use mathlib.Core.List.{append-nil, append_assoc}
use fptn_keenetic.Base.{
  ℕ, zero, suc, ◌≡◌, ◌∙◌, sym, ap, List, [], ◌∷◌, ◌++◌, arith, take, drop, take-append-drop,
}
use fptn_keenetic.Channel.{
  Channel, Event, pushes, pushes_batch, takes, takes_batch, push, push_batch, fill_batch, waited,
  pop_front, wait_for_packet, wait_for_packets, step, run,
}

module _ {ℓ} {Packet : Type ℓ} where
  -- The batch loop moves the first `n` packets of the queue.
  pub fill_batch_lem :
      (n : ℕ) (queue batch : List Packet)
      → fill_batch n queue batch ≡ (drop n queue, batch ++ take n queue)
  unfolding fill_batch
  fill_batch_lem zero queue batch = rw (append-nil batch)
  fill_batch_lem (suc n) [] batch = rw (append-nil batch)
  fill_batch_lem (suc n) (pkt ∷ queue) batch =
      fill_batch_lem n queue (batch ++ (pkt ∷ []))
      ∙ rw (append_assoc batch (pkt ∷ []) (take n queue))

  pub waited_undisturbed : (c : Channel Packet) → waited (λ d. d) c ≡ c
  unfolding waited
  waited_undisturbed c = ground arith

  step-fifo :
      (e : Event Packet) (c : Channel Packet)
      → c.queue ++ (step e c).accepted ≡ (step e c).delivered ++ (step e c).channel.queue
  unfolding step push push_batch wait_for_packet pop_front wait_for_packets
  step-fifo (pushes pkt) c = ground (arith, append-nil c.queue)
  step-fifo (pushes_batch packets) c = ground (arith, append-nil c.queue)
  step-fifo takes c = rw (waited_undisturbed c) (ground (arith, append-nil c.queue))
  step-fifo (takes_batch n) c =
      rw (waited_undisturbed c, fill_batch_lem n c.queue [], append-nil c.queue)
        (sym (take-append-drop n c.queue))

  -- Whatever the threads do, the packets come out in the order in which they were accepted: what
  -- was queued and accepted is what was delivered and is still queued.
  pub run-fifo :
      (events : List (Event Packet)) (c : Channel Packet)
      → c.queue ++ (run events c).accepted
        ≡ (run events c).delivered ++ (run events c).channel.queue
  unfolding run
  run-fifo [] c = append-nil c.queue
  run-fifo (e ∷ events) c =
      let t = step e c in
      sym (append_assoc c.queue t.accepted (run events t.channel).accepted)
      ∙ ap (λ q. q ++ (run events t.channel).accepted) (step-fifo e c)
      ∙ append_assoc t.delivered t.channel.queue (run events t.channel).accepted
      ∙ ap (λ q. t.delivered ++ q) (run-fifo events t.channel)
      ∙ sym (
          append_assoc t.delivered (run events t.channel).delivered
            (run events t.channel).channel.queue)
