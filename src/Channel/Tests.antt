-- ===== src/Channel/Tests.antt =====
-- Runs of the channel of src/common/data/channel.h.
use fptn_keenetic.Base.{ℕ, ◌≡◌, refl, List, [], ◌∷◌, ◌++◌, arith, true}
use fptn_keenetic.Channel.{
  Channel, Event, pushes, pushes_batch, takes, takes_batch, create, reopen, push, push_batch,
  waited, pop_front, wait_for_packet, fill_batch, wait_for_packets, step, run,
}
use fptn_keenetic.Channel.Fifo.{run-fifo}
use fptn_keenetic.Channel.Capacity.{IsBounded, create-IsBounded, run-IsBounded}

program : Unit {0}
unfolding create reopen push push_batch waited pop_front wait_for_packet fill_batch wait_for_packets
    step run
program = tt

abbrev two : Channel ℕ
two = create 2

abbrev events : List (Event ℕ)
events = pushes 1 ∷ pushes_batch (2 ∷ 3 ∷ []) ∷ pushes 4 ∷ takes ∷ takes_batch 5 ∷ []

-- The fourth packet finds three in the queue and is lost.
main :
    ((run events two).delivered ≡ 1 ∷ 2 ∷ 3 ∷ [])
    × ((run events two).channel.dropped ≡ 1)
    × ((run events two).channel.is_full ≡ true)
unfolding program
main = (refl, refl, refl)

run-fifo_example :
    two.queue ++ (run events two).accepted
    ≡ (run events two).delivered ++ (run events two).channel.queue
unfolding program
run-fifo_example = run-fifo events two

run-IsBounded_example : IsBounded 2 2 (run events two).channel
unfolding program
run-IsBounded_example =
    run-IsBounded 2 2 events two (omega arith) (tt, (omega arith, (tt, (tt, (tt, tt)))))
      (create-IsBounded 2 2)

abbrev full : Channel ℕ
full = record two { queue = 1 ∷ 2 ∷ [] }
