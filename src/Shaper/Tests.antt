-- ===== src/Shaper/Tests.antt =====
-- Runs of the shaper of src/fptn-server/traffic_shaper/leaky_bucket.cpp.
use fptn_keenetic.Base.{◌+◌, ◌<◌, ◌≡◌, ◌⊎◌, refl, List, [], ◌∷◌, arith, true}
use fptn_keenetic.Shaper.{LeakyBucket, Arrival, create, check_speed_limit, run, run-limit}

program : Unit {0}
unfolding create check_speed_limit run
program = tt

-- 8000 bits a second, from the time 0 on.
abbrev small : LeakyBucket
small = create 8000 0

-- The second packet would go over the 1000 bytes, the third finds the next second.
main :
    (check_speed_limit small 600 5 ≡ (
      record {
        current_amount = 600;
        max_bytes_per_second = 1000;
        last_leak_time = 0;
        full_data_amount = 600;
      },
      true,
    ))
    × ((run small (
          record { size = 600; time = 5 }
          ∷ record { size = 400; time = 6 }
          ∷ record { size = 4000; time = 1_000_000_000 }
          ∷ [])).1
        ≡ 4600)
unfolding program
main = (refl, refl)

abbrev two : List Arrival
two = record { size = 600; time = 5 } ∷ record { size = 300; time = 6 } ∷ []

run-limit_example :
    ((run small two).0.current_amount ≡ small.current_amount + (run small two).1)
    × (((run small two).1 ≡ 0)
        ⊎ (small.current_amount + (run small two).1 < small.max_bytes_per_second))
unfolding program
run-limit_example =
    run-limit 1000 small two (omega arith) (omega arith)
      ((omega arith, omega arith), ((omega arith, omega arith), tt))
