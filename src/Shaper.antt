-- ===== src/Shaper.antt =====
-- src/fptn-server/traffic_shaper/leaky_bucket.cpp. A time point of the steady clock is its number
-- of nanoseconds; sizes are `std::size_t`, of 64 bits.
mod Tests
use fptn_keenetic.Base.{
  ℕ, zero, suc, ◌+◌, ◌-◌, ◌*◌, ◌/◌, ◌%◌, ◌^◌, ◌≤◌, ◌<◌, ◌≡◌, ◌≢◌, ◌⊎◌, refl, List, [], ◌∷◌, arith,
  Bool, true, false, ltb, if◌then◌else◌, All,
}

pub record LeakyBucket : Type 0 where
  pub current_amount : ℕ
  pub max_bytes_per_second : ℕ
  pub last_leak_time : ℕ
  pub full_data_amount : ℕ

abbrev pub size_mod : ℕ
size_mod = 2 ^ 64

-- The constructor, at the time `now`.
unfoldable pub create : ℕ → ℕ → LeakyBucket
create max_bites_per_second now = record {
  current_amount = 0;
  max_bytes_per_second = max_bites_per_second / 8;
  last_leak_time = now;
  full_data_amount = 0;
}

-- `duration_cast<milliseconds>`; the steady clock does not run backwards.
abbrev pub elapsed : LeakyBucket → ℕ → ℕ
elapsed b now = (now - b.last_leak_time) / 1_000_000

-- The bucket after the call, and whether the packet may pass.
unfoldable pub check_speed_limit : LeakyBucket → ℕ → ℕ → LeakyBucket × Bool
check_speed_limit b packet_size now =
    if ltb (elapsed b now) 1000
    then (if ltb ((b.current_amount + packet_size) % size_mod) b.max_bytes_per_second
        then (
          record b {
            current_amount = (b.current_amount + packet_size) % size_mod;
            full_data_amount = (b.full_data_amount + packet_size) % size_mod;
          },
          true,
        )
        else (b, false))
    else (record b { last_leak_time = now; current_amount = packet_size }, true)

-- A packet and the time at which it arrives.
pub record Arrival : Type 0 where
  pub size : ℕ
  pub time : ℕ

abbrev pub passed : Bool → ℕ → ℕ
passed ok size = if ok then size else 0

-- The bucket after a series of packets, and the number of bytes that passed.
unfoldable pub run : LeakyBucket → List Arrival → LeakyBucket × ℕ
run b [] = (b, 0)
run b (a ∷ rest) =
    let (b', ok) = check_speed_limit b a.size a.time in
    let (b'', bytes) = run b' rest in (b'', passed ok a.size + bytes)

-- The packet arrives within a second of the leak, and no sum of its size and `cap` wraps.
abbrev pub InWindow : ℕ → ℕ → Arrival → Type 0
InWindow leak cap a = ((a.time - leak) / 1_000_000 < 1000) × (cap + a.size ≤ size_mod)

-- Within one second after a leak, what passes keeps the bucket under its limit: the bytes that
-- passed are all counted, and unless none passed the count ends below `max_bytes_per_second`. Here
-- `cap` bounds what the bucket holds and its limit, and no packet is so large that a sum wraps.
pub run-limit :
    (cap : ℕ) (b : LeakyBucket) (arrivals : List Arrival)
    → b.current_amount < cap
    → b.max_bytes_per_second ≤ cap
    → All (InWindow b.last_leak_time cap) arrivals
    → let (b', bytes) = run b arrivals in
      (b'.current_amount ≡ b.current_amount + bytes)
      × ((bytes ≡ 0) ⊎ (b.current_amount + bytes < b.max_bytes_per_second))
unfolding run check_speed_limit
run-limit cap b [] h k w = ground arith
run-limit cap b (a ∷ rest) h k w = ground (
  arith,
  run-limit cap b rest h k w.1,
  run-limit cap
      (record b {
        current_amount = (b.current_amount + a.size) % size_mod;
        full_data_amount = (b.full_data_amount + a.size) % size_mod;
      })
      rest,
)

-- The packet that finds a second gone by is let through whatever its size, opens a new second, and
-- is missing from the amount that the statistics report.
pub check-uncounted :
    (b : LeakyBucket) (packet_size now : ℕ)
    → 1000 ≤ elapsed b now
    → 0 < packet_size
    → b.full_data_amount + packet_size < size_mod
    → let (b', ok) = check_speed_limit b packet_size now in
      (ok ≡ true)
      × (b'.current_amount ≡ packet_size)
      × (b'.last_leak_time ≡ now)
      × (b'.full_data_amount ≢ (b.full_data_amount + packet_size) % size_mod)
unfolding check_speed_limit
check-uncounted b packet_size now h k w = ground arith
