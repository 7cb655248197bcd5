-- ===== src/RingBuffer/Deadline.antt =====
-- `get_timeout_time`: the absolute time at which a timed wait gives up.
use c_simples.Prelude.{ℕ, ◌+◌, ◌*◌, ◌<◌, ◌≡◌, some, arith}
use c_simples.RingBuffer.{Time, get_timeout_time}

-- Given a valid time of day (fewer than 10^6 microseconds), the deadline is a valid `timespec` (fewer
-- than 10^9 nanoseconds) and lies exactly `timeout_ms` milliseconds after it.
pub get_timeout_time_lem :
    (tv ts : Time) (timeout_ms : ℕ)
    → tv.frac < 1000000
    → get_timeout_time (some tv) timeout_ms ≡ some ts
    → (ts.frac < 1000000000)
      × (ts.sec * 1000000000 + ts.frac
          ≡ tv.sec * 1000000000 + tv.frac * 1000 + timeout_ms * 1000000)
unfolding get_timeout_time
get_timeout_time_lem tv ts timeout_ms h e = ground arith
