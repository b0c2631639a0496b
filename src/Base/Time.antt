-- ===== src/Base/Time.antt =====
-- `s_sleep` and `s_clock` of src/base.c, on numbers that are not negative. The seconds are small
-- enough that no product leaves 64 bits.
use zmq_test.Common.{ℕ, ◌+◌, ◌*◌, ◌/◌, ◌%◌, ◌≤◌, ◌<◌, ◌≡◌, arith}

-- `struct timespec`
pub record Timespec : Type 0 where
  pub tv_sec : ℕ
  pub tv_nsec : ℕ

-- What `s_sleep` gives to `nanosleep`.
pub s_sleep : ℕ → Timespec
s_sleep msecs = record { tv_sec = msecs / 1000; tv_nsec = msecs % 1000 * 1000000 }

-- What `s_clock` stores, from what `gettimeofday` gives.
pub s_clock : ℕ → ℕ → ℕ
s_clock tv_sec tv_usec = tv_sec * 1000 + tv_usec / 1000

-- The pause is the one that is asked for, and its nanoseconds make up less than a second, as
-- `nanosleep` wants them.
pub s_sleep_lem :
    (msecs : ℕ)
    → ((s_sleep msecs).tv_nsec < 1000000000)
      × ((s_sleep msecs).tv_sec * 1000000000 + (s_sleep msecs).tv_nsec ≡ msecs * 1000000)
unfolding s_sleep
s_sleep_lem msecs = (omega arith, omega arith)

-- A reading counts the whole milliseconds of the time, so a later time does not read less.
pub s_clock_lem :
    (sec usec sec' usec' : ℕ)
    → sec * 1000000 + usec ≤ sec' * 1000000 + usec'
    → (s_clock sec usec ≤ s_clock sec' usec')
      × (s_clock sec usec * 1000 ≤ sec * 1000000 + usec)
      × (sec * 1000000 + usec < (s_clock sec usec + 1) * 1000)
unfolding s_clock
s_clock_lem sec usec sec' usec' h = (omega arith, omega arith, omega arith)
