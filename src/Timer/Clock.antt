-- ===== src/Timer/Clock.antt =====
-- The clock of src/timer/TimerQueue.cpp, which starts again every 10000 seconds, and the expirations of
-- src/timer/TimerNode.cpp, which do not.
use my_network_library.Prelude.{ℕ, ◌+◌, ◌^◌, ◌≤◌, ◌<◌, ◌≡◌, true, arith}
use my_network_library.Timer.Node.{TimeVal, Interval, get_now, construct, is_valid}

pub get_now_bounds : (now : TimeVal) → now.usec < 1000000 → get_now now < 10000000
unfolding get_now
get_now_bounds now h = omega (arith, h)

module _ (I : Interval) where
  -- A timer whose expiration, when it is made, lies at 10000000 ms or later is valid at every later
  -- reading of the clock, so it is never due.
  pub construct-never :
      (now later : TimeVal) (cb timeout : ℕ) (interval : I.Double)
      → later.usec < 1000000
      → 10000000 ≤ get_now now + timeout
      → get_now now + timeout < 2 ^ 64
      → (is_valid I later (construct I now cb timeout interval)).0 ≡ true
  unfolding is_valid construct
  construct-never now later cb timeout interval u l h = ground (arith, l, h, get_now_bounds later u)
