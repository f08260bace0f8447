-- ===== src/Timer/Node.antt =====
-- `TimerNode` of src/timer/TimerNode.h and .cpp. A time is a number of milliseconds in a `size_t`; what
-- `gettimeofday` gives is an argument.
use my_network_library.Prelude.{ℕ, ◌+◌, ◌*◌, ◌/◌, ◌%◌, ◌^◌, Bool, true, false, ltb, if◌then◌else◌}

-- `tv_sec` and `tv_usec`
pub record TimeVal : Type 0 where
  pub sec : ℕ
  pub usec : ℕ

-- `TimerQueue::getNow`: the seconds are reduced modulo 10000
unfoldable pub get_now : TimeVal → ℕ
get_now t = (t.sec % 10000) * 1000 + t.usec / 1000

-- The intervals are `double`: what the node uses of them.
pub record Interval : Type 1 where
  pub Double : Type 0
  -- `interval > 0.0`
  pub is_positive : Double → Bool
  -- `expiration_ += interval_`
  pub add : ℕ → Double → ℕ

module _ (I : Interval) where
  pub record TimerNode : Type 0 where
    -- the number of the callback
    pub callback : ℕ
    pub expiration : ℕ
    pub interval : I.Double
    pub repeat : Bool
    pub deleted : Bool

  -- the constructor, of a `timeout` that is not negative
  unfoldable pub construct : TimeVal → ℕ → ℕ → I.Double → TimerNode
  unfolding get_now
  construct now cb timeout interval = record {
    callback = cb;
    expiration = (get_now now + timeout) % 2 ^ 64;
    interval = interval;
    repeat = I.is_positive interval;
    deleted = false;
  }

  unfoldable pub update : TimeVal → ℕ → TimerNode → TimerNode
  unfolding get_now
  update now timeout t = record t { expiration = (get_now now + timeout) % 2 ^ 64 }

  -- marks the node when its time has come
  unfoldable pub is_valid : TimeVal → TimerNode → Bool × TimerNode
  unfolding get_now
  is_valid now t =
      if ltb (get_now now) t.expiration then (true, t) else (false, record t { deleted = true })

  unfoldable pub restart : TimeVal → TimerNode → TimerNode
  unfolding get_now
  restart now t =
      if t.repeat
      then record t { expiration = I.add t.expiration t.interval; deleted = false }
      else record t { expiration = get_now now }
