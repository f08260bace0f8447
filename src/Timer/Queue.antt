-- ===== src/Timer/Queue.antt =====
-- `TimerQueue` of src/timer/TimerQueue.h and .cpp. The priority queue is a list whose head is the top;
-- among nodes of one expiration the first inserted is on top, an order that `std::priority_queue` allows
-- and does not promise.
pub mod Order
pub mod Drain
use my_network_library.Prelude.{
  ℕ, zero, suc, ◌+◌, ◌-◌, ◌*◌, ◌/◌, ◌%◌, ◌^◌, ◌≤◌, ◌≡◌, Bool, true, false, Option, none, some, List,
  [], ◌∷◌, ◌++◌, ltb, if◌then◌else◌,
}
use my_network_library.Timer.Node.{
  TimeVal, Interval, TimerNode, get_now, construct, is_valid, restart,
}

module _ (I : Interval) where
  -- `push`, of a queue that is first in, first out among equal expirations
  unfoldable pub push : TimerNode I → List (TimerNode I) → List (TimerNode I)
  push t [] = t ∷ []
  push t (u ∷ us) = if ltb t.expiration u.expiration then t ∷ u ∷ us else u ∷ push t us

  -- whether the new node comes first
  abbrev pub comes_first : TimerNode I → List (TimerNode I) → Bool
  comes_first t [] = true
  comes_first t (u ∷ us) = ltb t.expiration u.expiration

  unfoldable pub insert : TimerNode I → List (TimerNode I) → Bool × List (TimerNode I)
  unfolding push
  insert t q = (comes_first t q, push t q)

  -- The time that `resetTimerfd` sets, in seconds and nanoseconds. The difference is that of two
  -- `size_t`, so a time in the past is far in the future.
  unfoldable pub reset_timerfd : TimeVal → ℕ → ℕ × ℕ
  unfolding get_now
  reset_timerfd now expiration =
      let dif = (expiration + 2 ^ 64 - get_now now) % 2 ^ 64 in
      let dif' = if ltb dif 100 then 100 else dif in (dif' / 1000, (dif' % 1000) * 1000000)

  pub record TimerQueue : Type 0 where
    pub nodes : List (TimerNode I)
    -- what the timer was last set to
    pub timerfd : Option (ℕ × ℕ)
    -- the callbacks that were run, in their order
    pub ran : List ℕ

  -- `addTimer`; `runInLoop` calls at once
  unfoldable pub add_timer : TimeVal → TimeVal → ℕ → ℕ → I.Double → TimerQueue → TimerQueue
  unfolding construct insert reset_timerfd
  add_timer now later cb timeout interval q =
      let t = construct I now cb timeout interval in
      let (changed, nodes) = insert t q.nodes in
      if changed
      then record q { nodes = nodes; timerfd = some (reset_timerfd later t.expiration) }
      else record q { nodes = nodes }

  -- the node that is put back after its callback
  abbrev pub again : TimeVal → TimerNode I → List (TimerNode I) → List (TimerNode I)
  again now t q = if t.repeat then (insert (restart I now t) q).1 else q

  -- The loop of `handleRead`, with a reading of the clock for each round and callbacks that leave
  -- the queue alone. `none` when the readings end first.
  unfoldable pub run_expired : List TimeVal → TimerQueue → Option TimerQueue
  unfolding is_valid insert restart
  run_expired [] q = elim q.nodes [ [] ↦ some q | t ∷ ts ↦ none ]
  run_expired (now ∷ nows) q = elim q.nodes [
    | [] ↦ some q
    | t ∷ ts ↦
        let dropped = run_expired nows (record q { nodes = ts }) in
        let marked : TimerNode I = record t { deleted = true } in
        let ran =
          run_expired nows
            (record q { nodes = again now marked ts; ran = q.ran ++ t.callback ∷ [] }) in
        if t.deleted then dropped else if (is_valid I now t).0 then some q else ran
  ]

  abbrev pub set_again : TimeVal → Option TimerQueue → Option TimerQueue
  set_again now none = none
  set_again now (some q) = elim q.nodes [
    | [] ↦ some q
    | t ∷ ts ↦ some (record q { timerfd = some (reset_timerfd now t.expiration) })
  ]

  -- `handleRead`, with the clock's reading for the new setting of the timer
  unfoldable pub handle_read : List TimeVal → TimeVal → TimerQueue → Option TimerQueue
  unfolding run_expired reset_timerfd
  handle_read nows now q = set_again now (run_expired nows q)

  -- `handleExpiredEvent`, which runs no callback
  unfoldable pub handle_expired_event : TimeVal → List (TimerNode I) → List (TimerNode I)
  unfolding is_valid
  handle_expired_event now [] = []
  handle_expired_event now (t ∷ ts) =
      let rest = handle_expired_event now ts in
      if t.deleted then rest else if (is_valid I now t).0 then t ∷ ts else rest
