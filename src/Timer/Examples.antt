-- ===== src/Timer/Examples.antt =====
-- Runs of the timers of src/timer/ on concrete data.
use my_network_library.Prelude.{ℕ, ◌+◌, ◌≡◌, ◌⊎◌, true, false, none, List, [], ◌∷◌, ltb, arith}
use my_network_library.Timer.Node.{TimeVal, Interval, TimerNode, get_now, is_valid, construct}
use my_network_library.Timer.Clock.{construct-never}
use my_network_library.Timer.Queue.{TimerQueue, insert}
use my_network_library.Timer.Queue.Order.{IsOrdered, OnTop, insert-IsOrdered}

-- whole milliseconds
abbrev whole : Interval
whole = record { Double = ℕ; is_positive = λ n. ltb 0 n; add = λ e n. e + n }

abbrev node : ℕ → ℕ → TimerNode whole
node cb e = record { callback = cb; expiration = e; interval = 0; repeat = false; deleted = false }

abbrev some_nodes : List (TimerNode whole)
some_nodes = node 1 10 ∷ node 2 2500 ∷ []

some_nodes-IsOrdered : IsOrdered whole some_nodes
some_nodes-IsOrdered = ((omega arith, tt), (tt, tt))

abbrev a_time : TimeVal
a_time = record { sec = 1; usec = 0 }

insert-IsOrdered_example :
    IsOrdered whole (insert whole (node 3 700) some_nodes).1
    × (((insert whole (node 3 700) some_nodes).0 ≡ true)
          × OnTop whole (node 3 700) (insert whole (node 3 700) some_nodes).1
        ⊎ ((insert whole (node 3 700) some_nodes).0 ≡ false)
          × (u : TimerNode whole) × OnTop whole u some_nodes
          × OnTop whole u (insert whole (node 3 700) some_nodes).1)
insert-IsOrdered_example = insert-IsOrdered whole (node 3 700) some_nodes some_nodes-IsOrdered

abbrev repeating : TimerQueue whole
repeating = record {
  nodes = record (node 1 10) { interval = 5000; repeat = true } ∷ node 2 900 ∷ node 3 2500 ∷ [];
  timerfd = none;
  ran = [];
}

abbrev three_times : List TimeVal
three_times = a_time ∷ a_time ∷ a_time ∷ []

construct-never_example :
    (is_valid whole
      (record { sec = 10001; usec = 5 })
      (construct whole (record { sec = 9999; usec = 0 }) 1 1500 0)).0
    ≡ true
unfolding get_now
construct-never_example =
    construct-never whole (record { sec = 9999; usec = 0 }) (record { sec = 10001; usec = 5 }) 1
      1500 0 (omega arith) (omega arith) (omega arith)
