-- ===== src/Timer/Queue/Drain.antt =====
-- The loop of `handleRead` of src/timer/TimerQueue.cpp ends, and runs what is due.
use my_network_library.Prelude.{
  ℕ, suc, ◌≤◌, ◌<◌, ◌≡◌, true, Option, some, List, [], ◌∷◌, ◌++◌, leb, if◌then◌else◌,
}
use my_network_library.Timer.Node.{TimeVal, Interval, TimerNode, get_now}
use my_network_library.Timer.Queue.{TimerQueue}
use my_network_library.Timer.Queue.Order.{IsOrdered}

module _ (I : Interval) where
  abbrev pub callbacks : List (TimerNode I) → List ℕ
  callbacks [] = []
  callbacks (t ∷ ts) = t.callback ∷ callbacks ts

  -- the readings of the clock lie between `lo` and `hi`
  abbrev pub Between : ℕ → ℕ → List TimeVal → Type 0
  Between lo hi [] = Unit
  Between lo hi (now ∷ nows) = (lo ≤ get_now now) × (get_now now ≤ hi) × Between lo hi nows

  abbrev pub UpTo : ℕ → List (TimerNode I) → Type 0
  UpTo hi [] = Unit
  UpTo hi (t ∷ ts) = (t.expiration ≤ hi) × UpTo hi ts

  abbrev pub After : ℕ → List (TimerNode I) → Type 0
  After lo [] = Unit
  After lo (t ∷ ts) = (lo < t.expiration) × After lo ts

  -- a node that repeats is next due after `hi`
  abbrev pub Advance : ℕ → List (TimerNode I) → Type 0
  Advance hi [] = Unit
  Advance hi (t ∷ ts) =
      (t.expiration ≤ hi → t.repeat ≡ true → hi < I.add t.expiration t.interval) × Advance hi ts

  abbrev pub count_due : ℕ → List (TimerNode I) → ℕ
  count_due hi [] = 0
  count_due hi (t ∷ ts) = if leb t.expiration hi then suc (count_due hi ts) else count_due hi ts

  -- the run of the loop
  pub record Drained (lo hi : ℕ) (nodes : List (TimerNode I)) (ran : List ℕ)
      (run : Option (TimerQueue I)) : Type 0 where
    pub next : TimerQueue I
    pub done : List (TimerNode I)
    pub rest : List (TimerNode I)
    pub ends : run ≡ some next
    pub split : nodes ≡ done ++ rest
    pub called : next.ran ≡ ran ++ callbacks done
    pub due : UpTo hi done
    pub left : After lo next.nodes
    pub ordered : IsOrdered I next.nodes
