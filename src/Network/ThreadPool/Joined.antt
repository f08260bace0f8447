-- ===== src/Network/ThreadPool/Joined.antt =====
-- Every task that was handed to the pool of src/network/ThreadPool.cpp runs once, and the threads return.
use mathlib.Core.List
use my_network_library.Prelude.{
  ℕ, zero, suc, ◌<◌, ◌≤◌, ◌≡◌, refl, ap, ◌∙◌, ◌⊎◌, inl, inr, Bool, true, false, ◌||◌, List, [], ◌∷◌,
  ◌==◌, length, arith, Bool-cases, ltb, ltb→lt,
}
use my_network_library.Network.ThreadPool.{
  Worker, ready, asleep, busy, started, returned, ThreadPool, worker_turn, turn_at, turn,
  request_stop, turns, notify_all, wake, shut_down, is_asleep,
}
use my_network_library.Network.ThreadPool.Reached.{
  Reached, stopped, Reached-Holds, notify_all-Holds, Holds, turn-Holds, Quiet, count, count_held,
}

-- the thread with a number; one that is not there has returned
abbrev pub get_worker : ℕ → List Worker → Worker
get_worker j [] = returned
get_worker zero (w ∷ ws) = w
get_worker (suc j) (w ∷ ws) = get_worker j ws

abbrev pub member : ℕ → List ℕ → Bool
member j [] = false
member j (i ∷ is) = (i == j) || member j is

-- no thread is blocked in its wait
abbrev Awake : List Worker → Type 0
Awake [] = Unit
Awake (w ∷ ws) = (is_asleep w ≡ false) × Awake ws

Awake-wake : (ws : List Worker) → Awake (List.map wake ws)
unfolding wake
Awake-wake [] = tt
Awake-wake (ready ∷ ws) = (refl, Awake-wake ws)
Awake-wake (asleep ∷ ws) = (refl, Awake-wake ws)
Awake-wake (busy t ∷ ws) = (refl, Awake-wake ws)
Awake-wake (started t ∷ ws) = (refl, Awake-wake ws)
Awake-wake (returned ∷ ws) = (refl, Awake-wake ws)

-- once the pool is stopped, no thread blocks again
Awake-turn_at :
    (i : ℕ) (ws : List Worker) (tasks : List ℕ) → Awake ws → Awake (turn_at i ws tasks true).0
unfolding turn_at worker_turn
Awake-turn_at i [] ts a = tt
Awake-turn_at zero (ready ∷ ws) [] a = (refl, a.1)
Awake-turn_at zero (ready ∷ ws) (t ∷ ts) a = (refl, a.1)
Awake-turn_at zero (asleep ∷ ws) ts a = cc a.0
Awake-turn_at zero (busy x ∷ ws) ts a = (refl, a.1)
Awake-turn_at zero (started x ∷ ws) ts a = (refl, a.1)
Awake-turn_at zero (returned ∷ ws) ts a = (refl, a.1)
Awake-turn_at (suc i) (w ∷ ws) ts a = (a.0, Awake-turn_at i ws ts a.1)

get_worker-turn_at :
    (i j : ℕ) (ws : List Worker)
    → Quiet ws
    → Awake ws
    → (get_worker j ws ≡ returned) ⊎ ((i == j) ≡ true)
    → get_worker j (turn_at i ws [] true).0 ≡ returned
unfolding turn_at worker_turn
get_worker-turn_at i j [] q a h = refl
get_worker-turn_at zero zero (ready ∷ ws) q a h = refl
get_worker-turn_at zero zero (asleep ∷ ws) q a h = cc a.0
get_worker-turn_at zero zero (busy x ∷ ws) q a h = cc q.0
get_worker-turn_at zero zero (started x ∷ ws) q a h = refl
get_worker-turn_at zero zero (returned ∷ ws) q a h = refl
get_worker-turn_at zero (suc j) (w ∷ ws) q a (inl h) = h
get_worker-turn_at zero (suc j) (w ∷ ws) q a (inr h) = ground arith
get_worker-turn_at (suc i) zero (w ∷ ws) q a (inl h) = h
get_worker-turn_at (suc i) zero (w ∷ ws) q a (inr h) = ground arith
get_worker-turn_at (suc i) (suc j) (w ∷ ws) q a (inl h) = get_worker-turn_at i j ws q.1 a.1 (inl h)
get_worker-turn_at (suc i) (suc j) (w ∷ ws) q a (inr h) =
    get_worker-turn_at i j ws q.1 a.1 (inr (ground (arith, h)))

get_worker-turn :
    (ts : List ℕ) (i j : ℕ) (p : ThreadPool)
    → Holds ts p
    → p.stop ≡ true
    → Awake p.workers
    → (get_worker j p.workers ≡ returned) ⊎ ((i == j) ≡ true)
    → get_worker j (turn i p).workers ≡ returned
unfolding turn
get_worker-turn ts i j p h s a g =
    ap (λ k. get_worker j (turn_at i p.workers k p.stop).0) h.none_queued
    ∙ ap (λ b. get_worker j (turn_at i p.workers [] b).0) s
    ∙ get_worker-turn_at i j p.workers h.quiet a g

Awake-turn : (i : ℕ) (p : ThreadPool) → p.stop ≡ true → Awake p.workers → Awake (turn i p).workers
unfolding turn
Awake-turn i p s a = rw s (Awake-turn_at i p.workers p.tasks a)

stop-turns : (is : List ℕ) (p : ThreadPool) → (turns is p).stop ≡ p.stop
unfolding turns turn
stop-turns [] p = refl
stop-turns (i ∷ is) p = stop-turns is (turn i p)

turns-Holds : (is ts : List ℕ) (p : ThreadPool) → Holds ts p → Holds ts (turns is p)
unfolding turns
turns-Holds [] ts p h = h
turns-Holds (i ∷ is) ts p h = turns-Holds is ts (turn i p) (turn-Holds i ts p h)

get_worker-turns :
    (is ts : List ℕ) (j : ℕ) (p : ThreadPool)
    → Holds ts p
    → p.stop ≡ true
    → Awake p.workers
    → (get_worker j p.workers ≡ returned) ⊎ (member j is ≡ true)
    → get_worker j (turns is p).workers ≡ returned
unfolding turns
get_worker-turns [] ts j p h s a (inl g) = g
get_worker-turns [] ts j p h s a (inr g) = cc
get_worker-turns (i ∷ is) ts j p h s a (inl g) =
    get_worker-turns is ts j (turn i p) (turn-Holds i ts p h) (unfold turn in s)
      (Awake-turn i p s a) (inl (get_worker-turn ts i j p h s a (inl g)))
get_worker-turns (i ∷ is) ts j p h s a (inr g) = elim (Bool-cases (i == j)) [
  | inl e ↦
      get_worker-turns is ts j (turn i p) (turn-Holds i ts p h) (unfold turn in s)
        (Awake-turn i p s a) (inl (get_worker-turn ts i j p h s a (inr e)))
  | inr e ↦
      get_worker-turns is ts j (turn i p) (turn-Holds i ts p h) (unfold turn in s)
        (Awake-turn i p s a) (inr (ground (arith, e, g)))
]

count_held-returned :
    (t : ℕ) (ws : List Worker) → ((j : ℕ) → get_worker j ws ≡ returned) → count_held t ws ≡ 0
count_held-returned t [] h = refl
count_held-returned t (ready ∷ ws) h = cc (h 0)
count_held-returned t (asleep ∷ ws) h = cc (h 0)
count_held-returned t (busy x ∷ ws) h = cc (h 0)
count_held-returned t (started x ∷ ws) h = cc (h 0)
count_held-returned t (returned ∷ ws) h = count_held-returned t ws (λ j. h (suc j))

beyond : (j : ℕ) (ws : List Worker) → length ws ≤ j → get_worker j ws ≡ returned
beyond j [] h = refl
beyond zero (w ∷ ws) h = absurd (omega (arith, h))
beyond (suc j) (w ∷ ws) h = beyond j ws (omega (arith, h))

-- all threads have returned, and each task has run as often as it was added
pub record Joined (ts : List ℕ) (p : ThreadPool) : Type 0 where
  pub all_returned : (j : ℕ) → get_worker j p.workers ≡ returned
  pub counted : (t : ℕ) → count t p.ran ≡ count t ts

-- In whatever order threads take turns before the destructor notifies them, in every order of turns
-- in which each thread comes at least once after that, all threads return, so the destructor's joins
-- do, and every task that was added has run exactly as often as it was added. A thread that is
-- blocked in its wait goes on only once it is notified.
pub turns-Joined :
    (n : ℕ) (ts js is : List ℕ) (p : ThreadPool)
    → Reached n ts p
    → ((j : ℕ) → j < length (shut_down js p).workers → member j is ≡ true)
    → Joined ts (turns is (shut_down js p))
unfolding shut_down notify_all
turns-Joined n ts js is p r fair =
    let q = turns js (request_stop p) in
    let h = notify_all-Holds ts q (turns-Holds js ts _ (Reached-Holds n ts _ (stopped r))) in
    let s = stop-turns js (request_stop p) ∙ unfold request_stop in refl in
    let ws = (notify_all q).workers in
    let all : (j : ℕ) → get_worker j (turns is (notify_all q)).workers ≡ returned = λ j.
      get_worker-turns is ts j (notify_all q) h s (Awake-wake q.workers)
        (elim (Bool-cases (ltb j (length ws))) [
          | inl l ↦ inr (fair j (ltb→lt j (length ws) l))
          | inr l ↦ inl (beyond j ws (ground (arith, l)))
        ]) in
    let e = turns-Holds is ts (notify_all q) h in
    record {
      all_returned = all;
      counted = λ t.
          omega (arith, e.counted t, count_held-returned t (turns is (notify_all q)).workers all);
    }
