-- ===== src/Network/ThreadPool.antt =====
-- `ThreadPool` of src/network/include/ThreadPool.h and src/network/ThreadPool.cpp. A turn is what a thread does
-- from one release of the mutex to the next.
pub mod Reached
pub mod Joined
use my_network_library.Prelude.{
  ℕ, zero, suc, Bool, true, false, Option, none, some, List, [], ◌∷◌, ◌++◌, if◌then◌else◌, ◌||◌,
}
use mathlib.Core.List

-- A thread of `workers_`: one that is about to test the condition of its wait, one that is blocked in
-- the wait, one with a task from the queue, one that `Add` has started with its task, and one that has
-- returned. Tasks are numbers.
pub data Worker : Type 0 where
  ready : Worker
  asleep : Worker
  busy : ℕ → Worker
  started : ℕ → Worker
  returned : Worker

pub record ThreadPool : Type 0 where
  pub workers : List Worker
  pub tasks : List ℕ
  pub stop : Bool
  -- the tasks that have run, in their order
  pub ran : List ℕ

abbrev pub copies : ℕ → List Worker
copies zero = []
copies (suc n) = ready ∷ copies n

-- the constructor, with the number of threads
unfoldable pub construct : ℕ → ThreadPool
construct size = record { workers = copies size; tasks = []; stop = false; ran = [] }

-- the part of `Add` under the mutex; `none` when it throws
unfoldable pub add : ℕ → ThreadPool → Option ThreadPool
add task p = if p.stop then none else some (record p { workers = p.workers ++ started task ∷ [] })

-- A turn of a thread: what it is then, the queue, and the tasks it has run. A thread that is blocked in
-- its wait stays so until it is notified.
unfoldable pub worker_turn : Worker → List ℕ → Bool → Worker × List ℕ × List ℕ
worker_turn ready [] true = (returned, [], [])
worker_turn ready [] false = (asleep, [], [])
worker_turn ready (t ∷ ts) stop = (busy t, ts, [])
worker_turn asleep tasks stop = (asleep, tasks, [])
worker_turn (busy t) tasks stop = (ready, tasks, t ∷ [])
worker_turn (started t) tasks stop = (returned, tasks, t ∷ [])
worker_turn returned tasks stop = (returned, tasks, [])

-- a turn of the thread with a number
unfoldable pub turn_at : ℕ → List Worker → List ℕ → Bool → List Worker × List ℕ × List ℕ
unfolding worker_turn
turn_at i [] tasks stop = ([], tasks, [])
turn_at zero (w ∷ ws) tasks stop =
    (let (w', tasks', ran) = worker_turn w tasks stop in (w' ∷ ws, tasks', ran))
turn_at (suc i) (w ∷ ws) tasks stop =
    (let (ws', tasks', ran) = turn_at i ws tasks stop in (w ∷ ws', tasks', ran))

unfoldable pub turn : ℕ → ThreadPool → ThreadPool
unfolding turn_at
turn i p =
    let (ws, tasks, ran) = turn_at i p.workers p.tasks p.stop in
    record p { workers = ws; tasks = tasks; ran = p.ran ++ ran }

-- `condition_variable_.notify_all()`
unfoldable pub wake : Worker → Worker
wake ready = ready
wake asleep = ready
wake (busy t) = busy t
wake (started t) = started t
wake returned = returned

unfoldable pub notify_all : ThreadPool → ThreadPool
unfolding wake
notify_all p = record p { workers = List.map wake p.workers }

abbrev pub is_asleep : Worker → Bool
is_asleep asleep = true
is_asleep ready = false
is_asleep (busy x) = false
is_asleep (started x) = false
is_asleep returned = false

abbrev pub any_asleep : List Worker → Bool
any_asleep [] = false
any_asleep (w ∷ ws) = is_asleep w || any_asleep ws

-- wakes the blocked thread after as many blocked ones as the number says, or else the last
unfoldable pub wake_one : ℕ → List Worker → List Worker
wake_one i [] = []
wake_one zero (asleep ∷ ws) = ready ∷ ws
wake_one (suc i) (asleep ∷ ws) = if any_asleep ws then asleep ∷ wake_one i ws else ready ∷ ws
wake_one i (ready ∷ ws) = ready ∷ wake_one i ws
wake_one i (busy t ∷ ws) = busy t ∷ wake_one i ws
wake_one i (started t ∷ ws) = started t ∷ wake_one i ws
wake_one i (returned ∷ ws) = returned ∷ wake_one i ws

-- `condition_variable_.notify_one()` of `Add`; the number says which blocked thread it wakes
unfoldable pub notify_one : ℕ → ThreadPool → ThreadPool
unfolding wake_one
notify_one i p = record p { workers = wake_one i p.workers }

-- the block of the destructor under the mutex
unfoldable pub request_stop : ThreadPool → ThreadPool
request_stop p = record p { stop = true }

-- turns of the threads in some order
unfoldable pub turns : List ℕ → ThreadPool → ThreadPool
unfolding turn
turns [] p = p
turns (i ∷ is) p = turns is (turn i p)

-- The destructor until it joins the threads; the numbers are the turns that the threads take between
-- its block under the mutex and its notification.
unfoldable pub shut_down : List ℕ → ThreadPool → ThreadPool
unfolding request_stop notify_all turns
shut_down is p = notify_all (turns is (request_stop p))
