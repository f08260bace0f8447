-- ===== src/Network/ThreadPool/Reached.antt =====
-- The states that the pool of src/network/ThreadPool.cpp can be in: the queue is never used.
use mathlib.Core.List
use my_network_library.Prelude.{
  inl, inr, Bool-cases, ℕ, zero, suc, ◌+◌, ◌≡◌, refl, sym, ap, Bool, true, false, none, some, List,
  [], ◌∷◌, ◌++◌, if◌then◌else◌, ◌==◌, arith,
}
use mathlib.Core.Option.{some-injective}
use mathlib.Core.Path.{subst}
use my_network_library.Network.ThreadPool.{
  Worker, ready, asleep, busy, started, returned, ThreadPool, copies, construct, add, worker_turn,
  turn_at, turn, request_stop, notify_all, notify_one, wake, wake_one, any_asleep,
}

-- the states a pool made with `n` threads can be in, after tasks were added
pub data Reached (n : ℕ) : List ℕ → ThreadPool → Type 0 where
  made : Reached n [] (construct n)
  added :
      {ts : List ℕ} {p q : ThreadPool} (t : ℕ)
      → Reached n ts p
      → add t p ≡ some q
      → Reached n (ts ++ t ∷ []) q
  turned : {ts : List ℕ} {p : ThreadPool} (i : ℕ) → Reached n ts p → Reached n ts (turn i p)
  stopped : {ts : List ℕ} {p : ThreadPool} → Reached n ts p → Reached n ts (request_stop p)
  notified : {ts : List ℕ} {p : ThreadPool} (i : ℕ) → Reached n ts p → Reached n ts (notify_one i p)

-- how often a task is in a list
abbrev pub count : ℕ → List ℕ → ℕ
count t [] = 0
count t (x ∷ xs) = if x == t then suc (count t xs) else count t xs

abbrev pub count_held : ℕ → List Worker → ℕ
count_held t [] = 0
count_held t (started x ∷ ws) = if x == t then suc (count_held t ws) else count_held t ws
count_held t (ready ∷ ws) = count_held t ws
count_held t (asleep ∷ ws) = count_held t ws
count_held t (busy x ∷ ws) = count_held t ws
count_held t (returned ∷ ws) = count_held t ws

count-append : (t : ℕ) (xs ys : List ℕ) → count t (xs ++ ys) ≡ count t xs + count t ys
count-append t [] ys = omega arith
count-append t (x ∷ xs) ys = ground (arith, count-append t xs ys)

count_held-append :
    (t : ℕ) (vs ws : List Worker) → count_held t (vs ++ ws) ≡ count_held t vs + count_held t ws
count_held-append t [] ws = omega arith
count_held-append t (started x ∷ vs) ws = ground (arith, count_held-append t vs ws)
count_held-append t (ready ∷ vs) ws = count_held-append t vs ws
count_held-append t (asleep ∷ vs) ws = count_held-append t vs ws
count_held-append t (busy x ∷ vs) ws = count_held-append t vs ws
count_held-append t (returned ∷ vs) ws = count_held-append t vs ws

abbrev pub is_busy : Worker → Bool
is_busy (busy x) = true
is_busy ready = false
is_busy asleep = false
is_busy (started x) = false
is_busy returned = false

-- no thread has a task from the queue
abbrev pub Quiet : List Worker → Type 0
Quiet [] = Unit
Quiet (w ∷ ws) = (is_busy w ≡ false) × Quiet ws

-- a turn while the queue is empty
record Turned (ws : List Worker) (run : List Worker × List ℕ × List ℕ) : Type 0 where
  still : run.1 ≡ []
  quiet : Quiet run.0
  counted : (t : ℕ) → count t run.2 + count_held t run.0 ≡ count_held t ws

turn_at-Turned :
    (i : ℕ) (ws : List Worker) (stop : Bool) → Quiet ws → Turned ws (turn_at i ws [] stop)
unfolding turn_at worker_turn
turn_at-Turned i [] stop q = record { still = refl; quiet = tt; counted = λ t. omega arith }
turn_at-Turned zero (ready ∷ ws) true q = record {
  still = refl;
  quiet = q;
  counted = λ t. omega arith;
}
turn_at-Turned zero (ready ∷ ws) false q = record {
  still = refl;
  quiet = q;
  counted = λ t. omega arith;
}
turn_at-Turned zero (asleep ∷ ws) stop q = record {
  still = refl;
  quiet = q;
  counted = λ t. omega arith;
}
turn_at-Turned zero (busy x ∷ ws) stop q = cc q.0
turn_at-Turned zero (started x ∷ ws) stop q = record {
  still = refl;
  quiet = q;
  counted = λ t. ground arith;
}
turn_at-Turned zero (returned ∷ ws) stop q = record {
  still = refl;
  quiet = q;
  counted = λ t. omega arith;
}
turn_at-Turned (suc i) (w ∷ ws) stop q =
    let r = turn_at-Turned i ws stop q.1 in
    record {
      still = r.still;
      quiet = (q.0, r.quiet);
      counted = λ t. counted_cons t w ws _ _ (r.counted t);
    }
  where
    counted_cons :
        (t : ℕ) (w : Worker) (ws vs : List Worker) (xs : List ℕ)
        → count t xs + count_held t vs ≡ count_held t ws
        → count t xs + count_held t (w ∷ vs) ≡ count_held t (w ∷ ws)
    counted_cons t ready ws vs xs h = h
    counted_cons t asleep ws vs xs h = h
    counted_cons t (busy x) ws vs xs h = h
    counted_cons t (started x) ws vs xs h = ground (arith, h)
    counted_cons t returned ws vs xs h = h

-- what holds of every state that is reached
pub record Holds (ts : List ℕ) (p : ThreadPool) : Type 0 where
  pub none_queued : p.tasks ≡ []
  pub quiet : Quiet p.workers
  pub counted : (t : ℕ) → count t p.ran + count_held t p.workers ≡ count t ts

Quiet-copies : (n : ℕ) → Quiet (copies n)
Quiet-copies zero = tt
Quiet-copies (suc n) = (refl, Quiet-copies n)

count_held-copies : (t n : ℕ) → count_held t (copies n) ≡ 0
count_held-copies t zero = refl
count_held-copies t (suc n) = count_held-copies t n

Quiet-append : (vs ws : List Worker) → Quiet vs → Quiet ws → Quiet (vs ++ ws)
Quiet-append [] ws q r = r
Quiet-append (v ∷ vs) ws q r = (q.0, Quiet-append vs ws q.1 r)

pub turn-Holds : (i : ℕ) (ts : List ℕ) (p : ThreadPool) → Holds ts p → Holds ts (turn i p)
unfolding turn
turn-Holds i ts p h =
    let r =
      subst (λ k. Turned p.workers (turn_at i p.workers k p.stop)) (sym h.none_queued)
        (turn_at-Turned i p.workers p.stop h.quiet) in
    record {
      none_queued = r.still;
      quiet = r.quiet;
      counted = λ t. omega (
        arith,
        r.counted t,
        h.counted t,
        count-append t p.ran (turn_at i p.workers p.tasks p.stop).2,
      );
    }

started-Holds :
    (t : ℕ) (ts : List ℕ) (p : ThreadPool)
    → Holds ts p
    → Holds (ts ++ t ∷ []) (record p { workers = p.workers ++ started t ∷ [] })
started-Holds t ts p h = record {
  none_queued = h.none_queued;
  quiet = Quiet-append p.workers (started t ∷ []) h.quiet (refl, tt);
  counted = λ u. ground (
    arith,
    h.counted u,
    count-append u ts (t ∷ []),
    count_held-append u p.workers (started t ∷ []),
  );
}

add-Holds :
    (t : ℕ) (ts : List ℕ) (p q : ThreadPool) (b : Bool)
    → Holds ts p
    → (if b then none else some (record p { workers = p.workers ++ started t ∷ [] })) ≡ some q
    → Holds (ts ++ t ∷ []) q
add-Holds t ts p q true h e = cc
add-Holds t ts p q false h e =
    subst (Holds (ts ++ t ∷ [])) (some-injective _ _ e) (started-Holds t ts p h)

-- waking threads changes neither the tasks they hold nor the queue
record Woken (ws vs : List Worker) : Type 0 where
  quiet : Quiet vs
  counted : (t : ℕ) → count_held t vs ≡ count_held t ws

Woken-cons :
    (w : Worker) (ws vs : List Worker) → Quiet (w ∷ ws) → Woken ws vs → Woken (w ∷ ws) (w ∷ vs)
Woken-cons w ws vs q r = record { quiet = (q.0, r.quiet); counted = λ t. cons t w (r.counted t) }
  where
    cons :
        (t : ℕ) (w : Worker)
        → count_held t vs ≡ count_held t ws
        → count_held t (w ∷ vs) ≡ count_held t (w ∷ ws)
    cons t ready h = h
    cons t asleep h = h
    cons t (busy x) h = h
    cons t (started x) h = ground (arith, h)
    cons t returned h = h

wake_one-Woken : (i : ℕ) (ws : List Worker) → Quiet ws → Woken ws (wake_one i ws)
unfolding wake_one
wake_one-Woken i [] q = record { quiet = q; counted = λ t. refl }
wake_one-Woken zero (asleep ∷ ws) q = record { quiet = q; counted = λ t. refl }
wake_one-Woken (suc i) (asleep ∷ ws) q = elim (Bool-cases (any_asleep ws)) [
  | inl e ↦ rw e (Woken-cons asleep ws _ q (wake_one-Woken i ws q.1))
  | inr e ↦ rw e (record { quiet = q; counted = λ t. refl })
]
wake_one-Woken i (ready ∷ ws) q = Woken-cons ready ws _ q (wake_one-Woken i ws q.1)
wake_one-Woken i (busy t ∷ ws) q = Woken-cons (busy t) ws _ q (wake_one-Woken i ws q.1)
wake_one-Woken i (started t ∷ ws) q = Woken-cons (started t) ws _ q (wake_one-Woken i ws q.1)
wake_one-Woken i (returned ∷ ws) q = Woken-cons returned ws _ q (wake_one-Woken i ws q.1)

wake_all-Woken : (ws : List Worker) → Quiet ws → Woken ws (List.map wake ws)
unfolding wake
wake_all-Woken [] q = record { quiet = q; counted = λ t. refl }
wake_all-Woken (asleep ∷ ws) q =
    let r = Woken-cons asleep ws _ q (wake_all-Woken ws q.1) in
    record { quiet = r.quiet; counted = r.counted }
wake_all-Woken (ready ∷ ws) q = Woken-cons ready ws _ q (wake_all-Woken ws q.1)
wake_all-Woken (busy t ∷ ws) q = Woken-cons (busy t) ws _ q (wake_all-Woken ws q.1)
wake_all-Woken (started t ∷ ws) q = Woken-cons (started t) ws _ q (wake_all-Woken ws q.1)
wake_all-Woken (returned ∷ ws) q = Woken-cons returned ws _ q (wake_all-Woken ws q.1)

Woken-Holds :
    (ts : List ℕ) (p : ThreadPool) (vs : List Worker)
    → Holds ts p
    → Woken p.workers vs
    → Holds ts (record p { workers = vs })
Woken-Holds ts p vs h r = record {
  none_queued = h.none_queued;
  quiet = r.quiet;
  counted = λ t. omega (arith, h.counted t, r.counted t);
}

pub notify_all-Holds : (ts : List ℕ) (p : ThreadPool) → Holds ts p → Holds ts (notify_all p)
unfolding notify_all
notify_all-Holds ts p h = Woken-Holds ts p _ h (wake_all-Woken p.workers h.quiet)

pub Reached-Holds : (n : ℕ) (ts : List ℕ) (p : ThreadPool) → Reached n ts p → Holds ts p
unfolding construct add request_stop notify_one
Reached-Holds n [] _ made = record {
  none_queued = refl;
  quiet = Quiet-copies n;
  counted = λ t. ap (λ k. 0 + k) (count_held-copies t n);
}
Reached-Holds n _ _ (added {ts} {p} {q} t r e) =
    add-Holds t ts p q p.stop (Reached-Holds n ts p r) e
Reached-Holds n _ _ (turned {ts} {p} i r) = turn-Holds i ts p (Reached-Holds n ts p r)
Reached-Holds n _ _ (stopped {ts} {p} r) =
    let h = Reached-Holds n ts p r in
    record { none_queued = h.none_queued; quiet = h.quiet; counted = h.counted }
Reached-Holds n _ _ (notified {ts} {p} i r) =
    let h = Reached-Holds n ts p r in Woken-Holds ts p _ h (wake_one-Woken i p.workers h.quiet)
