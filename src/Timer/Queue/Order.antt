-- ===== src/Timer/Queue/Order.antt =====
-- The queue of src/timer/TimerQueue.cpp stays in order of expiration, and what is due is taken off.
use mathlib.Core.Path.{subst}
use my_network_library.Prelude.{
  ℕ, ◌≤◌, ◌≡◌, refl, ◌⊎◌, inl, inr, Bool, true, false, Option, none, some, List, [], ◌∷◌, ◌++◌, ltb,
  ltb→lt, lt→ltb, if◌then◌else◌, arith, Bool-cases,
}
use my_network_library.Timer.Node.{TimeVal, Interval, TimerNode, get_now, is_valid, restart}
use my_network_library.Timer.Queue.{
  push, insert, TimerQueue, again, run_expired, handle_expired_event,
}

module _ (I : Interval) where
  abbrev pub From : ℕ → List (TimerNode I) → Type 0
  From e [] = Unit
  From e (t ∷ ts) = (e ≤ t.expiration) × From e ts

  -- from the top on, the expirations do not decrease
  abbrev pub IsOrdered : List (TimerNode I) → Type 0
  IsOrdered [] = Unit
  IsOrdered (t ∷ ts) = From t.expiration ts × IsOrdered ts

  pub From-trans : (d e : ℕ) (ts : List (TimerNode I)) → d ≤ e → From e ts → From d ts
  From-trans d e [] h f = tt
  From-trans d e (t ∷ ts) h f = (omega (arith, f.0), From-trans d e ts h f.1)

  pub From-push :
      (e : ℕ) (t : TimerNode I) (ts : List (TimerNode I))
      → e ≤ t.expiration
      → From e ts
      → From e (push I t ts)
  unfolding push
  From-push e t [] h f = (h, tt)
  From-push e t (u ∷ us) h f = elim (Bool-cases (ltb t.expiration u.expiration)) [
    | inl l ↦ rw l (h, f)
    | inr l ↦ rw l (f.0, From-push e t us h f.1)
  ]

  pub push-IsOrdered :
      (t : TimerNode I) (ts : List (TimerNode I)) → IsOrdered ts → IsOrdered (push I t ts)
  unfolding push
  push-IsOrdered t [] o = (tt, tt)
  push-IsOrdered t (u ∷ us) o = elim (Bool-cases (ltb t.expiration u.expiration)) [
    | inl l ↦ rw l ((ground arith, From-trans t.expiration u.expiration us (ground arith) o.0), o)
    | inr l ↦ rw l (From-push u.expiration t us (ground arith) o.0, push-IsOrdered t us o.1)
  ]

  -- `t` stands on top
  abbrev pub OnTop : TimerNode I → List (TimerNode I) → Type 0
  OnTop t ts = (us : List (TimerNode I)) × (ts ≡ t ∷ us)

  -- In a queue in order `insert` leaves a queue in order, and when it returns `true` the new node is
  -- on top; when it returns `false` the top is the one that was there.
  pub insert-IsOrdered :
      (t : TimerNode I) (ts : List (TimerNode I))
      → IsOrdered ts
      → IsOrdered (insert I t ts).1
        × (((insert I t ts).0 ≡ true) × OnTop t (insert I t ts).1
            ⊎ ((insert I t ts).0 ≡ false)
              × (u : TimerNode I) × OnTop u ts
              × OnTop u (insert I t ts).1)
  unfolding insert push
  insert-IsOrdered t [] o = ((tt, tt), inl (refl, ([], refl)))
  insert-IsOrdered t (u ∷ us) o = (
    push-IsOrdered t (u ∷ us) o,
    elim (Bool-cases (ltb t.expiration u.expiration)) [
      | inl l ↦ inl (l, (u ∷ us, rw l))
      | inr l ↦ inr (l, u, (us, refl), (push I t us, rw l))
    ],
  )

  -- a node that is kept: its time has not come
  abbrev pub is_pending : TimeVal → TimerNode I → Bool
  is_pending now t = ltb (get_now now) t.expiration

  abbrev pub pending : TimeVal → List (TimerNode I) → List (TimerNode I)
  pending now [] = []
  pending now (t ∷ ts) = if is_pending now t then t ∷ pending now ts else pending now ts

  abbrev pub NoneDeleted : List (TimerNode I) → Type 0
  NoneDeleted [] = Unit
  NoneDeleted (t ∷ ts) = (t.deleted ≡ false) × NoneDeleted ts

  pending-From :
      (now : TimeVal) (e : ℕ) (ts : List (TimerNode I))
      → ltb (get_now now) e ≡ true
      → From e ts
      → pending now ts ≡ ts
  pending-From now e [] l f = refl
  pending-From now e (t ∷ ts) l f = rw (
    lt→ltb (get_now now) t.expiration (omega (arith, ltb→lt (get_now now) e l, f.0)),
    pending-From now e ts l f.1,
  )

  -- On a queue in order with no node marked as deleted, `handleExpiredEvent` leaves exactly the
  -- nodes whose time has not come.
  pub handle_expired_event-pending :
      (now : TimeVal) (ts : List (TimerNode I))
      → IsOrdered ts
      → NoneDeleted ts
      → handle_expired_event I now ts ≡ pending now ts
  unfolding handle_expired_event is_valid
  handle_expired_event-pending now [] o d = refl
  handle_expired_event-pending now (t ∷ ts) o d =
      elim (Bool-cases (ltb (get_now now) t.expiration)) [
        | inl l ↦ rw (d.0, l, pending-From now t.expiration ts l o.0)
        | inr l ↦ rw (d.0, l) (handle_expired_event-pending now ts o.1 d.1)
      ]

  chosen :
      (b : Bool) (us ts : List (TimerNode I))
      → IsOrdered us
      → IsOrdered ts
      → IsOrdered (if b then us else ts)
  chosen true us ts o p = o
  chosen false us ts o p = p

  again-IsOrdered :
      (now : TimeVal) (t : TimerNode I) (ts : List (TimerNode I))
      → IsOrdered ts
      → IsOrdered (again I now t ts)
  unfolding insert
  again-IsOrdered now t ts o =
      chosen t.repeat (push I (restart I now t) ts) ts (push-IsOrdered (restart I now t) ts o) o

  -- the time of `t` had not come at some reading of the clock
  abbrev pub was_pending : List TimeVal → TimerNode I → Bool
  was_pending [] t = false
  was_pending (now ∷ nows) t = if is_pending now t then true else was_pending nows t

  abbrev pub Rests : List TimeVal → List (TimerNode I) → Type 0
  Rests nows [] = Unit
  Rests nows (t ∷ ts) = (t.deleted ≡ false) × (was_pending nows t ≡ true)

  abbrev Settled : List TimeVal → Option (TimerQueue I) → Type 0
  Settled nows none = Unit
  Settled nows (some q) = IsOrdered q.nodes × Rests nows q.nodes

  later_Rests :
      (now : TimeVal) (nows : List TimeVal) (ts : List (TimerNode I))
      → Rests nows ts
      → Rests (now ∷ nows) ts
  later_Rests now nows [] r = tt
  later_Rests now nows (t ∷ ts) r = (r.0, ground arith)

  later_Settled :
      (now : TimeVal) (nows : List TimeVal) (o : Option (TimerQueue I))
      → Settled nows o
      → Settled (now ∷ nows) o
  later_Settled now nows none s = tt
  later_Settled now nows (some q) s = (s.0, later_Rests now nows q.nodes s.1)

  -- one round of the loop, by its two tests
  round_Settled :
      (now : TimeVal) (nows : List TimeVal) (d v : Bool) (x y z : Option (TimerQueue I))
      → Settled nows x
      → (d ≡ false → v ≡ true → Settled (now ∷ nows) y)
      → Settled nows z
      → Settled (now ∷ nows) (if d then x else if v then y else z)
  round_Settled now nows true v x y z a b c = later_Settled now nows x a
  round_Settled now nows false true x y z a b c = b refl refl
  round_Settled now nows false false x y z a b c = later_Settled now nows z c

  is_valid-is_pending : (now : TimeVal) (t : TimerNode I) → (is_valid I now t).0 ≡ is_pending now t
  unfolding is_valid
  is_valid-is_pending now t = ground arith

  run_Settled :
      (nows : List TimeVal) (nodes : List (TimerNode I)) (timerfd : Option (ℕ × ℕ)) (ran : List ℕ)
      → IsOrdered nodes
      → Settled nows (run_expired I nows (record { nodes = nodes; timerfd = timerfd; ran = ran }))
  unfolding run_expired
  run_Settled [] [] fd ran o = (tt, tt)
  run_Settled [] (t ∷ ts) fd ran o = tt
  run_Settled (now ∷ nows) [] fd ran o = (tt, tt)
  run_Settled (now ∷ nows) (t ∷ ts) fd ran o =
      let marked : TimerNode I = record t { deleted = true } in
      round_Settled now nows t.deleted (is_valid I now t).0
        (run_expired I nows (record { nodes = ts; timerfd = fd; ran = ran }))
        (some (record { nodes = t ∷ ts; timerfd = fd; ran = ran }))
        (run_expired I nows
          (record { nodes = again I now marked ts; timerfd = fd; ran = ran ++ t.callback ∷ [] }))
        (run_Settled nows ts fd ran o.1) (λ d v. (o, (d, here v)))
        (run_Settled nows (again I now marked ts) fd (ran ++ t.callback ∷ [])
          (again-IsOrdered now marked ts o.1))
    where
      here : (is_valid I now t).0 ≡ true → was_pending (now ∷ nows) t ≡ true
      here v = ground (arith, is_valid-is_pending now t)

  -- When the loop of `handleRead` ends, the queue is still in order, and it is empty or its top is
  -- not marked as deleted and was not due at one of the loop's readings of the clock.
  pub run_expired-IsOrdered :
      (nows : List TimeVal) (q q' : TimerQueue I)
      → IsOrdered q.nodes
      → run_expired I nows q ≡ some q'
      → IsOrdered q'.nodes × Rests nows q'.nodes
  run_expired-IsOrdered nows q q' o e =
      subst (Settled nows) e (run_Settled nows q.nodes q.timerfd q.ran o)
