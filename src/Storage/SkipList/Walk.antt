-- ===== src/Storage/SkipList/Walk.antt =====
-- The walk along one level stops at the last node that reaches the level and has a smaller key.
use my_network_library.Prelude.{
  ℕ, zero, suc, ◌≤◌, ◌<◌, ◌≡◌, refl, ◌⊎◌, inl, inr, true, false, some, List, [], ◌∷◌, ◌++◌, arith,
  ◌==◌, leb, length, Bool-cases, ap, ◌∙◌, if◌then◌else◌, leb→le, le→leb,
}
use my_network_library.Storage.Order.{KeyOrder}
use my_network_library.Storage.Heap.{Ptr, null, Node, Heap, deref, forward}
use my_network_library.Storage.SkipList.{walk}
use my_network_library.Storage.SkipList.Spine.{
  Cell, succ_at, last_at, Linked, Below, AtLeast, deref-Linked, forward-Linked, succ_at-reach,
  succ_at-skip, last_at-reach,
}

module _ {K V : Type 0} (o : KeyOrder K) (key : K) (h : Heap K V) where
  -- the node that a level leads to from a position all of whose smaller nodes are behind it
  succ_at-AtLeast :
      (i : ℕ) (post : List (Cell K V))
      → Linked h post
      → AtLeast o key post
      → (succ_at i post ≡ null)
        ⊎ ((n : Node K V) × ((succ_at i post == null) ≡ false)
            × (deref h (succ_at i post) ≡ some n)
            × (o.lt n.key key ≡ false))
  succ_at-AtLeast i [] l a = inl (unfold succ_at in refl)
  succ_at-AtLeast i (c ∷ cs) l a = elim (Bool-cases (leb i c.level)) [
    | inl e ↦ rw (succ_at-reach i c cs e) (inr (_, l.0, deref-Linked h c cs l, a.0))
    | inr e ↦ rw (succ_at-skip i c cs e) (succ_at-AtLeast i cs l.4 a.1)
  ]

  walk-stop :
      (n i : ℕ) (p : Ptr) (post : List (Cell K V))
      → Linked h post
      → AtLeast o key post
      → forward h p i ≡ some (succ_at i post)
      → walk o (suc n) h key i p ≡ some p
  unfolding walk
  walk-stop n i p post l a f = elim (succ_at-AtLeast i post l a) [
    | inl e ↦ rw (f, e)
    | inr (m, e, d, t) ↦ rw (f, e, d, t)
  ]

  walk-next :
      (n i : ℕ) (p : Ptr) (x : Cell K V) (xs : List (Cell K V))
      → Linked h (x ∷ xs)
      → o.lt x.key key ≡ true
      → forward h p i ≡ some x.ptr
      → walk o (suc n) h key i p ≡ walk o n h key i x.ptr
  unfolding walk
  walk-next n i p x xs l t f = rw (f, l.0, deref-Linked h x xs l, t)

  -- where the walk along level `i` from `e`, with the smaller nodes `rest` behind it, stops
  pub record Stop (i : ℕ) (e : Cell K V) (rest post : List (Cell K V)) : Type 0 where
    pub cell : Cell K V
    pub after : List (Cell K V)
    pub linked : Linked h (cell ∷ after ++ post)
    pub below : Below o key after
    pub reach : i ≤ cell.level
    pub short : length after ≤ length rest
    pub here : last_at i e.ptr rest ≡ cell.ptr
    pub same : (j : ℕ) → j ≤ i → last_at j e.ptr rest ≡ last_at j cell.ptr after

  -- `whole` is what lay behind `e`, `rest` what is left of it, and `m` the last node that reaches
  -- each level in between
  walk-loop :
      (n i : ℕ) (e : Cell K V) (m : ℕ → Ptr) (whole rest post : List (Cell K V))
      → Linked h (e ∷ whole ++ post)
      → Linked h (rest ++ post)
      → forward h e.ptr i ≡ some (succ_at i (rest ++ post))
      → ((j : ℕ) → j ≤ i → last_at j e.ptr whole ≡ last_at j (m j) rest)
      → m i ≡ e.ptr
      → Below o key whole
      → Below o key rest
      → AtLeast o key post
      → i ≤ e.level
      → length rest ≤ length whole
      → length rest < n
      → (s : Stop i e whole post) × (walk o n h key i e.ptr ≡ some s.cell.ptr)
  walk-loop zero i e m whole rest post l lr f same here b br a r le fuel = absurd (omega arith)
  walk-loop (suc n) i e m whole [] post l lr f same here b br a r le fuel = (
    record {
      cell = e;
      after = whole;
      linked = l;
      below = b;
      reach = r;
      short = omega arith;
      here = same i (omega arith) ∙ unfold last_at in here;
      same = λ j _. refl;
    },
    walk-stop n i e.ptr post lr a f,
  )
  walk-loop (suc n) i e m whole (x ∷ rest) post l lr f same here b br a r le fuel =
      elim (Bool-cases (leb i x.level)) [
        | inl t ↦
            let reach : i ≤ x.level = leb→le i x.level t in
            let (s, w) =
              walk-loop n i x (λ _. x.ptr) rest rest post lr lr.4
                (forward-Linked h x (rest ++ post) i lr reach) (λ j _. refl) refl br.1 br.1 a reach
                (omega arith) (omega arith) in
            let past : (j : ℕ) → j ≤ i → last_at j e.ptr whole ≡ last_at j x.ptr rest =
              λ j lj. same j lj ∙ last_at-reach j (m j) x rest (le→leb j x.level (omega arith)) in
            (
              record {
                cell = s.cell;
                after = s.after;
                linked = s.linked;
                below = s.below;
                reach = s.reach;
                short = omega (arith, s.short);
                here = past i (omega arith) ∙ s.here;
                same = λ j lj. past j lj ∙ s.same j lj;
              },
              walk-next n i e.ptr x (rest ++ post) lr br.0
                    (f ∙ ap some (succ_at-reach i x (rest ++ post) t))
                  ∙ w,
            )
        | inr t ↦
            walk-loop (suc n) i e (λ j. if leb j x.level then x.ptr else m j) whole rest post l lr.4
              (f ∙ ap some (succ_at-skip i x (rest ++ post) t)) (unfold last_at in same) (rw t here)
              b br.1 a r (omega arith) (omega arith)
      ]

  pub walk-last_at :
      (n i : ℕ) (e : Cell K V) (rest post : List (Cell K V))
      → Linked h (e ∷ rest ++ post)
      → Below o key rest
      → AtLeast o key post
      → i ≤ e.level
      → length rest < n
      → (s : Stop i e rest post) × (walk o n h key i e.ptr ≡ some s.cell.ptr)
  walk-last_at n i e rest post l b a r fuel =
      walk-loop n i e (λ _. e.ptr) rest rest post l l.4 (forward-Linked h e (rest ++ post) i l r)
        (λ j _. refl) refl b b a r (omega arith) fuel
