-- ===== src/Storage/SkipList/Unlink.antt =====
-- The loops of `deleteElement` in src/storage/SkipList.h that unlink a node and lower `_curLevel`.
use my_network_library.Prelude.{
  ℕ, zero, suc, ◌+◌, ◌≤◌, ◌<◌, ◌≡◌, refl, sym, ◌∙◌, ap, inl, inr, true, false, ◌&&◌, some, List, [],
  ◌∷◌, ◌++◌, arith, ◌==◌, leb, ltb, if◌then◌else◌, le→leb, Bool-cases,
}
use my_network_library.Storage.Heap.{Ptr, null, Heap, set_link}
use my_network_library.Storage.SkipList.{Update, unlink_levels, shrink_level}
use my_network_library.Storage.SkipList.Spine.{
  Cell, succ_at, last_at, has, Linked, succ_at-reach, succ_at-skip, forward-Linked,
}
use my_network_library.Storage.SkipList.View.{AtMost}
use my_network_library.Storage.SkipList.Links.{IsSlot, forward-IsSlot, set_forward-IsSlot}
use my_network_library.Storage.SkipList.Relink.{
  reach_cases, ne_of_has, has-front, has-back, succ_at-insert,
}

module _ {K V : Type 0} where
  -- The loop redirects `update` past the node on each of the node's levels, and stops at the first
  -- level that the node does not reach.
  pub unlink_levels_lem :
      (level r i : ℕ) (u : Update) (cur : Ptr) (h : Heap K V)
      → ((j : ℕ) → i ≤ j → j < i + r → IsSlot h.nodes (u j) j)
      → ((j : ℕ) → leb j level ≡ true → IsSlot h.nodes cur j)
      → ((j : ℕ) → i ≤ j → j < i + r → (h.links (u j) j == cur) ≡ leb j level)
      → ((j : ℕ) → i ≤ j → j < i + r → (u j == cur) ≡ false)
      → (l : Ptr → ℕ → Ptr) × (unlink_levels r i u cur h ≡ some (record h { links = l }))
        × ((a : Ptr) (j : ℕ)
            → l a j ≡ (
                if leb i j && ltb j (i + r) && leb j level && (a == u j)
                then h.links cur j
                else h.links a j))
  unfolding unlink_levels
  unlink_levels_lem level zero i u cur h at_u at_cur hit ne = (h.links, refl, λ a j. ground arith)
  unlink_levels_lem level (suc r) i u cur h at_u at_cur hit ne = elim (Bool-cases (leb i level)) [
    | inr t ↦ (
      h.links,
      rw (
        forward-IsSlot h (u i) i (at_u i (omega arith) (omega arith)),
        hit i (omega arith) (omega arith),
        t,
      ),
      λ a j. ground arith,
    )
    | inl t ↦
        let slot = at_u i (omega arith) (omega arith) in
        let q = h.links cur i in
        let h₁ : Heap K V = record h { links = set_link h.links (u i) i q } in
        let (l, e, f) =
          unlink_levels_lem level r (i + 1) u cur h₁ (λ j a b. at_u j (omega arith) (omega arith))
            at_cur (λ j a b. ground (arith, hit j (omega arith) (omega arith)))
            (λ j a b. ne j (omega arith) (omega arith)) in
        (
          l,
          rw
              (
                forward-IsSlot h (u i) i slot,
                hit i (omega arith) (omega arith),
                t,
                forward-IsSlot h cur i (at_cur i t),
                set_forward-IsSlot h (u i) i slot q,
              )
              e,
          λ a j. ground (arith, f a j, ne i (omega arith) (omega arith)),
        )
  ]

  -- `g` is `h` after the loop
  pub record Unlinked (h g : Heap K V) (u : Update) (cur : Cell K V) : Type 0 where
    pub brk : g.brk ≡ h.brk
    pub nodes : (a : Ptr) → g.nodes a ≡ h.nodes a
    pub links :
        (a : Ptr) (j : ℕ)
        → g.links a j ≡ (if leb j cur.level && (a == u j) then h.links cur.ptr j else h.links a j)

  AtMost-null :
      (h : Heap K V) (l : ℕ) (cs : List (Cell K V))
      → Linked h cs
      → (succ_at (suc l) cs == null) ≡ true
      → AtMost l cs
  AtMost-null h l [] lk e = tt
  AtMost-null h l (c ∷ cs) lk e = elim (Bool-cases (leb (suc l) c.level)) [
    | inl t ↦ cc (ap (λ p. p == null) (succ_at-reach (suc l) c cs t), lk.0)
    | inr t ↦ (
      ground arith,
      AtMost-null h l cs lk.4 (ap (λ p. p == null) (sym (succ_at-skip (suc l) c cs t)) ∙ e),
    )
  ]

  -- the lowered `_curLevel` still bounds every node
  pub shrink_level-AtMost :
      (l : ℕ) (h : Heap K V) (e : Cell K V) (cs : List (Cell K V))
      → Linked h (e ∷ cs)
      → l ≤ e.level
      → AtMost l cs
      → (m : ℕ) × (shrink_level l h e.ptr ≡ some m) × AtMost m cs × (m ≤ l)
  unfolding shrink_level
  shrink_level-AtMost zero h e cs lk le a = (zero, refl, a, omega arith)
  shrink_level-AtMost (suc l) h e cs lk le a = elim (Bool-cases (succ_at (suc l) cs == null)) [
    | inl t ↦
        let (m, f, b, k) =
          shrink_level-AtMost l h e cs lk (omega arith) (AtMost-null h l cs lk.4 t) in
        (m, rw (forward-Linked h e cs (suc l) lk le, t) f, b, omega arith)
    | inr t ↦ (suc l, rw (forward-Linked h e cs (suc l) lk le, t), a, omega arith)
  ]

module _ {K V : Type 0} {h g : Heap K V} {u : Update} {cur : Cell K V}
    (r : Unlinked h g u cur) where
  unlink_cell :
      (e : Cell K V) (cs post : List (Cell K V)) (j : ℕ)
      → h.links e.ptr j ≡ succ_at j (cs ++ cur ∷ post)
      → (leb j cur.level ≡ true → h.links cur.ptr j ≡ succ_at j post)
      → (leb j cur.level ≡ true → u j ≡ last_at j e.ptr cs)
      → has e.ptr cs ≡ false
      → g.links e.ptr j ≡ succ_at j (cs ++ post)
  unlink_cell e cs post j l next at out = elim (Bool-cases (leb j cur.level)) [
    | inr t ↦ r.links e.ptr j ∙ ground (arith, t) ∙ l ∙ succ_at-insert j cs post cur t
    | inl t ↦ elim (reach_cases j e.ptr cs) [
      | inl (s, f) ↦ r.links e.ptr j ∙ ground (arith, at t) ∙ next t ∙ sym (f post)
      | inr (s, f) ↦
          r.links e.ptr j
          ∙ ground (arith, at t, ne_of_has e.ptr (last_at j e.ptr cs) cs out s)
          ∙ l
          ∙ f (cur ∷ post) post
    ]
  ]

  -- the list from `e` on, where `m` gives the last node up to `e` that reaches each level
  pub unlink-Linked :
      (e : Cell K V) (m : ℕ → Ptr) (cs post : List (Cell K V))
      → Linked h (e ∷ cs ++ cur ∷ post)
      → ((j : ℕ) → leb j cur.level ≡ true → h.links cur.ptr j ≡ succ_at j post)
      → ((j : ℕ) → leb j cur.level ≡ true → u j ≡ last_at j (m j) cs)
      → ((j : ℕ) → j ≤ e.level → m j ≡ e.ptr)
      → Linked g post
      → Linked g (e ∷ cs ++ post)
  unlink-Linked e m [] post l next at here back = (
    l.0,
    has-back e.ptr (cur ∷ []) post l.1,
    r.nodes e.ptr ∙ l.2,
    λ j le.
        unlink_cell e [] post j (l.3 j le) (next j)
          (λ t. at j t ∙ ap (λ p. last_at {K = K} {V = V} j p []) (here j le)) refl,
    back,
  )
  unlink-Linked e m (x ∷ cs) post l next at here back = (
    l.0,
    has-remove e.ptr (x ∷ cs) l.1,
    r.nodes e.ptr ∙ l.2,
    λ j le.
        unlink_cell e (x ∷ cs) post j (l.3 j le) (next j)
          (λ t. at j t ∙ ap (λ p. last_at j p (x ∷ cs)) (here j le))
          (has-front e.ptr (x ∷ cs) (cur ∷ post) l.1),
    unlink-Linked x (λ j. if leb j x.level then x.ptr else m j) cs post l.4 next
        (unfold last_at in at) (λ j le. rw (le→leb j x.level le)) back,
  )
    where
      has-remove :
          (a : Ptr) (ds : List (Cell K V))
          → has a (ds ++ cur ∷ post) ≡ false
          → has a (ds ++ post) ≡ false
      has-remove a [] o = ground arith
      has-remove a (d ∷ ds) o = ground (arith, has-remove a ds)
