-- ===== src/Storage/SkipList/Cells.antt =====
-- What a new cell between the smaller and the greater ones does to the order, the levels and the
-- dictionary, and what the last cell on a level has in common with all cells.
use my_network_library.Prelude.{
  ℕ, ◌≤◌, ◌<◌, ◌≡◌, refl, ◌∙◌, ap, inl, inr, true, false, none, List, [], ◌∷◌, ◌++◌, arith, ◌==◌,
  leb, Bool-cases, lt→leb_false, ==_iff,
}
use my_network_library.Storage.Order.{KeyOrder}
use my_network_library.Storage.Table.{put}
use my_network_library.Storage.Heap.{Ptr, Heap}
use my_network_library.Storage.SkipList.Spine.{
  Cell, last_at, has, Linked, Below, AtLeast, last_at-reach, last_at-skip,
}
use my_network_library.Storage.SkipList.View.{AtMost, AboveCell, Sorted, table}
use my_network_library.Storage.SkipList.Search.{at_front, AboveCell-trans}
use my_network_library.Storage.SkipList.Links.{IsSlot}
use my_network_library.Storage.SkipList.Relink.{has-back, ne_of_has, reach_cases}

module _ {K V : Type 0} where
  pub has-none :
      (h : Heap K V) (a : Ptr) (cs : List (Cell K V))
      → Linked h cs
      → h.nodes a ≡ none
      → has a cs ≡ false
  has-none h a [] l e = refl
  has-none h a (c ∷ cs) l e = elim (Bool-cases (a == c.ptr)) [
    | inl t ↦ cc (ap h.nodes ((==_iff a c.ptr).0 t), l.2)
    | inr t ↦ ground (arith, has-none h a cs l.4 e)
  ]

  pub last_at-tall :
      (l j : ℕ) (p : Ptr) (cs : List (Cell K V)) → AtMost l cs → l < j → last_at j p cs ≡ p
  last_at-tall l j p [] a t = unfold last_at in refl
  last_at-tall l j p (c ∷ cs) a t =
      last_at-skip j p c cs (lt→leb_false j c.level (omega (arith, a.0)))
      ∙ last_at-tall l j p cs a.1 t

  pub IsSlot-last_at :
      (h : Heap K V) (j : ℕ) (p : Ptr) (cs post : List (Cell K V))
      → Linked h (cs ++ post)
      → IsSlot h.nodes p j
      → IsSlot h.nodes (last_at j p cs) j
  IsSlot-last_at h j p [] post l v = unfold last_at in v
  IsSlot-last_at h j p (c ∷ cs) post l v = elim (Bool-cases (leb j c.level)) [
    | inl t ↦ rw (last_at-reach j p c cs t) (
        IsSlot-last_at h j c.ptr cs post l.4
          (record { node = _; ne_null = l.0; holds = l.2; bound = t }))
    | inr t ↦ rw (last_at-skip j p c cs t) (IsSlot-last_at h j p cs post l.4 v)
  ]

  -- the last smaller cell on a level is none of the others
  pub has-last_at_others :
      (h : Heap K V) (j : ℕ) (p : Ptr) (cs post : List (Cell K V))
      → Linked h (cs ++ post)
      → has p post ≡ false
      → has (last_at j p cs) post ≡ false
  has-last_at_others h j p [] post l e = unfold last_at in e
  has-last_at_others h j p (c ∷ cs) post l e = elim (Bool-cases (leb j c.level)) [
    | inl t ↦
        rw (last_at-reach j p c cs t)
          (has-last_at_others h j c.ptr cs post l.4 (has-back c.ptr cs post l.1))
    | inr t ↦ rw (last_at-skip j p c cs t) (has-last_at_others h j p cs post l.4 e)
  ]

  pub last_at-ne :
      (j : ℕ) (p a : Ptr) (cs : List (Cell K V))
      → (a == p) ≡ false
      → has a cs ≡ false
      → (a == last_at j p cs) ≡ false
  last_at-ne j p a cs e out = elim (reach_cases j p cs) [
    | inl (q, _) ↦ rw q e
    | inr (q, _) ↦ ne_of_has a (last_at j p cs) cs out q
  ]

  pub AtMost-mono : (l m : ℕ) (cs : List (Cell K V)) → AtMost l cs → l ≤ m → AtMost m cs
  AtMost-mono l m [] a t = tt
  AtMost-mono l m (c ∷ cs) a t = (omega (arith, a.0), AtMost-mono l m cs a.1 t)

  pub AtMost-append :
      (l : ℕ) (cs ds : List (Cell K V)) → AtMost l cs → AtMost l ds → AtMost l (cs ++ ds)
  AtMost-append l [] ds a b = b
  AtMost-append l (c ∷ cs) ds a b = (a.0, AtMost-append l cs ds a.1 b)

  pub AtMost-split :
      (l : ℕ) (cs ds : List (Cell K V)) → AtMost l (cs ++ ds) → AtMost l cs × AtMost l ds
  AtMost-split l [] ds a = (tt, a)
  AtMost-split l (c ∷ cs) ds a = let (x, y) = AtMost-split l cs ds a.1 in ((a.0, x), y)

module _ {K V : Type 0} (o : KeyOrder K) (key : K) where
  pub AboveCell-front :
      (post : List (Cell K V))
      → AtLeast o key post
      → Sorted o post
      → at_front o key post ≡ false
      → AboveCell o key post
  AboveCell-front [] a s f = tt
  AboveCell-front (c ∷ cs) a s f =
      let t = o.lt_total c.key key a.0 f in (t, AboveCell-trans o key c.key cs t s.0)

  AboveCell-insert :
      (k : K) (pre post : List (Cell K V)) (new : Cell K V)
      → o.lt k new.key ≡ true
      → AboveCell o k (pre ++ post)
      → AboveCell o k (pre ++ new ∷ post)
  AboveCell-insert k [] post new t a = (t, a)
  AboveCell-insert k (c ∷ pre) post new t a = (a.0, AboveCell-insert k pre post new t a.1)

  pub Sorted-insert :
      (pre post : List (Cell K V)) (new : Cell K V)
      → new.key ≡ key
      → Sorted o (pre ++ post)
      → Below o key pre
      → AboveCell o key post
      → Sorted o (pre ++ new ∷ post)
  Sorted-insert [] post new e s b a = (rw e a, s)
  Sorted-insert (c ∷ pre) post new e s b a =
      (AboveCell-insert c.key pre post new (rw e b.0) s.0, Sorted-insert pre post new e s.1 b.1 a)

  put-front :
      (value : V) (post : List (Cell K V)) (new : Cell K V)
      → new.key ≡ key
      → new.value ≡ value
      → AtLeast o key post
      → at_front o key post ≡ false
      → put o key value (table post) ≡ table (new ∷ post)
  unfolding put table
  put-front value [] new e q a f = rw (e, q)
  put-front value (c ∷ cs) new e q a f = rw (a.0, f, e, q)

  pub put-insert :
      (value : V) (pre post : List (Cell K V)) (new : Cell K V)
      → new.key ≡ key
      → new.value ≡ value
      → Below o key pre
      → AtLeast o key post
      → at_front o key post ≡ false
      → put o key value (table (pre ++ post)) ≡ table (pre ++ new ∷ post)
  unfolding put table
  put-insert value [] post new e q b a f = put-front value post new e q a f
  put-insert value (c ∷ pre) post new e q b a f =
      rw b.0 (ap (λ t. (c.key, c.value) ∷ t) (put-insert value pre post new e q b.1 a f))
