-- ===== src/Storage/SkipList/Spine.antt =====
-- What a heap of linked nodes stands for: the header and the nodes behind it, in the order of
-- level 0, with the pointer that each level holds.
use my_network_library.Prelude.{
  ℕ, ◌≤◌, ◌≡◌, refl, ap, Bool, true, false, ◌||◌, some, List, [], ◌∷◌, ◌++◌, arith, ◌==◌, leb,
  if◌then◌else◌,
}
use my_network_library.Storage.Order.{KeyOrder}
use my_network_library.Storage.Heap.{Ptr, null, Node, Heap, deref, forward}

pub record Cell (K V : Type 0) : Type 0 where
  pub ptr : Ptr
  pub key : K
  pub value : V
  pub level : ℕ

module _ {K V : Type 0} where
  abbrev pub node_of : Cell K V → Node K V
  node_of c = record { key = c.key; value = c.value; level = c.level }

  -- the first cell that reaches level `i`
  unfoldable pub succ_at : ℕ → List (Cell K V) → Ptr
  succ_at i [] = null
  succ_at i (c ∷ cs) = if leb i c.level then c.ptr else succ_at i cs

  -- the last cell that reaches level `i`, or `p`
  unfoldable pub last_at : ℕ → Ptr → List (Cell K V) → Ptr
  last_at i p [] = p
  last_at i p (c ∷ cs) = last_at i (if leb i c.level then c.ptr else p) cs

  abbrev pub has : Ptr → List (Cell K V) → Bool
  has a [] = false
  has a (c ∷ cs) = (a == c.ptr) || has a cs

  -- each cell is a node of the heap, at an address of its own, and its array holds, at each of its
  -- levels, the next cell that reaches the level
  abbrev pub Linked : Heap K V → List (Cell K V) → Type 0
  Linked h [] = Unit
  Linked h (c ∷ cs) =
      ((c.ptr == null) ≡ false)
      × (has c.ptr cs ≡ false)
      × (h.nodes c.ptr ≡ some (node_of c))
      × ((j : ℕ) → j ≤ c.level → h.links c.ptr j ≡ succ_at j cs)
      × Linked h cs

  pub deref-Linked :
      (h : Heap K V) (c : Cell K V) (cs : List (Cell K V))
      → Linked h (c ∷ cs)
      → deref h c.ptr ≡ some (node_of c)
  unfolding deref
  deref-Linked h c cs l = rw (l.0, l.2)

  pub forward-Linked :
      (h : Heap K V) (c : Cell K V) (cs : List (Cell K V)) (i : ℕ)
      → Linked h (c ∷ cs)
      → i ≤ c.level
      → forward h c.ptr i ≡ some (succ_at i cs)
  unfolding forward deref
  forward-Linked h c cs i l r = ground (arith, l.0, l.2, l.3 i r)

  pub succ_at-reach :
      (i : ℕ) (c : Cell K V) (cs : List (Cell K V))
      → leb i c.level ≡ true
      → succ_at i (c ∷ cs) ≡ c.ptr
  unfolding succ_at
  succ_at-reach i c cs e = ground arith

  pub succ_at-zero : (c : Cell K V) (cs : List (Cell K V)) → succ_at 0 (c ∷ cs) ≡ c.ptr
  succ_at-zero c cs = succ_at-reach 0 c cs (ground arith)

  pub succ_at-skip :
      (i : ℕ) (c : Cell K V) (cs : List (Cell K V))
      → leb i c.level ≡ false
      → succ_at i (c ∷ cs) ≡ succ_at i cs
  unfolding succ_at
  succ_at-skip i c cs e = ground arith

  pub last_at-reach :
      (i : ℕ) (p : Ptr) (c : Cell K V) (cs : List (Cell K V))
      → leb i c.level ≡ true
      → last_at i p (c ∷ cs) ≡ last_at i c.ptr cs
  unfolding last_at
  last_at-reach i p c cs e = ap (λ b. last_at i (if b then c.ptr else p) cs) e

  pub last_at-skip :
      (i : ℕ) (p : Ptr) (c : Cell K V) (cs : List (Cell K V))
      → leb i c.level ≡ false
      → last_at i p (c ∷ cs) ≡ last_at i p cs
  unfolding last_at
  last_at-skip i p c cs e = ap (λ b. last_at i (if b then c.ptr else p) cs) e

  pub Linked-drop : (h : Heap K V) (cs ds : List (Cell K V)) → Linked h (cs ++ ds) → Linked h ds
  Linked-drop h [] ds l = l
  Linked-drop h (c ∷ cs) ds l = Linked-drop h cs ds l.4

  pub has-append : (a : Ptr) (cs ds : List (Cell K V)) → has a (cs ++ ds) ≡ (has a cs || has a ds)
  has-append a [] ds = refl
  has-append a (c ∷ cs) ds = ground (arith, has-append a cs ds)

module _ {K V : Type 0} (o : KeyOrder K) (key : K) where
  -- every key is smaller than `key`
  abbrev pub Below : List (Cell K V) → Type 0
  Below [] = Unit
  Below (c ∷ cs) = (o.lt c.key key ≡ true) × Below cs

  -- no key is smaller than `key`
  abbrev pub AtLeast : List (Cell K V) → Type 0
  AtLeast [] = Unit
  AtLeast (c ∷ cs) = (o.lt c.key key ≡ false) × AtLeast cs
