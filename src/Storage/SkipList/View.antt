-- ===== src/Storage/SkipList/View.antt =====
-- The invariant of the skip list, and the dictionary that it stands for.
use my_network_library.Prelude.{
  ℕ, ◌≤◌, ◌≡◌, refl, true, false, none, List, [], ◌∷◌, ◌++◌, arith, length, Bool-cases, inl, inr,
  if◌then◌else◌,
}
use my_network_library.Storage.Order.{KeyOrder}
use my_network_library.Storage.Table.{Table, Above, IsSorted}
use my_network_library.Storage.Heap.{Ptr}
use my_network_library.Storage.SkipList.{SkipList}
use my_network_library.Storage.SkipList.Spine.{Cell, Linked, Below, AtLeast}

module _ {K V : Type 0} where
  unfoldable pub table : List (Cell K V) → Table K V
  table [] = []
  table (c ∷ cs) = (c.key, c.value) ∷ table cs

  abbrev pub AtMost : ℕ → List (Cell K V) → Type 0
  AtMost l [] = Unit
  AtMost l (c ∷ cs) = (c.level ≤ l) × AtMost l cs

module _ {K V : Type 0} (o : KeyOrder K) where
  abbrev pub AboveCell : K → List (Cell K V) → Type 0
  AboveCell k [] = Unit
  AboveCell k (c ∷ cs) = (o.lt k c.key ≡ true) × AboveCell k cs

  -- the keys strictly increase
  abbrev pub Sorted : List (Cell K V) → Type 0
  Sorted [] = Unit
  Sorted (c ∷ cs) = AboveCell c.key cs × Sorted cs

  -- `s` is a well-formed skip list whose nodes, from the header on, are `cells`
  pub record Represents (s : SkipList K V) (cells : List (Cell K V)) : Type 0 where
    pub head : Cell K V
    pub at_header : head.ptr ≡ s.header
    pub full_height : head.level ≡ s.max_level
    pub linked : Linked s.heap (head ∷ cells)
    pub sorted : Sorted cells
    pub counted : s.element_count ≡ length cells
    pub levels : AtMost s.cur_level cells
    pub height : s.cur_level ≤ s.max_level
    pub bounded : (a : Ptr) → s.heap.brk ≤ a → s.heap.nodes a ≡ none

  pub IsSorted-table : (cs : List (Cell K V)) → Sorted cs → IsSorted o (table cs)
  unfolding table
  IsSorted-table [] s = tt
  IsSorted-table (c ∷ cs) s = (go cs s.0, IsSorted-table cs s.1)
    where
      go : (ds : List (Cell K V)) → AboveCell c.key ds → Above o c.key (table ds)
      go [] a = tt
      go (d ∷ ds) a = (a.0, go ds a.1)

module _ {K V : Type 0} (o : KeyOrder K) (key : K) where
  -- the cells whose key is smaller than `key`
  unfoldable pub smaller : List (Cell K V) → List (Cell K V)
  smaller [] = []
  smaller (c ∷ cs) = if o.lt c.key key then c ∷ smaller cs else []

  -- the cells from the first whose key is not smaller
  unfoldable pub others : List (Cell K V) → List (Cell K V)
  others [] = []
  others (c ∷ cs) = if o.lt c.key key then others cs else c ∷ cs

  pub smaller-append-others : (cs : List (Cell K V)) → smaller cs ++ others cs ≡ cs
  unfolding smaller others
  smaller-append-others [] = refl
  smaller-append-others (c ∷ cs) = elim (Bool-cases (o.lt c.key key)) [
    | inl t ↦ rw (t, smaller-append-others cs)
    | inr t ↦ rw t
  ]

  pub Below-smaller : (cs : List (Cell K V)) → Below o key (smaller cs)
  unfolding smaller
  Below-smaller [] = tt
  Below-smaller (c ∷ cs) = elim (Bool-cases (o.lt c.key key)) [
    | inl t ↦ rw t (t, Below-smaller cs)
    | inr t ↦ rw t tt
  ]

  AtLeast-AboveCell :
      (k : K) (cs : List (Cell K V)) → o.lt k key ≡ false → AboveCell o k cs → AtLeast o key cs
  AtLeast-AboveCell k [] t a = tt
  AtLeast-AboveCell k (c ∷ cs) t a =
      (ground (arith, o.lt_trans k c.key key), AtLeast-AboveCell k cs t a.1)

  pub AtLeast-others : (cs : List (Cell K V)) → Sorted o cs → AtLeast o key (others cs)
  unfolding others
  AtLeast-others [] s = tt
  AtLeast-others (c ∷ cs) s = elim (Bool-cases (o.lt c.key key)) [
    | inl t ↦ rw t (AtLeast-others cs s.1)
    | inr t ↦ rw t (t, AtLeast-AboveCell c.key cs t s.0)
  ]
