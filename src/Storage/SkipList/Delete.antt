-- ===== src/Storage/SkipList/Delete.antt =====
-- The branch of `deleteElement` of src/storage/SkipList.h that removes a node.
use my_network_library.Prelude.{
  ℕ, ◌+◌, ◌-◌, ◌≤◌, ◌≡◌, refl, sym, ◌∙◌, ap, inl, inr, true, false, none, some, List, [], ◌∷◌, ◌++◌,
  arith, ◌==◌, leb, le→leb, leb→le, Bool-cases, length, length-append,
}
use my_network_library.Storage.Order.{KeyOrder, lt→ne}
use my_network_library.Storage.Table.{remove}
use my_network_library.Storage.Heap.{Ptr, null, Heap, deref, delete_node, set_node}
use my_network_library.Storage.SkipList.{Update, SkipList, unlink_levels, shrink_level, remove_node}
use my_network_library.Storage.SkipList.Spine.{
  Cell, node_of, succ_at, last_at, has, Linked, Below, succ_at-reach, succ_at-skip, Linked-drop,
}
use my_network_library.Storage.SkipList.View.{AtMost, AboveCell, Sorted, table, Represents}
use my_network_library.Storage.SkipList.Search.{Located, descent}
use my_network_library.Storage.SkipList.Links.{IsSlot}
use my_network_library.Storage.SkipList.Relink.{has-back, ne_of_has, Linked-frame, links-last_at}
use my_network_library.Storage.SkipList.Cells.{
  IsSlot-last_at, has-last_at_others, AtMost-append, AtMost-split,
}
use my_network_library.Storage.SkipList.Unlink.{
  unlink_levels_lem, Unlinked, unlink-Linked, shrink_level-AtMost,
}

module _ {K V : Type 0} where
  -- on a level that the first cell does not reach, another is next
  succ_at-ne :
      (j : ℕ) (c : Cell K V) (cs : List (Cell K V))
      → (c.ptr == null) ≡ false
      → has c.ptr cs ≡ false
      → (succ_at j (c ∷ cs) == c.ptr) ≡ leb j c.level
  succ_at-ne j c cs n out = elim (Bool-cases (leb j c.level)) [
    | inl t ↦ ap (λ p. p == c.ptr) (succ_at-reach j c cs t) ∙ ground (arith, t)
    | inr t ↦ ap (λ p. p == c.ptr) (succ_at-skip j c cs t) ∙ go cs out ∙ sym t
  ]
    where
      go : (ds : List (Cell K V)) → has c.ptr ds ≡ false → (succ_at j ds == c.ptr) ≡ false
      go [] o = unfold succ_at in ground arith
      go (d ∷ ds) o = elim (Bool-cases (leb j d.level)) [
        | inl t ↦ ap (λ p. p == c.ptr) (succ_at-reach j d ds t) ∙ ground arith
        | inr t ↦ ap (λ p. p == c.ptr) (succ_at-skip j d ds t) ∙ go ds (ground arith)
      ]

  has-middle :
      (h : Heap K V) (cs post : List (Cell K V)) (c : Cell K V)
      → Linked h (cs ++ c ∷ post)
      → has c.ptr (cs ++ post) ≡ false
  has-middle h [] post c l = l.1
  has-middle h (d ∷ cs) post c l =
      ground (arith, has-back d.ptr cs (c ∷ post) l.1, has-middle h cs post c l.4)

  module _ (o : KeyOrder K) where
    AboveCell-remove :
        (k : K) (pre post : List (Cell K V)) (c : Cell K V)
        → AboveCell o k (pre ++ c ∷ post)
        → AboveCell o k (pre ++ post)
    AboveCell-remove k [] post c a = a.1
    AboveCell-remove k (d ∷ pre) post c a = (a.0, AboveCell-remove k pre post c a.1)

    Sorted-remove :
        (pre post : List (Cell K V)) (c : Cell K V)
        → Sorted o (pre ++ c ∷ post)
        → Sorted o (pre ++ post)
    Sorted-remove [] post c s = s.1
    Sorted-remove (d ∷ pre) post c s =
        (AboveCell-remove d.key pre post c s.0, Sorted-remove pre post c s.1)

    pub table-remove :
        (key : K) (pre post : List (Cell K V)) (c : Cell K V)
        → Below o key pre
        → o.eq c.key key ≡ true
        → table (pre ++ post) ≡ remove o key (table (pre ++ c ∷ post))
    unfolding remove table
    table-remove key [] post c b e = rw e
    table-remove key (d ∷ pre) post c b e =
        rw (lt→ne o d.key key b.0)
          (ap (λ t. (d.key, d.value) ∷ t) (table-remove key pre post c b.1 e))

module _ {K V : Type 0} (o : KeyOrder K) (key : K) (s : SkipList K V) (cells : List (Cell K V))
    (w : Located o key s cells) (c : Cell K V) (post : List (Cell K V))
    (front : w.post ≡ c ∷ post) where
  abbrev head : Cell K V
  head = w.repr.head

  abbrev u : Update
  u = (descent o key s cells w).update

  linked : Linked s.heap (head ∷ w.pre ++ c ∷ post)
  linked = rw (← front) w.linked

  behind : Linked s.heap (c ∷ post)
  behind = Linked-drop s.heap (head ∷ w.pre) (c ∷ post) linked

  at : (j : ℕ) → j ≤ s.cur_level → u j ≡ last_at j head.ptr w.pre
  at j le = (descent o key s cells w).recorded j (omega arith)

  bounds : AtMost s.cur_level (w.pre ++ c ∷ post)
  bounds = rw (← front, w.split) w.repr.levels

  low : c.level ≤ s.cur_level
  low = (AtMost-split s.cur_level w.pre (c ∷ post) bounds).1.0

  IsSlot-update : (j : ℕ) → j ≤ s.cur_level → IsSlot s.heap.nodes (u j) j
  IsSlot-update j le = rw (at j le) (
      IsSlot-last_at s.heap j head.ptr w.pre (c ∷ post) linked.4 (record {
        node = node_of head;
        ne_null = linked.0;
        holds = linked.2;
        bound = le→leb j head.level (omega (arith, w.repr.full_height, w.repr.height));
      }))

  IsSlot-cur : (j : ℕ) → leb j c.level ≡ true → IsSlot s.heap.nodes c.ptr j
  IsSlot-cur j t = record { node = node_of c; ne_null = behind.0; holds = behind.2; bound = t }

  -- nothing before the node, and nothing that `update` holds, is the node or behind it
  update_out : (j : ℕ) → j ≤ s.cur_level → has (u j) (c ∷ post) ≡ false
  update_out j le =
      ap (λ p. has p (c ∷ post)) (at j le)
      ∙ (has-last_at_others s.heap j head.ptr w.pre (c ∷ post) linked.4
          (has-back head.ptr w.pre (c ∷ post) linked.1))

  hit : (j : ℕ) → j ≤ s.cur_level → (s.heap.links (u j) j == c.ptr) ≡ leb j c.level
  hit j le =
      ap (λ p. s.heap.links p j == c.ptr) (at j le)
      ∙ ap (λ p. p == c.ptr)
          (links-last_at s.heap j head.ptr w.pre (c ∷ post) linked.4
            (linked.3 j (omega (arith, w.repr.full_height, w.repr.height))))
      ∙ succ_at-ne j c post behind.0 behind.1

  Unlinked-levels :
      (l : Ptr → ℕ → Ptr) × (unlink_levels (s.cur_level + 1) 0 u c.ptr s.heap
        ≡ some (record s.heap { links = l }))
      × Unlinked s.heap (record s.heap { links = l }) u c
  Unlinked-levels =
      let (l, e, f) =
        unlink_levels_lem c.level (s.cur_level + 1) 0 u c.ptr s.heap
          (λ j _ t. IsSlot-update j (omega arith)) IsSlot-cur (λ j _ t. hit j (omega arith))
          (λ j _ t. ground (arith, update_out j (omega arith))) in
      (l, e, record { brk = refl; nodes = λ a. refl; links = λ a j. f a j ∙ ground (arith, low) })

  abbrev freed : Heap K V → Heap K V
  freed g = record g { nodes = set_node g.nodes c.ptr none }

  module _ (g : Heap K V) (r : Unlinked s.heap g u c) where
    linked_after : Linked g (head ∷ w.pre ++ post)
    linked_after =
        unlink-Linked r head (λ _. head.ptr) w.pre post linked
          (λ j t. behind.3 j (leb→le j c.level t)) (λ j t. at j (ground (arith, low))) (λ j _. refl)
          (Linked-frame s.heap g post behind.4 (λ a e. r.nodes a)
            (λ a j e. r.links a j ∙ elim (Bool-cases (leb j c.level)) [
              | inl t ↦ ground (
                arith,
                ne_of_has (u j) a post (ground (arith, update_out j (ground (arith, low)))) e,
              )
              | inr t ↦ ground (arith, t)
            ]))

    linked_freed : Linked (freed g) (head ∷ w.pre ++ post)
    linked_freed =
        Linked-frame g (freed g) (head ∷ w.pre ++ post) linked_after
          (λ a e. ground (
            arith,
            ne_of_has c.ptr a (head ∷ w.pre ++ post)
                (has-middle s.heap (head ∷ w.pre) post c linked) e,
          ))
          (λ a j e. refl)

    removed : ℕ → SkipList K V
    removed level = record s {
      cur_level = level;
      element_count = s.element_count - 1;
      heap = freed g;
    }

    removed-Represents :
        (level : ℕ)
        → level ≤ s.cur_level
        → AtMost level (w.pre ++ post)
        → Represents o (removed level) (w.pre ++ post)
    unfolding removed
    removed-Represents level le a = record {
      head = head;
      at_header = w.repr.at_header;
      full_height = w.repr.full_height;
      linked = linked_freed;
      sorted = Sorted-remove o w.pre post c (rw (← front, w.split) w.repr.sorted);
      counted = omega (
        arith,
        w.repr.counted,
        ap length w.split,
        ap length front,
        length-append w.pre w.post,
        length-append w.pre post,
      );
      levels = a;
      height = omega (arith, w.repr.height);
      bounded = λ a le. ground (arith, r.nodes a, r.brk, w.repr.bounded a);
    }

  -- the node is unlinked and freed, and the dictionary has lost the key
  pub remove_node-Represents :
      (s' : SkipList K V) × (remove_node s u c.ptr ≡ some (true, s'))
      × Represents o s' (w.pre ++ post)
      × (s'.heap.nodes c.ptr ≡ none)
  unfolding remove_node delete_node removed
  remove_node-Represents =
      let (l, e, r) = Unlinked-levels in
      let g : Heap K V = record s.heap { links = l } in
      let (lo, hi) = AtMost-split s.cur_level w.pre (c ∷ post) bounds in
      let (m, f, a, k) =
        shrink_level-AtMost s.cur_level (freed g) head (w.pre ++ post) (linked_freed g r)
          (omega (arith, w.repr.full_height, w.repr.height))
          (AtMost-append s.cur_level w.pre post lo hi.1) in
      (
        removed g r m,
        rw (e, deref_cur l, ap (shrink_level s.cur_level (freed g)) (sym w.repr.at_header) ∙ f),
        removed-Represents g r m k a,
        ground arith,
      )
    where
      deref_cur : (l : Ptr → ℕ → Ptr) → deref (record s.heap { links = l }) c.ptr ≡ some (node_of c)
      deref_cur l = unfold deref in rw (behind.0, behind.2)
