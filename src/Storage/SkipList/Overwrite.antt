-- ===== src/Storage/SkipList/Overwrite.antt =====
-- The branch of `insertElement` of src/storage/SkipList.h for a key that is there.
use my_network_library.Prelude.{
  ℕ, suc, ◌≡◌, refl, sym, ◌∙◌, ap, true, false, some, List, [], ◌∷◌, ◌++◌, arith, ◌==◌, length,
}
use my_network_library.Storage.Order.{KeyOrder}
use my_network_library.Storage.Table.{put}
use my_network_library.Storage.Heap.{Ptr, Heap, set_node, set_value}
use my_network_library.Storage.SkipList.{SkipList, overwrite}
use my_network_library.Storage.SkipList.Spine.{
  Cell, node_of, succ_at, has, Linked, Below, deref-Linked, Linked-drop,
}
use my_network_library.Storage.SkipList.View.{AtMost, AboveCell, Sorted, table, Represents}
use my_network_library.Storage.SkipList.Relink.{Linked-frame, ne_of_has, has-back}

module _ {K V : Type 0} (c : Cell K V) (value : V) where
  abbrev pub revalued : Cell K V
  revalued = record c { value = value }

  succ_at-revalued :
      (j : ℕ) (pre post : List (Cell K V))
      → succ_at j (pre ++ revalued ∷ post) ≡ succ_at j (pre ++ c ∷ post)
  unfolding succ_at
  succ_at-revalued j [] post = refl
  succ_at-revalued j (d ∷ pre) post = ground (arith, succ_at-revalued j pre post)

  has-revalued :
      (a : Ptr) (pre post : List (Cell K V))
      → has a (pre ++ revalued ∷ post) ≡ has a (pre ++ c ∷ post)
  has-revalued a [] post = refl
  has-revalued a (d ∷ pre) post = ground (arith, has-revalued a pre post)

  abbrev revalued_heap : Heap K V → Heap K V
  revalued_heap h = record h { nodes = set_node h.nodes c.ptr (some (node_of revalued)) }

  Linked-revalued :
      (h : Heap K V) (pre post : List (Cell K V))
      → Linked h (pre ++ c ∷ post)
      → Linked (revalued_heap h) (pre ++ revalued ∷ post)
  Linked-revalued h [] post l = (
    l.0,
    l.1,
    ground arith,
    l.3,
    Linked-frame h (revalued_heap h) post l.4 (λ a e. ground (arith, ne_of_has c.ptr a post l.1 e))
        (λ a j e. refl),
  )
  Linked-revalued h (d ∷ pre) post l = (
    l.0,
    has-revalued d.ptr pre post ∙ l.1,
    ground (arith, l.2, apart),
    λ j t. l.3 j t ∙ sym (succ_at-revalued j pre post),
    Linked-revalued h pre post l.4,
  )
    where
      apart : (d.ptr == c.ptr) ≡ false
      apart =
          let out : has d.ptr (c ∷ post) ≡ false = has-back d.ptr pre (c ∷ post) l.1 in ground arith

  AtMost-revalued :
      (m : ℕ) (pre post : List (Cell K V))
      → AtMost m (pre ++ c ∷ post)
      → AtMost m (pre ++ revalued ∷ post)
  AtMost-revalued m [] post a = a
  AtMost-revalued m (d ∷ pre) post a = (a.0, AtMost-revalued m pre post a.1)

  length-revalued :
      (pre post : List (Cell K V)) → length (pre ++ revalued ∷ post) ≡ length (pre ++ c ∷ post)
  length-revalued [] post = refl
  length-revalued (d ∷ pre) post = ap suc (length-revalued pre post)

  module _ (o : KeyOrder K) where
    AboveCell-revalued :
        (k : K) (pre post : List (Cell K V))
        → AboveCell o k (pre ++ c ∷ post)
        → AboveCell o k (pre ++ revalued ∷ post)
    AboveCell-revalued k [] post a = a
    AboveCell-revalued k (d ∷ pre) post a = (a.0, AboveCell-revalued k pre post a.1)

    Sorted-revalued :
        (pre post : List (Cell K V))
        → Sorted o (pre ++ c ∷ post)
        → Sorted o (pre ++ revalued ∷ post)
    Sorted-revalued [] post s = s
    Sorted-revalued (d ∷ pre) post s =
        (AboveCell-revalued d.key pre post s.0, Sorted-revalued pre post s.1)

    -- the node keeps its place, and the dictionary has the new value
    pub overwrite-Represents :
        (s : SkipList K V) (pre post : List (Cell K V)) (draws : List ℕ)
        → Represents o s (pre ++ c ∷ post)
        → (s' : SkipList K V) × (overwrite s c.ptr value draws ≡ some (true, s', draws))
          × Represents o s' (pre ++ revalued ∷ post)
    unfolding overwrite set_value
    overwrite-Represents s pre post draws r = (
      record s { heap = revalued_heap s.heap },
      rw (deref-Linked s.heap c post (Linked-drop s.heap (r.head ∷ pre) (c ∷ post) r.linked)),
      record {
        head = r.head;
        at_header = r.at_header;
        full_height = r.full_height;
        linked = Linked-revalued s.heap (r.head ∷ pre) post r.linked;
        sorted = Sorted-revalued pre post r.sorted;
        counted = r.counted ∙ sym (length-revalued pre post);
        levels = AtMost-revalued s.cur_level pre post r.levels;
        height = r.height;
        bounded = λ a le. ground (
          arith,
          r.bounded a,
          r.bounded c.ptr,
          (Linked-drop s.heap (r.head ∷ pre) (c ∷ post) r.linked).2,
        );
      },
    )

    pub table-overwrite :
        (key : K) (pre post : List (Cell K V))
        → Below o key pre
        → o.lt c.key key ≡ false
        → o.eq c.key key ≡ true
        → table (pre ++ revalued ∷ post) ≡ put o key value (table (pre ++ c ∷ post))
    unfolding put table
    table-overwrite key [] post b n e = rw (n, e)
    table-overwrite key (d ∷ pre) post b n e =
        rw b.0 (ap (λ t. (d.key, d.value) ∷ t) (table-overwrite key pre post b.1 n e))
