-- ===== src/Storage/SkipList/Search.antt =====
-- `searchElement` of src/storage/SkipList.h finds what the dictionary holds.
use my_network_library.Prelude.{
  ◌+◌, ◌≡◌, refl, sym, ap, ◌∙◌, Bool, true, false, Option, none, some, List, [], ◌∷◌, ◌++◌, arith,
  length, Bool-cases, inl, inr, if◌then◌else◌, length-append,
}
use my_network_library.Prelude.Monad.{◌>>=◌}
use my_network_library.Storage.Order.{KeyOrder, lt→ne, lt→ne_swap}
use my_network_library.Storage.Table.{lookup}
use my_network_library.Storage.Heap.{Heap, deref, null}
use my_network_library.Storage.SkipList.{SkipList, key_at, search_element}
use my_network_library.Storage.SkipList.Spine.{
  Cell, Linked, Below, AtLeast, succ_at, deref-Linked, Linked-drop, succ_at-zero,
}
use my_network_library.Storage.SkipList.Descend.{Descent, descend-Descent}
use my_network_library.Storage.SkipList.View.{
  Represents, table, smaller, others, smaller-append-others, Below-smaller, AtLeast-others, Sorted,
  AboveCell,
}

module _ {K V : Type 0} (o : KeyOrder K) (key : K) where
  -- whether the first cell has the key
  abbrev pub at_front : List (Cell K V) → Bool
  at_front [] = false
  at_front (c ∷ cs) = o.eq c.key key

  pub key_at-at_front :
      (h : Heap K V) (post : List (Cell K V))
      → Linked h post
      → key_at o h key (succ_at 0 post) ≡ some (at_front post)
  unfolding key_at
  key_at-at_front h [] l = unfold succ_at in refl
  key_at-at_front h (c ∷ cs) l = rw (succ_at-zero c cs, l.0, deref-Linked h c cs l)

  pub record Located (s : SkipList K V) (cells : List (Cell K V)) : Type 0 where
    pub repr : Represents o s cells
    pub pre : List (Cell K V)
    pub post : List (Cell K V)
    pub split : pre ++ post ≡ cells
    pub below : Below o key pre
    pub atleast : AtLeast o key post
    pub linked : Linked s.heap (repr.head ∷ pre ++ post)

  pub locate : (s : SkipList K V) (cells : List (Cell K V)) → Represents o s cells → Located s cells
  locate s cells r = record {
    repr = r;
    pre = smaller o key cells;
    post = others o key cells;
    split = smaller-append-others o key cells;
    below = Below-smaller o key cells;
    atleast = AtLeast-others o key cells r.sorted;
    linked = rw (smaller-append-others o key cells) r.linked;
  }

  pub descent :
      (s : SkipList K V) (cells : List (Cell K V)) (w : Located s cells)
      → Descent o key s.heap
          (s.cur_level + 1)
          s.max_level
          (s.element_count + 1)
          w.repr.head
          w.pre
          w.post
          (λ _. null)
  descent s cells w =
      descend-Descent o key s.heap (s.cur_level + 1) s.max_level (s.element_count + 1) w.repr.head
        w.pre w.post (λ _. null) w.linked w.below w.atleast
        (omega (arith, w.repr.full_height, w.repr.height)) (omega (arith, w.repr.height))
        (omega (arith, length-append w.pre w.post, ap length w.split, w.repr.counted))

  pub AboveCell-trans :
      (k : K) (cs : List (Cell K V)) → o.lt key k ≡ true → AboveCell o k cs → AboveCell o key cs
  AboveCell-trans k [] t a = tt
  AboveCell-trans k (c ∷ cs) t a = (o.lt_trans key k c.key t a.0, AboveCell-trans k cs t a.1)

  lookup-above : (cs : List (Cell K V)) → AboveCell o key cs → lookup o key (table cs) ≡ none
  unfolding lookup table
  lookup-above [] a = refl
  lookup-above (c ∷ cs) a = rw (lt→ne_swap o key c.key a.0) (lookup-above cs a.1)

  -- past the smaller keys the first cell decides
  abbrev pub front_value : List (Cell K V) → Option V
  front_value [] = none
  front_value (c ∷ cs) = if o.eq c.key key then some c.value else none

  lookup-front :
      (post : List (Cell K V))
      → AtLeast o key post
      → Sorted o post
      → lookup o key (table post) ≡ front_value post
  unfolding lookup table
  lookup-front [] a s = refl
  lookup-front (c ∷ cs) a s = elim (Bool-cases (o.eq c.key key)) [
    | inl t ↦ rw t
    | inr t ↦ rw t (lookup-above cs (AboveCell-trans c.key cs (o.lt_total c.key key a.0 t) s.0))
  ]

  pub lookup-Below :
      (pre post : List (Cell K V))
      → Below o key pre
      → lookup o key (table (pre ++ post)) ≡ lookup o key (table post)
  unfolding lookup table
  lookup-Below [] post b = refl
  lookup-Below (c ∷ pre) post b = rw (lt→ne o c.key key b.0) (lookup-Below pre post b.1)

  pub Sorted-drop : (pre post : List (Cell K V)) → Sorted o (pre ++ post) → Sorted o post
  Sorted-drop [] post s = s
  Sorted-drop (c ∷ pre) post s = Sorted-drop pre post s.1

  pub lookup-Located :
      (s : SkipList K V) (cells : List (Cell K V)) (w : Located s cells)
      → lookup o key (table cells) ≡ front_value w.post
  lookup-Located s cells w =
      ap (λ cs. lookup o key (table cs)) (sym w.split)
      ∙ lookup-Below w.pre w.post w.below
      ∙ lookup-front w.post w.atleast (Sorted-drop w.pre w.post (rw w.split w.repr.sorted))

  read_front :
      (h : Heap K V) (post : List (Cell K V))
      → Linked h post
      → (if at_front post
          then (do e ← deref h (succ_at 0 post); some (some e.value))
          else some none)
        ≡ some (front_value post)
  read_front h [] l = refl
  read_front h (c ∷ cs) l = elim (Bool-cases (o.eq c.key key)) [
    | inl t ↦ rw (t, succ_at-zero c cs, deref-Linked h c cs l)
    | inr t ↦ rw t
  ]

  -- From any well-formed skip list `searchElement` returns, without a fault and within its fuel,
  -- the value that the dictionary has for the key, or that it has none.
  pub search_element-lookup :
      (s : SkipList K V) (cells : List (Cell K V))
      → Represents o s cells
      → search_element o s key ≡ some (lookup o key (table cells))
  unfolding search_element
  search_element-lookup s cells r =
      let w = locate s cells r in
      let d = descent s cells w in
      let back = Linked-drop s.heap (w.repr.head ∷ w.pre) w.post w.linked in
      rw
        (
          ← w.repr.at_header,
          d.sought,
          d.lands (omega arith),
          key_at-at_front s.heap w.post back,
          lookup-Located s cells w,
        )
        (read_front s.heap w.post back)
