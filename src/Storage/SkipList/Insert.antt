-- ===== src/Storage/SkipList/Insert.antt =====
-- The branch of `insertElement` of src/storage/SkipList.h that adds a node.
use my_network_library.Prelude.{
  ℕ, ◌+◌, ◌-◌, ◌≤◌, ◌<◌, ◌≡◌, refl, sym, ◌∙◌, ap, inl, inr, true, false, none, some, List, ◌∷◌,
  ◌++◌, arith, ◌==◌, leb, ltb, if◌then◌else◌, le→leb, Bool-cases, length, length-append,
}
use my_network_library.Storage.Order.{KeyOrder}
use my_network_library.Storage.Table.{put}
use my_network_library.Storage.Heap.{Ptr, null, Heap, create_node}
use my_network_library.Storage.SkipList.{Update, SkipList, fill_update, link_levels, insert_node}
use my_network_library.Storage.SkipList.Spine.{Cell, node_of, last_at, has, Linked, Linked-drop}
use my_network_library.Storage.SkipList.View.{AtMost, Sorted, table, Represents}
use my_network_library.Storage.SkipList.Search.{at_front, Located, descent, Sorted-drop}
use my_network_library.Storage.SkipList.Links.{IsSlot, fill_update_lem, link_levels_lem}
use my_network_library.Storage.SkipList.Relink.{
  has-back, has-front, ne_of_has, Linked-frame, links-last_at, Relinked, relink-Linked,
}
use my_network_library.Storage.SkipList.Cells.{
  has-none, last_at-tall, IsSlot-last_at, has-last_at_others, last_at-ne, AtMost-mono,
  AtMost-append, AtMost-split, AboveCell-front, Sorted-insert, put-insert,
}

abbrev pub cell : {K V : Type 0} → Ptr → K → V → ℕ → Cell K V
cell p k v l = record { ptr = p; key = k; value = v; level = l }

module _ {K V : Type 0} (o : KeyOrder K) (key : K) (value : V) (new : Ptr) (level : ℕ)
    (s : SkipList K V) (cells : List (Cell K V)) (w : Located o key s cells)
    (fresh : s.heap.nodes new ≡ none) (ne_null : (new == null) ≡ false) where
  abbrev new_cell : Cell K V
  new_cell = cell new key value level

  abbrev head : Cell K V
  head = w.repr.head

  abbrev new_heap : Heap K V
  new_heap = create_node s.heap new key value level

  out : has new (head ∷ w.pre ++ w.post) ≡ false
  out = has-none s.heap new (head ∷ w.pre ++ w.post) w.linked fresh

  linked_new : Linked new_heap (head ∷ w.pre ++ w.post)
  unfolding create_node
  linked_new =
      Linked-frame s.heap new_heap (head ∷ w.pre ++ w.post) w.linked
        (λ a e. ground (arith, ne_of_has new a (head ∷ w.pre ++ w.post) out e))
        (λ a j e. ground (arith, ne_of_has new a (head ∷ w.pre ++ w.post) out e))

  levels_pre : AtMost s.cur_level w.pre
  levels_pre = (AtMost-split s.cur_level w.pre w.post (rw w.split w.repr.levels)).0

  -- `update`, filled up, holds the last smaller node of each level of the new node
  filled :
      level ≤ s.max_level
      → (u : Update) × (fill_update s.max_level s.header
            (level - s.cur_level)
            (s.cur_level + 1)
            (descent o key s cells w).update
          ≡ some u)
        × ((j : ℕ) → leb j level ≡ true → u j ≡ last_at j head.ptr w.pre)
  filled le =
      let d = descent o key s cells w in
      let (u, e, f) =
        fill_update_lem s.max_level s.header (level - s.cur_level) (s.cur_level + 1) d.update
          (omega (arith, w.repr.height)) in
      (
        u,
        e,
        λ j t. f j ∙ elim (Bool-cases (leb j s.cur_level)) [
          | inl low ↦ ground arith ∙ d.recorded j (ground arith)
          | inr high ↦
              ground arith
              ∙ sym w.repr.at_header
              ∙ sym (last_at-tall s.cur_level j head.ptr w.pre levels_pre (ground arith))
        ],
      )

  module _ (u : Update) (at : (j : ℕ) → leb j level ≡ true → u j ≡ last_at j head.ptr w.pre)
      (le : level ≤ s.max_level) where
    IsSlot-new : (j : ℕ) → j < level + 1 → IsSlot new_heap.nodes new j
    unfolding create_node
    IsSlot-new j t = record {
      node = node_of new_cell;
      ne_null = ne_null;
      holds = ground arith;
      bound = ground arith;
    }

    IsSlot-update : (j : ℕ) → j < level + 1 → IsSlot new_heap.nodes (u j) j
    IsSlot-update j t = rw (at j (ground arith)) (
        IsSlot-last_at new_heap j head.ptr w.pre w.post linked_new.4 (record {
          node = node_of head;
          ne_null = linked_new.0;
          holds = linked_new.2;
          bound = le→leb j head.level (omega (arith, w.repr.full_height));
        }))

    update_ne : (j : ℕ) → leb j level ≡ true → (new == u j) ≡ false
    update_ne j t = rw (at j t) (
        last_at-ne j head.ptr new w.pre (ground (arith, out))
          (has-front new w.pre w.post (ground (arith, out))))

    out_post : has new w.post ≡ false
    out_post = has-back new (head ∷ w.pre) w.post out

    update_out : (j : ℕ) → leb j level ≡ true → has (u j) w.post ≡ false
    update_out j t = rw (at j t) (
        has-last_at_others new_heap j head.ptr w.pre w.post linked_new.4
          (has-back head.ptr w.pre w.post linked_new.1))

    linked_levels :
        (l : Ptr → ℕ → Ptr) × (link_levels (level + 1) 0 u new new_heap
          ≡ some (record new_heap { links = l }))
        × Relinked new_heap (record new_heap { links = l }) u new_cell
    linked_levels =
        let (l, e, f) =
          link_levels_lem (level + 1) 0 u new new_heap (λ j _ t. IsSlot-update j (omega arith))
            (λ j _ t. IsSlot-new j (omega arith)) (λ j _ t. ground (arith, update_ne j)) in
        (l, e, record { brk = refl; nodes = λ a. refl; links = λ a j. f a j ∙ ground arith })

    module _ (g : Heap K V) (r : Relinked new_heap g u new_cell) where
      back : Linked g (new_cell ∷ w.post)
      unfolding create_node
      back = (
        ne_null,
        out_post,
        r.nodes new ∙ ground arith,
        λ j t.
            r.links new j
            ∙ ground (arith, le→leb j level t)
            ∙ ap (λ p. new_heap.links p j) (at j (le→leb j level t))
            ∙ links-last_at new_heap j head.ptr w.pre w.post linked_new.4
                (linked_new.3 j (omega (arith, w.repr.full_height))),
        Linked-frame new_heap g w.post (Linked-drop new_heap (head ∷ w.pre) w.post linked_new)
            (λ a e. r.nodes a)
            (λ a j e. r.links a j ∙ elim (Bool-cases (leb j level)) [
              | inl t ↦ ground (
                arith,
                ne_of_has new a w.post out_post e,
                ne_of_has (u j) a w.post (update_out j t) e,
              )
              | inr t ↦ ground (arith, t)
            ]),
      )

      relinked : Linked g (head ∷ w.pre ++ new_cell ∷ w.post)
      relinked =
          relink-Linked r head (λ _. head.ptr) w.pre w.post linked_new out at (λ j _. refl) back

      inserted : SkipList K V
      inserted = record s {
        cur_level = if ltb s.cur_level level then level else s.cur_level;
        element_count = s.element_count + 1;
        heap = g;
      }

      inserted-Represents :
          at_front o key w.post ≡ false → Represents o inserted (w.pre ++ new_cell ∷ w.post)
      unfolding inserted create_node
      inserted-Represents miss =
          let (lo, hi) = AtMost-split s.cur_level w.pre w.post (rw w.split w.repr.levels) in
          let top : ℕ = if ltb s.cur_level level then level else s.cur_level in
          let up : s.cur_level ≤ top = ground arith in
          let fits : level ≤ top = ground arith in
          let sorted : Sorted o (w.pre ++ w.post) = rw w.split w.repr.sorted in
          record {
            head = head;
            at_header = w.repr.at_header;
            full_height = w.repr.full_height;
            linked = relinked;
            sorted = Sorted-insert o key w.pre w.post new_cell refl sorted w.below (
                AboveCell-front o key w.post w.atleast (Sorted-drop o key w.pre w.post sorted)
                  miss);
            counted = omega (
              arith,
              w.repr.counted,
              ap length w.split,
              length-append w.pre w.post,
              length-append w.pre (new_cell ∷ w.post),
            );
            levels =
                AtMost-append top w.pre (new_cell ∷ w.post)
                  (AtMost-mono s.cur_level top w.pre lo up)
                  (fits, AtMost-mono s.cur_level top w.post hi up);
            height = ground (arith, w.repr.height);
            bounded = λ a le. r.nodes a ∙ ground (arith, r.brk, w.repr.bounded a);
          }

  -- the new node is in its place, and the dictionary has the new pair
  pub insert_node-Represents :
      level ≤ s.max_level
      → at_front o key w.post ≡ false
      → (s' : SkipList K V) × (insert_node s (descent o key s cells w).update key value new level
          ≡ some s')
        × Represents o s' (w.pre ++ new_cell ∷ w.post)
  unfolding insert_node inserted
  insert_node-Represents le miss =
      let (u, e, at) = filled le in
      let (l, f, r) = linked_levels u at le in
      let g : Heap K V = record new_heap { links = l } in
      (inserted u at le g r, rw (e, f), inserted-Represents u at le g r miss)

  pub table-insert :
      at_front o key w.post ≡ false
      → table (w.pre ++ new_cell ∷ w.post) ≡ put o key value (table cells)
  table-insert miss =
      sym (put-insert o key value w.pre w.post new_cell refl refl w.below w.atleast miss)
      ∙ ap (λ cs. put o key value (table cs)) w.split
