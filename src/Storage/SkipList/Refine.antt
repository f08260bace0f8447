-- ===== src/Storage/SkipList/Refine.antt =====
-- The skip list of src/storage/SkipList.h refines the sorted dictionary: each operation, from any
-- well-formed list, ends without a fault in a well-formed list for the updated dictionary.
use my_network_library.Prelude.{
  ℕ, ◌+◌, ◌≡◌, refl, sym, ◌∙◌, ap, inl, inr, Bool, true, false, Option, none, some, List, [], ◌∷◌,
  ◌++◌, arith, ◌==◌, if◌then◌else◌, Bool-cases,
}
use my_network_library.Storage.Order.{KeyOrder, lt→ne, lt→ne_swap, eq→not_lt}
use my_network_library.Storage.Table.{lookup, put, remove}
use my_network_library.Storage.Heap.{Ptr, null, forward}
use my_network_library.Storage.SkipList.{
  SkipList, key_at, descend, insert_element, insert_new, delete_element, remove_node, overwrite,
}
use my_network_library.Storage.SkipList.Spine.{Cell, succ_at, succ_at-zero, Below, Linked-drop}
use my_network_library.Storage.SkipList.View.{AboveCell, table, Represents}
use my_network_library.Storage.SkipList.Search.{
  at_front, front_value, key_at-at_front, Located, locate, descent, lookup-Located, Sorted-drop,
}
use my_network_library.Storage.SkipList.Cells.{AboveCell-front}
use my_network_library.Storage.SkipList.Level.{has_even, get_random_level_bounds}
use my_network_library.Storage.SkipList.Insert.{cell, insert_node-Represents, table-insert}
use my_network_library.Storage.SkipList.Overwrite.{revalued, overwrite-Represents, table-overwrite}
use my_network_library.Storage.SkipList.Delete.{remove_node-Represents, table-remove}

abbrev pub is_some {ℓ} : {A : Type ℓ} → Option A → Bool
is_some none = false
is_some (some a) = true

module _ {K V : Type 0} (o : KeyOrder K) (key : K) where
  is_some-front_value :
      (post : List (Cell K V)) → is_some (front_value o key post) ≡ at_front o key post
  is_some-front_value [] = refl
  is_some-front_value (c ∷ cs) = ground arith

  is_some-lookup :
      (s : SkipList K V) (cells : List (Cell K V)) (w : Located o key s cells)
      → is_some (lookup o key (table cells)) ≡ at_front o key w.post
  is_some-lookup s cells w =
      ap is_some (lookup-Located o key s cells w) ∙ is_some-front_value w.post

  -- the search that begins `insertElement` and `deleteElement`
  module _ (s : SkipList K V) (cells : List (Cell K V)) (w : Located o key s cells) where
    lands : forward s.heap (descent o key s cells w).at 0 ≡ some (succ_at 0 w.post)
    lands = (descent o key s cells w).lands (omega arith)

    found : key_at o s.heap key (succ_at 0 w.post) ≡ some (at_front o key w.post)
    found =
        key_at-at_front o key s.heap w.post
          (Linked-drop s.heap (w.repr.head ∷ w.pre) w.post w.linked)

    start :
        descend o
          (s.cur_level + 1)
          s.max_level
          (s.element_count + 1)
          s.heap
          key
          s.header
          (λ _. null)
        ≡ some ((descent o key s cells w).at, (descent o key s cells w).update)
    start =
        ap
          (λ p.
            descend o (s.cur_level + 1) s.max_level (s.element_count + 1) s.heap key p (λ _. null))
          (sym w.repr.at_header)
        ∙ (descent o key s cells w).ran

    insert_element-branch :
        (value : V) (new : Ptr) (draws : List ℕ)
        → insert_element o s key value new draws ≡ (
            if at_front o key w.post
            then overwrite s (succ_at 0 w.post) value draws
            else insert_new s (descent o key s cells w).update key value new draws)
    unfolding insert_element
    insert_element-branch value new draws = rw (start, lands, found)

    delete_element-branch : delete_element o s key ≡ (
        if at_front o key w.post
        then remove_node s (descent o key s cells w).update (succ_at 0 w.post)
        else some (false, s))
    unfolding delete_element
    delete_element-branch = rw (start, lands, found)

  -- the front cell of a list whose front has the key
  front_cell :
      (post : List (Cell K V))
      → at_front o key post ≡ true
      → (c : Cell K V) × (cs : List (Cell K V)) × (post ≡ c ∷ cs) × (o.eq c.key key ≡ true)
  front_cell [] t = cc
  front_cell (c ∷ cs) t = (c, cs, refl, t)

  -- what a run of `insertElement` leaves
  pub record Inserted (s : SkipList K V) (cells : List (Cell K V)) (value : V) (new : Ptr)
      (draws : List ℕ) : Type 0 where
    pub next : SkipList K V
    pub cells' : List (Cell K V)
    pub draws' : List ℕ
    pub ran :
        insert_element o s key value new draws
        ≡ some (is_some (lookup o key (table cells)), next, draws')
    pub repr : Represents o next cells'
    pub dictionary : table cells' ≡ put o key value (table cells)

  -- From any well-formed list, with an unused address for the new node and an even number among
  -- the results of `rand()`, `insertElement` ends without a fault. It returns 1 exactly when the
  -- key is there already, and leaves a well-formed list for the dictionary with the new pair.
  pub insert_element-put :
      (s : SkipList K V) (cells : List (Cell K V)) (value : V) (new : Ptr) (draws : List ℕ)
      → Represents o s cells
      → s.heap.nodes new ≡ none
      → (new == null) ≡ false
      → has_even draws ≡ true
      → Inserted s cells value new draws
  insert_element-put s cells value new draws r fresh ne even =
      let w = locate o key s cells r in
      elim (Bool-cases (at_front o key w.post)) [
        | inl hit ↦
            let (c, post, e, t) = front_cell w.post hit in
            let whole : w.pre ++ c ∷ post ≡ cells = ap (λ p. w.pre ++ p) (sym e) ∙ w.split in
            let (s', ran, r') = overwrite-Represents c value o s w.pre post draws (rw whole r) in
            record {
              next = s';
              cells' = w.pre ++ revalued c value ∷ post;
              draws' = draws;
              ran =
                  insert_element-branch s cells w value new draws
                  ∙ rw (hit, is_some-lookup s cells w, hit, e, succ_at-zero c post) ran;
              repr = r';
              dictionary =
                  table-overwrite c value o key w.pre post w.below (eq→not_lt o c.key key t) t
                  ∙ ap (λ cs. put o key value (table cs)) whole;
            }
        | inr miss ↦
            let (level, rest, got, le) = get_random_level_bounds s.max_level draws even in
            let (s', ran, r') =
              insert_node-Represents o key value new level s cells w fresh ne le miss in
            record {
              next = s';
              cells' = w.pre ++ cell new key value level ∷ w.post;
              draws' = rest;
              ran =
                  insert_element-branch s cells w value new draws
                  ∙ rw (miss, is_some-lookup s cells w, miss) (unfold insert_new in rw (got, ran));
              repr = r';
              dictionary = table-insert o key value new level s cells w fresh ne miss;
            }
      ]

  remove-above : (cs : List (Cell K V)) → AboveCell o key cs → remove o key (table cs) ≡ table cs
  unfolding remove table
  remove-above [] a = refl
  remove-above (c ∷ cs) a =
      rw (lt→ne_swap o key c.key a.0) (ap (λ t. (c.key, c.value) ∷ t) (remove-above cs a.1))

  remove-Below :
      (pre post : List (Cell K V))
      → Below o key pre
      → AboveCell o key post
      → remove o key (table (pre ++ post)) ≡ table (pre ++ post)
  unfolding remove table
  remove-Below [] post b a = remove-above post a
  remove-Below (c ∷ pre) post b a =
      rw (lt→ne o c.key key b.0) (ap (λ t. (c.key, c.value) ∷ t) (remove-Below pre post b.1 a))

  pub record Deleted (s : SkipList K V) (cells : List (Cell K V)) : Type 0 where
    pub next : SkipList K V
    pub cells' : List (Cell K V)
    pub ran : delete_element o s key ≡ some (is_some (lookup o key (table cells)), next)
    pub repr : Represents o next cells'
    pub dictionary : table cells' ≡ remove o key (table cells)

  -- From any well-formed list `deleteElement` ends without a fault, returns `true` exactly when the
  -- key is there, and leaves a well-formed list for the dictionary without the key.
  pub delete_element-remove :
      (s : SkipList K V) (cells : List (Cell K V)) → Represents o s cells → Deleted s cells
  delete_element-remove s cells r =
      let w = locate o key s cells r in
      elim (Bool-cases (at_front o key w.post)) [
        | inl hit ↦
            let (c, post, e, t) = front_cell w.post hit in
            let whole : w.pre ++ c ∷ post ≡ cells = ap (λ p. w.pre ++ p) (sym e) ∙ w.split in
            let (s', ran, r', freed) = remove_node-Represents o key s cells w c post e in
            record {
              next = s';
              cells' = w.pre ++ post;
              ran =
                  delete_element-branch s cells w
                  ∙ rw (hit, is_some-lookup s cells w, hit, e, succ_at-zero c post) ran;
              repr = r';
              dictionary =
                  table-remove o key w.pre post c w.below t
                  ∙ ap (λ cs. remove o key (table cs)) whole;
            }
        | inr miss ↦
            let above =
              AboveCell-front o key w.post w.atleast
                (Sorted-drop o key w.pre w.post (rw w.split r.sorted)) miss in
            record {
              next = s;
              cells' = cells;
              ran = delete_element-branch s cells w ∙ rw (miss, is_some-lookup s cells w, miss);
              repr = r;
              dictionary = sym (
                  ap (λ cs. remove o key (table cs)) (sym w.split)
                  ∙ remove-Below w.pre w.post w.below above
                  ∙ ap table w.split);
            }
      ]
