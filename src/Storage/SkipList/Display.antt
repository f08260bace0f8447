-- ===== src/Storage/SkipList/Display.antt =====
-- The traversals of src/storage/SkipList.h (`displayList`, and the loop of `dumpFile`), and the
-- constructor.
use my_network_library.Prelude.{
  ℕ, zero, suc, ◌+◌, ◌≤◌, ◌<◌, ◌≡◌, refl, sym, ◌∙◌, ap, inl, inr, false, some, List, [], ◌∷◌, arith,
  ◌==◌, leb, le→leb, leb→le, if◌then◌else◌, Bool-cases, length,
}
use my_network_library.Storage.Order.{KeyOrder}
use my_network_library.Storage.Table.{Table}
use my_network_library.Storage.Heap.{Ptr, null, Heap, forward, create_node}
use my_network_library.Storage.SkipList.{
  SkipList, construct, traverse, entries, display_levels, display_list,
}
use my_network_library.Storage.SkipList.Spine.{
  Cell, succ_at, succ_at-reach, succ_at-skip, Linked, deref-Linked, forward-Linked,
}
use my_network_library.Storage.SkipList.View.{table, Represents}

module _ {K V : Type 0} where
  -- the pairs of the cells that reach level `i`
  unfoldable pub reaching : ℕ → List (Cell K V) → Table K V
  reaching i [] = []
  reaching i (c ∷ cs) = if leb i c.level then (c.key, c.value) ∷ reaching i cs else reaching i cs

  -- the rows of the levels `i`, …, `i + r - 1`
  unfoldable pub rows : ℕ → ℕ → List (Cell K V) → List (Table K V)
  rows zero i cs = []
  rows (suc r) i cs = reaching i cs ∷ rows r (i + 1) cs

  reaching-zero : (cs : List (Cell K V)) → reaching 0 cs ≡ table cs
  unfolding reaching table
  reaching-zero [] = refl
  reaching-zero (c ∷ cs) = rw (le→leb 0 c.level (omega arith), reaching-zero cs)

  traverse-reaching :
      (n : ℕ) (h : Heap K V) (i : ℕ) (cs : List (Cell K V))
      → Linked h cs
      → length cs < n
      → traverse n h i (succ_at i cs) ≡ some (reaching i cs)
  unfolding traverse reaching
  traverse-reaching zero h i cs l fuel = absurd (omega arith)
  traverse-reaching (suc n) h i [] l fuel = unfold succ_at in refl
  traverse-reaching (suc n) h i (c ∷ cs) l fuel = elim (Bool-cases (leb i c.level)) [
    | inl t ↦ rw (
      succ_at-reach i c cs t,
      l.0,
      deref-Linked h c cs l,
      forward-Linked h c cs i l (leb→le i c.level t),
      traverse-reaching n h i cs l.4 (omega arith),
      t,
    )
    | inr t ↦ rw (succ_at-skip i c cs t, t) (traverse-reaching (suc n) h i cs l.4 (omega arith))
  ]

module _ {K V : Type 0} (o : KeyOrder K) (s : SkipList K V) (cells : List (Cell K V))
    (r : Represents o s cells) where
  header_link : (i : ℕ) → i ≤ s.max_level → forward s.heap s.header i ≡ some (succ_at i cells)
  header_link i le =
      ap (λ p. forward s.heap p i) (sym r.at_header)
      ∙ forward-Linked s.heap r.head cells i r.linked (omega (arith, r.full_height))

  -- `dumpFile` writes the pairs of the dictionary, in order of key.
  pub entries-table : entries s ≡ some (table cells)
  unfolding entries
  entries-table = rw (
    header_link 0 (omega arith),
    traverse-reaching (s.element_count + 1) s.heap 0 cells r.linked.4 (omega (arith, r.counted)),
    reaching-zero cells,
  )

  display_levels-rows :
      (n i : ℕ) → n + i ≤ suc s.max_level → display_levels s n i ≡ some (rows n i cells)
  unfolding display_levels rows
  display_levels-rows zero i le = refl
  display_levels-rows (suc n) i le = rw (
    header_link i (omega arith),
    traverse-reaching (s.element_count + 1) s.heap i cells r.linked.4 (omega (arith, r.counted)),
    display_levels-rows n (i + 1) (omega arith),
  )

  -- `displayList` prints, for each level up to `_curLevel`, the pairs whose node reaches it.
  pub display_list-rows : display_list s ≡ some (rows (s.cur_level + 1) 0 cells)
  unfolding display_list
  display_list-rows = display_levels-rows (s.cur_level + 1) 0 (omega (arith, r.height))

-- The constructor gives a well-formed list for the empty dictionary.
pub construct-Represents :
    {K V : Type 0} (o : KeyOrder K) (max : ℕ) (header : Ptr) (k : K) (v : V)
    → (header == null) ≡ false
    → Represents o (construct max header k v) []
unfolding construct create_node
construct-Represents {K} {V} o max header k v ne = record {
  head = record { ptr = header; key = k; value = v; level = max };
  at_header = refl;
  full_height = refl;
  linked = (ne, refl, ground arith, λ j le. unfold succ_at in ground arith, tt);
  sorted = tt;
  counted = refl;
  levels = tt;
  height = omega arith;
  bounded = λ a le. ground arith;
}
