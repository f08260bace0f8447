-- ===== src/Storage/SkipList/Links.antt =====
-- The loops of `insertElement` in src/storage/SkipList.h that fill `update` and link the new node.
use my_network_library.Prelude.{
  ℕ, zero, suc, ◌+◌, ◌≤◌, ◌<◌, ◌≡◌, refl, true, false, ◌&&◌, Option, some, arith, ◌==◌, leb, ltb,
  if◌then◌else◌, le→leb,
}
use my_network_library.Storage.Heap.{Ptr, null, Node, Heap, deref, forward, set_forward, set_link}
use my_network_library.Storage.SkipList.{Update, set_update, put_update, fill_update, link_levels}

-- `update` gets the header at the levels `i`, …, `i + r - 1`
pub fill_update_lem :
    (max : ℕ) (header : Ptr) (r i : ℕ) (u : Update)
    → i + r ≤ suc max
    → (u' : Update) × (fill_update max header r i u ≡ some u')
      × ((j : ℕ) → u' j ≡ (if leb i j && ltb j (i + r) then header else u j))
unfolding fill_update put_update
fill_update_lem max header zero i u le = (u, refl, λ j. ground arith)
fill_update_lem max header (suc r) i u le =
    let (u', e, f) = fill_update_lem max header r (i + 1) (set_update u i header) (omega arith) in
    (u', rw (le→leb i max (omega arith)) e, λ j. ground (arith, f j))

module _ {K V : Type 0} where
  -- `p->_forward[j]` is within bounds
  pub record IsSlot (m : Ptr → Option (Node K V)) (p : Ptr) (j : ℕ) : Type 0 where
    pub node : Node K V
    pub ne_null : (p == null) ≡ false
    pub holds : m p ≡ some node
    pub bound : leb j node.level ≡ true

  module _ (h : Heap K V) (p : Ptr) (j : ℕ) (v : IsSlot h.nodes p j) where
    pub forward-IsSlot : forward h p j ≡ some (h.links p j)
    unfolding forward deref
    forward-IsSlot = rw (v.ne_null, v.holds, v.bound)

    pub set_forward-IsSlot :
        (q : Ptr) → set_forward h p j q ≡ some (record h { links = set_link h.links p j q })
    unfolding set_forward deref
    set_forward-IsSlot q = rw (v.ne_null, v.holds, v.bound)

  -- the loop gives the new node the successors of `update`, and puts it behind `update`
  pub link_levels_lem :
      (r i : ℕ) (u : Update) (new : Ptr) (h : Heap K V)
      → ((j : ℕ) → i ≤ j → j < i + r → IsSlot h.nodes (u j) j)
      → ((j : ℕ) → i ≤ j → j < i + r → IsSlot h.nodes new j)
      → ((j : ℕ) → i ≤ j → j < i + r → (u j == new) ≡ false)
      → (l : Ptr → ℕ → Ptr) × (link_levels r i u new h ≡ some (record h { links = l }))
        × ((a : Ptr) (j : ℕ)
            → l a j ≡ (
                if leb i j && ltb j (i + r)
                then if a == new then h.links (u j) j else if a == u j then new else h.links a j
                else h.links a j))
  unfolding link_levels
  link_levels_lem zero i u new h at_u at_new ne = (h.links, refl, λ a j. ground arith)
  link_levels_lem (suc r) i u new h at_u at_new ne =
      let q = h.links (u i) i in
      let h₁ : Heap K V = record h { links = set_link h.links new i q } in
      let h₂ : Heap K V = record h { links = set_link h₁.links (u i) i new } in
      let slot = at_u i (omega arith) (omega arith) in
      let (l, e, f) =
        link_levels_lem r (i + 1) u new h₂ (λ j a b. at_u j (omega arith) (omega arith))
          (λ j a b. at_new j (omega arith) (omega arith))
          (λ j a b. ne j (omega arith) (omega arith)) in
      (
        l,
        rw
            (
              forward-IsSlot h (u i) i slot,
              set_forward-IsSlot h new i (at_new i (omega arith) (omega arith)) q,
              set_forward-IsSlot h₁ (u i) i slot new,
            )
            e,
        λ a j. ground (arith, f a j, ne i (omega arith) (omega arith), ne j),
      )
