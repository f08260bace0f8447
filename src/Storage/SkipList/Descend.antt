-- ===== src/Storage/SkipList/Descend.antt =====
-- The descent from the top level to level 0 records in `update` the last smaller node of each
-- level, and ends just before the first node whose key is not smaller.
use my_network_library.Prelude.{
  ℕ, zero, suc, ◌≤◌, ◌<◌, ◌≡◌, ◌≢◌, refl, sym, ap, ◌∙◌, true, false, some, List, [], ◌∷◌, ◌++◌,
  arith, ◌==◌, le→leb, length, Bool-cases, ==_iff, inl, inr,
}
use my_network_library.Storage.Order.{KeyOrder}
use my_network_library.Storage.Heap.{Ptr, Heap, forward}
use my_network_library.Storage.SkipList.{Update, set_update, put_update, walk, descend, seek}
use my_network_library.Storage.SkipList.Spine.{
  Cell, succ_at, last_at, has, Linked, Below, AtLeast, forward-Linked, has-append,
}
use my_network_library.Storage.SkipList.Walk.{Stop, walk-last_at}

module _ {K V : Type 0} where
  -- on level 0 the last of some cells is one of them
  has-last_at :
      (p : Ptr) (c : Cell K V) (cs : List (Cell K V)) → has (last_at 0 p (c ∷ cs)) (c ∷ cs) ≡ true
  unfolding last_at
  has-last_at p c [] = ground arith
  has-last_at p c (d ∷ cs) = ground (arith, has-last_at c.ptr d cs)

  pub nil_of_last_at :
      (c : Cell K V) (cs : List (Cell K V))
      → has c.ptr cs ≡ false
      → last_at 0 c.ptr cs ≡ c.ptr
      → cs ≡ []
  nil_of_last_at c [] n e = refl
  nil_of_last_at c (d ∷ cs) n e = cc (ap (λ p. has p (d ∷ cs)) e, has-last_at c.ptr d cs)

  not-has :
      (h : Heap K V) (c : Cell K V) (cs post : List (Cell K V))
      → Linked h (c ∷ cs ++ post)
      → has c.ptr cs ≡ false
  not-has h c cs post l = ground (arith, has-append c.ptr cs post, l.1)

module _ {K V : Type 0} (o : KeyOrder K) (key : K) (h : Heap K V) where
  pub record Descent (l max n : ℕ) (e : Cell K V) (rest post : List (Cell K V)) (u : Update)
      : Type 0 where
    pub at : Ptr
    pub update : Update
    pub ran : descend o l max n h key e.ptr u ≡ some (at, update)
    pub sought : seek o l n h key e.ptr ≡ some at
    pub recorded : (j : ℕ) → j < l → update j ≡ last_at j e.ptr rest
    pub kept : (j : ℕ) → l ≤ j → update j ≡ u j
    pub stays : l ≡ 0 → at ≡ e.ptr
    pub lands : l ≢ 0 → forward h at 0 ≡ some (succ_at 0 post)

  lands-Stop :
      (e : Cell K V) (rest post : List (Cell K V)) (s : Stop o key h 0 e rest post)
      → forward h s.cell.ptr 0 ≡ some (succ_at 0 post)
  lands-Stop e rest post s =
      forward-Linked h s.cell (s.after ++ post) 0 s.linked s.reach
      ∙ ap (λ cs. some (succ_at 0 (cs ++ post)))
          (nil_of_last_at s.cell s.after (not-has h s.cell s.after post s.linked)
            (sym (s.same 0 (omega arith)) ∙ s.here))

  module _ (max n : ℕ) (e : Cell K V) (rest post : List (Cell K V)) (u : Update) where
    lands-Descent :
        (i : ℕ) (s : Stop o key h i e rest post) (at : Ptr)
        → (i ≡ 0 → at ≡ s.cell.ptr)
        → (i ≢ 0 → forward h at 0 ≡ some (succ_at 0 post))
        → forward h at 0 ≡ some (succ_at 0 post)
    lands-Descent zero s at stays lands = rw (stays refl) (lands-Stop e rest post s)
    lands-Descent (suc i) s at stays lands = lands (ground arith)

    Descent-step :
        (i : ℕ) (s : Stop o key h i e rest post)
        → i ≤ max
        → walk o n h key i e.ptr ≡ some s.cell.ptr
        → Descent i max n s.cell s.after post (set_update u i s.cell.ptr)
        → Descent (suc i) max n e rest post u
    unfolding descend seek put_update
    Descent-step i s m w d = record {
      at = d.at;
      update = d.update;
      ran = rw (w, le→leb i max m) d.ran;
      sought = rw w d.sought;
      recorded = λ j lt. elim (Bool-cases (j == i)) [
        | inl t ↦ rw ((==_iff j i).0 t) (d.kept i (omega arith) ∙ ground arith ∙ sym s.here)
        | inr f ↦ d.recorded j (ground arith) ∙ sym (s.same j (omega arith))
      ];
      kept = λ j le. d.kept j (omega arith) ∙ ground arith;
      stays = λ z. absurd (omega arith);
      lands = λ _. lands-Descent i s d.at d.stays d.lands;
    }

  pub descend-Descent :
      (l max n : ℕ) (e : Cell K V) (rest post : List (Cell K V)) (u : Update)
      → Linked h (e ∷ rest ++ post)
      → Below o key rest
      → AtLeast o key post
      → l ≤ suc e.level
      → l ≤ suc max
      → length rest < n
      → Descent l max n e rest post u
  descend-Descent zero max n e rest post u ln b a r m fuel = record {
    at = e.ptr;
    update = u;
    ran = unfold descend in refl;
    sought = unfold seek in refl;
    recorded = λ j lt. absurd (omega arith);
    kept = λ j _. refl;
    stays = λ _. refl;
    lands = λ ne. absurd (ne refl);
  }
  descend-Descent (suc i) max n e rest post u ln b a r m fuel =
      let (s, w) = walk-last_at o key h n i e rest post ln b a (omega arith) fuel in
      Descent-step max n e rest post u i s (omega arith) w (
        descend-Descent i max n s.cell s.after post (set_update u i s.cell.ptr) s.linked s.below a
          (omega (arith, s.reach)) (omega arith) (omega (arith, s.short)))
