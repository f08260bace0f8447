-- ===== src/Storage/SkipList/Relink.antt =====
-- The pointers that `insertElement` of src/storage/SkipList.h leaves are those of the longer list.
use my_network_library.Prelude.{
  ℕ, ◌≤◌, ◌≡◌, refl, sym, ◌∙◌, ap, ◌⊎◌, inl, inr, true, false, List, [], ◌∷◌, ◌++◌, arith, ◌==◌,
  leb, if◌then◌else◌, le→leb, leb→le, Bool-cases, ==_iff,
}
use my_network_library.Storage.Heap.{Ptr, Heap}
use my_network_library.Storage.SkipList.{Update}
use my_network_library.Storage.SkipList.Spine.{
  Cell, succ_at, last_at, has, has-append, Linked, succ_at-reach, succ_at-skip, last_at-reach,
  last_at-skip,
}

module _ {K V : Type 0} where
  -- either no cell of `cs` reaches level `j`, or the last that does is one of them
  pub reach_cases :
      (j : ℕ) (p : Ptr) (cs : List (Cell K V))
      → ((last_at j p cs ≡ p) × ((zs : List (Cell K V)) → succ_at j (cs ++ zs) ≡ succ_at j zs))
        ⊎ ((has (last_at j p cs) cs ≡ true)
            × ((zs ws : List (Cell K V)) → succ_at j (cs ++ zs) ≡ succ_at j (cs ++ ws)))
  reach_cases j p [] = inl (unfold last_at in refl, λ zs. refl)
  reach_cases j p (c ∷ cs) = elim (Bool-cases (leb j c.level)) [
    | inl t ↦ inr (
      ap (λ q. has q (c ∷ cs)) (last_at-reach j p c cs t) ∙ elim (reach_cases j c.ptr cs) [
        | inl (e, _) ↦ ground (arith, e)
        | inr (e, _) ↦ ground (arith, e)
      ],
      λ zs ws. succ_at-reach j c (cs ++ zs) t ∙ sym (succ_at-reach j c (cs ++ ws) t),
    )
    | inr t ↦ elim (reach_cases j p cs) [
      | inl (e, f) ↦ inl (last_at-skip j p c cs t ∙ e, λ zs. succ_at-skip j c (cs ++ zs) t ∙ f zs)
      | inr (e, f) ↦ inr (
        ap (λ q. has q (c ∷ cs)) (last_at-skip j p c cs t) ∙ ground (arith, e),
        λ zs ws. succ_at-skip j c (cs ++ zs) t ∙ f zs ws ∙ sym (succ_at-skip j c (cs ++ ws) t),
      )
    ]
  ]

  pub ne_of_has :
      (a b : Ptr) (cs : List (Cell K V)) → has a cs ≡ false → has b cs ≡ true → (a == b) ≡ false
  ne_of_has a b cs out s = elim (Bool-cases (a == b)) [
    | inl q ↦ cc (ap (λ p. has p cs) ((==_iff a b).0 q))
    | inr q ↦ q
  ]

  -- a list of cells survives any change that spares its nodes
  pub Linked-frame :
      (h g : Heap K V) (cs : List (Cell K V))
      → Linked h cs
      → ((a : Ptr) → has a cs ≡ true → g.nodes a ≡ h.nodes a)
      → ((a : Ptr) (j : ℕ) → has a cs ≡ true → g.links a j ≡ h.links a j)
      → Linked g cs
  Linked-frame h g [] l n f = tt
  Linked-frame h g (c ∷ cs) l n f = (
    l.0,
    l.1,
    n c.ptr (ground arith) ∙ l.2,
    λ j le. f c.ptr j (ground arith) ∙ l.3 j le,
    Linked-frame h g cs l.4 (λ a e. n a (ground (arith, e))) (λ a j e. f a j (ground (arith, e))),
  )

  -- the successor of the last cell on a level
  pub links-last_at :
      (h : Heap K V) (j : ℕ) (p : Ptr) (cs post : List (Cell K V))
      → Linked h (cs ++ post)
      → h.links p j ≡ succ_at j (cs ++ post)
      → h.links (last_at j p cs) j ≡ succ_at j post
  links-last_at h j p [] post l e = unfold last_at in e
  links-last_at h j p (c ∷ cs) post l e = elim (Bool-cases (leb j c.level)) [
    | inl t ↦
        rw (last_at-reach j p c cs t)
          (links-last_at h j c.ptr cs post l.4 (l.3 j (leb→le j c.level t)))
    | inr t ↦
        rw (last_at-skip j p c cs t)
          (links-last_at h j p cs post l.4 (e ∙ succ_at-skip j c (cs ++ post) t))
  ]

  pub has-front : (a : Ptr) (cs ds : List (Cell K V)) → has a (cs ++ ds) ≡ false → has a cs ≡ false
  has-front a cs ds e = ground (arith, has-append a cs ds)

  pub has-back : (a : Ptr) (cs ds : List (Cell K V)) → has a (cs ++ ds) ≡ false → has a ds ≡ false
  has-back a cs ds e = ground (arith, has-append a cs ds)

  has-insert :
      (a : Ptr) (cs post : List (Cell K V)) (new : Cell K V)
      → has a (cs ++ post) ≡ false
      → (a == new.ptr) ≡ false
      → has a (cs ++ new ∷ post) ≡ false
  has-insert a cs post new e ne = ground (arith, has-append a cs post, has-append a cs (new ∷ post))

  pub succ_at-insert :
      (j : ℕ) (cs post : List (Cell K V)) (new : Cell K V)
      → leb j new.level ≡ false
      → succ_at j (cs ++ new ∷ post) ≡ succ_at j (cs ++ post)
  succ_at-insert j cs post new t = elim (reach_cases j 0 cs) [
    | inl (e, f) ↦ f (new ∷ post) ∙ succ_at-skip j new post t ∙ sym (f post)
    | inr (e, f) ↦ f (new ∷ post) post
  ]

  -- `g` is `h` after the loop: the new node at the levels up to its own
  pub record Relinked (h g : Heap K V) (u : Update) (new : Cell K V) : Type 0 where
    pub brk : g.brk ≡ h.brk
    pub nodes : (a : Ptr) → g.nodes a ≡ h.nodes a
    pub links :
        (a : Ptr) (j : ℕ)
        → g.links a j ≡ (
            if leb j new.level
            then if a == new.ptr then h.links (u j) j else if a == u j then new.ptr else h.links a j
            else h.links a j)

module _ {K V : Type 0} {h g : Heap K V} {u : Update} {new : Cell K V}
    (r : Relinked h g u new) where
  -- one cell before the new one
  relink_cell :
      (e : Cell K V) (cs post : List (Cell K V)) (j : ℕ)
      → h.links e.ptr j ≡ succ_at j (cs ++ post)
      → (leb j new.level ≡ true → u j ≡ last_at j e.ptr cs)
      → has e.ptr cs ≡ false
      → (e.ptr == new.ptr) ≡ false
      → g.links e.ptr j ≡ succ_at j (cs ++ new ∷ post)
  relink_cell e cs post j l at out ne = elim (Bool-cases (leb j new.level)) [
    | inr t ↦ r.links e.ptr j ∙ ground arith ∙ l ∙ sym (succ_at-insert j cs post new t)
    | inl t ↦ elim (reach_cases j e.ptr cs) [
      | inl (s, f) ↦
          r.links e.ptr j ∙ ground (arith, at t) ∙ sym (f (new ∷ post) ∙ succ_at-reach j new post t)
      | inr (s, f) ↦
          r.links e.ptr j
          ∙ ground (arith, at t, ne_of_has e.ptr (last_at j e.ptr cs) cs out s)
          ∙ l
          ∙ f post (new ∷ post)
    ]
  ]

  -- the list from `e` on, where `m` gives the last node up to `e` that reaches each level
  pub relink-Linked :
      (e : Cell K V) (m : ℕ → Ptr) (cs post : List (Cell K V))
      → Linked h (e ∷ cs ++ post)
      → has new.ptr (e ∷ cs ++ post) ≡ false
      → ((j : ℕ) → leb j new.level ≡ true → u j ≡ last_at j (m j) cs)
      → ((j : ℕ) → j ≤ e.level → m j ≡ e.ptr)
      → Linked g (new ∷ post)
      → Linked g (e ∷ cs ++ new ∷ post)
  relink-Linked e m [] post l out at here back = (
    l.0,
    ground (arith, l.1),
    r.nodes e.ptr ∙ l.2,
    λ j le.
        relink_cell e [] post j (l.3 j le)
          (λ t. at j t ∙ ap (λ p. last_at {K = K} {V = V} j p []) (here j le)) refl (ground arith),
    back,
  )
  relink-Linked e m (x ∷ cs) post l out at here back = (
    l.0,
    has-insert e.ptr (x ∷ cs) post new l.1 (ground arith),
    r.nodes e.ptr ∙ l.2,
    λ j le.
        relink_cell e (x ∷ cs) post j (l.3 j le)
          (λ t. at j t ∙ ap (λ p. last_at j p (x ∷ cs)) (here j le))
          (has-front e.ptr (x ∷ cs) post l.1) (ground arith),
    relink-Linked x (λ j. if leb j x.level then x.ptr else m j) cs post l.4 (ground arith)
        (unfold last_at in at) (λ j le. rw (le→leb j x.level le)) back,
  )
