-- ===== src/Network/Server/Entries.antt =====
-- The connections of src/network/Server.cpp, each sound for its key and its sub-reactor.
use mathlib.Core.Path.{subst}
use mathlib.Core.Option.{some-injective}
use my_network_library.Prelude.{
  ℕ, ◌≡◌, refl, sym, ap, ◌∙◌, false, none, some, List, [], ◌∷◌, ◌==◌, if◌then◌else◌, arith,
  Bool-cases, inl, inr,
}
use my_network_library.Network.Kernel.{Kernel}
use my_network_library.Network.Channel.Registered.{is_registered}
use my_network_library.Network.Connection.Registered.{IsSound, Elsewhere}
use my_network_library.Network.Server.{Entry, find_entry, update_entry, choose, set_reactor}

pub find_entry-key : (fd : ℕ) (es : List Entry) (e : Entry) → find_entry fd es ≡ some e → e.key ≡ fd
unfolding find_entry
find_entry-key fd [] e h = cc
find_entry-key fd (d ∷ es) e h = elim (Bool-cases (d.key == fd)) [
  | inl t ↦ ap (λ (x : Entry). x.key) (sym (some-injective _ _ (rw t at h))) ∙ ground (arith, t)
  | inr t ↦ find_entry-key fd es e (rw t at h)
]

-- the keys of the entries stay what they are
pub update_entry-none :
    (k : ℕ) (e : Entry) (es : List Entry)
    → find_entry k es ≡ none
    → find_entry k (update_entry e es) ≡ none
unfolding find_entry update_entry
update_entry-none k e [] h = refl
update_entry-none k e (d ∷ ds) h = ground (arith, update_entry-none k e ds)

pub update_entry-mine :
    (e old : Entry) (es : List Entry)
    → find_entry e.key es ≡ some old
    → find_entry e.key (update_entry e es) ≡ some e
unfolding find_entry update_entry
update_entry-mine e old [] h = cc
update_entry-mine e old (d ∷ ds) h = ground (arith, update_entry-mine e old ds)

pub update_entry-other :
    (k : ℕ) (e : Entry) (es : List Entry)
    → (e.key == k) ≡ false
    → find_entry k (update_entry e es) ≡ find_entry k es
unfolding find_entry update_entry
update_entry-other k e [] h = refl
update_entry-other k e (d ∷ ds) h = ground (arith, update_entry-other k e ds)

pub find_entry-absent :
    (k : ℕ) (e : Entry) (es : List Entry)
    → find_entry k (e ∷ es) ≡ none
    → ((k == e.key) ≡ false) × (find_entry k es ≡ none)
unfolding find_entry
find_entry-absent k e es h = elim (Bool-cases (e.key == k)) [
  | inl t ↦ cc (rw t at h)
  | inr t ↦ (ground (arith, t), rw t at h)
]

module _ (K : Kernel) where
  -- the registration of `fd` is the same in all reactors
  abbrev pub Same : (ℕ → K.Epoll) → (ℕ → K.Epoll) → ℕ → Type 0
  Same f g fd = (i : ℕ) → K.registered (g i) fd ≡ K.registered (f i) fd

  pub Elsewhere-other :
      (p q : K.Epoll) (fd k : ℕ)
      → Elsewhere K p q fd
      → (fd == k) ≡ false
      → K.registered q k ≡ K.registered p k
  Elsewhere-other p q fd k h t =
      subst (λ b. (if b then none else K.registered q k) ≡ (if b then none else K.registered p k)) t
        (h k)

  pub Same-set :
      (f : ℕ → K.Epoll) (i : ℕ) (q : K.Epoll) (fd k : ℕ)
      → Elsewhere K (f i) q fd
      → (fd == k) ≡ false
      → Same f (set_reactor K f i q) k
  Same-set f i q fd k h t j = elim (Bool-cases (j == i)) [
    | inl s ↦
        rw s (Elsewhere-other (f i) q fd k h t ∙ ap (λ x. K.registered (f x) k) (ground (arith, s)))
    | inr s ↦ rw s refl
  ]

  pub Same-trans : (f g h : ℕ → K.Epoll) (k : ℕ) → Same f g k → Same g h k → Same f h k
  Same-trans f g h k s t i = t i ∙ s i

  -- an entry's connection is sound for its key, in its sub-reactor, which `fd % size` chooses
  pub record Good (f : ℕ → K.Epoll) (n : ℕ) (e : Entry) : Type 0 where
    pub sound : IsSound K e.key e.connection (f e.reactor)
    pub chosen : choose K e.key n ≡ some e.reactor

  pub Good-Same : (f g : ℕ → K.Epoll) (n : ℕ) (e : Entry) → Same f g e.key → Good f n e → Good g n e
  Good-Same f g n e s h = record {
    sound = record {
      agrees =
          ap (λ k. is_registered (K.registered (g e.reactor) k)) h.sound.channel_number
          ∙ ap is_registered (s e.reactor)
          ∙ ap (λ k. is_registered (K.registered (f e.reactor) k)) (sym h.sound.channel_number)
          ∙ h.sound.agrees;
      number = h.sound.number;
      channel_number = h.sound.channel_number;
      live = h.sound.live;
    };
    chosen = h.chosen;
  }

  -- every entry is good, and no key comes twice
  pub data Fits : (ℕ → K.Epoll) → ℕ → List Entry → Type 0 where
    empty : {f : ℕ → K.Epoll} {n : ℕ} → Fits f n []
    entry :
        {f : ℕ → K.Epoll} {n : ℕ} {e : Entry} {es : List Entry}
        → Good f n e
        → find_entry e.key es ≡ none
        → Fits f n es
        → Fits f n (e ∷ es)

  -- a change of the registration of one descriptor leaves entries of other keys good
  pub Fits-set :
      (f : ℕ → K.Epoll) (i : ℕ) (q : K.Epoll) (fd n : ℕ) (es : List Entry)
      → find_entry fd es ≡ none
      → Elsewhere K (f i) q fd
      → Fits f n es
      → Fits (set_reactor K f i q) n es
  Fits-set f i q fd n [] h k empty = empty
  Fits-set f i q fd n (e ∷ es) h k (entry good alone fits) =
      let (other, rest) = find_entry-absent fd e es h in
      entry (Good-Same f (set_reactor K f i q) n e (Same-set f i q fd e.key k other) good) alone
        (Fits-set f i q fd n es rest k fits)

  pub Fits-found :
      (f : ℕ → K.Epoll) (n fd : ℕ) (es : List Entry) (e : Entry)
      → find_entry fd es ≡ some e
      → Fits f n es
      → Good f n e
  unfolding find_entry
  Fits-found f n fd [] e h empty = cc
  Fits-found f n fd (d ∷ es) e h (entry good alone fits) = elim (Bool-cases (d.key == fd)) [
    | inl t ↦ subst (Good f n) (some-injective _ _ (rw t at h)) good
    | inr t ↦ Fits-found f n fd es e (rw t at h) fits
  ]

  -- puts back a good entry, when the other registrations are as they were
  pub Fits-update :
      (f : ℕ → K.Epoll) (n : ℕ) (q : K.Epoll) (es : List Entry) (e : Entry)
      → Good (set_reactor K f e.reactor q) n e
      → Elsewhere K (f e.reactor) q e.key
      → Fits f n es
      → Fits (set_reactor K f e.reactor q) n (update_entry e es)
  unfolding update_entry
  Fits-update f n q [] e g h empty = empty
  Fits-update f n q (d ∷ es) e g h (entry good alone fits) = elim (Bool-cases (d.key == e.key)) [
    | inl t ↦ rw t (
        let away : find_entry e.key es ≡ none =
          ap (λ k. find_entry k es) (ground (arith, t)) ∙ alone in
        entry g away (Fits-set f e.reactor q e.key n es away h fits))
    | inr t ↦ rw t (
        entry
          (Good-Same f (set_reactor K f e.reactor q) n d
            (Same-set f e.reactor q e.key d.key h (ground (arith, t))) good)
          (update_entry-none d.key e es alone) (Fits-update f n q es e g h fits))
  ]
