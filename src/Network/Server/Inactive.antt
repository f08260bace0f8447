-- ===== src/Network/Server/Inactive.antt =====
-- The loop of `CheckActiveConnection` of src/network/Server.cpp over the connections.
use mathlib.Core.Path.{subst}
use mathlib.Core.Option.{some-injective}
use my_network_library.Prelude.{
  ℕ, ◌≡◌, refl, sym, ap, ◌∙◌, Bool, true, false, none, some, List, [], ◌∷◌, ◌==◌, arith, Bool-cases,
  inl, inr, ◌||◌, length,
}
use my_network_library.Prelude.Text.{before}
use my_network_library.Network.Kernel.{Kernel}
use my_network_library.Network.Buffer.{c_string}
use my_network_library.Network.Connection.{
  Connection, is_connected, WriteResult, send, delete_connection,
}
use my_network_library.Network.Connection.Written.{settles}
use my_network_library.Network.Connection.Keeps.{send-EndsKept}
use my_network_library.Network.Connection.Registered.{Ended, deleted}
use my_network_library.Network.Connection.Business.{delete_connection-Ended, IsSound-Keeps}
use my_network_library.Network.Server.{
  Entry, find_entry, choose, set_reactor, is_inactive, clear_loop, farewell,
}
use my_network_library.Network.Server.Entries.{
  Same, Same-set, Same-trans, Good, Good-Same, Fits, empty, entry, Fits-set, find_entry-absent,
}
use my_network_library.Network.Server.Sound.{Good-mine, set_reactor-mine}

abbrev pub member : ℕ → List ℕ → Bool
member k [] = false
member k (x ∷ xs) = (x == k) || member k xs

pub length-farewell : length (c_string farewell) ≡ 16
unfolding c_string before
length-farewell = refl

module _ (K : Kernel) where
  -- closed, and out of the interest list of its reactor
  abbrev pub IsGone : (ℕ → K.Epoll) → ℕ → Entry → Type 0
  IsGone f k d = (is_connected d.connection ≡ false) × (K.registered (f d.reactor) k ≡ none)

  -- `fd` is not in `delete_after`, and its registration is as it was
  abbrev pub Untouched : (ℕ → K.Epoll) → (ℕ → K.Epoll) → List ℕ → ℕ → Type 0
  Untouched f g fds k = (member k fds ≡ false) × Same K f g k

  pub deleted-closed : (c d : Connection) → d ≡ deleted K c → is_connected d ≡ false
  unfolding is_connected
  deleted-closed c d h = ap is_connected h

module _ (K : Kernel) (now : ℕ) (rs : ℕ → List WriteResult) (n : ℕ) where
  -- what the loop does to the connections: the inactive ones are gone, the others are as they were
  pub record Cleared (es : List Entry) (f : ℕ → K.Epoll) : Type 0 where
    pub entries : List Entry
    pub reactors : ℕ → K.Epoll
    pub fds : List ℕ
    pub ran : clear_loop K now rs es f ≡ some (entries, reactors, fds)
    pub fits : Fits K reactors n entries
    pub missing :
        (k : ℕ)
        → find_entry k es ≡ none
        → (find_entry k entries ≡ none) × Untouched K f reactors fds k
    pub kept :
        (k : ℕ) (e : Entry)
        → find_entry k es ≡ some e
        → is_inactive now e.connection.context ≡ false
        → (find_entry k entries ≡ some e) × Untouched K f reactors fds k
    pub gone :
        (k : ℕ) (e : Entry)
        → find_entry k es ≡ some e
        → is_inactive now e.connection.context ≡ true
        → (d : Entry) × (find_entry k entries ≡ some d) × IsGone K reactors k d

  -- the entry found is the first one, or one of the others
  found_cases :
      (P : Type 0) (k : ℕ) (e d : Entry) (es : List Entry)
      → find_entry k (e ∷ es) ≡ some d
      → (e.key ≡ k → e ≡ d → P)
      → ((e.key == k) ≡ false → find_entry k es ≡ some d → P)
      → P
  unfolding find_entry
  found_cases P k e d es h first other = elim (Bool-cases (e.key == k)) [
    | inl t ↦ first (ground (arith, t)) (some-injective _ _ (rw t at h))
    | inr t ↦ other t (rw t at h)
  ]

  find_first : (k : ℕ) (e : Entry) (es : List Entry) → e.key ≡ k → find_entry k (e ∷ es) ≡ some e
  unfolding find_entry
  find_first k e es h = ground (arith, h)

  find_other :
      (k : ℕ) (e : Entry) (es : List Entry)
      → (e.key == k) ≡ false
      → find_entry k (e ∷ es) ≡ find_entry k es
  unfolding find_entry
  find_other k e es h = ground (arith, h)

  keep_first :
      (e : Entry) (es : List Entry) (f : ℕ → K.Epoll)
      → is_inactive now e.connection.context ≡ false
      → Good K f n e
      → find_entry e.key es ≡ none
      → Cleared es f
      → Cleared (e ∷ es) f
  unfolding clear_loop
  keep_first e es f active good alone r =
      let (still, (away, same)) = r.missing e.key alone in
      record {
        entries = e ∷ r.entries;
        reactors = r.reactors;
        fds = r.fds;
        ran = rw (active, r.ran) refl;
        fits = entry (Good-Same K f r.reactors n e same good) still r.fits;
        missing = λ k h.
            (let (other, h') = find_entry-absent k e es h in
              let (m, u) = r.missing k h' in
              (find_other k e r.entries (ground (arith, other)) ∙ m, u));
        kept = λ k d h i.
            found_cases _ k e d es h
              (λ s o. (
                find_first k e r.entries s ∙ ap some o,
                subst (Untouched K f r.reactors r.fds) s (away, same),
              ))
              (λ t h'. let (m, u) = r.kept k d h' i in (find_other k e r.entries t ∙ m, u));
        gone = λ k d h i.
            found_cases _ k e d es h
              (λ s o. cc (active, ap (λ (x : Entry). is_inactive now x.connection.context) o, i))
              (λ t h'. let (d', m, u) = r.gone k d h' i in (d', find_other k e r.entries t ∙ m, u));
      }

  clear_first :
      (e : Entry) (es : List Entry) (f : ℕ → K.Epoll) (c : Connection)
      → is_inactive now e.connection.context ≡ true
      → send (rs e.key) e.connection farewell ≡ some c
      → choose K e.key n ≡ some e.reactor
      → find_entry e.key es ≡ none
      → (d : Ended K e.key (f e.reactor) (delete_connection K c (f e.reactor)))
      → K.registered d.epoll e.key ≡ none
      → is_connected d.next ≡ false
      → Cleared es (set_reactor K f e.reactor d.epoll)
      → Cleared (e ∷ es) f
  unfolding clear_loop
  clear_first e es f c inactive said chosen alone d off closed r =
      let f₁ = set_reactor K f e.reactor d.epoll in
      let e' = record e { connection = d.next } in
      let (still, (away, same)) = r.missing e.key alone in
      let off' =
        same e.reactor
        ∙ subst (λ q. K.registered q e.key ≡ none) (set_reactor-mine K f e.reactor d.epoll) off in
      record {
        entries = e' ∷ r.entries;
        reactors = r.reactors;
        fds = e.key ∷ r.fds;
        ran = rw (inactive, said, d.ran, r.ran) refl;
        fits =
            entry (Good-Same K f₁ r.reactors n e' same (Good-mine K f n e' d.epoll d.sound chosen))
              still r.fits;
        missing = λ k h.
            (let (other, h') = find_entry-absent k e es h in
              let (m, (u, v)) = r.missing k h' in
              let t : (e.key == k) ≡ false = ground (arith, other) in
              (
                find_other k e' r.entries t ∙ m,
                (
                  rw t u,
                  Same-trans K f f₁ r.reactors k (Same-set K f e.reactor d.epoll e.key k d.others t)
                      v,
                ),
              ));
        kept = λ k x h i.
            found_cases _ k e x es h
              (λ s o. cc (inactive, ap (λ (x : Entry). is_inactive now x.connection.context) o, i))
              (λ t h'.
                let (m, (u, v)) = r.kept k x h' i in
                (
                  find_other k e' r.entries t ∙ m,
                  (
                    rw t u,
                    Same-trans K f f₁ r.reactors k
                        (Same-set K f e.reactor d.epoll e.key k d.others t) v,
                  ),
                ));
        gone = λ k x h i.
            found_cases _ k e x es h
              (λ s o. (
                e',
                find_first k e' r.entries s,
                (closed, ap (K.registered (r.reactors e.reactor)) (sym s) ∙ off'),
              ))
              (λ t h'.
                let (x', m, u) = r.gone k x h' i in (x', find_other k e' r.entries t ∙ m, u));
      }

  -- the loop ends, when the results of `write` suffice for the text that it sends
  pub clear_loop-Cleared :
      ((k : ℕ) → settles (rs k) 16 ≡ true)
      → (es : List Entry) (f : ℕ → K.Epoll) → Fits K f n es
      → Cleared es f
  unfolding clear_loop find_entry
  clear_loop-Cleared enough [] f empty = record {
    entries = [];
    reactors = f;
    fds = [];
    ran = refl;
    fits = empty;
    missing = λ k h. (refl, (refl, λ i. refl));
    kept = λ k e h. cc;
    gone = λ k e h. cc;
  }
  clear_loop-Cleared enough (e ∷ es) f (entry good alone fits) =
      elim (Bool-cases (is_inactive now e.connection.context)) [
        | inl t ↦
            (let (c, said, keeps) =
                send-EndsKept (rs e.key) e.connection farewell 15 length-farewell (enough e.key) in
              let (d, off, over) =
                delete_connection-Ended K e.key c (f e.reactor)
                  (IsSound-Keeps K e.key e.connection c (f e.reactor) keeps good.sound) in
              clear_first e es f c t said good.chosen alone d off (deleted-closed K c d.next over) (
                clear_loop-Cleared enough es (set_reactor K f e.reactor d.epoll)
                  (Fits-set K f e.reactor d.epoll e.key n es alone d.others fits)))
        | inr t ↦ keep_first e es f t good alone (clear_loop-Cleared enough es f fits)
      ]
