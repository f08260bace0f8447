-- ===== src/Network/Server/Check.antt =====
-- `CheckActiveConnection` of src/network/Server.cpp as a whole.
use mathlib.Core.Path.{subst}
use my_network_library.Prelude.{
  ℕ, ◌≡◌, refl, sym, ap, ◌∙◌, true, false, Option, none, some, List, [], ◌∷◌, ◌==◌, arith,
  Bool-cases, Option-cases, inl, inr,
}
use my_network_library.Network.Kernel.{Kernel}
use my_network_library.Network.Connection.{WriteResult}
use my_network_library.Network.Connection.Written.{settles}
use my_network_library.Network.Connection.Registered.{deleted}
use my_network_library.Network.Server.{
  Entry, Server, is_inactive, delete_connection_at, delete_all, check_active,
}
use my_network_library.Network.Server.Entries.{Same, Same-trans}
use my_network_library.Network.Server.Sound.{IsSoundServer, at, delete_connection_at-Ran}
use my_network_library.Network.Server.Inactive.{member, IsGone, clear_loop-Cleared, deleted-closed}

module _ (K : Kernel) where
  -- `fds` deleted: the other connections as they were, and what was gone still gone
  pub record Deleted (s : Server K) (fds : List ℕ) (run : Option (Server K)) : Type 0 where
    pub next : Server K
    pub ran : run ≡ some next
    pub sound : IsSoundServer K next
    pub kept :
        (k : ℕ)
        → member k fds ≡ false
        → (at K next k ≡ at K s k) × Same K s.reactors next.reactors k
    pub gone :
        (k : ℕ) (d : Entry)
        → at K s k ≡ some d
        → IsGone K s.reactors k d
        → (d' : Entry) × (at K next k ≡ some d') × IsGone K next.reactors k d'

  pub one-Deleted :
      (s : Server K) (fd : ℕ)
      → IsSoundServer K s
      → Deleted s (fd ∷ []) (delete_connection_at K s fd)
  unfolding delete_connection_at
  one-Deleted s fd sound = elim (Option-cases (at K s fd)) [
    | inl h ↦ record {
      next = s;
      ran = rw h refl;
      sound = sound;
      kept = λ k t. (refl, λ i. refl);
      gone = λ k d i g. (d, i, g);
    }
    | inr (e, h) ↦
        (let r = delete_connection_at-Ran K s fd e sound h in
          record {
            next = r.next;
            ran = r.ran;
            sound = r.sound;
            kept = λ k t.
                (let u : (fd == k) ≡ false = ground (arith, t) in
                  (r.others k u, r.registrations k u));
            gone = λ k d i g. elim (Bool-cases (fd == k)) [
              | inl t ↦
                  let e' = record e { connection = deleted K e.connection } in
                  let same : fd ≡ k = ground (arith, t) in
                  (
                    e',
                    ap (at K r.next) (sym same) ∙ r.mine,
                    (
                      deleted-closed K e.connection _ refl,
                      subst (λ x. K.registered (r.next.reactors e.reactor) x ≡ none) same r.left,
                    ),
                  )
              | inr t ↦ (d, r.others k t ∙ i, (g.0, r.registrations k t d.reactor ∙ g.1))
            ];
          })
  ]

  delete_all-Deleted :
      (fds : List ℕ) (s : Server K) → IsSoundServer K s → Deleted s fds (delete_all K fds s)
  unfolding delete_all
  delete_all-Deleted [] s sound = record {
    next = s;
    ran = refl;
    sound = sound;
    kept = λ k t. (refl, λ i. refl);
    gone = λ k d i g. (d, i, g);
  }
  delete_all-Deleted (fd ∷ fds) s sound =
      let r = one-Deleted s fd sound in
      let q = delete_all-Deleted fds r.next r.sound in
      record {
        next = q.next;
        ran = rw (r.ran, q.ran) refl;
        sound = q.sound;
        kept = λ k t.
            (let (m, u) = r.kept k (ground (arith, t)) in
              let (m', u') = q.kept k (ground (arith, t)) in
              (m' ∙ m, Same-trans K s.reactors r.next.reactors q.next.reactors k u u'));
        gone = λ k d i g. (let (d', m, g') = r.gone k d i g in q.gone k d' m g');
      }

  -- the run of the check
  pub record Checked (now : ℕ) (s : Server K) (run : Option (Server K)) : Type 0 where
    pub next : Server K
    pub ran : run ≡ some next
    pub sound : IsSoundServer K next
    pub active :
        (k : ℕ) (e : Entry)
        → at K s k ≡ some e
        → is_inactive now e.connection.context ≡ false
        → (at K next k ≡ some e) × Same K s.reactors next.reactors k
    pub inactive :
        (k : ℕ) (e : Entry)
        → at K s k ≡ some e
        → is_inactive now e.connection.context ≡ true
        → (d : Entry) × (at K next k ≡ some d) × IsGone K next.reactors k d
    pub absent : (k : ℕ) → at K s k ≡ none → at K next k ≡ none

  -- One run of the check of `CheckActiveConnection` on a sound server, when the results of `write`
  -- suffice for its farewells, does not fail, although it deletes an inactive connection twice, and
  -- keeps the server sound: an inactive connection ends closed and out of its reactor's interest list
  -- with its entry still there, an active one and its registration are as they were, and there are no
  -- new entries.
  pub check_active-Checked :
      (now : ℕ) (rs : ℕ → List WriteResult) (s : Server K)
      → ((k : ℕ) → settles (rs k) 16 ≡ true)
      → IsSoundServer K s
      → Checked now s (check_active K now rs s)
  unfolding check_active
  check_active-Checked now rs s enough sound =
      let r = clear_loop-Cleared K now rs s.size enough s.connections s.reactors sound in
      let t = record s { connections = r.entries; reactors = r.reactors } in
      let q = delete_all-Deleted r.fds t r.fits in
      record {
        next = q.next;
        ran = rw (r.ran) q.ran;
        sound = q.sound;
        active = λ k e h i.
            (let (m, (u, v)) = r.kept k e h i in
              let (m', v') = q.kept k u in
              (m' ∙ m, Same-trans K s.reactors r.reactors q.next.reactors k v v'));
        inactive = λ k e h i. (let (d, m, g) = r.gone k e h i in q.gone k d m g);
        absent = λ k h. (let (m, (u, v)) = r.missing k h in (q.kept k u).0 ∙ m);
      }
