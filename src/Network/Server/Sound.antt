-- ===== src/Network/Server/Sound.antt =====
-- The operations of src/network/Server.cpp on its connections keep the server sound.
use mathlib.Core.Path.{subst}
use my_network_library.Prelude.{
  [], List, not, if◌then◌else◌, false, ap, ◌∙◌, ℕ, ◌≡◌, refl, sym, ap, ◌∙◌, Bool, true, false,
  Option, none, some, List, ◌∷◌, ◌==◌, if◌then◌else◌, arith,
}
use my_network_library.Network.Kernel.{Kernel}
use my_network_library.Network.Channel.Registered.{is_registered}
use mathlib.Core.Option.{some-injective}
use my_network_library.Network.Buffer.{clear}
use my_network_library.Network.Connection.{
  bytes, interrupted, again, eof, error, closed, read_nonblocking, read_once, Connection,
  is_connected, Callback, ReadResult, read,
}
use my_network_library.Network.Connection.Registered.{
  IsSound, Ended, IsSound-is_registered, construct-Ended, deleted,
}
use my_network_library.Network.Connection.Business.{business-Ended, delete_connection-Ended}
use my_network_library.Network.Server.{
  Entry, Server, find_entry, choose, set_reactor, new_connection, store, delete_found,
  delete_connection_at, message_found, message,
}
use my_network_library.Network.Server.Entries.{
  Same, Same-set, Good, Fits, entry, Fits-set, Fits-found, Fits-update, find_entry-key,
  update_entry-mine, update_entry-other,
}

-- what the results of `read` come to: the end of the stream or an error, or EAGAIN
abbrev pub ends_stream : List ReadResult → Option Bool
ends_stream [] = none
ends_stream (bytes t ∷ rs) = ends_stream rs
ends_stream (interrupted ∷ rs) = ends_stream rs
ends_stream (again ∷ rs) = some false
ends_stream (eof ∷ rs) = some true
ends_stream (error ∷ rs) = some true

read_nonblocking-ends_stream :
    (rs : List ReadResult) (c : Connection) (b : Bool)
    → ends_stream rs ≡ some b
    → (c' : Connection) × (read_nonblocking rs c ≡ some (c', b))
unfolding read_nonblocking
read_nonblocking-ends_stream [] c b h = cc
read_nonblocking-ends_stream (bytes t ∷ rs) c b h = read_nonblocking-ends_stream rs _ b h
read_nonblocking-ends_stream (interrupted ∷ rs) c b h = read_nonblocking-ends_stream rs c b h
read_nonblocking-ends_stream (again ∷ rs) c b h =
    (c, ap (λ x. some (c, x)) (some-injective false b h))
read_nonblocking-ends_stream (eof ∷ rs) c b h = (
  record c { state = closed },
  ap (λ x. some (record c { state = closed }, x)) (some-injective true b h),
)
read_nonblocking-ends_stream (error ∷ rs) c b h = (
  record c { state = closed },
  ap (λ x. some (record c { state = closed }, x)) (some-injective true b h),
)

read-ends_stream :
    (rs : List ReadResult) (c : Connection) (b : Bool)
    → is_connected c ≡ true
    → c.nonblocking ≡ true
    → ends_stream rs ≡ some b
    → (c' : Connection) × (read rs c ≡ some (c', b))
unfolding read
read-ends_stream rs c b live nonblocking h =
    let (c', ran) =
      read_nonblocking-ends_stream rs (record c { read_buffer = clear c.read_buffer }) b h in
    let emptied = record c { read_buffer = clear c.read_buffer } in
    (
      c',
      ap
            (λ x.
              if not x
              then some (c, false)
              else if c.nonblocking
              then read_nonblocking rs emptied
              else read_once rs emptied)
            live
          ∙ ap (λ x. if x then read_nonblocking rs emptied else read_once rs emptied) nonblocking
          ∙ ran,
    )

module _ (K : Kernel) where
  abbrev pub IsSoundServer : Server K → Type 0
  IsSoundServer s = Fits K s.reactors s.size s.connections

  -- what the server has for `fd`
  abbrev pub at : Server K → ℕ → Option Entry
  at s fd = find_entry fd s.connections

  -- a run that ends in a sound server with the entry `e` for `fd`, where all else is as it was; `A`
  -- holds of the epoll of the entry's reactor
  pub record Ran (s : Server K) (fd : ℕ) (run : Option (Server K)) (e : Entry)
      (A : K.Epoll → Type 0) : Type 0 where
    pub next : Server K
    pub ran : run ≡ some next
    pub sound : IsSoundServer next
    pub mine : at next fd ≡ some e
    pub left : A (next.reactors e.reactor)
    pub size : next.size ≡ s.size
    pub others : (k : ℕ) → (fd == k) ≡ false → at next k ≡ at s k
    pub registrations : (k : ℕ) → (fd == k) ≡ false → Same K s.reactors next.reactors k

  pub set_reactor-mine : (f : ℕ → K.Epoll) (i : ℕ) (q : K.Epoll) → q ≡ set_reactor K f i q i
  set_reactor-mine f i q = ap (λ b. if b then q else f i) {x = true} (ground arith)

  pub Good-mine :
      (f : ℕ → K.Epoll) (n : ℕ) (e : Entry) (q : K.Epoll)
      → IsSound K e.key e.connection q
      → choose K e.key n ≡ some e.reactor
      → Good K (set_reactor K f e.reactor q) n e
  Good-mine f n e q s c = record {
    sound = subst (IsSound K e.key e.connection) (set_reactor-mine f e.reactor q) s;
    chosen = c;
  }

  -- the run of an operation on the connection that was found
  stored :
      (s : Server K) (e : Entry) (run : Option (Connection × K.Epoll)) (o : Option (Server K))
      (A : K.Epoll → Type 0)
      → IsSoundServer s
      → at s e.key ≡ some e
      → (r : Ended K e.key (s.reactors e.reactor) run) → o ≡ some (store K s e (r.next, r.epoll))
      → A r.epoll
      → Ran s e.key o (record e { connection = r.next }) A
  stored s e run o A sound found r h a =
      let d = record e { connection = r.next } in
      let good = Fits-found K s.reactors s.size e.key s.connections e found sound in
      record {
        next = store K s e (r.next, r.epoll);
        ran = h;
        sound =
            Fits-update K s.reactors s.size r.epoll s.connections d
              (Good-mine s.reactors s.size d r.epoll r.sound good.chosen) r.others sound;
        mine = update_entry-mine d e s.connections found;
        left = subst A (set_reactor-mine s.reactors e.reactor r.epoll) a;
        size = refl;
        others = λ k t. update_entry-other k d s.connections t;
        registrations = λ k t. Same-set K s.reactors e.reactor r.epoll e.key k r.others t;
      }

  stored_at :
      (op : ℕ → Option (Server K)) (s : Server K) (fd : ℕ) (e : Entry)
      (run : Option (Connection × K.Epoll)) (A : K.Epoll → Type 0)
      → IsSoundServer s
      → at s fd ≡ some e
      → (r : Ended K e.key (s.reactors e.reactor) run)
      → op fd ≡ some (store K s e (r.next, r.epoll))
      → A r.epoll
      → Ran s fd (op fd) (record e { connection = r.next }) A
  stored_at op s fd e run A sound found r h a =
      let same : e.key ≡ fd = find_entry-key fd s.connections e found in
      subst (λ k. Ran s k (op fd) (record e { connection = r.next }) A) same
        (stored s e run (op fd) A sound (ap (at s) same ∙ found) r h a)

  -- `DeleteConnection` of a descriptor that the server has, deleted already or not, does not fail
  -- and keeps the server sound: the connection is closed and out of its reactor's interest list,
  -- its entry stays, and the other connections and registrations are as they were.
  pub delete_connection_at-Ran :
      (s : Server K) (fd : ℕ) (e : Entry)
      → IsSoundServer s
      → at s fd ≡ some e
      → Ran s fd
          (delete_connection_at K s fd)
          (record e { connection = deleted K e.connection })
          (λ q. K.registered q fd ≡ none)
  unfolding delete_connection_at
  delete_connection_at-Ran s fd e sound found =
      let good = Fits-found K s.reactors s.size fd s.connections e found sound in
      let (r, off, over) =
        delete_connection-Ended K e.key e.connection (s.reactors e.reactor) good.sound in
      let same : e.key ≡ fd = find_entry-key fd s.connections e found in
      subst
        (λ c.
          Ran s fd (delete_connection_at K s fd) (record e { connection = c })
            (λ q. K.registered q fd ≡ none))
        over
        (stored_at (λ k. delete_found K s (find_entry k s.connections)) s fd e _
          (λ q. K.registered q fd ≡ none) sound found r (rw (found, r.ran) refl)
          (ap (K.registered r.epoll) (sym same) ∙ off))

  -- The read callback of a connection that the server has, when the reading and the user's callback
  -- end, does not fail and keeps the server sound; it touches no other connection or registration.
  pub message-Kept :
      (cb : Callback) (rs : List ReadResult) (s : Server K) (fd : ℕ) (e : Entry) (c : Connection)
      (b : Bool)
      → IsSoundServer s
      → at s fd ≡ some e
      → read rs e.connection ≡ some (c, b)
      → ((d : Connection) → (d' : Connection) × (cb.run d ≡ some d'))
      → (d : Connection) × Ran s fd
          (message K cb rs s fd)
          (record e { connection = d })
          (λ q.
            (b ≡ true → K.registered q fd ≡ none)
            × (b ≡ false → K.registered q fd ≡ K.registered (s.reactors e.reactor) fd))
  unfolding message
  message-Kept cb rs s fd e c b sound found h total =
      let good = Fits-found K s.reactors s.size fd s.connections e found sound in
      let (r, off, on) =
        business-Ended K cb rs e.key e.connection c (s.reactors e.reactor) b good.sound h total in
      let same : e.key ≡ fd = find_entry-key fd s.connections e found in
      (
        r.next,
        stored_at (λ k. message_found K cb rs s (find_entry k s.connections)) s fd e _
            (λ q.
              (b ≡ true → K.registered q fd ≡ none)
              × (b ≡ false → K.registered q fd ≡ K.registered (s.reactors e.reactor) fd))
            sound found r (rw (found, r.ran) refl)
            (
              λ t. ap (K.registered r.epoll) (sym same) ∙ off t,
              λ t.
                  ap (K.registered r.epoll) (sym same)
                  ∙ on t
                  ∙ ap (K.registered (s.reactors e.reactor)) same,
            ),
      )

  -- The read callback of a connected, nonblocking connection that the server has, when the results of
  -- `read` come to an end and the user's callback does not fail, keeps the server sound and touches no
  -- other connection or registration. If `read` meets the end of the stream or an error before
  -- EAGAIN, the connection is deregistered; if it meets EAGAIN first, it stays registered as it was.
  pub message-Ran :
      (cb : Callback) (rs : List ReadResult) (s : Server K) (fd : ℕ) (e : Entry) (b : Bool)
      → IsSoundServer s
      → at s fd ≡ some e
      → is_connected e.connection ≡ true
      → e.connection.nonblocking ≡ true
      → ends_stream rs ≡ some b
      → ((d : Connection) → (d' : Connection) × (cb.run d ≡ some d'))
      → (d : Connection) × Ran s fd
          (message K cb rs s fd)
          (record e { connection = d })
          (λ q.
            (b ≡ true → K.registered q fd ≡ none)
            × (b ≡ false → K.registered q fd ≡ K.registered (s.reactors e.reactor) fd))
  message-Ran cb rs s fd e b sound found live nonblocking ends total =
      let (c, ran) = read-ends_stream rs e.connection b live nonblocking ends in
      message-Kept cb rs s fd e c b sound found ran total

  -- `NewConnection` of a descriptor that the server does not have and no reactor has registered, when there is
  -- a sub-reactor, does not fail and keeps the server sound: the descriptor has a connected connection
  -- with the sub-reactor `fd % size`, and the others are as they were.
  pub new_connection-Ran :
      (s : Server K) (fd i : ℕ)
      → IsSoundServer s
      → at s fd ≡ none
      → choose K fd s.size ≡ some i
      → K.registered (s.reactors i) fd ≡ none
      → (c : Connection) × (is_connected c ≡ true)
        × Ran s fd
            (new_connection K s fd)
            (record { key = fd; reactor = i; connection = c })
            (λ q. is_registered (K.registered q fd) ≡ true)
  unfolding new_connection find_entry
  new_connection-Ran s fd i sound absent chosen h =
      let (r, live) = construct-Ended K true fd (s.reactors i) h in
      (
        r.next,
        live,
        record {
          next = record s {
            connections = record { key = fd; reactor = i; connection = r.next } ∷ s.connections;
            reactors = set_reactor K s.reactors i r.epoll;
          };
          ran = rw (chosen, r.ran, absent) refl;
          sound =
              entry
                (Good-mine s.reactors s.size (record { key = fd; reactor = i; connection = r.next })
                  r.epoll r.sound chosen)
                absent
                (Fits-set K s.reactors i r.epoll fd s.size s.connections absent r.others sound);
          mine = ground arith;
          left =
              subst (λ q. is_registered (K.registered q fd) ≡ true)
                (set_reactor-mine s.reactors i r.epoll)
                (IsSound-is_registered K fd r.next r.epoll r.sound live);
          size = refl;
          others = λ k t.
              ap
                (λ b.
                  if b
                  then some (record { key = fd; reactor = i; connection = r.next })
                  else at s k)
                t;
          registrations = λ k t. Same-set K s.reactors i r.epoll fd k r.others t;
        },
      )
