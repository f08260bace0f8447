-- ===== src/Network/Server.antt =====
-- `Server` of src/network/include/Server.h and src/network/Server.cpp: the connections by
-- descriptor, each with a sub-reactor.
pub mod Entries
pub mod Sound
pub mod Inactive
pub mod Check
use my_network_library.Prelude.{
  ℕ, zero, suc, ◌+◌, ◌-◌, ◌*◌, ◌%◌, ◌^◌, Bool, true, false, Option, none, some, List, [], ◌∷◌, ◌++◌,
  ◌==◌, ltb, if◌then◌else◌,
}
use my_network_library.Prelude.Monad.{◌>>=◌}
use my_network_library.Prelude.Text.{Text, codes}
use my_network_library.Network.Kernel.{Kernel}
use my_network_library.Network.Connection.{
  Connection, Callback, ReadResult, WriteResult, construct, delete_connection, business, send,
}

-- an entry of `connections_`, with the number of the connection's sub-reactor
pub record Entry : Type 0 where
  pub key : ℕ
  pub reactor : ℕ
  pub connection : Connection

unfoldable pub find_entry : ℕ → List Entry → Option Entry
find_entry fd [] = none
find_entry fd (e ∷ es) = if e.key == fd then some e else find_entry fd es

-- the entry of a key that is there, changed in place
unfoldable pub update_entry : Entry → List Entry → List Entry
update_entry e [] = []
update_entry e (d ∷ ds) = if d.key == e.key then e ∷ ds else d ∷ update_entry e ds

-- `now - last > 1000 * 60 * 2`, of a `size_t`
unfoldable pub is_inactive : ℕ → ℕ → Bool
is_inactive now last = ltb (1000 * 60 * 2) ((now + 2 ^ 64 - last) % 2 ^ 64)

abbrev pub farewell : Text
farewell = codes "You are cleared!"

module _ (K : Kernel) where
  pub record Server : Type 0 where
    pub connections : List Entry
    -- the epoll of each sub-reactor
    pub reactors : ℕ → K.Epoll
    -- `sub_reactors_.size()`
    pub size : ℕ

  abbrev pub set_reactor : (ℕ → K.Epoll) → ℕ → K.Epoll → ℕ → K.Epoll
  set_reactor f i q j = if j == i then q else f j

  -- `fd % sub_reactors_.size()`, a fault when there is none
  abbrev pub choose : ℕ → ℕ → Option ℕ
  choose fd zero = none
  choose fd (suc n) = some (fd % suc n)

  abbrev pub insert_new : Server → ℕ → Option Entry → ℕ → Connection × K.Epoll → Option Server
  insert_new s fd none i (c, q) = some (record s {
    connections = record { key = fd; reactor = i; connection = c } ∷ s.connections;
    reactors = set_reactor s.reactors i q;
  })
  insert_new s fd (some old) i cq = none

  -- `NewConnection`, of a nonblocking descriptor, up to the server's callback. An entry that is
  -- there would be destroyed, and its destructor closes the descriptor: a fault.
  unfoldable pub new_connection : Server → ℕ → Option Server
  unfolding construct find_entry
  new_connection s fd = do
    i ← choose fd s.size
    cq ← construct K true fd (s.reactors i)
    insert_new s fd (find_entry fd s.connections) i cq

  -- puts back a connection and its sub-reactor's epoll
  abbrev pub store : Server → Entry → Connection × K.Epoll → Server
  store s e (c, q) = record s {
    connections = update_entry (record e { connection = c }) s.connections;
    reactors = set_reactor s.reactors e.reactor q;
  }

  abbrev pub delete_found : Server → Option Entry → Option Server
  delete_found s none = some s
  delete_found s (some e) = do
    cq ← delete_connection K e.connection (s.reactors e.reactor)
    some (store s e cq)

  -- `DeleteConnection`, which leaves the entry in `connections_`
  unfoldable pub delete_connection_at : Server → ℕ → Option Server
  unfolding find_entry update_entry delete_connection
  delete_connection_at s fd = delete_found s (find_entry fd s.connections)

  abbrev pub message_found : Callback → List ReadResult → Server → Option Entry → Option Server
  message_found cb rs s none = some s
  message_found cb rs s (some e) = do
    cq ← business K cb rs e.connection (s.reactors e.reactor)
    some (store s e cq)

  -- the read callback of a connection's channel
  unfoldable pub message : Callback → List ReadResult → Server → ℕ → Option Server
  unfolding find_entry update_entry business
  message cb rs s fd = message_found cb rs s (find_entry fd s.connections)

  -- the loop of `CheckActiveConnection` over the connections, with the results of `write` for each:
  -- the connections, the reactors, and the descriptors in `delete_after`
  unfoldable pub clear_loop :
      ℕ
      → (ℕ → List WriteResult)
      → List Entry
      → (ℕ → K.Epoll)
      → Option (List Entry × (ℕ → K.Epoll) × List ℕ)
  unfolding is_inactive send delete_connection
  clear_loop now rs [] f = some ([], f, [])
  clear_loop now rs (e ∷ es) f =
      let keep = (do (es', f', fds) ← clear_loop now rs es f; some (e ∷ es', f', fds)) in
      let clear = (do
        c ← send (rs e.key) e.connection farewell
        (d, q) ← delete_connection K c (f e.reactor)
        (es', f', fds) ← clear_loop now rs es (set_reactor f e.reactor q)
        some (record e { connection = d } ∷ es', f', e.key ∷ fds)) in
      if is_inactive now e.connection.context then clear else keep

  -- the loop over `delete_after`
  unfoldable pub delete_all : List ℕ → Server → Option Server
  unfolding delete_connection_at
  delete_all [] s = some s
  delete_all (fd ∷ fds) s = do s' ← delete_connection_at s fd; delete_all fds s'

  -- one run of the callback of `CheckActiveConnection`
  unfoldable pub check_active : ℕ → (ℕ → List WriteResult) → Server → Option Server
  unfolding clear_loop delete_all
  check_active now rs s = do
    (es, f, fds) ← clear_loop now rs s.connections s.reactors
    delete_all fds (record s { connections = es; reactors = f })
