-- ===== src/Network/Reactor.antt =====
-- What src/network/EventLoop.cpp does with the events that `Epoll::Poll` of src/network/Epoll.cpp finds: the
-- channels of the server's connections handle them.
pub mod Ends
pub mod Reachable
use my_network_library.Prelude.{ℕ, Bool, true, false, Option, none, some, List, [], ◌∷◌}
use my_network_library.Prelude.Monad.{◌>>=◌}
use my_network_library.Network.Kernel.{Events, Kernel}
use my_network_library.Network.Channel.{set_ready_events, handle_event, on_close, on_read, on_write}
use my_network_library.Network.Channel
use my_network_library.Network.Connection.{Callback, ReadResult}
use my_network_library.Network.Server.{
  Entry, Server, find_entry, update_entry, delete_connection_at, message,
}

module _ (K : Kernel) where
  -- `SetReadyEvents` on the channel of the descriptor
  abbrev pub set_ready_found : Events → Server K → Option Entry → Server K
  set_ready_found ev s none = s
  set_ready_found ev s (some e) = record s {
    connections =
        update_entry
          (record e {
            connection = record e.connection { channel = set_ready_events e.connection.channel ev };
          })
          s.connections;
  }

  unfoldable pub set_ready : ℕ → Events → Server K → Server K
  unfolding find_entry update_entry set_ready_events
  set_ready fd ev s = set_ready_found ev s (find_entry fd s.connections)

  -- `Poll`, with the events that `epoll_wait` has found
  unfoldable pub poll : List (ℕ × Events) → Server K → Server K
  unfolding set_ready
  poll [] s = s
  poll ((fd, ev) ∷ es) s = poll es (set_ready fd ev s)

  -- a callback of a connection's channel; `write_callback_` is never set, and the call of an empty
  -- function throws
  unfoldable pub run_callback :
      Callback → List ReadResult → Channel.Callback → ℕ → Server K → Option (Server K)
  unfolding delete_connection_at message
  run_callback cb rs on_close fd s = delete_connection_at K s fd
  run_callback cb rs on_read fd s = message K cb rs s fd
  run_callback cb rs on_write fd s = none

  unfoldable pub run_callbacks :
      Callback → List ReadResult → List Channel.Callback → ℕ → Server K → Option (Server K)
  unfolding run_callback
  run_callbacks cb rs [] fd s = some s
  run_callbacks cb rs (c ∷ cs) fd s = do
    s' ← run_callback cb rs c fd s
    run_callbacks cb rs cs fd s'

  abbrev pub handle_found :
      Callback → List ReadResult → ℕ → Server K → Option Entry → Option (Server K)
  handle_found cb rs fd s none = some s
  handle_found cb rs fd s (some e) =
      run_callbacks cb rs (handle_event true e.connection.channel) fd s

  -- `HandleEvent` of a connection's channel, with the results of `read`
  unfoldable pub handle_channel : Callback → List ReadResult → ℕ → Server K → Option (Server K)
  unfolding find_entry handle_event run_callbacks
  handle_channel cb rs fd s = handle_found cb rs fd s (find_entry fd s.connections)

  unfoldable pub handle_all :
      Callback → (ℕ → List ReadResult) → List (ℕ × Events) → Server K → Option (Server K)
  unfolding handle_channel
  handle_all cb rs [] s = some s
  handle_all cb rs ((fd, ev) ∷ es) s = do
    s' ← handle_channel cb (rs fd) fd s
    handle_all cb rs es s'

  -- one round of `Loop`
  unfoldable pub loop_round :
      Callback → (ℕ → List ReadResult) → List (ℕ × Events) → Server K → Option (Server K)
  unfolding poll handle_all
  loop_round cb rs es s = handle_all cb rs es (poll es s)
