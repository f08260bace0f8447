-- ===== src/Network/Connection.antt =====
-- `Connection` of src/network/include/Connection.h and src/network/Connection.cpp. What `read` and `write`
-- return, call after call, is a list of results.
pub mod Written
pub mod Keeps
pub mod Registered
pub mod Business
use my_network_library.Prelude.{
  ℕ, zero, suc, ◌+◌, ◌-◌, ◌≤◌, ◌≡◌, Bool, true, false, not, Option, none, some, List, [], ◌∷◌, ◌++◌,
  ◌==◌, if◌then◌else◌, length, take, drop,
}
use my_network_library.Prelude.Text.{Text, codes}
use my_network_library.Network.Buffer.{append_bytes, clear, c_string, set_buf, to_str}
use my_network_library.Prelude.Monad.{◌>>=◌}
use my_network_library.Network.Kernel.{Kernel}
use my_network_library.Network.Channel.{
  Channel, enable_read, use_et, disable_all, delete_channel, is_writing,
}
use my_network_library.Network.Channel

pub data State : Type 0 where
  invalid handshaking connected closed failed : State

pub record Connection : Type 0 where
  pub fd : ℕ
  pub nonblocking : Bool
  pub channel : Channel
  pub state : State
  pub read_buffer : Text
  pub send_buffer : Text
  pub context : ℕ
  -- `shutdownWrite` was called
  pub shut : Bool
  -- the bytes that `write` has accepted
  pub sent : Text

-- a connection over a channel that is registered
abbrev pub connected_over : Bool → Channel → Connection
connected_over nonblocking ch = record {
  fd = ch.fd;
  nonblocking = nonblocking;
  channel = ch;
  state = connected;
  read_buffer = [];
  send_buffer = [];
  context = 0;
  shut = false;
  sent = [];
}

abbrev pub is_state_connected : State → Bool
is_state_connected connected = true
is_state_connected _ = false

unfoldable pub is_connected : Connection → Bool
is_connected c = is_state_connected c.state

unfoldable pub set_context : Connection → ℕ → Connection
set_context c t = record c { context = t }

pub data ReadResult : Type 0 where
  bytes : Text → ReadResult
  interrupted again eof error : ReadResult

-- what a reading ends with: the connection, and whether `Close` was called
abbrev pub close_read : Connection → Connection × Bool
close_read c = (record c { state = closed }, true)

-- `ReadNonBlocking`; `none` when the results end before the loop does
unfoldable pub read_nonblocking : List ReadResult → Connection → Option (Connection × Bool)
unfolding append_bytes
read_nonblocking [] c = none
read_nonblocking (bytes t ∷ rs) c =
    read_nonblocking rs (record c { read_buffer = append_bytes c.read_buffer t })
read_nonblocking (interrupted ∷ rs) c = read_nonblocking rs c
read_nonblocking (again ∷ rs) c = some (c, false)
read_nonblocking (eof ∷ rs) c = some (close_read c)
read_nonblocking (error ∷ rs) c = some (close_read c)

-- `ReadBlocking`, which does not call `Close`
unfoldable pub read_blocking : ReadResult → Connection → Connection
unfolding append_bytes
read_blocking (bytes t) c = record c { read_buffer = append_bytes c.read_buffer t }
read_blocking _ c = record c { state = closed }

abbrev pub read_once : List ReadResult → Connection → Option (Connection × Bool)
read_once [] c = none
read_once (r ∷ rs) c = some (read_blocking r c, false)

unfoldable pub read : List ReadResult → Connection → Option (Connection × Bool)
unfolding is_connected clear read_nonblocking read_blocking
read rs c =
    let emptied = record c { read_buffer = clear c.read_buffer } in
    if not (is_connected c)
    then some (c, false)
    else if c.nonblocking
    then read_nonblocking rs emptied
    else read_once rs emptied

pub data WriteResult : Type 0 where
  accepted : ℕ → WriteResult
  interrupted again error : WriteResult

-- the loop of `WriteNonBlocking`, of the bytes that are left; `none` when the results end first
unfoldable pub write_loop : List WriteResult → Text → Connection → Option Connection
write_loop rs [] c = some c
write_loop [] (x ∷ xs) c = none
write_loop (accepted n ∷ rs) (x ∷ xs) c =
    write_loop rs (drop n (x ∷ xs)) (record c { sent = c.sent ++ take n (x ∷ xs) })
write_loop (interrupted ∷ rs) (x ∷ xs) c = write_loop rs (x ∷ xs) c
write_loop (again ∷ rs) (x ∷ xs) c = some c
write_loop (error ∷ rs) (x ∷ xs) c = some (record c { state = closed })

-- `WriteBlocking`, one call of `write`
unfoldable pub write_blocking : WriteResult → Connection → Connection
write_blocking (accepted n) c = record c { sent = c.sent ++ take n c.send_buffer }
write_blocking _ c = record c { state = closed }

abbrev pub write_once : List WriteResult → Connection → Option Connection
write_once [] c = none
write_once (r ∷ rs) c = some (write_blocking r c)

abbrev pub clear_sent : Option Connection → Option Connection
clear_sent none = none
clear_sent (some c) = some (record c { send_buffer = clear c.send_buffer })

unfoldable pub write : List WriteResult → Connection → Option Connection
unfolding is_connected clear write_loop write_blocking
write rs c =
    if not (is_connected c)
    then some c
    else clear_sent (if c.nonblocking then write_loop rs c.send_buffer c else write_once rs c)

-- `SetSendBuffer(const char*)`
unfoldable pub set_send_buffer : Connection → Text → Connection
unfolding set_buf
set_send_buffer c str = record c { send_buffer = set_buf c.send_buffer str }

-- `Send`, which passes `msg.c_str()`
unfoldable pub send : List WriteResult → Connection → Text → Option Connection
unfolding set_send_buffer write
send rs c msg = write rs (set_send_buffer c msg)

unfoldable pub read_text : Connection → Text
unfolding to_str
read_text c = to_str c.read_buffer

unfoldable pub shutdown : Connection → Connection
unfolding is_writing
shutdown c = if not (is_writing c.channel) then record c { shut = true } else c

-- the user's callback for a message: it can send, set the context and shut down
pub record Callback : Type 0 where
  pub run : Connection → Option Connection
  pub keeps :
      (c d : Connection)
      → run c ≡ some d
      → (d.fd ≡ c.fd) × (d.channel ≡ c.channel) × (is_connected c ≡ false → is_connected d ≡ false)

module _ (K : Kernel) where
  -- The constructor, of a descriptor that is nonblocking or not, with the epoll of a loop that is there,
  -- as `NewConnection` gives it; without a loop the code makes no channel. `none` when a call of
  -- `epoll_ctl` fails.
  unfoldable pub construct : Bool → ℕ → K.Epoll → Option (Connection × K.Epoll)
  unfolding Channel.construct enable_read use_et
  construct nonblocking fd p = do
    (ch, q) ← enable_read K (Channel.construct fd) p
    (ch', r) ← use_et K ch q
    some (connected_over nonblocking ch', r)

  -- `deleteConnection`
  unfoldable pub delete_connection : Connection → K.Epoll → Option (Connection × K.Epoll)
  unfolding disable_all delete_channel
  delete_connection c p = do
    (ch, q) ← disable_all K c.channel p
    (ch', r) ← delete_channel K ch q
    some (record c { state = closed; channel = ch' }, r)

  -- what `Close` does when the server has the connection: `DeleteConnection` finds it
  abbrev pub close_if : Bool → Connection → K.Epoll → Option (Connection × K.Epoll)
  close_if b c p = if b then delete_connection c p else some (c, p)

  -- `Business`, the read callback, with the results of `read`
  unfoldable pub business :
      Callback → List ReadResult → Connection → K.Epoll → Option (Connection × K.Epoll)
  unfolding read delete_connection
  business cb rs c p = do
    (c₁, closes) ← read rs c
    (c₂, q) ← close_if closes c₁ p
    d ← cb.run c₂
    some (d, q)
