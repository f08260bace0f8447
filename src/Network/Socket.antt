-- ===== src/Network/Socket.antt =====
-- `Socket`, `InetAddress` and `ErrorIf` of src/network/Socket.cpp and src/network/util.cpp, and `Acceptor` of
-- src/network/Acceptor.cpp. What the system calls return is given.
pub mod Accepted
use my_network_library.Prelude.{
  ℕ, ◌+◌, ◌*◌, ◌/◌, ◌%◌, ◌^◌, Bool, true, false, not, Option, none, some, List, [], ◌∷◌,
  if◌then◌else◌,
}
use my_network_library.Prelude.Text.{Text, codes}
use my_network_library.Network.Kernel.{Kernel}
use my_network_library.Network.Channel.{Channel, enable_read}
use my_network_library.Network.Channel

-- how a function ends: with a value, with the program ended by `ErrorIf`, or not yet, when the results
-- of the system calls that are given have been used up
pub data Ended (A : Type 0) : Type 0 where
  value : A → Ended A
  exited : Ended A
  unended : Ended A

-- `ErrorIf`, before what follows it
unfoldable pub error_if : {A : Type 0} → Bool → Ended A → Ended A
error_if condition e = if condition then exited else e

-- the flags of a descriptor: `O_NONBLOCK`, and the others
pub record Flags : Type 0 where
  pub nonblock : Bool
  pub others : ℕ

pub record Socket : Type 0 where
  pub fd : ℕ
  pub flags : Flags

-- the constructors, with the result of `socket`, or the descriptor given; `none` is -1
unfoldable pub construct : Option ℕ → Ended Socket
construct none = exited
construct (some fd) = value (record { fd = fd; flags = record { nonblock = false; others = 0 } })

-- `Bind` and `Listen`, by whether the system call succeeds
unfoldable pub bind : Bool → Socket → Ended Socket
unfolding error_if
bind ok s = error_if (not ok) (value s)

unfoldable pub listen : Bool → Socket → Ended Socket
unfolding error_if
listen ok s = error_if (not ok) (value s)

-- the flags as they were, and the socket
unfoldable pub set_nonblocking : Socket → Flags × Socket
set_nonblocking s = (s.flags, record s { flags = record s.flags { nonblock = true } })

unfoldable pub is_nonblocking : Socket → Bool
is_nonblocking s = s.flags.nonblock

-- a result of `accept`: EAGAIN, another error, or a descriptor
pub data AcceptResult : Type 0 where
  again failed : AcceptResult
  connection : ℕ → AcceptResult

unfoldable pub accept_loop : List AcceptResult → Ended ℕ
accept_loop [] = unended
accept_loop (again ∷ rs) = accept_loop rs
accept_loop (failed ∷ rs) = exited
accept_loop (connection fd ∷ rs) = value fd

unfoldable pub accept_once : List AcceptResult → Ended ℕ
accept_once [] = unended
accept_once (again ∷ rs) = exited
accept_once (failed ∷ rs) = exited
accept_once (connection fd ∷ rs) = value fd

unfoldable pub accept : List AcceptResult → Socket → Ended ℕ
unfolding accept_loop accept_once
accept rs s = if s.flags.nonblock then accept_loop rs else accept_once rs

-- a result of `connect`: EINPROGRESS, another error such as EALREADY, or success
pub data ConnectResult : Type 0 where
  in_progress already refused done : ConnectResult

unfoldable pub connect_loop : List ConnectResult → Ended Unit
connect_loop [] = unended
connect_loop (done ∷ rs) = value tt
connect_loop (in_progress ∷ rs) = connect_loop rs
connect_loop (already ∷ rs) = exited
connect_loop (refused ∷ rs) = exited

unfoldable pub connect_once : List ConnectResult → Ended Unit
connect_once [] = unended
connect_once (done ∷ rs) = value tt
connect_once (in_progress ∷ rs) = exited
connect_once (already ∷ rs) = exited
connect_once (refused ∷ rs) = exited

unfoldable pub connect : List ConnectResult → Socket → Ended Unit
unfolding connect_loop connect_once
connect rs s = if s.flags.nonblock then connect_loop rs else connect_once rs

-- `shutdownWrite`, by whether the system call succeeds
unfoldable pub shutdown_write : Bool → Socket → Ended Socket
unfolding error_if
shutdown_write ok s = error_if (not ok) (value s)

-- `sockaddr_in`, its numbers as they lie in memory
pub record InetAddress : Type 0 where
  pub family : ℕ
  pub address : ℕ
  pub port : ℕ

-- `htons` and `ntohs` on a machine that stores the low byte first
abbrev pub swap_bytes : ℕ → ℕ
swap_bytes p = (p % 256) * 256 + (p / 256) % 256

unfoldable pub inet_address : InetAddress
inet_address = record { family = 0; address = 0; port = 0 }

-- the constructor of an address and a port, over `inet_addr`
unfoldable pub inet_address_of : (Text → ℕ) → Text → ℕ → InetAddress
inet_address_of inet_addr ip port = record {
  family = 2;
  address = inet_addr ip;
  port = swap_bytes port;
}

unfoldable pub get_port : InetAddress → ℕ
get_port a = swap_bytes a.port

-- `SetInetAddr` and `GetAddr`
unfoldable pub set_inet_addr : InetAddress → InetAddress → InetAddress
set_inet_addr a addr = addr

-- the socket made for an accepted descriptor, which is made nonblocking
abbrev pub client_socket : ℕ → Socket
client_socket fd =
    (set_nonblocking (record { fd = fd; flags = record { nonblock = false; others = 0 } })).1

-- `AcceptConnection`, with the callback `new_connection_callback_` and the state that it works on:
-- the new connection's socket, and what the callback makes of its descriptor
unfoldable pub accept_connection :
    {A : Type 0} → (A → ℕ → Option A) → List AcceptResult → Socket → A → Ended (Socket × Option A)
unfolding accept set_nonblocking
accept_connection new_connection_callback rs s a = elim (accept rs s) [
  | value fd ↦ value (client_socket fd, new_connection_callback a (client_socket fd).fd)
  | exited ↦ exited
  | unended ↦ unended
]

module _ (K : Kernel) where
  abbrev pub registered_acceptor :
      Socket → Option (Channel × K.Epoll) → Ended (Socket × Channel × K.Epoll)
  registered_acceptor s none = exited
  registered_acceptor s (some (ch, p)) = value (s, ch, p)

  -- the constructor of `Acceptor`: its socket, and its channel, with the results of `socket`, `bind`
  -- and `listen`
  unfoldable pub acceptor : Option ℕ → Bool → Bool → K.Epoll → Ended (Socket × Channel × K.Epoll)
  unfolding construct bind listen enable_read Channel.construct
  acceptor opened bound listening p = elim (construct opened) [
    | exited ↦ exited
    | unended ↦ unended
    | value s ↦ elim (bind bound s) [
      | exited ↦ exited
      | unended ↦ unended
      | value s₁ ↦ elim (listen listening s₁) [
        | exited ↦ exited
        | unended ↦ unended
        | value s₂ ↦ registered_acceptor s₂ (enable_read K (Channel.construct s₂.fd) p)
      ]
    ]
  ]
