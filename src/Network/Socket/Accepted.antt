-- ===== src/Network/Socket/Accepted.antt =====
-- A connection that the acceptor of src/network/Acceptor.cpp accepts gets to the server.
use my_network_library.Prelude.{
  Option, ℕ, zero, suc, ◌^◌, ◌<◌, ◌≡◌, refl, ◌⊎◌, inl, inr, Bool, true, false, none, some, List, [],
  ◌∷◌, ◌++◌, if◌then◌else◌, arith,
}
use my_network_library.Prelude.Text.{Text}
use my_network_library.Network.Kernel.{Kernel}
use my_network_library.Network.Channel.Registered.{is_registered}
use my_network_library.Network.Connection.{Connection, is_connected}
use my_network_library.Network.Server.{Server, choose, new_connection}
use my_network_library.Network.Server.Sound.{IsSoundServer, at, Ran, new_connection-Ran}
use my_network_library.Network.Socket.{
  Socket, Ended, value, AcceptResult, again, connection, accept_loop, accept_once, accept,
  accept_connection, client_socket, is_nonblocking, set_nonblocking, inet_address_of, get_port,
}

-- the port of an address is the one it was made with
pub get_port-inet_address_of :
    (inet_addr : Text → ℕ) (ip : Text) (port : ℕ)
    → port < 2 ^ 16
    → get_port (inet_address_of inet_addr ip port) ≡ port
unfolding get_port inet_address_of
get_port-inet_address_of inet_addr ip port h = omega (arith, h)

-- some calls that find no connection yet
abbrev pub agains : ℕ → List AcceptResult
agains zero = []
agains (suc n) = again ∷ agains n

accept_loop-agains :
    (n fd : ℕ) (rs : List AcceptResult) → accept_loop (agains n ++ connection fd ∷ rs) ≡ value fd
unfolding accept_loop
accept_loop-agains zero fd rs = refl
accept_loop-agains (suc n) fd rs = accept_loop-agains n fd rs

accept-connection :
    (b : Bool) (n fd : ℕ) (rs : List AcceptResult)
    → (b ≡ true) ⊎ (n ≡ 0)
    → (if b
        then accept_loop (agains n ++ connection fd ∷ rs)
        else accept_once (agains n ++ connection fd ∷ rs))
      ≡ value fd
unfolding accept_once
accept-connection true n fd rs h = accept_loop-agains n fd rs
accept-connection false zero fd rs h = refl
accept-connection false (suc n) fd rs (inl h) = cc
accept-connection false (suc n) fd rs (inr h) = absurd (omega (arith, h))

-- what a socket has accepted
pub record AcceptedBy (K : Kernel) (s : Server K) (fd i : ℕ)
    (run : Ended (Socket × Option (Server K))) : Type 0 where
  pub socket : Socket
  pub result : Option (Server K)
  pub ran : run ≡ value (socket, result)
  pub same : socket.fd ≡ fd
  pub nonblocking : is_nonblocking socket ≡ true
  pub client : Connection
  pub connects : is_connected client ≡ true
  pub served :
      Ran K s fd result
        (record { key = fd; reactor = i; connection = client })
        (λ q. is_registered (K.registered q fd) ≡ true)

module _ (K : Kernel) where
  -- `AcceptConnection`, on a nonblocking socket after any number of calls that found no connection, or
  -- on a blocking one, makes the descriptor nonblocking and calls its callback with it. When that is
  -- `NewConnection` of a sound server that neither has the descriptor nor has it registered, and has
  -- a sub-reactor, the server then has a connected connection for it, registered with the sub-reactor
  -- `fd % size`, and is sound.
  pub accept_connection-AcceptedBy :
      (s : Server K) (listening : Socket) (n fd i : ℕ) (rs : List AcceptResult)
      → (listening.flags.nonblock ≡ true) ⊎ (n ≡ 0)
      → IsSoundServer K s
      → at K s fd ≡ none
      → choose K fd s.size ≡ some i
      → K.registered (s.reactors i) fd ≡ none
      → AcceptedBy K s fd i
          (accept_connection (new_connection K) (agains n ++ connection fd ∷ rs) listening s)
  unfolding accept_connection accept set_nonblocking is_nonblocking
  accept_connection-AcceptedBy s listening n fd i rs h sound absent chosen fresh =
      let (c, live, r) = new_connection-Ran K s fd i sound absent chosen fresh in
      record {
        socket = client_socket fd;
        result = new_connection K s fd;
        ran = rw (accept_connection, accept-connection listening.flags.nonblock n fd rs h) refl;
        same = refl;
        nonblocking = refl;
        client = c;
        connects = live;
        served = r;
      }
