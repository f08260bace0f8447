-- ===== src/Network/Reactor/Reachable.antt =====
-- Every state that the server of src/network/ can reach is sound.
use mathlib.Core.Path.{subst}
use mathlib.Core.Option.{some-injective}
use my_network_library.Prelude.{ℕ, ◌≡◌, sym, ◌∙◌, true, Option, none, some, List, []}
use my_network_library.Network.Kernel.{Events, Kernel}
use my_network_library.Network.Connection.{Callback, ReadResult, WriteResult}
use my_network_library.Network.Connection.Written.{settles}
use my_network_library.Network.Server.{Server, choose, new_connection, check_active}
use my_network_library.Network.Server.Sound.{IsSoundServer, at, new_connection-Ran}
use my_network_library.Network.Server.Check.{check_active-Checked}
use my_network_library.Network.Reactor.{set_ready, handle_channel}
use my_network_library.Network.Reactor.Ends.{
  stops, IsTotal, NoOutput, EndsSound, Fits-empty, set_ready-Sound, handle_channel-ends,
}

module _ (K : Kernel) (cb : Callback) (total : IsTotal cb) where
  -- What the main loop and the sub-reactors do, in any order: a new descriptor is accepted, which is
  -- not in use and so not registered; an event is found; a connection handles its events; the
  -- inactive connections are cleared.
  pub data Step : Server K → Server K → Type 0 where
    accepted :
        {s s' : Server K} (fd i : ℕ)
        → at K s fd ≡ none
        → choose K fd s.size ≡ some i
        → K.registered (s.reactors i) fd ≡ none
        → new_connection K s fd ≡ some s'
        → Step s s'
    polled : {s : Server K} (fd : ℕ) (ev : Events) → Step s (set_ready K fd ev s)
    handled :
        {s s' : Server K} (fd : ℕ) (rs : List ReadResult)
        → stops rs ≡ true
        → NoOutput (at K s fd)
        → handle_channel K cb rs fd s ≡ some s'
        → Step s s'
    checked :
        {s s' : Server K} (now : ℕ) (rs : ℕ → List WriteResult)
        → ((k : ℕ) → settles (rs k) 16 ≡ true)
        → check_active K now rs s ≡ some s'
        → Step s s'

  pub data Reachable : Server K → Type 0 where
    started : {s : Server K} → s.connections ≡ [] → Reachable s
    stepped : {s s' : Server K} → Reachable s → Step s s' → Reachable s'

  the_end :
      (s s' : Server K) (o : Option (Server K))
      → o ≡ some s
      → IsSoundServer K s
      → o ≡ some s'
      → IsSoundServer K s'
  the_end s s' o h sound k = subst (IsSoundServer K) (some-injective _ _ (sym h ∙ k)) sound

  Step-Sound : (s s' : Server K) → Step s s' → IsSoundServer K s → IsSoundServer K s'
  Step-Sound s s' (accepted fd i absent chosen fresh h) sound =
      let (c, live, r) = new_connection-Ran K s fd i sound absent chosen fresh in
      the_end r.next s' (new_connection K s fd) r.ran r.sound h
  Step-Sound s s' (polled fd ev) sound = set_ready-Sound K fd ev s sound
  Step-Sound s s' (handled fd rs h w e) sound =
      let (t, ran, sound') = handle_channel-ends K cb total rs fd s h w sound in
      the_end t s' (handle_channel K cb rs fd s) ran sound' e
  Step-Sound s s' (checked now rs h e) sound =
      let r = check_active-Checked K now rs s h sound in
      the_end r.next s' (check_active K now rs s) r.ran r.sound e

  -- Whatever the order of accepted descriptors, events, their handling and the clearing of inactive
  -- connections, in every state that a server without connections reaches: every connection has
  -- the descriptor of its key and the sub-reactor `fd % size`, its flag `in_epoll_` agrees with that
  -- sub-reactor's interest list, it is registered when it is connected, and no descriptor has two.
  -- The user's callback ends.
  pub Reachable-IsSoundServer : (s : Server K) → Reachable s → IsSoundServer K s
  Reachable-IsSoundServer s (started h) = Fits-empty K s h
  Reachable-IsSoundServer s (stepped {s = t} r e) = Step-Sound t s e (Reachable-IsSoundServer t r)

  -- In every reachable state the handling of a channel's events ends without a fault in a sound
  -- server, when its reading ends and the kernel has not reported that it can be written to.
  pub Reachable-handle_channel :
      (s : Server K) (fd : ℕ) (rs : List ReadResult)
      → Reachable s
      → stops rs ≡ true
      → NoOutput (at K s fd)
      → EndsSound K (handle_channel K cb rs fd s)
  Reachable-handle_channel s fd rs r h w =
      handle_channel-ends K cb total rs fd s h w (Reachable-IsSoundServer s r)
