-- ===== src/Network/EchoServer.antt =====
-- The callbacks of example/server.cpp and example/timer_server.cpp, which send back what they read.
use mathlib.Core.Option.{some-injective}
use my_network_library.Prelude.{
  ℕ, ◌+◌, ◌≤◌, ◌≡◌, refl, sym, ap, Bool, true, false, Option, none, some, List, if◌then◌else◌,
  arith,
}
use my_network_library.Network.Kernel.{Kernel}
use my_network_library.Network.Connection.{
  Connection, Callback, WriteResult, is_connected, read_text, send, set_context,
}
use my_network_library.Network.Connection.Written.{settles}
use my_network_library.Network.Connection.Keeps.{
  Keeps-refl, KeepsRun, KeepsRun-some, KeepsRun-if, send-KeepsRun,
}
use my_network_library.Network.Server.{Entry, Server, is_inactive, check_active}
use my_network_library.Network.Server.Entries.{Same}
use my_network_library.Network.Server.Sound.{IsSoundServer, at}
use my_network_library.Network.Server.Check.{Checked, check_active-Checked}
use my_network_library.Timer.Node.{TimeVal, get_now}

-- the message callback of example/server.cpp, with the results of `write`
unfoldable pub echo_message : List WriteResult → Connection → Option Connection
echo_message rs c = if is_connected c then send rs c (read_text c) else some c

-- the connection callback of example/timer_server.cpp
unfoldable pub timer_connect : TimeVal → Connection → Connection
timer_connect now c = if is_connected c then set_context c (get_now now) else c

abbrev pub stamp : TimeVal → Option Connection → Option Connection
stamp now none = none
stamp now (some c) = some (set_context c (get_now now))

-- the message callback of example/timer_server.cpp
unfoldable pub timer_message : List WriteResult → TimeVal → Connection → Option Connection
timer_message rs now c = if is_connected c then stamp now (send rs c (read_text c)) else some c

pub echo_message-KeepsRun :
    (rs : List WriteResult) (c : Connection) → KeepsRun c (echo_message rs c)
unfolding echo_message
echo_message-KeepsRun rs c =
    KeepsRun-if (is_connected c) c _ _ (send-KeepsRun rs c (read_text c))
      (KeepsRun-some c c (Keeps-refl c))

stamp-KeepsRun :
    (now : TimeVal) (c : Connection) (o : Option Connection)
    → KeepsRun c o
    → KeepsRun c (stamp now o)
unfolding set_context is_connected
stamp-KeepsRun now c none k = λ d h. cc h
stamp-KeepsRun now c (some d) k = KeepsRun-some c (record d { context = get_now now }) (k d refl)

pub timer_message-KeepsRun :
    (rs : List WriteResult) (now : TimeVal) (c : Connection) → KeepsRun c (timer_message rs now c)
unfolding timer_message
timer_message-KeepsRun rs now c =
    KeepsRun-if (is_connected c) c _ _ (stamp-KeepsRun now c _ (send-KeepsRun rs c (read_text c)))
      (KeepsRun-some c c (Keeps-refl c))

-- both are callbacks that the server can take
abbrev pub echo_callback : List WriteResult → Callback
echo_callback rs = record { run = echo_message rs; keeps = echo_message-KeepsRun rs }

abbrev pub timer_callback : List WriteResult → TimeVal → Callback
timer_callback rs now = record { run = timer_message rs now; keeps = timer_message-KeepsRun rs now }

stamped :
    (now : TimeVal) (o : Option Connection) (d : Connection)
    → stamp now o ≡ some d
    → d.context ≡ get_now now
unfolding set_context
stamped now none d h = cc
stamped now (some c) d h = ap (λ (x : Connection). x.context) (sym (some-injective _ _ h))

-- the context after a message is the time of the message
timer_message-context :
    (rs : List WriteResult) (now : TimeVal) (c d : Connection)
    → is_connected c ≡ true
    → timer_message rs now c ≡ some d
    → d.context ≡ get_now now
unfolding timer_message
timer_message-context rs now c d live h =
    stamped now (send rs c (read_text c)) d (first _ _ (is_connected c) live h)
  where
    first :
        (x y : Option Connection) (b : Bool) → b ≡ true → (if b then x else y) ≡ some d → x ≡ some d
    first x y true l k = k
    first x y false l k = cc l

recent :
    (now later : TimeVal) (t : ℕ)
    → t ≡ get_now now
    → get_now now ≤ get_now later
    → get_now later ≤ get_now now + 120000
    → is_inactive (get_now later) t ≡ false
unfolding is_inactive
recent now later t e l h = ground (arith, e, l, h)

module _ (K : Kernel) where
  -- A connected connection of the timer server that had a message is left alone by every check
  -- within two minutes, while the clock has not started again: the check does not fail, the
  -- connection is what the message left, and its registration is as it was.
  pub timer_message-kept :
      (rs : List WriteResult) (now later : TimeVal) (c : Connection) (s : Server K) (k : ℕ)
      (e : Entry) (ws : ℕ → List WriteResult)
      → is_connected c ≡ true
      → timer_message rs now c ≡ some e.connection
      → at K s k ≡ some e
      → IsSoundServer K s
      → ((j : ℕ) → settles (ws j) 16 ≡ true)
      → get_now now ≤ get_now later
      → get_now later ≤ get_now now + 120000
      → (r : Checked K (get_now later) s (check_active K (get_now later) ws s)) × (at K r.next k
          ≡ some e)
        × Same K s.reactors r.next.reactors k
  timer_message-kept rs now later c s k e ws live run found sound enough l h =
      let r = check_active-Checked K (get_now later) ws s enough sound in
      let (m, u) = r.active k e found (
        recent now later e.connection.context (timer_message-context rs now c e.connection live run)
          l h) in
      (r, m, u)
