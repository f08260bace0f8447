-- ===== src/Network/Examples.antt =====
-- Runs of the connections of src/network/ on concrete data.
use mathlib.Core.Option.{some-injective}
use my_network_library.Network.Channel.Registered.{is_registered}
use my_network_library.Prelude.{
  inl, ◌++◌, ℕ, ◌∙◌, ◌-◌, ◌+◌, ◌<◌, arith, ap, sym, none, ◌≡◌, refl, true, false, some, List, [],
  ◌∷◌, length,
}
use my_network_library.Prelude.Text.{codes, before}
use my_network_library.Network.Buffer.{c_string}
use my_network_library.Network.Channel
use my_network_library.Network.ThreadPool
use my_network_library.Network.ThreadPool.{
  ThreadPool, ready, asleep, started, add, turns, request_stop, shut_down, notify_all, turn,
  turn_at, worker_turn,
}
use my_network_library.Network.ThreadPool.Reached.{Reached, added, made, turned}
use my_network_library.Network.ThreadPool.Joined.{Joined, member, turns-Joined}
use my_network_library.Network.Connection
use my_network_library.Network.Reactor.{set_ready, handle_channel}
use my_network_library.Network.Reactor.Ends.{IsTotal, NoOutput, EndsSound}
use my_network_library.Network.Reactor.Reachable.{
  Reachable, started, stepped, accepted, polled, Reachable-IsSoundServer, Reachable-handle_channel,
}
use my_network_library.Network.Channel.{set_ready_events}
use my_network_library.Network.Connection.{connected_over}
use my_network_library.Network.Socket.{Socket, connection, accept_connection}
use my_network_library.Network.Socket.Accepted.{AcceptedBy, agains, accept_connection-AcceptedBy}
use my_network_library.Timer.Node.{TimeVal, get_now}
use my_network_library.Network.EchoServer.{timer_message, timer_message-kept}
use my_network_library.Network.Server.Entries.{Same}
use my_network_library.Network.Connection.{read_text, set_send_buffer, write, write_loop}
use my_network_library.Network.Buffer.{to_str, set_buf, clear}
use my_network_library.Network.Kernel.{Events, no_events}
use my_network_library.Network.Kernel.Table.{Table, control, replace, registered, table_kernel}
use my_network_library.Network.Server.{
  set_reactor, update_entry, Entry, Server, find_entry, new_connection, message, check_active,
}
use my_network_library.Network.Server.Entries.{Good, empty, entry}
use my_network_library.Network.Server.Sound.{
  at, IsSoundServer, Ran, new_connection-Ran, message-Ran,
}
use my_network_library.Network.Server.Check.{Checked, check_active-Checked}
use my_network_library.Network.Connection.{
  Connection, Callback, bytes, eof, read, set_context, WriteResult, error, connected, is_connected,
  closed, accepted, interrupted, send,
}
use my_network_library.Network.Connection.Written.{Sent, settles, send-Sent}

abbrev a_connection : Connection
a_connection = record {
  fd = 5;
  nonblocking = true;
  channel = Channel.construct 5;
  state = connected;
  read_buffer = [];
  send_buffer = [];
  context = 0;
  shut = false;
  sent = [];
}

abbrev some_results : List WriteResult
some_results = accepted 2 ∷ interrupted ∷ accepted 3 ∷ []

a_connection_open : is_connected a_connection ≡ true
unfolding is_connected
a_connection_open = refl

enough : settles some_results (length (c_string (codes "hello"))) ≡ true
unfolding settles c_string before
enough = refl

send-Sent_example :
    (c' : Connection) × (send some_results a_connection (codes "hello") ≡ some c')
    × Sent some_results (c_string (codes "hello")) a_connection c'
send-Sent_example =
    send-Sent some_results a_connection (codes "hello") a_connection_open refl enough

abbrev a_server : Server table_kernel
a_server = record { connections = []; reactors = λ i. []; size = 4 }

a_server-IsSound : IsSoundServer table_kernel a_server
a_server-IsSound = empty

new_connection-Ran_example :
    (c : Connection) × (is_connected c ≡ true)
    × Ran table_kernel a_server 5
        (new_connection table_kernel a_server 5)
        (record { key = 5; reactor = 1; connection = c })
        (λ q. is_registered (registered q 5) ≡ true)
unfolding registered find_entry
new_connection-Ran_example =
    new_connection-Ran table_kernel a_server 5 1 a_server-IsSound refl refl refl

abbrev reading : Events
reading = record no_events { input = true; urgent = true; edge = true }

abbrev registered_connection : ℕ → ℕ → Connection
registered_connection fd last = record a_connection {
  fd = fd;
  channel = record { fd = fd; listen_events = reading; ready_events = no_events; in_epoll = true };
  context = last;
}

abbrev an_entry : ℕ → ℕ → Entry
an_entry fd last = record { key = fd; reactor = fd - 4; connection = registered_connection fd last }

abbrev reactor_tables : ℕ → Table
reactor_tables i = (i + 4, reading) ∷ []

-- a server with two connections, one of them unused for long
abbrev served : Server table_kernel
served = record {
  connections = an_entry 5 0 ∷ an_entry 6 200000 ∷ [];
  reactors = reactor_tables;
  size = 4;
}

an_entry-Good : (i last : ℕ) → (i < 4) → Good table_kernel reactor_tables 4 (an_entry (4 + i) last)
unfolding registered
an_entry-Good i last h = record {
  sound = record { agrees = ground arith; number = refl; channel_number = refl; live = refl };
  chosen = ap some (omega (arith, h));
}

served-IsSound : IsSoundServer table_kernel served
unfolding find_entry
served-IsSound =
    entry (an_entry-Good 1 0 (omega arith)) refl
      (entry (an_entry-Good 2 200000 (omega arith)) refl empty)

touch-Keeps :
    (c d : Connection)
    → some (set_context c 7) ≡ some d
    → (d.fd ≡ c.fd) × (d.channel ≡ c.channel) × (is_connected c ≡ false → is_connected d ≡ false)
unfolding set_context is_connected
touch-Keeps c d h =
    let e = some-injective _ _ h in
    (
      ap (λ (x : Connection). x.fd) (sym e),
      ap (λ (x : Connection). x.channel) (sym e),
      λ t. ap is_connected (sym e) ∙ t,
    )

abbrev touch : Callback
touch = record { run = λ c. some (set_context c 7); keeps = touch-Keeps }

message-Ran_example :
    (d : Connection) × Ran table_kernel served 5
      (message table_kernel touch (bytes (codes "hi") ∷ eof ∷ []) served 5)
      (record (an_entry 5 0) { connection = d })
      (λ q.
        (true ≡ true → registered q 5 ≡ none)
        × (true ≡ false → registered q 5 ≡ registered (served.reactors 1) 5))
message-Ran_example =
    message-Ran table_kernel touch (bytes (codes "hi") ∷ eof ∷ []) served 5 (an_entry 5 0) true
      served-IsSound (unfold find_entry in refl) (unfold is_connected in refl) refl refl
      (λ d. (set_context d 7, refl))

hang_up : (k : ℕ) → settles (error ∷ []) 16 ≡ true
unfolding settles
hang_up k = refl

check_active-Checked_example :
    Checked table_kernel 200000 served (check_active table_kernel 200000 (λ k. error ∷ []) served)
check_active-Checked_example =
    check_active-Checked table_kernel 200000 (λ k. error ∷ []) served hang_up served-IsSound

-- a pool of two threads, one of them blocked in its wait, with a task
abbrev a_pool : ThreadPool
a_pool = record { workers = asleep ∷ ready ∷ started 9 ∷ []; tasks = []; stop = false; ran = [] }

a_pool-Reached : Reached 2 (9 ∷ []) a_pool
unfolding ThreadPool.construct add turn turn_at worker_turn
a_pool-Reached = added 9 (turned 0 made) refl

two_one_zero : (j : ℕ) → j < 3 → member j (2 ∷ 1 ∷ 0 ∷ []) ≡ true
two_one_zero j h = ground (arith, h)

stopped_pool : length (shut_down (0 ∷ []) a_pool).workers ≡ 3
unfolding shut_down request_stop notify_all turns turn turn_at worker_turn
stopped_pool = refl

turns-Joined_example : Joined (9 ∷ []) (turns (2 ∷ 1 ∷ 0 ∷ []) (shut_down (0 ∷ []) a_pool))
turns-Joined_example =
    turns-Joined 2 (9 ∷ []) (0 ∷ []) (2 ∷ 1 ∷ 0 ∷ []) a_pool a_pool-Reached
      (λ j h. two_one_zero j (omega (arith, h, stopped_pool)))

touch-IsTotal : IsTotal touch
touch-IsTotal c = (set_context c 7, refl)

-- the server without connections, after it has accepted a descriptor
abbrev accepting : Server table_kernel
accepting = record {
  connections =
      record {
        key = 5;
        reactor = 1;
        connection = connected_over true (registered_connection 5 0).channel;
      }
      ∷ [];
  reactors = set_reactor table_kernel (λ i. []) 1 ((5, reading) ∷ []);
  size = 4;
}

accepting_run : new_connection table_kernel a_server 5 ≡ some accepting
unfolding new_connection find_entry Connection.construct Channel.enable_read Channel.use_et
    Channel.construct Channel.update_channel Channel.set_in_epoll registered control replace
accepting_run = refl

accepting-Reachable : Reachable table_kernel touch touch-IsTotal accepting
unfolding find_entry registered
accepting-Reachable =
    stepped (started {s = a_server} refl) (accepted 5 1 refl refl refl accepting_run)

Reachable-IsSoundServer_example : IsSoundServer table_kernel accepting
Reachable-IsSoundServer_example =
    Reachable-IsSoundServer table_kernel touch touch-IsTotal accepting accepting-Reachable

-- with an event
abbrev notified_server : Server table_kernel
notified_server = set_ready table_kernel 5 (record no_events { input = true }) accepting

notified_server-NoOutput : NoOutput (at table_kernel notified_server 5)
unfolding set_ready find_entry update_entry set_ready_events
notified_server-NoOutput = refl

Reachable-handle_channel_example :
    EndsSound table_kernel
      (handle_channel table_kernel touch (bytes (codes "hi") ∷ eof ∷ []) 5 notified_server)
Reachable-handle_channel_example =
    Reachable-handle_channel table_kernel touch touch-IsTotal notified_server 5
      (bytes (codes "hi") ∷ eof ∷ [])
      (stepped accepting-Reachable (polled 5 (record no_events { input = true }))) refl
      notified_server-NoOutput

abbrev listening : Socket
listening = record { fd = 3; flags = record { nonblock = true; others = 2 } }

accept_connection-AcceptedBy_example : AcceptedBy table_kernel a_server 5 1 (
    accept_connection
      (new_connection table_kernel)
      (agains 2 ++ connection 5 ∷ [])
      listening
      a_server)
unfolding find_entry registered
accept_connection-AcceptedBy_example =
    accept_connection-AcceptedBy table_kernel a_server listening 2 5 1 [] (inl refl)
      a_server-IsSound refl refl refl

abbrev two_seconds : TimeVal
two_seconds = record { sec = 2; usec = 0 }

abbrev later_time : TimeVal
later_time = record { sec = 100; usec = 500000 }

abbrev spoken : Connection
spoken = record (registered_connection 6 0) { read_buffer = codes "hi" }

abbrev answered : Entry
answered = record (an_entry 6 2000) {
  connection = record (registered_connection 6 2000) {
    read_buffer = codes "hi";
    sent = codes "hi";
  };
}

spoken_run : timer_message (accepted 2 ∷ []) two_seconds spoken ≡ some answered.connection
unfolding timer_message is_connected read_text to_str c_string before send set_send_buffer set_buf
    write write_loop clear set_context get_now
spoken_run = refl

abbrev quiet_server : Server table_kernel
quiet_server = record served { connections = an_entry 5 0 ∷ answered ∷ [] }

quiet_server-IsSound : IsSoundServer table_kernel quiet_server
unfolding find_entry is_connected registered
quiet_server-IsSound = entry (an_entry-Good 1 0 (omega arith)) refl (
    entry
      (record {
        sound = record { agrees = refl; number = refl; channel_number = refl; live = refl };
        chosen = refl;
      })
      refl empty)

timer_message-kept_example :
    (r : Checked table_kernel
      (get_now later_time)
      quiet_server
      (check_active table_kernel (get_now later_time) (λ k. error ∷ []) quiet_server))
    × (at table_kernel r.next 6 ≡ some answered)
    × Same table_kernel quiet_server.reactors r.next.reactors 6
unfolding find_entry is_connected get_now
timer_message-kept_example =
    timer_message-kept table_kernel (accepted 2 ∷ []) two_seconds later_time spoken quiet_server 6
      answered (λ k. error ∷ []) refl spoken_run refl quiet_server-IsSound hang_up (omega arith)
      (omega arith)
