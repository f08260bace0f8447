-- ===== src/Storage/KvServer.antt =====
-- The message callback of example/kv_server.cpp: the key-value service over a connection.
use my_network_library.Prelude.{
  ◌≡◌, refl, ap, ◌∙◌, Bool, true, false, not, Option, some, List, [], ◌∷◌, if◌then◌else◌, length,
}
use my_network_library.Prelude.Monad.{◌>>=◌}
use my_network_library.Prelude.Text.{Text}
use my_network_library.Network.Buffer.{c_string, to_str, append_bytes, clear}
use my_network_library.Network.Connection.{
  Connection, is_connected, ReadResult, bytes, again, WriteResult, read, read_nonblocking,
  read_text, send,
}
use my_network_library.Network.Connection.Written.{settles, Sent, send-Sent}
use my_network_library.Storage.Worker.{Env, Worker, ParseState, parse_command, deal_with_cmd}
use my_network_library.Storage.Worker.Refine.{Cells, view, IsSound}
use my_network_library.Storage.Worker.Session.{deal_with_cmd-serve}
use my_network_library.Storage.Service.{Service, serve}

-- with the results of `write`; `none` is a fault, or results that end first
unfoldable pub kv_message :
    Env → List WriteResult → Connection → Worker → Option (Connection × Worker)
kv_message e ws c w =
    let answered = (do
      (res, w') ← deal_with_cmd e w (read_text c)
      c' ← send ws c res
      some (c', w')) in
    if is_connected c then answered else some (c, w)

-- the read callback of the connection, when the reading does not close it
unfoldable pub serve_message :
    Env → List ReadResult → List WriteResult → Connection → Worker → Option (Connection × Worker)
serve_message e rs ws c w = do (c₁, closes) ← read rs c; kv_message e ws c₁ w

-- what a connection and the database are after a message
pub record Replied (ws : List WriteResult) (c : Connection) (reply : Text) (s : Service)
    (run : Option (Connection × Worker)) : Type 0 where
  pub connection : Connection
  pub database : Worker
  pub cells : Cells
  pub ran : run ≡ some (connection, database)
  pub sound : IsSound database cells
  pub state : view database cells ≡ s
  pub sent : Sent ws (c_string reply) c connection

both_true :
    {A : Type 0} (a b : Bool) (x y z : A)
    → a ≡ true
    → b ≡ true
    → (if not a then x else if b then y else z) ≡ y
both_true a b x y z h k = rw (h, k) refl

-- the bytes that come at once are what is read
read-bytes :
    (c : Connection) (t : Text)
    → is_connected c ≡ true
    → c.nonblocking ≡ true
    → c_string t ≡ t
    → read (bytes t ∷ again ∷ []) c ≡ some (record c { read_buffer = t }, false)
unfolding read read_nonblocking append_bytes clear
read-bytes c t live nb plain =
    both_true (is_connected c) c.nonblocking _ _ _ live nb
    ∙ ap (λ x. some (record c { read_buffer = x }, false)) plain

answered :
    (e : Env) (ws : List WriteResult) (c c' : Connection) (w w' : Worker) (cmd reply : Text)
    → is_connected c ≡ true
    → c_string cmd ≡ cmd
    → deal_with_cmd e w cmd ≡ some (reply, w')
    → send ws (record c { read_buffer = cmd }) reply ≡ some c'
    → kv_message e ws (record c { read_buffer = cmd }) w ≡ some (c', w')
unfolding kv_message read_text to_str is_connected
answered e ws c c' w w' cmd reply live plain dealt sent = rw (live, plain, dealt) (rw sent refl)

-- When the bytes of a command that has a word and no zero byte arrive at once on a connected
-- nonblocking connection, and the results of `write` suffice, the callback ends without a fault: the
-- database is in the state that the abstract service reaches by the command, and its reply, up to
-- a zero byte, is handed to the socket, all of it unless a `write` gives up.
pub serve_message-Replied :
    (e : Env) (ws : List WriteResult) (c : Connection) (w : Worker) (cells : Cells) (cmd : Text)
    (st : ParseState) (words : List Text)
    → is_connected c ≡ true
    → c.nonblocking ≡ true
    → IsSound w cells
    → c_string cmd ≡ cmd
    → parse_command cmd ≡ some (st, words)
    → settles ws (length (c_string (serve st words (view w cells)).0)) ≡ true
    → Replied ws c
        (serve st words (view w cells)).0
        (serve st words (view w cells)).1
        (serve_message e (bytes cmd ∷ again ∷ []) ws c w)
unfolding serve_message is_connected
serve_message-Replied e ws c w cells cmd st words live nb sound plain p enough =
    let c₁ = record c { read_buffer = cmd } in
    let d = deal_with_cmd-serve e w cells cmd st words sound p in
    let (c', ran, s) = send-Sent ws c₁ (serve st words (view w cells)).0 live nb enough in
    record {
      connection = c';
      database = d.next;
      cells = d.cells;
      ran =
          rw (read-bytes c cmd live nb plain) (
            answered e ws c c' w d.next cmd (serve st words (view w cells)).0 live plain d.ran ran);
      sound = d.sound;
      state = d.state;
      sent = record { out = s.out; rest = s.rest; split = s.split; text = s.text; ended = s.ended };
    }
