-- ===== src/Http/Server/Callback.antt =====
-- `onMessage` of src/http/HttpServer.cpp is a message callback that the server of src/network/ can take.
use my_network_library.Prelude.{
  refl, Bool, true, false, not, Option, none, some, List, [], if◌then◌else◌,
}
use my_network_library.Network.Channel.{is_writing}
use my_network_library.Network.Buffer.{to_str}
use my_network_library.Network.Connection.{
  Connection, Callback, WriteResult, is_connected, read_text, shutdown,
}
use my_network_library.Network.Connection.Keeps.{
  Keeps, Keeps-refl, Keeps-trans, KeepsRun, KeepsRun-some, KeepsRun-if, send-KeepsRun,
}
use my_network_library.Http.Request.{HttpRequest}
use my_network_library.Http.ParseWorker.{ParseWorker, set_str}
use my_network_library.Http.Context.{HttpContext, construct, is_got_all, parse_request}
use my_network_library.Http.Response.{append_to_buffer}
use my_network_library.Http.Server.{
  HttpCallback, response_to, shutdown_if, on_request, bad_request, answer, with_worker, after_parse,
  on_message,
}

-- the connection after a message
abbrev pub connection_of : Option (ParseWorker × Connection) → Option Connection
connection_of none = none
connection_of (some (w, c)) = some c

shutdown-Keeps : (c : Connection) → Keeps c (shutdown c)
unfolding shutdown is_connected
shutdown-Keeps c = either (not (is_writing c.channel))
  where
    either : (b : Bool) → Keeps c (if b then record c { shut = true } else c)
    either true = (refl, refl, λ h. h)
    either false = Keeps-refl c

shutdown_if-KeepsRun :
    (b : Bool) (c : Connection) (o : Option Connection)
    → KeepsRun c o
    → KeepsRun c (shutdown_if b o)
shutdown_if-KeepsRun b c none k = λ d h. cc h
shutdown_if-KeepsRun true c (some d) k =
    KeepsRun-some c (shutdown d) (Keeps-trans c d (shutdown d) (k d refl) (shutdown-Keeps d))
shutdown_if-KeepsRun false c (some d) k = k

on_request-KeepsRun :
    (callback : HttpCallback) (rs : List WriteResult) (c : Connection) (req : HttpRequest)
    → KeepsRun c (on_request callback rs c req)
unfolding on_request
on_request-KeepsRun callback rs c req =
    let response = response_to callback req in
    shutdown_if-KeepsRun response.close_connection c _
      (send-KeepsRun rs c (to_str (append_to_buffer response [])))

then-KeepsRun :
    (c : Connection) (o : Option Connection) (f : Connection → Option Connection)
    → KeepsRun c o
    → ((d : Connection) → KeepsRun d (f d))
    → KeepsRun c (elim o [ none ↦ none | some d ↦ f d ])
then-KeepsRun c none f k l = λ d h. cc h
then-KeepsRun c (some d) f k l = λ e h. Keeps-trans c d e (k d refl) (l d e h)

answer-KeepsRun :
    (callback : HttpCallback) (rs qs : List WriteResult) (ok : Bool) (ctx : HttpContext)
    (c : Connection)
    → KeepsRun c (answer callback rs qs ok ctx c)
unfolding answer
answer-KeepsRun callback rs qs ok ctx c =
    then-KeepsRun c _ _
      (KeepsRun-if ok c _ _ (KeepsRun-some c c (Keeps-refl c))
        (shutdown_if-KeepsRun true c _ (send-KeepsRun rs c bad_request)))
      (λ d.
        KeepsRun-if (is_got_all ctx) d _ _ (on_request-KeepsRun callback qs d ctx.request)
          (KeepsRun-some d d (Keeps-refl d)))

with_worker-KeepsRun :
    (w : ParseWorker) (c : Connection) (o : Option Connection)
    → KeepsRun c o
    → KeepsRun c (connection_of (with_worker w o))
with_worker-KeepsRun w c none k = k
with_worker-KeepsRun w c (some d) k = k

after_parse-KeepsRun :
    (callback : HttpCallback) (rs qs : List WriteResult) (c : Connection)
    (o : Option (Bool × HttpContext × ParseWorker))
    → KeepsRun c (connection_of (after_parse callback rs qs c o))
after_parse-KeepsRun callback rs qs c none = λ d h. cc h
after_parse-KeepsRun callback rs qs c (some (ok, ctx, w)) =
    with_worker-KeepsRun w c _ (answer-KeepsRun callback rs qs ok ctx c)

pub on_message-KeepsRun :
    (callback : HttpCallback) (rs qs : List WriteResult) (w : ParseWorker) (c : Connection)
    → KeepsRun c (connection_of (on_message callback rs qs w c))
unfolding on_message
on_message-KeepsRun callback rs qs w c =
    either _ (not (is_connected c))
      (after_parse-KeepsRun callback rs qs c (parse_request construct (set_str w (read_text c))))
  where
    either :
        (o : Option (ParseWorker × Connection)) (b : Bool)
        → KeepsRun c (connection_of o)
        → KeepsRun c (connection_of (if b then some (w, c) else o))
    either o true k = KeepsRun-some c c (Keeps-refl c)
    either o false k = k

-- `onMessage` of a parse worker in some state, with the results of `write`
abbrev pub http_callback :
    HttpCallback → List WriteResult → List WriteResult → ParseWorker → Callback
http_callback callback rs qs w = record {
  run = λ c. connection_of (on_message callback rs qs w c);
  keeps = on_message-KeepsRun callback rs qs w;
}
