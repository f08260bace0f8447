-- ===== src/Http/Server.antt =====
-- `HttpServer` of src/http/HttpServer.h and .cpp.
pub mod Printed
pub mod Refused
pub mod Callback
use my_network_library.Prelude.{
  ℕ, ◌≡◌, Bool, true, false, not, ◌&&◌, ◌||◌, Option, none, some, List, [], ◌∷◌, ◌++◌,
  if◌then◌else◌,
}
use my_network_library.Prelude.Text.{Text, codes, text_eq}
use my_network_library.Http.Request.{HttpRequest, Version, http10, get_header}
use my_network_library.Http.ParseWorker.{ParseWorker, set_str}
use my_network_library.Http.Context.{HttpContext, construct, is_got_all, parse_request}
use my_network_library.Http.Response.{
  HttpResponse, set_status_code, set_status_message, set_close_connection, append_to_buffer,
}
use my_network_library.Http.Response
use my_network_library.Network.Buffer.{to_str}
use my_network_library.Network.Connection.{
  Connection, WriteResult, is_connected, read_text, send, shutdown,
}

-- the user's callback fills in a response
abbrev pub HttpCallback : Type 0
HttpCallback = HttpRequest → HttpResponse → HttpResponse

unfoldable pub default_http_callback : HttpCallback
unfolding set_status_code set_status_message set_close_connection
default_http_callback req resp =
    set_close_connection (set_status_message (set_status_code resp 404) (codes "Not Found")) true

-- the response of `onRequest`; `close` is always true
unfoldable pub response_to : HttpCallback → HttpRequest → HttpResponse
unfolding Response.construct
response_to callback req = callback req (Response.construct true)

abbrev pub shutdown_if : Bool → Option Connection → Option Connection
shutdown_if b none = none
shutdown_if b (some c) = some (if b then shutdown c else c)

-- `onRequest`; `none` when the results of `write` end before its loop does
unfoldable pub on_request :
    HttpCallback → List WriteResult → Connection → HttpRequest → Option Connection
unfolding response_to append_to_buffer to_str send shutdown
on_request callback rs c req =
    let response = response_to callback req in
    shutdown_if response.close_connection (send rs c (to_str (append_to_buffer response [])))

abbrev pub bad_request : Text
bad_request = codes "HTTP/1.1 400 Bad Request" ++ 13 ∷ 10 ∷ 13 ∷ 10 ∷ []

-- the end of `onMessage`, from a parsed context on
unfoldable pub answer :
    HttpCallback
    → List WriteResult
    → List WriteResult
    → Bool
    → HttpContext
    → Connection
    → Option Connection
unfolding send shutdown on_request is_got_all
answer callback rs qs ok ctx c =
    let refused = if ok then some c else shutdown_if true (send rs c bad_request) in
    elim refused [
      | none ↦ none
      | some d ↦ if is_got_all ctx then on_request callback qs d ctx.request else some d
    ]

abbrev pub with_worker : ParseWorker → Option Connection → Option (ParseWorker × Connection)
with_worker w none = none
with_worker w (some c) = some (w, c)

-- what follows `parseRequest`
abbrev pub after_parse :
    HttpCallback
    → List WriteResult
    → List WriteResult
    → Connection
    → Option (Bool × HttpContext × ParseWorker)
    → Option (ParseWorker × Connection)
after_parse callback rs qs c none = none
after_parse callback rs qs c (some (ok, ctx, w)) = with_worker w (answer callback rs qs ok ctx c)

-- `onMessage`, with the results of `write` for the two answers; also the worker that is left
unfoldable pub on_message :
    HttpCallback
    → List WriteResult
    → List WriteResult
    → ParseWorker
    → Connection
    → Option (ParseWorker × Connection)
unfolding is_connected read_text set_str construct parse_request answer
on_message callback rs qs w c =
    if not (is_connected c)
    then some (w, c)
    else after_parse callback rs qs c (parse_request construct (set_str w (read_text c)))
