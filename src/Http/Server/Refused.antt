-- ===== src/Http/Server/Refused.antt =====
-- What src/http/HttpServer.cpp does with a request line that it refuses.
use my_network_library.Prelude.{
  ℕ, suc, ◌+◌, ◌≡◌, refl, ap, ◌∙◌, Bool, true, false, Option, none, some, List, ◌++◌, length, arith,
}
use my_network_library.Prelude.Text.{Text, has_byte}
use my_network_library.Http.Request.{HttpRequest, empty_request}
use my_network_library.Http.ParseWorker.{ParseWorker, set_str, unread, find_crlf, cr}
use my_network_library.Http.ParseWorker.Bounds.{set_str-IsReady, unread-set_str}
use my_network_library.Http.Context.{
  HttpContext, expect_request_line, construct, is_got_all, process_request_line, line_round,
  line_result, parse_loop, parse_request,
}
use my_network_library.Http.Context.Total.{round-line}
use my_network_library.Http.Context.RoundTrip.{
  AtLine, crlf, take-AtLine, find_crlf-AtLine, parse_loop-stop,
}
use my_network_library.Http.Server.{
  HttpCallback, on_message, answer, bad_request, shutdown_if, with_worker, after_parse,
}
use my_network_library.Http.Server.Printed.{past_guard}
use my_network_library.Network.Connection.{Connection, WriteResult, is_connected, read_text, send}

-- the context that refuses a request line
abbrev refusing : HttpRequest → HttpContext
refusing r = record { state = expect_request_line; request = r }

line_round-refused :
    (w : ParseWorker) (line rest : Text) (r : HttpRequest)
    → AtLine w line rest
    → process_request_line empty_request line ≡ (false, r)
    → line_round false construct w (find_crlf w) ≡ (false, false, refusing r, w)
unfolding line_round line_result construct
line_round-refused w line rest r a e =
    ap (line_round false construct w) (find_crlf-AtLine a)
    ∙ ap (λ t. line_result false construct w (length line) (process_request_line empty_request t))
        (take-AtLine a)
    ∙ ap (line_result false construct w (length line)) e

parse_request-refused :
    (w : ParseWorker) (line rest : Text) (r : HttpRequest)
    → AtLine w line rest
    → process_request_line empty_request line ≡ (false, r)
    → parse_request construct w ≡ some (false, refusing r, w)
unfolding parse_request
parse_request-refused w line rest r a e =
    ap (λ (n : ℕ). parse_loop n false construct w) (rounds (length (unread w)))
    ∙ parse_loop-stop (length (unread w)) false false construct (refusing r) w w (
        round-line false construct w (unfold construct in refl)
        ∙ line_round-refused w line rest r a e)
  where
    rounds : (n : ℕ) → n + 1 ≡ suc n
    rounds n = omega arith

answer-refused :
    (callback : HttpCallback) (rs qs : List WriteResult) (r : HttpRequest) (c : Connection)
    → answer callback rs qs false (refusing r) c ≡ shutdown_if true (send rs c bad_request)
unfolding answer is_got_all
answer-refused callback rs qs r c = same (shutdown_if true (send rs c bad_request))
  where
    same : (o : Option Connection) → (elim o [ none ↦ none | some d ↦ some d ]) ≡ o
    same none = refl
    same (some d) = refl

-- When the bytes that a connected connection has read start with a line that `processRequestLine`
-- refuses, then `onMessage` sends the 400 answer, shuts the connection down for writing, and calls
-- no callback.
pub on_message-refused :
    (callback : HttpCallback) (rs qs : List WriteResult) (w : ParseWorker) (c : Connection)
    (line rest : Text)
    → is_connected c ≡ true
    → read_text c ≡ line ++ crlf rest
    → has_byte cr line ≡ false
    → (process_request_line empty_request line).0 ≡ false
    → on_message callback rs qs w c
      ≡ with_worker (set_str w (line ++ crlf rest)) (shutdown_if true (send rs c bad_request))
unfolding on_message
on_message-refused callback rs qs w c line rest h e clean no_line =
    let t = line ++ crlf rest in
    let w₀ = set_str w t in
    let a : AtLine w₀ line rest = record {
      ready = set_str-IsReady w t;
      text = unread-set_str w t;
      clean = clean;
    } in
    let r = (process_request_line empty_request line).1 in
    past_guard (is_connected c) (some (w, c))
      (after_parse callback rs qs c (parse_request construct (set_str w (read_text c)))) h
    ∙ ap (λ u. after_parse callback rs qs c (parse_request construct (set_str w u))) e
    ∙ ap (after_parse callback rs qs c)
        (parse_request-refused w₀ line rest r a (ap (λ (b : Bool). (b, r)) no_line))
    ∙ ap (with_worker w₀) (answer-refused callback rs qs r c)
