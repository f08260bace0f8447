-- ===== src/Http/Server/Printed.antt =====
-- What src/http/HttpServer.cpp does with a whole request and with a broken one.
use my_network_library.Prelude.{
  ◌≡◌, refl, ap, ◌∙◌, Bool, true, not, Option, some, List, if◌then◌else◌,
}
use my_network_library.Prelude.Text.{Text}
use my_network_library.Http.Request.{HttpRequest}
use my_network_library.Http.ParseWorker.{ParseWorker, set_str, unread}
use my_network_library.Http.Context.{got_all, construct, is_got_all, parse_request}
use my_network_library.Http.Context.RequestLine.{
  IsPrintable, print_request, parse_request-print_request,
}
use my_network_library.Http.Server.{
  HttpCallback, on_request, on_message, answer, with_worker, after_parse,
}
use my_network_library.Network.Connection.{Connection, WriteResult, is_connected, read_text}

pub past_guard :
    (b : Bool) (x y : Option (ParseWorker × Connection)) → b ≡ true → (if not b then x else y) ≡ y
past_guard b x y h = rw h

answered :
    (callback : HttpCallback) (rs qs : List WriteResult) (r : HttpRequest) (c : Connection)
    → answer callback rs qs true (record { state = got_all; request = r }) c
      ≡ on_request callback qs c r
unfolding answer is_got_all
answered callback rs qs r c = refl

-- When the bytes that a connected connection has read are a printable request, printed, with any
-- body, then `onMessage` hands that request to `onRequest` and sends no other answer.
pub on_message-print_request :
    (callback : HttpCallback) (rs qs : List WriteResult) (w : ParseWorker) (c : Connection)
    (r : HttpRequest) (body : Text)
    → is_connected c ≡ true
    → IsPrintable r
    → read_text c ≡ print_request r body
    → (w' : ParseWorker) × (unread w' ≡ body)
      × (on_message callback rs qs w c ≡ with_worker w' (on_request callback qs c r))
unfolding on_message
on_message-print_request callback rs qs w c r body h i e =
    let (w', left, ran) = parse_request-print_request w r body i in
    (
      w',
      left,
      past_guard (is_connected c) (some (w, c))
            (after_parse callback rs qs c (parse_request construct (set_str w (read_text c)))) h
          ∙ ap (λ t. after_parse callback rs qs c (parse_request construct (set_str w t))) e
          ∙ ap (after_parse callback rs qs c) ran
          ∙ ap (with_worker w') (answered callback rs qs r c),
    )
