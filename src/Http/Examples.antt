-- ===== src/Http/Examples.antt =====
-- Runs of the HTTP server of src/http/ on concrete requests.
use my_network_library.Prelude.{
  ◌++◌, ◌≤◌, ◌≡◌, refl, Bool, true, false, some, [], ◌∷◌, length, drop, arith,
}
use my_network_library.Prelude.Text.{codes, has_byte, before}
use my_network_library.Http.Request
use my_network_library.Http.Request.{
  HttpRequest, get, http11, empty_request, is_space, skip_blank, trim_end,
}
use my_network_library.Http.Response
use my_network_library.Http.Response.Read.{
  read_response, status_text, keep_headers, AllPlain, read_response-append_to_buffer,
}
use my_network_library.Http.ParseWorker.{ParseWorker, construct, set_str, unread, retrieve_until}
use my_network_library.Http.ParseWorker.Bounds.{IsReady, set_str-IsReady, retrieve_until-unread}
use my_network_library.Http.Context.{HttpContext, got_all, is_got_all, parse_request}
use my_network_library.Http.Context
use my_network_library.Http.Context.Total.{IsComplete, parse_request-some, parse_request-IsComplete}
use my_network_library.Http.Context.RoundTrip.{header_line, print_headers}
use my_network_library.Http.Context.RequestLine.{
  IsPrintable, request_line, print_request, parse_request-print_request,
}
use my_network_library.Http.Server.{on_message, on_request, default_http_callback, with_worker}
use my_network_library.Http.Server.Refused.{on_message-refused}
use my_network_library.Http.Context.RoundTrip.{crlf}
use my_network_library.Http.Context.{process_request_line}
use my_network_library.Http.Server.{shutdown_if, bad_request}
use my_network_library.Network.Connection.{send}
use my_network_library.Http.ParseWorker.{cr}
use my_network_library.Http.Request.{empty_request}
use my_network_library.Prelude.Text.{text_eq}
use my_network_library.Http.Server.Printed.{on_message-print_request}
use my_network_library.Network.Buffer.{to_str, c_string}
use my_network_library.Network.Channel
use my_network_library.Network.Connection.{Connection, connected, is_connected, read_text, accepted}

abbrev a_request : HttpRequest
a_request = record {
  method = get;
  version = http11;
  path = codes "/hello";
  query = codes "?x=1";
  headers = (codes "Host", codes "a b") ∷ [];
}

a_request-IsPrintable : IsPrintable a_request
unfolding has_byte skip_blank trim_end is_space
a_request-IsPrintable = record {
  method = refl;
  version = refl;
  target = (refl, refl);
  path = refl;
  query = refl;
  headers = ((refl, refl, refl, refl), tt);
  distinct = (tt, tt);
}

abbrev a_worker : ParseWorker
a_worker = set_str construct (print_request a_request (codes "rest"))

parse_request-print_request_example :
    (w' : ParseWorker) × (unread w' ≡ codes "rest")
    × (parse_request Context.construct a_worker
        ≡ some (true, record { state = got_all; request = a_request }, w'))
parse_request-print_request_example =
    parse_request-print_request construct a_request (codes "rest") a_request-IsPrintable

parse_request-some_example :
    (out : Bool × HttpContext × ParseWorker) × (parse_request Context.construct a_worker ≡ some out)
parse_request-some_example =
    parse_request-some Context.construct a_worker
      (set_str-IsReady construct (print_request a_request (codes "rest")))

abbrev a_parse :
    (w' : ParseWorker) × (unread w' ≡ codes "rest")
    × (parse_request Context.construct a_worker
        ≡ some (true, record { state = got_all; request = a_request }, w'))
a_parse = parse_request-print_request construct a_request (codes "rest") a_request-IsPrintable

done : is_got_all (record { state = got_all; request = a_request }) ≡ true
unfolding is_got_all
done = refl

parse_request-IsComplete_example : (true ≡ true) × IsComplete a_request
parse_request-IsComplete_example =
    parse_request-IsComplete a_worker a_parse.0 true
      (record { state = got_all; request = a_request }) a_parse.2 done

short : 3 ≤ length (unread (set_str construct (codes "abcde")))
unfolding unread set_str construct
short = omega arith

retrieve_until-unread_example :
    IsReady (retrieve_until (set_str construct (codes "abcde")) 3)
    × (unread (retrieve_until (set_str construct (codes "abcde")) 3)
        ≡ drop 3 (unread (set_str construct (codes "abcde"))))
retrieve_until-unread_example =
    retrieve_until-unread (set_str construct (codes "abcde")) 3
      (set_str-IsReady construct (codes "abcde")) short

abbrev a_connection : Connection
a_connection = record {
  fd = 5;
  nonblocking = true;
  channel = Channel.construct 5;
  state = connected;
  read_buffer = print_request a_request [];
  send_buffer = [];
  context = 0;
  shut = false;
  sent = [];
}

a_connection_read : read_text a_connection ≡ print_request a_request []
unfolding read_text to_str c_string print_request request_line print_headers header_line before
    Request.method_string
a_connection_read = refl

a_connection_open : is_connected a_connection ≡ true
unfolding is_connected
a_connection_open = refl

on_message-print_request_example :
    (w' : ParseWorker) × (unread w' ≡ [])
    × (on_message default_http_callback [] (accepted 100 ∷ []) construct a_connection
        ≡ with_worker w'
            (on_request default_http_callback (accepted 100 ∷ []) a_connection a_request))
on_message-print_request_example =
    on_message-print_request default_http_callback [] (accepted 100 ∷ []) construct a_connection
      a_request [] a_connection_open a_request-IsPrintable a_connection_read

abbrev bad_connection : Connection
bad_connection = record a_connection { read_buffer = codes "GO / HTTP/1.1" ++ 13 ∷ 10 ∷ [] }

bad_connection_read : read_text bad_connection ≡ codes "GO / HTTP/1.1" ++ crlf []
unfolding read_text to_str c_string before
bad_connection_read = refl

bad_connection_open : is_connected bad_connection ≡ true
unfolding is_connected
bad_connection_open = refl

bad_line_clean : has_byte cr (codes "GO / HTTP/1.1") ≡ false
unfolding has_byte
bad_line_clean = refl

bad_line : (process_request_line empty_request (codes "GO / HTTP/1.1")).0 ≡ false
unfolding process_request_line has_byte before Request.set_method Request.method_of text_eq
bad_line = refl

on_message-refused_example :
    on_message default_http_callback (accepted 100 ∷ []) [] construct bad_connection
    ≡ with_worker
        (set_str construct (codes "GO / HTTP/1.1" ++ crlf []))
        (shutdown_if true (send (accepted 100 ∷ []) bad_connection bad_request))
on_message-refused_example =
    on_message-refused default_http_callback (accepted 100 ∷ []) [] construct bad_connection
      (codes "GO / HTTP/1.1") [] bad_connection_open bad_connection_read bad_line_clean bad_line

abbrev a_response : Response.HttpResponse
a_response = record {
  headers = (codes "Content-Type", codes "text/plain") ∷ [];
  status_code = 200;
  status_message = codes "OK";
  close_connection = false;
  body = codes "hello";
}

ok_plain : has_byte 13 (codes "OK") ≡ false
unfolding has_byte
ok_plain = refl

a_response-AllPlain : AllPlain a_response.headers
unfolding has_byte
a_response-AllPlain = (refl, refl, refl, tt)

read_response-append_to_buffer_example :
    read_response 5 (Response.append_to_buffer a_response [])
    ≡ some (status_text a_response, keep_headers false 5 ++ a_response.headers, codes "hello")
read_response-append_to_buffer_example =
    read_response-append_to_buffer a_response ok_plain a_response-AllPlain
