-- ===== src/Http/Site.antt =====
-- `onRequest` of example/http_server.cpp; the bytes of the array `favicon` are an argument.
use my_network_library.Prelude.{true, [], ◌∷◌, ◌++◌, if◌then◌else◌}
use my_network_library.Prelude.Text.{Text, codes, text_eq}
use my_network_library.Http.Request.{HttpRequest}
use my_network_library.Http.Response.{
  HttpResponse, set_status_code, set_status_message, set_close_connection, set_content_type,
  add_header, set_body,
}

-- status 200, with a content type
abbrev pub ok_with : Text → HttpResponse → HttpResponse
ok_with t resp = set_content_type (set_status_message (set_status_code resp 200) (codes "OK")) t

unfoldable pub on_request : Text → HttpRequest → HttpResponse → HttpResponse
unfolding set_status_code set_status_message set_close_connection set_content_type add_header
    set_body
on_request favicon req resp =
    if text_eq req.path (codes "/")
    then set_body
        (add_header (ok_with (codes "text/html") resp) (codes "Server") (codes "MyServer"))
        (codes
          "<html><head><title>This is title</title></head><body><h1>Hello</h1>Now is now</body></html>")
    else if text_eq req.path (codes "/favicon.ico")
    then set_body (ok_with (codes "image/png") resp) favicon
    else if text_eq req.path (codes "/hello")
    then set_body
        (add_header (ok_with (codes "text/plain") resp) (codes "Server") (codes "MyServer"))
        (codes "hello, world!" ++ 10 ∷ [])
    else set_close_connection (set_status_message (set_status_code resp 404) (codes "Not Found"))
        true
