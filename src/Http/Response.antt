-- ===== src/Http/Response.antt =====
-- `HttpResponse` of src/http/HttpResponse.h and .cpp. The headers are an association list, which stands
-- for the order in which the `unordered_map` is passed through.
pub mod Lines
pub mod Read
use my_network_library.Prelude.{ℕ, Bool, none, some, [], ◌∷◌, ◌++◌, if◌then◌else◌, length}
use my_network_library.Prelude.Text.{Text, codes}
use my_network_library.Http.Request.{Headers, set_header}
use my_network_library.Network.Buffer.{append}
use my_network_library.Logger.LogStream.{pos, convert}

pub record HttpResponse : Type 0 where
  pub headers : Headers
  pub status_code : ℕ
  pub status_message : Text
  pub close_connection : Bool
  pub body : Text

unfoldable pub construct : Bool → HttpResponse
construct close = record {
  headers = [];
  status_code = 0;
  status_message = [];
  close_connection = close;
  body = [];
}

unfoldable pub set_status_code : HttpResponse → ℕ → HttpResponse
set_status_code r code = record r { status_code = code }

unfoldable pub set_status_message : HttpResponse → Text → HttpResponse
set_status_message r message = record r { status_message = message }

unfoldable pub set_close_connection : HttpResponse → Bool → HttpResponse
set_close_connection r on = record r { close_connection = on }

unfoldable pub add_header : HttpResponse → Text → Text → HttpResponse
add_header r key value = record r { headers = set_header key value r.headers }

unfoldable pub set_content_type : HttpResponse → Text → HttpResponse
unfolding add_header
set_content_type r t = add_header r (codes "Content-Type") t

unfoldable pub set_body : HttpResponse → Text → HttpResponse
set_body r body = record r { body = body }

abbrev pub crlf : Text
crlf = 13 ∷ 10 ∷ []

-- the loop over the headers
unfoldable pub append_headers : Headers → Text → Text
unfolding append
append_headers [] output = output
append_headers ((field, value) ∷ hs) output =
    append_headers hs (append (append (append (append output field) (codes ": ")) value) crlf)

-- `%d` and `%zd`
abbrev pub printed : ℕ → Text
printed n = elim (convert (pos n)) [ none ↦ [] | some t ↦ t ]

unfoldable pub append_to_buffer : HttpResponse → Text → Text
unfolding append append_headers
append_to_buffer r output =
    let status =
      append
        (append (append output (codes "HTTP/1.1 " ++ printed r.status_code ++ codes " "))
          r.status_message)
        crlf in
    let connection =
      if r.close_connection
      then append status (codes "Connection: closer" ++ crlf)
      else append (append status (codes "Content-Length: " ++ printed (length r.body) ++ crlf))
          (codes "Connection: Keep-Alive" ++ crlf) in
    append (append (append_headers r.headers connection) crlf) r.body
