-- ===== src/Http/Response/Read.antt =====
-- What a client reads of a response that src/http/HttpResponse.cpp prints.
use my_network_library.Prelude.{
  ℕ, suc, ◌+◌, ◌≤◌, ◌≡◌, refl, ap, ◌∙◌, Bool, true, false, Option, none, some, List, [], ◌∷◌, ◌++◌,
  length, arith,
}
use my_network_library.Prelude.Text.{
  Text, codes, before, from, has_byte, before-append, from-append, has_byte-append,
}
use my_network_library.Logger.LogStream.Decimal.{convert-pos, decimal, convert-decimal}
use my_network_library.Logger.LogStream.{pos}
use my_network_library.Http.Request.{Headers}
use my_network_library.Http.Response.{HttpResponse, printed, append_to_buffer}
use my_network_library.Http.Response.Lines.{
  read_lines, read_header, read_headers, is_blank, AllLines, read_lines-print_lines, header_lines,
  status_line, connection_lines, append_to_buffer-print_lines,
}

-- what a client takes a response for: its first line, the headers, and the body
abbrev pub response_of : Option (List Text × Text) → Option (Text × Headers × Text)
response_of none = none
response_of (some ([], body)) = none
response_of (some (l ∷ ls, body)) = some (l, read_headers ls, body)

unfoldable pub read_response : ℕ → Text → Option (Text × Headers × Text)
unfolding read_lines read_header
read_response n t = response_of (read_lines n t)

-- the headers that say whether the connection is kept
abbrev pub connection_headers : Bool → ℕ → Headers
connection_headers true n = (codes "Connection", codes "closer") ∷ []
connection_headers false n =
    (codes "Content-Length", printed n) ∷ (codes "Connection", codes "Keep-Alive") ∷ []

-- names without a colon, and names and values without a carriage return
abbrev pub AllPlain : Headers → Type 0
AllPlain [] = Unit
AllPlain ((field, value) ∷ hs) =
    (has_byte b':' field ≡ false)
    × (has_byte 13 field ≡ false)
    × (has_byte 13 value ≡ false)
    × AllPlain hs

read_header-colon :
    (field value : Text)
    → has_byte b':' field ≡ false
    → read_header (field ++ (codes ": " ++ value)) ≡ (field, value)
unfolding read_header
read_header-colon field value h =
    rw (before-append b':' field (32 ∷ value) h, from-append b':' field (32 ∷ value) h) refl

read_headers-header_lines : (hs : Headers) → AllPlain hs → read_headers (header_lines hs) ≡ hs
read_headers-header_lines [] p = refl
read_headers-header_lines ((field, value) ∷ hs) (colon, f, v, p) =
    rw (read_header-colon field value colon, read_headers-header_lines hs p) refl

read_headers-append :
    (ls ms : List Text) → read_headers (ls ++ ms) ≡ read_headers ls ++ read_headers ms
read_headers-append [] ms = refl
read_headers-append (l ∷ ls) ms = ap (λ hs. read_header l ∷ hs) (read_headers-append ls ms)

read_headers-connection_lines :
    (b : Bool) (n : ℕ) → read_headers (connection_lines b n) ≡ connection_headers b n
unfolding read_header before from
read_headers-connection_lines true n = refl
read_headers-connection_lines false n = refl

printed-plain : (n : ℕ) → has_byte 13 (printed n) ≡ false
printed-plain n =
    let (t, ran, plain) = convert-pos n 13 (omega arith) in
    ap (λ o. has_byte 13 (elim o [ none ↦ [] | some x ↦ x ])) ran ∙ plain

header_line-plain :
    (field value : Text)
    → has_byte 13 field ≡ false
    → has_byte 13 value ≡ false
    → (is_blank (field ++ (codes ": " ++ value)) ≡ false)
      × (has_byte 13 (field ++ (codes ": " ++ value)) ≡ false)
unfolding has_byte
header_line-plain field value f v =
    (full field, has_byte-append 13 field (codes ": " ++ value) ∙ rw (f, v) refl)
  where
    full : (t : Text) → is_blank (t ++ (codes ": " ++ value)) ≡ false
    full [] = refl
    full (x ∷ xs) = refl

header_lines-AllLines : (hs : Headers) → AllPlain hs → AllLines (header_lines hs)
header_lines-AllLines [] p = tt
header_lines-AllLines ((field, value) ∷ hs) (colon, f, v, p) =
    let (full, plain) = header_line-plain field value f v in
    (full, plain, header_lines-AllLines hs p)

lines-AllLines :
    (b : Bool) (n : ℕ) (hs : Headers)
    → AllPlain hs
    → AllLines (connection_lines b n ++ header_lines hs)
unfolding has_byte
lines-AllLines true n hs p = (refl, refl, header_lines-AllLines hs p)
lines-AllLines false n hs p = (refl, printed-plain n, (refl, refl, header_lines-AllLines hs p))

status_line-plain :
    (r : HttpResponse) → has_byte 13 r.status_message ≡ false → has_byte 13 (status_line r) ≡ false
unfolding has_byte
status_line-plain r h =
    has_byte-append 13 (printed r.status_code) (codes " " ++ r.status_message)
    ∙ rw (printed-plain r.status_code, h) refl

length-header_lines : (hs : Headers) → length (header_lines hs) ≡ length hs
length-header_lines [] = refl
length-header_lines (h ∷ hs) = ap suc (length-header_lines hs)

length-lines :
    (b : Bool) (n : ℕ) (hs : Headers)
    → length (connection_lines b n ++ header_lines hs) ≤ length hs + 2
length-lines true n hs = omega (arith, length-header_lines hs)
length-lines false n hs = omega (arith, length-header_lines hs)

read_response-printed :
    (r : HttpResponse)
    → has_byte 13 r.status_message ≡ false
    → AllPlain r.headers
    → read_response (length r.headers + 4) (append_to_buffer r [])
      ≡ some (
        status_line r,
        connection_headers r.close_connection (length r.body) ++ r.headers,
        r.body,
      )
unfolding read_response
read_response-printed r h p =
    let n = length r.body in
    let ls = connection_lines r.close_connection n ++ header_lines r.headers in
    ap (λ t. response_of (read_lines (length r.headers + 4) t)) (append_to_buffer-print_lines r)
    ∙ ap response_of (
        read_lines-print_lines (length r.headers + 4) (status_line r ∷ ls) r.body
          (refl, status_line-plain r h, lines-AllLines r.close_connection n r.headers p)
          (omega (arith, length-lines r.close_connection n r.headers)))
    ∙ ap (λ hs. some (status_line r, hs, r.body))
        (read_headers-append (connection_lines r.close_connection n) (header_lines r.headers)
          ∙ rw
              (
                read_headers-connection_lines r.close_connection n,
                read_headers-header_lines r.headers p,
              )
              refl)

printed-decimal : (n : ℕ) → printed n ≡ decimal (pos n)
printed-decimal n = ap (λ o. elim o [ none ↦ [] | some x ↦ x ]) (convert-decimal (pos n))

-- the status line, with the code in decimal
abbrev pub status_text : HttpResponse → Text
status_text r =
    codes "HTTP/1.1 " ++ (decimal (pos r.status_code) ++ (codes " " ++ r.status_message))

-- the headers that say whether the connection is kept, with the length in decimal
abbrev pub keep_headers : Bool → ℕ → Headers
keep_headers true n = (codes "Connection", codes "closer") ∷ []
keep_headers false n =
    (codes "Content-Length", decimal (pos n)) ∷ (codes "Connection", codes "Keep-Alive") ∷ []

connection_headers-decimal : (b : Bool) (n : ℕ) → connection_headers b n ≡ keep_headers b n
connection_headers-decimal true n = refl
connection_headers-decimal false n =
    ap (λ t. (codes "Content-Length", t) ∷ (codes "Connection", codes "Keep-Alive") ∷ [])
      (printed-decimal n)

-- A client that reads lines, each ended by a carriage return and a line feed, up to the first blank
-- one reads a printed response back: its status line,
-- the headers that say whether the connection is kept, with the decimal length of the body when it is, then
-- its headers, and its body, if the status message and the headers have no carriage return and the
-- names of the headers no colon.
pub read_response-append_to_buffer :
    (r : HttpResponse)
    → has_byte 13 r.status_message ≡ false
    → AllPlain r.headers
    → read_response (length r.headers + 4) (append_to_buffer r [])
      ≡ some (status_text r, keep_headers r.close_connection (length r.body) ++ r.headers, r.body)
read_response-append_to_buffer r h p =
    read_response-printed r h p
    ∙ ap
        (λ t. some (
          codes "HTTP/1.1 " ++ (t ++ (codes " " ++ r.status_message)),
          connection_headers r.close_connection (length r.body) ++ r.headers,
          r.body,
        ))
        (printed-decimal r.status_code)
    ∙ ap (λ hs. some (status_text r, hs ++ r.headers, r.body))
        (connection_headers-decimal r.close_connection (length r.body))
