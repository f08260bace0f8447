-- ===== src/Http/Context.antt =====
-- The request parser of src/http/HttpContext.h and .cpp.
pub mod Total
pub mod RoundTrip
pub mod Headers
pub mod RequestLine
use my_network_library.Prelude.{
  ℕ, zero, suc, ◌+◌, ◌-◌, ◌≤◌, ◌≡◌, Bool, true, false, ◌&&◌, Option, none, some, List, [], ◌∷◌,
  ◌==◌, ltb, if◌then◌else◌, length, take, drop,
}
use my_network_library.Prelude.Text.{Text, codes, has_byte, before, from, text_eq}
use my_network_library.Http.Request.{
  Version, http10, http11, HttpRequest, empty_request, set_version, set_method, set_path, set_query,
  add_header, swap,
}
use my_network_library.Http.ParseWorker.{ParseWorker, unread, find_crlf, retrieve_until}

pub data ParseState : Type 0 where
  expect_request_line expect_headers expect_body got_all : ParseState

pub record HttpContext : Type 0 where
  pub state : ParseState
  pub request : HttpRequest

unfoldable pub construct : HttpContext
construct = record { state = expect_request_line; request = empty_request }

unfoldable pub is_got_all : HttpContext → Bool
is_got_all c = elim c.state [ got_all ↦ true | _ ↦ false ]

unfoldable pub reset : HttpContext → HttpContext
unfolding swap
reset c = record { state = expect_request_line; request = (swap c.request empty_request).0 }

-- the tail of a text behind the first `c`
abbrev pub behind : ℕ → Text → Text
behind c t = drop 1 (from c t)

-- the path, and the query from its '?' on
unfoldable pub set_target : HttpRequest → Text → HttpRequest
unfolding set_path set_query
set_target r target =
    if has_byte b'?' target
    then set_query (set_path r (before b'?' target)) (from b'?' target)
    else set_path r target

-- `*(end-1)`, of a version of eight bytes
unfoldable pub last_digit : Text → ℕ
last_digit v = elim (drop 7 v) [ [] ↦ 0 | d ∷ _ ↦ d ]

-- the version, `HTTP/1.0` or `HTTP/1.1`
unfoldable pub parse_version : HttpRequest → Text → Bool × HttpRequest
unfolding set_version last_digit
parse_version r v =
    if (length v == 8) && text_eq (take 7 v) (codes "HTTP/1.")
    then if last_digit v == b'1'
      then (true, set_version r http11)
      else if last_digit v == b'0'
      then (true, set_version r http10)
      else (false, r)
    else (false, r)

-- what follows the method
unfoldable pub parse_target : HttpRequest → Text → Bool × HttpRequest
unfolding set_target parse_version
parse_target r rest =
    if has_byte b' ' rest
    then parse_version (set_target r (before b' ' rest)) (behind b' ' rest)
    else (false, r)

-- `processRequestLine`
unfoldable pub process_request_line : HttpRequest → Text → Bool × HttpRequest
unfolding set_method parse_target
process_request_line r line =
    if has_byte b' ' line
    then (let (known, r') = set_method r (before b' ' line) in
        if known then parse_target r' (behind b' ' line) else (false, r'))
    else (false, r)

-- one round of the loop of `parseRequest`: `hasMore`, `ok`, the context and the worker
abbrev pub Round : Type 0
Round = Bool × Bool × HttpContext × ParseWorker

-- what follows `processRequestLine`, of a line of `k` bytes
unfoldable pub line_result : Bool → HttpContext → ParseWorker → ℕ → Bool × HttpRequest → Round
line_result ok c w k (true, r) =
    (true, true, record { state = expect_headers; request = r }, retrieve_until w (k + 2))
line_result ok c w k (false, r) = (false, false, record c { request = r }, w)

-- the branch for the request line, with the result of `findCRLF`
unfoldable pub line_round : Bool → HttpContext → ParseWorker → Option ℕ → Round
unfolding line_result
line_round ok c w none = (false, ok, c, w)
line_round ok c w (some k) =
    line_result ok c w k (process_request_line c.request (take k (unread w)))

-- The branch whose test is the assignment `state_ = ExpectHeaders`, so it is taken in every other
-- state. A line with no colon ends the headers.
unfoldable pub header_round : Bool → HttpContext → ParseWorker → Option ℕ → Round
header_round ok c w none = (false, ok, record c { state = expect_headers }, w)
header_round ok c w (some k) =
    let line = take k (unread w) in
    if has_byte b':' line
    then (
      true,
      ok,
      record {
        state = expect_headers;
        request = add_header c.request (before b':' line) (behind b':' line);
      },
      retrieve_until w (k + 2),
    )
    else (false, ok, record c { state = got_all }, retrieve_until w (k + 2))

abbrev pub is_request_line : ParseState → Bool
is_request_line expect_request_line = true
is_request_line _ = false

unfoldable pub round : Bool → HttpContext → ParseWorker → Round
unfolding line_round header_round
round ok c w =
    if is_request_line c.state
    then line_round ok c w (find_crlf w)
    else header_round ok c w (find_crlf w)

-- the loop; `none` when the fuel has run out
unfoldable pub parse_loop :
    ℕ → Bool → HttpContext → ParseWorker → Option (Bool × HttpContext × ParseWorker)
unfolding round
parse_loop zero ok c w = none
parse_loop (suc n) ok c w =
    let (more, ok', c', w') = round ok c w in
    let again = parse_loop n ok' c' w' in if more then again else some (ok', c', w')

-- `parseRequest`, with one round more than there are bytes to read
unfoldable pub parse_request : HttpContext → ParseWorker → Option (Bool × HttpContext × ParseWorker)
unfolding parse_loop
parse_request c w = parse_loop (length (unread w) + 1) false c w
