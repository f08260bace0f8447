-- ===== src/Http/Context/RequestLine.antt =====
-- A printed request line, and a whole printed request, are parsed back by src/http/HttpContext.cpp.
use mathlib.Core.List.{append-nil}
use my_network_library.Prelude.{
  ℕ, suc, ◌+◌, ◌≤◌, ◌<◌, ◌≡◌, refl, ap, ◌∙◌, true, false, some, [], ◌∷◌, ◌++◌, length, drop, arith,
  length-append,
}
use my_network_library.Prelude.Text.{
  Text, has_byte, before, text_eq, codes, before-append, from-append, has_byte-append,
}
use my_network_library.Http.Request.{
  Method, get, post, head, put, delete, invalid, Version, unknown, http10, http11, HttpRequest,
  Headers, empty_request, is_valid, method_of, method_string, set_method, set_version, set_path,
  set_query,
}
use my_network_library.Http.ParseWorker.{ParseWorker, set_str, unread, retrieve_until, cr}
use my_network_library.Http.ParseWorker.Bounds.{set_str-IsReady, unread-set_str}
use my_network_library.Http.Context.{
  HttpContext, expect_headers, got_all, construct, process_request_line, parse_target,
  parse_version, set_target, last_digit, behind, round, parse_loop, parse_request,
}
use my_network_library.Http.Context.Total.{round-line, is_known}
use my_network_library.Http.Context.Headers.{AreDistinct, set_headers-AreDistinct}
use my_network_library.Http.Context.RoundTrip.{
  AtLine, crlf, retrieve-AtLine, line_round-good, parse_loop-go, parse_loop-print_headers,
  AreHeaders, print_headers, header_line, with_headers,
}

-- what the parts of a request line must not hold
abbrev pub IsTarget : Text → Type 0
IsTarget t = (has_byte b' ' t ≡ false) × (has_byte cr t ≡ false)

-- a path, and a query that is empty or starts with its '?'
abbrev pub IsQuery : Text → Type 0
IsQuery [] = Unit
IsQuery (x ∷ xs) = x ≡ b'?'

abbrev pub version_string : Version → Text
version_string http10 = codes "HTTP/1.0"
version_string http11 = codes "HTTP/1.1"
version_string unknown = []

-- the request line: method, target and version
unfoldable pub request_line : HttpRequest → Text
request_line r =
    method_string r.method ++ b' ' ∷ ((r.path ++ r.query) ++ b' ' ∷ version_string r.version)

method-round_trip :
    (m : Method)
    → is_valid m ≡ true
    → (method_of (method_string m) ≡ m)
      × (has_byte b' ' (method_string m) ≡ false)
      × (has_byte cr (method_string m) ≡ false)
unfolding method_of method_string text_eq has_byte
method-round_trip invalid h = cc
method-round_trip get h = (refl, refl, refl)
method-round_trip post h = (refl, refl, refl)
method-round_trip head h = (refl, refl, refl)
method-round_trip put h = (refl, refl, refl)
method-round_trip delete h = (refl, refl, refl)

version-round_trip :
    (r : HttpRequest) (v : Version)
    → is_known v ≡ true
    → (parse_version r (version_string v) ≡ (true, record r { version = v }))
      × (has_byte cr (version_string v) ≡ false)
unfolding parse_version set_version last_digit text_eq has_byte
version-round_trip r unknown h = cc
version-round_trip r http10 h = (refl, refl)
version-round_trip r http11 h = (refl, refl)

has_byte-path : (c : ℕ) (p q : Text) → has_byte c (p ++ q) ≡ false → has_byte c p ≡ false
has_byte-path c p q h = ground (arith, has_byte-append c p q)

-- the path and the query come apart at the '?'
set_target-query :
    (r : HttpRequest) (p q : Text)
    → has_byte b'?' p ≡ false
    → IsQuery q
    → r.query ≡ []
    → set_target r (p ++ q) ≡ record r { path = p; query = q }
unfolding set_target set_path set_query
set_target-query r p [] h i e = rw (append-nil p, h, e) refl
set_target-query r p (x ∷ q) h i e =
    rw (i, has_byte-append b'?' p (b'?' ∷ q), h, before-append b'?' p q h, from-append b'?' p q h)
      (unfold has_byte in refl)

-- `rest` behind a word and a space
word-cut :
    (u rest : Text)
    → has_byte b' ' u ≡ false
    → (has_byte b' ' (u ++ b' ' ∷ rest) ≡ true)
      × (before b' ' (u ++ b' ' ∷ rest) ≡ u)
      × (behind b' ' (u ++ b' ' ∷ rest) ≡ rest)
unfolding has_byte
word-cut u rest h = (
  has_byte-append b' ' u (b' ' ∷ rest) ∙ ground arith,
  before-append b' ' u rest h,
  ap (drop 1) (from-append b' ' u rest h),
)

-- a request that a client can print
pub record IsPrintable (r : HttpRequest) : Type 0 where
  pub method : is_valid r.method ≡ true
  pub version : is_known r.version ≡ true
  pub target : IsTarget (r.path ++ r.query)
  pub path : has_byte b'?' r.path ≡ false
  pub query : IsQuery r.query
  pub headers : AreHeaders r.headers
  pub distinct : AreDistinct r.headers

parse_target-printed :
    (q r : HttpRequest)
    → IsPrintable r
    → q.query ≡ []
    → parse_target q ((r.path ++ r.query) ++ b' ' ∷ version_string r.version)
      ≡ (true, record q { path = r.path; query = r.query; version = r.version })
unfolding parse_target
parse_target-printed q r i e =
    let (blank, path, version) =
      word-cut (r.path ++ r.query) (version_string r.version) i.target.0 in
    rw (blank, path, version, set_target-query q r.path r.query i.path i.query e)
      ((version-round_trip (record q { path = r.path; query = r.query }) r.version i.version).0)

-- the request with no headers yet
abbrev pub without_headers : HttpRequest → HttpRequest
without_headers r = record r { headers = [] }

process_request_line-request_line :
    (r : HttpRequest)
    → IsPrintable r
    → process_request_line empty_request (request_line r) ≡ (true, without_headers r)
unfolding process_request_line request_line set_method
process_request_line-request_line r i =
    let (m, clean, _) = method-round_trip r.method i.method in
    let (blank, word, rest) =
      word-cut (method_string r.method) ((r.path ++ r.query) ++ b' ' ∷ version_string r.version)
        clean in
    rw (blank, word, rest, m, i.method)
      (parse_target-printed (record empty_request { method = r.method }) r i refl)

has_byte-space : (rest : Text) → has_byte cr rest ≡ false → has_byte cr (b' ' ∷ rest) ≡ false
unfolding has_byte
has_byte-space rest h = h

clean-request_line : (r : HttpRequest) → IsPrintable r → has_byte cr (request_line r) ≡ false
unfolding request_line
clean-request_line r i =
    let (_, _, m) = method-round_trip r.method i.method in
    let (_, v) = version-round_trip r r.version i.version in
    has_byte-append cr (method_string r.method)
      (b' ' ∷ ((r.path ++ r.query) ++ b' ' ∷ version_string r.version))
    ∙ rw m (
        has_byte-space ((r.path ++ r.query) ++ b' ' ∷ version_string r.version) (
          has_byte-append cr (r.path ++ r.query) (b' ' ∷ version_string r.version)
          ∙ rw i.target.1 (has_byte-space (version_string r.version) v)))

-- the printed request, with the bytes behind it
unfoldable pub print_request : HttpRequest → Text → Text
print_request r body = request_line r ++ crlf (print_headers r.headers body)

whole : (r : HttpRequest) → IsPrintable r → with_headers (without_headers r) r.headers ≡ r
whole r i = ap (λ hs. record r { headers = hs }) (set_headers-AreDistinct r.headers [] i.distinct)

print_request-unread :
    (w : ParseWorker) (r : HttpRequest) (body : Text)
    → unread (set_str w (print_request r body))
      ≡ request_line r ++ crlf (print_headers r.headers body)
unfolding print_request
print_request-unread w r body = unread-set_str w (print_request r body)

length-print_headers : (hs : Headers) (body : Text) → length hs ≤ length (print_headers hs body)
unfolding print_headers
length-print_headers [] body = omega arith
length-print_headers (h ∷ hs) body = omega (
  arith,
  length-print_headers hs body,
  length-append (header_line h) (crlf (print_headers hs body)),
)

enough_rounds :
    (w : ParseWorker) (r : HttpRequest) (body : Text)
    → length r.headers < length (unread (set_str w (print_request r body)))
enough_rounds w r body = omega (
  arith,
  ap length (print_request-unread w r body),
  length-print_headers r.headers body,
  length-append (request_line r) (crlf (print_headers r.headers body)),
)

-- A worker that is given a printable request, printed, and a body is parsed by a new context to the
-- state `GotAll`: `parseRequest` returns `true` and the request is the printed one; what is left to
-- read is the body.
pub parse_request-print_request :
    (w : ParseWorker) (r : HttpRequest) (body : Text)
    → IsPrintable r
    → (w' : ParseWorker) × (unread w' ≡ body)
      × (parse_request construct (set_str w (print_request r body))
          ≡ some (true, record { state = got_all; request = r }, w'))
unfolding parse_request construct
parse_request-print_request w r body i =
    let w₀ = set_str w (print_request r body) in
    let c₁ : HttpContext = record { state = expect_headers; request = without_headers r } in
    let a : AtLine w₀ (request_line r) (print_headers r.headers body) = record {
      ready = set_str-IsReady w (print_request r body);
      text = print_request-unread w r body;
      clean = clean-request_line r i;
    } in
    let (ready, left) = retrieve-AtLine a in
    let w₁ = retrieve_until w₀ (length (request_line r) + 2) in
    let (w', left', e) =
      parse_loop-print_headers (length (unread w₀)) c₁ w₁ r.headers body refl ready i.headers left
        (enough_rounds w r body) in
    let first : round false construct w₀ ≡ (true, true, c₁, w₁) =
      round-line false construct w₀ refl
      ∙ line_round-good a false construct (without_headers r)
          (process_request_line-request_line r i) in
    (
      w',
      left',
      ap (λ (n : ℕ). parse_loop n false construct w₀) (rounds (length (unread w₀)))
          ∙ parse_loop-go (length (unread w₀)) false true construct c₁ w₀ w₁ first
          ∙ e
          ∙ ap (λ (q : HttpRequest). some (true, record { state = got_all; request = q }, w'))
              (whole r i),
    )
  where
    rounds : (n : ℕ) → n + 1 ≡ suc n
    rounds n = omega arith
