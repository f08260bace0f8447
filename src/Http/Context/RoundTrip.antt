-- ===== src/Http/Context/RoundTrip.antt =====
-- A printed request is parsed back by src/http/HttpContext.cpp.
use my_network_library.Prelude.{
  ℕ, zero, suc, ◌+◌, ◌<◌, ◌≡◌, refl, ap, ◌∙◌, Bool, true, false, ◌||◌, some, [], ◌∷◌, ◌++◌, length,
  take, drop, arith, length-append,
}
use my_network_library.Prelude.Text.{
  Text, has_byte, before, before-append, from-append, has_byte-append,
}
use my_network_library.Http.Request.{
  HttpRequest, Headers, set_header, skip_blank, trim_end, add_header,
}
use my_network_library.Http.ParseWorker.{
  ParseWorker, unread, find_crlf, search_crlf, retrieve_until, cr, lf,
}
use my_network_library.Http.ParseWorker.Bounds.{IsReady, retrieve_until-unread}
use my_network_library.Http.Context.{
  HttpContext, expect_headers, got_all, is_request_line, process_request_line, line_result, behind,
  Round, line_round, header_round, round, parse_loop,
}
use my_network_library.Http.Context.Total.{round-header, parse_loop-more, parse_loop-done}

-- a text before a line break
abbrev pub crlf : Text → Text
crlf rest = cr ∷ lf ∷ rest

search_crlf-line :
    (line rest : Text)
    → has_byte cr line ≡ false
    → search_crlf (line ++ crlf rest) ≡ some (length line)
unfolding search_crlf has_byte
search_crlf-line [] rest h = refl
search_crlf-line (x ∷ line) rest h = ground (arith, search_crlf-line line rest)

take-line : (line rest : Text) → take (length line) (line ++ rest) ≡ line
take-line [] rest = refl
take-line (x ∷ line) rest = ap (λ t. x ∷ t) (take-line line rest)

drop-line : (line rest : Text) → drop (length line + 2) (line ++ crlf rest) ≡ rest
drop-line [] rest = refl
drop-line (x ∷ line) rest =
    ap (λ (n : ℕ). drop n (x ∷ line ++ crlf rest)) (shift (length line)) ∙ drop-line line rest
  where
    shift : (n : ℕ) → suc n + 2 ≡ suc (n + 2)
    shift n = omega arith

-- the worker stands before a line
pub record AtLine (w : ParseWorker) (line rest : Text) : Type 0 where
  pub ready : IsReady w
  pub text : unread w ≡ line ++ crlf rest
  pub clean : has_byte cr line ≡ false

module _ {w : ParseWorker} {line rest : Text} (a : AtLine w line rest) where
  pub find_crlf-AtLine : find_crlf w ≡ some (length line)
  unfolding find_crlf
  find_crlf-AtLine = ap search_crlf a.text ∙ search_crlf-line line rest a.clean

  pub take-AtLine : take (length line) (unread w) ≡ line
  take-AtLine = ap (take (length line)) a.text ∙ take-line line (crlf rest)

  pub retrieve-AtLine :
      IsReady (retrieve_until w (length line + 2))
      × (unread (retrieve_until w (length line + 2)) ≡ rest)
  retrieve-AtLine =
      let (ready, e) =
        retrieve_until-unread w (length line + 2) a.ready
          (omega (arith, ap length a.text, length-append line (crlf rest))) in
      (ready, e ∙ ap (drop (length line + 2)) a.text ∙ drop-line line rest)

  -- a line with a colon is a header
  header_round-colon :
      (ok : Bool) (c : HttpContext)
      → has_byte b':' line ≡ true
      → header_round ok c w (find_crlf w) ≡ (
        true,
        ok,
        record {
          state = expect_headers;
          request = add_header c.request (before b':' line) (behind b':' line);
        },
        retrieve_until w (length line + 2),
      )
  unfolding header_round
  header_round-colon ok c colon = rw (find_crlf-AtLine, take-AtLine, colon)

  -- a line with none ends the headers
  header_round-end :
      (ok : Bool) (c : HttpContext)
      → has_byte b':' line ≡ false
      → header_round ok c w (find_crlf w)
        ≡ (false, ok, record c { state = got_all }, retrieve_until w (length line + 2))
  unfolding header_round
  header_round-end ok c colon = rw (find_crlf-AtLine, take-AtLine, colon)

  pub line_round-good :
      (ok : Bool) (c : HttpContext) (r : HttpRequest)
      → process_request_line c.request line ≡ (true, r)
      → line_round ok c w (find_crlf w) ≡ (
        true,
        true,
        record { state = expect_headers; request = r },
        retrieve_until w (length line + 2),
      )
  unfolding line_round line_result
  line_round-good ok c r e =
      ap (line_round ok c w) find_crlf-AtLine
      ∙ ap (λ t. line_result ok c w (length line) (process_request_line c.request t)) take-AtLine
      ∙ ap (line_result ok c w (length line)) e

-- A header that a request can carry: no ':' in the field, no carriage return, and a value that the
-- trimming of blanks leaves alone.
abbrev pub IsHeader : Text × Text → Type 0
IsHeader h =
    (has_byte b':' h.0 ≡ false)
    × (has_byte cr h.0 ≡ false)
    × (has_byte cr h.1 ≡ false)
    × (trim_end (skip_blank (b' ' ∷ h.1)) ≡ h.1)

abbrev pub AreHeaders : Headers → Type 0
AreHeaders [] = Unit
AreHeaders (h ∷ hs) = IsHeader h × AreHeaders hs

unfoldable pub header_line : Text × Text → Text
header_line (field, value) = field ++ b':' ∷ b' ' ∷ value

-- the header lines, and the blank line at their end
unfoldable pub print_headers : Headers → Text → Text
print_headers [] body = crlf body
print_headers (h ∷ hs) body = header_line h ++ crlf (print_headers hs body)

-- `headers_[field] = value`, one after the other
unfoldable pub set_headers : Headers → Headers → Headers
set_headers [] m = m
set_headers ((field, value) ∷ hs) m = set_headers hs (set_header field value m)

header-AtLine :
    (w : ParseWorker) (h : Text × Text) (rest : Text)
    → IsReady w
    → IsHeader h
    → unread w ≡ header_line h ++ crlf rest
    → AtLine w (header_line h) rest
header-AtLine w h rest r i e = record {
  ready = r;
  text = e;
  clean =
      unfold header_line in
      has_byte-append cr h.0 (b':' ∷ b' ' ∷ h.1) ∙ rw i.1 (unfold has_byte in i.2);
}

before-header_line : (h : Text × Text) → IsHeader h → before b':' (header_line h) ≡ h.0
unfolding header_line
before-header_line h i = before-append b':' h.0 (b' ' ∷ h.1) i.0

behind-header_line : (h : Text × Text) → IsHeader h → behind b':' (header_line h) ≡ b' ' ∷ h.1
unfolding header_line
behind-header_line h i = ap (drop 1) (from-append b':' h.0 (b' ' ∷ h.1) i.0)

colon-header_line : (h : Text × Text) → has_byte b':' (header_line h) ≡ true
unfolding header_line has_byte
colon-header_line h = has_byte-append b':' h.0 (b':' ∷ b' ' ∷ h.1) ∙ found (has_byte b':' h.0)
  where
    found : (b : Bool) → (b || has_byte b':' (b':' ∷ b' ' ∷ h.1)) ≡ true
    found true = refl
    found false = refl

-- `headers_[field] = value` in a request
abbrev put_header : HttpRequest → Text × Text → HttpRequest
put_header r h = record r { headers = set_header h.0 h.1 r.headers }

add_header-header_line :
    (r : HttpRequest) (h : Text × Text)
    → IsHeader h
    → add_header r (before b':' (header_line h)) (behind b':' (header_line h)) ≡ put_header r h
unfolding add_header
add_header-header_line r h i =
    ap
      (λ f. record r {
        headers = set_header f (trim_end (skip_blank (behind b':' (header_line h)))) r.headers;
      })
      (before-header_line h i)
    ∙ ap (λ v. record r { headers = set_header h.0 (trim_end (skip_blank v)) r.headers })
        (behind-header_line h i)
    ∙ ap (λ v. record r { headers = set_header h.0 v r.headers }) i.3

pub parse_loop-go :
    (n : ℕ) (ok ok' : Bool) (c c' : HttpContext) (w w' : ParseWorker)
    → round ok c w ≡ (true, ok', c', w')
    → parse_loop (suc n) ok c w ≡ parse_loop n ok' c' w'
parse_loop-go n ok ok' c c' w w' e =
    parse_loop-more n ok c w (ap (λ (r : Round). r.0) e)
    ∙ ap (λ (r : Round). parse_loop n r.1 r.2 r.3) e

pub parse_loop-stop :
    (n : ℕ) (ok ok' : Bool) (c c' : HttpContext) (w w' : ParseWorker)
    → round ok c w ≡ (false, ok', c', w')
    → parse_loop (suc n) ok c w ≡ some (ok', c', w')
parse_loop-stop n ok ok' c c' w w' e =
    parse_loop-done n ok c w (ap (λ (r : Round). r.0) e)
    ∙ ap (λ (r : Round). some (r.1, r.2, r.3)) e

-- the request with these headers set
abbrev pub with_headers : HttpRequest → Headers → HttpRequest
with_headers r hs = record r { headers = set_headers hs r.headers }

with_headers-cons :
    (r : HttpRequest) (h : Text × Text) (hs : Headers)
    → with_headers (put_header r h) hs ≡ with_headers r (h ∷ hs)
unfolding set_headers
with_headers-cons r h hs = refl

abbrev pub Parsed : ℕ → HttpContext → ParseWorker → HttpRequest → Text → Type 0
Parsed n c w r body =
    (w' : ParseWorker) × (unread w' ≡ body)
    × (parse_loop n true c w ≡ some (true, record { state = got_all; request = r }, w'))

pub parse_loop-print_headers :
    (n : ℕ) (c : HttpContext) (w : ParseWorker) (hs : Headers) (body : Text)
    → is_request_line c.state ≡ false
    → IsReady w
    → AreHeaders hs
    → unread w ≡ print_headers hs body
    → length hs < n
    → Parsed n c w (with_headers c.request hs) body
parse_loop-print_headers zero c w hs body s r i e f = absurd (omega arith)
parse_loop-print_headers (suc n) c w [] body s r i e f =
    let a : AtLine w [] body = record {
      ready = r;
      text = unfold print_headers in e;
      clean = unfold has_byte in refl;
    } in
    (
      retrieve_until w 2,
      (retrieve-AtLine a).1,
      parse_loop-stop n true true c (record { state = got_all; request = c.request }) w
            (retrieve_until w 2)
            (round-header true c w s ∙ header_round-end a true c (unfold has_byte in refl))
          ∙ unfold set_headers in refl,
    )
parse_loop-print_headers (suc n) c w (h ∷ hs) body s r i e f =
    let a = header-AtLine w h (print_headers hs body) r i.0 (unfold print_headers in e) in
    let w₁ = retrieve_until w (length (header_line h) + 2) in
    let c₁ : HttpContext = record { state = expect_headers; request = put_header c.request h } in
    let (ready, left) = retrieve-AtLine a in
    let (w', left', e') =
      parse_loop-print_headers n c₁ w₁ hs body refl ready i.1 left (omega arith) in
    (
      w',
      left',
      parse_loop-go n true true c c₁ w w₁ (
            round-header true c w s
            ∙ header_round-colon a true c (colon-header_line h)
            ∙ ap
                (λ (q : HttpRequest).
                  (true, true, record { state = expect_headers; request = q }, w₁))
                (add_header-header_line c.request h i.0))
          ∙ e'
          ∙ ap (λ (q : HttpRequest). some (true, record { state = got_all; request = q }, w'))
              (with_headers-cons c.request h hs),
    )
