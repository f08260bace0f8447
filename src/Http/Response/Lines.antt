-- ===== src/Http/Response/Lines.antt =====
-- The lines of a response that src/http/HttpResponse.cpp prints.
use mathlib.Core.List.{append_assoc}
use my_network_library.Prelude.{
  ℕ, zero, suc, ◌<◌, ◌≡◌, refl, ◌∙◌, Bool, true, false, Option, none, some, List, [], ◌∷◌, ◌++◌,
  ◌&&◌, ◌==◌, if◌then◌else◌, length, drop, arith,
}
use my_network_library.Prelude.Text.{
  Text, codes, before, from, has_byte, before-append, from-append,
}
use my_network_library.Network.Buffer.{append}
use my_network_library.Http.Request.{Headers}
use my_network_library.Http.Response.{HttpResponse, crlf, printed, append_headers, append_to_buffer}

abbrev pub cons_line : Text → Option (List Text × Text) → Option (List Text × Text)
cons_line l none = none
cons_line l (some (ls, t)) = some (l ∷ ls, t)

abbrev pub is_blank : Text → Bool
is_blank [] = true
is_blank (x ∷ xs) = false

-- what follows a carriage return and a line feed
abbrev pub skip_crlf : Text → Option Text
skip_crlf [] = none
skip_crlf (c ∷ []) = none
skip_crlf (c ∷ d ∷ t) = if (c == 13) && (d == 10) then some t else none

-- the lines up to the first blank one, and what follows it; `none` when a line has another end
unfoldable pub read_lines : ℕ → Text → Option (List Text × Text)
unfolding before from
read_lines zero t = none
read_lines (suc n) t = elim (skip_crlf (from 13 t)) [
  | none ↦ none
  | some u ↦
      if is_blank (before 13 t) then some ([], u) else cons_line (before 13 t) (read_lines n u)
]

-- without the space that it may start with
abbrev pub skip_space : Text → Text
skip_space [] = []
skip_space (x ∷ t) = if x == b' ' then t else x ∷ t

-- the name and the value of a header line
unfoldable pub read_header : Text → Text × Text
unfolding before from
read_header l = (before b':' l, skip_space (drop 1 (from b':' l)))

abbrev pub read_headers : List Text → Headers
read_headers [] = []
read_headers (l ∷ ls) = read_header l ∷ read_headers ls

-- lines, a blank line, and the body
abbrev pub print_lines : List Text → Text → Text
print_lines [] body = 13 ∷ 10 ∷ body
print_lines (l ∷ ls) body = l ++ 13 ∷ 10 ∷ print_lines ls body

abbrev pub AllLines : List Text → Type 0
AllLines [] = Unit
AllLines (l ∷ ls) = (is_blank l ≡ false) × (has_byte 13 l ≡ false) × AllLines ls

pub read_lines-print_lines :
    (n : ℕ) (ls : List Text) (body : Text)
    → AllLines ls
    → length ls < n
    → read_lines n (print_lines ls body) ≡ some (ls, body)
unfolding read_lines before from
read_lines-print_lines zero ls body a h = absurd (omega (arith, h))
read_lines-print_lines (suc n) [] body a h = refl
read_lines-print_lines (suc n) (l ∷ ls) body (full, plain, a) h =
    rw
      (
        read_lines,
        from-append 13 l (10 ∷ print_lines ls body) plain,
        before-append 13 l (10 ∷ print_lines ls body) plain,
        full,
        read_lines-print_lines n ls body a (omega (arith, h)),
      )
      refl

abbrev pub header_lines : Headers → List Text
header_lines [] = []
header_lines ((field, value) ∷ hs) = (field ++ (codes ": " ++ value)) ∷ header_lines hs

abbrev pub status_line : HttpResponse → Text
status_line r = codes "HTTP/1.1 " ++ (printed r.status_code ++ (codes " " ++ r.status_message))

-- the lines that say whether the connection is kept
abbrev pub connection_lines : Bool → ℕ → List Text
connection_lines true n = codes "Connection: closer" ∷ []
connection_lines false n =
    (codes "Content-Length: " ++ printed n) ∷ codes "Connection: Keep-Alive" ∷ []

append_headers-print_lines :
    (hs : Headers) (out body : Text)
    → (append_headers hs out ++ crlf) ++ body ≡ out ++ print_lines (header_lines hs) body
unfolding append_headers append
append_headers-print_lines [] out body = append_assoc out crlf body
append_headers-print_lines ((field, value) ∷ hs) out body =
    append_headers-print_lines hs ((((out ++ field) ++ codes ": ") ++ value) ++ crlf) body
    ∙ simp append_assoc

pub append_to_buffer-print_lines :
    (r : HttpResponse)
    → append_to_buffer r []
      ≡ print_lines
          (status_line r ∷ connection_lines r.close_connection (length r.body)
            ++ header_lines r.headers)
          r.body
unfolding append_to_buffer append
append_to_buffer-print_lines r = by_close r.close_connection
  where
    by_close :
        (b : Bool)
        → ((append_headers r.headers (
                if b
                then ((([] ++ (codes "HTTP/1.1 " ++ printed r.status_code ++ codes " "))
                      ++ r.status_message)
                    ++ crlf)
                  ++ (codes "Connection: closer" ++ crlf)
                else (((([] ++ (codes "HTTP/1.1 " ++ printed r.status_code ++ codes " "))
                        ++ r.status_message)
                      ++ crlf)
                    ++ (codes "Content-Length: " ++ printed (length r.body) ++ crlf))
                  ++ (codes "Connection: Keep-Alive" ++ crlf))
              ++ crlf)
            ++ r.body)
          ≡ print_lines
              (status_line r ∷ connection_lines b (length r.body) ++ header_lines r.headers)
              r.body
    by_close true = append_headers-print_lines r.headers _ r.body ∙ simp append_assoc
    by_close false = append_headers-print_lines r.headers _ r.body ∙ simp append_assoc
