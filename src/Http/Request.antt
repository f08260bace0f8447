-- ===== src/Http/Request.antt =====
-- `HttpRequest` of src/http/HttpRequest.h. A range of characters `(start, end)` is the text between.
use my_network_library.Prelude.{
  ℕ, Bool, true, false, ◌&&◌, ◌||◌, Option, none, some, List, [], ◌∷◌, ◌==◌, leb, if◌then◌else◌,
}
use my_network_library.Prelude.Text.{Text, codes, text_eq}

pub data Method : Type 0 where
  invalid get post head put delete : Method

pub data Version : Type 0 where
  unknown http10 http11 : Version

-- `std::unordered_map<std::string, std::string>`, in some order
abbrev pub Headers : Type 0
Headers = List (Text × Text)

-- `headers_[field] = value`
unfoldable pub set_header : Text → Text → Headers → Headers
set_header field value [] = (field, value) ∷ []
set_header field value ((k, v) ∷ hs) =
    if text_eq k field then (k, value) ∷ hs else (k, v) ∷ set_header field value hs

unfoldable pub find_header : Text → Headers → Option Text
find_header field [] = none
find_header field ((k, v) ∷ hs) = if text_eq k field then some v else find_header field hs

pub record HttpRequest : Type 0 where
  pub method : Method
  pub version : Version
  pub path : Text
  pub query : Text
  pub headers : Headers

abbrev pub empty_request : HttpRequest
empty_request = record { method = invalid; version = unknown; path = []; query = []; headers = [] }

unfoldable pub set_version : HttpRequest → Version → HttpRequest
set_version r v = record r { version = v }

unfoldable pub method_of : Text → Method
method_of m =
    if text_eq m (codes "GET")
    then get
    else if text_eq m (codes "POST")
    then post
    else if text_eq m (codes "HEAD")
    then head
    else if text_eq m (codes "PUT")
    then put
    else if text_eq m (codes "DELETE")
    then delete
    else invalid

abbrev pub is_valid : Method → Bool
is_valid invalid = false
is_valid _ = true

-- sets the method also when it is none of the five, and then returns `false`
unfoldable pub set_method : HttpRequest → Text → Bool × HttpRequest
unfolding method_of
set_method r m = (is_valid (method_of m), record r { method = method_of m })

unfoldable pub method_string : Method → Text
method_string get = codes "GET"
method_string post = codes "POST"
method_string head = codes "HEAD"
method_string put = codes "PUT"
method_string delete = codes "DELETE"
method_string invalid = codes "UNKNOWN"

unfoldable pub set_path : HttpRequest → Text → HttpRequest
set_path r t = record r { path = t }

unfoldable pub set_query : HttpRequest → Text → HttpRequest
set_query r t = record r { query = t }

-- `isspace` in the C locale
unfoldable pub is_space : ℕ → Bool
is_space c = (c == 32) || (leb 9 c && leb c 13)

-- `while(colon < end && isspace(*colon)) ++colon;`
unfoldable pub skip_blank : Text → Text
skip_blank [] = []
skip_blank (x ∷ xs) = if is_space x then skip_blank xs else x ∷ xs

-- what is left of a character before `rest`, which has been stripped of its trailing spaces
abbrev pub keep : ℕ → Text → Text
keep x [] = if is_space x then [] else x ∷ []
keep x (y ∷ ys) = x ∷ y ∷ ys

-- `while(!value.empty() && isspace(value[value.size()-1])) value.resize(value.size()-1);`
unfoldable pub trim_end : Text → Text
trim_end [] = []
trim_end (x ∷ xs) = keep x (trim_end xs)

-- `addHeader(start, colon, end)`, with the texts before and behind the colon
unfoldable pub add_header : HttpRequest → Text → Text → HttpRequest
add_header r field rest = record r {
  headers = set_header field (trim_end (skip_blank rest)) r.headers;
}

-- the empty string if there is no such header
unfoldable pub get_header : HttpRequest → Text → Text
get_header r field = elim (find_header field r.headers) [ none ↦ [] | some value ↦ value ]

unfoldable pub swap : HttpRequest → HttpRequest → HttpRequest × HttpRequest
swap r rhs = (rhs, r)
