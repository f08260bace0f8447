-- ===== src/Http/ParseWorker.antt =====
-- `ParseWorker` of src/http/ParseWorker.h: the bytes of a request with a read position. A pointer into
-- the buffer is its distance from `peek()`.
pub mod Bounds
use my_network_library.Prelude.{
  ℕ, zero, suc, ◌+◌, ◌-◌, ◌≤◌, ◌≡◌, Bool, true, false, ◌&&◌, Option, none, some, List, [], ◌∷◌,
  ◌==◌, ltb, if◌then◌else◌, length, take, drop,
}
use my_network_library.Prelude.Text.{Text}

pub record ParseWorker : Type 0 where
  pub context : Text
  pub reader_index : ℕ
  pub size : ℕ

unfoldable pub construct : ParseWorker
construct = record { context = []; reader_index = 0; size = 0 }

unfoldable pub set_str : ParseWorker → Text → ParseWorker
set_str w str = record { context = str; reader_index = 0; size = length str }

unfoldable pub get_str : ParseWorker → Text
get_str w = w.context

abbrev pub cr : ℕ
cr = 13

abbrev pub lf : ℕ
lf = 10

abbrev pub starts_lf : Text → Bool
starts_lf [] = false
starts_lf (y ∷ ys) = y == lf

abbrev pub next : Option ℕ → Option ℕ
next none = none
next (some k) = some (suc k)

-- `std::search(begin, end, CRLF, CRLF+2)`: the distance to the first "\r\n"
unfoldable pub search_crlf : Text → Option ℕ
search_crlf [] = none
search_crlf (x ∷ xs) = if (x == cr) && starts_lf xs then some 0 else next (search_crlf xs)

-- the bytes `[peek(), end())`
unfoldable pub unread : ParseWorker → Text
unread w = drop w.reader_index (take w.size w.context)

unfoldable pub find_crlf : ParseWorker → Option ℕ
find_crlf w = search_crlf (unread w)

-- `retrieveUntil(peek() + len)`
unfoldable pub retrieve_until : ParseWorker → ℕ → ParseWorker
retrieve_until w len =
    if ltb (w.reader_index + len) w.size
    then record w { reader_index = w.reader_index + len }
    else record w { size = 0; reader_index = 0 }
