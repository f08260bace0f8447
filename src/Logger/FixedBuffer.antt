-- ===== src/Logger/FixedBuffer.antt =====
-- `FixedBuffer` of src/logger/LogStream.h: an array of `SIZE` bytes that is filled from the front. The
-- bytes `[data_, cur_)` are `data`; those behind `cur_` are never read.
use my_network_library.Prelude.{
  ℕ, ◌-◌, ◌*◌, ◌%◌, ◌^◌, Bool, true, [], ◌∷◌, ◌++◌, ltb, if◌then◌else◌, length,
}
use my_network_library.Prelude.Text.{Text}

abbrev pub small_buffer : ℕ
small_buffer = 4000

abbrev pub large_buffer : ℕ
large_buffer = 4000 * 4000

pub record FixedBuffer : Type 0 where
  pub data_ : Text

unfoldable pub construct : FixedBuffer
construct = record { data_ = [] }

unfoldable pub stored : FixedBuffer → ℕ
stored b = length b.data_

-- of a buffer with `SIZE` bytes
unfoldable pub avail : ℕ → FixedBuffer → ℕ
avail size b = size - length b.data_

-- `avail() > static_cast<int>(len)`: a length of 2^31 or more, modulo 2^32, is negative
unfoldable pub is_below : ℕ → ℕ → Bool
is_below len room = if ltb (len % 2 ^ 32) (2 ^ 31) then ltb (len % 2 ^ 32) room else true

-- what does not fit is dropped
unfoldable pub append : ℕ → FixedBuffer → Text → FixedBuffer
unfolding avail is_below
append size b buf =
    if is_below (length buf) (avail size b) then record { data_ = b.data_ ++ buf } else b

-- `add`, behind bytes that were written at `current()`
unfoldable pub add : FixedBuffer → Text → FixedBuffer
add b written = record { data_ = b.data_ ++ written }

unfoldable pub reset : FixedBuffer → FixedBuffer
reset b = record { data_ = [] }

abbrev pub zeros : Text → Text
zeros [] = []
zeros (x ∷ xs) = 0 ∷ zeros xs

unfoldable pub bzero : FixedBuffer → FixedBuffer
bzero b = record { data_ = zeros b.data_ }
