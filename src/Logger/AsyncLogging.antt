-- ===== src/Logger/AsyncLogging.antt =====
-- `AsyncLogging` of src/logger/AsyncLogging.h and .cpp. The mutex makes `append` and the guarded block
-- of `threadFunc` single steps; `none` is a null `BufferPtr`, or a step that dereferences one, pops an
-- empty vector or fails an assert.
pub mod Threads
pub mod Log
pub mod Tick
pub mod Lossless
use my_network_library.Prelude.{
  ◌&&◌, ℕ, zero, suc, ◌+◌, ◌-◌, ◌*◌, ◌≤◌, ◌<◌, ◌≡◌, Bool, true, false, Option, none, some, List, [],
  ◌∷◌, ◌++◌, ltb, if◌then◌else◌, length,
}
use my_network_library.Prelude.Text.{Text}
use my_network_library.Logger.FixedBuffer.{FixedBuffer, large_buffer, avail, construct, reset}
use my_network_library.Logger.FixedBuffer

-- the front end: the buffers in `buffers` are in the order in which they were pushed
pub record AsyncLogging : Type 0 where
  pub current : Option FixedBuffer
  pub next : Option FixedBuffer
  pub buffers : List FixedBuffer

unfoldable pub start : AsyncLogging
unfolding construct
start = record { current = some construct; next = some construct; buffers = [] }

-- the new current buffer, when the old one has no room
abbrev pub spare : Option FixedBuffer → FixedBuffer
spare none = construct
spare (some b) = b

-- `append`, of a current buffer that is there
unfoldable pub append_to : AsyncLogging → FixedBuffer → Text → AsyncLogging
unfolding avail
append_to s b line =
    if ltb (length line) (avail large_buffer b)
    then record s { current = some (FixedBuffer.append large_buffer b line) }
    else record {
      current = some (FixedBuffer.append large_buffer (spare s.next) line);
      next = none;
      buffers = s.buffers ++ b ∷ [];
    }

unfoldable pub append : AsyncLogging → Text → Option AsyncLogging
unfolding append_to
append s line = elim s.current [ none ↦ none | some b ↦ some (append_to s b line) ]

-- the buffers that `threadFunc` keeps between its rounds
pub record Backend : Type 0 where
  pub buffer1 : Option FixedBuffer
  pub buffer2 : Option FixedBuffer
  pub to_write : List FixedBuffer

unfoldable pub start_backend : Backend
unfolding construct
start_backend = record { buffer1 = some construct; buffer2 = some construct; to_write = [] }

abbrev pub is_null : Option FixedBuffer → Bool
is_null none = true
is_null (some b) = false

abbrev pub is_empty : {A : Type 0} → List A → Bool
is_empty [] = true
is_empty (x ∷ xs) = false

abbrev pub is_cleared : Option FixedBuffer → Bool
is_cleared none = false
is_cleared (some b) = is_empty b.data_

-- what the three asserts at the start of a round ask for
unfoldable pub round_asserts : Backend → Bool
round_asserts k = is_cleared k.buffer1 && is_cleared k.buffer2 && is_empty k.to_write

-- The guarded block, after the wait. `buffersToWrite` is empty before it.
unfoldable pub collect_from : AsyncLogging → FixedBuffer → Backend → AsyncLogging × Backend
collect_from s b k =
    if is_null s.next
    then (
      record { current = k.buffer1; next = k.buffer2; buffers = k.to_write },
      record { buffer1 = none; buffer2 = none; to_write = s.buffers ++ b ∷ [] },
    )
    else (
      record { current = k.buffer1; next = s.next; buffers = k.to_write },
      record { buffer1 = none; buffer2 = k.buffer2; to_write = s.buffers ++ b ∷ [] },
    )

unfoldable pub collect : AsyncLogging → Backend → Option (AsyncLogging × Backend)
unfolding collect_from
collect s k = elim s.current [ none ↦ none | some b ↦ some (collect_from s b k) ]

-- what the loop over `buffersToWrite` appends to the file
unfoldable pub written : List FixedBuffer → Text
written [] = []
written (b ∷ bs) = b.data_ ++ written bs

-- `if(buffersToWrite.size() > 2) buffersToWrite.resize(2);`
unfoldable pub keep_two : List FixedBuffer → List FixedBuffer
keep_two (a ∷ b ∷ bs) = a ∷ b ∷ []
keep_two bs = bs

-- `back()` and `pop_back()`; `none` on an empty vector
unfoldable pub pop_back : List FixedBuffer → Option (FixedBuffer × List FixedBuffer)
pop_back [] = none
pop_back (a ∷ []) = some (a, [])
pop_back (a ∷ b ∷ bs) = elim (pop_back (b ∷ bs)) [ none ↦ none | some r ↦ some (r.0, a ∷ r.1) ]

-- gives back a buffer that was moved away, and says what is left in `buffersToWrite`
unfoldable pub give_back :
    Option FixedBuffer → List FixedBuffer → Option (Option FixedBuffer × List FixedBuffer)
unfolding pop_back reset
give_back (some b) bs = some (some b, bs)
give_back none bs = elim (pop_back bs) [ none ↦ none | some r ↦ some (some (reset r.0), r.1) ]

abbrev pub give_second :
    Option FixedBuffer → Option (Option FixedBuffer × List FixedBuffer) → Option Backend
give_second b2 none = none
give_second b2 (some (b1, bs)) = elim (give_back b2 bs) [
  | none ↦ none
  | some r ↦ some (record { buffer1 = b1; buffer2 = r.0; to_write = [] })
]

-- the end of a round, after the buffers have been written
unfoldable pub recycle : Backend → Option Backend
unfolding give_back keep_two
recycle k = give_second k.buffer2 (give_back k.buffer1 (keep_two k.to_write))
