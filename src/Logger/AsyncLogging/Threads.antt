-- ===== src/Logger/AsyncLogging/Threads.antt =====
-- The front end and the back end of src/logger/AsyncLogging.cpp as one machine: any number of threads
-- log lines, and the back end takes its steps.
use my_network_library.Prelude.{
  ◌<◌, ◌≡◌, Bool, true, false, Option, none, some, List, [], ◌∷◌, ◌++◌, if◌then◌else◌, length,
}
use my_network_library.Prelude.Text.{Text}
use my_network_library.Logger.FixedBuffer.{FixedBuffer, large_buffer}
use my_network_library.Logger.AsyncLogging.{
  AsyncLogging, Backend, start, start_backend, append, collect, written, recycle, round_asserts,
}

-- The logger, with the bytes that `threadFunc` has passed to `append` of its `LogFile`. That returns nothing,
-- so what becomes of a write does not change the rounds.
pub record Logger : Type 0 where
  pub front : AsyncLogging
  pub back : Backend
  pub passed : Text
  -- whether the back end has collected buffers that it has not written yet
  pub collected : Bool

unfoldable pub start_logger : Logger
start_logger = record { front = start; back = start_backend; passed = []; collected = false }

-- a thread logs a line, or the back end does its next step
pub data Event : Type 0 where
  log : Text → Event
  tick : Event

-- the asserts and the guarded block, or the loop over the buffers and the end of the round
unfoldable pub do_tick : Logger → Option Logger
do_tick l =
    if l.collected
    then elim (recycle l.back) [
      | none ↦ none
      | some k ↦
          some
            (record l { back = k; passed = l.passed ++ written l.back.to_write; collected = false })
    ]
    else if round_asserts l.back
    then elim (collect l.front l.back) [
      | none ↦ none
      | some (s, k) ↦ some (record l { front = s; back = k; collected = true })
    ]
    else none

unfoldable pub do_log : Logger → Text → Option Logger
do_log l line = elim (append l.front line) [ none ↦ none | some s ↦ some (record l { front = s }) ]

unfoldable pub step : Logger → Event → Option Logger
unfolding do_tick do_log
step l (log line) = do_log l line
step l tick = do_tick l

unfoldable pub run : List Event → Logger → Option Logger
run [] l = some l
run (e ∷ es) l = elim (step l e) [ none ↦ none | some l' ↦ run es l' ]

-- the logged lines, one after the other
unfoldable pub logged : List Event → Text
logged [] = []
logged (log line ∷ es) = line ++ logged es
logged (tick ∷ es) = logged es

-- lines that fit into a buffer
abbrev pub AllFit : List Event → Type 0
AllFit [] = Unit
AllFit (log line ∷ es) = (length line < large_buffer) × AllFit es
AllFit (tick ∷ es) = AllFit es

abbrev pub current_text : Option FixedBuffer → Text
current_text none = []
current_text (some b) = b.data_

-- what has been passed to the log file, and what is on its way there
unfoldable pub everything : Logger → Text
everything l =
    l.passed
    ++ (written l.back.to_write ++ (written l.front.buffers ++ current_text l.front.current))

-- a buffer that is there, with nothing in it
abbrev pub empty_buffer : Option FixedBuffer
empty_buffer = some (record { data_ = [] })

abbrev pub Spare : Option FixedBuffer → List FixedBuffer → Type 0
Spare none bs = (a : FixedBuffer) × (as' : List FixedBuffer) × (bs ≡ a ∷ as')
Spare (some b) bs = b.data_ ≡ []
