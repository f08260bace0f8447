-- ===== src/Logger/Logging/Statements.antt =====
-- Log statements over the asynchronous logger, as src/logger/test/LogTest.cpp sets them up.
use my_network_library.Prelude.{◌≡◌, refl, ap, ◌∙◌, Option, none, some, List, [], ◌∷◌, ◌++◌, arith}
use my_network_library.Prelude.Text.{Text}
use my_network_library.Logger.LogStream.{Floats}
use my_network_library.Logger.AsyncLogging.Threads.{
  start_logger, do_log, do_tick, step, run, logged, AllFit, everything,
}
use my_network_library.Logger.AsyncLogging.Threads
use my_network_library.Logger.AsyncLogging.Lossless.{run-logged}
use my_network_library.Logger.Logging.{
  Statement, statement_logger, log_line, Globals, set_output, destructor,
}
use my_network_library.Logger.Logging.Line.{IsStatement, log_line_bounds}

-- `asyncLog`, once `g_asynclog` is set; `none` when a step has faulted
unfoldable pub async_log : Text → Option Threads.Logger → Option Threads.Logger
unfolding do_log
async_log msg none = none
async_log msg (some l) = do_log l msg

module _ (F : Floats) where
  -- a thread runs a log statement, or the back end does its next step
  pub data Event : Type 0 where
    statement : Statement F → Event
    tick : Event

  abbrev pub tick_option : Option Threads.Logger → Option Threads.Logger
  tick_option none = none
  tick_option (some l) = do_tick l

  unfoldable pub run_statements :
      Globals (Option Threads.Logger) → List Event → Option Threads.Logger → Option Threads.Logger
  unfolding destructor statement_logger do_tick
  run_statements g [] w = w
  run_statements g (statement s ∷ es) w =
      run_statements g es (destructor g (statement_logger F s) w)
  run_statements g (tick ∷ es) w = run_statements g es (tick_option w)

  -- the lines of the statements, one after the other
  abbrev pub lines : List Event → Text
  lines [] = []
  lines (statement s ∷ es) = log_line F s ++ lines es
  lines (tick ∷ es) = lines es

  abbrev pub AllStatements : List Event → Type 0
  AllStatements [] = Unit
  AllStatements (statement s ∷ es) = IsStatement F s × AllStatements es
  AllStatements (tick ∷ es) = AllStatements es

  abbrev events : List Event → List Threads.Event
  events [] = []
  events (statement s ∷ es) = Threads.Event.log (log_line F s) ∷ events es
  events (tick ∷ es) = Threads.Event.tick ∷ events es

  events-AllFit : (es : List Event) → AllStatements es → AllFit (events es)
  events-AllFit [] h = tt
  events-AllFit (statement s ∷ es) h =
      (omega (arith, log_line_bounds F s h.0), events-AllFit es h.1)
  events-AllFit (tick ∷ es) h = events-AllFit es h

  logged-events : (es : List Event) → logged (events es) ≡ lines es
  unfolding logged
  logged-events [] = refl
  logged-events (statement s ∷ es) = ap (λ t. log_line F s ++ t) (logged-events es)
  logged-events (tick ∷ es) = logged-events es

  abbrev run_option : List Threads.Event → Option Threads.Logger → Option Threads.Logger
  run_option es none = none
  run_option es (some l) = run es l

  run-option :
      (es : List Threads.Event) (o : Option Threads.Logger)
      → run_option es o ≡ elim o [ none ↦ none | some l ↦ run es l ]
  run-option es none = refl
  run-option es (some l) = refl

  run-none :
      (g : Globals (Option Threads.Logger)) (es : List Event)
      → run_statements (set_output g async_log) es none ≡ none
  unfolding run_statements async_log set_output destructor
  run-none g [] = refl
  run-none g (statement s ∷ es) = run-none g es
  run-none g (tick ∷ es) = run-none g es

  run_from :
      (g : Globals (Option Threads.Logger)) (es : List Event) (w : Option Threads.Logger)
      → run_statements (set_output g async_log) es w ≡ run_option (events es) w
  unfolding run_statements async_log set_output destructor log_line run step
  run_from g es none = run-none g es
  run_from g [] (some l) = refl
  run_from g (statement s ∷ es) (some l) =
      run_from g es (do_log l (log_line F s)) ∙ run-option (events es) (do_log l (log_line F s))
  run_from g (tick ∷ es) (some l) = run_from g es (do_tick l) ∙ run-option (events es) (do_tick l)

  -- When the output function is set to that of the asynchronous logger, any interleaving of log
  -- statements and of steps of the back end runs without a fault, asserts included, and the bytes
  -- passed to the log file with those in the buffers on their way to it are the lines of the
  -- statements, in order, whatever the statements print, if their strings are shorter than 2^31 bytes and their integers have 64 bits.
  pub run_statements-lines :
      (g : Globals (Option Threads.Logger)) (es : List Event)
      → AllStatements es
      → (l : Threads.Logger) × (run_statements (set_output g async_log) es (some start_logger)
          ≡ some l)
        × (everything l ≡ lines es)
  run_statements-lines g es h =
      let (l, ran, text) = run-logged (events es) (events-AllFit es h) in
      (l, run_from g es (some start_logger) ∙ ran, text ∙ logged-events es)
