-- ===== src/Logger/Examples.antt =====
-- Runs of the logger of src/logger/ on concrete data.
use my_network_library.Prelude.{
  ℕ, ◌+◌, ◌≤◌, ◌≡◌, refl, ap, sym, ◌⊎◌, false, true, Bool, Option, some, List, [], ◌∷◌, ◌++◌,
  length, take, leb, arith,
}
use my_network_library.Prelude.Text.{Text, codes}
use my_network_library.Logger.FixedBuffer.{FixedBuffer, small_buffer, avail, add}
use my_network_library.Logger.LogStream.{pos, negsuc, convert, format_integer, max_numeric_size}
use my_network_library.Logger.LogStream.Decimal.{
  read_integer, convert-read_integer, format_integer_bounds,
}
use my_network_library.Logger.AsyncLogging.Threads
use my_network_library.Logger.LogStream.{Floats}
use my_network_library.Logger.Logging.{
  Statement, Globals, set_output, info, pointer, integer, double, log_line,
}
use my_network_library.Logger.Logging.Line.{line_text, log_line-line_text, IsStatement}
use my_network_library.Logger.Logging.Statements.{
  run_statements, lines, statement, async_log, run_statements-lines,
}
use my_network_library.Logger.Logging.Statements
use my_network_library.Logger.AsyncLogging.{written}
use my_network_library.Logger.LogFile.{LogFile, write_buffers}
use my_network_library.Logger.LogFile.Batches.{NeverStalls, Appended, write_buffers-Appended}
use my_network_library.Logger.AppendFile.{Stream, append}
use my_network_library.Logger.AppendFile.Written.{Wrote, append-Wrote}
use my_network_library.Logger.AsyncLogging.Threads.{
  Logger, start_logger, Event, log, tick, run, logged, AllFit, everything,
}
use my_network_library.Logger.AsyncLogging.Lossless.{run-logged}

abbrev some_events : List Event
some_events = log (codes "one") ∷ tick ∷ log (codes "two") ∷ tick ∷ tick ∷ []

some_events-AllFit : AllFit some_events
some_events-AllFit = (omega arith, (omega arith, tt))

run-logged_example :
    (l : Logger) × (run some_events start_logger ≡ some l) × (everything l ≡ logged some_events)
run-logged_example = run-logged some_events some_events-AllFit

convert-read_integer_example :
    (t : Text) × (convert (negsuc 1204) ≡ some t) × (read_integer t ≡ negsuc 1204)
convert-read_integer_example = convert-read_integer (negsuc 1204)

abbrev a_buffer : FixedBuffer
a_buffer = record { data_ = codes "n = " }

format_integer_bounds_example :
    ((leb max_numeric_size (avail small_buffer a_buffer) ≡ false)
      × (format_integer a_buffer (pos 42) ≡ a_buffer))
    ⊎ ((t : Text) × (convert (pos 42) ≡ some t)
        × (format_integer a_buffer (pos 42) ≡ add a_buffer t)
        × (length (add a_buffer t).data_ + 1 ≤ small_buffer))
format_integer_bounds_example = format_integer_bounds a_buffer (pos 42) (omega arith) (omega arith)

-- a file that takes one byte at a time
abbrev one_byte : Text → ℕ × Text
one_byte [] = (0, [])
one_byte (x ∷ xs) = (1, x ∷ [])

abbrev a_stream : Stream
a_stream = record {
  File = Text;
  fwrite = λ f t. ((one_byte t).0, f ++ (one_byte t).1);
  fflush = λ f. f;
  contents = λ f. f;
  fwrite_le = λ f t. le t;
  contents-fwrite = λ f t. appended f t;
  contents-fflush = λ f. refl;
}
  where
    le : (t : Text) → (one_byte t).0 ≤ length t
    le [] = omega arith
    le (x ∷ xs) = omega arith

    appended : (f t : Text) → f ++ (one_byte t).1 ≡ f ++ take (one_byte t).0 t
    appended f [] = refl
    appended f (x ∷ xs) = refl

append-Wrote_example : Wrote a_stream (codes "line") [] (append a_stream (codes "line") [])
append-Wrote_example = append-Wrote a_stream (codes "line") []

-- numbers with a decimal point that print as one digit
abbrev digit_floats : Floats
digit_floats = record {
  Double = Bool;
  LongDouble = Bool;
  print = λ v. codes "1";
  print_long = λ v. codes "1";
  length-print = λ v. omega arith;
  length-print_long = λ v. omega arith;
}

abbrev a_statement : Statement digit_floats
a_statement = record {
  time = codes "2023-05-01 10:00:00\n";
  level = info;
  file = codes "LogTest.cpp";
  line = pos 22;
  items = pointer (some (codes "Hello, ")) ∷ integer (pos 3) ∷ double true ∷ [];
}

log_line-line_text_example : log_line digit_floats a_statement ≡ line_text digit_floats a_statement
unfolding convert
log_line-line_text_example = log_line-line_text digit_floats a_statement (omega arith)

a_statement-IsStatement : IsStatement digit_floats a_statement
a_statement-IsStatement =
    (omega arith, omega arith, omega arith, (omega arith, (omega arith, (tt, tt))))

abbrev to_terminal : Globals (Option Threads.Logger)
to_terminal = record { log_level = info; output = λ msg w. w }

run_statements-lines_example :
    (l : Threads.Logger) × (run_statements digit_floats
        (set_output to_terminal async_log)
        (statement a_statement ∷ Statements.Event.tick ∷ statement a_statement ∷ [])
        (some start_logger)
      ≡ some l)
    × (everything l
        ≡ lines digit_floats
            (statement a_statement ∷ Statements.Event.tick ∷ statement a_statement ∷ []))
run_statements-lines_example =
    run_statements-lines digit_floats to_terminal
      (statement a_statement ∷ Statements.Event.tick ∷ statement a_statement ∷ [])
      (a_statement-IsStatement, (a_statement-IsStatement, tt))

-- a file that takes all bytes
abbrev whole_stream : Stream
whole_stream = record {
  File = Text;
  fwrite = λ f t. (length t, f ++ t);
  fflush = λ f. f;
  contents = λ f. f;
  fwrite_le = λ f t. omega arith;
  contents-fwrite = λ f t. ap (λ x. f ++ x) (sym (take-length t));
  contents-fflush = λ f. refl;
}
  where
    take-length : (t : Text) → take (length t) t ≡ t
    take-length [] = refl
    take-length (x ∷ xs) = ap (λ ys. x ∷ ys) (take-length xs)

whole_stream_going : NeverStalls whole_stream
whole_stream_going g c cs h = absurd (omega (arith, h))

abbrev a_log_file : LogFile whole_stream
a_log_file = record { flush_every = 3; count = 2; file = codes "old" }

write_buffers-Appended_example :
    Appended whole_stream
      (written (a_buffer ∷ a_buffer ∷ []))
      2
      a_log_file
      (write_buffers whole_stream (a_buffer ∷ a_buffer ∷ []) a_log_file)
write_buffers-Appended_example =
    write_buffers-Appended whole_stream (a_buffer ∷ a_buffer ∷ []) a_log_file whole_stream_going
      (omega arith)
