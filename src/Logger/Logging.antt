-- ===== src/Logger/Logging.antt =====
-- `Logger` of src/logger/Logging.h and .cpp: a statement such as `LOG_INFO << "x" << 3` writes a line into a
-- stream, and the destructor at its end passes the line on.
pub mod Line
pub mod Statements
use my_network_library.Prelude.{
  ℕ, ◌+◌, ◌≤◌, ◌<◌, ◌^◌, Bool, true, false, Option, none, some, List, [], ◌∷◌, ◌++◌, length, take,
}
use my_network_library.Prelude.Text.{Text, codes}
use my_network_library.Logger.FixedBuffer.{FixedBuffer, construct}
use my_network_library.Logger.LogStream.{
  ℤ, Floats, GeneralTemplate, put_bool, put_char, put_pointer, put_string, put_template, put_double,
  put_long_double, format_integer,
}

pub data LogLevel : Type 0 where
  info warn error : LogLevel

-- the character arrays, each with its terminating zero
unfoldable pub get_level_name : LogLevel → Text
get_level_name info = codes "INFO " ++ 0 ∷ []
get_level_name warn = codes "WARN " ++ 0 ∷ []
get_level_name error = codes "ERROR " ++ 0 ∷ []

pub record Logger : Type 0 where
  pub stream : FixedBuffer
  pub level : LogLevel
  pub line : ℤ
  pub basename : Text

-- the time as `strftime` has printed it
unfoldable pub format_time : Text → FixedBuffer → FixedBuffer
unfolding put_pointer
format_time str_t b = put_pointer b (some str_t)

-- the constructor of `Impl`
unfoldable pub construct_impl : Text → LogLevel → Text → ℤ → Logger
unfolding format_time put_template get_level_name construct
construct_impl str_t level file line = record {
  stream =
      put_template (format_time str_t construct)
        (record { data_ = get_level_name level; len_ = 6 });
  level = level;
  line = line;
  basename = file;
}

-- the constructor with the name of a function
unfoldable pub construct_func : Text → LogLevel → Text → ℤ → Text → Logger
unfolding construct_impl put_pointer put_char
construct_func str_t level file line func =
    let l = construct_impl str_t level file line in
    record l { stream = put_char (put_pointer l.stream (some func)) b' ' }

-- `Impl::finish`
unfoldable pub finish : Logger → Logger
unfolding put_pointer put_string put_char format_integer
finish l =
    let b₁ = put_pointer l.stream (some (codes " - ")) in
    let b₂ = put_string b₁ l.basename in
    let b₃ = put_char b₂ b':' in
    let b₄ = format_integer b₃ l.line in record l { stream = put_char b₄ b'\n' }

-- what the destructor passes to `g_output`
unfoldable pub destroy : Logger → Text
unfolding finish
destroy l = (finish l).stream.data_

module _ (F : Floats) where
  -- what a statement puts into the stream
  pub data Item : Type 0 where
    bool : Bool → Item
    char : ℕ → Item
    pointer : Option Text → Item
    string : Text → Item
    integer : ℤ → Item
    template : GeneralTemplate → Item
    double : F.Double → Item
    long_double : F.LongDouble → Item

  -- the `operator<<` for an item
  unfoldable pub put : FixedBuffer → Item → FixedBuffer
  unfolding put_bool put_char put_pointer put_string format_integer put_template put_double
      put_long_double
  put b (bool v) = put_bool b v
  put b (char v) = put_char b v
  put b (pointer p) = put_pointer b p
  put b (string s) = put_string b s
  put b (integer v) = format_integer b v
  put b (template g) = put_template b g
  put b (double v) = put_double F b v
  put b (long_double v) = put_long_double F b v

  abbrev pub put_all : FixedBuffer → List Item → FixedBuffer
  put_all b [] = b
  put_all b (i ∷ is) = put_all (put b i) is

  -- `Logger(file, line, level).stream() << …`
  pub record Statement : Type 0 where
    pub time : Text
    pub level : LogLevel
    pub file : Text
    pub line : ℤ
    pub items : List Item

  -- the logger at the end of a statement
  unfoldable pub statement_logger : Statement → Logger
  unfolding construct_impl put
  statement_logger s =
      let l = construct_impl s.time s.level s.file s.line in
      record l { stream = put_all l.stream s.items }

  -- the line of a statement
  unfoldable pub log_line : Statement → Text
  unfolding statement_logger destroy
  log_line s = destroy (statement_logger s)

-- the globals `g_logLevel` and `g_output`; an output function is a step of what it writes to
pub record Globals (W : Type 0) : Type 0 where
  pub log_level : LogLevel
  pub output : Text → W → W

module _ {W : Type 0} where
  unfoldable pub set_log_level : Globals W → LogLevel → Globals W
  set_log_level g level = record g { log_level = level }

  unfoldable pub set_output : Globals W → (Text → W → W) → Globals W
  set_output g out = record g { output = out }

  -- the destructor, which does not look at `g_logLevel`
  unfoldable pub destructor : Globals W → Logger → W → W
  unfolding destroy
  destructor g l w = g.output (destroy l) w
