-- ===== src/Logger/Logging/Line.antt =====
-- The line that a log statement of src/logger/Logging.cpp writes.
use mathlib.Core.Path.{subst}
use mathlib.Core.List.{append-nil, append_assoc}
use my_network_library.Prelude.{
  ◌+◌, ◌^◌, ◌≤◌, ◌<◌, ◌≡◌, refl, sym, ap, ◌∙◌, true, false, none, some, List, [], ◌∷◌, ◌++◌, length,
  length-append, length-take, take, arith, leb, if◌then◌else◌, inl, inr,
}
use my_network_library.Prelude.Text.{Text, codes}
use my_network_library.Logger.FixedBuffer.{
  FixedBuffer, construct, append, avail, is_below, small_buffer, add,
}
use my_network_library.Logger.LogStream.{
  ℤ, magnitude, Floats, put_bool, put_char, put_pointer, put_string, put_template, put_double,
  put_long_double, format_integer,
}
use my_network_library.Logger.LogStream.Decimal.{decimal, convert-decimal, format_integer_bounds}
use my_network_library.Logger.Logging.{
  LogLevel, info, warn, error, get_level_name, Item, bool, char, pointer, string, integer, template,
  double, long_double, put, put_all, Statement, log_line, statement_logger, construct_impl, destroy,
  finish, format_time,
}

append-fits :
    (b : FixedBuffer) (t : Text)
    → length b.data_ + length t < small_buffer
    → append small_buffer b t ≡ record { data_ = b.data_ ++ t }
unfolding append avail is_below
append-fits b t h = ground (arith, h)

add-fits :
    (b : FixedBuffer) (t : Text)
    → length b.data_ + 32 ≤ small_buffer
    → (if leb 32 (avail small_buffer b) then add b t else b) ≡ record { data_ = b.data_ ++ t }
unfolding avail add
add-fits b t h = ground (arith, h)

module _ (F : Floats) where
  -- the text of an item
  abbrev pub shown : Item F → Text
  shown (bool true) = codes "1"
  shown (bool false) = codes "0"
  shown (char v) = v ∷ []
  shown (pointer none) = codes "(null)"
  shown (pointer (some t)) = t
  shown (string t) = t
  shown (integer v) = decimal v
  shown (template g) = take g.len_ g.data_
  shown (double v) = F.print v
  shown (long_double v) = F.print_long v

  abbrev pub shown_all : List (Item F) → Text
  shown_all [] = []
  shown_all (i ∷ is) = shown i ++ shown_all is

  put-shown :
      (b : FixedBuffer) (i : Item F)
      → length b.data_ + length (shown i) + 32 ≤ small_buffer
      → put F b i ≡ record { data_ = b.data_ ++ shown i }
  unfolding put put_bool put_char put_pointer put_string format_integer put_template put_double
      put_long_double
  put-shown b (bool true) h = append-fits b (codes "1") (omega (arith, h))
  put-shown b (bool false) h = append-fits b (codes "0") (omega (arith, h))
  put-shown b (char v) h = append-fits b (v ∷ []) (omega (arith, h))
  put-shown b (pointer none) h = append-fits b (codes "(null)") (omega (arith, h))
  put-shown b (pointer (some t)) h = append-fits b t (omega (arith, h))
  put-shown b (string t) h = append-fits b t (omega (arith, h))
  put-shown b (integer v) h = rw (convert-decimal v) (add-fits b (decimal v) (omega (arith, h)))
  put-shown b (template g) h = append-fits b (take g.len_ g.data_) (omega (arith, h))
  put-shown b (double v) h = add-fits b (F.print v) (omega (arith, h))
  put-shown b (long_double v) h = add-fits b (F.print_long v) (omega (arith, h))

  put_all-shown :
      (is : List (Item F)) (b : FixedBuffer)
      → length b.data_ + length (shown_all is) + 32 ≤ small_buffer
      → put_all F b is ≡ record { data_ = b.data_ ++ shown_all is }
  put_all-shown [] b h = ap (λ t. record { data_ = t }) (sym (append-nil b.data_))
  put_all-shown (i ∷ is) b h =
      let a : length b.data_ + length (shown i) + 32 ≤ small_buffer =
        omega (arith, h, length-append (shown i) (shown_all is)) in
      ap (λ c. put_all F c is) (put-shown b i a)
      ∙ put_all-shown is (record { data_ = b.data_ ++ shown i })
          (omega
            (arith, h, length-append (shown i) (shown_all is), length-append b.data_ (shown i)))
      ∙ ap (λ t. record { data_ = t }) (append_assoc b.data_ (shown i) (shown_all is))

  put_all-append :
      (is js : List (Item F)) (b : FixedBuffer)
      → put_all F b (is ++ js) ≡ put_all F (put_all F b is) js
  put_all-append [] js b = refl
  put_all-append (i ∷ is) js b = put_all-append is js (put F b i)

  shown_all-append : (is js : List (Item F)) → shown_all (is ++ js) ≡ shown_all is ++ shown_all js
  shown_all-append [] js = refl
  shown_all-append (i ∷ is) js =
      ap (λ t. shown i ++ t) (shown_all-append is js)
      ∙ sym (append_assoc (shown i) (shown_all is) (shown_all js))

  abbrev pub prefix : Statement F → List (Item F)
  prefix s =
      pointer (some s.time) ∷ template (record { data_ = get_level_name s.level; len_ = 6 }) ∷ []

  abbrev pub suffix : Statement F → List (Item F)
  suffix s =
      pointer (some (codes " - ")) ∷ string s.file ∷ char b':' ∷ integer s.line ∷ char b'\n' ∷ []

  abbrev pub parts : Statement F → List (Item F)
  parts s = prefix s ++ (s.items ++ suffix s)

  -- the whole line is a sequence of items
  pub log_line-parts : (s : Statement F) → log_line F s ≡ (put_all F construct (parts s)).data_
  unfolding log_line statement_logger construct_impl destroy finish format_time put
  log_line-parts s =
      ap (λ (b : FixedBuffer). b.data_)
        (sym (put_all-append s.items (suffix s) (put_all F construct (prefix s))))

  -- the level as it stands in a line: its zero byte is among the six
  abbrev pub level_text : LogLevel → Text
  level_text info = codes "INFO " ++ 0 ∷ []
  level_text warn = codes "WARN " ++ 0 ∷ []
  level_text error = codes "ERROR "

  level-take : (l : LogLevel) → take 6 (get_level_name l) ≡ level_text l
  unfolding get_level_name
  level-take info = refl
  level-take warn = refl
  level-take error = refl

  -- the line, written out
  abbrev pub line_text : Statement F → Text
  line_text s =
      s.time
      ++ (level_text s.level
          ++ (shown_all s.items
              ++ (codes " - " ++ (s.file ++ (codes ":" ++ (decimal s.line ++ codes "\n"))))))

  shown_all-parts : (s : Statement F) → shown_all (parts s) ≡ line_text s
  shown_all-parts s =
      ap (λ t. s.time ++ (t ++ shown_all (s.items ++ suffix s))) (level-take s.level)
      ∙ ap (λ t. s.time ++ (level_text s.level ++ t)) (shown_all-append s.items (suffix s))

  -- When the line leaves 32 bytes of the stream's buffer free, a log statement writes the time, the
  -- level, its items, the name of the file and the number of the line, in the order and with the
  -- punctuation of `line_text`, and nothing is dropped. Integers are in decimal: a sign
  -- if they are negative, and the digits of `show_nat`.
  pub log_line-line_text :
      (s : Statement F) → length (line_text s) + 32 ≤ small_buffer → log_line F s ≡ line_text s
  unfolding construct
  log_line-line_text s h =
      log_line-parts s
      ∙ ap (λ (b : FixedBuffer). b.data_)
          (put_all-shown (parts s) construct (omega (arith, h, ap length (shown_all-parts s))))
      ∙ shown_all-parts s

module _ (F : Floats) where
  -- what the machine can hold: strings that are shorter than 2^31, and integers of 64 bits
  abbrev pub IsMachine : Item F → Type 0
  IsMachine (bool v) = Unit
  IsMachine (char v) = Unit
  IsMachine (pointer none) = Unit
  IsMachine (pointer (some t)) = length t < 2 ^ 31
  IsMachine (string t) = length t < 2 ^ 31
  IsMachine (integer v) = magnitude v < 2 ^ 64
  IsMachine (template g) = g.len_ < 2 ^ 31
  IsMachine (double v) = Unit
  IsMachine (long_double v) = Unit

  abbrev pub AllMachine : List (Item F) → Type 0
  AllMachine [] = Unit
  AllMachine (i ∷ is) = IsMachine i × AllMachine is

  abbrev HasRoom : FixedBuffer → Type 0
  HasRoom b = length b.data_ < small_buffer

  append-HasRoom :
      (b : FixedBuffer) (t : Text)
      → length t < 2 ^ 31
      → HasRoom b
      → HasRoom (append small_buffer b t)
  unfolding append avail is_below
  append-HasRoom b t h r = ground (arith, h, r, length-append b.data_ t)

  add-HasRoom :
      (b : FixedBuffer) (t : Text)
      → length t ≤ 31
      → HasRoom b
      → HasRoom (if leb 32 (avail small_buffer b) then add b t else b)
  unfolding add avail
  add-HasRoom b t h r = ground (arith, h, r, length-append b.data_ t)

  format_integer-HasRoom :
      (b : FixedBuffer) (v : ℤ) → magnitude v < 2 ^ 64 → HasRoom b → HasRoom (format_integer b v)
  format_integer-HasRoom b v h r = elim (format_integer_bounds b v (omega (arith, r)) h) [
    | inl (full, same) ↦ rw same r
    | inr (t, ran, same, room) ↦ rw same (omega (arith, room))
  ]

  put-HasRoom : (b : FixedBuffer) (i : Item F) → IsMachine i → HasRoom b → HasRoom (put F b i)
  unfolding put put_bool put_char put_pointer put_string put_template put_double put_long_double
  put-HasRoom b (bool true) m r = append-HasRoom b (codes "1") (omega arith) r
  put-HasRoom b (bool false) m r = append-HasRoom b (codes "0") (omega arith) r
  put-HasRoom b (char v) m r = append-HasRoom b (v ∷ []) (omega arith) r
  put-HasRoom b (pointer none) m r = append-HasRoom b (codes "(null)") (omega arith) r
  put-HasRoom b (pointer (some t)) m r = append-HasRoom b t m r
  put-HasRoom b (string t) m r = append-HasRoom b t m r
  put-HasRoom b (integer v) m r = format_integer-HasRoom b v m r
  put-HasRoom b (template g) m r =
      append-HasRoom b (take g.len_ g.data_) (omega (arith, m, length-take g.len_ g.data_)) r
  put-HasRoom b (double v) m r = add-HasRoom b (F.print v) (F.length-print v) r
  put-HasRoom b (long_double v) m r = add-HasRoom b (F.print_long v) (F.length-print_long v) r

  put_all-HasRoom :
      (is : List (Item F)) (b : FixedBuffer) → AllMachine is → HasRoom b → HasRoom (put_all F b is)
  put_all-HasRoom [] b m r = r
  put_all-HasRoom (i ∷ is) b m r = put_all-HasRoom is (put F b i) m.1 (put-HasRoom b i m.0 r)

  abbrev pub IsStatement : Statement F → Type 0
  IsStatement s =
      (length s.time < 2 ^ 31)
      × (length s.file < 2 ^ 31)
      × (magnitude s.line < 2 ^ 64)
      × AllMachine s.items

  AllMachine-append :
      (is js : List (Item F)) → AllMachine is → AllMachine js → AllMachine (is ++ js)
  AllMachine-append [] js m n = n
  AllMachine-append (i ∷ is) js m n = (m.0, AllMachine-append is js m.1 n)

  -- A log statement never writes past its stream's buffer of 4000 bytes, whatever it prints, if its
  -- strings are shorter than 2^31 bytes and its integers have 64 bits: what does not fit is dropped.
  pub log_line_bounds : (s : Statement F) → IsStatement s → length (log_line F s) < small_buffer
  unfolding construct
  log_line_bounds s (time, file, line, items) =
      subst (λ t. length t < small_buffer) (sym (log_line-parts F s))
        (put_all-HasRoom (parts F s) construct
          (
            time,
            (
              omega arith,
              AllMachine-append s.items (suffix F s) items
                  (omega arith, (file, (tt, (line, (tt, tt))))),
            ),
          )
          (omega arith))
