-- ===== src/Logger/LogStream.antt =====
-- `LogStream` of src/logger/LogStream.h and .cpp: values formatted into a small buffer.
pub mod Decimal
use mathlib.Core.List.{reverse}
use my_network_library.Prelude.{
  ℕ, zero, suc, ◌+◌, ◌-◌, ◌*◌, ◌/◌, ◌%◌, ◌≤◌, ◌≡◌, Bool, true, false, Option, none, some, List, [],
  ◌∷◌, ◌++◌, ◌==◌, ltb, leb, if◌then◌else◌, length, drop, take,
}
use my_network_library.Prelude.Text.{Text, codes}
use my_network_library.Logger.FixedBuffer.{FixedBuffer, small_buffer, avail, append, add, reset}

-- a machine integer, signed or unsigned
pub data ℤ : Type 0 where
  pos : ℕ → ℤ
  negsuc : ℕ → ℤ

abbrev pub neg : ℕ → ℤ
neg zero = pos 0
neg (suc n) = negsuc n

abbrev pub magnitude : ℤ → ℕ
magnitude (pos n) = n
magnitude (negsuc n) = suc n

-- `i % 10` and `i / 10`, which round towards zero
unfoldable pub remainder : ℤ → ℤ
remainder (pos n) = pos (n % 10)
remainder (negsuc n) = neg (suc n % 10)

unfoldable pub quotient : ℤ → ℤ
quotient (pos n) = pos (n / 10)
quotient (negsuc n) = neg (suc n / 10)

abbrev pub digits : Text
digits = codes "9876543210123456789"

abbrev pub head : Text → ℕ
head [] = 0
head (x ∷ xs) = x

-- `zero[lsd]`, with `zero = digits + 9`
unfoldable pub digit : ℤ → ℕ
digit (pos n) = head (drop (9 + n) digits)
digit (negsuc n) = head (drop (8 - n) digits)

abbrev pub is_zero : ℤ → Bool
is_zero (pos n) = n == 0
is_zero (negsuc n) = false

abbrev pub cons_digit : ℕ → Option Text → Option Text
cons_digit d none = none
cons_digit d (some ds) = some (d ∷ ds)

-- the `do` loop of `convert`, which writes the last digit first
unfoldable pub digit_loop : ℕ → ℤ → Option Text
unfolding remainder quotient digit
digit_loop zero i = none
digit_loop (suc n) i =
    let rest = digit_loop n (quotient i) in
    if is_zero (quotient i)
    then some (digit (remainder i) ∷ [])
    else cons_digit (digit (remainder i)) rest

abbrev pub sign : ℤ → Text
sign (pos n) = []
sign (negsuc n) = b'-' ∷ []

-- the end of `convert`: the sign, and `std::reverse`
unfoldable pub finish : ℤ → Option Text → Option Text
finish value none = none
finish value (some ds) = some (reverse (ds ++ sign value))

-- as many rounds as the value, and one
unfoldable pub convert : ℤ → Option Text
unfolding digit_loop finish
convert value = finish value (digit_loop (magnitude value + 1) value)

abbrev pub max_numeric_size : ℕ
max_numeric_size = 32

abbrev pub add_text : FixedBuffer → Option Text → FixedBuffer
add_text b none = b
add_text b (some t) = add b t

-- `formatInteger`, the `operator<<` of every integer type
unfoldable pub format_integer : FixedBuffer → ℤ → FixedBuffer
unfolding avail add convert
format_integer b v =
    if leb max_numeric_size (avail small_buffer b) then add_text b (convert v) else b

unfoldable pub put_bool : FixedBuffer → Bool → FixedBuffer
unfolding append
put_bool b v = append small_buffer b (if v then codes "1" else codes "0")

unfoldable pub put_char : FixedBuffer → ℕ → FixedBuffer
unfolding append
put_char b v = append small_buffer b (v ∷ [])

-- `operator<<` of a `const char*`, `none` for the null pointer
unfoldable pub put_pointer : FixedBuffer → Option Text → FixedBuffer
unfolding append
put_pointer b none = append small_buffer b (codes "(null)")
put_pointer b (some str) = append small_buffer b str

unfoldable pub put_string : FixedBuffer → Text → FixedBuffer
unfolding append
put_string b v = append small_buffer b v

unfoldable pub reset_buffer : FixedBuffer → FixedBuffer
unfolding reset
reset_buffer b = reset b

-- `GeneralTemplate`
pub record GeneralTemplate : Type 0 where
  -- the array that the pointer points into, from there on
  pub data_ : Text
  pub len_ : ℕ

unfoldable pub put_template : FixedBuffer → GeneralTemplate → FixedBuffer
unfolding append
put_template b g = append small_buffer b (take g.len_ g.data_)

-- `snprintf` into 32 bytes, of the format `%.12g` and of `%.12Lg`: what it prints is shorter
pub record Floats : Type 1 where
  pub Double : Type 0
  pub LongDouble : Type 0
  pub print : Double → Text
  pub print_long : LongDouble → Text
  pub length-print : (v : Double) → length (print v) ≤ 31
  pub length-print_long : (v : LongDouble) → length (print_long v) ≤ 31

module _ (F : Floats) where
  unfoldable pub put_double : FixedBuffer → F.Double → FixedBuffer
  unfolding avail add
  put_double b v = if leb max_numeric_size (avail small_buffer b) then add b (F.print v) else b

  unfoldable pub put_long_double : FixedBuffer → F.LongDouble → FixedBuffer
  unfolding avail add
  put_long_double b v =
      if leb max_numeric_size (avail small_buffer b) then add b (F.print_long v) else b
