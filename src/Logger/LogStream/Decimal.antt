-- ===== src/Logger/LogStream/Decimal.antt =====
-- `convert` of src/logger/LogStream.cpp writes decimal numbers.
use mathlib.Core.List.{reverse, reverse-cons, reverse-append, append-nil}
use my_network_library.Prelude.{
  ℕ, zero, suc, ◌+◌, ◌-◌, ◌*◌, ◌/◌, ◌%◌, ◌^◌, ◌⊎◌, ◌≤◌, ◌<◌, ◌≡◌, refl, ap, ◌∙◌, inl, inr, Bool,
  true, false, Option, some, [], ◌∷◌, ◌++◌, ◌==◌, leb, leb→le, if◌then◌else◌, length, length-append,
  drop, arith, Bool-cases,
}
use my_network_library.Prelude.Text.{Text, has_byte, has_byte-append}
use my_network_library.Logger.FixedBuffer.{FixedBuffer, small_buffer, avail, add}
use my_network_library.Logger.LogStream.{
  ℤ, pos, negsuc, neg, magnitude, remainder, quotient, digit, is_zero, cons_digit, digit_loop, sign,
  finish, convert, format_integer, max_numeric_size,
}

-- `10 ^ k`
abbrev pub ten : ℕ → ℕ
ten zero = 1
ten (suc k) = 10 * ten k

-- the number that decimal digits stand for, from the left: what `atoi` reads
unfoldable pub atoi : ℕ → Text → ℕ
atoi acc [] = acc
atoi acc (d ∷ ds) = atoi (10 * acc + (d - 48)) ds

abbrev pub starts_minus : Text → Bool
starts_minus [] = false
starts_minus (x ∷ xs) = x == b'-'

-- a sign, and digits
unfoldable pub read_integer : Text → ℤ
unfolding atoi
read_integer t = if starts_minus t then neg (atoi 0 (drop 1 t)) else pos (atoi 0 t)

-- the decimal digits of a number, from its quotient and its remainder by ten
abbrev pub show_nat : ℕ → ℕ → Text
show_nat zero n = []
show_nat (suc k) n = if leb n 9 then (48 + n) ∷ [] else show_nat k (n / 10) ++ (48 + n % 10) ∷ []

-- the decimal text of an integer
abbrev pub decimal : ℤ → Text
decimal (pos n) = show_nat (n + 1) n
decimal (negsuc n) = b'-' ∷ show_nat (n + 2) (suc n)

show-digit : (k m d : ℕ) → d ≡ 48 + m % 10 → m / 10 ≡ 0 → m < k → d ∷ [] ≡ show_nat k m
show-digit zero m d e z h = absurd (omega (arith, h))
show-digit (suc k) m d e z h = ground (arith, e, z)

show-digits :
    (k m d : ℕ) (ds : Text)
    → d ≡ 48 + m % 10
    → 1 ≤ m / 10
    → m < k
    → ((j : ℕ) → m / 10 < j → ds ≡ show_nat j (m / 10))
    → ds ++ d ∷ [] ≡ show_nat k m
show-digits zero m d ds e p h f = absurd (omega (arith, h))
show-digits (suc k) m d ds e p h f = ground (arith, e, p, f k (omega (arith, h, p)))

digit_pos : (k : ℕ) → k < 10 → digit (pos k) ≡ 48 + k
unfolding digit
digit_pos zero h = refl
digit_pos (suc zero) h = refl
digit_pos (suc (suc zero)) h = refl
digit_pos (suc (suc (suc zero))) h = refl
digit_pos (suc (suc (suc (suc zero)))) h = refl
digit_pos (suc (suc (suc (suc (suc zero))))) h = refl
digit_pos (suc (suc (suc (suc (suc (suc zero)))))) h = refl
digit_pos (suc (suc (suc (suc (suc (suc (suc zero))))))) h = refl
digit_pos (suc (suc (suc (suc (suc (suc (suc (suc zero)))))))) h = refl
digit_pos (suc (suc (suc (suc (suc (suc (suc (suc (suc zero))))))))) h = refl
digit_pos (suc (suc (suc (suc (suc (suc (suc (suc (suc (suc k)))))))))) h = absurd (omega arith)

digit-neg : (k : ℕ) → k < 10 → digit (neg k) ≡ 48 + k
unfolding digit
digit-neg zero h = refl
digit-neg (suc zero) h = refl
digit-neg (suc (suc zero)) h = refl
digit-neg (suc (suc (suc zero))) h = refl
digit-neg (suc (suc (suc (suc zero)))) h = refl
digit-neg (suc (suc (suc (suc (suc zero))))) h = refl
digit-neg (suc (suc (suc (suc (suc (suc zero)))))) h = refl
digit-neg (suc (suc (suc (suc (suc (suc (suc zero))))))) h = refl
digit-neg (suc (suc (suc (suc (suc (suc (suc (suc zero)))))))) h = refl
digit-neg (suc (suc (suc (suc (suc (suc (suc (suc (suc zero))))))))) h = refl
digit-neg (suc (suc (suc (suc (suc (suc (suc (suc (suc (suc k)))))))))) h = absurd (omega arith)

digit-remainder : (i : ℤ) → digit (remainder i) ≡ 48 + magnitude i % 10
unfolding remainder
digit-remainder (pos n) = digit_pos (n % 10) (omega arith)
digit-remainder (negsuc n) = digit-neg (suc n % 10) (omega arith)

magnitude-neg : (n : ℕ) → magnitude (neg n) ≡ n
magnitude-neg zero = refl
magnitude-neg (suc n) = refl

magnitude-quotient : (i : ℤ) → magnitude (quotient i) ≡ magnitude i / 10
unfolding quotient
magnitude-quotient (pos n) = refl
magnitude-quotient (negsuc n) = magnitude-neg (suc n / 10)

is_zero-magnitude : (i : ℤ) → is_zero i ≡ (magnitude i == 0)
is_zero-magnitude (pos n) = refl
is_zero-magnitude (negsuc n) = ground arith

-- what the loop has written for `i`
record Written (i : ℤ) (result : Option Text) : Type 0 where
  ds : Text
  ran : result ≡ some ds
  value : atoi 0 (reverse ds) ≡ magnitude i
  plain : (c : ℕ) → c < 48 → has_byte c ds ≡ false
  shown : (k : ℕ) → magnitude i < k → reverse ds ≡ show_nat k (magnitude i)
  short : (k : ℕ) → magnitude i < ten (suc k) → length ds ≤ suc k

atoi-snoc : (acc : ℕ) (ds : Text) (d : ℕ) → atoi acc (ds ++ d ∷ []) ≡ 10 * atoi acc ds + (d - 48)
unfolding atoi
atoi-snoc acc [] d = refl
atoi-snoc acc (x ∷ ds) d = atoi-snoc (10 * acc + (x - 48)) ds d

no_below :
    (c m : ℕ) (ds : Text) → c < 48 → has_byte c ds ≡ false → has_byte c ((48 + m) ∷ ds) ≡ false
unfolding has_byte
no_below c m ds l h = ground arith

last_digit : (i : ℤ) → is_zero (quotient i) ≡ true → Written i (some (digit (remainder i) ∷ []))
last_digit i z = record {
  ds = digit (remainder i) ∷ [];
  ran = refl;
  value =
      unfold atoi in
      (rw (digit-remainder i)
        (ground (arith, z, is_zero-magnitude (quotient i), magnitude-quotient i)));
  plain =
      λ c l. rw (digit-remainder i) (no_below c (magnitude i % 10) [] l (unfold has_byte in refl));
  shown = λ k h.
      show-digit k (magnitude i) (digit (remainder i)) (digit-remainder i)
        (ground (arith, z, is_zero-magnitude (quotient i), magnitude-quotient i)) h;
  short = λ k h. omega arith;
}

cons_bound :
    (k m l : ℕ)
    → m < ten (suc k)
    → 1 ≤ m / 10
    → ((j : ℕ) → m / 10 < ten (suc j) → l ≤ suc j)
    → suc l ≤ suc k
cons_bound zero m l h p f = absurd (omega arith)
cons_bound (suc k) m l h p f = omega (arith, f k (omega arith))

more_digits :
    (i : ℤ) (result : Option Text)
    → is_zero (quotient i) ≡ false
    → Written (quotient i) result
    → Written i (cons_digit (digit (remainder i)) result)
more_digits i result z w = record {
  ds = digit (remainder i) ∷ w.ds;
  ran = rw w.ran;
  value =
      ap (atoi 0) (reverse-cons (digit (remainder i)) w.ds)
      ∙ atoi-snoc 0 (reverse w.ds) (digit (remainder i))
      ∙ omega (arith, w.value, magnitude-quotient i, digit-remainder i);
  plain = λ c l. rw (digit-remainder i) (no_below c (magnitude i % 10) w.ds l (w.plain c l));
  shown = λ k h.
      reverse-cons (digit (remainder i)) w.ds
      ∙ show-digits k (magnitude i) (digit (remainder i)) (reverse w.ds) (digit-remainder i)
          (ground (arith, z, is_zero-magnitude (quotient i), magnitude-quotient i)) h
          (λ j g. w.shown j (rw (magnitude-quotient i) g) ∙ ap (show_nat j) (magnitude-quotient i));
  short = λ k h.
      cons_bound k (magnitude i) (length w.ds) h
        (ground (arith, z, is_zero-magnitude (quotient i), magnitude-quotient i))
        (λ j g. w.short j (rw (magnitude-quotient i) g));
}

digit_loop-Written : (n : ℕ) (i : ℤ) → magnitude i < n → Written i (digit_loop n i)
unfolding digit_loop
digit_loop-Written zero i h = absurd (omega arith)
digit_loop-Written (suc n) i h = elim (Bool-cases (is_zero (quotient i))) [
  | inl z ↦ rw z (last_digit i z)
  | inr z ↦ rw z (
      more_digits i (digit_loop n (quotient i)) z (
        digit_loop-Written n (quotient i)
          (ground (arith, z, is_zero-magnitude (quotient i), magnitude-quotient i))))
]

has_byte-reverse : (c : ℕ) (ds : Text) → has_byte c ds ≡ false → has_byte c (reverse ds) ≡ false
unfolding has_byte
has_byte-reverse c [] h = refl
has_byte-reverse c (d ∷ ds) h =
    ap (has_byte c) (reverse-cons d ds)
    ∙ has_byte-append c (reverse ds) (d ∷ [])
    ∙ ground (arith, has_byte-reverse c ds (ground arith))

starts_minus-none : (t : Text) → has_byte b'-' t ≡ false → starts_minus t ≡ false
unfolding has_byte
starts_minus-none [] h = refl
starts_minus-none (x ∷ t) h = ground arith

length-reverse : (ds : Text) → length (reverse ds) ≡ length ds
length-reverse [] = refl
length-reverse (d ∷ ds) =
    ap length (reverse-cons d ds)
    ∙ length-append (reverse ds) (d ∷ [])
    ∙ omega (arith, length-reverse ds)

-- what `convert` returns
record Converted (v : ℤ) : Type 0 where
  text : Text
  ran : convert v ≡ some text
  value : read_integer text ≡ v
  short : (k : ℕ) → magnitude v < ten (suc k) → length text ≤ suc (suc k)

convert-ds :
    (v : ℤ) (w : Written v (digit_loop (magnitude v + 1) v))
    → convert v ≡ some (reverse (w.ds ++ sign v))
unfolding convert finish
convert-ds v w = ap (finish v) w.ran

text-pos :
    (n : ℕ) (ds : Text)
    → has_byte b'-' ds ≡ false
    → atoi 0 (reverse ds) ≡ n
    → read_integer (reverse ds) ≡ pos n
unfolding read_integer
text-pos n ds h e = rw (starts_minus-none (reverse ds) (has_byte-reverse b'-' ds h), e)

text-neg :
    (n : ℕ) (ds : Text) → atoi 0 (reverse ds) ≡ suc n → read_integer (b'-' ∷ reverse ds) ≡ negsuc n
unfolding read_integer
text-neg n ds e = ap neg e

converted : (v : ℤ) → Converted v
converted (pos n) =
    let w = digit_loop-Written (n + 1) (pos n) (omega arith) in
    record {
      text = reverse w.ds;
      ran = convert-ds (pos n) w ∙ ap (λ t. some (reverse t)) (append-nil w.ds);
      value = text-pos n w.ds (w.plain b'-' (omega arith)) w.value;
      short = λ k h. omega (arith, length-reverse w.ds, w.short k h);
    }
converted (negsuc n) =
    let w = digit_loop-Written (suc n + 1) (negsuc n) (omega arith) in
    record {
      text = b'-' ∷ reverse w.ds;
      ran = convert-ds (negsuc n) w ∙ ap some (reverse-append w.ds (b'-' ∷ []));
      value = text-neg n w.ds w.value;
      short = λ k h. omega (arith, length-reverse w.ds, w.short k h);
    }

-- `convert` returns, for every integer, and reading what it has written gives the integer back.
pub convert-read_integer : (v : ℤ) → (t : Text) × (convert v ≡ some t) × (read_integer t ≡ v)
convert-read_integer v = let c = converted v in (c.text, c.ran, c.value)

-- a number that is not negative is written with digits only
pub convert-pos :
    (n c : ℕ) → c < 48 → (t : Text) × (convert (pos n) ≡ some t) × (has_byte c t ≡ false)
convert-pos n c l =
    let w = digit_loop-Written (n + 1) (pos n) (omega arith) in
    (
      reverse w.ds,
      convert-ds (pos n) w ∙ ap (λ t. some (reverse t)) (append-nil w.ds),
      has_byte-reverse c w.ds (w.plain c l),
    )

-- it writes the decimal text
pub convert-decimal : (v : ℤ) → convert v ≡ some (decimal v)
convert-decimal (pos n) =
    let w = digit_loop-Written (n + 1) (pos n) (omega arith) in
    convert-ds (pos n) w
    ∙ ap (λ t. some (reverse t)) (append-nil w.ds)
    ∙ ap some (w.shown (n + 1) (omega arith))
convert-decimal (negsuc n) =
    let w = digit_loop-Written (suc n + 1) (negsuc n) (omega arith) in
    convert-ds (negsuc n) w
    ∙ ap some (reverse-append w.ds (b'-' ∷ []))
    ∙ ap (λ t. some (b'-' ∷ t)) (w.shown (n + 2) (omega arith))

in_digits : (m : ℕ) → m < 2 ^ 64 → m < ten 20
in_digits m h = omega arith

fits :
    (b : FixedBuffer) (t : Text)
    → length b.data_ ≤ small_buffer
    → leb max_numeric_size (avail small_buffer b) ≡ true
    → length t ≤ 21
    → length (add b t).data_ + 1 ≤ small_buffer
unfolding add avail
fits b t h room short =
    omega (arith, length-append b.data_ t, leb→le 32 (4000 - length b.data_) room)

-- `formatInteger` of an integer of 64 bits writes its digits, and the zero byte that `convert` puts
-- behind them, within the 4000 bytes of the buffer, or leaves a buffer with less than 32 bytes free.
pub format_integer_bounds :
    (b : FixedBuffer) (v : ℤ)
    → length b.data_ ≤ small_buffer
    → magnitude v < 2 ^ 64
    → ((leb max_numeric_size (avail small_buffer b) ≡ false) × (format_integer b v ≡ b))
      ⊎ ((t : Text) × (convert v ≡ some t)
          × (format_integer b v ≡ add b t)
          × (length (add b t).data_ + 1 ≤ small_buffer))
unfolding format_integer
format_integer_bounds b v h m = elim (Bool-cases (leb max_numeric_size (avail small_buffer b))) [
  | inr full ↦ inl (full, rw full)
  | inl room ↦
      let c = converted v in
      inr (
        c.text,
        c.ran,
        rw (room, c.ran),
        fits b c.text h room (omega (arith, c.short 19 (in_digits (magnitude v) m))),
      )
]
