-- ===== src/Print.antt =====
-- Formatted output of student-distrib/lib.c: `puts`, `printf` and `print_width`. The text that a
-- call sends to `putc` is a list; the digits are those that `itoa` leaves in its buffer.
pub mod Digits
use ece391_mp3_illinix.Prelude.{
  ℕ, zero, suc, ◌-◌, ◌/◌, ◌%◌, Bool, true, false, Option, none, some, List, [], ◌∷◌, ◌++◌, ltb,
  ◌==◌, if◌then◌else◌, length, take, replicate, ◌>>=◌,
}
use ece391_mp3_illinix.Word.{u8, sub32, is_neg}
use mathlib.Core.List.{foldl}
use ece391_mp3_illinix.Text.{digit_char, max_digits}
use ece391_mp3_illinix.Console.{Screen, putc}

-- `itoa(value, buf, radix)`: the digits of a uint32_t, highest first.
pub digits_from : ℕ → ℕ → ℕ → List ℕ → List ℕ
digits_from zero value radix acc = acc
digits_from (suc fuel) value radix acc =
    let rest = digits_from fuel (value / radix) radix (digit_char (value % radix) ∷ acc) in
    if value == 0 then acc else rest

unfoldable pub digits : ℕ → ℕ → List ℕ
unfolding digits_from
digits value radix = if value == 0 then b'0' ∷ [] else digits_from max_digits value radix []

-- An argument of `printf`: a word, or the text that it points to.
pub data Arg : Type 0 where
  word : ℕ → Arg
  text : List ℕ → Arg

abbrev pub word_of : Arg → ℕ
word_of (word n) = n
word_of (text s) = 0

abbrev pub text_of : Arg → List ℕ
text_of (word n) = []
text_of (text s) = s

-- `*esp` and `esp++`.
abbrev pub first_arg : List Arg → Arg
first_arg [] = word 0
first_arg (a ∷ args) = a

abbrev pub other_args : List Arg → List Arg
other_args [] = []
other_args (a ∷ args) = args

-- One conversion: its text, and whether it takes an argument.
unfoldable pub conversion : ℕ → Bool → Arg → List ℕ × Bool
unfolding digits
conversion c alternate a =
    let n = word_of a in
    let hex = digits n 16 in
    if c == b'%'
    then (b'%' ∷ [], false)
    else if c == b'x'
    then ((if alternate then replicate (8 - length hex) b'0' ++ hex else hex), true)
    else if c == b'u'
    then (digits n 10, true)
    else if c == b'd'
    then ((if is_neg n then b'-' ∷ digits (sub32 0 n) 10 else digits n 10), true)
    else if c == b'c'
    then (u8 n ∷ [], true)
    else if c == b's'
    then (text_of a, true)
    else ([], false)

-- The loop of `printf` and its inner loop over `#`. `none`: the format ends inside a conversion, and
-- the code reads past its end.
mutual
  unfolding conversion

  pub format : List ℕ → List Arg → Option (List ℕ)
  format [] args = some []
  format (c ∷ cs) args =
      let plain = format cs args >>= λ out. some (c ∷ out) in
      let directive = format_conversion cs false args in if c == b'%' then directive else plain

  pub format_conversion : List ℕ → Bool → List Arg → Option (List ℕ)
  format_conversion [] alternate args = none
  format_conversion (c ∷ cs) alternate args =
      let r = conversion c alternate (first_arg args) in
      let again = format_conversion cs true args in
      let rest = format cs (if r.1 then other_args args else args) >>= λ out. some (r.0 ++ out) in
      if c == b'#' then again else rest

-- `puts`, which returns how many characters it wrote.
unfoldable pub puts : Screen → List ℕ → ℕ × Screen
puts s str = (length str, foldl putc s str)

-- `printf`, which returns the length of its format.
unfoldable pub printf : Screen → List ℕ → List Arg → Option (ℕ × Screen)
unfolding format format_conversion
printf s fmt args = format fmt args >>= λ out. some (length fmt, foldl putc s out)

-- `print_width`: right-aligned in `width` columns, or the first `width` characters.
unfoldable pub print_width : Screen → List ℕ → ℕ → ℕ × Screen
unfolding puts
print_width s str width =
    if ltb width (length str)
    then (length str - width, (puts s (take width str)).1)
    else (0, (puts s (replicate (width - length str) b' ' ++ str)).1)
