-- ===== src/Print/Digits.antt =====
-- The digits of itoa in student-distrib/lib.c: what the routine leaves in its buffer is the text that
-- `printf` is modelled with, and the digits read back are the number.
use ece391_mp3_illinix.Prelude.{
  ℕ, zero, suc, ◌+◌, ◌-◌, ◌*◌, ◌/◌, ◌%◌, ◌^◌, ◌≤◌, ◌<◌, ◌≡◌, refl, sym, ap, ◌∙◌, subst, ◌≢◌, inl,
  inr, false, some, List, [], ◌∷◌, ◌++◌, arith, ℕ_discrete, leb, ◌==◌, if◌then◌else◌, Bool-cases,
  length, ◌>>=◌, if_false,
}
use ece391_mp3_illinix.Word.{u32}
use ece391_mp3_illinix.Prelude.Reverse.{reverse_onto}
use ece391_mp3_illinix.Memory.{Mem, store8}
use ece391_mp3_illinix.Memory.Bytes.{put}
use ece391_mp3_illinix.Text.{itoa_digits, itoa, digit_char, max_digits, strrev}
use ece391_mp3_illinix.Text.Itoa.{
  lows, itoa_digits_lem, remainder-lt, length-lows, lows-ne-zero, written, strrev-written,
  quotient-lt,
}
use ece391_mp3_illinix.Print.{digits_from, digits}

digits_from-lows :
    (fuel value radix : ℕ) (acc : List ℕ)
    → digits_from fuel value radix acc ≡ reverse_onto (lows fuel value radix) acc
unfolding digits_from lows
digits_from-lows zero value radix acc = refl
digits_from-lows (suc fuel) value radix acc = elim (Bool-cases (value == 0)) [
  | inl e ↦ rw e refl
  | inr e ↦ rw e (digits_from-lows fuel (value / radix) radix (digit_char (value % radix) ∷ acc))
]

reverse_onto-append : (xs acc ys : List ℕ) → reverse_onto xs (acc ++ ys) ≡ reverse_onto xs acc ++ ys
reverse_onto-append [] acc ys = refl
reverse_onto-append (x ∷ xs) acc ys = reverse_onto-append xs (x ∷ acc) ys

length-lows-suc :
    (fuel value radix : ℕ)
    → value ≢ 0
    → length (lows (suc fuel) value radix) ≡ suc (length (lows fuel (value / radix) radix))
unfolding lows
length-lows-suc fuel value radix ne = let e : (value == 0) ≡ false = ground arith in rw e refl

module _ (m : Mem) (value buf radix : ℕ) (radix_two : 2 ≤ radix) (top : radix ≤ 36)
    (word : value < 2 ^ 32) (fits : buf + 34 < 2 ^ 32) where
  itoa_positive :
      value ≢ 0
      → (itoa_digits max_digits m buf value radix >>= λ r. strrev (store8 r.0 r.1 0) buf)
        ≡ some (put m buf (digits_from max_digits value radix [] ++ 0 ∷ []))
  unfolding written
  itoa_positive ne =
      let ds = lows max_digits value radix in
      let n = length (lows 32 (value / radix) radix) in
      let size : length ds ≡ suc n = length-lows-suc 32 value radix ne in
      let few = length-lows 32 (value / radix) radix in
      let loop = itoa_digits_lem 32 m buf value radix radix_two top word (omega arith) in
      let turn : strrev (store8 (put m buf ds) (u32 (buf + length ds)) 0) buf
          ≡ some (put m buf (reverse_onto ds (0 ∷ []))) =
        strrev-written m buf ds size (omega arith) (omega arith)
          (λ i h. lows-ne-zero max_digits value radix i radix_two top h) in
      ap (λ o. o >>= λ r. strrev (store8 r.0 r.1 0) buf) loop
      ∙ turn
      ∙ ap (λ cs. some (put m buf cs))
          (reverse_onto-append ds [] (0 ∷ [])
            ∙ ap (λ cs. cs ++ 0 ∷ []) (sym (digits_from-lows max_digits value radix [])))

itoa_of_positive :
    (m : Mem) (value buf radix : ℕ)
    → (value == 0) ≡ false
    → itoa m value buf radix
      ≡ (itoa_digits max_digits m buf value radix >>= λ r. strrev (store8 r.0 r.1 0) buf)
unfolding itoa
itoa_of_positive m value buf radix t = if_false t _ _

digits_positive :
    (value radix : ℕ) → value ≢ 0 → digits value radix ≡ digits_from max_digits value radix []
unfolding digits
digits_positive value radix ne = let t : (value == 0) ≡ false = ground arith in if_false t _ _

-- For every uint32_t and every radix from 2 to 36, `itoa` returns, and leaves in its buffer the digits
-- that `digits` lists, highest first, and a NUL; it changes no other byte.
pub itoa-digits :
    (m : Mem) (value buf radix : ℕ)
    → 2 ≤ radix
    → radix ≤ 36
    → value < 2 ^ 32
    → buf + 34 < 2 ^ 32
    → itoa m value buf radix ≡ some (put m buf (digits value radix ++ 0 ∷ []))
itoa-digits m value buf radix hr top hv hb = elim (ℕ_discrete value 0) [
  | yes e ↦
      subst (λ v. itoa m v buf radix ≡ some (put m buf (digits v radix ++ 0 ∷ []))) (sym e)
        (unfold itoa in unfold digits in unfold put in refl)
  | no ne ↦
      let t : (value == 0) ≡ false = ground arith in
      itoa_of_positive m value buf radix t
      ∙ itoa_positive m value buf radix hr top hv hb ne
      ∙ ap (λ ds. some (put m buf (ds ++ 0 ∷ []))) (sym (digits_positive value radix ne))
]

-- The number that a digit stands for.
abbrev pub digit_value : ℕ → ℕ
digit_value c = if leb c b'9' then c - b'0' else c - b'A' + 10

-- The number that digits stand for, after those that stand for `acc`.
unfoldable pub read_digits : ℕ → ℕ → List ℕ → ℕ
read_digits radix acc [] = acc
read_digits radix acc (c ∷ cs) = read_digits radix (acc * radix + digit_value c) cs

digit_value-digit_char : (i : ℕ) → i < 36 → digit_value (digit_char i) ≡ i
digit_value-digit_char i h = ground arith

div_mod : (v r : ℕ) → v / r * r + v % r ≡ v
div_mod v r = grind arith

read_digits_from :
    (fuel value radix : ℕ) (acc : List ℕ)
    → 2 ≤ radix
    → radix ≤ 36
    → value < 2 ^ fuel
    → read_digits radix 0 (digits_from (suc fuel) value radix acc) ≡ read_digits radix value acc
unfolding digits_from read_digits
read_digits_from fuel zero radix acc h2 h36 hv = refl
read_digits_from zero (suc v) radix acc h2 h36 hv = absurd (omega arith)
read_digits_from (suc fuel) (suc v) radix acc h2 h36 hv =
    let more : (suc v == 0) ≡ false = ground arith in
    let double : 2 ^ suc fuel ≡ 2 * 2 ^ fuel = omega arith in
    let c = digit_char (suc v % radix) in
    rw more (
      read_digits_from fuel (suc v / radix) radix (c ∷ acc) h2 h36
        (quotient-lt (suc v) radix (2 ^ fuel) h2 (omega (arith, double)))
      ∙ ap (λ d. read_digits radix (suc v / radix * radix + d) acc)
          (digit_value-digit_char (suc v % radix) (remainder-lt (suc v) radix h2 h36))
      ∙ ap (λ d. read_digits radix d acc) (div_mod (suc v) radix))

zero_read : (radix : ℕ) → read_digits radix 0 (digits 0 radix) ≡ 0
unfolding digits read_digits
zero_read radix = omega arith

-- The digits of a uint32_t in a radix from 2 to 36, read in that radix, give the number back.
pub read_digits-digits :
    (value radix : ℕ)
    → 2 ≤ radix
    → radix ≤ 36
    → value < 2 ^ 32
    → read_digits radix 0 (digits value radix) ≡ value
unfolding read_digits
read_digits-digits value radix h2 h36 hv = elim (ℕ_discrete value 0) [
  | yes e ↦ subst (λ v. read_digits radix 0 (digits v radix) ≡ v) (sym e) (zero_read radix)
  | no ne ↦
      ap (read_digits radix 0) (digits_positive value radix ne)
      ∙ read_digits_from 32 value radix [] h2 h36 hv
]

-- For every uint32_t and every radix from 2 to 36, and a buffer that starts more than 34 bytes before
-- the end of memory, `itoa` returns, and leaves in its buffer the digits that `digits` lists, highest
-- first, and a NUL; it changes no other byte; and the digits, read in that radix, give the number
-- back.
pub itoa-read_digits :
    (m : Mem) (value buf radix : ℕ)
    → 2 ≤ radix
    → radix ≤ 36
    → value < 2 ^ 32
    → buf + 34 < 2 ^ 32
    → (itoa m value buf radix ≡ some (put m buf (digits value radix ++ 0 ∷ [])))
      × (read_digits radix 0 (digits value radix) ≡ value)
itoa-read_digits m value buf radix h2 h36 hv hb =
    (itoa-digits m value buf radix h2 h36 hv hb, read_digits-digits value radix h2 h36 hv)
