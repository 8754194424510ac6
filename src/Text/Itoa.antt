-- ===== src/Text/Itoa.antt =====
-- itoa of student-distrib/lib.c writes the digits of a number, highest first.
use ece391_mp3_illinix.Prelude.Reverse.{reverse_onto, get_or-reverse_onto, length-reverse_onto}
use ece391_mp3_illinix.Prelude.{
  ℕ, zero, suc, ◌+◌, ◌-◌, ◌*◌, ◌/◌, ◌%◌, ◌^◌, ◌≤◌, ◌<◌, ◌≡◌, refl, sym, ap, ◌∙◌, fun_ext, ◌≢◌, inl,
  inr, true, false, some, List, [], ◌∷◌, arith, ◌==◌, if◌then◌else◌, Bool-cases, length, get_or,
}
use ece391_mp3_illinix.Word.{u32}
use ece391_mp3_illinix.Memory.{Mem, store8}
use ece391_mp3_illinix.Memory.Bytes.{put, put_at}
use ece391_mp3_illinix.Text.{at, itoa_digits, digit_char, no_digit, strrev}
use ece391_mp3_illinix.Text.Length.{CString}
use ece391_mp3_illinix.Text.Reverse.{turned, strrev-turned}

-- The digits of a number, lowest first, from `fuel` rounds.
unfoldable pub lows : ℕ → ℕ → ℕ → List ℕ
lows zero value radix = []
lows (suc fuel) value radix =
    let rest = digit_char (value % radix) ∷ lows fuel (value / radix) radix in
    if value == 0 then [] else rest

pub quotient-lt : (v r k : ℕ) → 2 ≤ r → v < 2 * k → v / r < k
quotient-lt v r k hr hv = grind arith

pub remainder-lt : (v r : ℕ) → 2 ≤ r → r ≤ 36 → v % r < 36
remainder-lt v r h2 h36 = grind arith

-- A radix from 2 to 36 always has a digit.
no_digit_lem : (v r : ℕ) → 2 ≤ r → r ≤ 36 → no_digit v r ≡ false
no_digit_lem v r h2 h36 = ground (arith, remainder-lt v r h2 h36)

-- The loop ends once the rounds left reach beyond the bits of the value, and leaves the digits.
pub itoa_digits_lem :
    (fuel : ℕ) (m : Mem) (p value radix : ℕ)
    → 2 ≤ radix
    → radix ≤ 36
    → value < 2 ^ fuel
    → p < 2 ^ 32
    → itoa_digits (suc fuel) m p value radix
      ≡ some (put m p (lows (suc fuel) value radix), u32 (p + length (lows (suc fuel) value radix)))
unfolding itoa_digits lows put
itoa_digits_lem fuel m p zero radix hr top hv hp = ap (λ q. some (m, q)) (omega arith)
itoa_digits_lem zero m p (suc v) radix hr top hv hp = absurd (omega arith)
itoa_digits_lem (suc fuel) m p (suc v) radix hr top hv hp =
    let c = digit_char (suc v % radix) in
    let ds = lows (suc fuel) (suc v / radix) radix in
    let double : 2 ^ suc fuel ≡ 2 * 2 ^ fuel = omega arith in
    let more : (suc v == 0) ≡ false = ground arith in
    let digit : no_digit (suc v) radix ≡ false = no_digit_lem (suc v) radix hr top in
    rw (more, digit)
      (itoa_digits_lem fuel (store8 m p c) (u32 (p + 1)) (suc v / radix) radix hr top
          (quotient-lt (suc v) radix (2 ^ fuel) hr (omega (arith, double))) (omega arith)
        ∙ ap (λ q. some (put (store8 m p c) (u32 (p + 1)) ds, q)) (omega arith))

pub length-lows : (fuel value radix : ℕ) → length (lows fuel value radix) ≤ fuel
unfolding lows
length-lows zero value radix = omega arith
length-lows (suc fuel) value radix = ground (arith, length-lows fuel (value / radix) radix)

digit_or :
    {c : ℕ} (ds : List ℕ) (i : ℕ)
    → c ≢ 0
    → ((j : ℕ) → j < length ds → get_or ds j 0 ≢ 0)
    → i < length (c ∷ ds)
    → get_or (c ∷ ds) i 0 ≢ 0
digit_or ds zero hc hds h = hc
digit_or ds (suc i) hc hds h = hds i (omega arith)

-- No digit is a NUL.
pub lows-ne-zero :
    (fuel value radix i : ℕ)
    → 2 ≤ radix
    → radix ≤ 36
    → i < length (lows fuel value radix)
    → get_or (lows fuel value radix) i 0 ≢ 0
unfolding lows
lows-ne-zero zero value radix i two top h = absurd (omega arith)
lows-ne-zero (suc fuel) value radix i two top h = elim (Bool-cases (value == 0)) [
  | inl e ↦ absurd (ends e h)
  | inr e ↦ rw e (
      digit_or _ i (ground (arith, remainder-lt value radix two top))
        (λ j. lows-ne-zero fuel (value / radix) radix j two top) (rw e at h))
]
  where
    ends :
        (value == 0) ≡ true
        → i
          < length (
              if value == 0
              then []
              else digit_char (value % radix) ∷ lows fuel (value / radix) radix)
        → ⊥
    ends e h = let h' : i < 0 = rw e at h in omega arith

zero_tail : (k : ℕ) → get_or {A = ℕ} (0 ∷ []) k 0 ≡ 0
zero_tail zero = refl
zero_tail (suc k) = refl

-- The digits in the buffer with the NUL behind them, once the loop has ended.
module _ (m : Mem) (p : ℕ) (ds : List ℕ) {n : ℕ} (size : length ds ≡ suc n)
    (fits : p + n + 2 < 2 ^ 32) (small : n + 1 < 2 ^ 31)
    (nonzero : (i : ℕ) → i < length ds → get_or ds i 0 ≢ 0) where
  unfoldable pub written : Mem
  written = store8 (put m p ds) (u32 (p + length ds)) 0

  written-at : (i : ℕ) → i < length ds → at written p i ≡ get_or ds i 0
  unfolding written
  written-at i h =
      let e : u32 (p + i) ≡ p + i = omega (arith, size) in
      let z : p + i - p ≡ i = omega arith in
      let w = put_at m p ds (p + i) (omega (arith, size)) in rw e (ground (arith, w, z))

  written-CString : CString written p (suc n)
  unfolding written
  written-CString = record {
    short = omega arith;
    nul = rw (← size) (ground arith);
    no_nul = λ i h.
        let h' : i < length ds = omega (arith, size) in
        λ z. nonzero i h' (sym (written-at i h') ∙ z);
  }

  turned-written : (a : ℕ) → turned written p 0 n a ≡ put m p (reverse_onto ds (0 ∷ [])) a
  unfolding written
  turned-written a =
      let b = p + 0 + (p + n) - a in
      let len = length-reverse_onto ds (0 ∷ []) in
      let fit : p + length (reverse_onto ds (0 ∷ [])) < 2 ^ 32 = omega (arith, size, len) in
      ground (
        arith,
        size,
        len,
        put_at m p ds b (omega (arith, size)),
        put_at m p ds a (omega (arith, size)),
        put_at m p (reverse_onto ds (0 ∷ [])) a fit,
        get_or-reverse_onto ds (0 ∷ []) (a - p) 0,
        zero_tail (a - p - length ds),
      )

  pub strrev-written : strrev written p ≡ some (put m p (reverse_onto ds (0 ∷ [])))
  strrev-written =
      strrev-turned written p n written-CString (omega arith) small
      ∙ ap some (fun_ext turned-written)
