-- ===== src/Rtc/Rate.antt =====
-- Which rates `rtc_set_freq` of student-distrib/rtc.c accepts.
use ece391_mp3_illinix.Prelude.{
  ℕ, ◌/◌, ◌%◌, ◌^◌, ◌<◌, ◌≡◌, refl, ap, ◌≢◌, Bool, true, false, not, ◌||◌, Option, none, some,
  arith, dec_lt, ℕ_discrete, ◌==◌, if◌then◌else◌, set, every_below, every_below_use, same,
  same_sound,
}
use ece391_mp3_illinix.Word.{minus_one, is_neg, slt, sdiv, smod}
use ece391_mp3_illinix.Rtc.{
  Rtc, SetFreq, returned, divide_error, at_terminal, halve, rtc_set_freq, max_halvings,
}

-- The powers of two from 2 to 1024.
unfoldable pub is_rate : ℕ → Bool
is_rate f =
    f == 2
    || f == 4
    || f == 8
    || f == 16
    || f == 32
    || f == 64
    || f == 128
    || f == 256
    || f == 512
    || f == 1024

-- What the driver should do: take a rate, refuse another number, and fault at 0.
unfoldable pub expected : Rtc → ℕ → ℕ → SetFreq
unfolding is_rate
expected rtc t f =
    if f == 0
    then divide_error
    else if is_rate f
    then returned 0 (set rtc t (record (at_terminal rtc t) { constant = 1024 / f }))
    else returned minus_one rtc

-- At an even number up to 1024 the loop ends, and finds a power of two or 0.
is_result : Option Bool → Bool → Bool
is_result none b = false
is_result (some a) b = same a b

is_result_sound : (o : Option Bool) (b : Bool) → is_result o b ≡ true → o ≡ some b
unfolding is_result
is_result_sound none b h = cc
is_result_sound (some a) b h = ap some (same_sound a b h)

agrees : ℕ → Bool
unfolding halve is_rate is_result
agrees f =
    if f % 2 == 0
    then is_result (halve max_halvings f) (f == 0 || is_rate f)
    else not (f == 0 || is_rate f)

table : every_below 1025 agrees ≡ true
unfolding every_below agrees
table = refl

halve-even : (f : ℕ) → f < 1025 → f % 2 ≡ 0 → halve max_halvings f ≡ some (f == 0 || is_rate f)
halve-even f h e = is_result_sound _ _ checked
  where
    checked : is_result (halve max_halvings f) (f == 0 || is_rate f) ≡ true
    checked =
        let a = every_below_use 1025 agrees f table h in
        let e' : (f % 2 == 0) ≡ true = ground arith in unfold agrees in rw e' at a

odd-is_rate : (f : ℕ) → f < 1025 → f % 2 ≢ 0 → (f == 0 || is_rate f) ≡ false
odd-is_rate f h e =
    let a : agrees f ≡ true = every_below_use 1025 agrees f table h in
    let e' : (f % 2 == 0) ≡ false = ground arith in negated _ (unfold agrees in rw e' at a)
  where
    negated : (b : Bool) → not b ≡ true → b ≡ false
    negated true h = cc
    negated false h = refl

pub rtc_set_freq-expected :
    (rtc : Rtc) (t freq : ℕ) → freq < 2 ^ 32 → rtc_set_freq rtc t freq ≡ some (expected rtc t freq)
unfolding rtc_set_freq expected
rtc_set_freq-expected rtc t freq h = elim (dec_lt freq 1025) [
  | no big ↦
      let refused : (is_neg freq || slt 1024 freq || not (smod freq 2 == 0)) ≡ true =
        ground arith in
      let no_rate : is_rate freq ≡ false = unfold is_rate in ground arith in
      let nonzero : (freq == 0) ≡ false = ground arith in rw (refused, no_rate, nonzero)
  | yes small ↦ elim (ℕ_discrete (freq % 2) 0) [
    | yes even ↦
        let taken : (is_neg freq || slt 1024 freq || not (smod freq 2 == 0)) ≡ false =
          ground arith in
        let rest = halve-even freq small even in
        let quotient : sdiv 1024 freq ≡ 1024 / freq = refl in rw (taken, rest) (ground arith)
    | no odd ↦
        let refused : (is_neg freq || slt 1024 freq || not (smod freq 2 == 0)) ≡ true =
          ground arith in
        rw refused (ground (arith, odd-is_rate freq small odd))
  ]
]
