-- ===== src/Rtc.antt =====
-- The real-time clock of student-distrib/rtc.c, shared by three terminals: each has its own rate,
-- counter and flag. The chip's own port traffic, which acknowledges the interrupt, is left out.
pub mod Rate
pub mod Virtual
use ece391_mp3_illinix.Prelude.{
  ℕ, zero, suc, ◌+◌, ◌-◌, ◌*◌, ◌/◌, ◌%◌, ◌^◌, ◌≤◌, ◌<◌, min, max, ◌≡◌, refl, sym, ap, ap₂, ◌∙◌,
  fun_ext, subst, ◌≡⟨◌⟩◌, ◌∎, ◌≢◌, ◌↔◌, ◌⊎◌, inl, inr, Bool, true, false, not, ◌&&◌, ◌||◌, Option,
  none, some, List, [], ◌∷◌, ◌++◌, map, arith, dec_lt, dec_le, ℕ_discrete, ltb, leb, ◌==◌,
  if◌then◌else◌, Bool-cases, Option-cases, length, get_elem?, set, get_or, take, drop, replicate,
  length-set, ◌>>=◌, ==_iff,
}
use ece391_mp3_illinix.Word.{u8, u16, u32, sub32, minus_one, is_neg, slt, sle, sdiv, smod, sext8}

-- One place of `itr_occur_table`, `counter_table` and `constant_arr`.
pub record Channel : Type 0 where
  pub itr_occur : ℕ
  pub counter : ℕ
  pub constant : ℕ

-- The three tables, by terminal.
abbrev pub Rtc : Type 0
Rtc = List Channel

-- What `rtc_set_freq` does: it returns, or the processor faults on a division by zero.
pub data SetFreq : Type 0 where
  returned : ℕ → Rtc → SetFreq
  divide_error : SetFreq

-- The loop of `rtc_set_freq`: whether only factors of two are met on the way down to 1.
unfoldable pub halve : ℕ → ℕ → Option Bool
halve zero freq = none
halve (suc fuel) freq =
    let rest = halve fuel (sdiv freq 2) in
    if slt 1 freq then (if smod freq 2 == 0 then rest else some false) else some true

abbrev pub at_terminal : Rtc → ℕ → Channel
at_terminal rtc t = get_or rtc t (record { itr_occur = 0; counter = 0; constant = 0 })

-- Eleven halvings bring 1024 to 0.
abbrev pub max_halvings : ℕ
max_halvings = 11

unfoldable pub rtc_set_freq : Rtc → ℕ → ℕ → Option SetFreq
unfolding halve
rtc_set_freq rtc running_terminal freq =
    let ch = at_terminal rtc running_terminal in
    let done = halve max_halvings freq >>= λ even. some (
      if even
      then (if freq == 0
          then divide_error
          else returned 0 (set rtc running_terminal (record ch { constant = sdiv 1024 freq })))
      else returned minus_one rtc) in
    if is_neg freq || slt 1024 freq || not (smod freq 2 == 0)
    then some (returned minus_one rtc)
    else done

-- The body of the loop of `rtc_handler`.
unfoldable pub tick : Channel → Channel
tick ch =
    let ch₁ = record ch { counter = u32 (ch.counter + 1) } in
    if sle ch₁.constant ch₁.counter then record ch₁ { counter = 0; itr_occur = 1 } else ch₁

unfoldable pub rtc_handler : Rtc → Rtc
unfolding tick
rtc_handler rtc = map tick rtc

-- `rtc_read` waits for the flag: `ticks` interrupts come while it does, and `none` means that it
-- still waits after them.
unfoldable pub rtc_read : ℕ → Rtc → ℕ → Option (ℕ × Rtc)
unfolding rtc_handler
rtc_read zero rtc running_terminal =
    let ch = at_terminal rtc running_terminal in
    if ch.itr_occur == 0
    then none
    else some (0, set rtc running_terminal (record ch { itr_occur = 0 }))
rtc_read (suc ticks) rtc running_terminal =
    let ch = at_terminal rtc running_terminal in
    let later = rtc_read ticks (rtc_handler rtc) running_terminal in
    if ch.itr_occur == 0
    then later
    else some (0, set rtc running_terminal (record ch { itr_occur = 0 }))

-- `freq` is the word that `buf` points to.
unfoldable pub rtc_write : Rtc → ℕ → ℕ → ℕ → ℕ → Option SetFreq
unfolding rtc_set_freq
rtc_write rtc running_terminal buf freq nbytes =
    if not (nbytes == 4) || buf == 0
    then some (returned minus_one rtc)
    else rtc_set_freq rtc running_terminal freq

-- `rtc_open` sets 2 Hz and returns 0 whatever comes of it.
unfoldable pub rtc_open : Rtc → ℕ → Option SetFreq
unfolding rtc_set_freq
rtc_open rtc running_terminal = rtc_set_freq rtc running_terminal 2 >>= λ r.
    some (elim r [ returned _ rtc' ↦ returned 0 rtc' | divide_error ↦ divide_error ])

unfoldable pub rtc_close : ℕ → ℕ
rtc_close fd = 0
