-- ===== src/Rtc/Virtual.antt =====
-- The virtual clock of a terminal in student-distrib/rtc.c: one interrupt for every `constant` of
-- the chip's.
use ece391_mp3_illinix.Prelude.{
  ℕ, zero, suc, ◌+◌, ◌^◌, ◌≤◌, ◌<◌, ◌≡◌, refl, ap, ◌∙◌, ◌≢◌, true, some, [], ◌∷◌, arith, dec_lt,
  ℕ_discrete, ◌==◌, length, set,
}
use ece391_mp3_illinix.Rtc.{Rtc, Channel, tick, rtc_handler, rtc_read, at_terminal}

-- `n` interrupts of the chip.
unfoldable pub ticks : ℕ → Channel → Channel
unfolding tick
ticks zero ch = ch
ticks (suc n) ch = tick (ticks n ch)

counting :
    (n : ℕ) (ch : Channel)
    → ch.counter ≡ 0
    → n < ch.constant
    → ch.constant < 2 ^ 31
    → ticks n ch ≡ record ch { counter = n }
unfolding ticks
counting zero ch z h small = ground (arith, z)
counting (suc n) ch z h small = rw (counting n ch z (omega arith) small) (ground arith)

-- From a counter at 0, the flag of a terminal is not touched for fewer than `constant` interrupts of
-- the chip, and `constant` of them set it and start the count again.
pub ticks_period :
    (ch : Channel)
    → ch.counter ≡ 0
    → 0 < ch.constant
    → ch.constant < 2 ^ 31
    → ((n : ℕ) → n < ch.constant → (ticks n ch).itr_occur ≡ ch.itr_occur)
      × (ticks ch.constant ch ≡ record ch { counter = 0; itr_occur = 1 })
ticks_period ch z pos small = (λ n h. rw (counting n ch z h small), one_period ch.constant refl)
  where
    one_period : (n : ℕ) → n ≡ ch.constant → ticks n ch ≡ record ch { counter = 0; itr_occur = 1 }
    one_period zero e = absurd (omega arith)
    one_period (suc n) e =
        unfold ticks in rw (counting n ch z (omega arith) small) (unfold tick in ground arith)

tick-itr_occur : (ch : Channel) → ch.itr_occur ≡ 1 → (tick ch).itr_occur ≡ 1
unfolding tick
tick-itr_occur ch h = ground arith

at_terminal-rtc_handler :
    (rtc : Rtc) (t : ℕ)
    → t < length rtc
    → at_terminal (rtc_handler rtc) t ≡ tick (at_terminal rtc t)
unfolding rtc_handler
at_terminal-rtc_handler [] t h = absurd (omega arith)
at_terminal-rtc_handler (ch ∷ rtc) zero h = refl
at_terminal-rtc_handler (ch ∷ rtc) (suc t) h =
    unfold rtc_handler in at_terminal-rtc_handler rtc t (omega arith)

length-rtc_handler : (rtc : Rtc) → length (rtc_handler rtc) ≡ length rtc
unfolding rtc_handler
length-rtc_handler [] = refl
length-rtc_handler (ch ∷ rtc) = ap suc (unfold rtc_handler in length-rtc_handler rtc)

rtc_read-ready :
    (n : ℕ) (rtc : Rtc) (t : ℕ)
    → (at_terminal rtc t).itr_occur ≢ 0
    → (rtc' : Rtc) × (rtc_read n rtc t ≡ some (0, rtc'))
unfolding rtc_read
rtc_read-ready zero rtc t h =
    (set rtc t (record (at_terminal rtc t) { itr_occur = 0 }), ground arith)
rtc_read-ready (suc n) rtc t h =
    (set rtc t (record (at_terminal rtc t) { itr_occur = 0 }), ground arith)

-- An interrupt that does not complete the period, and one that does.
tick_before :
    (ch : Channel)
    → ch.counter + 1 < ch.constant
    → ch.constant < 2 ^ 31
    → tick ch ≡ record ch { counter = ch.counter + 1 }
unfolding tick
tick_before ch h small = ground arith

tick_last :
    (ch : Channel)
    → ch.counter < ch.constant
    → ch.constant ≤ ch.counter + 1
    → ch.constant < 2 ^ 31
    → tick ch ≡ record ch { counter = 0; itr_occur = 1 }
unfolding tick
tick_last ch h last small = ground arith

-- `rtc_read` returns 0 once the chip has interrupted as often as the terminal still waits for.
pub rtc_read_returns :
    (n : ℕ) (rtc : Rtc) (t : ℕ)
    → t < length rtc
    → (at_terminal rtc t).constant < 2 ^ 31
    → (at_terminal rtc t).counter < (at_terminal rtc t).constant
    → (at_terminal rtc t).constant ≤ (at_terminal rtc t).counter + n
    → (rtc' : Rtc) × (rtc_read n rtc t ≡ some (0, rtc'))
unfolding rtc_read
rtc_read_returns zero rtc t ht hs hc hn = absurd (omega arith)
rtc_read_returns (suc n) rtc t ht hs hc hn = elim (ℕ_discrete (at_terminal rtc t).itr_occur 0) [
  | no set_already ↦ rtc_read-ready (suc n) rtc t set_already
  | yes waiting ↦
      let e : ((at_terminal rtc t).itr_occur == 0) ≡ true = ground arith in
      let ch = at_terminal rtc t in
      let next = at_terminal-rtc_handler rtc t ht in
      rw e (elim (dec_lt (ch.counter + 1) ch.constant) [
        | yes before ↦
            let f : at_terminal (rtc_handler rtc) t ≡ record ch { counter = ch.counter + 1 } =
              next ∙ tick_before ch before hs in
            rtc_read_returns n (rtc_handler rtc) t (omega (arith, length-rtc_handler rtc)) (rw f hs)
              (rw f before) (rw f (omega arith))
        | no last ↦
            let f : at_terminal (rtc_handler rtc) t ≡ record ch { counter = 0; itr_occur = 1 } =
              next ∙ tick_last ch hc (omega arith) hs in
            rtc_read-ready n (rtc_handler rtc) t (rw f (omega arith))
      ])
]
