-- ===== src/Console/Frame.antt =====
-- What `putc` of student-distrib/lib.c leaves alone: all memory but the 24 rows of the screen.
use ece391_mp3_illinix.Memory.Block.{memcpy-moved}
use ece391_mp3_illinix.Console.Mirror.{drawn, mem-enter_handler, mem-putc}
use ece391_mp3_illinix.Console.Bounds.{OnScreen}
use ece391_mp3_illinix.Memory.{Mem, moved}
use ece391_mp3_illinix.Console.{
  scroll, blank_from, Screen, video, put_cell, memcpy, enter_handler, putc, attrib, cursor_helper,
}
use ece391_mp3_illinix.Prelude.{
  ℕ, zero, suc, ◌+◌, ◌*◌, ◌≤◌, ◌<◌, ◌≡◌, refl, sym, ap, ◌∙◌, subst, ◌⊎◌, inl, inr, Bool, true,
  false, ◌&&◌, ◌||◌, arith, leb, ◌==◌, if◌then◌else◌, Bool-cases, if_true,
}
use ece391_mp3_illinix.Word.{u32}

-- Two memories that differ in the 24 rows of the screen at most.
abbrev pub KeptOff : Mem → Mem → Type 0
KeptOff m m' = (a : ℕ) → (a < video) ⊎ (video + 3840 ≤ a) → m' a ≡ m a

put_cell-KeptOff :
    (m : Mem) (cell c attribute : ℕ) → cell < 1920 → KeptOff m (put_cell m video cell c attribute)
put_cell-KeptOff m cell c attribute h a o = ground arith

blank_from-KeptOff :
    (m : Mem) (cell attribute k : ℕ)
    → cell + k ≤ 1920
    → KeptOff m (blank_from m video cell attribute k)
unfolding blank_from
blank_from-KeptOff m cell attribute zero h a o = refl
blank_from-KeptOff m cell attribute (suc k) h a o =
    blank_from-KeptOff (put_cell m video cell b' ' attribute) (cell + 1) attribute k (omega arith) a
      o
    ∙ put_cell-KeptOff m cell b' ' attribute (omega arith) a o

scroll-KeptOff : (m : Mem) (n attribute : ℕ) → n ≤ 3840 → KeptOff m (scroll m video n attribute)
unfolding scroll
scroll-KeptOff m n attribute h a o =
    let c : memcpy m video (video + 160) n ≡ moved m video (video + 160) n =
      memcpy-moved m video (video + 160) n (ground arith) in
    blank_from-KeptOff (memcpy m video (u32 (video + 160)) n) 1840 attribute 80 (omega arith) a o
    ∙ ap (λ (x : Mem). x a) c
    ∙ ground arith

if-KeptOff : (m x y : Mem) (b : Bool) → KeptOff m x → KeptOff m y → KeptOff m (if b then x else y)
if-KeptOff m x y true hx hy = hx
if-KeptOff m x y false hx hy = hy

pub putc-newline :
    (s : Screen) (c : ℕ)
    → (c == b'\n' || c == b'\r') ≡ true
    → putc s c ≡ cursor_helper (enter_handler s)
unfolding putc
putc-newline s c h = if_true h _ _

module _ (s : Screen) (v : OnScreen s) where
  pub enter_handler-KeptOff : KeptOff s.mem (enter_handler s).mem
  enter_handler-KeptOff = subst (KeptOff s.mem) (sym (mem-enter_handler s v)) (
      if-KeptOff s.mem _ _ (leb 23 s.screen_y)
        (scroll-KeptOff s.mem 3840 (attrib s.current_terminal) (omega arith)) (λ a o. refl))

  drawn-KeptOff : (c : ℕ) → KeptOff s.mem (drawn s v c)
  unfolding drawn
  drawn-KeptOff c =
      put_cell-KeptOff s.mem (80 * s.screen_y + s.screen_x) c (attrib s.current_terminal)
        (omega (arith, v.row, v.column))

  printed-KeptOff : (c : ℕ) → (c == b'\n' || c == b'\r') ≡ false → KeptOff s.mem (putc s c).mem
  printed-KeptOff c h = subst (KeptOff s.mem) (sym (mem-putc s v c h)) (
      if-KeptOff s.mem _ _ (leb 79 s.screen_x && leb 23 s.screen_y)
        (λ a o.
          scroll-KeptOff (drawn s v c) 3680 (attrib s.current_terminal) (omega arith) a o
          ∙ drawn-KeptOff c a o)
        (drawn-KeptOff c))

  newline-KeptOff : (c : ℕ) → (c == b'\n' || c == b'\r') ≡ true → KeptOff s.mem (putc s c).mem
  unfolding cursor_helper
  newline-KeptOff c h =
      subst (λ (s' : Screen). KeptOff s.mem s'.mem) (sym (putc-newline s c h)) enter_handler-KeptOff

  pub putc-KeptOff : (c : ℕ) → KeptOff s.mem (putc s c).mem
  putc-KeptOff c = elim (Bool-cases (c == b'\n' || c == b'\r')) [
    | inl e ↦ newline-KeptOff c e
    | inr e ↦ printed-KeptOff c e
  ]
