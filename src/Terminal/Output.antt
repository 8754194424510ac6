-- ===== src/Terminal/Output.antt =====
-- What `terminal_write` of student-distrib/terminal.c shows in the terminal on the screen.
use ece391_mp3_illinix.Console.Frame.{KeptOff, putc-KeptOff}
use ece391_mp3_illinix.Console.Bounds.{OnScreen, putc-OnScreen}
use ece391_mp3_illinix.Console.View.{shown_text, SameView, OnScreen-SameView, putc-SameView}
use ece391_mp3_illinix.Memory.{Mem}
use ece391_mp3_illinix.Console.{video, Screen, set_column_stack, putc}
use ece391_mp3_illinix.Terminal.{write_shown, at}
use ece391_mp3_illinix.Prelude.{
  ℕ, zero, suc, ◌+◌, ◌^◌, ◌≤◌, ◌<◌, ◌≡◌, refl, sym, ap, ◌∙◌, subst, ◌⊎◌, List, [], ◌∷◌, arith, same,
}

-- The bytes at `p`.
unfoldable pub text_at : Mem → ℕ → ℕ → List ℕ
text_at m p zero = []
text_at m p (suc n) = m p ∷ text_at m (p + 1) n

-- `n` bytes that do not lie in the rows of the screen.
pub record OffScreen (p n : ℕ) : Type 0 where
  pub fits : p + n < 2 ^ 32
  pub apart : (p + n ≤ video) ⊎ (video + 3840 ≤ p)

set_column_stack-SameView : (s s' : Screen) → SameView s s' → SameView s (set_column_stack s')
unfolding set_column_stack
set_column_stack-SameView s s' w = record {
  same_x = w.same_x;
  same_y = w.same_y;
  same_stack = w.same_stack;
  same_terminal = w.same_terminal;
  same_rows = w.same_rows;
}

-- The loop draws the bytes of the buffer, and changes no memory but the rows of the screen.
pub write_shown-text_at :
    (rest : ℕ) (m : Mem) (s₀ s : Screen) (buf i : ℕ)
    → OffScreen buf (i + rest)
    → ((j : ℕ) → j < rest → s.mem (buf + i + j) ≡ m (buf + i + j))
    → OnScreen s₀
    → SameView s₀ s
    → SameView (shown_text s₀ (text_at m (buf + i) rest)) (write_shown s buf i rest)
      × OnScreen (write_shown s buf i rest)
      × KeptOff s.mem (write_shown s buf i rest).mem
unfolding write_shown shown_text text_at set_column_stack
write_shown-text_at zero m s₀ s buf i off same v w = (w, OnScreen-SameView v w, λ a o. refl)
write_shown-text_at (suc rest) m s₀ s buf i off same v w =
    let c = m (buf + i) in
    let v' = OnScreen-SameView v w in
    let e : at s.mem buf i ≡ c =
      ap s.mem (omega (arith, off.fits)) ∙ same 0 (omega arith) ∙ ap m (omega arith) in
    let s₁ = set_column_stack (putc s c) in
    let kept = putc-KeptOff s v' c in
    let ih =
      write_shown-text_at rest m (putc s₀ c) s₁ buf (i + 1)
        (record { fits = omega (arith, off.fits); apart = ground (arith, off.apart) })
        (λ j h.
          kept (buf + (i + 1) + j) (ground (arith, off.apart))
          ∙ ap s.mem (omega arith)
          ∙ same (j + 1) (omega arith)
          ∙ ap m (omega arith))
        (putc-OnScreen c v)
        (set_column_stack-SameView (putc s₀ c) (putc s c) (putc-SameView v w c)) in
    let p : buf + (i + 1) ≡ buf + i + 1 = omega arith in
    subst
      (λ c'.
        let s' = write_shown (set_column_stack (putc s c')) buf (i + 1) rest in
        SameView (shown_text (putc s₀ c) (text_at m (buf + i + 1) rest)) s'
        × OnScreen s'
        × KeptOff s.mem s'.mem)
      (sym e)
      (
        subst
            (λ q.
              SameView (shown_text (putc s₀ c) (text_at m q rest))
                (write_shown s₁ buf (i + 1) rest))
            p ih.0,
        ih.1,
        λ a o. ih.2 a o ∙ kept a o,
      )
