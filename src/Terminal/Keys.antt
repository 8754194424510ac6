-- ===== src/Terminal/Keys.antt =====
-- The line of keys across the switch of student-distrib/terminal.c.
use ece391_mp3_illinix.Console.Paint.{copy_to_screen_buffer}
use ece391_mp3_illinix.Console.{set_cursor_position, video}
use ece391_mp3_illinix.Console.Paint.{clear}
use ece391_mp3_illinix.Terminal.Outside.{strncpy-Outside, clear-Outside, strncpy-copied}
use ece391_mp3_illinix.Terminal.Switch.{show_terminal, terminal_buffer}
use ece391_mp3_illinix.Terminal.{info_at}
use ece391_mp3_illinix.Memory.{Mem}
use ece391_mp3_illinix.Terminal.Shown.{
  TwoTerminals, cleared, keys_saved, put_away, put_away-moved, keys_back, show, final-moved,
}
use ece391_mp3_illinix.Kernel.{Kernel, current_terminal, mem}
use ece391_mp3_illinix.Prelude.{
  ℕ, ◌+◌, ◌≤◌, ◌<◌, ◌≡◌, sym, ap, ◌∙◌, ◌≢◌, ◌⊎◌, false, ◌&&◌, arith, ltb, leb, if_false, inr,
}

-- Two arrays of 128 bytes do not meet.
abbrev pub Apart : ℕ → ℕ → Type 0
Apart p q = (p + 128 ≤ q) ⊎ (q + 128 ≤ p)

abbrev pub old_keys : Kernel → ℕ → ℕ
old_keys k t = (info_at k t).key_arr_old

-- The line shown and the lines kept of the two terminals.
pub record KeysApart (k : Kernel) (b : ℕ) : Type 0 where
  pub line_a : Apart (old_keys k (current_terminal k)) k.screen.key_arr
  pub line_b : Apart (old_keys k b) k.screen.key_arr
  pub a_b : Apart (old_keys k (current_terminal k)) (old_keys k b)

module _ {k : Kernel} {b : ℕ} (w : TwoTerminals k b) (p : KeysApart k b) where
  -- Above the buffers, the switch changes the arrays of keys only.
  above-show : (x : ℕ) → 0xBC000 ≤ x → mem (show_terminal k b) x ≡ keys_back w x
  unfolding copy_to_screen_buffer set_cursor_position clear
  above-show x h =
      ap (λ (k' : Kernel). mem k' x) (show w)
      ∙ ap (λ (m : Mem). m x) (final-moved w)
      ∙ if_false (let f : (leb video x && ltb x (video + 3840)) ≡ false = ground arith in f) _ _

  above-cleared : (x : ℕ) → 0xBC000 ≤ x → (cleared w).mem x ≡ keys_saved w x
  above-cleared x h =
      let a = terminal_buffer (current_terminal k) in
      let f : (leb a x && ltb x (a + 3840)) ≡ false = ground (arith, w.few) in
      clear-Outside (record k.screen { mem = put_away w; current_terminal = b }) x w.other
        (inr (omega arith))
      ∙ ap (λ (m : Mem). m x) (put_away-moved w)
      ∙ if_false f _ _

  -- The line shown goes to the array of its terminal.
  pub keys_noted :
      (j : ℕ)
      → j < 128
      → ((t : ℕ) → t ≤ j → mem k (k.screen.key_arr + t) ≢ 0)
      → mem (show_terminal k b) (old_keys k (current_terminal k) + j) ≡ mem k (k.screen.key_arr + j)
  keys_noted j h nz =
      let a = old_keys k (current_terminal k) in
      above-show (a + j) (omega (arith, w.old_a_above))
      ∙ strncpy-Outside (cleared w).mem k.screen.key_arr (old_keys k b) 128 (a + j) w.keys_fit
          (ground (arith, p.line_a))
      ∙ above-cleared (a + j) (omega (arith, w.old_a_above))
      ∙ strncpy-copied (mem k) a k.screen.key_arr 128 j w.old_a_fits w.keys_fit p.line_a h nz

  -- The line of the other terminal comes from its array.
  pub keys_taken :
      (j : ℕ)
      → j < 128
      → ((t : ℕ) → t ≤ j → mem k (old_keys k b + t) ≢ 0)
      → mem (show_terminal k b) (k.screen.key_arr + j) ≡ mem k (old_keys k b + j)
  keys_taken j h nz =
      let a = old_keys k (current_terminal k) in
      let same = λ (t : ℕ) (l : t < 128).
        above-cleared (old_keys k b + t) (omega (arith, w.old_b_above))
        ∙ strncpy-Outside (mem k) a k.screen.key_arr 128 (old_keys k b + t) w.old_a_fits
            (ground (arith, p.a_b)) in
      above-show (k.screen.key_arr + j) (omega (arith, w.keys_above))
      ∙ strncpy-copied (cleared w).mem k.screen.key_arr (old_keys k b) 128 j w.keys_fit w.old_b_fits
          (ground (arith, p.line_b)) h (λ t l q. nz t l (sym (same t (omega arith)) ∙ q))
      ∙ same j h
