-- ===== src/Tests/Terminals.antt =====
-- The switch to the third terminal and back.
use ece391_mp3_illinix.Terminal.Keys.{KeysApart}
use ece391_mp3_illinix.Console.Keys.{Holds}
use ece391_mp3_illinix.Terminal.Back.{switch_to_terminal-back}
use ece391_mp3_illinix.Console.View.{SameView}
use ece391_mp3_illinix.Terminal.Switch.{terminal_buffer, switch_to_terminal, returned}
use ece391_mp3_illinix.Console.{TerminalInfo}
use ece391_mp3_illinix.Terminal.Shown.{TwoTerminals}
use ece391_mp3_illinix.Kernel.{Kernel, current_terminal}
use ece391_mp3_illinix.Console.Bounds.{OnScreen}
use ece391_mp3_illinix.Tests.Calls.{kernel}
use ece391_mp3_illinix.Prelude.{
  ℕ, ◌+◌, ◌*◌, ◌≡◌, refl, some, [], ◌∷◌, arith, ◌==◌, if◌then◌else◌, replicate,
}

abbrev saved_at : ℕ → TerminalInfo
saved_at i = record {
  screen_pos_x = 7;
  screen_pos_y = 1;
  key_arr_ptr_old = 0;
  key_arr_overflow_old = 0;
  row_stack_old = 0;
  column_stack_old = 7;
  key_arr_old = 0x410000 + 0x100 * i;
  screen_buffer = terminal_buffer i;
}

-- The key `l` was typed.
abbrev three_shells : Kernel
three_shells = record (kernel 2 0) {
  screen = record (kernel 2 0).screen {
    mem = λ a. if a == 0x400000 then b'l' else 0;
    key_arr_ptr = 1;
  };
  terminal_info = saved_at 0 ∷ saved_at 1 ∷ saved_at 2 ∷ [];
  terminal_running = replicate 3 1;
}

three_shells-TwoTerminals : TwoTerminals three_shells 2
three_shells-TwoTerminals = record {
  few = omega arith;
  other = omega arith;
  apart = omega arith;
  all_info = refl;
  buffer_a = refl;
  buffer_b = refl;
  keys_above = omega arith;
  keys_fit = omega arith;
  old_a_above = omega arith;
  old_a_fits = omega arith;
  old_b_above = omega arith;
  old_b_fits = omega arith;
}

three_shells-OnScreen : OnScreen three_shells.screen
three_shells-OnScreen = omega arith

three_shells-KeysApart : KeysApart three_shells 2
three_shells-KeysApart = record { line_a = ground arith; line_b = ground arith; a_b = ground arith }

one_key-Holds : Holds three_shells.screen (b'l' ∷ [])
one_key-Holds = record {
  fits = omega arith;
  kept = refl;
  over = refl;
  counted = omega arith;
  bytes = λ i h. let e : i ≡ 0 = omega arith in rw e refl;
}

switch_to_terminal-back_example :
    (k₁ : Kernel) × (k₂ : Kernel) × (switch_to_terminal three_shells 2 ≡ some (returned 0 k₁))
    × (switch_to_terminal k₁ (current_terminal three_shells) ≡ some (returned 0 k₂))
    × SameView three_shells.screen k₂.screen
    × (k₂.screen.column_stack ≡ three_shells.screen.column_stack)
    × Holds k₂.screen (b'l' ∷ [])
switch_to_terminal-back_example =
    switch_to_terminal-back three_shells 2 (b'l' ∷ []) three_shells-TwoTerminals
      three_shells-KeysApart three_shells-OnScreen one_key-Holds
      (λ i h. let e : i ≡ 0 = omega arith in rw e (omega arith)) (omega arith) (omega arith)
      (omega arith)
