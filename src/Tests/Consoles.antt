-- ===== src/Tests/Consoles.antt =====
-- The console theorems at concrete screens.
use ece391_mp3_illinix.Console.Steps.{
  reach-InBounds, after, here, puts, pushes, forgets, InBounds, Kept,
}
use ece391_mp3_illinix.Prelude.{◌+◌, ◌*◌, ◌≡◌, refl, [], ◌∷◌, arith}
use ece391_mp3_illinix.Word.{minus_one}
use ece391_mp3_illinix.Memory.{Mem, memcpy}
use ece391_mp3_illinix.Console.{
  Screen, TerminalInfo, putc, enter_handler, backspace_handler, key_arr_push, key_arr_clear,
}
use ece391_mp3_illinix.Console.Hidden.{putc_terminal}
use ece391_mp3_illinix.Console.Bounds.{OnScreen, putc-OnScreen, backspace_handler-enter_handler}
use ece391_mp3_illinix.Console.Mirror.{Mirrors, putc_terminal-putc}
use ece391_mp3_illinix.Console.Keys.{Holds, edited_list, edited, pushes, pops, edited-Holds}

abbrev zeros : Mem
zeros a = 0

-- Behind the prompt, at the last column of the last row.
abbrev corner : Screen
corner = record {
  screen_x = 79;
  screen_y = 23;
  row_stack = 1;
  column_stack = 7;
  mem = zeros;
  key_arr = 0x400000;
  key_arr_ptr = 0;
  key_arr_overflow = 0;
  current_terminal = 1;
  ports = [];
}

abbrev saved_corner : TerminalInfo
saved_corner = record {
  screen_pos_x = 79;
  screen_pos_y = 23;
  key_arr_ptr_old = 0;
  key_arr_overflow_old = 0;
  row_stack_old = 1;
  column_stack_old = 7;
  key_arr_old = 0x400100;
  screen_buffer = 0xBA000;
}

corner-OnScreen : OnScreen corner
corner-OnScreen = omega arith

corner-Mirrors : Mirrors corner zeros saved_corner 1
corner-Mirrors = record {
  x = refl;
  y = refl;
  row_stack = refl;
  shown = refl;
  picture = λ i h. refl;
}

corner-Holds : Holds corner []
corner-Holds = record {
  fits = omega arith;
  kept = refl;
  over = refl;
  counted = omega arith;
  bytes = λ i h. elim h [ ];
}

-- The character drawn last goes up a row with the scroll.
scrolled : (putc corner b'x').mem (0xB8000 + 2 * (22 * 80 + 79)) ≡ b'x'
unfolding putc memcpy
scrolled = refl

putc-OnScreen_example : OnScreen (putc corner b'x')
putc-OnScreen_example = putc-OnScreen b'x' corner-OnScreen

corner-InBounds : InBounds corner
corner-InBounds = record { screen = corner-OnScreen; keys = omega arith; fits = omega arith }

abbrev typed : Screen
typed = key_arr_push (putc corner b'x') b'x'

reach-InBounds_example : InBounds (key_arr_clear typed) × Kept corner (key_arr_clear typed)
reach-InBounds_example =
    reach-InBounds (after (after (after here (puts b'x')) (pushes b'x')) forgets) corner-InBounds

backspace_handler-enter_handler_example :
    (backspace_handler (enter_handler corner)).screen_x ≡ minus_one
backspace_handler-enter_handler_example =
    backspace_handler-enter_handler corner-OnScreen (omega arith)

putc_terminal-putc_example :
    Mirrors
      (putc corner b'x')
      (putc_terminal zeros saved_corner b'x' 1).0
      (putc_terminal zeros saved_corner b'x' 1).1
      1
putc_terminal-putc_example = putc_terminal-putc corner-OnScreen corner-Mirrors b'x'

edited-Holds_example : Holds (edited corner (pushes b'l' ∷ pushes b's' ∷ pops ∷ [])) (b'l' ∷ [])
unfolding edited_list
edited-Holds_example =
    edited-Holds corner [] (pushes b'l' ∷ pushes b's' ∷ pops ∷ []) corner-Holds (omega arith)
