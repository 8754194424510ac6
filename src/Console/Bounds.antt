-- ===== src/Console/Bounds.antt =====
-- The cursor of student-distrib/lib.c stays on the screen.
use ece391_mp3_illinix.Prelude.{ℕ, ◌≤◌, ◌<◌, ◌≡◌, ◌≢◌, ◌⊎◌, arith}
use ece391_mp3_illinix.Word.{minus_one}
use ece391_mp3_illinix.Console.{Screen, enter_handler, putc, backspace_handler}

-- The cursor is on one of the 24 rows of 80 columns, and no more rows can be taken back by
-- backspace than lie above it.
pub record OnScreen (s : Screen) : Type 0 where
  pub column : s.screen_x < 80
  pub row : s.screen_y < 24
  pub above : s.row_stack ≤ s.screen_y
  pub terminal : s.current_terminal < 3

pub enter_handler-OnScreen : {s : Screen} → OnScreen s → OnScreen (enter_handler s)
unfolding enter_handler
enter_handler-OnScreen v = ground arith

-- Every character that `putc` draws leaves the cursor on the screen.
pub putc-OnScreen : {s : Screen} (c : ℕ) → OnScreen s → OnScreen (putc s c)
unfolding putc
putc-OnScreen c v = ground arith

-- Backspace keeps the cursor on the screen where it has a row to take back, or the column that it
-- may go back to is not right of the cursor.
pub backspace_handler-OnScreen :
    {s : Screen}
    → OnScreen s
    → (s.row_stack ≢ 0) ⊎ (s.column_stack ≤ s.screen_x)
    → OnScreen (backspace_handler s)
unfolding backspace_handler
backspace_handler-OnScreen v h = ground arith

enter_handler-origin :
    {s : Screen}
    → OnScreen s
    → ((enter_handler s).screen_x ≡ 0)
      × ((enter_handler s).row_stack ≡ 0)
      × ((enter_handler s).column_stack ≡ s.column_stack)
unfolding enter_handler
enter_handler-origin v = ground arith

-- Enter does not move the column that backspace stops at: if that column was not the first, a
-- backspace right after Enter takes the cursor off the left edge, to column -1.
pub backspace_handler-enter_handler :
    {s : Screen}
    → OnScreen s
    → s.column_stack ≢ 0
    → (backspace_handler (enter_handler s)).screen_x ≡ minus_one
unfolding backspace_handler
backspace_handler-enter_handler {s} v h = ground (arith, enter_handler-origin v)
