-- ===== src/Console/Hidden.antt =====
-- Output to a terminal that is not shown: `putc_terminal` of student-distrib/lib.c writes the saved
-- screen and the saved cursor of the terminal in place of the screen.
use ece391_mp3_illinix.Prelude.{
  ℕ, ◌+◌, ◌-◌, ◌*◌, ◌/◌, ◌%◌, not, ◌&&◌, ◌||◌, [], ◌∷◌, ltb, leb, ◌==◌, if◌then◌else◌, get_or,
}
use ece391_mp3_illinix.Word.{u8}
use ece391_mp3_illinix.Memory.{Mem}
use ece391_mp3_illinix.Console.{TerminalInfo, num_cols, num_rows, attrib, put_cell, scroll}

-- `saved_screen[]`: the 4 kB pages after the video memory.
abbrev pub saved_screen : ℕ → ℕ
saved_screen t = get_or (0xB9000 ∷ 0xBA000 ∷ 0xBB000 ∷ []) t 0

unfoldable pub enter_and_scroll_terminal : Mem → TerminalInfo → ℕ → Mem × TerminalInfo
unfolding scroll
enter_and_scroll_terminal m info t = (
  scroll m (saved_screen t) 3840 (attrib t),
  record info { screen_pos_y = num_rows - 1; screen_pos_x = 0 },
)

unfoldable pub enter_handler_terminal : Mem → TerminalInfo → ℕ → Mem × TerminalInfo
unfolding enter_and_scroll_terminal
enter_handler_terminal m info t =
    let adjust = info.screen_pos_x == 0 && not (info.row_stack_old == 0) in
    let y = info.screen_pos_y in
    let (m₁, info₁) = if leb (num_rows - 1) y then enter_and_scroll_terminal m info t else (
      m,
      record info {
        screen_pos_x = 0;
        screen_pos_y = if leb num_rows y then num_rows else u8 (y + 1);
        row_stack_old = 0;
      },
    ) in
    let y' = if adjust then u8 (info₁.screen_pos_y + 255) else info₁.screen_pos_y in
    (m₁, record info₁ { screen_pos_y = y'; row_stack_old = 0 })

-- `putc_terminal`: past the last column.
unfoldable pub next_line_terminal : Mem → TerminalInfo → ℕ → Mem × TerminalInfo
unfolding scroll
next_line_terminal m info t =
    let row = u8 (info.row_stack_old + 1) in
    let row' = if ltb (num_rows - 1) row then num_rows - 1 else row in
    if ltb info.screen_pos_y (num_rows - 1)
    then (
      m,
      record info {
        row_stack_old = row';
        screen_pos_x = info.screen_pos_x % num_cols;
        screen_pos_y = u8 (info.screen_pos_y + 1);
      },
    )
    else (
      scroll m (saved_screen t) 3680 (attrib t),
      record info { row_stack_old = row'; screen_pos_y = num_rows - 1; screen_pos_x = 0 },
    )

unfoldable pub putc_terminal : Mem → TerminalInfo → ℕ → ℕ → Mem × TerminalInfo
unfolding enter_handler_terminal next_line_terminal
putc_terminal m info c t =
    if c == b'\n' || c == b'\r'
    then enter_handler_terminal m info t
    else (let m₁ =
          put_cell m (saved_screen t) (num_cols * info.screen_pos_y + info.screen_pos_x) c
            (attrib t) in
        let info₁ = record info { screen_pos_x = u8 (info.screen_pos_x + 1) } in
        let (m₂, info₂) =
          if leb num_cols info₁.screen_pos_x then next_line_terminal m₁ info₁ t else (m₁, info₁) in
        (
          m₂,
          record info₂ {
            screen_pos_y = (info₂.screen_pos_y + info₂.screen_pos_x / num_cols) % num_rows;
          },
        ))
