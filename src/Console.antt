-- ===== src/Console.antt =====
-- The text screen and the line of keys of student-distrib/lib.c: the globals `screen_x` to
-- `key_arr_overflow` and the functions that move the cursor and draw. The functions for a terminal
-- that is not shown are in the child `Hidden`.
pub mod Hidden
pub mod Paint
pub mod Bounds
pub mod Scroll
pub mod Mirror
pub mod Keys
pub mod Frame
pub mod View
pub mod Steps
use Prim.Native.String.{String}
use ece391_mp3_illinix.Prelude.{
  ℕ, zero, suc, ◌+◌, ◌-◌, ◌*◌, ◌/◌, ◌%◌, ◌^◌, ◌≤◌, ◌<◌, min, max, ◌≡◌, refl, sym, ap, ap₂, ◌∙◌,
  fun_ext, subst, ◌≡⟨◌⟩◌, ◌∎, ◌≢◌, ◌↔◌, ◌⊎◌, inl, inr, Bool, true, false, not, ◌&&◌, ◌||◌, Option,
  none, some, List, [], ◌∷◌, ◌++◌, map, arith, dec_lt, dec_le, ℕ_discrete, ltb, leb, ◌==◌,
  if◌then◌else◌, Bool-cases, Option-cases, length, get_elem?, set, get_or, take, drop, replicate,
  length-set, ◌>>=◌, ==_iff,
}
use ece391_mp3_illinix.Word.{u8, u16, u32, sub32, minus_one, is_neg, slt, sle, sdiv, smod, sext8}
use ece391_mp3_illinix.Memory.{Mem, store8, memcpy}
use ece391_mp3_illinix.Text.{at}

abbrev pub video : ℕ
video = 0xB8000

abbrev pub num_cols : ℕ
num_cols = 80

abbrev pub num_rows : ℕ
num_rows = 24

abbrev pub key_arr_size : ℕ
key_arr_size = 128

-- `attrib[]`, the colours of the three terminals.
abbrev pub attrib : ℕ → ℕ
attrib t = get_or (0xCE ∷ 0x8A ∷ 0x9A ∷ []) t 0

-- `terminal_t` of types.h; the two arrays by their addresses.
pub record TerminalInfo : Type 0 where
  pub screen_pos_x : ℕ
  pub screen_pos_y : ℕ
  pub key_arr_ptr_old : ℕ
  pub key_arr_overflow_old : ℕ
  pub row_stack_old : ℕ
  pub column_stack_old : ℕ
  pub key_arr_old : ℕ
  pub screen_buffer : ℕ

-- The globals of the screen. `ports` lists the bytes sent, the last one first, each behind its port.
pub record Screen : Type 0 where
  pub screen_x : ℕ
  pub screen_y : ℕ
  pub row_stack : ℕ
  pub column_stack : ℕ
  pub mem : Mem
  pub key_arr : ℕ
  pub key_arr_ptr : ℕ
  pub key_arr_overflow : ℕ
  pub current_terminal : ℕ
  pub ports : List (ℕ × ℕ)

-- The character and the attribute of a cell of the screen at `base`.
abbrev pub put_cell : Mem → ℕ → ℕ → ℕ → ℕ → Mem
put_cell m base cell c attribute =
    store8 (store8 m (u32 (base + 2 * cell)) c) (u32 (base + 2 * cell + 1)) attribute

-- The loop that blanks a row, with `k` cells left.
unfoldable pub blank_from : Mem → ℕ → ℕ → ℕ → ℕ → Mem
blank_from m base cell attribute zero = m
blank_from m base cell attribute (suc k) =
    blank_from (put_cell m base cell b' ' attribute) base (cell + 1) attribute k

-- Rows `1` to the last move up by `memcpy` of `n` bytes, and the last row is blanked.
unfoldable pub scroll : Mem → ℕ → ℕ → ℕ → Mem
unfolding blank_from
scroll m base n attribute =
    blank_from (memcpy m base (u32 (base + 160)) n) base (num_cols * 23) attribute num_cols

unfoldable pub cursor_helper : Screen → Screen
cursor_helper s =
    let pos = u16 (s.screen_y * num_cols + s.screen_x) in
    record s {
      ports = (0x3D5, pos / 2 ^ 8) ∷ (0x3D4, 0x0E) ∷ (0x3D5, u8 pos) ∷ (0x3D4, 0x0F) ∷ s.ports;
    }

-- `set_cursor_position(x_, y_)`.
unfoldable pub set_cursor_position : Screen → ℕ → ℕ → Screen
unfolding cursor_helper
set_cursor_position s x' y' =
    let y'' = if sle num_rows y' then num_rows else y' in
    record (cursor_helper (record s { screen_x = x'; screen_y = y'' })) { row_stack = 0 }

unfoldable pub enter_and_scroll : Screen → Screen
unfolding scroll cursor_helper
enter_and_scroll s = cursor_helper (record s {
  mem = scroll s.mem video 3840 (attrib s.current_terminal);
  screen_y = num_rows - 1;
  screen_x = 0;
})

unfoldable pub enter_handler : Screen → Screen
unfolding enter_and_scroll set_cursor_position cursor_helper
enter_handler s =
    let adjust = s.screen_x == 0 && not (s.row_stack == 0) in
    let s₁ =
      if sle (num_rows - 1) s.screen_y
      then enter_and_scroll s
      else set_cursor_position s 0 (u32 (s.screen_y + 1)) in
    let s₂ = if adjust then cursor_helper (record s₁ { screen_y = sub32 s₁.screen_y 1 }) else s₁ in
    record s₂ { row_stack = 0 }

-- `putc`: the character and its attribute, and `screen_x++`.
abbrev pub draw : Screen → ℕ → Screen
draw s c = record s {
  mem =
      put_cell s.mem video (u32 (num_cols * s.screen_y + s.screen_x)) c (attrib s.current_terminal);
  screen_x = u32 (s.screen_x + 1);
}

-- `putc`: past the last column.
unfoldable pub next_line : Screen → Screen
unfolding scroll
next_line s =
    let row = u32 (s.row_stack + 1) in
    let row' = if slt (num_rows - 1) row then num_rows - 1 else row in
    if slt s.screen_y (num_rows - 1)
    then record s {
      row_stack = row';
      screen_x = smod s.screen_x num_cols;
      screen_y = u32 (s.screen_y + 1);
    }
    else record s {
      row_stack = row';
      mem = scroll s.mem video 3680 (attrib s.current_terminal);
      screen_y = num_rows - 1;
      screen_x = 0;
    }

unfoldable pub putc : Screen → ℕ → Screen
unfolding enter_handler next_line cursor_helper
putc s c =
    if c == b'\n' || c == b'\r'
    then cursor_helper (enter_handler s)
    else (let s₁ = draw s c in
        let s₂ = if sle num_cols s₁.screen_x then next_line s₁ else s₁ in
        cursor_helper
          (record s₂ { screen_y = smod (u32 (s₂.screen_y + sdiv s₂.screen_x num_cols)) num_rows }))

unfoldable pub key_arr_push : Screen → ℕ → Screen
key_arr_push s elem =
    if ltb s.key_arr_ptr (key_arr_size - 1)
    then record s {
      mem = store8 s.mem (u32 (s.key_arr + s.key_arr_ptr)) elem;
      key_arr_ptr = u8 (s.key_arr_ptr + 1);
    }
    else record s { key_arr_overflow = u8 (s.key_arr_overflow + 1) }

unfoldable pub key_arr_pop : Screen → Screen
key_arr_pop s =
    if s.key_arr_overflow == 0
    then (if s.key_arr_ptr == 0 then s else record s { key_arr_ptr = s.key_arr_ptr - 1 })
    else record s { key_arr_overflow = s.key_arr_overflow - 1 }

-- The loop of `key_arr_clear`, with `k` bytes left.
unfoldable pub zero_keys : Mem → ℕ → ℕ → ℕ → Mem
zero_keys m key_arr i zero = m
zero_keys m key_arr i (suc k) = zero_keys (store8 m (u32 (key_arr + i)) 0) key_arr (i + 1) k

unfoldable pub key_arr_clear : Screen → Screen
unfolding zero_keys
key_arr_clear s = record s {
  key_arr_ptr = 0;
  key_arr_overflow = 0;
  mem = zero_keys s.mem s.key_arr 0 (key_arr_size + 1);
}

-- `backspace_handler`: the cell left of the cursor, which may be the end of the row above.
abbrev pub blank_cell : Screen → Screen
blank_cell s = record s {
  mem =
      put_cell s.mem video (u32 (num_cols * s.screen_y + s.screen_x)) b' '
        (attrib s.current_terminal);
}

unfoldable pub backspace_handler : Screen → Screen
unfolding key_arr_pop cursor_helper
backspace_handler s =
    if s.screen_x == s.column_stack && s.row_stack == 0
    then s
    else if s.screen_x == 0 && not (s.row_stack == 0)
    then (let s₁ =
          blank_cell (record s { screen_x = num_cols - 1; screen_y = sub32 s.screen_y 1 }) in
        cursor_helper (key_arr_pop (record s₁ { row_stack = sub32 s₁.row_stack 1 })))
    else cursor_helper (key_arr_pop (blank_cell (record s { screen_x = sub32 s.screen_x 1 })))

unfoldable pub set_column_stack : Screen → Screen
set_column_stack s = record s { column_stack = s.screen_x }
