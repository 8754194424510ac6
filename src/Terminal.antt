-- ===== src/Terminal.antt =====
-- The terminal driver of student-distrib/terminal.c.
pub mod Switch
pub mod Output
pub mod Outside
pub mod Shown
pub mod Keys
pub mod Back
use ece391_mp3_illinix.Prelude.{
  ℕ, zero, suc, ◌+◌, min, not, ◌&&◌, Option, none, some, [], ◌∷◌, ltb, leb, ◌==◌, if◌then◌else◌,
  set, get_or, ◌>>=◌,
}
use ece391_mp3_illinix.Word.{u8, u32, minus_one, is_neg}
use ece391_mp3_illinix.Memory.{Mem, store8}
use ece391_mp3_illinix.Text.{at, strncpy, codes}
use ece391_mp3_illinix.Console.{
  Screen, TerminalInfo, putc, set_column_stack, key_arr_clear, set_cursor_position,
}
use ece391_mp3_illinix.Console.Hidden.{putc_terminal}
use ece391_mp3_illinix.Console.Paint.{copy_from_screen_buffer, copy_to_screen_buffer}
use ece391_mp3_illinix.Print.{word, printf}
use ece391_mp3_illinix.Kernel.{
  Kernel, mem, with_mem, current_terminal, get_curr_pcb, get_terminal_id, max_terminal_num,
}

unfoldable pub terminal_open : ℕ → ℕ
terminal_open filename = 0

unfoldable pub terminal_close : ℕ → ℕ
terminal_close fd = 0

-- The loop of `terminal_read` that copies the keys, with `rest` keys still allowed: the place after
-- the last byte.
unfoldable pub copy_keys : Mem → ℕ → ℕ → ℕ → ℕ → Mem × ℕ
copy_keys m buf keys i zero = (m, i)
copy_keys m buf keys i (suc rest) =
    copy_keys (store8 m (u32 (buf + i)) (at m keys i)) buf keys (i + 1) rest

-- `terminal_read`; `none` is a reader that still waits for Enter in its terminal. `nbytes` is an
-- int32_t, and no key is copied where it is negative.
unfoldable pub terminal_read : Kernel → ℕ → ℕ → ℕ → Option (ℕ × Kernel)
unfolding copy_keys
terminal_read k fd buf nbytes =
    let tid = get_terminal_id k (k.pcbs (get_curr_pcb k)).pid in
    let done = printf k.screen (codes "current tid: %d\n") (word tid ∷ []) >>= λ p.
    (let s = p.1 in
      let count = if is_neg nbytes then 0 else min s.key_arr_ptr nbytes in
      let (m, i) = copy_keys s.mem buf s.key_arr 0 count in
      let s₁ = key_arr_clear (record s { mem = store8 m (u32 (buf + i)) 0 }) in
      some (i, record k { screen = s₁; enter_state = 0 })) in
    if not (k.enter_state == 0) && tid == current_terminal k then done else none

-- The loops of `terminal_write`, on the bytes of the buffer from `i` on.
unfoldable pub write_shown : Screen → ℕ → ℕ → ℕ → Screen
write_shown s buf i zero = s
write_shown s buf i (suc rest) =
    write_shown (set_column_stack (putc s (at s.mem buf i))) buf (i + 1) rest

unfoldable pub write_hidden : Mem → TerminalInfo → ℕ → ℕ → ℕ → ℕ → Mem × TerminalInfo
write_hidden m info tid buf i zero = (m, info)
write_hidden m info tid buf i (suc rest) =
    let (m', info') = putc_terminal m info (at m buf i) tid in
    write_hidden m' info' tid buf (i + 1) rest

abbrev pub no_info : TerminalInfo
no_info = record {
  screen_pos_x = 0;
  screen_pos_y = 0;
  key_arr_ptr_old = 0;
  key_arr_overflow_old = 0;
  row_stack_old = 0;
  column_stack_old = 0;
  key_arr_old = 0;
  screen_buffer = 0;
}

abbrev pub info_at : Kernel → ℕ → TerminalInfo
info_at k t = get_or k.terminal_info t no_info

unfoldable pub terminal_write : Kernel → ℕ → ℕ → ℕ → ℕ × Kernel
unfolding write_shown write_hidden
terminal_write k fd buf nbytes =
    let tid = get_terminal_id k (k.pcbs (get_curr_pcb k)).pid in
    let count = if is_neg nbytes then 0 else nbytes in
    if tid == current_terminal k
    then (count, record k { screen = write_shown k.screen buf 0 count })
    else if leb max_terminal_num tid
    then (minus_one, k)
    else (let (m, info) = write_hidden (mem k) (info_at k tid) tid buf 0 count in
        let info' = record info { column_stack_old = info.screen_pos_x } in
        (count, record (with_mem k m) { terminal_info = set k.terminal_info tid info' }))

-- The fields of `terminal_t` are uint8_t.
unfoldable pub save_terminal_info : Kernel → ℕ → ℕ × Kernel
save_terminal_info k terminal_id =
    let s = k.screen in
    let old = info_at k terminal_id in
    let info = record old {
      screen_pos_x = u8 s.screen_x;
      screen_pos_y = u8 s.screen_y;
      key_arr_ptr_old = s.key_arr_ptr;
      key_arr_overflow_old = s.key_arr_overflow;
      row_stack_old = u8 s.row_stack;
      column_stack_old = u8 s.column_stack;
    } in
    let m = strncpy s.mem old.key_arr_old s.key_arr 128 in
    if leb max_terminal_num terminal_id then (minus_one, k) else (
      0,
      record k {
        screen = copy_from_screen_buffer (record s { mem = m }) old.screen_buffer;
        terminal_info = set k.terminal_info terminal_id info;
      },
    )

-- The test is `terminal_id > MAX_TERMINAL_NUM`.
unfoldable pub restore_terminal_info : Kernel → ℕ → ℕ × Kernel
restore_terminal_info k terminal_id =
    let info = info_at k terminal_id in
    let s = set_cursor_position k.screen info.screen_pos_x info.screen_pos_y in
    let s₁ = record s {
      key_arr_ptr = info.key_arr_ptr_old;
      key_arr_overflow = info.key_arr_overflow_old;
      row_stack = info.row_stack_old;
      column_stack = info.column_stack_old;
      mem = strncpy s.mem s.key_arr info.key_arr_old 128;
    } in
    if ltb max_terminal_num terminal_id
    then (minus_one, k)
    else (0, record k { screen = copy_to_screen_buffer s₁ info.screen_buffer })

unfoldable pub is_running : Kernel → ℕ → ℕ
is_running k terminal_id =
    if ltb max_terminal_num terminal_id
    then 0x3F
    else if get_or k.terminal_running terminal_id 0 == 1
    then 1
    else 0
