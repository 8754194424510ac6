-- ===== src/Console/Paint.antt =====
-- The functions of student-distrib/lib.c that paint the whole screen or copy it.
use ece391_mp3_illinix.Text.{codes}
use ece391_mp3_illinix.Prelude.{ℕ, zero, suc, ◌+◌, ◌-◌, ◌*◌, List, [], ◌∷◌, get_or}
use ece391_mp3_illinix.Word.{u8}
use ece391_mp3_illinix.Memory.{Mem, store8, memcpy}
use ece391_mp3_illinix.Console.{Screen, video, num_cols, num_rows, attrib, put_cell}

-- `bartext`.
abbrev pub bartext : List ℕ
bartext = codes "             TERMINAL 1            TERMINAL 2            TERMINAL 3             "

-- `ATTRIB_BAR`, `ATTRIB_HIG` and `high[]`.
abbrev pub attrib_bar : ℕ
attrib_bar = 0xF0

abbrev pub attrib_high : ℕ
attrib_high = 0xFD

abbrev pub high : ℕ → ℕ
high t = get_or (13 ∷ 35 ∷ 57 ∷ []) t 0

-- A loop of `clear`, from cell `i` on with `k` cells left: the text is that of the cell.
unfoldable pub paint : Mem → (ℕ → ℕ) → ℕ → ℕ → ℕ → Mem
paint m text attribute i zero = m
paint m text attribute i (suc k) =
    paint (put_cell m video i (text i) attribute) text attribute (i + 1) k

abbrev pub bar_char : ℕ → ℕ
bar_char i = get_or bartext (i - num_rows * num_cols) 0

unfoldable pub clear : Screen → Screen
unfolding paint
clear s =
    let t = s.current_terminal in
    let body = paint s.mem (λ _. b' ') (attrib t) 0 (num_rows * num_cols) in
    let bar = paint body bar_char attrib_bar (num_rows * num_cols) num_cols in
    record s { mem = paint bar bar_char attrib_high (num_rows * num_cols + high t) 10 }

-- The loop of `test_interrupts`.
pub increment_chars : Mem → ℕ → ℕ → Mem
increment_chars m i zero = m
increment_chars m i (suc k) =
    increment_chars (store8 m (video + 2 * i) (u8 (m (video + 2 * i) + 1))) (i + 1) k

unfoldable pub test_interrupts : Screen → Screen
unfolding increment_chars
test_interrupts s = record s { mem = increment_chars s.mem 0 (num_rows * num_cols) }

-- The loop of `blue_screen`.
pub blue_from : Mem → ℕ → ℕ → Mem
blue_from m i zero = m
blue_from m i (suc k) = blue_from (store8 m (video + 2 * i + 1) 0x17) (i + 1) k

unfoldable pub blue_screen : Screen → Screen
unfolding blue_from
blue_screen s = record s { mem = blue_from s.mem 0 (num_rows * num_cols) }

unfoldable pub copy_from_screen_buffer : Screen → ℕ → Screen
copy_from_screen_buffer s des_addr = record s {
  mem = memcpy s.mem des_addr video (2 * (num_cols * num_rows));
}

unfoldable pub copy_to_screen_buffer : Screen → ℕ → Screen
copy_to_screen_buffer s source = record s {
  mem = memcpy s.mem video source (2 * (num_cols * num_rows));
}
