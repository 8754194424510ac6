-- ===== src/Terminal/Shown.antt =====
-- What the switch of student-distrib/terminal.c does to the screen and to the saved screens.
use ece391_mp3_illinix.Terminal.Outside.{strncpy-Outside, clear-Outside}
use ece391_mp3_illinix.Memory.Block.{memcpy-moved}
use ece391_mp3_illinix.Terminal.Switch.{terminal_buffer, show_terminal}
use ece391_mp3_illinix.Terminal.{info_at, save_terminal_info, no_info, restore_terminal_info}
use ece391_mp3_illinix.Kernel.{Kernel, current_terminal, mem}
use ece391_mp3_illinix.Memory.{Mem, memcpy, moved}
use ece391_mp3_illinix.Console.{Screen, video, TerminalInfo, set_cursor_position}
use ece391_mp3_illinix.Console.Paint.{clear, copy_from_screen_buffer, copy_to_screen_buffer}
use ece391_mp3_illinix.Text.{strncpy}
use ece391_mp3_illinix.Prelude.{
  ℕ, ◌+◌, ◌-◌, ◌^◌, ◌≤◌, ◌<◌, ◌≡◌, refl, sym, ap, ◌∙◌, subst, ◌≢◌, inl, true, false, ◌&&◌, arith,
  ltb, leb, length, set, get_or-set_ne, if_true, if_false, inr,
}
use ece391_mp3_illinix.Word.{u8}

-- The terminal shown and another one, `b`: each has its screen buffer, and the keys lie above the
-- buffers.
pub record TwoTerminals (k : Kernel) (b : ℕ) : Type 0 where
  pub few : current_terminal k < 3
  pub other : b < 3
  pub apart : current_terminal k ≢ b
  pub all_info : length k.terminal_info ≡ 3
  pub buffer_a :
      (info_at k (current_terminal k)).screen_buffer ≡ terminal_buffer (current_terminal k)
  pub buffer_b : (info_at k b).screen_buffer ≡ terminal_buffer b
  pub keys_above : 0xBC000 ≤ k.screen.key_arr
  pub keys_fit : k.screen.key_arr + 128 < 2 ^ 32
  pub old_a_above : 0xBC000 ≤ (info_at k (current_terminal k)).key_arr_old
  pub old_a_fits : (info_at k (current_terminal k)).key_arr_old + 128 < 2 ^ 32
  pub old_b_above : 0xBC000 ≤ (info_at k b).key_arr_old
  pub old_b_fits : (info_at k b).key_arr_old + 128 < 2 ^ 32

-- What `save_terminal_info` notes of the terminal shown.
abbrev pub noted : Kernel → TerminalInfo
noted k = record (info_at k (current_terminal k)) {
  screen_pos_x = u8 k.screen.screen_x;
  screen_pos_y = u8 k.screen.screen_y;
  key_arr_ptr_old = k.screen.key_arr_ptr;
  key_arr_overflow_old = k.screen.key_arr_overflow;
  row_stack_old = u8 k.screen.row_stack;
  column_stack_old = u8 k.screen.column_stack;
}

-- The switch to `b`: what is noted of the terminal shown, what is taken of `b`, and the memory of the rows and
-- of the two buffers.
pub record Switching (k : Kernel) (b : ℕ) (k' : Kernel) : Type 0 where
  pub infos : k'.terminal_info ≡ set k.terminal_info (current_terminal k) (noted k)
  pub terminal : current_terminal k' ≡ b
  pub running : k'.terminal_running ≡ k.terminal_running
  pub x : k'.screen.screen_x ≡ (info_at k b).screen_pos_x
  pub y : (info_at k b).screen_pos_y < 24 → k'.screen.screen_y ≡ (info_at k b).screen_pos_y
  pub stack : k'.screen.row_stack ≡ (info_at k b).row_stack_old
  pub column : k'.screen.column_stack ≡ (info_at k b).column_stack_old
  pub keys : k'.screen.key_arr ≡ k.screen.key_arr
  pub ptr : k'.screen.key_arr_ptr ≡ (info_at k b).key_arr_ptr_old
  pub overflow : k'.screen.key_arr_overflow ≡ (info_at k b).key_arr_overflow_old
  pub rows : (i : ℕ) → i < 3840 → mem k' (video + i) ≡ mem k (terminal_buffer b + i)
  pub saved :
      (i : ℕ) → i < 3840 → mem k' (terminal_buffer (current_terminal k) + i) ≡ mem k (video + i)

module _ {k : Kernel} {b : ℕ} (w : TwoTerminals k b) where
  -- Memory with the terminal shown put away, on the clear screen, and with the keys of `b` back.
  abbrev pub keys_saved : Mem
  keys_saved = strncpy (mem k) (info_at k (current_terminal k)).key_arr_old k.screen.key_arr 128

  abbrev pub put_away : Mem
  put_away = memcpy keys_saved (info_at k (current_terminal k)).screen_buffer video 3840

  abbrev pub cleared : Screen
  cleared = clear (record k.screen { mem = put_away; current_terminal = b })

  abbrev pub keys_back : Mem
  keys_back = strncpy cleared.mem k.screen.key_arr (info_at k b).key_arr_old 128

  pub put_away-moved : put_away ≡ moved keys_saved (terminal_buffer (current_terminal k)) video 3840
  put_away-moved =
      memcpy-moved keys_saved (info_at k (current_terminal k)).screen_buffer video 3840 (record {
        dest_fits = omega (arith, w.buffer_a, w.few);
        src_fits = omega arith;
        apart = ground (arith, w.buffer_a);
      })
      ∙ ap (λ d. moved keys_saved d video 3840) w.buffer_a

  -- Between the screen and the keys, these change nothing.
  keys_back-cleared : (x : ℕ) → video + 4000 ≤ x → x < 0xBC000 → keys_back x ≡ put_away x
  keys_back-cleared x h1 h2 =
      strncpy-Outside cleared.mem k.screen.key_arr (info_at k b).key_arr_old 128 x w.keys_fit
        (inl (omega (arith, w.keys_above)))
      ∙ clear-Outside (record k.screen { mem = put_away; current_terminal = b }) x w.other (inr h1)

  keys_saved-below : (x : ℕ) → x < 0xBC000 → keys_saved x ≡ mem k x
  keys_saved-below x h =
      strncpy-Outside (mem k) (info_at k (current_terminal k)).key_arr_old k.screen.key_arr 128 x
        w.old_a_fits (inl (omega (arith, w.old_a_above)))

  pub final-moved :
      memcpy keys_back video (info_at k b).screen_buffer 3840
      ≡ moved keys_back video (terminal_buffer b) 3840
  final-moved =
      memcpy-moved keys_back video (info_at k b).screen_buffer 3840 (record {
        dest_fits = omega arith;
        src_fits = omega (arith, w.buffer_b, w.other);
        apart = ground (arith, w.buffer_b);
      })
      ∙ ap (λ s. moved keys_back video s 3840) w.buffer_b

  abbrev pub saved_kernel : Kernel
  saved_kernel = record k {
    screen =
        copy_from_screen_buffer (record k.screen { mem = keys_saved })
          (info_at k (current_terminal k)).screen_buffer;
    terminal_info = set k.terminal_info (current_terminal k) (noted k);
  }

  save : save_terminal_info k (current_terminal k) ≡ (0, saved_kernel)
  unfolding save_terminal_info
  save = let t : leb 3 (current_terminal k) ≡ false = ground (arith, w.few) in if_false t _ _

  info_b : info_at saved_kernel b ≡ info_at k b
  info_b = get_or-set_ne k.terminal_info (current_terminal k) b (noted k) no_info w.apart

  abbrev pub taken : TerminalInfo → Kernel
  taken info =
      let s = set_cursor_position cleared info.screen_pos_x info.screen_pos_y in
      record saved_kernel {
        screen =
            copy_to_screen_buffer
              (record s {
                key_arr_ptr = info.key_arr_ptr_old;
                key_arr_overflow = info.key_arr_overflow_old;
                row_stack = info.row_stack_old;
                column_stack = info.column_stack_old;
                mem = strncpy s.mem s.key_arr info.key_arr_old 128;
              })
              info.screen_buffer;
      }

  pub show : show_terminal k b ≡ taken (info_at k b)
  unfolding show_terminal restore_terminal_info copy_from_screen_buffer
  show =
      let t : ltb 3 b ≡ false = ground (arith, w.other) in
      ap
        (λ (p : ℕ × Kernel).
          (restore_terminal_info
            (record p.1 { screen = clear (record p.1.screen { current_terminal = b }) }) b).1)
        save
      ∙ ap (λ (p : ℕ × Kernel). p.1) (if_false t _ _)
      ∙ ap taken info_b

  rows_taken :
      (i : ℕ)
      → i < 3840
      → moved keys_back video (terminal_buffer b) 3840 (video + i) ≡ mem k (terminal_buffer b + i)
  rows_taken i h =
      let t : (leb video (video + i) && ltb (video + i) (video + 3840)) ≡ true = ground arith in
      let e : terminal_buffer b + (video + i) - video ≡ terminal_buffer b + i = omega arith in
      let a = terminal_buffer (current_terminal k) in
      let f : (leb a (terminal_buffer b + i) && ltb (terminal_buffer b + i) (a + 3840)) ≡ false =
        ground (arith, w.apart) in
      if_true t _ _
      ∙ ap keys_back e
      ∙ keys_back-cleared (terminal_buffer b + i) (omega arith) (omega (arith, w.other))
      ∙ ap (λ (m : Mem). m (terminal_buffer b + i)) put_away-moved
      ∙ if_false f _ _
      ∙ keys_saved-below (terminal_buffer b + i) (omega (arith, w.other))

  rows_saved :
      (i : ℕ)
      → i < 3840
      → moved keys_back video (terminal_buffer b) 3840 (terminal_buffer (current_terminal k) + i)
        ≡ mem k (video + i)
  rows_saved i h =
      let a = terminal_buffer (current_terminal k) in
      let f : (leb video (a + i) && ltb (a + i) (video + 3840)) ≡ false = ground arith in
      let t : (leb a (a + i) && ltb (a + i) (a + 3840)) ≡ true = ground arith in
      let e : video + (a + i) - a ≡ video + i = omega arith in
      if_false f _ _
      ∙ keys_back-cleared (a + i) (omega arith) (omega (arith, w.few))
      ∙ ap (λ (m : Mem). m (a + i)) put_away-moved
      ∙ if_true t _ _
      ∙ ap keys_saved e
      ∙ keys_saved-below (video + i) (omega arith)

  -- The switch goes as noted.
  pub show_terminal-Switching : Switching k b (show_terminal k b)
  unfolding copy_to_screen_buffer set_cursor_position clear
  show_terminal-Switching =
      subst (λ (k' : Kernel). Switching k b k') (sym show)
        (record {
          infos = refl;
          terminal = refl;
          running = refl;
          x = refl;
          y = λ h. ground (arith, h);
          stack = refl;
          column = refl;
          keys = refl;
          ptr = refl;
          overflow = refl;
          rows = λ i h. ap (λ (m : Mem). m (video + i)) final-moved ∙ rows_taken i h;
          saved = λ i h.
              ap (λ (m : Mem). m (terminal_buffer (current_terminal k) + i)) final-moved
              ∙ rows_saved i h;
        })
