-- ===== src/Terminal/Switch.antt =====
-- The start of the three terminals and the switch between them (student-distrib/terminal.c).
use ece391_mp3_illinix.Console.{zero_keys}
use ece391_mp3_illinix.Print.{printf}
use ece391_mp3_illinix.Console.Paint.{clear, copy_from_screen_buffer}
use ece391_mp3_illinix.Terminal.{info_at, save_terminal_info, store8, restore_terminal_info}
use ece391_mp3_illinix.Kernel.{
  Kernel, get_curr_pcb, current_terminal, put_pcb, max_terminal_num, get_pid,
}
use ece391_mp3_illinix.Text.{codes}
use ece391_mp3_illinix.Prelude.{
  ℕ, ◌+◌, ◌*◌, Option, some, List, [], leb, ◌==◌, if◌then◌else◌, set, get_or, replicate, ◌>>=◌,
}
use ece391_mp3_illinix.Word.{minus_one}

-- The buffer of a terminal: TERMINAL_BUFFER_1 to TERMINAL_BUFFER_3.
abbrev pub terminal_buffer : ℕ → ℕ
terminal_buffer i = 0xB8000 + (i + 1) * 0x1000

-- The body of the last loop of `init_terminal`.
unfoldable pub init_info : Kernel → ℕ → Kernel
init_info k i =
    let info = record (info_at k i) {
      screen_pos_x = 0;
      screen_pos_y = 0;
      key_arr_ptr_old = 0;
      key_arr_overflow_old = 0;
      row_stack_old = 0;
      column_stack_old = 0;
      screen_buffer = terminal_buffer i;
    } in
    let s = record k.screen {
      mem = store8 k.screen.mem info.key_arr_old 0;
      current_terminal = i;
    } in
    record k {
      screen = copy_from_screen_buffer (clear s) info.screen_buffer;
      terminal_info = set k.terminal_info i info;
    }

-- `init_terminal`, up to its call of `execute("shell")`; `key_arr_all` is the address of that array.
unfoldable pub init_terminal : Kernel → ℕ → Kernel
unfolding init_info
init_terminal k key_arr_all =
    let s₀ = clear k.screen in
    let s = record s₀ {
      key_arr = key_arr_all;
      mem = zero_keys s₀.mem key_arr_all 0 (3 * 129);
      current_terminal = 0;
    } in
    let k₁ = record k {
      screen = s;
      process_terminal = replicate 3 (replicate 6 0);
      process_terminal_cnt = replicate 3 0;
      running_terminal = 0;
    } in
    let k₂ = init_info (init_info (init_info k₁ 0) 1) 2 in
    let s₁ = clear (record k₂.screen { current_terminal = 0 }) in
    record k₂ {
      screen = copy_from_screen_buffer s₁ (info_at k₂ 0).screen_buffer;
      terminal_running = set k.terminal_running 0 1;
    }

-- How `switch_to_terminal` ends: it returns, or it calls `execute("shell")`.
pub data Switched : Type 0 where
  returned : ℕ → Kernel → Switched
  starts_shell : Kernel → Switched

-- The terminal shown is put away, and the other one shown.
unfoldable pub show_terminal : Kernel → ℕ → Kernel
show_terminal k terminal_id =
    let k₁ = (save_terminal_info k (current_terminal k)).1 in
    let s = clear (record k₁.screen { current_terminal = terminal_id }) in
    (restore_terminal_info (record k₁ { screen = s }) terminal_id).1

abbrev pub full_message : List ℕ
full_message = codes "process number reaches maximum! Can't switch to new terminal!\n391OS> "

unfoldable pub start_terminal : Kernel → ℕ → Switched
unfolding show_terminal
start_terminal k terminal_id =
    let k₁ = record k { terminal_running = set k.terminal_running terminal_id 1 } in
    let k₂ = show_terminal k₁ terminal_id in
    let old_pcb = get_curr_pcb k₂ in
    let pcb = record (k₂.pcbs old_pcb) { schedule_esp = k.esp; schedule_ebp = k.ebp } in
    starts_shell (record (put_pcb k₂ old_pcb pcb) { running_terminal = terminal_id })

-- `switch_to_terminal`; the message has no directive, so `printf` ends.
unfoldable pub switch_to_terminal : Kernel → ℕ → Option Switched
unfolding start_terminal show_terminal
switch_to_terminal k terminal_id =
    let refused : Option Switched = printf k.screen full_message [] >>= λ p.
    some (returned minus_one (record k { screen = p.1 })) in
    if leb max_terminal_num terminal_id
    then some (returned minus_one k)
    else if terminal_id == current_terminal k
    then some (returned 0 k)
    else if get_or k.terminal_running terminal_id 0 == 0
    then (if get_pid k == minus_one then refused else some (start_terminal k terminal_id))
    else some (returned 0 (show_terminal k terminal_id))
