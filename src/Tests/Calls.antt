-- ===== src/Tests/Calls.antt =====
-- The theorems on file descriptors at a concrete kernel.
use ece391_mp3_illinix.Prelude.{
  ℕ, ◌-◌, ◌≤◌, ◌<◌, ◌≡◌, refl, ◌≢◌, true, [], ◌++◌, arith, ◌==◌, if◌then◌else◌, replicate, ==_iff,
  every_below, every_below_use,
}
use ece391_mp3_illinix.Word.{minus_one}
use ece391_mp3_illinix.Kernel.{
  Kernel, Pcb, FileDesc, stdin_funcs, rtc_funcs, signal_default, no_file, not_in_use, in_use,
}
use ece391_mp3_illinix.Syscall.{Call, returns, open_entry, close, free_fd}
use ece391_mp3_illinix.Syscall.Files.{file_now}
use ece391_mp3_illinix.Syscall.Descriptors.{
  Opened, open_entry-Opened, close-open_entry, open_entry-full, open_entry-leak,
}

abbrev stdin : FileDesc
stdin = record no_file { ptrs = stdin_funcs; flags = in_use }

-- A process with `n` descriptors taken.
abbrev pub taking : ℕ → Pcb
taking n = record {
  files = replicate n stdin ++ replicate (8 - n) no_file;
  pid = 0;
  parent_pid = 0;
  parent_esp = 0;
  parent_ebp = 0;
  schedule_esp = 0;
  schedule_ebp = 0;
  argument = 0;
  pending_signal = 0x3F;
  sighandler = signal_default;
}

-- The type of the file at 0x1000 + 32 is `t`.
abbrev pub kernel : ℕ → ℕ → Kernel
kernel n t = record {
  screen = record {
    screen_x = 0;
    screen_y = 0;
    row_stack = 0;
    column_stack = 0;
    mem = λ a. if a == 0x1020 then t else 0;
    key_arr = 0x400000;
    key_arr_ptr = 0;
    key_arr_overflow = 0;
    current_terminal = 0;
    ports = [];
  };
  terminal_info = [];
  terminal_running = [];
  running_terminal = 0;
  enter_state = 0;
  process = [];
  process_terminal = [];
  process_terminal_cnt = [];
  pcbs = λ a. taking n;
  esp = 0x7FFFF0;
  ebp = 0x7FFFF8;
  fs = record {
    fs_addr = 0;
    dentry_addr = 0;
    inode_addr = 0;
    d_block_addr = 0;
    num_dentries = 0;
    num_inodes = 0;
    num_d_blocks = 0;
    dir_location = 0;
  };
  rtc = [];
  paging = record {
    page_directory = λ i. 2;
    page_table = λ i. 2;
    page_table_vidmem = λ i. 2;
    page_table_addr = 0;
    page_table_vidmem_addr = 0;
  };
  tss_esp0 = 0;
  retval = 0;
}

abbrev pub call : Call
call = record { ticks = 0; dentry = 0x1000 }

rtc_opened : (k' : Kernel) × Opened (kernel 2 0) call 0x2000 2 rtc_funcs k'
unfolding free_fd
rtc_opened = open_entry-Opened (kernel 2 0) call 0x2000 2 rtc_funcs refl refl refl

open_entry-Opened_example : (k' : Kernel) × Opened (kernel 2 0) call 0x2000 2 rtc_funcs k'
unfolding free_fd
open_entry-Opened_example = open_entry-Opened (kernel 2 0) call 0x2000 2 rtc_funcs refl refl refl

close-open_entry_example :
    (k'' : Kernel) × (close rtc_opened.0 2 ≡ returns 0 k'')
    × ((file_now k'' 2).flags ≡ not_in_use)
    × ((j : ℕ) → 2 ≢ j → file_now k'' j ≡ file_now (kernel 2 0) j)
close-open_entry_example =
    close-open_entry (kernel 2 0) call 0x2000 2 rtc_funcs rtc_opened.0 refl refl rtc_opened.1

all_taken : (j : ℕ) → 2 ≤ j → j < 8 → (file_now (kernel 8 0) j).flags ≢ not_in_use
all_taken j lo hi =
    let taken =
      (==_iff _ _).0
        (every_below_use 8 (λ i. (file_now (kernel 8 0) i).flags == in_use) j table hi) in
    omega arith
  where
    table : every_below 8 (λ i. (file_now (kernel 8 0) i).flags == in_use) ≡ true
    table = unfold every_below in refl

open_entry-full_example : open_entry (kernel 8 0) call 0x2000 ≡ returns minus_one (kernel 8 0)
open_entry-full_example = open_entry-full (kernel 8 0) call 0x2000 all_taken

open_entry-leak_example :
    (k' : Kernel) × (open_entry (kernel 2 7) call 0x2000 ≡ returns minus_one k')
    × ((file_now (kernel 2 7) 2).flags ≡ not_in_use)
    × ((file_now k' 2).flags ≡ in_use)
unfolding free_fd
open_entry-leak_example = open_entry-leak (kernel 2 7) call 0x2000 2 refl refl (omega arith)
