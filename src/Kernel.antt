-- ===== src/Kernel.antt =====
-- The state of the kernel: the globals of lib.h, syscall.c and terminal.c, and the process control
-- blocks of types.h, which lie in the last 8 kB blocks below 8 MB.
pub mod Stacks
use ece391_mp3_illinix.Prelude.{
  ℕ, ◌+◌, ◌*◌, ◌/◌, ◌%◌, ◌^◌, Bool, false, ◌||◌, List, [], ◌∷◌, ◌==◌, if◌then◌else◌, set, get_or,
}
use ece391_mp3_illinix.Word.{u32, sub32, minus_one}
use ece391_mp3_illinix.Memory.{Mem}
use ece391_mp3_illinix.Console.{Screen, TerminalInfo}
use ece391_mp3_illinix.Filesystem.{Fs}
use ece391_mp3_illinix.Rtc.{Rtc}
use ece391_mp3_illinix.Paging.{Paging}

-- The tables of file operations.
pub data Ops : Type 0 where
  fail_funcs stdin_funcs stdout_funcs dir_funcs rtc_funcs file_funcs : Ops

-- `file_desc_t`.
pub record FileDesc : Type 0 where
  pub ptrs : Ops
  pub inode : ℕ
  pub file_pos : ℕ
  pub flags : ℕ

-- `sighandler`: the kernel's function, or one of the user.
pub data Handler : Type 0 where
  signal_default : Handler
  user_handler : ℕ → Handler

-- `pcb_t`; the argument by its address.
pub record Pcb : Type 0 where
  pub files : List FileDesc
  pub pid : ℕ
  pub parent_pid : ℕ
  pub parent_esp : ℕ
  pub parent_ebp : ℕ
  pub schedule_esp : ℕ
  pub schedule_ebp : ℕ
  pub argument : ℕ
  pub pending_signal : ℕ
  pub sighandler : Handler

-- `pcbs` gives the block at an address.
pub record Kernel : Type 0 where
  pub screen : Screen
  pub terminal_info : List TerminalInfo
  pub terminal_running : List ℕ
  pub running_terminal : ℕ
  pub enter_state : ℕ
  pub process : List ℕ
  pub process_terminal : List (List ℕ)
  pub process_terminal_cnt : List ℕ
  pub pcbs : ℕ → Pcb
  pub esp : ℕ
  pub ebp : ℕ
  pub fs : Fs
  pub rtc : Rtc
  pub paging : Paging
  pub tss_esp0 : ℕ
  pub retval : ℕ

abbrev pub in_use : ℕ
in_use = 1

abbrev pub not_in_use : ℕ
not_in_use = 0

abbrev pub min_fd : ℕ
min_fd = 2

abbrev pub max_fd : ℕ
max_fd = 8

abbrev pub max_task : ℕ
max_task = 6

abbrev pub max_terminal_num : ℕ
max_terminal_num = 3

abbrev pub eight_mb : ℕ
eight_mb = 0x800000

abbrev pub eight_kb : ℕ
eight_kb = 0x2000

-- No signal pending.
abbrev pub no_signal : ℕ
no_signal = 0x3F

abbrev pub mem : Kernel → Mem
mem k = k.screen.mem

abbrev pub with_mem : Kernel → Mem → Kernel
with_mem k m = record k { screen = record k.screen { mem = m } }

abbrev pub current_terminal : Kernel → ℕ
current_terminal k = k.screen.current_terminal

-- `PCB_MASK` keeps bits 13 to 22 of the stack pointer.
unfoldable pub get_curr_pcb : Kernel → ℕ
get_curr_pcb k = k.esp / 2 ^ 13 % 2 ^ 10 * 2 ^ 13

unfoldable pub get_pcb_by_index : ℕ → ℕ
get_pcb_by_index index = sub32 eight_mb (u32 ((index + 1) * eight_kb))

abbrev pub put_pcb : Kernel → ℕ → Pcb → Kernel
put_pcb k addr pcb = record k { pcbs = λ a. if addr == a then pcb else k.pcbs a }

abbrev pub no_file : FileDesc
no_file = record { ptrs = fail_funcs; inode = 0; file_pos = 0; flags = not_in_use }

-- `pcb->files[fd]`, for an `fd` below the length: every caller tests the range before it uses what it gets.
abbrev pub file_at : Pcb → ℕ → FileDesc
file_at pcb fd = get_or pcb.files fd no_file

abbrev pub put_file : Pcb → ℕ → FileDesc → Pcb
put_file pcb fd f = record pcb { files = set pcb.files fd f }

-- The loop of `get_pid`, from `new_pid` on.
pub get_pid_from : List ℕ → ℕ → ℕ
get_pid_from [] new_pid = minus_one
get_pid_from (used ∷ process) new_pid =
    if used == not_in_use then new_pid else get_pid_from process (new_pid + 1)

unfoldable pub get_pid : Kernel → ℕ
unfolding get_pid_from
get_pid k = get_pid_from k.process 0

-- The two loops of `get_terminal_id`.
abbrev pub holds_pid : List ℕ → ℕ → Bool
holds_pid [] pid = false
holds_pid (p ∷ pids) pid = p == pid || holds_pid pids pid

pub get_terminal_from : List (List ℕ) → ℕ → ℕ → ℕ
get_terminal_from [] i pid = 0x3F
get_terminal_from (pids ∷ rest) i pid =
    if holds_pid pids pid then i else get_terminal_from rest (i + 1) pid

unfoldable pub get_terminal_id : Kernel → ℕ → ℕ
unfolding get_terminal_from
get_terminal_id k pid = get_terminal_from k.process_terminal 0 pid
