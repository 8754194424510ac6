-- ===== src/Process.antt =====
-- The processes of a terminal in student-distrib/syscall.c: `execute` from the choice of a pid to the
-- context switch, but for the load of the program, and `halt`.
pub mod Pids
pub mod Stack
use ece391_mp3_illinix.Prelude.{
  ℕ, zero, suc, ◌+◌, ◌-◌, ◌*◌, ◌/◌, ◌%◌, ◌^◌, ◌≤◌, ◌<◌, min, max, ◌≡◌, refl, sym, ap, ap₂, ◌∙◌,
  fun_ext, subst, ◌≡⟨◌⟩◌, ◌∎, ◌≢◌, ◌↔◌, ◌⊎◌, inl, inr, Bool, true, false, not, ◌&&◌, ◌||◌, Option,
  none, some, List, [], ◌∷◌, ◌++◌, map, arith, dec_lt, dec_le, ℕ_discrete, ltb, leb, ◌==◌,
  if◌then◌else◌, Bool-cases, Option-cases, length, get_elem?, set, get_or, take, drop, replicate,
  length-set, get_or-set_self, get_or-set_ne, ◌>>=◌, ==_iff, every_below, every_below_use, same,
  same_sound,
}
use ece391_mp3_illinix.Word.{u8, u16, u32, sub32, minus_one, is_neg, slt, sle, sdiv, smod, sext8}
use ece391_mp3_illinix.Text.{strncpy}
use ece391_mp3_illinix.Paging.{map_program}
use ece391_mp3_illinix.Kernel.{
  Kernel, Pcb, FileDesc, Handler, signal_default, fail_funcs, stdin_funcs, stdout_funcs, mem,
  with_mem, current_terminal, get_pcb_by_index, put_pcb, in_use, not_in_use, no_signal, eight_mb,
  eight_kb,
}

-- The loop that takes the first free pid, from `new_pid` on: the pid and the table after it.
pub take_pid_from : List ℕ → ℕ → Option (ℕ × List ℕ)
take_pid_from [] new_pid = none
take_pid_from (used ∷ process) new_pid =
    let rest = take_pid_from process (new_pid + 1) >>= λ r. some (r.0, used ∷ r.1) in
    if used == not_in_use then some (new_pid, in_use ∷ process) else rest

-- Section 3 of `execute`: `none` is its return of -1.
unfoldable pub take_pid : Kernel → Option (ℕ × Kernel)
unfolding take_pid_from
take_pid k = take_pid_from k.process 0 >>= λ r.
    some (r.0, record k { process = r.1; paging = map_program k.paging r.0 })

-- `tss.esp0` for a pid.
abbrev pub kernel_stack : ℕ → ℕ
kernel_stack pid = sub32 (sub32 eight_mb (u32 (pid * eight_kb))) 4

abbrev pub count_at : Kernel → ℕ → ℕ
count_at k t = get_or k.process_terminal_cnt t 0

-- `process_terminal[t][i]`.
abbrev pub process_at : Kernel → ℕ → ℕ → ℕ
process_at k t i = get_or (get_or k.process_terminal t []) i 0

abbrev pub put_process : Kernel → ℕ → ℕ → ℕ → List (List ℕ)
put_process k t i pid = set k.process_terminal t (set (get_or k.process_terminal t []) i pid)

-- The parent of a new process: itself for pid 0, else the last process of the terminal shown, or the
-- process with pid 0.
unfoldable pub parent_of : Kernel → ℕ → ℕ
parent_of k new_pid =
    let t = current_terminal k in
    let last = if count_at k t == 0 then 0 else process_at k t (sub32 (count_at k t) 1) in
    if new_pid == 0 then new_pid else (k.pcbs (get_pcb_by_index last)).pid

-- The descriptors of a new process: the rest of what was in the block stays.
abbrev pub new_files : List FileDesc → List FileDesc
new_files files =
    let no_inode = minus_one in
    record { ptrs = stdin_funcs; inode = no_inode; file_pos = 0; flags = in_use }
    ∷ record { ptrs = stdout_funcs; inode = no_inode; file_pos = 0; flags = in_use }
    ∷ map (λ (f : FileDesc). record f { flags = not_in_use }) (drop 2 files)

-- Sections 5 and 6 of `execute`, up to the switch to the program.
unfoldable pub create_pcb : Kernel → ℕ → ℕ → Kernel
unfolding parent_of
create_pcb k new_pid args_buf =
    let t = current_terminal k in
    let n = u32 (count_at k t + 1) in
    let addr = get_pcb_by_index new_pid in
    let old = k.pcbs addr in
    let pcb = record old {
      files = new_files old.files;
      pid = new_pid;
      parent_pid = parent_of k new_pid;
      parent_esp = k.esp;
      parent_ebp = k.ebp;
      pending_signal = no_signal;
      sighandler = signal_default;
    } in
    let k₁ = put_pcb (with_mem k (strncpy (mem k) old.argument args_buf 100)) addr pcb in
    record k₁ {
      process_terminal_cnt = set k.process_terminal_cnt t n;
      process_terminal = put_process k t (sub32 n 1) new_pid;
      tss_esp0 = kernel_stack new_pid;
    }

-- How `halt` ends: it goes back into the parent's `execute`, on the stack saved there; it starts a
-- shell in place of the last process; or the terminal had no process, and the index lies before its
-- row of the table.
pub data Halted : Type 0 where
  resumes : ℕ → ℕ → Kernel → Halted
  executes_shell : ℕ → ℕ → Kernel → Halted
  out_of_bounds : Halted

-- A descriptor after `halt`. The `close` of each table of operations changes no state.
abbrev pub halted_file : FileDesc → FileDesc
halted_file f = record { ptrs = fail_funcs; inode = minus_one; file_pos = 0; flags = not_in_use }

-- `halt` where the running terminal has a process.
unfoldable pub halt_process : Kernel → ℕ → Halted
halt_process k status =
    let t = k.running_terminal in
    let i = sub32 (count_at k t) 1 in
    let addr = get_pcb_by_index (process_at k t i) in
    let pcb = k.pcbs addr in
    let k₁ = record (put_pcb k addr (record pcb { files = map halted_file pcb.files })) {
      paging = map_program k.paging pcb.parent_pid;
      tss_esp0 = kernel_stack pcb.parent_pid;
      process = set k.process pcb.pid not_in_use;
      process_terminal = put_process k t i not_in_use;
      process_terminal_cnt = set k.process_terminal_cnt t i;
    } in
    if pcb.pid == 0 || i == 0
    then executes_shell pcb.parent_esp pcb.parent_ebp k₁
    else resumes pcb.parent_esp pcb.parent_ebp (record k₁ { retval = status })

unfoldable pub halt : Kernel → ℕ → Halted
unfolding halt_process
halt k status = if count_at k k.running_terminal == 0 then out_of_bounds else halt_process k status
