-- ===== src/Tests/Processes.antt =====
-- A program started from the shell of the first terminal.
use ece391_mp3_illinix.Prelude.{◌≡◌, refl, none, some, [], ◌∷◌, arith, replicate, ℕ, ◌<◌, ◌≤◌}
use ece391_mp3_illinix.Kernel.Stacks.{get_curr_pcb-get_pcb_by_index}
use ece391_mp3_illinix.Terminal.{is_running}
use ece391_mp3_illinix.Scheduling.{next_terminal}
use ece391_mp3_illinix.Scheduling.Turns.{after_turns, after_turns_comes}
use ece391_mp3_illinix.Kernel.{Kernel, with_mem, get_curr_pcb, get_pcb_by_index}
use ece391_mp3_illinix.Process.{take_pid, create_pcb, halt, resumes, out_of_bounds}
use ece391_mp3_illinix.Process.Stack.{Ready, Restored, top_pid, halt-create_pcb}
use ece391_mp3_illinix.Tests.Calls.{kernel}

-- The shell of the first terminal has pid 0, that of the second pid 1.
abbrev shells : Kernel
shells = record (kernel 2 0) {
  process = 1 ∷ 1 ∷ 0 ∷ 0 ∷ 0 ∷ 0 ∷ [];
  process_terminal = replicate 6 0 ∷ (1 ∷ replicate 5 0) ∷ replicate 6 0 ∷ [];
  process_terminal_cnt = 1 ∷ 1 ∷ 0 ∷ [];
}

shells-Ready : Ready shells 0
shells-Ready = record {
  shown = refl;
  running = refl;
  counted = omega arith;
  listed = omega arith;
  busy = omega arith;
  room = omega arith;
  small = omega arith;
}

abbrev pub started : Kernel
started = elim (take_pid shells) [ none ↦ shells | some (pid, k) ↦ k ]

third_pid : take_pid shells ≡ some (2, started)
unfolding take_pid
third_pid = refl

no_process : halt (record shells { running_terminal = 2 }) 0 ≡ out_of_bounds
unfolding halt
no_process = refl

halt-create_pcb_example :
    (k' : Kernel) × (halt (create_pcb (with_mem started (λ a. 7)) 2 0x3000) 5
      ≡ resumes 0x7FFFF0 0x7FFFF8 k')
    × Restored shells 0 2 (top_pid shells 0) 5 k'
halt-create_pcb_example =
    halt-create_pcb shells 0 2 started (λ a. 7) 0x3000 5 shells-Ready (λ e. cc) third_pid

-- The stack pointer of `kernel` is 16 bytes below 8 MB.
get_curr_pcb-get_pcb_by_index_example : get_curr_pcb (kernel 2 0) ≡ get_pcb_by_index 0
get_curr_pcb-get_pcb_by_index_example =
    get_curr_pcb-get_pcb_by_index (kernel 2 0) 0 12 (omega arith) (omega arith) refl

-- The first and the third terminal run.
abbrev two_running : Kernel
two_running = record shells { terminal_running = 1 ∷ 0 ∷ 1 ∷ [] }

third_next : next_terminal two_running ≡ 2
unfolding next_terminal is_running
third_next = refl

after_turns_comes_example : (n : ℕ) × (0 < n) × (n ≤ 3) × (after_turns two_running n ≡ 2)
unfolding is_running
after_turns_comes_example = after_turns_comes two_running 2 (omega arith) (omega arith) refl
