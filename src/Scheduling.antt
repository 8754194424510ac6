-- ===== src/Scheduling.antt =====
-- The scheduler of student-distrib/scheduling.c. The ports of the timer and its acknowledgement are
-- left out.
pub mod Turns
use ece391_mp3_illinix.Prelude.{
  ℕ, zero, suc, ◌+◌, ◌-◌, ◌*◌, ◌/◌, ◌%◌, ◌^◌, ◌≤◌, ◌<◌, min, max, ◌≡◌, refl, sym, ap, ap₂, ◌∙◌,
  fun_ext, subst, ◌≡⟨◌⟩◌, ◌∎, ◌≢◌, ◌↔◌, ◌⊎◌, inl, inr, Bool, true, false, not, ◌&&◌, ◌||◌, Option,
  none, some, List, [], ◌∷◌, ◌++◌, map, arith, dec_lt, dec_le, ℕ_discrete, ltb, leb, ◌==◌,
  if◌then◌else◌, Bool-cases, Option-cases, length, get_elem?, set, get_or, take, drop, replicate,
  length-set, get_or-set_self, get_or-set_ne, ◌>>=◌, ==_iff, every_below, every_below_use, same,
  same_sound,
}
use ece391_mp3_illinix.Word.{u8, u16, u32, sub32, minus_one, is_neg, slt, sle, sdiv, smod, sext8}
use ece391_mp3_illinix.Paging.{map_program, map_user_video_to_buffer}
use ece391_mp3_illinix.Kernel.{
  Kernel, Pcb, Handler, current_terminal, get_curr_pcb, get_pcb_by_index, put_pcb, no_signal,
}
use ece391_mp3_illinix.Process.{count_at, process_at, kernel_stack}
use ece391_mp3_illinix.Terminal.{is_running}

-- The loop for the next terminal, from round `i` on with `rest` rounds left; `next` is the terminal
-- looked at last.
unfoldable pub next_from : (ℕ → Bool) → ℕ → ℕ → ℕ → ℕ → ℕ
next_from running here next i zero = next
next_from running here next i (suc rest) =
    let t = (here + 1 + i) % 3 in
    let later = next_from running here t (i + 1) rest in if running t then t else later

unfoldable pub next_terminal : Kernel → ℕ
unfolding next_from
next_terminal k = next_from (λ t. is_running k t == 1) k.running_terminal k.running_terminal 0 3

-- How the handler ends: it goes on in the state given; it calls the handler of a signal; the same,
-- and no signal is pending once that returns; or the terminal has no process, and the index lies
-- before its row of the table.
pub data Scheduled : Type 0 where
  continues : Kernel → Scheduled
  signals : Handler → ℕ → Kernel → Scheduled
  signals_once : Handler → ℕ → Kernel → Scheduled
  out_of_bounds : Scheduled

-- `send_signal(signum)`, called with the stack of `k`.
abbrev pub send_signal : Kernel → ℕ → Handler
send_signal k signum = (k.pcbs (get_curr_pcb k)).sighandler

-- The switch to the process `next_process` of the terminal `next`.
unfoldable pub switch_process : Kernel → ℕ → ℕ → Kernel
switch_process k next next_process =
    let old = get_curr_pcb k in
    let new = get_pcb_by_index next_process in
    let k₁ = put_pcb k old (record (k.pcbs old) { schedule_esp = k.esp; schedule_ebp = k.ebp }) in
    record k₁ {
      running_terminal = next;
      paging =
          map_user_video_to_buffer (map_program k.paging next_process) (current_terminal k) next;
      tss_esp0 = kernel_stack next_process;
      esp = (k₁.pcbs new).schedule_esp;
      ebp = (k₁.pcbs new).schedule_ebp;
    }

-- The branch with a process in the second or third terminal.
unfoldable pub next_turn : Kernel → Scheduled
unfolding next_terminal switch_process
next_turn k =
    let next = next_terminal k in
    let next_process = u8 (process_at k next (sub32 (count_at k next) 1)) in
    let pending = u8 (k.pcbs (get_pcb_by_index next_process)).pending_signal in
    let k₁ = switch_process k next next_process in
    if count_at k next == 0
    then out_of_bounds
    else if ltb 5 next_process
    then continues k
    else if pending == no_signal
    then continues k₁
    else signals (send_signal k₁ pending) pending k₁

unfoldable pub pit_handler : Kernel → Scheduled
unfolding next_turn
pit_handler k =
    let pending = (k.pcbs (get_curr_pcb k)).pending_signal in
    if not (count_at k 1 == 0) || not (count_at k 2 == 0)
    then next_turn k
    else if count_at k 0 == 0 || pending == no_signal
    then continues k
    else signals_once (send_signal k (u8 pending)) (u8 pending) k
