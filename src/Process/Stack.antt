-- ===== src/Process/Stack.antt =====
-- The processes of a terminal are a stack (student-distrib/syscall.c): `execute` pushes one, and
-- `halt` takes it away again.
use ece391_mp3_illinix.Prelude.{
  ℕ, ◌+◌, ◌-◌, ◌^◌, ◌<◌, ◌≡◌, refl, sym, ap, ap₂, ◌∙◌, fun_ext, ◌≢◌, true, false, some, List, [],
  map, arith, ◌==◌, length, set, get_or, length-set, get_or-set_self, get_or-set_ne, ==_iff,
  set-set_back,
}
use ece391_mp3_illinix.Word.{u32, sub32}
use ece391_mp3_illinix.Memory.{Mem}
use ece391_mp3_illinix.Paging.{Paging, map_program}
use ece391_mp3_illinix.Kernel.{
  Kernel, with_mem, current_terminal, get_pcb_by_index, put_pcb, not_in_use,
}
use ece391_mp3_illinix.Process.{
  take_pid_from, take_pid, kernel_stack, count_at, process_at, put_process, parent_of, create_pcb,
  resumes, halt, halt_process, halted_file,
}
use ece391_mp3_illinix.Process.Pids.{take_pid_from_lem, take_pid_from_nonzero, taken_pid}

-- Terminal `t` is shown and runs, has a process, and has room for another one.
pub record Ready (k : Kernel) (t : ℕ) : Type 0 where
  pub shown : current_terminal k ≡ t
  pub running : k.running_terminal ≡ t
  pub counted : t < length k.process_terminal_cnt
  pub listed : t < length k.process_terminal
  pub busy : 0 < count_at k t
  pub room : count_at k t < length (get_or k.process_terminal t [])
  pub small : count_at k t < 2 ^ 31

-- What is as it was before the process, for the parent `parent`; the slot of the process in the row of
-- the terminal is free.
pub record Restored (k : Kernel) (t pid parent status : ℕ) (k' : Kernel) : Type 0 where
  pub process : k'.process ≡ k.process
  pub counts : k'.process_terminal_cnt ≡ k.process_terminal_cnt
  pub stack : (i : ℕ) → i ≢ count_at k t → process_at k' t i ≡ process_at k t i
  pub freed : process_at k' t (count_at k t) ≡ not_in_use
  pub terminals : (u : ℕ) → t ≢ u → get_or k'.process_terminal u [] ≡ get_or k.process_terminal u []
  pub paging : k'.paging ≡ map_program k.paging parent
  pub kernel_esp : k'.tss_esp0 ≡ kernel_stack parent
  pub value : k'.retval ≡ status
  pub blocks : (a : ℕ) → get_pcb_by_index pid ≢ a → k'.pcbs a ≡ k.pcbs a

-- The process on top of the stack of a terminal.
abbrev pub top_pid : Kernel → ℕ → ℕ
top_pid k t = (k.pcbs (get_pcb_by_index (process_at k t (sub32 (count_at k t) 1)))).pid

-- What `halt` leaves when it goes back to a parent.
abbrev released : Kernel → ℕ → ℕ → ℕ → Kernel
released c i pid status =
    let addr = get_pcb_by_index pid in
    let pcb = c.pcbs addr in
    record (put_pcb c addr (record pcb { files = map halted_file pcb.files })) {
      paging = map_program c.paging pcb.parent_pid;
      tss_esp0 = kernel_stack pcb.parent_pid;
      process = set c.process pid not_in_use;
      process_terminal = put_process c c.running_terminal i not_in_use;
      process_terminal_cnt = set c.process_terminal_cnt c.running_terminal i;
      retval = status;
    }

halt_nested :
    (c : Kernel) (i pid status : ℕ)
    → count_at c c.running_terminal ≡ i + 1
    → 0 < i
    → i < 2 ^ 31
    → process_at c c.running_terminal i ≡ pid
    → (c.pcbs (get_pcb_by_index pid)).pid ≡ pid
    → pid ≢ 0
    → halt c status
      ≡ resumes
          (c.pcbs (get_pcb_by_index pid)).parent_esp
          (c.pcbs (get_pcb_by_index pid)).parent_ebp
          (released c i pid status)
unfolding halt
halt_nested c i pid status n pos small last own ne =
    let e : sub32 (i + 1) 1 ≡ i = ground arith in
    let z : (pid == 0) ≡ false = ground arith in
    let z' : (i == 0) ≡ false = ground arith in
    let z'' : (i + 1 == 0) ≡ false = ground arith in
    rw (n, z'', halt_process) (rw (e, last, own, z, z'))

-- Only the last mapping of a program counts.
map_program_twice : (p : Paging) (a b : ℕ) → map_program (map_program p a) b ≡ map_program p b
unfolding map_program
map_program_twice p a b = ap (λ d. record p { page_directory = d }) (fun_ext (λ j. ground arith))

-- The kernel after `take_pid` and the load, and the one after `create_pcb`.
module _ {k : Kernel} {t pid : ℕ} {process' : List ℕ} (m : Mem) (args_buf status : ℕ)
    (ready : Ready k t) (used : get_or k.process 0 not_in_use ≢ not_in_use)
    (taken : take_pid_from k.process 0 ≡ some (pid, process')) where
  abbrev loaded : Kernel
  loaded = record (with_mem k m) { process = process'; paging = map_program k.paging pid }

  abbrev made : Kernel
  made = create_pcb loaded pid args_buf

  abbrev n : ℕ
  n = count_at k t

  next : u32 (n + 1) ≡ n + 1
  next = ground (arith, ready.small)

  index : sub32 (u32 (n + 1)) 1 ≡ n
  index = ground (arith, ready.small)

  counted_made : count_at made made.running_terminal ≡ n + 1
  unfolding create_pcb
  counted_made =
      rw (ready.running, ready.shown)
        (get_or-set_self k.process_terminal_cnt t (u32 (n + 1)) 0 ready.counted ∙ next)

  last_made : process_at made made.running_terminal n ≡ pid
  unfolding create_pcb
  last_made =
      let row = get_or k.process_terminal t [] in
      rw (ready.running, ready.shown)
        (ap (λ r. get_or r n 0)
            (get_or-set_self k.process_terminal t (set row (sub32 (u32 (n + 1)) 1) pid) []
              ready.listed)
          ∙ ap (λ i. get_or (set row i pid) n 0) index
          ∙ get_or-set_self row n pid 0 ready.room)

  itself : (get_pcb_by_index pid == get_pcb_by_index pid) ≡ true
  itself = (==_iff _ _).1 refl

  own_made : (made.pcbs (get_pcb_by_index pid)).pid ≡ pid
  unfolding create_pcb
  own_made = rw itself refl

  nonzero : pid ≢ 0
  nonzero = take_pid_from_nonzero k.process process' pid used taken

  stack_made :
      ((made.pcbs (get_pcb_by_index pid)).parent_esp ≡ k.esp)
      × ((made.pcbs (get_pcb_by_index pid)).parent_ebp ≡ k.ebp)
  unfolding create_pcb
  stack_made = (rw itself refl, rw itself refl)

  halted : halt made status ≡ resumes k.esp k.ebp (released made n pid status)
  halted =
      halt_nested made n pid status counted_made ready.busy ready.small last_made own_made nonzero
      ∙ ap₂ (λ esp ebp. resumes esp ebp (released made n pid status)) stack_made.0 stack_made.1

  parent_made : (made.pcbs (get_pcb_by_index pid)).parent_pid ≡ top_pid k t
  unfolding create_pcb parent_of
  parent_made =
      let z : (pid == 0) ≡ false = ground (arith, nonzero) in
      let b : (count_at k t == 0) ≡ false = ground (arith, ready.busy) in
      rw (itself, ready.shown) (rw (z, b) refl)

  process_back : (released made n pid status).process ≡ k.process
  unfolding create_pcb
  process_back =
      let z : pid - 0 ≡ pid = omega arith in
      rw z at (take_pid_from_lem k.process process' 0 pid taken).1

  counts_back : (released made n pid status).process_terminal_cnt ≡ k.process_terminal_cnt
  unfolding create_pcb
  counts_back =
      rw (ready.running, ready.shown) (set-set_back k.process_terminal_cnt t (u32 (n + 1)) n 0 refl)

  row_back : (i : ℕ) → i ≢ n → process_at (released made n pid status) t i ≡ process_at k t i
  unfolding create_pcb
  row_back i h =
      let row = get_or k.process_terminal t [] in
      let slot = sub32 (u32 (n + 1)) 1 in
      let rows = set k.process_terminal t (set row slot pid) in
      let there : t < length rows =
        omega (arith, ready.listed, length-set k.process_terminal t (set row slot pid)) in
      let e : slot ≡ n = index in
      rw (ready.running, ready.shown)
        (ap (λ r. get_or r i 0) (get_or-set_self rows t (set (get_or rows t []) n 0) [] there)
          ∙ ap (λ r. get_or (set r n 0) i 0)
              (get_or-set_self k.process_terminal t (set row slot pid) [] ready.listed)
          ∙ get_or-set_ne (set row slot pid) n i 0 0 (λ z. h (sym z))
          ∙ get_or-set_ne row slot i pid 0 (λ z. h (sym z ∙ e)))

  slot_freed : process_at (released made n pid status) t n ≡ not_in_use
  unfolding create_pcb
  slot_freed =
      let row = get_or k.process_terminal t [] in
      let slot = sub32 (u32 (n + 1)) 1 in
      let rows = set k.process_terminal t (set row slot pid) in
      let there : t < length rows =
        omega (arith, ready.listed, length-set k.process_terminal t (set row slot pid)) in
      rw (ready.running, ready.shown)
        (ap (λ r. get_or r n 0) (get_or-set_self rows t (set (get_or rows t []) n 0) [] there)
          ∙ ap (λ r. get_or (set r n 0) n 0)
              (get_or-set_self k.process_terminal t (set row slot pid) [] ready.listed)
          ∙ get_or-set_self (set row slot pid) n 0 0
              (omega (arith, ready.room, length-set row slot pid)))

  terminals_back :
      (u : ℕ)
      → t ≢ u
      → get_or (released made n pid status).process_terminal u [] ≡ get_or k.process_terminal u []
  unfolding create_pcb
  terminals_back u ne =
      rw (ready.running, ready.shown)
        (get_or-set_ne (set k.process_terminal t _) t u _ [] ne
          ∙ get_or-set_ne k.process_terminal t u _ [] ne)

  paging_back : (released made n pid status).paging ≡ map_program k.paging (top_pid k t)
  unfolding create_pcb
  paging_back = map_program_twice k.paging pid _ ∙ ap (map_program k.paging) parent_made

  kernel_esp_back : (released made n pid status).tss_esp0 ≡ kernel_stack (top_pid k t)
  kernel_esp_back = ap kernel_stack parent_made

  blocks_back : (a : ℕ) → get_pcb_by_index pid ≢ a → (released made n pid status).pcbs a ≡ k.pcbs a
  unfolding create_pcb
  blocks_back a ne = let e : (get_pcb_by_index pid == a) ≡ false = ground (arith, ne) in rw e refl

  restored : Restored k t pid (top_pid k t) status (released made n pid status)
  restored = record {
    process = process_back;
    counts = counts_back;
    stack = row_back;
    freed = slot_freed;
    terminals = terminals_back;
    paging = paging_back;
    kernel_esp = kernel_esp_back;
    value = refl;
    blocks = blocks_back;
  }

-- Where one terminal is both shown and running and has a process and room for another one, and the
-- pid 0 is taken: a program that `execute` starts there and that halts next brings back what was
-- before. `halt` goes back to the stack of that `execute` with the program's status; the table of
-- pids, the counts, the rows of the other terminals, and the row of this one but for the slot behind
-- its last process, which is 0, are those from before; the page and the kernel stack are those of the
-- process last in the row; and no block of another process has changed. This holds whatever the load
-- of the program leaves in memory, `m`.
pub halt-create_pcb :
    (k : Kernel) (t pid : ℕ) (k₁ : Kernel) (m : Mem) (args_buf status : ℕ)
    → Ready k t
    → get_or k.process 0 not_in_use ≢ not_in_use
    → take_pid k ≡ some (pid, k₁)
    → (k' : Kernel) × (halt (create_pcb (with_mem k₁ m) pid args_buf) status
        ≡ resumes k.esp k.ebp k')
      × Restored k t pid (top_pid k t) status k'
unfolding take_pid
halt-create_pcb k t pid k₁ m args_buf status ready used h =
    let (process', taken, e) =
      taken_pid (λ p ps. record k { process = ps; paging = map_program k.paging p })
        (take_pid_from k.process 0) h in
    (
      released
          (made {k = k} {t = t} {pid = pid} {process' = process'} m args_buf status ready used
            taken)
          (count_at k t) pid status,
      ap (λ (x : Kernel). halt (create_pcb (with_mem x m) pid args_buf) status) e
          ∙ halted m args_buf status ready used taken,
      restored m args_buf status ready used taken,
    )
