-- ===== src/Programs/OnKernel.antt =====
-- The programs of syscalls/ on the kernel's own system calls, as student-distrib/syscall_linkage.S
-- passes them on.
use ece391_mp3_illinix.Syscall.{Outcome, Call, returns, waits, divide_error, open_file, read, write}
use ece391_mp3_illinix.Syscall.Small.{getargs}
use ece391_mp3_illinix.Programs.{show, Calls}
use ece391_mp3_illinix.Support.{ece391_strlen, ece391_fdputs}
use ece391_mp3_illinix.Kernel.{Kernel, mem, with_mem}
use ece391_mp3_illinix.Prelude.{ℕ, ◌≡◌, refl, Option, none, some, List, ◌>>=◌}

-- A call that comes back, with its value in eax.
abbrev pub came_back : Outcome → Option (ℕ × Kernel)
came_back (returns r k) = some (r, k)
came_back waits = none
came_back divide_error = none

-- The calls of one process; what `execute` comes to for it, and where its literals lie, are parameters.
abbrev pub kernel_calls : (List ℕ → ℕ) → (Kernel → ℕ → Option (ℕ × Kernel)) → Call → Calls Kernel
kernel_calls literal run c = record {
  memory = mem;
  with_memory = with_mem;
  literal = literal;
  getargs = λ k buf nbytes. some (getargs k buf nbytes);
  open_file = λ k filename. came_back (open_file k c filename);
  read = λ k fd buf nbytes. came_back (read k c fd buf nbytes);
  write = λ k fd buf nbytes. came_back (write k fd buf nbytes);
  run = run;
}

-- `ece391_fdputs` of the library is what the programs call, on descriptor 1.
pub show-ece391_fdputs :
    (literal : List ℕ → ℕ) (run : Kernel → ℕ → Option (ℕ × Kernel)) (c : Call) (k : Kernel) (s : ℕ)
    → show (kernel_calls literal run c) k s ≡ (ece391_fdputs k 1 s >>= came_back >>= λ r. some r.1)
unfolding ece391_fdputs
show-ece391_fdputs literal run c k s = by_length (ece391_strlen (mem k) s)
  where
    by_length :
        (o : Option ℕ)
        → (o >>= λ len. came_back (write k 1 s len) >>= λ r. some r.1)
          ≡ ((o >>= λ len. some (write k 1 s len)) >>= came_back >>= λ r. some r.1)
    by_length none = refl
    by_length (some len) = refl
