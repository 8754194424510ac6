-- ===== src/Kernel/Stacks.antt =====
-- The two ways to a process control block in student-distrib/lib.c.
use ece391_mp3_illinix.Prelude.{ℕ, ◌-◌, ◌*◌, ◌≤◌, ◌<◌, ◌≡◌, arith}
use ece391_mp3_illinix.Kernel.{Kernel, get_curr_pcb, get_pcb_by_index}

-- While a process of the six runs on its kernel stack, which starts four bytes below 8 MB - pid * 8 kB,
-- and has used at most 8 kB - 4 bytes of it, the mask on the stack pointer finds its own block.
pub get_curr_pcb-get_pcb_by_index :
    (k : Kernel) (pid used : ℕ)
    → pid < 6
    → used ≤ 0x2000 - 4
    → k.esp ≡ 0x800000 - pid * 0x2000 - 4 - used
    → get_curr_pcb k ≡ get_pcb_by_index pid
unfolding get_curr_pcb get_pcb_by_index
get_curr_pcb-get_pcb_by_index k pid used h hu e = omega (arith, e)
