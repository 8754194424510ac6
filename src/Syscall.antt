-- ===== src/Syscall.antt =====
-- The system calls on files of student-distrib/syscall.c, with the file operations that they reach
-- through the tables of `file_operation_ptrs`, and the small calls beside them.
pub mod Descriptors
pub mod Files
pub mod Reading
pub mod Small
use Prim.Native.String.{String}
use ece391_mp3_illinix.Prelude.{
  ℕ, zero, suc, ◌+◌, ◌-◌, ◌*◌, ◌/◌, ◌%◌, ◌^◌, ◌≤◌, ◌<◌, min, max, ◌≡◌, refl, sym, ap, ap₂, ◌∙◌,
  fun_ext, subst, ◌≡⟨◌⟩◌, ◌∎, ◌≢◌, ◌↔◌, ◌⊎◌, inl, inr, Bool, true, false, not, ◌&&◌, ◌||◌, Option,
  none, some, List, [], ◌∷◌, ◌++◌, map, arith, dec_lt, dec_le, ℕ_discrete, ltb, leb, ◌==◌,
  if◌then◌else◌, Bool-cases, Option-cases, length, get_elem?, set, get_or, take, drop, replicate,
  length-set, ◌>>=◌, ==_iff, every_below, every_below_use, same, same_sound,
}
use ece391_mp3_illinix.Word.{u8, u16, u32, sub32, minus_one, is_neg, slt, sle, sdiv, smod, sext8}
use ece391_mp3_illinix.Memory.{Mem, store8, load32}
use ece391_mp3_illinix.Text.{at, strncpy, codes}
use ece391_mp3_illinix.Console.{Screen}
use ece391_mp3_illinix.Print.{printf}
use ece391_mp3_illinix.Filesystem.{
  Fs, read_dentry_by_name, read_data, dir_open, dir_close, dir_read, dir_write, file_open,
  file_close, file_write,
}
use ece391_mp3_illinix.Rtc
use ece391_mp3_illinix.Rtc.{SetFreq, rtc_read, rtc_write, rtc_open, rtc_close}
use ece391_mp3_illinix.Terminal.{terminal_open, terminal_close, terminal_read, terminal_write}
use ece391_mp3_illinix.Kernel.{
  Kernel, Pcb, FileDesc, Ops, fail_funcs, stdin_funcs, stdout_funcs, dir_funcs, rtc_funcs,
  file_funcs, mem, with_mem, get_curr_pcb, put_pcb, file_at, put_file, in_use, not_in_use, min_fd,
  max_fd,
}

-- How a call ends: it returns, it still waits for a device, or the processor faults.
pub data Outcome : Type 0 where
  returns : ℕ → Kernel → Outcome
  waits : Outcome
  divide_error : Outcome

-- What a call finds: the interrupts of the clock that come while it waits, and the address of its
-- local `dentry`.
pub record Call : Type 0 where
  pub ticks : ℕ
  pub dentry : ℕ

abbrev pub fail : ℕ
fail = minus_one

abbrev pub curr_pcb : Kernel → Pcb
curr_pcb k = k.pcbs (get_curr_pcb k)

abbrev pub from_option : Option (ℕ × Kernel) → Outcome
from_option none = waits
from_option (some (r, k)) = returns r k

abbrev pub from_rtc : Kernel → Option SetFreq → Outcome
from_rtc k none = waits
from_rtc k (some (SetFreq.returned r rtc)) = returns r (record k { rtc = rtc })
from_rtc k (some SetFreq.divide_error) = divide_error

-- A write to `pcb->files[fd]` of the running process.
abbrev pub update_file : Kernel → ℕ → FileDesc → Kernel
update_file k fd f = put_pcb k (get_curr_pcb k) (put_file (curr_pcb k) fd f)

-- `file_read`: the position moves by whatever `read_data` returned.
unfoldable pub file_read : Kernel → ℕ → ℕ → ℕ → Option (ℕ × Kernel)
file_read k fd buf nbytes =
    let f = file_at (curr_pcb k) fd in
    read_data (mem k) k.fs f.inode f.file_pos buf nbytes >>= λ r.
    some (r.0, update_file (with_mem k r.1) fd (record f { file_pos = u32 (f.file_pos + r.0) }))

-- `ptrs->read(fd, buf, nbytes)`.
unfoldable pub ops_read : Kernel → Call → Ops → ℕ → ℕ → ℕ → Outcome
unfolding file_read
ops_read k c stdin_funcs fd buf nbytes = from_option (terminal_read k fd buf nbytes)
ops_read k c dir_funcs fd buf nbytes = from_option (
    dir_read (mem k) k.fs c.dentry buf nbytes >>= λ r.
    some (r.0, record (with_mem k r.1) { fs = r.2 }))
ops_read k c rtc_funcs fd buf nbytes =
    from_option
      (rtc_read c.ticks k.rtc k.running_terminal >>= λ r. some (r.0, record k { rtc = r.1 }))
ops_read k c file_funcs fd buf nbytes = from_option (file_read k fd buf nbytes)
ops_read k c _ fd buf nbytes = returns fail k

-- `ptrs->write(fd, buf, nbytes)`.
unfoldable pub ops_write : Kernel → Ops → ℕ → ℕ → ℕ → Outcome
ops_write k stdout_funcs fd buf nbytes =
    let (r, k') = terminal_write k fd buf nbytes in returns r k'
ops_write k dir_funcs fd buf nbytes = returns (dir_write fd buf nbytes) k
ops_write k rtc_funcs fd buf nbytes =
    from_rtc k (rtc_write k.rtc k.running_terminal buf (load32 (mem k) buf) nbytes)
ops_write k file_funcs fd buf nbytes = returns (file_write fd buf nbytes) k
ops_write k _ fd buf nbytes = returns fail k

-- `ptrs->open(filename)` and `ptrs->close(fd)`.
unfoldable pub ops_open : Kernel → Ops → ℕ → Outcome
ops_open k fail_funcs filename = returns fail k
ops_open k dir_funcs filename = let (r, fs) = dir_open k.fs in returns r (record k { fs = fs })
ops_open k rtc_funcs filename = from_rtc k (rtc_open k.rtc k.running_terminal)
ops_open k file_funcs filename = returns (file_open filename) k
ops_open k _ filename = returns (terminal_open filename) k

unfoldable pub ops_close : Ops → ℕ → ℕ
unfolding dir_close rtc_close file_close terminal_close
ops_close fail_funcs fd = fail
ops_close dir_funcs fd = dir_close fd
ops_close rtc_funcs fd = rtc_close fd
ops_close file_funcs fd = file_close fd
ops_close _ fd = terminal_close fd

-- The checks that `read` and `write` share.
abbrev pub bad_transfer : Kernel → ℕ → ℕ → ℕ → Bool
bad_transfer k fd buf nbytes =
    is_neg fd
    || sle max_fd fd
    || is_neg nbytes
    || buf == 0
    || (file_at (curr_pcb k) fd).flags == not_in_use

unfoldable pub read : Kernel → Call → ℕ → ℕ → ℕ → Outcome
unfolding ops_read
read k c fd buf nbytes =
    if bad_transfer k fd buf nbytes
    then returns minus_one k
    else ops_read k c (file_at (curr_pcb k) fd).ptrs fd buf nbytes

unfoldable pub write : Kernel → ℕ → ℕ → ℕ → Outcome
unfolding ops_write
write k fd buf nbytes =
    if bad_transfer k fd buf nbytes
    then returns minus_one k
    else ops_write k (file_at (curr_pcb k) fd).ptrs fd buf nbytes

-- The loop of `open` over the descriptors, from `i` on with `rest` of them left.
unfoldable pub free_fd : List FileDesc → ℕ → ℕ → Option ℕ
free_fd files i zero = none
free_fd files i (suc rest) =
    if (get_or files i
        (record { ptrs = fail_funcs; inode = 0; file_pos = 0; flags = not_in_use })).flags
      == not_in_use
    then some i
    else free_fd files (i + 1) rest

-- The table for a file type.
abbrev pub funcs_of : ℕ → Option Ops
funcs_of f_type =
    if f_type == 0
    then some rtc_funcs
    else if f_type == 1
    then some dir_funcs
    else if f_type == 2
    then some file_funcs
    else none

-- `open` from the switch on, with the descriptor `i` taken.
unfoldable pub open_as : Kernel → ℕ → ℕ → Option Ops → Outcome
unfolding ops_open
open_as k i filename none = elim (printf k.screen (codes "invalid file type!!!\n") []) [
  | none ↦ waits
  | some (n, s) ↦ returns minus_one (record k { screen = s })
]
open_as k i filename (some ops) =
    let k₁ = update_file k i (record (file_at (curr_pcb k) i) { ptrs = ops }) in
    elim (ops_open k₁ ops filename) [
      | returns r k₂ ↦ returns (if r == minus_one then minus_one else i) k₂
      | waits ↦ waits
      | divide_error ↦ divide_error
    ]

-- `open` with the entry of the file in `dentry`.
unfoldable pub open_entry : Kernel → Call → ℕ → Outcome
unfolding free_fd open_as
open_entry k c filename =
    let pcb = curr_pcb k in
    let f_type = load32 (mem k) (u32 (c.dentry + 32)) in
    let i_node = load32 (mem k) (u32 (c.dentry + 36)) in
    elim (free_fd pcb.files min_fd (max_fd - min_fd)) [
      | none ↦ returns minus_one k
      | some i ↦
          let f = record (file_at pcb i) { flags = in_use; file_pos = 0; inode = i_node } in
          open_as (update_file k i f) i filename (funcs_of f_type)
    ]

unfoldable pub open_file : Kernel → Call → ℕ → Outcome
unfolding open_entry
open_file k c filename =
    let found : Outcome = elim (read_dentry_by_name (mem k) k.fs filename c.dentry) [
      | none ↦ waits
      | some (r, m) ↦
          if r == minus_one then returns minus_one k else open_entry (with_mem k m) c filename
    ] in
    if filename == 0 then returns minus_one k else found

unfoldable pub close : Kernel → ℕ → Outcome
unfolding ops_close
close k fd =
    let pcb = curr_pcb k in
    let f = file_at pcb fd in
    let k₁ = update_file k fd (record f { flags = not_in_use }) in
    if slt fd min_fd || sle max_fd fd
    then returns minus_one k
    else if f.flags == not_in_use
    then returns minus_one k
    else returns (ops_close f.ptrs fd) k₁
