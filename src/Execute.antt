-- ===== src/Execute.antt =====
-- `execute` of student-distrib/syscall.c as a whole: the command is parsed, the file is found and
-- checked, a pid is taken, the file is loaded, and the processor goes to the program's entry point.
pub mod Parse
pub mod Image
pub mod Start
pub mod Loaded
use ece391_mp3_illinix.Process.{take_pid, create_pcb}
use ece391_mp3_illinix.Print.{printf}
use ece391_mp3_illinix.Filesystem.{read_dentry_by_name, read_data}
use ece391_mp3_illinix.Kernel.{Kernel, with_mem, mem}
use ece391_mp3_illinix.Memory.{Mem, store8, load32}
use ece391_mp3_illinix.Text.{address_space, at, codes}
use ece391_mp3_illinix.Prelude.{
  ℕ, zero, suc, ◌+◌, ◌-◌, ◌*◌, ◌/◌, ◌%◌, ◌^◌, ◌≤◌, ◌<◌, min, max, ◌≡◌, refl, sym, ap, ap₂, ◌∙◌,
  fun_ext, subst, ◌≡⟨◌⟩◌, ◌∎, ◌≢◌, ◌↔◌, ◌⊎◌, inl, inr, Bool, true, false, not, ◌&&◌, ◌||◌, Option,
  none, some, List, [], ◌∷◌, ◌++◌, map, arith, dec_lt, dec_le, ℕ_discrete, ltb, leb, ◌==◌,
  if◌then◌else◌, Bool-cases, Option-cases, length, get_elem?, set, get_or, take, drop, replicate,
  length-set, get_or-set_self, get_or-set_ne, ◌>>=◌, ==_iff, every_below, every_below_use, same,
  same_sound,
}
use ece391_mp3_illinix.Word.{u8, u16, u32, sub32, minus_one, is_neg, slt, sle, sdiv, smod, sext8}

-- Where the locals of `execute` lie, and the bytes that the page of the new process holds.
pub record Frame : Type 0 where
  pub exe_name : ℕ
  pub args_buf : ℕ
  pub magics : ℕ
  pub dentry : ℕ
  pub page : Mem

-- The first loop: the index of the first byte that is no blank.
unfoldable pub skip_blanks : ℕ → Mem → ℕ → ℕ → Option ℕ
skip_blanks zero m command start = none
skip_blanks (suc fuel) m command start =
    let rest = skip_blanks fuel m command (u32 (start + 1)) in
    if at m command start == b' ' then rest else some start

-- What ends the arguments, and what ends the name.
abbrev pub ends_line : ℕ → Bool
ends_line c = c == 10 || c == 0

abbrev pub ends_name : ℕ → Bool
ends_name c = c == b' ' || ends_line c

-- The second loop: the length of the name.
unfoldable pub name_length : ℕ → Mem → ℕ → ℕ → ℕ → Option ℕ
name_length zero m command start len = none
name_length (suc fuel) m command start len =
    let rest = name_length fuel m command start (u32 (len + 1)) in
    if ends_name (at m command (start + len)) then some len else rest

-- How the copy of the name ends: `i` reached the end of the name, or one of the two checks failed.
pub data Copied : Type 0 where
  copied : Mem → Copied
  array_overflow : Mem → Copied
  too_long : Mem → Copied

-- The copy of the name, from its byte `j` on with `k` bytes left.
unfoldable pub copy_name : Mem → ℕ → ℕ → ℕ → ℕ → ℕ → Copied
copy_name m exe_name command start j zero = copied m
copy_name m exe_name command start j (suc k) =
    let i = start + j in
    let rest =
      copy_name (store8 m (u32 (exe_name + j)) (at m command i)) exe_name command start (j + 1) k in
    if ltb 127 i then array_overflow m else if ltb 32 j then too_long m else rest

-- The copy of the arguments, up to the end of the line, and the NUL after them.
unfoldable pub copy_args : ℕ → Mem → ℕ → ℕ → ℕ → ℕ → Option Mem
copy_args zero m args_buf command start j = none
copy_args (suc fuel) m args_buf command start j =
    let c = at m command (start + j) in
    let rest =
      copy_args fuel (store8 m (u32 (args_buf + j)) c) args_buf command start (u32 (j + 1)) in
    if ends_line c then some (store8 m (u32 (args_buf + j)) 0) else rest

-- The NUL after the name: at most 31 bytes of it are kept.
abbrev pub kept_name : ℕ → ℕ
kept_name len = if leb 32 len then 31 else len

-- Section 1 of `execute` after the copy of the name.
unfoldable pub parse_args : Frame → ℕ → ℕ → ℕ → Copied → Option Copied
parse_args f command start len (copied m) =
    copy_args address_space (store8 m (u32 (f.exe_name + kept_name len)) 0) f.args_buf command
      (start + len) 0
    >>= λ m'. some (copied m')
parse_args f command start len (array_overflow m) = some (array_overflow m)
parse_args f command start len (too_long m) = some (too_long m)

unfoldable pub parse_command : Mem → Frame → ℕ → Option Copied
parse_command m f command = skip_blanks address_space m command 0 >>= λ start.
    name_length address_space m command start 0 >>= λ len.
    parse_args f command start len (copy_name m f.exe_name command start 0 len)

-- How `execute` goes on: it returns, or `iret` enters the program at its entry point.
pub data Executed : Type 0 where
  returned : ℕ → Kernel → Executed
  enters : ℕ → Kernel → Executed

-- The four bytes that an executable starts with.
abbrev pub has_magic : Mem → ℕ → Bool
has_magic m magics =
    at m magics 0 == 0x7F && at m magics 1 == 0x45 && at m magics 2 == 0x4C && at m magics 3 == 0x46

abbrev pub program_offset : ℕ
program_offset = 0x08048000

-- What the processor sees once the page of the new process is mapped at 128 MB.
abbrev pub remapped : Mem → Mem → Mem
remapped m page a = if leb 0x08000000 a && ltb a 0x08400000 then page a else m a

-- Sections 4 to 6, with what section 3 came to.
unfoldable pub load_program : Frame → ℕ → ℕ → Option (ℕ × Kernel) → Kernel → Option Executed
load_program f i_node entry none k = some (returned minus_one k)
load_program f i_node entry (some (pid, k₁)) k =
    read_data (remapped (mem k₁) f.page) k₁.fs i_node 0 program_offset 0x400000 >>= λ r.
    some (enters entry (create_pcb (with_mem k₁ r.1) pid f.args_buf))

-- Sections 3 to 6.
unfoldable pub start_program : Kernel → Frame → ℕ → ℕ → Option Executed
start_program k f i_node entry = load_program f i_node entry (take_pid k) k

-- Section 2 with the entry of the file in `dentry`; what `read_data` returns is not looked at.
unfoldable pub check_image : Kernel → Frame → Option Executed
check_image k f =
    let i_node = load32 (mem k) (u32 (f.dentry + 36)) in
    read_data (mem k) k.fs i_node 0 f.magics 4 >>= λ r.
    if has_magic r.1 f.magics
    then (read_data r.1 k.fs i_node 24 f.magics 4 >>= λ e.
        start_program (with_mem k e.1) f i_node (load32 e.1 f.magics))
    else some (returned minus_one (with_mem k r.1))

unfoldable pub execute_named : Kernel → Frame → Option Executed
unfolding check_image start_program
execute_named k f = read_dentry_by_name (mem k) k.fs f.exe_name f.dentry >>= λ r.
    if r.0 == minus_one
    then some (returned minus_one (with_mem k r.1))
    else check_image (with_mem k r.1) f

-- A return of -1 after a message.
abbrev pub refuse : Kernel → Mem → List ℕ → Option Executed
refuse k m message = printf (with_mem k m).screen message [] >>= λ p.
    some (returned minus_one (record (with_mem k m) { screen = p.1 }))

unfoldable pub after_parse : Kernel → Frame → Copied → Option Executed
unfolding execute_named
after_parse k f (copied m) = execute_named (with_mem k m) f
after_parse k f (array_overflow m) =
    refuse k m (codes ">>>>>>>> keyboard array overflow <<<<<<<<<\n")
after_parse k f (too_long m) = refuse k m (codes ">>>>>>>> Commond is too long! <<<<<<<<<\n")

-- `execute(command)`; `none` is a loop that finds no end in all of memory.
unfoldable pub execute : Kernel → Frame → ℕ → Option Executed
execute k f command = parse_command (mem k) f command >>= after_parse k f

-- The end of `execute`, to which `halt` jumps.
unfoldable pub execute_result : Kernel → ℕ
execute_result k = if k.retval == 0x0F then 256 else 0
