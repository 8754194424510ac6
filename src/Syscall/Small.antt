-- ===== src/Syscall/Small.antt =====
-- The calls of student-distrib/syscall.c that use no file: `getargs`, `vidmap`, `set_handler` and
-- `sigreturn`.
use ece391_mp3_illinix.Prelude.{
  ℕ, zero, suc, ◌+◌, ◌-◌, Bool, not, ◌&&◌, ◌||◌, Option, none, some, ltb, ◌==◌, if◌then◌else◌,
}
use ece391_mp3_illinix.Word.{u32, minus_one, is_neg, slt}
use ece391_mp3_illinix.Memory.{Mem, store32}
use ece391_mp3_illinix.Text.{at, strncpy}
use ece391_mp3_illinix.Paging.{map_user_video, user_video}
use ece391_mp3_illinix.Kernel.{Kernel, mem, with_mem, get_curr_pcb, put_pcb, user_handler}

abbrev pub arg_max : ℕ
arg_max = 100

-- The loop of `getargs` with `k` rounds left: the offset of the last blank before the arguments, one
-- on; `none` is the return of -1 at the end of the array.
unfoldable pub arg_start : Mem → ℕ → ℕ → ℕ → Option ℕ
arg_start m argument offset zero = some offset
arg_start m argument offset (suc k) =
    let rest = arg_start m argument (offset + 1) k in
    if at m argument offset == b' ' && not (at m argument (offset + 1) == b' ')
    then some (offset + 1)
    else if offset == arg_max - 2
    then none
    else rest

unfoldable pub getargs : Kernel → ℕ → ℕ → ℕ × Kernel
unfolding arg_start
getargs k buf nbytes =
    let argument = (k.pcbs (get_curr_pcb k)).argument in
    let copied : ℕ × Kernel = elim (arg_start (mem k) argument 0 arg_max) [
      | none ↦ (minus_one, k)
      | some offset ↦ (0, with_mem k (strncpy (mem k) buf (u32 (argument + offset)) nbytes))
    ] in
    if at (mem k) argument 0 == 0 then (minus_one, k) else copied

-- The addresses of the user's 4 MB, up to its stack.
abbrev pub not_user : ℕ → Bool
not_user addr = ltb addr 0x8000000 || ltb (0x8000000 + 0x400000 - 4) addr

unfoldable pub vidmap : Kernel → ℕ → ℕ × Kernel
vidmap k screen_start = if not_user screen_start then (minus_one, k) else (
  user_video,
  record (with_mem k (store32 (mem k) screen_start user_video)) {
    paging = map_user_video k.paging;
  },
)

unfoldable pub set_handler : Kernel → ℕ → ℕ → ℕ × Kernel
set_handler k signum handler_address =
    let addr = get_curr_pcb k in
    if is_neg signum || slt 4 signum
    then (minus_one, k)
    else if handler_address == 0
    then (0, k)
    else (0, put_pcb k addr (record (k.pcbs addr) { sighandler = user_handler handler_address }))

unfoldable pub sigreturn : ℕ
sigreturn = minus_one
