-- ===== src/Signals.antt =====
-- The signals of student-distrib/syscall.c: what the kernel's own handler does with each of them.
pub mod Ends
use ece391_mp3_illinix.Scheduling.{send_signal}
use ece391_mp3_illinix.Process.{Halted, halt}
use ece391_mp3_illinix.Kernel.{signal_default, Kernel, Handler, user_handler}
use ece391_mp3_illinix.Word.{u8}
use ece391_mp3_illinix.Prelude.{ℕ, ◌||◌, ◌==◌, if◌then◌else◌}

-- `_kill` and `kill`.
unfoldable pub quiet_kill : Kernel → Halted
quiet_kill k = halt k 0

unfoldable pub kill : Kernel → Halted
kill k = halt k 0xF

-- What a handler comes to: the process ends, or the handler returns.
pub data Delivered : Type 0 where
  ended : Halted → Delivered
  ignored : Kernel → Delivered
  calls_user : ℕ → ℕ → Kernel → Delivered

-- `signal_default(signum)`: DIV_ZERO, SEGFAULT, INTERRUPT, and the others.
unfoldable pub default_action : Kernel → ℕ → Delivered
unfolding kill quiet_kill
default_action k signum =
    if signum == 0 || signum == 1
    then ended (kill k)
    else if signum == 2
    then ended (quiet_kill k)
    else ignored k

-- The call through the handler of the process.
unfoldable pub deliver : Kernel → Handler → ℕ → Delivered
unfolding default_action
deliver k signal_default signum = default_action k signum
deliver k (user_handler address) signum = calls_user address signum k

-- `send_signal(signum)`, through the handler of the running process; `signum` is a uint8_t.
unfoldable pub send : Kernel → ℕ → Delivered
unfolding deliver
send k signum = deliver k (send_signal k (u8 signum)) (u8 signum)
