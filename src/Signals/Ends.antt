-- ===== src/Signals/Ends.antt =====
-- What the parent of a process that a signal ends gets from `execute` (student-distrib/syscall.c).
use ece391_mp3_illinix.Kernel.{get_curr_pcb, signal_default}
use ece391_mp3_illinix.Execute.{execute_result}
use ece391_mp3_illinix.Process.{
  out_of_bounds, resumes, executes_shell, halt, Halted, resumes, halt_process, executes_shell,
  count_at,
}
use ece391_mp3_illinix.Signals.{
  ended, ignored, calls_user, default_action, send, Delivered, kill, deliver, Kernel, ended,
  quiet_kill, ignored, calls_user,
}
use ece391_mp3_illinix.Word.{u8}
use ece391_mp3_illinix.Prelude.{
  ℕ, ◌≡◌, refl, sym, ap, ◌∙◌, subst, inl, inr, Bool, true, false, ◌||◌, arith, ℕ_discrete, ◌==◌,
  if◌then◌else◌, Bool-cases,
}

-- The value that a return into the parent's `execute` carries.
abbrev retval_or : ℕ → Halted → ℕ
retval_or d (resumes esp ebp k) = k.retval
retval_or d (executes_shell esp ebp k) = d
retval_or d out_of_bounds = d

retval_or-if :
    (d : ℕ) (b : Bool) (x y : Halted)
    → retval_or d x ≡ d
    → retval_or d y ≡ d
    → retval_or d (if b then x else y) ≡ d
retval_or-if d true x y hx hy = hx
retval_or-if d false x y hx hy = hy

halt-retval : (k : Kernel) (status : ℕ) → retval_or status (halt k status) ≡ status
unfolding halt halt_process
halt-retval k status =
    retval_or-if status (count_at k k.running_terminal == 0) out_of_bounds _ refl
      (retval_or-if status _ (executes_shell _ _ _) (resumes _ _ _) refl refl)

abbrev halted_of : Halted → Delivered → Halted
halted_of d (ended h) = h
halted_of d (ignored k) = d
halted_of d (calls_user address signum k) = d

-- The status with which the kernel's handler ends a process.
abbrev status_of : ℕ → ℕ
status_of signum = if signum == 2 then 0 else 0xF

default_action-status :
    (k : Kernel) (signum : ℕ)
    → let h = halt k (status_of signum) in halted_of h (default_action k signum) ≡ h
unfolding default_action kill quiet_kill
default_action-status k signum = elim (ℕ_discrete signum 2) [
  | yes e ↦
      subst (λ s. halted_of (halt k (status_of s)) (default_action k s) ≡ halt k (status_of s))
        (sym e) refl
  | no ne ↦
      let t : (signum == 2) ≡ false = ground arith in
      rw t
        (elim (Bool-cases (signum == 0 || signum == 1)) [ inl e ↦ rw e refl | inr e ↦ rw e refl ])
]

default_action-ended :
    (k : Kernel) (signum : ℕ) (h : Halted)
    → default_action k signum ≡ ended h
    → h ≡ halt k (status_of signum)
default_action-ended k signum h e =
    sym (ap (halted_of (halt k (status_of signum))) e) ∙ default_action-status k signum

-- Where a process has left the kernel's handler in place and a signal ends it, and its parent is
-- resumed, the parent's `execute` returns 256, the value for an exception, unless the signal, a
-- uint8_t, is INTERRUPT, for which it returns 0.
pub send-execute_result :
    (k k' : Kernel) (signum esp ebp : ℕ)
    → (k.pcbs (get_curr_pcb k)).sighandler ≡ signal_default
    → send k signum ≡ ended (resumes esp ebp k')
    → execute_result k' ≡ (if u8 signum == 2 then 0 else 256)
unfolding send deliver execute_result
send-execute_result k k' signum esp ebp own e =
    let d =
      default_action-ended k (u8 signum) (resumes esp ebp k')
        (ap (λ f. deliver k f (u8 signum)) (sym own) ∙ e) in
    let r : k'.retval ≡ status_of (u8 signum) =
      ap (retval_or (status_of (u8 signum))) d ∙ halt-retval k (status_of (u8 signum)) in
    rw r (ground arith)
