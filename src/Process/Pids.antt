-- ===== src/Process/Pids.antt =====
-- The choice of a pid in `execute` of student-distrib/syscall.c.
use ece391_mp3_illinix.Prelude.{
  ℕ, suc, ◌+◌, ◌-◌, ◌≤◌, ◌≡◌, refl, sym, ap, ◌∙◌, ◌≢◌, true, false, Option, none, some, List, [],
  ◌∷◌, arith, ℕ_discrete, ◌==◌, set, get_or, ◌>>=◌,
}
use ece391_mp3_illinix.Kernel.{Kernel, in_use, not_in_use}
use ece391_mp3_illinix.Process.{take_pid_from}

after_used :
    (o : Option (ℕ × List ℕ)) {used pid : ℕ} {process' : List ℕ}
    → ◌>>=◌ {B = ℕ × List ℕ} o (λ r. some (r.0, used ∷ r.1)) ≡ some (pid, process')
    → (rest : List ℕ) × (◌≡◌ {A = Option (ℕ × List ℕ)} o (some (pid, rest)))
      × (process' ≡ used ∷ rest)
after_used none h = cc
after_used (some (p, rest)) h = (rest, cc, cc)

-- The pid taken was free: marking it free again gives the table back.
pub take_pid_from_lem :
    (process process' : List ℕ) (new_pid pid : ℕ)
    → take_pid_from process new_pid ≡ some (pid, process')
    → (new_pid ≤ pid) × (set process' (pid - new_pid) not_in_use ≡ process)
unfolding take_pid_from
take_pid_from_lem [] process' new_pid pid h = cc
take_pid_from_lem (used ∷ process) process' new_pid pid h = elim (ℕ_discrete used not_in_use) [
  | yes free ↦
      let e : (used == not_in_use) ≡ true = ground arith in
      let h' : ◌≡◌ {A = Option (ℕ × List ℕ)} (some (new_pid, in_use ∷ process))
          (some (pid, process')) =
        rw e at h in
      let p : new_pid ≡ pid = cc in
      let q : in_use ∷ process ≡ process' = cc in
      let z : pid - new_pid ≡ 0 = omega arith in (omega arith, rw (z, ← q, free) refl)
  | no taken ↦
      let e : (used == not_in_use) ≡ false = ground arith in
      let (rest, r, q) = after_used (take_pid_from process (new_pid + 1)) (rw e at h) in
      let (le, back) = take_pid_from_lem process rest (new_pid + 1) pid r in
      let z : pid - new_pid ≡ suc (pid - (new_pid + 1)) = omega arith in
      (omega arith, rw (q, z) (ap (λ ps. used ∷ ps) back))
]

-- With pid 0 in use a new process gets another one.
pub take_pid_from_nonzero :
    (process process' : List ℕ) (pid : ℕ)
    → get_or process 0 not_in_use ≢ not_in_use
    → take_pid_from process 0 ≡ some (pid, process')
    → pid ≢ 0
unfolding take_pid_from
take_pid_from_nonzero [] process' pid used h = absurd (used refl)
take_pid_from_nonzero (p ∷ process) process' pid used h =
    let e : (p == not_in_use) ≡ false = ground arith in
    let (rest, r, q) = after_used (take_pid_from process 1) (rw e at h) in
    let (le, back) = take_pid_from_lem process rest 1 pid r in λ z. omega arith

pub taken_pid :
    (f : ℕ → List ℕ → Kernel) (o : Option (ℕ × List ℕ)) {pid : ℕ} {k₁ : Kernel}
    → ◌>>=◌ {B = ℕ × Kernel} o (λ r. some (r.0, f r.0 r.1)) ≡ some (pid, k₁)
    → (process' : List ℕ) × (◌≡◌ {A = Option (ℕ × List ℕ)} o (some (pid, process')))
      × (k₁ ≡ f pid process')
taken_pid f none h = cc
taken_pid f (some (p, process')) {pid} {k₁} h =
    let h' : ◌≡◌ {A = Option (ℕ × Kernel)} (some (p, f p process')) (some (pid, k₁)) = h in
    let e : p ≡ pid = cc in
    let g : f p process' ≡ k₁ = cc in
    (process', ap (λ x. some (x, process')) e, sym g ∙ ap (λ x. f x process') e)
