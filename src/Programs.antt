-- ===== src/Programs.antt =====
-- The user programs ece391cat.c, ece391ls.c, ece391hello.c, ece391testprint.c and ece391shell.c of
-- syscalls/, over the system calls that they make.
pub mod OnKernel
pub mod Cat
pub mod Shows
pub mod Tools
pub mod Syserr
pub mod Passes
use ece391_mp3_illinix.Support.{ece391_strlen, ece391_strcmp}
use ece391_mp3_illinix.Memory.{Mem, store8}
use ece391_mp3_illinix.Text.{codes}
use ece391_mp3_illinix.Prelude.{
  ℕ, zero, suc, ◌+◌, not, ◌&&◌, Option, none, some, List, ◌==◌, if◌then◌else◌, ◌>>=◌,
}
use ece391_mp3_illinix.Word.{u32, sub32, minus_one, slt}

-- The system calls as a program sees them, on a state `S` that holds its memory; `none` is a call that
-- does not come back. `literal` gives the address of a string literal.
pub record Calls (S : Type 0) : Type 0 where
  pub memory : S → Mem
  pub with_memory : S → Mem → S
  pub literal : List ℕ → ℕ
  pub getargs : S → ℕ → ℕ → Option (ℕ × S)
  pub open_file : S → ℕ → Option (ℕ × S)
  pub read : S → ℕ → ℕ → ℕ → Option (ℕ × S)
  pub write : S → ℕ → ℕ → ℕ → Option (ℕ × S)
  pub run : S → ℕ → Option (ℕ × S)

module _ {S : Type 0} (calls : Calls S) where
  -- `ece391_fdputs(1, s)`, of a string in memory and of a literal.
  abbrev pub show : S → ℕ → Option S
  show s text =
      ece391_strlen (calls.memory s) text >>= λ len. calls.write s 1 text len >>= λ r. some r.1

  abbrev pub say : S → List ℕ → Option S
  say s text = show s (calls.literal text)

  -- A message, and the value that `main` returns.
  abbrev pub give_up : S → List ℕ → ℕ → Option (ℕ × S)
  give_up s text status = say s text >>= λ s₁. some (status, s₁)

  abbrev pub poke : S → ℕ → ℕ → S
  poke s a v = calls.with_memory s (store8 (calls.memory s) a v)

  -- The loop of `cat`: what is read goes out until a read returns 0.
  unfoldable pub cat_loop : ℕ → S → ℕ → ℕ → Option (ℕ × S)
  cat_loop zero s fd buf = none
  cat_loop (suc fuel) s fd buf = calls.read s fd buf 1024 >>= λ r.
      (let cnt = r.0 in
        let out = calls.write r.1 1 buf cnt >>= λ w.
        (let rest = cat_loop fuel w.1 fd buf in if w.0 == minus_one then some (3, w.1) else rest) in
        if cnt == 0
        then some (0, r.1)
        else if cnt == minus_one
        then give_up r.1 (codes "file read failed\n") 3
        else out)

  unfoldable pub cat : ℕ → S → ℕ → Option (ℕ × S)
  cat fuel s buf = calls.getargs s buf 1024 >>= λ a.
      (let named = calls.open_file a.1 buf >>= λ f.
      if f.0 == minus_one
      then give_up f.1 (codes "file not found\n") 2
      else cat_loop fuel f.1 f.0 buf in
        if not (a.0 == 0) then give_up a.1 (codes "could not read arguments\n") 3 else named)

  -- The loop of `ls`: each name gets a new line at its end.
  pub ls_loop : ℕ → S → ℕ → ℕ → Option (ℕ × S)
  ls_loop zero s fd buf = none
  ls_loop (suc fuel) s fd buf = calls.read s fd buf 32 >>= λ r.
      (let cnt = r.0 in
        let line = poke r.1 (u32 (buf + cnt)) b'\n' in
        let out = calls.write line 1 buf (u32 (cnt + 1)) >>= λ w.
        (let rest = ls_loop fuel w.1 fd buf in if w.0 == minus_one then some (3, w.1) else rest) in
        if cnt == 0
        then some (0, r.1)
        else if cnt == minus_one
        then give_up r.1 (codes "directory entry read failed\n") 3
        else out)

  unfoldable pub ls : ℕ → S → ℕ → Option (ℕ × S)
  ls fuel s buf = calls.open_file s (calls.literal (codes ".")) >>= λ f.
      if f.0 == minus_one
      then give_up f.1 (codes "directory open failed\n") 2
      else ls_loop fuel f.1 f.0 buf

  -- `hello` and `testprint`.
  unfoldable pub hello : S → ℕ → Option (ℕ × S)
  hello s buf = say s (codes "Hi, what's your name? ") >>= λ s₁. calls.read s₁ 0 buf 1023 >>= λ r.
      (let greeting = say (poke r.1 (u32 (buf + r.0)) 0) (codes "Hello, ") >>= λ s₂.
      show s₂ buf >>= λ s₃. some (0, s₃) in
        if r.0 == minus_one
        then give_up r.1 (codes "Can't read name from keyboard.\n") 3
        else greeting)

  unfoldable pub testprint : S → Option (ℕ × S)
  testprint s = give_up s (codes "Hello, if this ran, the program was correct. Yay!\n") 0

  -- What `shell` says of the value of a command.
  unfoldable pub report : S → ℕ → Option S
  report s rval =
      if rval == minus_one
      then say s (codes "no such command\n")
      else if rval == 256
      then say s (codes "program terminated by exception\n")
      else if not (rval == 0)
      then say s (codes "program terminated abnormally\n")
      else some s

  -- The line that was read: a new line at its end is cut off.
  abbrev pub line_length : S → ℕ → ℕ → ℕ
  line_length s buf cnt =
      if slt 0 cnt && calls.memory s (u32 (buf + sub32 cnt 1)) == b'\n' then sub32 cnt 1 else cnt

  -- The loop of `shell`.
  pub shell_loop : ℕ → S → ℕ → Option (ℕ × S)
  unfolding report
  shell_loop zero s buf = none
  shell_loop (suc fuel) s buf = say s (codes "391OS> ") >>= λ s₁. calls.read s₁ 0 buf 1023 >>= λ r.
      (let s₂ = poke r.1 (u32 (buf + line_length r.1 buf r.0)) 0 in
        let again = shell_loop fuel s₂ buf in
        let command = calls.run s₂ buf >>= λ c. report c.1 c.0 >>= λ s₃. shell_loop fuel s₃ buf in
        let step = ece391_strcmp (calls.memory s₂) buf (calls.literal (codes "exit")) >>= λ c.
        if c == 0 then some (0, s₂) else if calls.memory s₂ buf == 0 then again else command in
        if r.0 == minus_one then give_up r.1 (codes "read from keyboard failed\n") 3 else step)

  unfoldable pub shell : ℕ → S → ℕ → Option (ℕ × S)
  unfolding shell_loop
  shell fuel s buf = say s (codes "Starting 391 Shell\n") >>= λ s₁. shell_loop fuel s₁ buf
