-- ===== src/Programs/Syserr.antt =====
-- The program syscalls/ece391syserr.c, which tests the error returns of the system calls.
use ece391_mp3_illinix.Text.{codes}
use ece391_mp3_illinix.Programs.{give_up, Calls, say}
use ece391_mp3_illinix.Prelude.{
  ℕ, zero, suc, ◌+◌, ◌-◌, ◌^◌, Option, some, List, [], ◌==◌, if◌then◌else◌, ◌>>=◌,
}
use ece391_mp3_illinix.Word.{u32, sub32, minus_one}

-- The further system calls that it makes; `call_sys` is the trap with a number that names no call.
pub record Tested (S : Type 0) : Type 0 where
  pub calls : Calls S
  pub close : S → ℕ → Option (ℕ × S)
  pub vidmap : S → ℕ → Option (ℕ × S)
  pub call_sys : S → ℕ → Option (ℕ × S)

-- The constants of the file, as words.
abbrev pub neg_fd : ℕ
neg_fd = 2 ^ 32 - 1073741823

abbrev pub big_fd : ℕ
big_fd = 1073741823

module _ {S : Type 0} (t : Tested S) where
  -- `if (-1 != call) { fail = 2; ece391_fdputs(1, message); }` on the value of `fail` so far.
  abbrev pub expect_error : List ℕ → ℕ → ℕ × S → Option (ℕ × S)
  expect_error message fail (r, s) =
      if r == minus_one then some (fail, s) else (say t.calls s message >>= λ s₁. some (2, s₁))

  -- The last lines of a test.
  abbrev pub verdict : List ℕ → List ℕ → ℕ × S → Option (ℕ × S)
  verdict failed passed (fail, s) =
      say t.calls s (if fail == 0 then passed else failed) >>= λ s₁. some (fail, s₁)

  -- What `err_neg_fd` and `err_big_fd` do with their descriptor.
  abbrev bad_fd : List ℕ → List ℕ → ℕ → S → ℕ → Option (ℕ × S)
  bad_fd failed passed fd s buf =
      t.calls.read s fd buf 31 >>= expect_error (codes "read fail\n") 0 >>= λ a.
      t.calls.write a.1 fd buf 31 >>= expect_error (codes "write fail\n") a.0 >>= λ b.
      t.close b.1 fd >>= expect_error (codes "close fail\n") b.0 >>= verdict failed passed

  unfoldable pub err_neg_fd : S → ℕ → Option (ℕ × S)
  err_neg_fd s buf = bad_fd (codes "err_neg_fd: FAIL\n") (codes "err_neg_fd: PASS\n") neg_fd s buf

  unfoldable pub err_big_fd : S → ℕ → Option (ℕ × S)
  err_big_fd s buf = bad_fd (codes "err_big_fd: FAIL\n") (codes "err_big_fd: PASS\n") big_fd s buf

  -- The loops of `err_open_lots`: how many of `rest` calls of open fail, and the closes from `i` on.
  pub open_lots : ℕ → ℕ → S → Option (ℕ × S)
  open_lots cnt zero s = some (cnt, s)
  open_lots cnt (suc rest) s = t.calls.open_file s (t.calls.literal (codes ".")) >>= λ f.
      open_lots (if f.0 == minus_one then cnt + 1 else cnt) rest f.1

  pub close_all : ℕ → ℕ → S → Option S
  close_all i zero s = some s
  close_all i (suc rest) s = t.close s i >>= λ c. close_all (i + 1) rest c.1

  unfoldable pub err_open_lots : S → Option (ℕ × S)
  unfolding open_lots close_all
  err_open_lots s = open_lots 0 7 s >>= λ r. close_all 2 6 r.1 >>= λ s₁.
      verdict (codes "err_open_lots: FAIL\n") (codes "err_open_lots: PASS\n")
        (if r.0 == 1 then 0 else 2, s₁)

  abbrev open_named : List ℕ → S → Option (ℕ × S)
  open_named name s = t.calls.open_file s (t.calls.literal name)

  unfoldable pub err_open : S → Option (ℕ × S)
  err_open s = open_named (codes "helloo") s >>= expect_error (codes "'helloo' fail\n") 0 >>= λ a.
      open_named (codes "shel") a.1 >>= expect_error (codes "'shel' fail\n") a.0 >>= λ b.
      open_named [] b.1
      >>= expect_error (codes "empty string fail\n") b.0
      >>= verdict (codes "err_open: FAIL\n") (codes "err_open: PASS\n")

  -- The loops of `err_unopened`: one call for each descriptor from `i` on.
  unfoldable pub each_fails : (S → ℕ → Option (ℕ × S)) → List ℕ → ℕ → ℕ → ℕ × S → Option (ℕ × S)
  each_fails f message i zero (fail, s) = some (fail, s)
  each_fails f message i (suc rest) (fail, s) =
      f s i >>= expect_error message fail >>= each_fails f message (i + 1) rest

  unfoldable pub err_unopened : S → ℕ → Option (ℕ × S)
  unfolding each_fails
  err_unopened s buf =
      each_fails t.close (codes "close unopened or invalid fd fail\n") 0 8 (0, s)
      >>= each_fails (λ s i. t.calls.read s i buf 31) (codes "read from unopened fd fail\n") 2 6
      >>= each_fails (λ s i. t.calls.write s i buf 31) (codes "write to unopened fd fail\n") 2 6
      >>= verdict (codes "err_unopened: FAIL\n") (codes "err_unopened: PASS\n")

  unfoldable pub err_vidmap : S → Option (ℕ × S)
  err_vidmap s = t.vidmap s 0 >>= expect_error (codes "Null pointer fail\n") 0 >>= λ a.
      t.vidmap a.1 0x400000
      >>= expect_error (codes "Kernel pointer fail fail\n") a.0
      >>= verdict (codes "err_vidmap: FAIL\n") (codes "err_vidmap: PASS\n")

  unfoldable pub err_stdin_out : S → ℕ → Option (ℕ × S)
  err_stdin_out s buf =
      t.calls.write s 0 buf 31 >>= expect_error (codes "write to stdin fail\n") 0 >>= λ a.
      t.calls.read a.1 1 buf 31
      >>= expect_error (codes "read from stdout fail\n") a.0
      >>= verdict (codes "err_stdin_out: FAIL\n") (codes "err_stdin_out: PASS\n")

  unfoldable pub err_syscall_num : S → Option (ℕ × S)
  err_syscall_num s = t.call_sys s big_fd >>= expect_error (codes "syscall 0 fail\n") 0 >>= λ a.
      t.call_sys a.1 neg_fd >>= expect_error (codes "big num syscall fail\n") a.0 >>= λ b.
      t.call_sys b.1 0
      >>= expect_error (codes "neg num syscall fail\n") b.0
      >>= verdict (codes "err_syscall_num: FAIL\n") (codes "err_syscall_num: PASS\n")

  -- `fail += test()`.
  abbrev and_then : (S → Option (ℕ × S)) → ℕ × S → Option (ℕ × S)
  and_then test (fail, s) = test s >>= λ r. some (u32 (fail + r.0), r.1)

  -- All eight tests; `buf` is the array of 32 bytes of the tests that have one.
  unfoldable pub all_tests : S → ℕ → Option (ℕ × S)
  all_tests s buf =
      err_neg_fd s buf
      >>= and_then (λ s. err_big_fd s buf)
      >>= and_then err_open_lots
      >>= and_then err_open
      >>= and_then (λ s. err_unopened s buf)
      >>= and_then err_vidmap
      >>= and_then (λ s. err_stdin_out s buf)
      >>= and_then err_syscall_num
      >>= verdict (codes "\nOverall Tests: FAIL\n") (codes "\nOverall Tests: PASS\n")

  -- The `switch` of `main`.
  unfoldable pub run_tests : S → ℕ → ℕ → Option (ℕ × S)
  run_tests s buf select =
      if select == 0
      then all_tests s buf
      else if select == 1
      then err_neg_fd s buf
      else if select == 2
      then err_big_fd s buf
      else if select == 3
      then err_open_lots s
      else if select == 4
      then err_open s
      else if select == 5
      then err_unopened s buf
      else if select == 6
      then err_vidmap s
      else if select == 7
      then err_stdin_out s buf
      else if select == 8
      then err_syscall_num s
      else give_up t.calls s (codes "Invalid test number. Choose from tests 1-8 or 0") 0

  -- `main`; `line` is its array of 128 bytes.
  unfoldable pub syserr : S → ℕ → ℕ → Option (ℕ × S)
  unfolding run_tests
  syserr s line buf = say t.calls s (codes "Choose from tests 1-8. 0 to run all: ") >>= λ s₁.
      t.calls.read s₁ 0 line 127 >>= λ r.
      (let run = run_tests r.1 buf (sub32 (t.calls.memory r.1 line) b'0') in
        if r.0 == minus_one then give_up t.calls r.1 (codes "Can't read test #\n") 2 else run)
