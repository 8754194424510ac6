-- ===== src/Programs/Passes.antt =====
-- The kernel of student-distrib/ under the tests of syscalls/ece391syserr.c.
use ece391_mp3_illinix.Programs.OnKernel.{kernel_calls, came_back}
use ece391_mp3_illinix.Programs.{say, codes}
use ece391_mp3_illinix.Programs.Syserr.{
  err_big_fd, Tested, err_stdin_out, err_unopened, each_fails, neg_fd, big_fd, expect_error,
  err_neg_fd, err_vidmap,
}
use ece391_mp3_illinix.Syscall.Small.{vidmap}
use ece391_mp3_illinix.Syscall.Files.{file_now}
use ece391_mp3_illinix.Syscall.{
  Call, read, write, close, bad_transfer, returns, ops_write, ops_read,
}
use ece391_mp3_illinix.Kernel.{Kernel, in_use, stdin_funcs, not_in_use, stdout_funcs}
use ece391_mp3_illinix.Prelude.{
  ℕ, zero, suc, ◌+◌, ◌≤◌, ◌<◌, ◌≡◌, refl, ap, ◌∙◌, inl, inr, true, ◌||◌, Option, some, List, arith,
  dec_lt, ◌==◌, Bool-cases, ◌>>=◌, if_true, if_false,
}
use ece391_mp3_illinix.Word.{minus_one, slt, sle}

-- The calls of one process; what the trap does with a number that names no call is a parameter.
abbrev pub kernel_tested :
    (List ℕ → ℕ)
    → (Kernel → ℕ → Option (ℕ × Kernel))
    → (Kernel → ℕ → Option (ℕ × Kernel))
    → Call
    → Tested Kernel
kernel_tested literal run call_sys c = record {
  calls = kernel_calls literal run c;
  close = λ k fd. came_back (close k fd);
  vidmap = λ k p. some (vidmap k p);
  call_sys = call_sys;
}

-- The descriptors of a process that has opened nothing.
pub record NothingOpen (k : Kernel) : Type 0 where
  pub stdin_used : (file_now k 0).flags ≡ in_use
  pub stdin : (file_now k 0).ptrs ≡ stdin_funcs
  pub stdout_used : (file_now k 1).flags ≡ in_use
  pub stdout : (file_now k 1).ptrs ≡ stdout_funcs
  pub unopened : (i : ℕ) → 2 ≤ i → i < 8 → (file_now k i).flags ≡ not_in_use

module _ (literal : List ℕ → ℕ) (run call_sys : Kernel → ℕ → Option (ℕ × Kernel)) (c : Call)
    (k : Kernel) where
  abbrev tested : Tested Kernel
  tested = kernel_tested literal run call_sys c

  -- A transfer that is refused leaves the kernel as it is.
  refused_read :
      (fd buf : ℕ) → bad_transfer k fd buf 31 ≡ true → read k c fd buf 31 ≡ returns minus_one k
  unfolding read
  refused_read fd buf e = if_true e _ _

  refused_write :
      (fd buf : ℕ) → bad_transfer k fd buf 31 ≡ true → write k fd buf 31 ≡ returns minus_one k
  unfolding write
  refused_write fd buf e = if_true e _ _

  refused_close :
      (fd : ℕ)
      → (slt fd 2 || sle 8 fd || (file_now k fd).flags == not_in_use) ≡ true
      → close k fd ≡ returns minus_one k
  unfolding close
  refused_close fd e = ground (arith, e)

  -- A row of calls that all fail.
  all_fail :
      (f : Kernel → ℕ → Option (ℕ × Kernel)) (message : List ℕ) (i rest : ℕ)
      → ((j : ℕ) → i ≤ j → j < i + rest → f k j ≡ some (minus_one, k))
      → each_fails tested f message i rest (0, k) ≡ some (0, k)
  unfolding each_fails
  all_fail f message i zero h = refl
  all_fail f message i (suc rest) h =
      ap (λ o. o >>= expect_error tested message 0 >>= each_fails tested f message (i + 1) rest)
        (h i (omega arith) (omega arith))
      ∙ all_fail f message (i + 1) rest (λ j lo hi. h j (omega arith) (omega arith))

  -- What a test comes to that finds no failure.
  abbrev pub passes : List ℕ → Option (ℕ × Kernel)
  passes message = say (kernel_calls literal run c) k message >>= λ k'. some (0, k')

  neg_fd-passes : (buf : ℕ) → err_neg_fd tested k buf ≡ passes (codes "err_neg_fd: PASS\n")
  unfolding err_neg_fd
  neg_fd-passes buf =
      rw (refused_read neg_fd buf refl, refused_write neg_fd buf refl, refused_close neg_fd refl)
        refl

  big_fd-passes : (buf : ℕ) → err_big_fd tested k buf ≡ passes (codes "err_big_fd: PASS\n")
  unfolding err_big_fd
  big_fd-passes buf =
      rw (refused_read big_fd buf refl, refused_write big_fd buf refl, refused_close big_fd refl)
        refl

  vidmap-passes : err_vidmap tested k ≡ passes (codes "err_vidmap: PASS\n")
  unfolding err_vidmap vidmap
  vidmap-passes = refl

  module _ (n : NothingOpen k) where
    -- The two tables lack the operation.
    write_stdin : (buf : ℕ) → write k 0 buf 31 ≡ returns minus_one k
    unfolding write ops_write
    write_stdin buf = rw n.stdin (elim (Bool-cases (bad_transfer k 0 buf 31)) [
      | inl e ↦ if_true e _ _
      | inr e ↦ if_false e _ _
    ])

    read_stdout : (buf : ℕ) → read k c 1 buf 31 ≡ returns minus_one k
    unfolding read ops_read
    read_stdout buf = rw n.stdout (elim (Bool-cases (bad_transfer k 1 buf 31)) [
      | inl e ↦ if_true e _ _
      | inr e ↦ if_false e _ _
    ])

    stdin_out-passes :
        (buf : ℕ) → err_stdin_out tested k buf ≡ passes (codes "err_stdin_out: PASS\n")
    unfolding err_stdin_out
    stdin_out-passes buf = rw (write_stdin buf, read_stdout buf) refl

    unopened_transfer : (i buf : ℕ) → 2 ≤ i → i < 8 → bad_transfer k i buf 31 ≡ true
    unopened_transfer i buf h1 h2 = let e = n.unopened i h1 h2 in ground (arith, e)

    unopened_close :
        (i : ℕ) → i < 8 → (slt i 2 || sle 8 i || (file_now k i).flags == not_in_use) ≡ true
    unopened_close i h = elim (dec_lt i 2) [
      | yes l ↦ ground arith
      | no g ↦ let e = n.unopened i (omega arith) h in ground (arith, e)
    ]

    unopened-passes : (buf : ℕ) → err_unopened tested k buf ≡ passes (codes "err_unopened: PASS\n")
    unfolding err_unopened
    unopened-passes buf =
        rw
          (
            all_fail tested.close (codes "close unopened or invalid fd fail\n") 0 8
                (λ j h1 h2. ap came_back (refused_close j (unopened_close j h2))),
            all_fail (λ s i. tested.calls.read s i buf 31) (codes "read from unopened fd fail\n") 2
                6 (λ j h1 h2. ap came_back (refused_read j buf (unopened_transfer j buf h1 h2))),
            all_fail (λ s i. tested.calls.write s i buf 31) (codes "write to unopened fd fail\n") 2
                6 (λ j h1 h2. ap came_back (refused_write j buf (unopened_transfer j buf h1 h2))),
          )
          refl

-- In a process that has opened nothing, five of the tests come to the line with PASS and the value 0
-- on the kernel's own calls, with nothing changed before that line: transfers and closes on a
-- descriptor below 0 or above 7, on one that is not open, closes of 0 and 1, `vidmap` outside the
-- user's page, and transfers against the direction of 0 and 1.
pub tests-pass :
    (literal : List ℕ → ℕ) (run call_sys : Kernel → ℕ → Option (ℕ × Kernel)) (c : Call) (k : Kernel)
    (buf : ℕ)
    → NothingOpen k
    → let t = kernel_tested literal run call_sys c in
      let passed = passes literal run call_sys c k in
      (err_neg_fd t k buf ≡ passed (codes "err_neg_fd: PASS\n"))
      × (err_big_fd t k buf ≡ passed (codes "err_big_fd: PASS\n"))
      × (err_unopened t k buf ≡ passed (codes "err_unopened: PASS\n"))
      × (err_vidmap t k ≡ passed (codes "err_vidmap: PASS\n"))
      × (err_stdin_out t k buf ≡ passed (codes "err_stdin_out: PASS\n"))
tests-pass literal run call_sys c k buf n = (
  neg_fd-passes literal run call_sys c k buf,
  big_fd-passes literal run call_sys c k buf,
  unopened-passes literal run call_sys c k n buf,
  vidmap-passes literal run call_sys c k,
  stdin_out-passes literal run call_sys c k n buf,
)
