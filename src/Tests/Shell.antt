-- ===== src/Tests/Shell.antt =====
-- The programs of syscalls/ at concrete kernels.
use ece391_mp3_illinix.Text.{codes}
use ece391_mp3_illinix.Syscall.Files.{file_now}
use ece391_mp3_illinix.Programs.Syserr.{
  err_neg_fd, err_big_fd, err_unopened, err_vidmap, err_stdin_out,
}
use ece391_mp3_illinix.Word.{minus_one}
use ece391_mp3_illinix.Programs.Passes.{NothingOpen, kernel_tested, passes, tests-pass}
use ece391_mp3_illinix.Programs.Shows.{cat_loop-shown_text}
use ece391_mp3_illinix.Filesystem.Data.{file_byte}
use ece391_mp3_illinix.Programs.Cat.{file_text, size_of, Catting, position, rest_of}
use ece391_mp3_illinix.Console.View.{SameView, shown_text}
use ece391_mp3_illinix.Programs.OnKernel.{kernel_calls}
use ece391_mp3_illinix.Tests.Calls.{kernel, taking, call}
use ece391_mp3_illinix.Tests.Files.{byte_at, image, fs, image-IsFile}
use ece391_mp3_illinix.Programs.{cat_loop}
use ece391_mp3_illinix.Kernel.{
  Kernel, Pcb, file_funcs, get_terminal_id, in_use, no_file, stdout_funcs, stdin_funcs,
}
use ece391_mp3_illinix.Prelude.{
  ◌+◌, ◌*◌, ◌≤◌, ◌≡◌, refl, none, some, [], ◌∷◌, arith, set, replicate, every_below_use, ltb, ◌||◌,
  ◌==◌, every_below, true,
}

-- The process shows "hello" from its second byte on: 2 is open on the file, 1 on the terminal.
abbrev cat_process : Pcb
cat_process = record (taking 3) {
  files =
      set
        (set (taking 3).files 2
          (record { ptrs = file_funcs; inode = 0; file_pos = 1; flags = in_use }))
        1 (record no_file { ptrs = stdout_funcs; flags = in_use });
}

abbrev cat_kernel : Kernel
cat_kernel = record (kernel 3 0) {
  screen = record (kernel 3 0).screen { mem = image };
  fs = fs;
  pcbs = λ a. cat_process;
  process_terminal = replicate 3 (replicate 6 0);
}

cat_kernel-Catting : Catting cat_kernel 0x500000 2 0x2000
unfolding byte_at get_terminal_id
cat_kernel-Catting = record {
  full = refl;
  in_range = omega arith;
  other = omega arith;
  used = refl;
  on_file = refl;
  out_used = refl;
  out_terminal = refl;
  within = omega arith;
  file = image-IsFile;
  inode_above = omega arith;
  buffer = record { fits = omega arith; apart = ground arith };
  buffer_there = omega arith;
  buffer_off = record { fits = omega arith; apart = ground arith };
  image_off = omega arith;
  seen = record {
    column = omega arith;
    row = omega arith;
    above = omega arith;
    terminal = omega arith;
  };
  shown = refl;
}

enough_fuel : size_of cat_kernel 2 ≤ position cat_kernel 2 + 1 * 1024
unfolding byte_at
enough_fuel = omega arith

cat_loop-shown_text_example :
    (k' : Kernel) × (cat_loop (kernel_calls (λ s. 0) (λ k a. none) call) 2 cat_kernel 2 0x2000
      ≡ some (0, k'))
    × SameView (shown_text cat_kernel.screen (rest_of cat_kernel 2)) k'.screen
cat_loop-shown_text_example =
    cat_loop-shown_text (λ s. 0) (λ k a. none) call 1 cat_kernel 0x500000 2 0x2000
      cat_kernel-Catting enough_fuel

-- "ello" is left.
rest : rest_of cat_kernel 2 ≡ (b'e' ∷ b'l' ∷ b'l' ∷ b'o' ∷ [])
unfolding byte_at file_text file_byte
rest = refl

-- A process that has opened nothing.
abbrev fresh_process : Pcb
fresh_process = record (taking 0) {
  files =
      record no_file { ptrs = stdin_funcs; flags = in_use }
      ∷ record no_file { ptrs = stdout_funcs; flags = in_use }
      ∷ replicate 6 no_file;
}

abbrev fresh_kernel : Kernel
fresh_kernel = record (kernel 3 0) { pcbs = λ a. fresh_process }

fresh_kernel-NothingOpen : NothingOpen fresh_kernel
fresh_kernel-NothingOpen = record {
  stdin_used = refl;
  stdin = refl;
  stdout_used = refl;
  stdout = refl;
  unopened = λ i h1 h2.
      let free =
        every_below_use 8 (λ i. ltb i 2 || (file_now fresh_kernel i).flags == 0) i free_table h2 in
      ground arith;
}
  where
    free_table : every_below 8 (λ i. ltb i 2 || (file_now fresh_kernel i).flags == 0) ≡ true
    free_table = unfold every_below in refl

tests-pass_example :
    let t = kernel_tested (λ s. 0x3000) (λ k a. none) (λ k a. some (minus_one, k)) call in
    let passed =
      passes (λ s. 0x3000) (λ k a. none) (λ k a. some (minus_one, k)) call fresh_kernel in
    (err_neg_fd t fresh_kernel 0x2000 ≡ passed (codes "err_neg_fd: PASS\n"))
    × (err_big_fd t fresh_kernel 0x2000 ≡ passed (codes "err_big_fd: PASS\n"))
    × (err_unopened t fresh_kernel 0x2000 ≡ passed (codes "err_unopened: PASS\n"))
    × (err_vidmap t fresh_kernel ≡ passed (codes "err_vidmap: PASS\n"))
    × (err_stdin_out t fresh_kernel 0x2000 ≡ passed (codes "err_stdin_out: PASS\n"))
tests-pass_example =
    tests-pass (λ s. 0x3000) (λ k a. none) (λ k a. some (minus_one, k)) call fresh_kernel 0x2000
      fresh_kernel-NothingOpen
