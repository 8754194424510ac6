-- ===== src/Tests/Reading.antt =====
-- `read` on the file of the small image.
use ece391_mp3_illinix.Prelude.{◌≡◌, refl, arith, set}
use ece391_mp3_illinix.Kernel.{Kernel, Pcb, file_funcs, in_use}
use ece391_mp3_illinix.Syscall.{read, returns}
use ece391_mp3_illinix.Syscall.Reading.{Advanced, left, read-Advanced}
use ece391_mp3_illinix.Tests.Calls.{kernel, taking, call}
use ece391_mp3_illinix.Tests.Files.{image, fs, image-IsFile}

-- Descriptor 2 is open on "hello", behind its first byte.
abbrev reader : Pcb
reader = record (taking 2) {
  files =
      set (taking 3).files 2
        (record { ptrs = file_funcs; inode = 0; file_pos = 1; flags = in_use });
}

abbrev reading : Kernel
reading = record (kernel 2 0) {
  screen = record (kernel 2 0).screen { mem = image };
  fs = fs;
  pcbs = λ a. reader;
}

read-Advanced_example :
    (k' : Kernel) × (read reading call 2 0x2000 3 ≡ returns (left reading 2 3) k')
    × Advanced reading 2 0x2000 (left reading 2 3) k'
read-Advanced_example =
    read-Advanced reading call 0x500000 2 0x2000 3 refl (omega arith) (omega arith) (λ e. cc) refl
      refl (omega arith) image-IsFile (omega arith)
