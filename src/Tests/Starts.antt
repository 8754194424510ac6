-- ===== src/Tests/Starts.antt =====
-- `execute` of a program of 28 bytes.
use ece391_mp3_illinix.Execute.Start.{is_executable, entry_of, byte_of, after_magic, inode_of}
use ece391_mp3_illinix.Execute.Loaded.{started, execute-is_executable}
use ece391_mp3_illinix.Tests.Programs.{frame}
use ece391_mp3_illinix.Tests.Calls.{kernel}
use ece391_mp3_illinix.Tests.Files.{byte_at, fs}
use ece391_mp3_illinix.Process.{take_pid}
use ece391_mp3_illinix.Filesystem.{read_dentry_by_name}
use ece391_mp3_illinix.Filesystem.Data.{file_byte}
use ece391_mp3_illinix.Filesystem.Read.{IsFile}
use ece391_mp3_illinix.Text.{strlen, strlen_from, strncmp}
use ece391_mp3_illinix.Memory.{Mem, memcpy}
use ece391_mp3_illinix.Kernel.{Kernel, with_mem}
use ece391_mp3_illinix.Execute.{
  execute, parse_command, copied, returned, parse_args, skip_blanks, name_length, copy_name,
  copy_args,
}
use ece391_mp3_illinix.Prelude.{◌≡◌, refl, some, [], ◌∷◌, arith, if◌then◌else◌, true}
use ece391_mp3_illinix.Word.{minus_one}

-- The command "a", and the file "a" with the magic numbers and the entry point 0x08048094.
abbrev program : Mem
program = byte_at (
    (0x100, b'a')
    ∷ (0x101, b'\n')
    ∷ (0x500000, 1)
    ∷ (0x500004, 2)
    ∷ (0x500008, 1)
    ∷ (0x500040, b'a')
    ∷ (0x500060, 2)
    ∷ (0x501000, 28)
    ∷ (0x503000, 0x7F)
    ∷ (0x503001, 0x45)
    ∷ (0x503002, 0x4C)
    ∷ (0x503003, 0x46)
    ∷ (0x503018, 0x94)
    ∷ (0x503019, 0x80)
    ∷ (0x50301A, 0x04)
    ∷ (0x50301B, 0x08)
    ∷ [])

abbrev loading : Kernel
loading = record (kernel 2 0) { screen = record (kernel 2 0).screen { mem = program }; fs = fs }

abbrev named : Mem
named = elim (parse_command program frame 0x100) [ some (copied m) ↦ m | _ ↦ program ]

name_parsed : parse_command program frame 0x100 ≡ some (copied named)
unfolding parse_command parse_args skip_blanks name_length copy_name copy_args byte_at
name_parsed = refl

abbrev found : Mem
found = elim (read_dentry_by_name named fs frame.exe_name frame.dentry) [
  | some (r, m) ↦ m
  | _ ↦ named
]

name_found : read_dentry_by_name named fs frame.exe_name frame.dentry ≡ some (0, found)
unfolding read_dentry_by_name strlen strlen_from strncmp memcpy byte_at parse_command parse_args
    skip_blanks name_length copy_name copy_args
name_found = refl

abbrev ready : Kernel
ready = with_mem loading found

ready-IsFile : IsFile found fs 0x500000 (inode_of ready frame)
unfolding read_dentry_by_name strlen strlen_from strncmp memcpy byte_at parse_command parse_args
    skip_blanks name_length copy_name copy_args
ready-IsFile = record {
  layout = omega arith;
  in_range = omega arith;
  few = omega arith;
  size_fits = omega arith;
  indices = λ k h q. let e : k ≡ 0 = omega arith in rw e (omega arith);
}

execute-is_executable_example :
    execute loading frame 0x100
    ≡ some (
        if is_executable (byte_of ready frame)
        then started ready frame (take_pid ready)
        else returned minus_one (with_mem loading (after_magic ready frame)))
unfolding read_dentry_by_name strlen strlen_from strncmp memcpy byte_at parse_command parse_args
    skip_blanks name_length copy_name copy_args
execute-is_executable_example =
    execute-is_executable loading frame 0x100 0 0x500000 named found name_parsed name_found
      (omega arith) ready-IsFile (omega arith) (omega arith) (omega arith) (omega arith)

is_one : is_executable (byte_of ready frame) ≡ true
unfolding read_dentry_by_name strlen strlen_from strncmp memcpy byte_at parse_command parse_args
    skip_blanks name_length copy_name copy_args file_byte
is_one = refl

entry_found : entry_of (byte_of ready frame) ≡ 0x08048094
unfolding read_dentry_by_name strlen strlen_from strncmp memcpy byte_at parse_command parse_args
    skip_blanks name_length copy_name copy_args file_byte
entry_found = refl
