-- ===== src/Tests/Programs.antt =====
-- Command lines and programs for `execute`.
use ece391_mp3_illinix.Tests.Calls.{kernel}
use ece391_mp3_illinix.Tests.Files.{byte_at, image, fs}
use ece391_mp3_illinix.Text.{strlen, strlen_from, strncmp}
use ece391_mp3_illinix.Filesystem.{read_dentry_by_name}
use ece391_mp3_illinix.Execute.Parse.{
  Line, split_line, parse_command-split_line, parse_command-too_long,
}
use ece391_mp3_illinix.Execute.Image.{Refused, execute-Refused}
use ece391_mp3_illinix.Memory.{Mem, moved}
use ece391_mp3_illinix.Kernel.{Kernel}
use ece391_mp3_illinix.Execute.{
  execute, parse_command, Frame, copied, too_long, returned, parse_args, skip_blanks, name_length,
  copy_name, copy_args, after_parse,
}
use ece391_mp3_illinix.Prelude.{◌+◌, ◌≡◌, refl, some, [], ◌∷◌, arith, ltb, ◌==◌, if◌then◌else◌}
use ece391_mp3_illinix.Word.{minus_one}

abbrev pub frame : Frame
frame = record {
  exe_name = 0x7F0000;
  args_buf = 0x7F0100;
  magics = 0x7F0200;
  dentry = 0x7F0300;
  page = λ a. 0;
}

-- " ls x" and a new line.
abbrev command_line : Mem
command_line = byte_at (
    (0x100, b' ')
    ∷ (0x101, b'l')
    ∷ (0x102, b's')
    ∷ (0x103, b' ')
    ∷ (0x104, b'x')
    ∷ (0x105, b'\n')
    ∷ [])

command_line-Line : Line command_line 0x100 1 2 2
unfolding byte_at
command_line-Line = record {
  line_fits = omega arith;
  blanks = λ i h. ground arith;
  no_blank = omega arith;
  name = λ i h. ground arith;
  name_ends = refl;
  args = λ i h. ground arith;
  line_ends = refl;
}

parse_command-split_line_example :
    parse_command command_line frame 0x100
    ≡ some (copied (split_line command_line frame 0x100 1 2 2))
parse_command-split_line_example =
    parse_command-split_line command_line frame 0x100 1 2 2 command_line-Line (omega arith)
      (omega arith) (omega arith) (omega arith)

-- 64 times `a`, and a new line.
abbrev long_line : Mem
long_line a = if ltb a 0x140 then b'a' else 10

long_line-Line : Line long_line 0x100 0 64 0
long_line-Line = record {
  line_fits = omega arith;
  blanks = λ i h. ground arith;
  no_blank = omega arith;
  name = λ i h. ground arith;
  name_ends = refl;
  args = λ i h. ground arith;
  line_ends = refl;
}

parse_command-too_long_example :
    parse_command long_line frame 0x100
    ≡ some (too_long (moved long_line frame.exe_name (0x100 + 0) 33))
parse_command-too_long_example =
    parse_command-too_long long_line frame 0x100 0 30 0 long_line-Line (omega arith) (omega arith)

-- The command "b", which no file has for its name.
abbrev no_such_file : Kernel
no_such_file = record (kernel 2 0) {
  screen = record (kernel 2 0).screen { mem = λ a. if a == 0x100 then b'b' else image a };
  fs = fs;
}

abbrev after : Kernel → Kernel
after k = elim (execute k frame 0x100) [ some (returned r k') ↦ k' | _ ↦ k ]

not_found : execute no_such_file frame 0x100 ≡ some (returned minus_one (after no_such_file))
unfolding execute parse_command parse_args skip_blanks name_length copy_name copy_args after_parse
    read_dentry_by_name strlen strlen_from strncmp byte_at
not_found = refl

execute-Refused_example : Refused no_such_file minus_one (after no_such_file)
execute-Refused_example =
    execute-Refused no_such_file (after no_such_file) frame 0x100 minus_one not_found
