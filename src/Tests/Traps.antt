-- ===== src/Tests/Traps.antt =====
-- The interrupt table, a signal that ends a program, and the last block of a file of music.
use ece391_mp3_illinix.Word.{u8}
use ece391_mp3_illinix.Idt.Gates.{init_idt-protection, target}
use ece391_mp3_illinix.Sound.Ends.{EndsAfter, interrupts-stop}
use ece391_mp3_illinix.Signals.Ends.{send-execute_result}
use ece391_mp3_illinix.Sound.{Sound}
use ece391_mp3_illinix.Idt.{Gate, is_device, Idt, init_idt, Routine, set_entries}
use ece391_mp3_illinix.Sound.Blocks.{AllReady, Playing}
use ece391_mp3_illinix.Tests.Files.{byte_at, image, fs, image-IsFile}
use ece391_mp3_illinix.Tests.Processes.{started}
use ece391_mp3_illinix.Signals.{Delivered, ended, send, deliver, default_action, kill, quiet_kill}
use ece391_mp3_illinix.Process.{take_pid, resumes, halt, create_pcb}
use ece391_mp3_illinix.Kernel.{Kernel, with_mem, get_curr_pcb, get_pcb_by_index}
use ece391_mp3_illinix.Execute.{execute_result}
use ece391_mp3_illinix.Prelude.{
  ℕ, zero, suc, ◌≤◌, ◌<◌, ◌≡◌, refl, ◌↔◌, ◌⊎◌, inl, true, [], arith, ◌==◌, if◌then◌else◌, replicate,
}

abbrev pub no_gate : Gate
no_gate = record {
  offset_15_00 = 0;
  seg_selector = 0;
  reserved4 = 0;
  reserved3 = 0;
  reserved2 = 0;
  reserved1 = 0;
  size = 0;
  reserved0 = 0;
  dpl = 0;
  present = 0;
  offset_31_16 = 0;
}

abbrev pub linked : Routine → ℕ
linked r = 0x401234

abbrev table : Idt
table = init_idt linked (λ i. no_gate)

abbrev vector : ℕ
vector = 0x80

init_idt-protection_example :
    (((table vector).dpl ≡ 3) ↔ (vector ≡ 0x80))
    × (((table vector).present ≡ 1)
        ↔ ((vector < 20) ⊎ ((is_device vector ≡ true) ⊎ (vector ≡ 0x80))))
    × (((table vector).reserved3 ≡ 1) ↔ ((vector < 20) ⊎ (vector ≡ 0x80)))
init_idt-protection_example = init_idt-protection linked (λ i. no_gate) vector (omega arith)

keyboard_gate : target (table 0x21) ≡ 0x401234
unfolding init_idt set_entries
keyboard_gate = refl

-- The program with pid 2 of the first terminal runs, under a shell.
abbrev child : Kernel
child = record (create_pcb (with_mem started (λ a. 7)) 2 0x3000) { esp = 0x7FBFF0 }

abbrev parent : Delivered → Kernel
parent d = elim d [ ended (resumes esp ebp k) ↦ k | _ ↦ child ]

interrupted : send child 1 ≡ ended (resumes 0x7FFFF0 0x7FFFF8 (parent (send child 1)))
unfolding send deliver default_action kill quiet_kill halt create_pcb get_curr_pcb get_pcb_by_index
    take_pid
interrupted = refl

send-execute_result_example :
    execute_result (parent (send child 1)) ≡ (if u8 1 == 2 then 0 else 256)
unfolding create_pcb get_curr_pcb get_pcb_by_index take_pid
send-execute_result_example =
    send-execute_result child (parent (send child 1)) 1 0x7FFFF0 0x7FFFF8 refl interrupted

-- "hello" as music, with a card that is ready.
abbrev pub song : Sound
song = record {
  dma_buffer = 0x600000;
  audio_filename = 0x700000;
  upper = 0;
  cur_block = 0x600000;
  current_offset = 0;
  is_playing = 1;
  audio_file_inode = 0;
  inputs = replicate 10 0;
  ports = [];
}

replicate-AllReady : (n : ℕ) → AllReady (replicate n 0)
replicate-AllReady zero i = refl
replicate-AllReady (suc n) zero = refl
replicate-AllReady (suc n) (suc i) = replicate-AllReady n i

song-Playing : Playing image fs 0x500000 song
unfolding byte_at
song-Playing = record {
  file = image-IsFile;
  above = omega arith;
  buffer = omega arith;
  half = inl refl;
  within = omega arith;
  ready = replicate-AllReady 10;
}

interrupts-stop_example : (n : ℕ) × (n ≤ 2) × EndsAfter n image fs song
unfolding byte_at
interrupts-stop_example =
    interrupts-stop 1 image fs 0x500000 song song-Playing (omega arith) (omega arith)
