-- ===== src/Boot/Ready.antt =====
-- What the devices and the processor are set to when `entry` of student-distrib/kernel.c has set
-- them up.
use ece391_mp3_illinix.Boot.Descriptors.{base_of, limit_of}
use ece391_mp3_illinix.Idt.Gates.{target}
use ece391_mp3_illinix.Pic.Lines.{masked}
use ece391_mp3_illinix.Pic.{Pic}
use ece391_mp3_illinix.Idt.{
  Routine, pit_assembly, keyboard_assembly, sb16_assembly, rtc_assembly, Idt,
}
use ece391_mp3_illinix.Boot.Devices.{Linked, Machine}
use ece391_mp3_illinix.Prelude.{ℕ, ◌+◌, ◌^◌, ◌<◌, ◌≡◌, ◌⊎◌, Bool, false, not, ◌||◌, ◌==◌}

-- The lines that somebody answers: the timer, the keyboard, the second controller, the sound card and
-- the clock.
abbrev pub is_answered : ℕ → Bool
is_answered n = n == 0 || n == 1 || n == 2 || n == 5 || n == 8

-- Lines, gates, segments and the files.
pub record Ready (l : Linked) (m m' : Machine) : Type 0 where
  pub lines : (n : ℕ) → n < 16 → masked m'.pic n ≡ not (is_answered n)
  pub gates :
      (n : ℕ) → n < 16 → masked m'.pic n ≡ false → (n ≡ 2) ⊎ ((m'.idt (0x20 + n)).present ≡ 1)
  pub timer : target (m'.idt 0x20) ≡ l.routine pit_assembly
  pub keyboard : target (m'.idt 0x21) ≡ l.routine keyboard_assembly
  pub card : target (m'.idt 0x25) ≡ l.routine sb16_assembly
  pub clock : target (m'.idt 0x28) ≡ l.routine rtc_assembly
  pub task : base_of m'.tss_desc_ptr ≡ l.tss
  pub task_end : limit_of m'.tss_desc_ptr ≡ l.tss_size
  pub stack : m'.kernel.tss_esp0 ≡ 0x800000
  pub files : m'.kernel.fs.fs_addr ≡ m.fs_start_addr
  pub no_keys : m'.kernel.screen.key_arr_ptr ≡ 0

-- The linker puts everything below 4 GB, and the TSS is small.
pub record Below (l : Linked) : Type 0 where
  pub routines : (r : Routine) → l.routine r < 2 ^ 32
  pub tss_fits : l.tss < 2 ^ 32
  pub tss_small : l.tss_size < 2 ^ 20
