-- ===== src/Boot/Devices.antt =====
-- The state that `entry` of student-distrib/kernel.c starts from, and the calls by which it sets up
-- the processor and the devices.
use ece391_mp3_illinix.Paging.{init_page}
use ece391_mp3_illinix.Sound.{Sound}
use ece391_mp3_illinix.Text.{codes}
use ece391_mp3_illinix.Pic.{Pic, enable_irq, i8259_init}
use ece391_mp3_illinix.Filesystem.{filesystem_init}
use ece391_mp3_illinix.Console.Paint.{clear}
use ece391_mp3_illinix.Startup.{init_keyboard, enable_cursor, init_pit, rtc_init}
use ece391_mp3_illinix.Idt.{Routine, Idt, init_idt}
use ece391_mp3_illinix.Boot.Descriptors.{ldt_entry, tss_entry, SegDesc}
use ece391_mp3_illinix.Kernel.{Kernel, mem}
use ece391_mp3_illinix.Print.{printf}
use ece391_mp3_illinix.Console.{Screen}
use ece391_mp3_illinix.Prelude.{ℕ, Option, some, [], ◌>>=◌}

-- The globals of the kernel, of the controllers and of the sound driver, and what kernel.c sets
-- besides; `ltr` and `lldt` are the registers loaded last.
pub record Machine : Type 0 where
  pub kernel : Kernel
  pub pic : Pic
  pub idt : Idt
  pub sound : Sound
  pub fs_start_addr : ℕ
  pub ldt_desc_ptr : SegDesc
  pub tss_desc_ptr : SegDesc
  pub ldt_segment_selector : ℕ
  pub ss0 : ℕ
  pub lldt : ℕ
  pub ltr : ℕ

-- What the linker and x86_desc.S fix: addresses and sizes. `divisor` is the address of a local of
-- `init_pit`, and the last three are what registers of the clock and the screen hold.
pub record Linked : Type 0 where
  pub routine : Routine → ℕ
  pub ldt : ℕ
  pub ldt_size : ℕ
  pub tss : ℕ
  pub tss_size : ℕ
  pub divisor : ℕ
  pub register_b : ℕ
  pub cursor_low : ℕ
  pub cursor_high : ℕ

abbrev pub on_screen : Machine → Screen → Machine
on_screen m s = record m { kernel = record m.kernel { screen = s } }

-- The two blocks of `entry` that construct entries of the GDT.
unfoldable pub set_segments : Linked → Machine → Machine
set_segments l m = record m {
  ldt_desc_ptr = ldt_entry l.ldt l.ldt_size;
  lldt = 0x0038;
  tss_desc_ptr = tss_entry l.tss l.tss_size;
  ldt_segment_selector = 0x0038;
  ss0 = 0x0018;
  kernel = record m.kernel { tss_esp0 = 0x800000 };
  ltr = 0x0030;
}

-- From `init_keyboard` to `enable_irq(5)`; `init_pit` would fail on a frequency of 0 only.
unfoldable pub init_drivers : Linked → Machine → Option Machine
init_drivers l m =
    let (p, k) = init_keyboard m.pic m.kernel in
    let k₁ = record k {
      fs = filesystem_init (mem k) m.fs_start_addr;
      screen = enable_cursor k.screen 0 15 l.cursor_low l.cursor_high;
    } in
    init_pit (rtc_init p l.register_b) 20 l.divisor >>= λ p₁.
    some (record m { kernel = k₁; pic = enable_irq p₁ 5 })

-- From the second `clear` to `enable_irq(5)`.
unfoldable pub init_devices : Linked → Machine → Option Machine
unfolding init_drivers
init_devices l m = printf (clear m.kernel.screen) (codes "Enabling Paging :)\n") [] >>= λ p.
    init_drivers l (record m {
      idt = init_idt l.routine m.idt;
      kernel = record m.kernel { screen = p.1; paging = init_page m.kernel.paging };
      pic = enable_irq (i8259_init m.pic) 2;
    })
