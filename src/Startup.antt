-- ===== src/Startup.antt =====
-- The initializers of devices that student-distrib/kernel.c calls: `init_pit` of scheduling.c,
-- `rtc_init` of rtc.c, `init_keyboard` of keyboard.c, and `enable_cursor` of lib.c.
use ece391_mp3_illinix.Kernel.{Kernel}
use Prim.Native.Nat.{bit_or, bit_and}
use ece391_mp3_illinix.Pic.{Pic, enable_irq}
use ece391_mp3_illinix.Console.{Screen, set_cursor_position}
use ece391_mp3_illinix.Prelude.{ℕ, ◌/◌, ◌^◌, Option, none, some, ◌∷◌, ◌==◌, if◌then◌else◌}
use ece391_mp3_illinix.Word.{u8}

abbrev pub out_byte : Pic → ℕ → ℕ → Pic
out_byte p value port = record p { ports = (port, u8 value) ∷ p.ports }

-- `init_pit`. `PIT_MASK` is defined as nothing, so `PIT_MASK & divisor` is the address of the local;
-- `none` is the division by a frequency of 0.
unfoldable pub init_pit : Pic → ℕ → ℕ → Option Pic
init_pit p frequency divisor_addr =
    let divisor = 1193182 / frequency in
    let p₁ = out_byte (out_byte (out_byte p 0x36 0x43) divisor_addr 0x40) (divisor / 2 ^ 8) 0x40 in
    if frequency == 0 then none else some (enable_irq p₁ 0)

-- `rtc_init`, where `b` is what the clock's register B holds.
unfoldable pub rtc_init : Pic → ℕ → Pic
rtc_init p b =
    enable_irq (out_byte (out_byte (out_byte p 0x8B 0x70) 0x8B 0x70) (bit_or 0x40 b) 0x71) 8

-- `init_keyboard`.
unfoldable pub init_keyboard : Pic → Kernel → Pic × Kernel
init_keyboard p k = (
  enable_irq p 1,
  record k {
    screen = set_cursor_position (record k.screen { key_arr_ptr = 0; key_arr_overflow = 0 }) 0 0;
    enter_state = 0;
  },
)

-- `enable_cursor`, where `low` and `high` are what the two registers of the cursor hold.
unfoldable pub enable_cursor : Screen → ℕ → ℕ → ℕ → ℕ → Screen
enable_cursor s start end low high = record s {
  ports =
      (0x3D5, u8 (bit_or (bit_and high 0xE0) end))
      ∷ (0x3D4, 0x0B)
      ∷ (0x3D5, u8 (bit_or (bit_and low 0xC0) start))
      ∷ (0x3D4, 0x0A)
      ∷ s.ports;
}
