-- ===== src/Pic.antt =====
-- The two 8259 interrupt controllers of student-distrib/i8259.c.
pub mod Lines
use ece391_mp3_illinix.Prelude.{
  ℕ, zero, suc, ◌+◌, ◌-◌, ◌*◌, ◌/◌, ◌%◌, ◌^◌, ◌≤◌, ◌<◌, min, max, ◌≡◌, refl, sym, ap, ap₂, ◌∙◌,
  fun_ext, subst, ◌≡⟨◌⟩◌, ◌∎, ◌≢◌, ◌↔◌, ◌⊎◌, inl, inr, Bool, true, false, not, ◌&&◌, ◌||◌, Option,
  none, some, List, [], ◌∷◌, ◌++◌, map, arith, dec_lt, dec_le, ℕ_discrete, ltb, leb, ◌==◌,
  if◌then◌else◌, Bool-cases, Option-cases, length, get_elem?, set, get_or, take, drop, replicate,
  length-set, ◌>>=◌, ==_iff,
}
use ece391_mp3_illinix.Word.{u8, u16, u32, sub32, minus_one, is_neg, slt, sle, sdiv, smod, sext8}
use Prim.Native.Nat.{bit_and, bit_or}

-- The two masks, and the bytes sent, the last one first, each behind its port.
pub record Pic : Type 0 where
  pub master_mask : ℕ
  pub slave_mask : ℕ
  pub ports : List (ℕ × ℕ)

abbrev pub master_port : ℕ
master_port = 0x20

abbrev pub slave_port : ℕ
slave_port = 0xA0

abbrev pub master_data : ℕ
master_data = 0x21

abbrev pub slave_data : ℕ
slave_data = 0xA1

abbrev pub irq_number : ℕ
irq_number = 15

abbrev pub master_bound : ℕ
master_bound = 8

abbrev outb : List (ℕ × ℕ) → ℕ → ℕ → List (ℕ × ℕ)
outb ports value port = (port, value) ∷ ports

unfoldable pub i8259_init : Pic → Pic
i8259_init p = record {
  master_mask = 0xFF;
  slave_mask = 0xFF;
  ports =
      (slave_data, 0xFF)
      ∷ (master_data, 0xFF)
      ∷ (slave_data, 0x01)
      ∷ (slave_data, 0x02)
      ∷ (slave_data, 0x28)
      ∷ (slave_port, 0x11)
      ∷ (master_data, 0x01)
      ∷ (master_data, 0x04)
      ∷ (master_data, 0x20)
      ∷ (master_port, 0x11)
      ∷ (slave_data, 0xFF)
      ∷ (master_data, 0xFF)
      ∷ p.ports;
}

-- `mask & ~(1 << bit)` and `mask | 1 << bit` on uint8_t.
abbrev pub clear_bit : ℕ → ℕ → ℕ
clear_bit mask bit = bit_and mask (255 - 2 ^ bit)

abbrev pub set_bit : ℕ → ℕ → ℕ
set_bit mask bit = bit_or mask (2 ^ bit)

unfoldable pub enable_irq : Pic → ℕ → Pic
enable_irq p irq =
    if ltb irq_number irq
    then p
    else if ltb irq master_bound
    then (let mask = clear_bit p.master_mask irq in
        record p { master_mask = mask; ports = outb p.ports mask master_data })
    else (let mask = clear_bit p.slave_mask (irq - master_bound) in
        record p { slave_mask = mask; ports = outb p.ports mask slave_data })

unfoldable pub disable_irq : Pic → ℕ → Pic
disable_irq p irq =
    if ltb irq_number irq
    then p
    else if ltb irq master_bound
    then (let mask = set_bit p.master_mask irq in
        record p { master_mask = mask; ports = outb p.ports mask master_data })
    else (let mask = set_bit p.slave_mask (irq - master_bound) in
        record p { slave_mask = mask; ports = outb p.ports mask slave_data })

unfoldable pub send_eoi : Pic → ℕ → Pic
send_eoi p irq =
    if ltb irq_number irq
    then p
    else if ltb irq master_bound
    then record p { ports = outb p.ports (bit_or 0x60 irq) master_port }
    else record p {
      ports =
          outb (outb p.ports (bit_or 0x60 (irq - master_bound)) slave_port) (bit_or 0x60 0x02)
            master_port;
    }
