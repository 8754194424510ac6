-- ===== src/Pic/Lines.antt =====
-- The sixteen interrupt lines behind the masks of student-distrib/i8259.c.
use ece391_mp3_illinix.Prelude.{
  ℕ, ◌-◌, ◌/◌, ◌%◌, ◌^◌, ◌<◌, ◌≡◌, refl, Bool, true, false, ◌&&◌, arith, ltb, ◌==◌, if◌then◌else◌,
  every_below, same, every_below_use, same_sound, ltb→lt,
}
use ece391_mp3_illinix.Pic.{Pic, clear_bit, set_bit, enable_irq, disable_irq}

-- Whether bit `j` of a mask is set.
abbrev pub bit_at : ℕ → ℕ → Bool
bit_at mask j = mask / 2 ^ j % 2 == 1

-- Whether line `n` is masked.
unfoldable pub masked : Pic → ℕ → Bool
masked p n = if ltb n 8 then bit_at p.master_mask n else bit_at p.slave_mask (n - 8)

-- All masks, bits and bits looked at.
entry : ℕ → ℕ → ℕ → Bool
entry mask b j =
    same (bit_at (clear_bit mask b) j) (if j == b then false else bit_at mask j)
    && ltb (clear_bit mask b) 256
    && same (bit_at (set_bit mask b) j) (if j == b then true else bit_at mask j)
    && ltb (set_bit mask b) 256

entry_table : every_below 256 (λ mask. every_below 8 (λ b. every_below 8 (entry mask b))) ≡ true
unfolding every_below entry
entry_table = refl

pub record IsPic (p : Pic) : Type 0 where
  pub master : p.master_mask < 256
  pub slave : p.slave_mask < 256

-- The entry of the table for one mask, one bit changed and one looked at.
record Changed (mask b j : ℕ) : Type 0 where
  cleared : bit_at (clear_bit mask b) j ≡ (if j == b then false else bit_at mask j)
  cleared_fits : clear_bit mask b < 256
  raised : bit_at (set_bit mask b) j ≡ (if j == b then true else bit_at mask j)
  raised_fits : set_bit mask b < 256

and_cases : (a b : Bool) → (a && b) ≡ true → (a ≡ true) × (b ≡ true)
and_cases true b h = (refl, h)
and_cases false b h = cc

changed : (mask b j : ℕ) → mask < 256 → b < 8 → j < 8 → Changed mask b j
changed mask b j hm hb hj = record {
  cleared = same_sound _ _ (and_cases _ _ (and_cases _ _ (and_cases _ _ all).0).0).0;
  cleared_fits = ltb→lt _ _ (and_cases _ _ (and_cases _ _ (and_cases _ _ all).0).0).1;
  raised = same_sound _ _ (and_cases _ _ (and_cases _ _ all).0).1;
  raised_fits = ltb→lt _ _ (and_cases _ _ all).1;
}
  where
    found : entry mask b j ≡ true
    found =
        every_below_use 8 _ j
          (every_below_use 8 (λ b'. every_below 8 (entry mask b')) b
            (every_below_use 256 (λ m. every_below 8 (λ b'. every_below 8 (entry m b'))) mask
              entry_table hm)
            hb)
          hj

    all :
        (same (bit_at (clear_bit mask b) j) (if j == b then false else bit_at mask j)
          && ltb (clear_bit mask b) 256
          && same (bit_at (set_bit mask b) j) (if j == b then true else bit_at mask j)
          && ltb (set_bit mask b) 256)
        ≡ true
    all = unfold entry in found

-- `enable_irq` unmasks the line that it names and leaves the other fifteen as they were; a number
-- above 15 names no line. The masks stay bytes.
pub enable_irq-masked :
    (p : Pic) (irq n : ℕ)
    → IsPic p
    → n < 16
    → (masked (enable_irq p irq) n ≡ (if n == irq then false else masked p n))
      × IsPic (enable_irq p irq)
unfolding enable_irq masked
enable_irq-masked p irq n v h = ground (
  arith,
  changed p.master_mask irq n v.master,
  changed p.slave_mask (irq - 8) (n - 8) v.slave,
  changed p.master_mask irq 0 v.master,
  changed p.slave_mask (irq - 8) 0 v.slave,
)

-- `disable_irq` masks the line that it names and leaves the other fifteen as they were; a number
-- above 15 names no line. The masks stay bytes.
pub disable_irq-masked :
    (p : Pic) (irq n : ℕ)
    → IsPic p
    → n < 16
    → (masked (disable_irq p irq) n ≡ (if n == irq then true else masked p n))
      × IsPic (disable_irq p irq)
unfolding disable_irq masked
disable_irq-masked p irq n v h = ground (
  arith,
  changed p.master_mask irq n v.master,
  changed p.slave_mask (irq - 8) (n - 8) v.slave,
  changed p.master_mask irq 0 v.master,
  changed p.slave_mask (irq - 8) 0 v.slave,
)

-- On masks that are bytes, `enable_irq` unmasks and `disable_irq` masks the line that they name and
-- leave the other fifteen as they were; a number above 15 names no line. The masks stay bytes.
pub irqs-masked :
    (p : Pic) (irq n : ℕ)
    → IsPic p
    → n < 16
    → (masked (enable_irq p irq) n ≡ (if n == irq then false else masked p n))
      × IsPic (enable_irq p irq)
      × (masked (disable_irq p irq) n ≡ (if n == irq then true else masked p n))
      × IsPic (disable_irq p irq)
irqs-masked p irq n v h =
    let on = enable_irq-masked p irq n v h in
    let off = disable_irq-masked p irq n v h in (on.0, on.1, off.0, off.1)
