-- ===== src/Boot/Descriptors.antt =====
-- The descriptors of the LDT and the TSS of student-distrib/x86_desc.h, as student-distrib/kernel.c
-- fills them.
use ece391_mp3_illinix.Prelude.{ℕ, ◌+◌, ◌*◌, ◌/◌, ◌%◌, ◌^◌, ◌<◌, ◌≡◌, arith}
use ece391_mp3_illinix.Word.{u32}

-- `seg_desc_t`.
pub record SegDesc : Type 0 where
  pub seg_lim_15_00 : ℕ
  pub base_15_00 : ℕ
  pub base_23_16 : ℕ
  pub seg_type : ℕ
  pub sys : ℕ
  pub dpl : ℕ
  pub present : ℕ
  pub seg_lim_19_16 : ℕ
  pub avail : ℕ
  pub reserved : ℕ
  pub opsize : ℕ
  pub granularity : ℕ
  pub base_31_24 : ℕ

-- `SET_LDT_PARAMS` and `SET_TSS_PARAMS`, which do the same.
abbrev pub set_params : SegDesc → ℕ → ℕ → SegDesc
set_params str addr lim = record str {
  base_31_24 = u32 addr / 2 ^ 24 % 2 ^ 8;
  base_23_16 = u32 addr / 2 ^ 16 % 2 ^ 8;
  base_15_00 = u32 addr % 2 ^ 16;
  seg_lim_19_16 = lim / 2 ^ 16 % 2 ^ 4;
  seg_lim_15_00 = lim % 2 ^ 16;
}

-- The descriptors of `entry`; what a local holds before it is set does not show.
unfoldable pub ldt_entry : ℕ → ℕ → SegDesc
ldt_entry ldt ldt_size =
    set_params
      (record {
        seg_lim_15_00 = 0;
        base_15_00 = 0;
        base_23_16 = 0;
        seg_type = 0x2;
        sys = 0x0;
        dpl = 0x0;
        present = 0x1;
        seg_lim_19_16 = 0;
        avail = 0x0;
        reserved = 0x0;
        opsize = 0x1;
        granularity = 0x0;
        base_31_24 = 0;
      })
      ldt ldt_size

unfoldable pub tss_entry : ℕ → ℕ → SegDesc
tss_entry tss tss_size =
    set_params
      (record {
        seg_lim_15_00 = 104;
        base_15_00 = 0;
        base_23_16 = 0;
        seg_type = 0x9;
        sys = 0x0;
        dpl = 0x0;
        present = 0x1;
        seg_lim_19_16 = 0;
        avail = 0x0;
        reserved = 0x0;
        opsize = 0x0;
        granularity = 0x0;
        base_31_24 = 0;
      })
      tss tss_size

-- The segment that the processor reads out of a descriptor: its first byte, and the offset of its last
-- one, with the limit counted in bytes.
abbrev pub base_of : SegDesc → ℕ
base_of d = d.base_31_24 * 2 ^ 24 + d.base_23_16 * 2 ^ 16 + d.base_15_00

abbrev pub limit_of : SegDesc → ℕ
limit_of d = d.seg_lim_19_16 * 2 ^ 16 + d.seg_lim_15_00

-- The two descriptors lead to the LDT and the TSS with the limits given, wherever below 4 GB these lie.
pub segments :
    (addr lim : ℕ)
    → addr < 2 ^ 32
    → lim < 2 ^ 20
    → ((base_of (ldt_entry addr lim) ≡ addr) × (limit_of (ldt_entry addr lim) ≡ lim))
      × (base_of (tss_entry addr lim) ≡ addr)
      × (limit_of (tss_entry addr lim) ≡ lim)
unfolding ldt_entry tss_entry
segments addr lim h1 h2 = ((omega arith, omega arith), omega arith, omega arith)
