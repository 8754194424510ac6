-- ===== src/Console/Scroll.antt =====
-- What scrolling leaves on a screen (student-distrib/lib.c).
use ece391_mp3_illinix.Prelude.{
  ℕ, zero, suc, ◌+◌, ◌-◌, ◌*◌, ◌%◌, ◌^◌, ◌≤◌, ◌<◌, ◌≡◌, ap, ◌∙◌, ◌&&◌, arith, dec_lt, ltb, leb,
  ◌==◌, if◌then◌else◌,
}
use ece391_mp3_illinix.Word.{u32}
use ece391_mp3_illinix.Memory.{Mem, memcpy, moved}
use ece391_mp3_illinix.Memory.Block.{memcpy-moved}
use ece391_mp3_illinix.Console.{put_cell, blank_from, scroll}

-- A byte of a blank cell: the character at even places, the attribute at odd ones.
abbrev pub blank_byte : ℕ → ℕ → ℕ
blank_byte i attribute = if i % 2 == 0 then b' ' else attribute

blank_from_lem :
    (m : Mem) (base cell attribute k i : ℕ)
    → base + 2 * (cell + k) < 2 ^ 32
    → blank_from m base cell attribute k (base + i) ≡ (
        if leb (2 * cell) i && ltb i (2 * (cell + k)) then blank_byte i attribute else m (base + i))
unfolding blank_from
blank_from_lem m base cell attribute zero i h = ground arith
blank_from_lem m base cell attribute (suc k) i h =
    blank_from_lem (put_cell m base cell b' ' attribute) base (cell + 1) attribute k i (omega arith)
    ∙ ground arith

-- The byte at `base + i` of the screen at `base` after a scroll: that of the row below, or blank.
-- Both lengths that the code copies, 23 and 24 rows, give the same screen.
pub scroll_lem :
    (m : Mem) (base n attribute i : ℕ)
    → base + 4000 < 2 ^ 32
    → 3680 ≤ n
    → n ≤ 3840
    → i < 3840
    → scroll m base n attribute (base + i)
      ≡ (if ltb i 3680 then m (base + (i + 160)) else blank_byte i attribute)
unfolding scroll
scroll_lem m base n attribute i h lo hi lt =
    let e : u32 (base + 160) ≡ base + 160 = omega arith in
    let c : memcpy m base (base + 160) n ≡ moved m base (base + 160) n =
      memcpy-moved m base (base + 160) n (ground arith) in
    rw (e, c)
      (blank_from_lem (moved m base (base + 160) n) base 1840 attribute 80 i (omega arith) ∙ rows)
  where
    rows :
        (if leb (2 * 1840) i && ltb i (2 * (1840 + 80))
          then blank_byte i attribute
          else moved m base (base + 160) n (base + i))
        ≡ (if ltb i 3680 then m (base + (i + 160)) else blank_byte i attribute)
    rows = elim (dec_lt i 3680) [
      | yes up ↦
          (let e : base + 160 + (base + i) - base ≡ base + (i + 160) = omega arith in
            ground (arith, e, ap m e))
      | no down ↦ ground arith
    ]
