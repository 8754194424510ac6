-- ===== src/Memory/Overlap.antt =====
-- memmove of student-distrib/lib.c copies as if by way of another buffer.
use ece391_mp3_illinix.Prelude.{
  ℕ, zero, suc, ◌+◌, ◌^◌, ◌≤◌, ◌<◌, ◌≡◌, ap₂, ◌∙◌, fun_ext, true, false, arith, dec_lt, leb,
}
use ece391_mp3_illinix.Word.{u32}
use ece391_mp3_illinix.Memory.{Mem, store8, movsb_up, movsb_down, memmove, moved}

up_lem :
    (m : Mem) (d s n a : ℕ)
    → d + n < 2 ^ 32
    → s + n < 2 ^ 32
    → d ≤ s
    → movsb_up m d s n a ≡ moved m d s n a
unfolding movsb_up
up_lem m d s zero a hd hs h = ground arith
up_lem m d s (suc n) a hd hs h =
    up_lem (store8 m d (m s)) (u32 (d + 1)) (u32 (s + 1)) n a (omega arith) (omega arith)
      (omega arith)
    ∙ first
  where
    first : moved (store8 m d (m s)) (u32 (d + 1)) (u32 (s + 1)) n a ≡ moved m d s (suc n) a
    first = ground arith

-- The loop starts at the last byte, `d + n` and `s + n`, with `n + 1` bytes to go.
down_lem :
    (m : Mem) (d s n a : ℕ)
    → d + n < 2 ^ 32
    → s + n < 2 ^ 32
    → s < d
    → movsb_down m (d + n) (s + n) (suc n) a ≡ moved m d s (suc n) a
unfolding movsb_down
down_lem m d s zero a hd hs h = ground arith
down_lem m d s (suc n) a hd hs h =
    ap₂ (λ d' s'. movsb_down m' d' s' (suc n) a) (omega arith) (omega arith)
    ∙ down_lem m' d s n a (omega arith) (omega arith) h
    ∙ last
  where
    m' : Mem
    m' = store8 m (d + suc n) (m (s + suc n))

    last : moved m' d s (suc n) a ≡ moved m d s (suc (suc n)) a
    last = ground arith

-- `memmove` copies `n` bytes right whether or not the two ranges overlap, and to either side: the
-- destination gets the bytes that the source had before, and no other byte changes.
pub memmove-moved :
    (m : Mem) (d s n : ℕ) → d + n < 2 ^ 32 → s + n < 2 ^ 32 → memmove m d s n ≡ moved m d s n
unfolding memmove
memmove-moved m d s zero hd hs = unfold movsb_up movsb_down in fun_ext (λ a. ground arith)
memmove-moved m d s (suc n) hd hs = fun_ext (λ a. elim (dec_lt s d) [
  | yes right ↦
      let e : leb d s ≡ false = ground arith in
      rw e (
        ap₂ (λ d' s'. movsb_down m d' s' (suc n) a) (omega arith) (omega arith)
        ∙ down_lem m d s n a (omega arith) (omega arith) right)
  | no left ↦
      let e : leb d s ≡ true = ground arith in rw e (up_lem m d s (suc n) a hd hs (omega arith))
])
