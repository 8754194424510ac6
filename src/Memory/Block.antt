-- ===== src/Memory/Block.antt =====
-- memcpy and memset do what a byte loop does (student-distrib/lib.c).
use ece391_mp3_illinix.Prelude.{
  ℕ, zero, suc, ◌+◌, ◌*◌, ◌/◌, ◌%◌, ◌^◌, ◌≤◌, ◌<◌, ◌≡◌, ap, ap₂, ◌∙◌, ◌≡⟨◌⟩◌, ◌∎, ◌⊎◌, arith,
  fun_ext, ◌==◌, Bool-cases, inl, inr,
}
use ece391_mp3_illinix.Word.{u32, u8}
use ece391_mp3_illinix.Memory.{
  Mem, store8, copy4, movsl, memcpy_bottom, memcpy_aligned, memcpy, moved, filled, stosl,
  memset_bottom, memset_top, memset,
}

-- Ranges in the address space for which a forward copy is right.
pub record Forward (d s n : ℕ) : Type 0 where
  pub dest_fits : d + n < 2 ^ 32
  pub src_fits : s + n < 2 ^ 32
  pub apart : (d ≤ s) ⊎ (s + n ≤ d)

moved-byte :
    (m : Mem) (d s n a : ℕ)
    → Forward d s (suc n)
    → moved (store8 m d (m s)) (u32 (d + 1)) (u32 (s + 1)) n a ≡ moved m d s (suc n) a
moved-byte m d s n a h = ground arith

moved-word :
    (m : Mem) (d s n a : ℕ)
    → Forward d s (n + 4)
    → moved (copy4 m d s) (u32 (d + 4)) (u32 (s + 4)) n a ≡ moved m d s (n + 4) a
moved-word m d s n a h = ground arith

movsl_lem :
    (m : Mem) (d s k n a : ℕ)
    → Forward d s (4 * k + n)
    → moved (movsl m d s k) (u32 (d + 4 * k)) (u32 (s + 4 * k)) n a ≡ moved m d s (4 * k + n) a
unfolding movsl
movsl_lem m d s zero n a h = ground arith
movsl_lem m d s (suc k) n a h =
    moved (movsl (copy4 m d s) (u32 (d + 4)) (u32 (s + 4)) k) (u32 (d + 4 * suc k))
      (u32 (s + 4 * suc k)) n a
    ≡⟨ ap₂ (λ d' s'. moved (movsl (copy4 m d s) (u32 (d + 4)) (u32 (s + 4)) k) d' s' n a)
        (omega arith) (omega arith) ⟩
      moved (movsl (copy4 m d s) (u32 (d + 4)) (u32 (s + 4)) k) (u32 (u32 (d + 4) + 4 * k))
        (u32 (u32 (s + 4) + 4 * k)) n a
    ≡⟨ movsl_lem (copy4 m d s) (u32 (d + 4)) (u32 (s + 4)) k n a (omega arith) ⟩
      moved (copy4 m d s) (u32 (d + 4)) (u32 (s + 4)) (4 * k + n) a
    ≡⟨ moved-word m d s (4 * k + n) a (omega arith) ⟩ moved m d s (4 * k + n + 4) a
    ≡⟨ ap (λ c. moved m d s c a) (omega arith) ⟩ moved m d s (4 * suc k + n) a ∎

memcpy_bottom_lem :
    (m : Mem) (d s n a : ℕ) → Forward d s n → memcpy_bottom m d s n a ≡ moved m d s n a
unfolding memcpy_bottom
memcpy_bottom_lem m d s zero a h = ground arith
memcpy_bottom_lem m d s (suc n) a h =
    memcpy_bottom_lem (store8 m d (m s)) (u32 (d + 1)) (u32 (s + 1)) n a (omega arith)
    ∙ moved-byte m d s n a h

memcpy_aligned_lem :
    (m : Mem) (d s n a : ℕ) → Forward d s n → memcpy_aligned m d s n a ≡ moved m d s n a
unfolding memcpy_aligned
memcpy_aligned_lem m d s n a h =
    memcpy_bottom_lem (movsl m d s (n / 4)) (u32 (d + 4 * (n / 4))) (u32 (s + 4 * (n / 4))) (n % 4)
      a (omega arith)
    ∙ movsl_lem m d s (n / 4) (n % 4) a (omega arith)
    ∙ ap (λ c. moved m d s c a) (omega arith)

memcpy_at : (m : Mem) (d s n a : ℕ) → Forward d s n → memcpy m d s n a ≡ moved m d s n a
unfolding memcpy
memcpy_at m d s zero a h = ground arith
memcpy_at m d s (suc n) a h = elim (Bool-cases (d % 4 == 0)) [
  | inl e ↦ rw e (memcpy_aligned_lem m d s (suc n) a h)
  | inr e ↦ rw e (
      memcpy_at (store8 m d (m s)) (u32 (d + 1)) (u32 (s + 1)) n a (omega arith)
      ∙ moved-byte m d s n a h)
]

-- Where the destination is not inside the source to its right, `memcpy` with its alignment loop, words
-- and rest copies `n` bytes and changes no other.
pub memcpy-moved : (m : Mem) (d s n : ℕ) → Forward d s n → memcpy m d s n ≡ moved m d s n
memcpy-moved m d s n h = fun_ext (λ a. memcpy_at m d s n a h)

filled-byte :
    (m : Mem) (d v n a : ℕ)
    → d + suc n < 2 ^ 32
    → filled (store8 m d v) (u32 (d + 1)) v n a ≡ filled m d v (suc n) a
filled-byte m d v n a h = ground arith

stosl_lem :
    (m : Mem) (d v k n a : ℕ)
    → d + (4 * k + n) < 2 ^ 32
    → filled (stosl m d v k) (u32 (d + 4 * k)) v n a ≡ filled m d v (4 * k + n) a
unfolding stosl
stosl_lem m d v zero n a h = ground arith
stosl_lem m d v (suc k) n a h =
    ap (λ d'. filled (stosl m' (u32 (d + 4)) v k) d' v n a) (omega arith)
    ∙ stosl_lem m' (u32 (d + 4)) v k n a (omega arith)
    ∙ four
  where
    m' : Mem
    m' = store8 (store8 (store8 (store8 m d v) (u32 (d + 1)) v) (u32 (d + 2)) v) (u32 (d + 3)) v

    four : filled m' (u32 (d + 4)) v (4 * k + n) a ≡ filled m d v (4 * suc k + n) a
    four = ground arith

memset_bottom_lem :
    (m : Mem) (d v n a : ℕ) → d + n < 2 ^ 32 → memset_bottom m d v n a ≡ filled m d v n a
unfolding memset_bottom
memset_bottom_lem m d v zero a h = ground arith
memset_bottom_lem m d v (suc n) a h =
    memset_bottom_lem (store8 m d v) (u32 (d + 1)) v n a (omega arith) ∙ filled-byte m d v n a h

memset_top_lem : (m : Mem) (d v n a : ℕ) → d + n < 2 ^ 32 → memset_top m d v n a ≡ filled m d v n a
unfolding memset_top
memset_top_lem m d v zero a h = ground arith
memset_top_lem m d v (suc n) a h = elim (Bool-cases (d % 4 == 0)) [
  | inl e ↦ rw e (
      memset_bottom_lem (stosl m d v (suc n / 4)) (u32 (d + 4 * (suc n / 4))) v (suc n % 4) a
        (omega arith)
      ∙ stosl_lem m d v (suc n / 4) (suc n % 4) a (omega arith)
      ∙ ap (λ c. filled m d v c a) (omega arith))
  | inr e ↦
      rw e
        (memset_top_lem (store8 m d v) (u32 (d + 1)) v n a (omega arith) ∙ filled-byte m d v n a h)
]

-- `memset` with its alignment loop, words and rest writes the low byte of `c` to `n` bytes and changes
-- no other.
pub memset-filled : (m : Mem) (s c n : ℕ) → s + n < 2 ^ 32 → memset m s c n ≡ filled m s (u8 c) n
unfolding memset
memset-filled m s c n h = fun_ext (λ a. memset_top_lem m s (u8 c) n a h)
