-- ===== src/Support/Equal.antt =====
-- The string routines of syscalls/ece391support.c next to those of student-distrib/lib.c.
use ece391_mp3_illinix.Support.{
  ece391_strlen, ece391_strcpy, ece391_strrev, ece391_strrev_from, ece391_itoa, ece391_itoa_digits,
  ece391_strcpy_from, ece391_strlen_from, Mem, address_space, store8, max_digits, at, digit_char,
}
use ece391_mp3_illinix.Text.{
  strrev_from, strlen_from, strlen, strcpy_from, strcpy, strrev, itoa_digits, itoa,
}
use ece391_mp3_illinix.Print.Digits.{itoa-digits}
use ece391_mp3_illinix.Print.{digits}
use ece391_mp3_illinix.Memory.Bytes.{put}
use ece391_mp3_illinix.Prelude.{
  ◌++◌, [], ◌∷◌, ◌≤◌, ℕ, zero, suc, ◌+◌, ◌-◌, ◌/◌, ◌%◌, ◌^◌, ◌<◌, ◌≡◌, refl, sym, ap, ap₂, ◌∙◌,
  fun_ext, inl, inr, true, false, Option, some, arith, ◌==◌, if◌then◌else◌, Bool-cases, ◌>>=◌,
  if_true, if_false,
}
use ece391_mp3_illinix.Word.{u32, sub32, slt, sle}

-- A pointer that moves, next to an index that grows.
step_at : (s i : ℕ) → u32 (u32 (s + i) + 1) ≡ u32 (s + u32 (i + 1))
step_at s i = omega arith

ece391_strlen_from_lem :
    (fuel : ℕ) (m : Mem) (s len : ℕ)
    → ece391_strlen_from fuel m (u32 (s + len)) len ≡ strlen_from fuel m s len
unfolding ece391_strlen_from strlen_from
ece391_strlen_from_lem zero m s len = refl
ece391_strlen_from_lem (suc fuel) m s len =
    rw (step_at s len, ece391_strlen_from_lem fuel m s (u32 (len + 1))) (ground arith)

pub ece391_strlen-strlen : (m : Mem) (s : ℕ) → s < 2 ^ 32 → ece391_strlen m s ≡ strlen m s
unfolding ece391_strlen strlen
ece391_strlen-strlen m s h =
    ap (λ p. ece391_strlen_from address_space m p 0) (omega arith)
    ∙ ece391_strlen_from_lem address_space m s 0

ece391_strcpy_from_lem :
    (fuel : ℕ) (m : Mem) (dst src i : ℕ)
    → ece391_strcpy_from fuel m (u32 (dst + i)) (u32 (src + i)) ≡ strcpy_from fuel m dst src i
unfolding ece391_strcpy_from strcpy_from
ece391_strcpy_from_lem zero m dst src i = refl
ece391_strcpy_from_lem (suc fuel) m dst src i =
    rw
      (
        step_at dst i,
        step_at src i,
        ece391_strcpy_from_lem fuel (store8 m (u32 (dst + i)) (at m src i)) dst src (u32 (i + 1)),
      )
      (ground arith)

-- The user's `ece391_strcpy`, which stores each byte before it looks for the NUL, does to memory what
-- the kernel's `strcpy` does, overlapping strings included.
pub ece391_strcpy-strcpy :
    (m : Mem) (dst src : ℕ)
    → dst < 2 ^ 32
    → src < 2 ^ 32
    → ece391_strcpy m dst src ≡ strcpy m dst src
unfolding ece391_strcpy strcpy
ece391_strcpy-strcpy m dst src hd hs =
    ap₂ (ece391_strcpy_from address_space m) (omega arith) (omega arith)
    ∙ ece391_strcpy_from_lem address_space m dst src 0

ece391_strrev_from_lem :
    (fuel : ℕ) (m : Mem) (s beg end : ℕ)
    → ece391_strrev_from fuel m s beg end ≡ strrev_from fuel m s beg end
unfolding ece391_strrev_from strrev_from
ece391_strrev_from_lem zero m s beg end = refl
ece391_strrev_from_lem (suc fuel) m s beg end =
    let tmp = at m s end in
    let m' = store8 (store8 m (u32 (s + end)) (at m s beg)) (u32 (s + beg)) tmp in
    ap (λ rest. if slt beg end then rest else some m)
      (ece391_strrev_from_lem fuel m' s (u32 (beg + 1)) (sub32 end 1))

-- Where there is nothing to swap the loop of `strrev` ends at its first test.
strrev_from_end :
    (fuel : ℕ) (m : Mem) (s end : ℕ) → sle end 0 ≡ true → strrev_from (suc fuel) m s 0 end ≡ some m
unfolding strrev_from
strrev_from_end fuel m s end h = let t : slt 0 end ≡ false = ground arith in if_false t _ _

pub ece391_strrev-strrev : (m : Mem) (s : ℕ) → s < 2 ^ 32 → ece391_strrev m s ≡ strrev m s
unfolding ece391_strrev strrev
ece391_strrev-strrev m s h =
    ap (λ o. o >>= turn_user) (ece391_strlen-strlen m s h)
    ∙ ap (λ f. strlen m s >>= f) (fun_ext same_turn)
  where
    turn_user : ℕ → Option Mem
    turn_user len =
        let end = sub32 len 1 in
        if sle end 0 then some m else ece391_strrev_from address_space m s 0 end

    same_turn : (len : ℕ) → turn_user len ≡ strrev_from address_space m s 0 (sub32 len 1)
    same_turn len = elim (Bool-cases (sle (sub32 len 1) 0)) [
      | inl e ↦ if_true e _ _ ∙ sym (strrev_from_end (2 ^ 32 - 1) m s (sub32 len 1) e)
      | inr e ↦ if_false e _ _ ∙ ece391_strrev_from_lem address_space m s 0 (sub32 len 1)
    ]

ece391_itoa_digits_lem :
    (fuel : ℕ) (m : Mem) (newbuf newval radix : ℕ)
    → ece391_itoa_digits fuel m newbuf newval radix ≡ itoa_digits fuel m newbuf newval radix
unfolding ece391_itoa_digits itoa_digits
ece391_itoa_digits_lem zero m newbuf newval radix = refl
ece391_itoa_digits_lem (suc fuel) m newbuf newval radix =
    let m' = store8 m newbuf (digit_char (newval % radix)) in
    rw (ece391_itoa_digits_lem fuel m' (u32 (newbuf + 1)) (newval / radix) radix) (ground arith)

ece391_itoa_lem :
    (m : Mem) (value buf radix : ℕ)
    → buf < 2 ^ 32
    → ece391_itoa m value buf radix ≡ itoa m value buf radix
unfolding ece391_itoa itoa
ece391_itoa_lem m value buf radix h =
    ap₂
      (λ o f. if value == 0 then some (store8 (store8 m buf b'0') (u32 (buf + 1)) 0) else (o >>= f))
      (ece391_itoa_digits_lem max_digits m buf value radix)
      (fun_ext (λ r. ece391_strrev-strrev (store8 r.0 r.1 0) buf h))

-- For every uint32_t and every radix from 2 to 36, and a buffer that starts more than 34 bytes before
-- the end of memory, the user's `ece391_itoa` returns with the digits of the value in the buffer, highest
-- first, a NUL after them and no other byte changed, just as the kernel's `itoa` does, though its
-- `ece391_strrev` walks a pointer for the length and returns early on short strings.
pub ece391_itoa-itoa :
    (m : Mem) (value buf radix : ℕ)
    → 2 ≤ radix
    → radix ≤ 36
    → value < 2 ^ 32
    → buf + 34 < 2 ^ 32
    → (ece391_itoa m value buf radix ≡ some (put m buf (digits value radix ++ 0 ∷ [])))
      × (ece391_itoa m value buf radix ≡ itoa m value buf radix)
ece391_itoa-itoa m value buf radix two top word fits =
    let same = ece391_itoa_lem m value buf radix (omega arith) in
    (same ∙ itoa-digits m value buf radix two top word fits, same)
