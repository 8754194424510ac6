-- ===== src/Support.antt =====
-- The library of the user programs, syscalls/ece391support.c, whose string routines fish/ece391support.c
-- repeats. A loop that runs to a NUL has the size of the address space as its fuel.
pub mod Compare
pub mod Equal
use ece391_mp3_illinix.Syscall.{Outcome, write}
use ece391_mp3_illinix.Text.{at, address_space, digit_char, no_digit, max_digits}
use ece391_mp3_illinix.Memory.{Mem, store8}
use ece391_mp3_illinix.Kernel.{Kernel, mem}
use ece391_mp3_illinix.Prelude.{
  ℕ, zero, suc, ◌+◌, ◌-◌, ◌*◌, ◌/◌, ◌%◌, ◌^◌, ◌≤◌, ◌<◌, min, max, ◌≡◌, refl, sym, ap, ap₂, ◌∙◌,
  fun_ext, subst, ◌≡⟨◌⟩◌, ◌∎, ◌≢◌, ◌↔◌, ◌⊎◌, inl, inr, Bool, true, false, not, ◌&&◌, ◌||◌, Option,
  none, some, List, [], ◌∷◌, ◌++◌, map, arith, dec_lt, dec_le, ℕ_discrete, ltb, leb, ◌==◌,
  if◌then◌else◌, Bool-cases, Option-cases, length, get_elem?, set, get_or, take, drop, replicate,
  length-set, get_or-set_self, get_or-set_ne, ◌>>=◌, ==_iff, every_below, every_below_use, same,
  same_sound,
}
use ece391_mp3_illinix.Word.{u8, u16, u32, sub32, minus_one, is_neg, slt, sle, sdiv, smod, sext8}

-- `ece391_strlen`: the loop moves the pointer and the count together.
pub ece391_strlen_from : ℕ → Mem → ℕ → ℕ → Option ℕ
ece391_strlen_from zero m s len = none
ece391_strlen_from (suc fuel) m s len =
    let rest = ece391_strlen_from fuel m (u32 (s + 1)) (u32 (len + 1)) in
    if 0 == m s then some len else rest

unfoldable pub ece391_strlen : Mem → ℕ → Option ℕ
ece391_strlen m s = ece391_strlen_from address_space m s 0

-- `ece391_strcpy`: the byte is stored, and then compared with the NUL.
pub ece391_strcpy_from : ℕ → Mem → ℕ → ℕ → Option Mem
ece391_strcpy_from zero m dst src = none
ece391_strcpy_from (suc fuel) m dst src =
    let c = m src in
    let m' = store8 m dst c in
    let rest = ece391_strcpy_from fuel m' (u32 (dst + 1)) (u32 (src + 1)) in
    if 0 == c then some m' else rest

unfoldable pub ece391_strcpy : Mem → ℕ → ℕ → Option Mem
ece391_strcpy m dst src = ece391_strcpy_from address_space m dst src

-- `ece391_strcmp`; the bytes are uint8_t, so the difference is not sign extended.
pub ece391_strcmp_from : ℕ → Mem → ℕ → ℕ → Option ℕ
ece391_strcmp_from zero m s1 s2 = none
ece391_strcmp_from (suc fuel) m s1 s2 =
    let rest = ece391_strcmp_from fuel m (u32 (s1 + 1)) (u32 (s2 + 1)) in
    if m s1 == m s2 then (if m s1 == 0 then some 0 else rest) else some (sub32 (m s1) (m s2))

unfoldable pub ece391_strcmp : Mem → ℕ → ℕ → Option ℕ
ece391_strcmp m s1 s2 = ece391_strcmp_from address_space m s1 s2

-- The loop of `ece391_strncmp` with `n` above 0: `--n == 0` ends it.
pub ece391_strncmp_from : Mem → ℕ → ℕ → ℕ → ℕ
ece391_strncmp_from m s1 s2 zero = 0
ece391_strncmp_from m s1 s2 (suc n) =
    let rest = ece391_strncmp_from m (u32 (s1 + 1)) (u32 (s2 + 1)) n in
    if m s1 == m s2 then (if m s1 == 0 || n == 0 then 0 else rest) else sub32 (m s1) (m s2)

unfoldable pub ece391_strncmp : Mem → ℕ → ℕ → ℕ → ℕ
unfolding ece391_strncmp_from
ece391_strncmp m s1 s2 n = if 0 == n then 0 else ece391_strncmp_from m s1 s2 n

-- `ece391_strrev`: it returns at once where `end <= 0`, then swaps the ends.
pub ece391_strrev_from : ℕ → Mem → ℕ → ℕ → ℕ → Option Mem
ece391_strrev_from zero m s beg end = none
ece391_strrev_from (suc fuel) m s beg end =
    let tmp = at m s end in
    let m' = store8 (store8 m (u32 (s + end)) (at m s beg)) (u32 (s + beg)) tmp in
    let rest = ece391_strrev_from fuel m' s (u32 (beg + 1)) (sub32 end 1) in
    if slt beg end then rest else some m

unfoldable pub ece391_strrev : Mem → ℕ → Option Mem
ece391_strrev m s = ece391_strlen m s >>= λ len.
    (let end = sub32 len 1 in
      if sle end 0 then some m else ece391_strrev_from address_space m s 0 end)

-- The loop of `ece391_itoa`, which writes the digits, lowest first, and the routine.
pub ece391_itoa_digits : ℕ → Mem → ℕ → ℕ → ℕ → Option (Mem × ℕ)
ece391_itoa_digits zero m newbuf newval radix = none
ece391_itoa_digits (suc fuel) m newbuf newval radix =
    let m' = store8 m newbuf (digit_char (newval % radix)) in
    let rest = ece391_itoa_digits fuel m' (u32 (newbuf + 1)) (newval / radix) radix in
    if ltb 0 newval then if no_digit newval radix then none else rest else some (m, newbuf)

unfoldable pub ece391_itoa : Mem → ℕ → ℕ → ℕ → Option Mem
ece391_itoa m value buf radix =
    if value == 0
    then some (store8 (store8 m buf b'0') (u32 (buf + 1)) 0)
    else (ece391_itoa_digits max_digits m buf value radix >>= λ r.
        ece391_strrev (store8 r.0 r.1 0) buf)

-- `ece391_fdputs`: the call of `ece391_write` traps to `write`, whose result is dropped.
unfoldable pub ece391_fdputs : Kernel → ℕ → ℕ → Option Outcome
ece391_fdputs k fd s = ece391_strlen (mem k) s >>= λ len. some (write k fd s len)
