-- ===== src/Text.antt =====
-- The string routines of student-distrib/lib.c over memory. A routine that runs to a NUL gives
-- `none` only where the bytes hold no NUL at all: its fuel is the size of the address space.
pub mod Itoa
pub mod Length
pub mod Reverse
use Prim.Native.Char.{code}
use Prim.Native.String.{String}
use ece391_mp3_illinix.Prelude.{
  ℕ, zero, suc, ◌+◌, ◌-◌, ◌*◌, ◌/◌, ◌%◌, ◌^◌, ltb, leb, ◌==◌, if◌then◌else◌, ◌&&◌, ◌||◌, Option,
  none, some, ◌>>=◌, not, List, [], ◌∷◌, Bool,
}
use ece391_mp3_illinix.Word.{u8, u32, sub32, slt, sext8}
use ece391_mp3_illinix.Memory.{Mem, store8}

-- A string literal as its bytes.
abbrev pub codes : String → List ℕ
codes String.[] = []
codes (String.◌∷◌ letter letters) = code letter ∷ codes letters

-- `p[i]`.
abbrev pub at : Mem → ℕ → ℕ → ℕ
at m p i = m (u32 (p + i))

abbrev pub address_space : ℕ
address_space = 2 ^ 32

-- The loop of `strlen`.
unfoldable pub strlen_from : ℕ → Mem → ℕ → ℕ → Option ℕ
strlen_from zero m s len = none
strlen_from (suc fuel) m s len =
    let rest = strlen_from fuel m s (u32 (len + 1)) in if at m s len == 0 then some len else rest

unfoldable pub strlen : Mem → ℕ → Option ℕ
strlen m s = strlen_from address_space m s 0

-- The loop of `strncmp` with `k = n - i` rounds left; the result is an int32_t.
unfoldable pub strncmp_from : Mem → ℕ → ℕ → ℕ → ℕ → ℕ
strncmp_from m s1 s2 i zero = 0
strncmp_from m s1 s2 i (suc k) =
    let rest = strncmp_from m s1 s2 (i + 1) k in
    if not (at m s1 i == at m s2 i) || at m s1 i == 0
    then sub32 (sext8 (at m s1 i)) (sext8 (at m s2 i))
    else rest

unfoldable pub strncmp : Mem → ℕ → ℕ → ℕ → ℕ
unfolding strncmp_from
strncmp m s1 s2 n = strncmp_from m s1 s2 0 n

-- `strcpy`.
unfoldable pub strcpy_from : ℕ → Mem → ℕ → ℕ → ℕ → Option Mem
strcpy_from zero m dest src i = none
strcpy_from (suc fuel) m dest src i =
    let rest = strcpy_from fuel (store8 m (u32 (dest + i)) (at m src i)) dest src (u32 (i + 1)) in
    if at m src i == 0 then some (store8 m (u32 (dest + i)) 0) else rest

unfoldable pub strcpy : Mem → ℕ → ℕ → Option Mem
strcpy m dest src = strcpy_from address_space m dest src 0

-- The two loops of `strncpy`, with `k = n - i` rounds left.
unfoldable pub strncpy_pad : Mem → ℕ → ℕ → ℕ → Mem
strncpy_pad m dest i zero = m
strncpy_pad m dest i (suc k) = strncpy_pad (store8 m (u32 (dest + i)) 0) dest (i + 1) k

unfoldable pub strncpy_from : Mem → ℕ → ℕ → ℕ → ℕ → Mem
unfolding strncpy_pad
strncpy_from m dest src i zero = m
strncpy_from m dest src i (suc k) =
    let rest = strncpy_from (store8 m (u32 (dest + i)) (at m src i)) dest src (i + 1) k in
    if at m src i == 0 then strncpy_pad m dest i (suc k) else rest

unfoldable pub strncpy : Mem → ℕ → ℕ → ℕ → Mem
unfolding strncpy_from
strncpy m dest src n = strncpy_from m dest src 0 n

-- `strrev`: the loop on `beg` and `end`, which are int32_t; each round brings them two nearer.
unfoldable pub strrev_from : ℕ → Mem → ℕ → ℕ → ℕ → Option Mem
strrev_from zero m s beg end = none
strrev_from (suc fuel) m s beg end =
    let tmp = at m s end in
    let m' = store8 (store8 m (u32 (s + end)) (at m s beg)) (u32 (s + beg)) tmp in
    let rest = strrev_from fuel m' s (u32 (beg + 1)) (sub32 end 1) in
    if slt beg end then rest else some m

unfoldable pub strrev : Mem → ℕ → Option Mem
strrev m s = do len ← strlen m s; strrev_from address_space m s 0 (sub32 len 1)

-- `lookup[i]`: the digits, the capital letters, and the NUL of the literal at 36, its last byte.
abbrev pub digit_char : ℕ → ℕ
digit_char i = if ltb i 10 then b'0' + i else if ltb i 36 then b'A' + i - 10 else 0

-- A division by 0, or a digit that is beyond `lookup`.
abbrev pub no_digit : ℕ → ℕ → Bool
no_digit newval radix = radix == 0 || ltb 36 (newval % radix)

-- The loop of `itoa` that writes the digits, lowest first: the memory and `newbuf` at its end; `none`
-- where it has no digit to write.
unfoldable pub itoa_digits : ℕ → Mem → ℕ → ℕ → ℕ → Option (Mem × ℕ)
itoa_digits zero m newbuf newval radix = none
itoa_digits (suc fuel) m newbuf newval radix =
    let rest =
      itoa_digits fuel (store8 m newbuf (digit_char (newval % radix))) (u32 (newbuf + 1))
        (newval / radix) radix in
    if newval == 0 then some (m, newbuf) else if no_digit newval radix then none else rest

-- Enough rounds for every uint32_t at a radix of two or more.
abbrev pub max_digits : ℕ
max_digits = 33

unfoldable pub itoa : Mem → ℕ → ℕ → ℕ → Option Mem
itoa m value buf radix =
    if value == 0
    then some (store8 (store8 m buf b'0') (u32 (buf + 1)) 0)
    else (itoa_digits max_digits m buf value radix >>= λ r. strrev (store8 r.0 r.1 0) buf)
