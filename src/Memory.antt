-- ===== src/Memory.antt =====
-- Memory, and the block routines of student-distrib/lib.c: memset, memcpy and memmove, whose
-- bodies are assembly; the first two go by bytes to an aligned address and then by double words.
pub mod Block
pub mod Bytes
pub mod Overlap
use ece391_mp3_illinix.Prelude.{
  ℕ, zero, suc, ◌+◌, ◌*◌, ◌/◌, ◌%◌, ◌^◌, ltb, leb, ◌==◌, if◌then◌else◌, ◌&&◌, ◌-◌,
}
use ece391_mp3_illinix.Word.{u8, u32, sub32}

-- The byte at each address.
abbrev pub Mem : Type 0
Mem = ℕ → ℕ

abbrev pub store8 : Mem → ℕ → ℕ → Mem
store8 m a v b = if a == b then v else m b

-- A little-endian uint32_t.
abbrev pub load32 : Mem → ℕ → ℕ
load32 m a = m a + 2 ^ 8 * m (u32 (a + 1)) + 2 ^ 16 * m (u32 (a + 2)) + 2 ^ 24 * m (u32 (a + 3))

-- A store of a uint32_t.
abbrev pub store32 : Mem → ℕ → ℕ → Mem
store32 m a v =
    store8
      (store8 (store8 (store8 m a (u8 v)) (u32 (a + 1)) (u8 (v / 2 ^ 8))) (u32 (a + 2))
        (u8 (v / 2 ^ 16)))
      (u32 (a + 3)) (u8 (v / 2 ^ 24))

-- One `movsl`: the four bytes are read before any is written.
abbrev pub copy4 : Mem → ℕ → ℕ → Mem
copy4 m d s =
    store8
      (store8 (store8 (store8 m d (m s)) (u32 (d + 1)) (m (u32 (s + 1)))) (u32 (d + 2))
        (m (u32 (s + 2))))
      (u32 (d + 3)) (m (u32 (s + 3)))

-- `rep movsl`, the count in ecx.
pub movsl : Mem → ℕ → ℕ → ℕ → Mem
movsl m edi esi zero = m
movsl m edi esi (suc ecx) = movsl (copy4 m edi esi) (u32 (edi + 4)) (u32 (esi + 4)) ecx

-- `.memcpy_bottom`, the count in edx.
pub memcpy_bottom : Mem → ℕ → ℕ → ℕ → Mem
memcpy_bottom m edi esi zero = m
memcpy_bottom m edi esi (suc edx) =
    memcpy_bottom (store8 m edi (m esi)) (u32 (edi + 1)) (u32 (esi + 1)) edx

-- `.memcpy_aligned`.
pub memcpy_aligned : Mem → ℕ → ℕ → ℕ → Mem
memcpy_aligned m edi esi ecx =
    memcpy_bottom (movsl m edi esi (ecx / 4)) (u32 (edi + 4 * (ecx / 4)))
      (u32 (esi + 4 * (ecx / 4))) (ecx % 4)

-- `memcpy(dest, src, n)`, from `.memcpy_top`.
unfoldable pub memcpy : Mem → ℕ → ℕ → ℕ → Mem
unfolding memcpy_aligned memcpy_bottom movsl
memcpy m edi esi zero = m
memcpy m edi esi (suc ecx) =
    let bytewise = memcpy (store8 m edi (m esi)) (u32 (edi + 1)) (u32 (esi + 1)) ecx in
    if edi % 4 == 0 then memcpy_aligned m edi esi (suc ecx) else bytewise

-- `rep stosl` of one byte in all four places, and `.memset_bottom`.
pub stosl : Mem → ℕ → ℕ → ℕ → Mem
stosl m edi al zero = m
stosl m edi al (suc ecx) =
    stosl
      (store8 (store8 (store8 (store8 m edi al) (u32 (edi + 1)) al) (u32 (edi + 2)) al)
        (u32 (edi + 3)) al)
      (u32 (edi + 4)) al ecx

pub memset_bottom : Mem → ℕ → ℕ → ℕ → Mem
memset_bottom m edi al zero = m
memset_bottom m edi al (suc edx) = memset_bottom (store8 m edi al) (u32 (edi + 1)) al edx

pub memset_top : Mem → ℕ → ℕ → ℕ → Mem
memset_top m edi al zero = m
memset_top m edi al (suc n) =
    let bytewise = memset_top (store8 m edi al) (u32 (edi + 1)) al n in
    let ecx = suc n in
    if edi % 4 == 0
    then memset_bottom (stosl m edi al (ecx / 4)) (u32 (edi + 4 * (ecx / 4))) al (ecx % 4)
    else bytewise

-- `memset(s, c, n)`: `c &= 0xFF`, then the byte in all four places of eax.
unfoldable pub memset : Mem → ℕ → ℕ → ℕ → Mem
unfolding memset_top memset_bottom stosl
memset m s c n = memset_top m s (u8 c) n

-- `rep movsb` with the direction flag clear, and with it set.
pub movsb_up : Mem → ℕ → ℕ → ℕ → Mem
movsb_up m edi esi zero = m
movsb_up m edi esi (suc ecx) = movsb_up (store8 m edi (m esi)) (u32 (edi + 1)) (u32 (esi + 1)) ecx

pub movsb_down : Mem → ℕ → ℕ → ℕ → Mem
movsb_down m edi esi zero = m
movsb_down m edi esi (suc ecx) = movsb_down (store8 m edi (m esi)) (sub32 edi 1) (sub32 esi 1) ecx

-- `memmove(dest, src, n)`: from the last byte down where the source lies below the destination.
unfoldable pub memmove : Mem → ℕ → ℕ → ℕ → Mem
unfolding movsb_up movsb_down
memmove m edi esi ecx =
    if leb edi esi
    then movsb_up m edi esi ecx
    else movsb_down m (sub32 (u32 (edi + ecx)) 1) (sub32 (u32 (esi + ecx)) 1) ecx

-- `memset_word` (`rep stosw`) and `memset_dword` (`rep stosl`), `ecx` units each.
unfoldable pub memset_word : Mem → ℕ → ℕ → ℕ → Mem
memset_word m edi eax zero = m
memset_word m edi eax (suc ecx) =
    memset_word (store8 (store8 m edi (u8 eax)) (u32 (edi + 1)) (u8 (eax / 2 ^ 8))) (u32 (edi + 2))
      eax ecx

unfoldable pub memset_dword : Mem → ℕ → ℕ → ℕ → Mem
memset_dword m edi eax zero = m
memset_dword m edi eax (suc ecx) = memset_dword (store32 m edi eax) (u32 (edi + 4)) eax ecx

-- What a copy and a fill promise: the bytes of the destination, and all others kept.
abbrev pub moved : Mem → ℕ → ℕ → ℕ → Mem
moved m d s n a = if leb d a && ltb a (d + n) then m (s + a - d) else m a

abbrev pub filled : Mem → ℕ → ℕ → ℕ → Mem
filled m d v n a = if leb d a && ltb a (d + n) then v else m a
