-- ===== src/Memory/Bytes.antt =====
-- Bytes of a list, one after another in memory.
use ece391_mp3_illinix.Prelude.{
  ℕ, suc, ◌+◌, ◌-◌, ◌^◌, ◌<◌, ◌≡◌, ◌∙◌, ◌&&◌, List, [], ◌∷◌, arith, dec_lt, ltb, leb, if◌then◌else◌,
  length, get_or,
}
use ece391_mp3_illinix.Word.{u32}
use ece391_mp3_illinix.Memory.{Mem, store8}

unfoldable pub put : Mem → ℕ → List ℕ → Mem
put m p [] = m
put m p (c ∷ cs) = put (store8 m p c) (u32 (p + 1)) cs

-- The byte at each address after a `put`.
pub put_at :
    (m : Mem) (p : ℕ) (cs : List ℕ) (a : ℕ)
    → p + length cs < 2 ^ 32
    → put m p cs a ≡ (if leb p a && ltb a (p + length cs) then get_or cs (a - p) 0 else m a)
unfolding put
put_at m p [] a h = ground arith
put_at m p (c ∷ cs) a h = put_at (store8 m p c) (u32 (p + 1)) cs a (omega arith) ∙ step
  where
    step :
        (if leb (u32 (p + 1)) a && ltb a (u32 (p + 1) + length cs)
          then get_or cs (a - u32 (p + 1)) 0
          else store8 m p c a)
        ≡ (if leb p a && ltb a (p + length (c ∷ cs)) then get_or (c ∷ cs) (a - p) 0 else m a)
    step = elim (dec_lt p a) [
      | yes after ↦ let e : a - p ≡ suc (a - u32 (p + 1)) = omega arith in rw e (ground arith)
      | no before ↦ let e : a - p ≡ 0 = omega arith in rw e (ground arith)
    ]
