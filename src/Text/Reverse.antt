-- ===== src/Text/Reverse.antt =====
-- strrev of student-distrib/lib.c turns a string around.
use ece391_mp3_illinix.Prelude.{
  ℕ, zero, suc, ◌+◌, ◌-◌, ◌^◌, ◌≤◌, ◌<◌, ◌≡◌, ap, ◌∙◌, fun_ext, true, false, ◌&&◌, some, arith,
  dec_lt, leb, if◌then◌else◌, ◌>>=◌,
}
use ece391_mp3_illinix.Word.{u32, sub32, slt}
use ece391_mp3_illinix.Memory.{Mem, store8}
use ece391_mp3_illinix.Text.{at, strrev, strrev_from, address_space}
use ece391_mp3_illinix.Text.Length.{CString, strlen-eq}

-- Memory with the bytes from `s + b` to `s + e` in the other order.
abbrev pub turned : Mem → ℕ → ℕ → ℕ → Mem
turned m s b e a = if leb (s + b) a && leb a (s + e) then m (s + b + (s + e) - a) else m a

turned_done : (m : Mem) (s b e a : ℕ) → e ≤ b → b ≤ e + 1 → m a ≡ turned m s b e a
turned_done m s b e a h hb = ground arith

-- The two outer bytes swapped, and the rest turned around.
turned_outer :
    (m : Mem) (s b e a : ℕ)
    → s + e < 2 ^ 32
    → b < e
    → turned
        (store8 (store8 m (u32 (s + e)) (at m s b)) (u32 (s + b)) (at m s e))
        s
        (b + 1)
        (e - 1)
        a
      ≡ turned m s b e a
turned_outer m s b e a hs h =
    let e₁ : u32 (s + e) ≡ s + e = omega arith in
    let e₂ : u32 (s + b) ≡ s + b = omega arith in rw (e₁, e₂) (ground arith)

strrev_from_lem :
    (fuel : ℕ) (m : Mem) (s b e : ℕ)
    → s + e < 2 ^ 32
    → e + 1 < 2 ^ 31
    → b ≤ e + 1
    → e + 1 < fuel + b
    → strrev_from fuel m s b e ≡ some (turned m s b e)
unfolding strrev_from
strrev_from_lem zero m s b e hs he hb hf = absurd (omega arith)
strrev_from_lem (suc fuel) m s b e hs he hb hf = elim (dec_lt b e) [
  | no stop ↦
      let t : slt b e ≡ false = ground arith in
      rw t (ap some (fun_ext (λ a. turned_done m s b e a (omega arith) hb)))
  | yes more ↦
      let t : slt b e ≡ true = ground arith in
      let e₁ : sub32 e 1 ≡ e - 1 = ground arith in
      let b₁ : u32 (b + 1) ≡ b + 1 = omega arith in
      let m' : Mem = store8 (store8 m (u32 (s + e)) (at m s b)) (u32 (s + b)) (at m s e) in
      rw (t, e₁, b₁)
        (strrev_from_lem fuel m' s (b + 1) (e - 1) (omega arith) (omega arith) (omega arith)
            (omega arith)
          ∙ ap some (fun_ext (λ a. turned_outer m s b e a hs more)))
]

-- `strrev` of a string of at least one byte: its bytes in the other order, and nothing else changes.
pub strrev-turned :
    (m : Mem) (s n : ℕ)
    → CString m s (suc n)
    → s + n < 2 ^ 32
    → n + 1 < 2 ^ 31
    → strrev m s ≡ some (turned m s 0 n)
unfolding strrev
strrev-turned m s n c hs hn =
    let e : sub32 (suc n) 1 ≡ n = ground arith in
    ap (λ o. o >>= λ len. strrev_from address_space m s 0 (sub32 len 1)) (strlen-eq m s (suc n) c)
    ∙ ap (strrev_from address_space m s 0) e
    ∙ strrev_from_lem address_space m s 0 n hs hn (omega arith) (omega arith)
