-- ===== src/Terminal/Outside.antt =====
-- What `strncpy` and `clear` of student-distrib/lib.c write, and what they leave alone.
use ece391_mp3_illinix.Memory.{Mem, store8}
use ece391_mp3_illinix.Console.{Screen, video, put_cell, attrib}
use ece391_mp3_illinix.Console.Paint.{paint, clear, high, bar_char, attrib_bar, attrib_high}
use ece391_mp3_illinix.Text.{strncpy, strncpy_pad, strncpy_from, at}
use ece391_mp3_illinix.Prelude.{
  ℕ, zero, suc, ◌+◌, ◌^◌, ◌≤◌, ◌<◌, ◌≡◌, refl, sym, ap, ◌∙◌, subst, ◌≢◌, ◌⊎◌, inl, inr, false,
  arith, ◌==◌, Bool-cases, if_false, if_true,
}
use ece391_mp3_illinix.Word.{u32}

strncpy_pad-Outside :
    (k : ℕ) (m : Mem) (dest i a : ℕ)
    → dest + i + k < 2 ^ 32
    → (a < dest + i) ⊎ (dest + i + k ≤ a)
    → strncpy_pad m dest i k a ≡ m a
unfolding strncpy_pad
strncpy_pad-Outside zero m dest i a h o = refl
strncpy_pad-Outside (suc k) m dest i a h o =
    strncpy_pad-Outside k (store8 m (u32 (dest + i)) 0) dest (i + 1) a (omega arith) (ground arith)
    ∙ ground arith

strncpy_from-Outside :
    (k : ℕ) (m : Mem) (dest src i a : ℕ)
    → dest + i + k < 2 ^ 32
    → (a < dest + i) ⊎ (dest + i + k ≤ a)
    → strncpy_from m dest src i k a ≡ m a
unfolding strncpy_from
strncpy_from-Outside zero m dest src i a h o = refl
strncpy_from-Outside (suc k) m dest src i a h o =
    let ih =
      strncpy_from-Outside k (store8 m (u32 (dest + i)) (at m src i)) dest src (i + 1) a
        (omega arith) (ground arith) in
    let e : store8 m (u32 (dest + i)) (at m src i) a ≡ m a = ground arith in
    elim (Bool-cases (at m src i == 0)) [
      | inl t ↦ ap (λ (f : Mem). f a) (if_true t _ _) ∙ strncpy_pad-Outside (suc k) m dest i a h o
      | inr t ↦ ap (λ (f : Mem). f a) (if_false t _ _) ∙ ih ∙ e
    ]

-- `strncpy` writes `n` bytes at most.
pub strncpy-Outside :
    (m : Mem) (dest src n a : ℕ)
    → dest + n < 2 ^ 32
    → (a < dest) ⊎ (dest + n ≤ a)
    → strncpy m dest src n a ≡ m a
unfolding strncpy
strncpy-Outside m dest src n a h o =
    strncpy_from-Outside n m dest src 0 a (omega arith) (ground arith)

paint-Outside :
    (k : ℕ) (m : Mem) (text : ℕ → ℕ) (attribute i a : ℕ)
    → i + k ≤ 2000
    → (a < video) ⊎ (video + 4000 ≤ a)
    → paint m text attribute i k a ≡ m a
unfolding paint
paint-Outside zero m text attribute i a h o = refl
paint-Outside (suc k) m text attribute i a h o =
    paint-Outside k (put_cell m video i (text i) attribute) text attribute (i + 1) a (omega arith) o
    ∙ ground arith

-- `clear` writes the screen alone.
pub clear-Outside :
    (s : Screen) (a : ℕ)
    → s.current_terminal < 3
    → (a < video) ⊎ (video + 4000 ≤ a)
    → (clear s).mem a ≡ s.mem a
unfolding clear
clear-Outside s a h o =
    let t : high s.current_terminal ≤ 60 = ground arith in
    let body = paint s.mem (λ _. b' ') (attrib s.current_terminal) 0 1920 in
    let bar = paint body bar_char attrib_bar 1920 80 in
    paint-Outside 10 bar bar_char attrib_high (1920 + high s.current_terminal) a (omega arith) o
    ∙ paint-Outside 80 body bar_char attrib_bar 1920 a (omega arith) o
    ∙ paint-Outside 1920 s.mem (λ _. b' ') (attrib s.current_terminal) 0 a (omega arith) o

strncpy_from-copied :
    (k : ℕ) (m : Mem) (dest src i j : ℕ)
    → dest + i + k < 2 ^ 32
    → src + i + k < 2 ^ 32
    → (dest + i + k ≤ src + i) ⊎ (src + i + k ≤ dest + i)
    → j < k
    → ((t : ℕ) → t ≤ j → m (src + i + t) ≢ 0)
    → strncpy_from m dest src i k (dest + i + j) ≡ m (src + i + j)
unfolding strncpy_from
strncpy_from-copied zero m dest src i j hd hs o h n = elim h [ ]
strncpy_from-copied (suc k) m dest src i zero hd hs o h n =
    let e : u32 (src + i) ≡ src + i = omega arith in
    let d : u32 (dest + i) ≡ dest + i = omega arith in
    let z : (m (src + i) == 0) ≡ false =
      let q = n 0 (omega arith) in
      let p : src + i + 0 ≡ src + i = omega arith in ground (arith, subst (λ a. m a ≢ 0) p q) in
    let m' = store8 m (dest + i) (m (src + i)) in
    let out =
      strncpy_from-Outside k m' dest src (i + 1) (dest + i + 0) (omega arith) (ground arith) in
    let p : src + i + 0 ≡ src + i = omega arith in rw (e, d, z) (out ∙ ground (arith, ap m p))
strncpy_from-copied (suc k) m dest src i (suc j) hd hs o h n =
    let e : u32 (src + i) ≡ src + i = omega arith in
    let d : u32 (dest + i) ≡ dest + i = omega arith in
    let z : (m (src + i) == 0) ≡ false =
      let q = n 0 (omega arith) in
      let p : src + i + 0 ≡ src + i = omega arith in ground (arith, subst (λ a. m a ≢ 0) p q) in
    let m' = store8 m (dest + i) (m (src + i)) in
    let kept = λ (t : ℕ) (l : t ≤ j).
      let p : src + (i + 1) + t ≡ src + i + suc t = omega arith in
      let f : (dest + i == src + (i + 1) + t) ≡ false = ground arith in
      if_false f (m (src + i)) (m (src + (i + 1) + t)) ∙ ap m p in
    let ih =
      strncpy_from-copied k m' dest src (i + 1) j (omega arith) (omega arith) (ground arith)
        (omega arith) (λ t l q. n (suc t) (omega arith) (sym (kept t l) ∙ q)) in
    let p : dest + i + suc j ≡ dest + (i + 1) + j = omega arith in
    rw (e, d, z, p) (ih ∙ kept j (omega arith))

-- `strncpy` copies the bytes in front of the first NUL.
pub strncpy-copied :
    (m : Mem) (dest src n j : ℕ)
    → dest + n < 2 ^ 32
    → src + n < 2 ^ 32
    → (dest + n ≤ src) ⊎ (src + n ≤ dest)
    → j < n
    → ((t : ℕ) → t ≤ j → m (src + t) ≢ 0)
    → strncpy m dest src n (dest + j) ≡ m (src + j)
unfolding strncpy
strncpy-copied m dest src n j hd hs o h nz =
    let p : dest + j ≡ dest + 0 + j = omega arith in
    let q : src + 0 + j ≡ src + j = omega arith in
    ap (strncpy_from m dest src 0 n) p
    ∙ strncpy_from-copied n m dest src 0 j (omega arith) (omega arith) (ground arith) h
        (λ t l. subst (λ a. m a ≢ 0) (let r : src + t ≡ src + 0 + t = omega arith in r) (nz t l))
    ∙ ap m q
