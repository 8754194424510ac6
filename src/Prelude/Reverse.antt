-- ===== src/Prelude/Reverse.antt =====
-- A list turned around onto another.
use Prim.Native.Nat.{ℕ, suc, ◌+◌, ◌-◌}
use mathlib.Core.Path.{◌≡◌, ◌∙◌}
use mathlib.Core.List.{List, [], ◌∷◌}
use native.Mathlib.Omega.{arith}
use native.Mathlib.Decide.{dec_lt, ℕ_discrete}
use ece391_mp3_illinix.Prelude.Lists.{length, get_or}
use ece391_mp3_illinix.Prelude.Tests.{ltb, if◌then◌else◌}

module _ {ℓ} {A : Type ℓ} where
  abbrev pub reverse_onto : List A → List A → List A
  reverse_onto [] acc = acc
  reverse_onto (x ∷ xs) acc = reverse_onto xs (x ∷ acc)

  pub length-reverse_onto :
      (xs acc : List A) → length (reverse_onto xs acc) ≡ length xs + length acc
  length-reverse_onto [] acc = omega arith
  length-reverse_onto (x ∷ xs) acc = omega (arith, length-reverse_onto xs (x ∷ acc))

  pub get_or-reverse_onto :
      (xs acc : List A) (i : ℕ) (d : A)
      → get_or (reverse_onto xs acc) i d ≡ (
          if ltb i (length xs)
          then get_or xs (length xs - 1 - i) d
          else get_or acc (i - length xs) d)
  get_or-reverse_onto [] acc i d = ground arith
  get_or-reverse_onto (x ∷ xs) acc i d = get_or-reverse_onto xs (x ∷ acc) i d ∙ step
    where
      step :
          (if ltb i (length xs)
            then get_or xs (length xs - 1 - i) d
            else get_or (x ∷ acc) (i - length xs) d)
          ≡ (if ltb i (suc (length xs))
              then get_or (x ∷ xs) (suc (length xs) - 1 - i) d
              else get_or acc (i - suc (length xs)) d)
      step = elim (dec_lt i (length xs)) [
        | yes inside ↦
            let e : suc (length xs) - 1 - i ≡ suc (length xs - 1 - i) = omega arith in
            rw e (ground arith)
        | no outside ↦ elim (ℕ_discrete i (length xs)) [
          | yes last ↦
              let e : suc (length xs) - 1 - i ≡ 0 = omega arith in
              let e' : i - length xs ≡ 0 = omega arith in rw (e, e') (ground arith)
          | no after ↦
              let e : i - length xs ≡ suc (i - suc (length xs)) = omega arith in rw e (ground arith)
        ]
      ]
