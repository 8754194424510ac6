-- ===== src/Tests/Texts.antt =====
-- The string routines of the kernel and of the user library at small strings.
use ece391_mp3_illinix.Text.Length.{CString}
use ece391_mp3_illinix.Print.{digits}
use ece391_mp3_illinix.Tests.Files.{byte_at}
use ece391_mp3_illinix.Memory.Overlap.{memmove-moved}
use ece391_mp3_illinix.Support.Equal.{ece391_itoa-itoa}
use ece391_mp3_illinix.Support.Compare.{SameText, ece391_strcmp-SameText}
use ece391_mp3_illinix.Memory.Bytes.{put}
use ece391_mp3_illinix.Support.{ece391_itoa, ece391_strcmp}
use ece391_mp3_illinix.Text.{itoa}
use ece391_mp3_illinix.Print.Digits.{read_digits, itoa-read_digits}
use ece391_mp3_illinix.Memory.{memmove, Mem, moved}
use ece391_mp3_illinix.Prelude.{ℕ, ◌<◌, ◌≡◌, refl, ◌↔◌, some, [], ◌∷◌, ◌++◌, arith}

abbrev zeros : Mem
zeros a = 0

itoa-read_digits_example :
    (itoa zeros 1234 0x1000 10 ≡ some (put zeros 0x1000 (digits 1234 10 ++ 0 ∷ [])))
    × (read_digits 10 0 (digits 1234 10) ≡ 1234)
itoa-read_digits_example =
    itoa-read_digits zeros 1234 0x1000 10 (omega arith) (omega arith) (omega arith) (omega arith)

in_decimal : digits 1234 10 ≡ b'1' ∷ b'2' ∷ b'3' ∷ b'4' ∷ []
unfolding digits
in_decimal = refl

ece391_itoa-itoa_example :
    (ece391_itoa zeros 1234 0x1000 10 ≡ some (put zeros 0x1000 (digits 1234 10 ++ 0 ∷ [])))
    × (ece391_itoa zeros 1234 0x1000 10 ≡ itoa zeros 1234 0x1000 10)
ece391_itoa-itoa_example =
    ece391_itoa-itoa zeros 1234 0x1000 10 (omega arith) (omega arith) (omega arith) (omega arith)

-- "ab" twice.
abbrev twice : Mem
twice = byte_at ((0x10, b'a') ∷ (0x11, b'b') ∷ (0x20, b'a') ∷ (0x21, b'b') ∷ [])

twice-IsBytes : (a : ℕ) → twice a < 256
unfolding byte_at
twice-IsBytes a = ground arith

first_ab : CString twice 0x10 2
unfolding byte_at
first_ab = record { short = omega arith; nul = refl; no_nul = λ i h. ground arith }

second_ab : CString twice 0x20 2
unfolding byte_at
second_ab = record { short = omega arith; nul = refl; no_nul = λ i h. ground arith }

ece391_strcmp-SameText_example :
    (c : ℕ) × (ece391_strcmp twice 0x10 0x20 ≡ some c) × ((c ≡ 0) ↔ SameText twice 0x10 2 0x20 2)
ece391_strcmp-SameText_example =
    ece391_strcmp-SameText twice 0x10 2 0x20 2 twice-IsBytes (omega arith) (omega arith) first_ab
      second_ab

abbrev aaab : Mem
aaab = byte_at ((0x100, b'a') ∷ (0x101, b'b') ∷ (0x102, b'c') ∷ (0x103, b'd') ∷ [])

memmove-moved_example : memmove aaab 0x101 0x100 3 ≡ moved aaab 0x101 0x100 3
memmove-moved_example = memmove-moved aaab 0x101 0x100 3 (omega arith) (omega arith)
