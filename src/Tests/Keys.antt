-- ===== src/Tests/Keys.antt =====
-- The theorems on the keyboard at concrete keys.
use ece391_mp3_illinix.Prelude.{◌≡◌, refl, [], ◌∷◌, arith}
use ece391_mp3_illinix.Keyboard.{Keyboard, key_at, key_state}
use ece391_mp3_illinix.Keyboard.Layout.{expected_char, key_at-expected_char}
use ece391_mp3_illinix.Keyboard.Modifiers.{typed, typed-modifiers, last_shift}
use ece391_mp3_illinix.Tests.Calls.{kernel}

-- Caps lock is on and shift is held.
abbrev keyboard : Keyboard
keyboard = record { caps_lock_enabled = 1; shift_state = 1; ctrl_state = 0; alt_state = 0 }

-- The key of `a`, and that of `1`.
letter : key_at (key_state keyboard) 0x1E ≡ b'a'
unfolding key_at
letter = refl

digit : key_at (key_state keyboard) 0x02 ≡ b'!'
unfolding key_at
digit = refl

key_at-expected_char_example : key_at (key_state keyboard) 0x1E ≡ expected_char keyboard 0x1E
key_at-expected_char_example =
    key_at-expected_char keyboard 0x1E (omega arith) (omega arith) (omega arith)

-- Left shift comes up, then right shift goes down, with Alt and Ctrl around.
-- Caps lock, the right shift down, the left Alt, and the right shift up.
typed-modifiers_example :
    ((typed (λ k t. k) keyboard (kernel 2 0) (0x3A ∷ 0x36 ∷ 0x38 ∷ 0xB6 ∷ [])).0.shift_state ≡ 0)
    × ((typed (λ k t. k) keyboard (kernel 2 0) (0x3A ∷ 0x36 ∷ 0x38 ∷ 0xB6 ∷ [])).0.caps_lock_enabled
        ≡ 0)
unfolding last_shift
typed-modifiers_example =
    typed-modifiers (λ k t. k) keyboard (kernel 2 0) (0x3A ∷ 0x36 ∷ 0x38 ∷ 0xB6 ∷ []) (omega arith)
