-- ===== src/Keyboard/Layout.antt =====
-- What caps lock and shift do to the keys of student-distrib/keyboard.c.
use ece391_mp3_illinix.Prelude.{
  ℕ, ◌-◌, ◌<◌, ◌≡◌, refl, Bool, true, ◌&&◌, leb, ◌==◌, if◌then◌else◌, ==_iff, every_below,
  every_below_use,
}
use ece391_mp3_illinix.Keyboard.{Keyboard, key_at, key_state}

-- The letters among the characters without a modifier.
abbrev pub is_letter : ℕ → Bool
is_letter c = leb b'a' c && leb c b'z'

-- A letter is a capital where just one of shift and caps lock is on; another key goes by shift alone.
unfoldable pub expected_char : Keyboard → ℕ → ℕ
expected_char kb s_code =
    let plain = key_at 0 s_code in
    if is_letter plain
    then (if kb.shift_state == kb.caps_lock_enabled then plain else plain - 32)
    else if kb.shift_state == 1
    then key_at 1 s_code
    else plain

agrees : ℕ → ℕ → ℕ → Bool
agrees shift caps s_code =
    let kb : Keyboard = record {
      caps_lock_enabled = caps;
      shift_state = shift;
      ctrl_state = 0;
      alt_state = 0;
    } in
    key_at (key_state kb) s_code == expected_char kb s_code

table : every_below 2 (λ shift. every_below 2 (λ caps. every_below 64 (agrees shift caps))) ≡ true
unfolding every_below agrees key_at expected_char
table = refl

-- The four tables of the code agree with this for every key: a letter is a capital where just one of
-- shift and caps lock is on, and the other keys do not depend on caps lock.
pub key_at-expected_char :
    (kb : Keyboard) (s_code : ℕ)
    → kb.shift_state < 2
    → kb.caps_lock_enabled < 2
    → s_code < 64
    → key_at (key_state kb) s_code ≡ expected_char kb s_code
unfolding expected_char
key_at-expected_char kb s_code hs hc h = (==_iff _ _).0 (unfold agrees in found)
  where
    found : agrees kb.shift_state kb.caps_lock_enabled s_code ≡ true
    found =
        every_below_use 64 (agrees kb.shift_state kb.caps_lock_enabled) s_code
          (every_below_use 2 (λ caps. every_below 64 (agrees kb.shift_state caps))
            kb.caps_lock_enabled
            (every_below_use 2 (λ shift. every_below 2 (λ caps. every_below 64 (agrees shift caps)))
              kb.shift_state table hs)
            hc)
          h
