-- ===== src/Keyboard.antt =====
-- The keyboard of student-distrib/keyboard.c. The byte read from the port is an argument; the
-- acknowledgements to the interrupt controller and the stop of the sound are left out.
pub mod Layout
pub mod Modifiers
use ece391_mp3_illinix.Prelude.{
  ℕ, zero, suc, ◌+◌, ◌-◌, ◌*◌, ◌/◌, ◌%◌, ◌^◌, ◌≤◌, ◌<◌, min, max, ◌≡◌, refl, sym, ap, ap₂, ◌∙◌,
  fun_ext, subst, ◌≡⟨◌⟩◌, ◌∎, ◌≢◌, ◌↔◌, ◌⊎◌, inl, inr, Bool, true, false, not, ◌&&◌, ◌||◌, Option,
  none, some, List, [], ◌∷◌, ◌++◌, map, arith, dec_lt, dec_le, ℕ_discrete, ltb, leb, ◌==◌,
  if◌then◌else◌, Bool-cases, Option-cases, length, get_elem?, set, get_or, take, drop, replicate,
  length-set, get_or-set_self, get_or-set_ne, ◌>>=◌, ==_iff, every_below, every_below_use, same,
  same_sound,
}
use ece391_mp3_illinix.Word.{u8, u16, u32, sub32, minus_one, is_neg, slt, sle, sdiv, smod, sext8}
use ece391_mp3_illinix.Text.{codes}
use ece391_mp3_illinix.Print.{printf}
use ece391_mp3_illinix.Console.{
  Screen, putc, set_cursor_position, set_column_stack, key_arr_push, enter_handler,
  backspace_handler,
}
use ece391_mp3_illinix.Console.Paint.{clear}
use ece391_mp3_illinix.Kernel.{Kernel, current_terminal, get_pcb_by_index, put_pcb}
use ece391_mp3_illinix.Process.{count_at, process_at}

-- The four states of the keys that are held or locked.
pub record Keyboard : Type 0 where
  pub caps_lock_enabled : ℕ
  pub shift_state : ℕ
  pub ctrl_state : ℕ
  pub alt_state : ℕ

-- A row of `key_scancode` from its four lines of keys: digits, the two rows below, and the last.
abbrev pub key_row : List ℕ → List ℕ → List ℕ → ℕ → List ℕ → List ℕ
key_row digits upper middle slash lower =
    (0 ∷ 0 ∷ digits)
    ++ (0 ∷ b'\t' ∷ upper)
    ++ (b'\n' ∷ 0 ∷ middle)
    ++ (0 ∷ slash ∷ lower)
    ++ (0 ∷ 0 ∷ 0 ∷ b' ' ∷ 0 ∷ [])

abbrev pub key_scancode : List (List ℕ)
key_scancode =
    key_row (codes "1234567890-=") (codes "qwertyuiop[]") (codes "asdfghjkl;'`") b'\\'
      (codes "zxcvbnm,./")
    ∷ key_row (codes "!@#$%^&*()_+") (codes "QWERTYUIOP{}") (codes "ASDFGHJKL:" ++ b'"' ∷ b'~' ∷ [])
        b'|' (codes "ZXCVBNM<>?")
    ∷ key_row (codes "1234567890-=") (codes "QWERTYUIOP[]") (codes "ASDFGHJKL;'`") b'\\'
        (codes "ZXCVBNM,./")
    ∷ key_row (codes "!@#$%^&*()_+") (codes "qwertyuiop{}") (codes "asdfghjkl:" ++ b'"' ∷ b'~' ∷ [])
        b'|' (codes "zxcvbnm<>?")
    ∷ []

-- `key_scancode[state][s_code]`; the rest of a row of 64 is 0.
unfoldable pub key_at : ℕ → ℕ → ℕ
key_at state s_code = get_or (get_or key_scancode state []) s_code 0

-- `current_state`.
abbrev pub key_state : Keyboard → ℕ
key_state kb =
    if kb.shift_state == 0 && kb.caps_lock_enabled == 0
    then 0
    else if kb.shift_state == 1 && kb.caps_lock_enabled == 0
    then 1
    else if kb.shift_state == 0 && kb.caps_lock_enabled == 1
    then 2
    else 3

-- What a key does: the state after it, and the terminal that `switch_to_terminal` is then called for.
pub record Pressed : Type 0 where
  pub keyboard : Keyboard
  pub kernel : Kernel
  pub switch_to : Option ℕ

abbrev pub handled : Keyboard → Kernel → Pressed
handled kb k = record { keyboard = kb; kernel = k; switch_to = none }

-- `printf` of a text without a conversion.
abbrev pub printed : Screen → List ℕ → Screen
printed s fmt = elim (printf s fmt []) [ none ↦ s | some (n, s') ↦ s' ]

-- Ctrl-L.
unfoldable pub clear_screen : Screen → Screen
clear_screen s = set_column_stack (printed (set_cursor_position (clear s) 0 0) (codes "391OS> "))

-- Ctrl-C: the process on top of the shown terminal gets INTERRUPT.
unfoldable pub interrupt_top : Kernel → Kernel
interrupt_top k =
    let t = current_terminal k in
    let addr = get_pcb_by_index (process_at k t (sub32 (count_at k t) 1)) in
    put_pcb k addr (record (k.pcbs addr) { pending_signal = 2 })

unfoldable pub input_handler : Keyboard → Kernel → ℕ → Pressed
unfolding key_at clear_screen interrupt_top
input_handler kb k s_code =
    let switching = λ (t : ℕ). record (handled kb k) { switch_to = some t } in
    let c = key_at (key_state kb) s_code in
    if kb.ctrl_state == 1 && s_code == 0x26
    then handled kb (record k { screen = clear_screen k.screen })
    else if kb.ctrl_state == 1 && s_code == 0x2E
    then handled kb (interrupt_top k)
    else if leb 0x3E s_code
    then handled kb k
    else if kb.alt_state == 1 && s_code == 0x3B
    then switching 0
    else if kb.alt_state == 1 && s_code == 0x3C
    then switching 1
    else if kb.alt_state == 1 && s_code == 0x3D
    then switching 2
    else if leb 0x3C s_code
    then handled kb k
    else handled kb (record k { screen = key_arr_push (putc k.screen c) c })

unfoldable pub keyboard_handler : Keyboard → Kernel → ℕ → Pressed
unfolding input_handler key_at
keyboard_handler kb k scancode =
    if scancode == 0x2A || scancode == 0x36
    then handled (record kb { shift_state = 1 }) k
    else if scancode == 0xAA || scancode == 0xB6
    then handled (record kb { shift_state = 0 }) k
    else if scancode == 0x3A
    then handled (record kb { caps_lock_enabled = if kb.caps_lock_enabled == 0 then 1 else 0 }) k
    else if scancode == 0x1D
    then handled (record kb { ctrl_state = 1 }) k
    else if scancode == 0x9D
    then handled (record kb { ctrl_state = 0 }) k
    else if scancode == 0x1C
    then handled kb (record k {
      screen = enter_handler (key_arr_push k.screen (key_at 0 scancode));
      enter_state = 1;
    })
    else if scancode == 0x0E
    then handled kb (record k { screen = backspace_handler k.screen })
    else if scancode == 0x38
    then handled (record kb { alt_state = 1 }) k
    else if scancode == 0xB8
    then handled (record kb { alt_state = 0 }) k
    else if scancode == 0x0F || scancode == 0x01 || scancode == 0x37
    then handled kb k
    else input_handler kb k scancode
