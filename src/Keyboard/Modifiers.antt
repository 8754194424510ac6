-- ===== src/Keyboard/Modifiers.antt =====
-- The modifier keys of student-distrib/keyboard.c over a sequence of scan codes.
use ece391_mp3_illinix.Prelude.{
  ℕ, ◌+◌, ◌%◌, ◌<◌, ◌≡◌, refl, ◌∙◌, inl, inr, Bool, true, false, ◌||◌, none, some, List, [], ◌∷◌,
  arith, ◌==◌, if◌then◌else◌, Bool-cases,
}
use ece391_mp3_illinix.Kernel.{Kernel}
use ece391_mp3_illinix.Keyboard.{Keyboard, Pressed, input_handler, keyboard_handler, Option, ap}

abbrev pub resumed : (Kernel → ℕ → Kernel) → Pressed → Kernel
resumed switch p = elim p.switch_to [ none ↦ p.kernel | some t ↦ switch p.kernel t ]

-- The codes one after another; `switch` is what `switch_to_terminal` does to the kernel.
unfoldable pub typed : (Kernel → ℕ → Kernel) → Keyboard → Kernel → List ℕ → Keyboard × Kernel
typed switch kb k [] = (kb, k)
typed switch kb k (c ∷ cs) =
    let p = keyboard_handler kb k c in typed switch p.keyboard (resumed switch p) cs

abbrev pub shift_down : ℕ → Bool
shift_down c = c == 0x2A || c == 0x36

abbrev pub shift_up : ℕ → Bool
shift_up c = c == 0xAA || c == 0xB6

-- The last code of a shift key in a sequence: whether the key went down.
unfoldable pub last_shift : List ℕ → Option Bool
last_shift [] = none
last_shift (c ∷ cs) = elim (last_shift cs) [
  | some b ↦ some b
  | none ↦ if shift_down c then some true else if shift_up c then some false else none
]

-- The state after it, from the state before the sequence.
abbrev pub state_of : ℕ → Option Bool → ℕ
state_of before none = before
state_of before (some down) = if down then 1 else 0

earlier :
    (o : Option Bool) (down up : Bool) (before : ℕ)
    → state_of (if down then 1 else if up then 0 else before) o
      ≡ state_of before (elim o [
        | some b ↦ some b
        | none ↦ if down then some true else if up then some false else none
      ])
earlier (some b) down up before = refl
earlier none true up before = refl
earlier none false true before = refl
earlier none false false before = refl

-- How often caps lock is pressed.
abbrev pub caps_count : List ℕ → ℕ
caps_count [] = 0
caps_count (c ∷ cs) = (if c == 0x3A then 1 else 0) + caps_count cs

keyboard-input_handler : (kb : Keyboard) (k : Kernel) (c : ℕ) → (input_handler kb k c).keyboard ≡ kb
unfolding input_handler
keyboard-input_handler kb k c = ground arith

shift-keyboard_handler :
    (kb : Keyboard) (k : Kernel) (c : ℕ)
    → (keyboard_handler kb k c).keyboard.shift_state
      ≡ (if shift_down c then 1 else if shift_up c then 0 else kb.shift_state)
unfolding keyboard_handler
shift-keyboard_handler kb k c = ground (arith, keyboard-input_handler kb k c)

caps-keyboard_handler :
    (kb : Keyboard) (k : Kernel) (c : ℕ)
    → (keyboard_handler kb k c).keyboard.caps_lock_enabled
      ≡ (if c == 0x3A then (if kb.caps_lock_enabled == 0 then 1 else 0) else kb.caps_lock_enabled)
unfolding keyboard_handler
caps-keyboard_handler kb k c = elim (Bool-cases (shift_down c)) [
  | inl e ↦ let other : (c == 0x3A) ≡ false = ground arith in rw (e, other) refl
  | inr e ↦ elim (Bool-cases (shift_up c)) [
    | inl e' ↦ let other : (c == 0x3A) ≡ false = ground arith in rw (e, e', other) refl
    | inr e' ↦ elim (Bool-cases (c == 0x3A)) [
      | inl e'' ↦ rw (e, e', e'') refl
      | inr e'' ↦ rw (e, e', e'') (ground (arith, keyboard-input_handler kb k c))
    ]
  ]
]

typed-last_shift :
    (switch : Kernel → ℕ → Kernel) (kb : Keyboard) (k : Kernel) (cs : List ℕ)
    → (typed switch kb k cs).0.shift_state ≡ state_of kb.shift_state (last_shift cs)
unfolding typed last_shift
typed-last_shift switch kb k [] = refl
typed-last_shift switch kb k (c ∷ cs) =
    let p = keyboard_handler kb k c in
    typed-last_shift switch p.keyboard (resumed switch p) cs
    ∙ ap (λ s. state_of s (last_shift cs)) (shift-keyboard_handler kb k c)
    ∙ earlier (last_shift cs) (shift_down c) (shift_up c) kb.shift_state

-- Caps lock is on after an odd number of presses since it was off, and after an even number since it
-- was on, whatever other keys come between.
pub typed-caps_count :
    (switch : Kernel → ℕ → Kernel) (kb : Keyboard) (k : Kernel) (cs : List ℕ)
    → kb.caps_lock_enabled < 2
    → (typed switch kb k cs).0.caps_lock_enabled ≡ (kb.caps_lock_enabled + caps_count cs) % 2
unfolding typed
typed-caps_count switch kb k [] h = omega arith
typed-caps_count switch kb k (c ∷ cs) h =
    let p = keyboard_handler kb k c in
    let e = caps-keyboard_handler kb k c in
    let small : p.keyboard.caps_lock_enabled < 2 = ground (arith, e) in
    typed-caps_count switch p.keyboard (resumed switch p) cs small ∙ ground (arith, e)

-- For every sequence of scan codes, and whatever a change of the terminal does to the kernel: shift
-- counts as held when the last code of a shift key in it is that of a key going down, as not held
-- when it is that of a key coming up, and as before when there is none; and caps lock, if it was off
-- or on, is toggled by each press of its key.
pub typed-modifiers :
    (switch : Kernel → ℕ → Kernel) (kb : Keyboard) (k : Kernel) (cs : List ℕ)
    → kb.caps_lock_enabled < 2
    → ((typed switch kb k cs).0.shift_state ≡ state_of kb.shift_state (last_shift cs))
      × ((typed switch kb k cs).0.caps_lock_enabled ≡ (kb.caps_lock_enabled + caps_count cs) % 2)
typed-modifiers switch kb k cs h =
    (typed-last_shift switch kb k cs, typed-caps_count switch kb k cs h)
