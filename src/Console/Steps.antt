-- ===== src/Console/Steps.antt =====
-- The operations of the console of student-distrib/lib.c as steps: in any order they write the screen,
-- the saved screens and the array of keys only.
use ece391_mp3_illinix.Terminal.Outside.{clear-Outside}
use ece391_mp3_illinix.Console.Paint.{clear, copy_from_screen_buffer, copy_to_screen_buffer}
use ece391_mp3_illinix.Console.Frame.{putc-KeptOff, enter_handler-KeptOff}
use ece391_mp3_illinix.Memory.Block.{memcpy-moved}
use ece391_mp3_illinix.Console.Bounds.{
  OnScreen, putc-OnScreen, enter_handler-OnScreen, backspace_handler-OnScreen,
}
use ece391_mp3_illinix.Memory.{Mem, moved}
use ece391_mp3_illinix.Console.Hidden.{saved_screen}
use ece391_mp3_illinix.Console.{
  backspace_handler, cursor_helper, Screen, zero_keys, putc, store8, memcpy, enter_handler,
  key_arr_push, video, key_arr_pop, key_arr_clear, set_column_stack, set_cursor_position, put_cell,
  attrib, blank_cell,
}
use ece391_mp3_illinix.Prelude.{ℕ, arith, if_true, if_false}
use ece391_mp3_illinix.Prelude.{
  ℕ, zero, suc, ◌+◌, ◌*◌, ◌^◌, ◌≤◌, ◌<◌, ◌≡◌, refl, sym, ap, ◌∙◌, subst, ◌≢◌, ◌⊎◌, inl, inr, not,
  ◌&&◌, arith, ◌==◌, Bool-cases,
}
use ece391_mp3_illinix.Word.{u32, sub32}

-- The cursor is on the screen, and the count of keys within the array, which memory holds.
pub record InBounds (s : Screen) : Type 0 where
  pub screen : OnScreen s
  pub keys : s.key_arr_ptr < 128
  pub fits : s.key_arr + 129 < 2 ^ 32

-- A byte off the screen, the three saved screens and the 129 bytes of the array of keys.
pub record Elsewhere (key_arr a : ℕ) : Type 0 where
  pub screens : (a < 0xB8000) ⊎ (0xBC000 ≤ a)
  pub keys : (a < key_arr) ⊎ (key_arr + 129 ≤ a)

-- What a call keeps: the place of the array of keys, and every byte elsewhere.
pub record Kept (s s' : Screen) : Type 0 where
  pub key_arr : s'.key_arr ≡ s.key_arr
  pub bytes : (a : ℕ) → Elsewhere s.key_arr a → s'.mem a ≡ s.mem a

-- One call. A backspace has a row to take back, or stands where it may or right of it; the cursor is
-- set to a cell of the screen; the rows are copied to and from a saved screen.
pub data Step (s : Screen) : Screen → Type 0 where
  puts : (c : ℕ) → Step s (putc s c)
  enters : Step s (enter_handler s)
  erases : (s.row_stack ≢ 0) ⊎ (s.column_stack ≤ s.screen_x) → Step s (backspace_handler s)
  pushes : (c : ℕ) → Step s (key_arr_push s c)
  pops : Step s (key_arr_pop s)
  forgets : Step s (key_arr_clear s)
  notes : Step s (set_column_stack s)
  moves : (x y : ℕ) → x < 80 → y < 24 → Step s (set_cursor_position s x y)
  wipes : Step s (clear s)
  saves : (t : ℕ) → t < 3 → Step s (copy_from_screen_buffer s (saved_screen t))
  restores : (t : ℕ) → t < 3 → Step s (copy_to_screen_buffer s (saved_screen t))
  shows : (t : ℕ) → t < 3 → Step s (record s { current_terminal = t })

pub data Reach (s : Screen) : Screen → Type 0 where
  here : Reach s s
  after : {s' s'' : Screen} → Reach s s' → Step s' s'' → Reach s s''

zero_keys-Elsewhere :
    (k : ℕ) (m : Mem) (key_arr i a : ℕ)
    → key_arr + i + k < 2 ^ 32
    → (a < key_arr) ⊎ (key_arr + i + k ≤ a)
    → zero_keys m key_arr i k a ≡ m a
unfolding zero_keys
zero_keys-Elsewhere zero m key_arr i a f o = refl
zero_keys-Elsewhere (suc k) m key_arr i a f o =
    zero_keys-Elsewhere k (store8 m (u32 (key_arr + i)) 0) key_arr (i + 1) a (omega arith)
      (ground arith)
    ∙ ground arith

saved_screen_lem : (t : ℕ) → t < 3 → saved_screen t ≡ 0xB8000 + (t + 1) * 4096
saved_screen_lem t h = ground arith

saves-Kept :
    (m : Mem) (t a : ℕ)
    → t < 3
    → (a < 0xB8000) ⊎ (0xBC000 ≤ a)
    → memcpy m (saved_screen t) video 3840 a ≡ m a
saves-Kept m t a h o =
    let p = saved_screen_lem t h in
    let e : memcpy m (saved_screen t) video 3840 ≡ moved m (saved_screen t) video 3840 =
      memcpy-moved m (saved_screen t) video 3840 (ground (arith, p)) in
    ap (λ (f : Mem). f a) e ∙ ground (arith, p)

restores-Kept :
    (m : Mem) (t a : ℕ)
    → t < 3
    → (a < 0xB8000) ⊎ (0xBC000 ≤ a)
    → memcpy m video (saved_screen t) 3840 a ≡ m a
restores-Kept m t a h o =
    let p = saved_screen_lem t h in
    let e : memcpy m video (saved_screen t) 3840 ≡ moved m video (saved_screen t) 3840 =
      memcpy-moved m video (saved_screen t) 3840 (ground (arith, p)) in
    ap (λ (f : Mem). f a) e ∙ ground (arith, p)

cell_kept :
    (m : Mem) (x y c attribute a : ℕ)
    → x < 80
    → y < 24
    → (a < 0xB8000) ⊎ (0xBC000 ≤ a)
    → put_cell m video (u32 (80 * y + x)) c attribute a ≡ m a
cell_kept m x y c attribute a hx hy o = ground arith

mem-key_arr_pop : (s : Screen) → (key_arr_pop s).mem ≡ s.mem
unfolding key_arr_pop
mem-key_arr_pop s = ground arith

-- The screen with the last cell of the row above blank.
above : Screen → Screen
above s = blank_cell (record s { screen_x = 79; screen_y = sub32 s.screen_y 1 })

backspace_handler-Kept :
    (s : Screen) (a : ℕ)
    → OnScreen s
    → (s.row_stack ≢ 0) ⊎ (s.column_stack ≤ s.screen_x)
    → (a < 0xB8000) ⊎ (0xBC000 ≤ a)
    → (backspace_handler s).mem a ≡ s.mem a
unfolding backspace_handler above cursor_helper
backspace_handler-Kept s a v h o =
    elim (Bool-cases (s.screen_x == s.column_stack && s.row_stack == 0)) [
      | inl e ↦ ap (λ (s' : Screen). s'.mem a) (if_true e _ _)
      | inr e ↦
          ap (λ (s' : Screen). s'.mem a) (if_false e _ _)
          ∙ (elim (Bool-cases (s.screen_x == 0 && not (s.row_stack == 0))) [
            | inl t ↦
                ap (λ (s' : Screen). s'.mem a) (if_true t _ _)
                ∙ ap (λ (m : Mem). m a)
                    (mem-key_arr_pop (record (above s) { row_stack = sub32 s.row_stack 1 }))
                ∙ cell_kept s.mem 79 (sub32 s.screen_y 1) b' ' (attrib s.current_terminal) a
                    (omega arith) (ground (arith, v.above, v.row)) o
            | inr t ↦
                ap (λ (s' : Screen). s'.mem a) (if_false t _ _)
                ∙ ap (λ (m : Mem). m a)
                    (mem-key_arr_pop (blank_cell (record s { screen_x = sub32 s.screen_x 1 })))
                ∙ cell_kept s.mem (sub32 s.screen_x 1) s.screen_y b' ' (attrib s.current_terminal) a
                    (ground (arith, v.column)) v.row o
          ])
    ]

step-Kept : {s s' : Screen} → Step s s' → InBounds s → Kept s s'
unfolding cursor_helper enter_handler putc backspace_handler key_arr_push key_arr_pop key_arr_clear
    set_column_stack set_cursor_position clear copy_from_screen_buffer copy_to_screen_buffer
step-Kept {s} (puts c) v = record {
  key_arr = ground arith;
  bytes = λ a o. putc-KeptOff s v.screen c a (ground (arith, o.screens));
}
step-Kept {s} enters v = record {
  key_arr = ground arith;
  bytes = λ a o. enter_handler-KeptOff s v.screen a (ground (arith, o.screens));
}
step-Kept {s} (erases h) v = record {
  key_arr = ground arith;
  bytes = λ a o. backspace_handler-Kept s a v.screen h o.screens;
}
step-Kept {s} (pushes c) v = record {
  key_arr = ground arith;
  bytes = λ a o. ground (arith, o.keys, v.keys, v.fits);
}
step-Kept {s} pops v = record { key_arr = ground arith; bytes = λ a o. ground arith }
step-Kept {s} forgets v = record {
  key_arr = refl;
  bytes = λ a o.
      zero_keys-Elsewhere 129 s.mem s.key_arr 0 a (omega (arith, v.fits)) (ground (arith, o.keys));
}
step-Kept {s} notes v = record { key_arr = refl; bytes = λ a o. refl }
step-Kept {s} (moves x y hx hy) v = record { key_arr = refl; bytes = λ a o. refl }
step-Kept {s} wipes v = record {
  key_arr = refl;
  bytes = λ a o. clear-Outside s a v.screen.terminal (ground (arith, o.screens));
}
step-Kept {s} (saves t h) v = record {
  key_arr = refl;
  bytes = λ a o. saves-Kept s.mem t a h o.screens;
}
step-Kept {s} (restores t h) v = record {
  key_arr = refl;
  bytes = λ a o. restores-Kept s.mem t a h o.screens;
}
step-Kept {s} (shows t h) v = record { key_arr = refl; bytes = λ a o. refl }

step-OnScreen : {s s' : Screen} → Step s s' → OnScreen s → OnScreen s'
step-OnScreen (puts c) v = putc-OnScreen c v
step-OnScreen enters v = enter_handler-OnScreen v
step-OnScreen (erases h) v = backspace_handler-OnScreen v h
step-OnScreen {s} (pushes c) v = unfold key_arr_push in ground arith
step-OnScreen {s} pops v = unfold key_arr_pop in ground arith
step-OnScreen {s} forgets v = unfold key_arr_clear in ground arith
step-OnScreen {s} notes v = unfold set_column_stack in ground arith
step-OnScreen {s} (moves x y hx hy) v = unfold set_cursor_position in ground arith
step-OnScreen {s} wipes v = unfold clear in ground arith
step-OnScreen {s} (saves t h) v = unfold copy_from_screen_buffer in ground arith
step-OnScreen {s} (restores t h) v = unfold copy_to_screen_buffer in ground arith
step-OnScreen {s} (shows t h) v = ground arith

step-key_arr_ptr : {s s' : Screen} → Step s s' → s.key_arr_ptr < 128 → s'.key_arr_ptr < 128
unfolding enter_handler putc backspace_handler key_arr_push key_arr_pop key_arr_clear
    set_column_stack set_cursor_position clear copy_from_screen_buffer copy_to_screen_buffer
step-key_arr_ptr {s} (puts c) h = ground arith
step-key_arr_ptr {s} enters h = ground arith
step-key_arr_ptr {s} (erases g) h = ground arith
step-key_arr_ptr {s} (pushes c) h = ground arith
step-key_arr_ptr {s} pops h = ground arith
step-key_arr_ptr {s} forgets h = omega arith
step-key_arr_ptr {s} notes h = h
step-key_arr_ptr {s} (moves x y hx hy) h = h
step-key_arr_ptr {s} wipes h = h
step-key_arr_ptr {s} (saves t g) h = h
step-key_arr_ptr {s} (restores t g) h = h
step-key_arr_ptr {s} (shows t g) h = h

-- From a state with the cursor on the screen and the keys in their array, the calls of the console's
-- operations, in any order and number, keep the cursor on the screen and the keys in their array, and
-- change no byte but of the screen, the three saved screens and the 129 bytes of the array. A backspace
-- is one of the calls only where it has a row to take back or does not stand left of the column that it
-- stops at; the cursor is set to cells of the screen only, the rows are copied to and from saved screens
-- only, and one of the three terminals is shown; the array lies within memory.
pub reach-InBounds : {s s' : Screen} → Reach s s' → InBounds s → InBounds s' × Kept s s'
reach-InBounds here v = (v, record { key_arr = refl; bytes = λ a o. refl })
reach-InBounds {s} (after {s'} {s''} r step) v =
    let before = reach-InBounds r v in
    let v' = before.0 in
    let same = before.1.key_arr in
    let kept = step-Kept step v' in
    (
      record {
        screen = step-OnScreen step v'.screen;
        keys = step-key_arr_ptr step v'.keys;
        fits = omega (arith, kept.key_arr, v'.fits);
      },
      record {
        key_arr = kept.key_arr ∙ same;
        bytes = λ a o.
            kept.bytes a (subst (λ base. Elsewhere base a) (sym same) o) ∙ before.1.bytes a o;
      },
    )
