-- ===== src/Console/View.antt =====
-- What a user sees of the screen of student-distrib/lib.c, and what a text makes of it.
use ece391_mp3_illinix.Console.Frame.{KeptOff, putc-newline, putc-KeptOff}
use ece391_mp3_illinix.Console.Bounds.{OnScreen, putc-OnScreen}
use ece391_mp3_illinix.Console.Mirror.{
  SamePicture, drawn, cursor-putc, mem-enter_handler, put_cell-SamePicture, mem-putc,
  branch-SamePicture, scroll-SamePicture,
}
use ece391_mp3_illinix.Console.{Screen, putc, video, enter_handler, cursor_helper, attrib}
use ece391_mp3_illinix.Prelude.{
  ℕ, ◌+◌, ◌*◌, ◌≡◌, refl, sym, ◌∙◌, subst, inl, inr, true, false, ◌&&◌, ◌||◌, List, [], ◌∷◌, ◌++◌,
  arith, leb, ◌==◌, Bool-cases,
}

-- Two screens that show the same rows and cursor.
pub record SameView (s s' : Screen) : Type 0 where
  pub same_x : s'.screen_x ≡ s.screen_x
  pub same_y : s'.screen_y ≡ s.screen_y
  pub same_stack : s'.row_stack ≡ s.row_stack
  pub same_terminal : s'.current_terminal ≡ s.current_terminal
  pub same_rows : SamePicture s'.mem s.mem video

module _ {s s' : Screen} (v : OnScreen s) (w : SameView s s') where
  pub OnScreen-SameView : OnScreen s'
  OnScreen-SameView = record {
    column = omega (arith, w.same_x, v.column);
    row = omega (arith, w.same_y, v.row);
    above = omega (arith, w.same_y, w.same_stack, v.above);
    terminal = omega (arith, w.same_terminal, v.terminal);
  }

  enter_handler-SameView : SameView (enter_handler s) (enter_handler s')
  enter_handler-SameView = record {
    same_x = unfold enter_handler in ground (arith, w.same_x, w.same_y, w.same_stack);
    same_y = unfold enter_handler in ground (arith, w.same_x, w.same_y, w.same_stack);
    same_stack = unfold enter_handler in ground (arith, w.same_x, w.same_y, w.same_stack);
    same_terminal = unfold enter_handler in ground (arith, w.same_terminal);
    same_rows =
        rw
          (mem-enter_handler s v, mem-enter_handler s' OnScreen-SameView, w.same_y, w.same_terminal)
          (branch-SamePicture _ _ _ _ video (leb 23 s.screen_y)
            (scroll-SamePicture s'.mem s.mem video (omega arith) w.same_rows 3840
              (attrib s.current_terminal) (omega arith) (omega arith))
            w.same_rows);
  }

  drawn-SamePicture : (c : ℕ) → SamePicture (drawn s' OnScreen-SameView c) (drawn s v c) video
  unfolding drawn
  drawn-SamePicture c =
      rw (w.same_x, w.same_y, w.same_terminal)
        (put_cell-SamePicture s'.mem s.mem video (omega arith) w.same_rows
          (80 * s.screen_y + s.screen_x) c (attrib s.current_terminal)
          (omega (arith, v.row, v.column)))

  character-SameView :
      (c : ℕ) → (c == b'\n' || c == b'\r') ≡ false → SameView (putc s c) (putc s' c)
  character-SameView c e =
      let a = cursor-putc s v c e in
      let b = cursor-putc s' OnScreen-SameView c e in
      record {
        same_x = rw (a.0, b.0, w.same_x) refl;
        same_y = rw (a.1, b.1, w.same_x, w.same_y) refl;
        same_stack = rw (a.2, b.2, w.same_x, w.same_stack) refl;
        same_terminal = unfold putc in rw e (ground (arith, w.same_terminal));
        same_rows =
            rw
              (
                mem-putc s v c e,
                mem-putc s' OnScreen-SameView c e,
                w.same_x,
                w.same_y,
                w.same_terminal,
              )
              (branch-SamePicture _ _ _ _ video (leb 79 s.screen_x && leb 23 s.screen_y)
                (scroll-SamePicture (drawn s' OnScreen-SameView c) (drawn s v c) video (omega arith)
                  (drawn-SamePicture c) 3680 (attrib s.current_terminal) (omega arith)
                  (omega arith))
                (drawn-SamePicture c));
      }

  newline-SameView : (c : ℕ) → (c == b'\n' || c == b'\r') ≡ true → SameView (putc s c) (putc s' c)
  unfolding cursor_helper
  newline-SameView c e =
      let n = enter_handler-SameView in
      subst (λ (x : Screen). SameView x (putc s' c)) (sym (putc-newline s c e))
        (subst (λ (x : Screen). SameView (cursor_helper (enter_handler s)) x)
          (sym (putc-newline s' c e))
          (record {
            same_x = n.same_x;
            same_y = n.same_y;
            same_stack = n.same_stack;
            same_terminal = n.same_terminal;
            same_rows = n.same_rows;
          }))

  -- The same character on two screens that show the same.
  pub putc-SameView : (c : ℕ) → SameView (putc s c) (putc s' c)
  putc-SameView c = elim (Bool-cases (c == b'\n' || c == b'\r')) [
    | inl e ↦ newline-SameView c e
    | inr e ↦ character-SameView c e
  ]

pub SameView-self : (s : Screen) → SameView s s
SameView-self s = record {
  same_x = refl;
  same_y = refl;
  same_stack = refl;
  same_terminal = refl;
  same_rows = λ i h. refl;
}

-- A text on the screen, character by character.
unfoldable pub shown_text : Screen → List ℕ → Screen
shown_text s [] = s
shown_text s (c ∷ cs) = shown_text (putc s c) cs

pub shown_text-OnScreen : (s : Screen) (cs : List ℕ) → OnScreen s → OnScreen (shown_text s cs)
unfolding shown_text
shown_text-OnScreen s [] v = v
shown_text-OnScreen s (c ∷ cs) v = shown_text-OnScreen (putc s c) cs (putc-OnScreen c v)

pub shown_text-append :
    (s : Screen) (cs ds : List ℕ) → shown_text s (cs ++ ds) ≡ shown_text (shown_text s cs) ds
unfolding shown_text
shown_text-append s [] ds = refl
shown_text-append s (c ∷ cs) ds = shown_text-append (putc s c) cs ds

pub shown_text-SameView :
    (s s' : Screen) (cs : List ℕ)
    → OnScreen s
    → SameView s s'
    → SameView (shown_text s cs) (shown_text s' cs)
unfolding shown_text
shown_text-SameView s s' [] v w = w
shown_text-SameView s s' (c ∷ cs) v w =
    shown_text-SameView (putc s c) (putc s' c) cs (putc-OnScreen c v) (putc-SameView v w c)

pub shown_text-KeptOff :
    (s : Screen) (cs : List ℕ) → OnScreen s → KeptOff s.mem (shown_text s cs).mem
unfolding shown_text
shown_text-KeptOff s [] v a o = refl
shown_text-KeptOff s (c ∷ cs) v a o =
    shown_text-KeptOff (putc s c) cs (putc-OnScreen c v) a o ∙ putc-KeptOff s v c a o

-- The terminal shown stays the same.
putc-terminal : (s : Screen) (c : ℕ) → (putc s c).current_terminal ≡ s.current_terminal
unfolding putc enter_handler cursor_helper
putc-terminal s c = ground arith

pub shown_text-terminal :
    (s : Screen) (cs : List ℕ) → (shown_text s cs).current_terminal ≡ s.current_terminal
unfolding shown_text
shown_text-terminal s [] = refl
shown_text-terminal s (c ∷ cs) = shown_text-terminal (putc s c) cs ∙ putc-terminal s c
