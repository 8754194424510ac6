-- ===== src/Console/Mirror.antt =====
-- The two ways of drawing a character agree: `putc` on the screen and `putc_terminal` on the saved
-- screen of a terminal (student-distrib/lib.c).
use ece391_mp3_illinix.Prelude.{
  ℕ, zero, suc, ◌+◌, ◌*◌, ◌^◌, ◌≤◌, ◌<◌, min, ◌≡◌, sym, ◌∙◌, inl, inr, Bool, true, false, ◌&&◌,
  ◌||◌, arith, ltb, leb, ◌==◌, if◌then◌else◌, Bool-cases,
}
use ece391_mp3_illinix.Word.{u32}
use ece391_mp3_illinix.Memory.{Mem}
use ece391_mp3_illinix.Console.{
  Screen, TerminalInfo, video, attrib, put_cell, scroll, putc, enter_handler,
}
use ece391_mp3_illinix.Console.Hidden.{saved_screen, putc_terminal, enter_handler_terminal}
use ece391_mp3_illinix.Console.Bounds.{OnScreen}
use ece391_mp3_illinix.Console.Scroll.{scroll_lem}

-- Two screens of 24 rows show the same.
abbrev pub SamePicture : Mem → Mem → ℕ → Type 0
SamePicture a b base = (i : ℕ) → i < 3840 → a (video + i) ≡ b (base + i)

-- The screen and its cursor are those that are saved for terminal `t`.
pub record Mirrors (s : Screen) (m : Mem) (info : TerminalInfo) (t : ℕ) : Type 0 where
  pub x : s.screen_x ≡ info.screen_pos_x
  pub y : s.screen_y ≡ info.screen_pos_y
  pub row_stack : s.row_stack ≡ info.row_stack_old
  pub shown : s.current_terminal ≡ t
  pub picture : SamePicture s.mem m (saved_screen t)

saved_screen-fits : (t : ℕ) → saved_screen t + 4000 < 2 ^ 32
saved_screen-fits zero = omega arith
saved_screen-fits (suc zero) = omega arith
saved_screen-fits (suc (suc zero)) = omega arith
saved_screen-fits (suc (suc (suc t))) = omega arith

module _ (a b : Mem) (base : ℕ) (fits : base + 4000 < 2 ^ 32) (same : SamePicture a b base) where
  pub put_cell-SamePicture :
      (j c attribute : ℕ)
      → j < 1920
      → SamePicture (put_cell a video j c attribute) (put_cell b base j c attribute) base
  put_cell-SamePicture j c attribute h i q = ground (arith, same i q)

  pub scroll-SamePicture :
      (n attribute : ℕ)
      → 3680 ≤ n
      → n ≤ 3840
      → SamePicture (scroll a video n attribute) (scroll b base n attribute) base
  scroll-SamePicture n attribute lo hi i q =
      scroll_lem a video n attribute i (omega arith) lo hi q
      ∙ ground (arith, same (i + 160))
      ∙ sym (scroll_lem b base n attribute i fits lo hi q)

-- One test on both sides.
pub branch-SamePicture :
    (a a' b b' : Mem) (base : ℕ) (test : Bool)
    → SamePicture a b base
    → SamePicture a' b' base
    → SamePicture (if test then a else a') (if test then b else b') base
branch-SamePicture a a' b b' base true p q = p
branch-SamePicture a a' b b' base false p q = q

module _ (s : Screen) (v : OnScreen s) where
  pub mem-enter_handler :
      (enter_handler s).mem
      ≡ (if leb 23 s.screen_y then scroll s.mem video 3840 (attrib s.current_terminal) else s.mem)
  unfolding enter_handler
  mem-enter_handler = ground arith

  -- Memory after the character alone.
  unfoldable pub drawn : ℕ → Mem
  drawn c = put_cell s.mem video (80 * s.screen_y + s.screen_x) c (attrib s.current_terminal)

  pub mem-putc :
      (c : ℕ)
      → (c == b'\n' || c == b'\r') ≡ false
      → (putc s c).mem ≡ (
          if leb 79 s.screen_x && leb 23 s.screen_y
          then scroll (drawn c) video 3680 (attrib s.current_terminal)
          else drawn c)
  unfolding putc drawn
  mem-putc c h =
      let e : u32 (80 * s.screen_y + s.screen_x) ≡ 80 * s.screen_y + s.screen_x = omega arith in
      rw (h, e) (ground arith)

  -- The row after a character, and how many rows may be taken back.
  pub cursor-putc :
      (c : ℕ)
      → (c == b'\n' || c == b'\r') ≡ false
      → ((putc s c).screen_x ≡ (if leb 79 s.screen_x then 0 else s.screen_x + 1))
        × ((putc s c).screen_y
            ≡ (if leb 79 s.screen_x && ltb s.screen_y 23 then s.screen_y + 1 else s.screen_y))
        × ((putc s c).row_stack
            ≡ (if leb 79 s.screen_x then min 23 (s.row_stack + 1) else s.row_stack))
  unfolding putc
  cursor-putc c h = rw h (ground arith, ground arith, ground arith)

module _ (m : Mem) (info : TerminalInfo) (t : ℕ) where
  mem-enter_handler_terminal :
      info.screen_pos_y < 24
      → (enter_handler_terminal m info t).0
        ≡ (if leb 23 info.screen_pos_y then scroll m (saved_screen t) 3840 (attrib t) else m)
  unfolding enter_handler_terminal
  mem-enter_handler_terminal h = ground arith

  drawn_terminal : ℕ → Mem
  drawn_terminal c =
      put_cell m (saved_screen t) (80 * info.screen_pos_y + info.screen_pos_x) c (attrib t)

  mem-putc_terminal :
      (c : ℕ)
      → info.screen_pos_x < 80
      → info.screen_pos_y < 24
      → (c == b'\n' || c == b'\r') ≡ false
      → (putc_terminal m info c t).0 ≡ (
          if leb 79 info.screen_pos_x && leb 23 info.screen_pos_y
          then scroll (drawn_terminal c) (saved_screen t) 3680 (attrib t)
          else drawn_terminal c)
  unfolding putc_terminal drawn_terminal
  mem-putc_terminal c hx hy h = rw h (ground arith)

  cursor-putc_terminal :
      (c : ℕ)
      → info.screen_pos_x < 80
      → info.screen_pos_y < 24
      → info.row_stack_old < 24
      → (c == b'\n' || c == b'\r') ≡ false
      → ((putc_terminal m info c t).1.screen_pos_x
          ≡ (if leb 79 info.screen_pos_x then 0 else info.screen_pos_x + 1))
        × ((putc_terminal m info c t).1.screen_pos_y ≡ (
            if leb 79 info.screen_pos_x && ltb info.screen_pos_y 23
            then info.screen_pos_y + 1
            else info.screen_pos_y))
        × ((putc_terminal m info c t).1.row_stack_old ≡ (
            if leb 79 info.screen_pos_x
            then min 23 (info.row_stack_old + 1)
            else info.row_stack_old))
  unfolding putc_terminal
  cursor-putc_terminal c hx hy hr h = rw h (ground arith, ground arith, ground arith)

module _ {s : Screen} {m : Mem} {info : TerminalInfo} {t : ℕ} (v : OnScreen s)
    (h : Mirrors s m info t) where
  enter_handler_terminal-Mirrors :
      let (m', info') = enter_handler_terminal m info t in Mirrors (enter_handler s) m' info' t
  enter_handler_terminal-Mirrors = record {
    x = unfold enter_handler enter_handler_terminal in ground (arith, h.x, h.y, h.row_stack);
    y = unfold enter_handler enter_handler_terminal in ground (arith, h.x, h.y, h.row_stack);
    row_stack =
        unfold enter_handler enter_handler_terminal in ground (arith, h.x, h.y, h.row_stack);
    shown = unfold enter_handler enter_handler_terminal in ground (arith, h.shown);
    picture =
        rw
          (
            mem-enter_handler s v,
            mem-enter_handler_terminal m info t (omega (arith, h.y, v.row)),
            h.y,
            h.shown,
          )
          (branch-SamePicture _ _ _ _ (saved_screen t) (leb 23 info.screen_pos_y)
            (scroll-SamePicture s.mem m (saved_screen t) (saved_screen-fits t) h.picture 3840
              (attrib t) (omega arith) (omega arith))
            h.picture);
  }

  same_drawn : (c : ℕ) → SamePicture (drawn s v c) (drawn_terminal m info t c) (saved_screen t)
  unfolding drawn drawn_terminal
  same_drawn c =
      rw (h.x, h.y, h.shown)
        (put_cell-SamePicture s.mem m (saved_screen t) (saved_screen-fits t) h.picture
          (80 * info.screen_pos_y + info.screen_pos_x) c (attrib t)
          (omega (arith, h.x, h.y, v.column, v.row)))

  printed-Mirrors :
      (c : ℕ)
      → (c == b'\n' || c == b'\r') ≡ false
      → let (m', info') = putc_terminal m info c t in Mirrors (putc s c) m' info' t
  printed-Mirrors c e =
      let on_saved =
        cursor-putc_terminal m info t c (omega (arith, h.x, v.column)) (omega (arith, h.y, v.row))
          (omega (arith, h.row_stack, v.above, v.row)) e in
      record {
        x = rw ((cursor-putc s v c e).0, on_saved.0, h.x);
        y = rw ((cursor-putc s v c e).1, on_saved.1, h.x, h.y);
        row_stack = rw ((cursor-putc s v c e).2, on_saved.2, h.x, h.row_stack);
        shown = unfold putc in rw e (ground (arith, h.shown));
        picture =
            rw
              (
                mem-putc s v c e,
                mem-putc_terminal m info t c (omega (arith, h.x, v.column))
                    (omega (arith, h.y, v.row)) e,
                h.x,
                h.y,
                h.shown,
              )
              (branch-SamePicture _ _ _ _ (saved_screen t)
                (leb 79 info.screen_pos_x && leb 23 info.screen_pos_y)
                (scroll-SamePicture (drawn s v c) (drawn_terminal m info t c) (saved_screen t)
                  (saved_screen-fits t) (same_drawn c) 3680 (attrib t) (omega arith) (omega arith))
                (same_drawn c));
      }

  newline-Mirrors :
      (c : ℕ)
      → (c == b'\n' || c == b'\r') ≡ true
      → let (m', info') = putc_terminal m info c t in Mirrors (putc s c) m' info' t
  unfolding putc putc_terminal
  newline-Mirrors c e =
      rw e
        (record { x = w.x; y = w.y; row_stack = w.row_stack; shown = w.shown; picture = w.picture })
    where
      w : let (m', info') = enter_handler_terminal m info t in Mirrors (enter_handler s) m' info' t
      w = enter_handler_terminal-Mirrors

  -- Drawing a character on the screen and drawing it on the saved screen of a terminal that holds
  -- the same picture and cursor leave the same picture and cursor.
  pub putc_terminal-putc :
      (c : ℕ) → let (m', info') = putc_terminal m info c t in Mirrors (putc s c) m' info' t
  putc_terminal-putc c = elim (Bool-cases (c == b'\n' || c == b'\r')) [
    | inl e ↦ newline-Mirrors c e
    | inr e ↦ printed-Mirrors c e
  ]
