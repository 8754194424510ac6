-- ===== src/Terminal/Back.antt =====
-- The way to another terminal and back (`switch_to_terminal` of student-distrib/terminal.c).
use ece391_mp3_illinix.Console.Keys.{Holds}
use ece391_mp3_illinix.Terminal.Keys.{KeysApart, old_keys, keys_noted, keys_taken, Apart}
use ece391_mp3_illinix.Console.View.{SameView}
use ece391_mp3_illinix.Terminal.{info_at, no_info, TerminalInfo}
use ece391_mp3_illinix.Console.Bounds.{OnScreen}
use ece391_mp3_illinix.Terminal.Shown.{TwoTerminals, Switching, noted, show_terminal-Switching}
use ece391_mp3_illinix.Kernel.{Kernel, current_terminal, mem}
use ece391_mp3_illinix.Terminal.Switch.{
  switch_to_terminal, returned, show_terminal, terminal_buffer,
}
use ece391_mp3_illinix.Prelude.{
  ◌+◌, ℕ, ◌<◌, ◌≡◌, sym, ap, ◌∙◌, ◌≢◌, false, some, arith, leb, ◌==◌, length, get_or, length-set,
  get_or-set_self, get_or-set_ne, if_false, List, ◌≤◌, subst,
}

to_running :
    (k : Kernel) (b : ℕ)
    → b < 3
    → current_terminal k ≢ b
    → get_or k.terminal_running b 0 ≢ 0
    → switch_to_terminal k b ≡ some (returned 0 (show_terminal k b))
unfolding switch_to_terminal
to_running k b h ne on =
    let t : leb 3 b ≡ false = ground arith in
    let u : (b == current_terminal k) ≡ false = ground (arith, ne) in
    let v : (get_or k.terminal_running b 0 == 0) ≡ false = ground (arith, on) in
    if_false t _ _ ∙ if_false u _ _ ∙ if_false v _ _

module _ {k : Kernel} {b : ℕ} (w : TwoTerminals k b) where
  abbrev there : Kernel
  there = show_terminal k b

  abbrev s₁ : Switching k b there
  s₁ = show_terminal-Switching w

  info_at-noted : info_at there (current_terminal k) ≡ noted k
  info_at-noted =
      ap (λ xs. get_or xs (current_terminal k) no_info) s₁.infos
      ∙ get_or-set_self k.terminal_info (current_terminal k) (noted k) no_info
          (omega (arith, w.few, w.all_info))

  info_at-other : info_at there b ≡ info_at k b
  info_at-other =
      ap (λ xs. get_or xs b no_info) s₁.infos
      ∙ get_or-set_ne k.terminal_info (current_terminal k) b (noted k) no_info w.apart

  TwoTerminals-there : TwoTerminals there (current_terminal k)
  TwoTerminals-there = record {
    few = omega (arith, s₁.terminal, w.other);
    other = w.few;
    apart = λ e. w.apart (sym e ∙ s₁.terminal);
    all_info =
        ap length s₁.infos ∙ length-set k.terminal_info (current_terminal k) (noted k) ∙ w.all_info;
    buffer_a =
        ap (λ t. (info_at there t).screen_buffer) s₁.terminal
        ∙ ap (λ (x : TerminalInfo). x.screen_buffer) info_at-other
        ∙ w.buffer_b
        ∙ ap terminal_buffer (sym s₁.terminal);
    buffer_b = ap (λ (x : TerminalInfo). x.screen_buffer) info_at-noted ∙ w.buffer_a;
    keys_above = omega (arith, s₁.keys, w.keys_above);
    keys_fit = omega (arith, s₁.keys, w.keys_fit);
    old_a_above = rw (s₁.terminal, info_at-other) w.old_b_above;
    old_a_fits = rw (s₁.terminal, info_at-other) w.old_b_fits;
    old_b_above = rw info_at-noted w.old_a_above;
    old_b_fits = rw info_at-noted w.old_a_fits;
  }

  abbrev back : Kernel
  back = show_terminal there (current_terminal k)

  abbrev s₂ : Switching there (current_terminal k) back
  s₂ = show_terminal-Switching TwoTerminals-there

  -- What was noted of the terminal comes back.
  back-SameView : OnScreen k.screen → SameView k.screen back.screen
  back-SameView v = record {
    same_x =
        s₂.x ∙ ap (λ (x : TerminalInfo). x.screen_pos_x) info_at-noted ∙ omega (arith, v.column);
    same_y =
        let e : (info_at there (current_terminal k)).screen_pos_y ≡ k.screen.screen_y =
          ap (λ (x : TerminalInfo). x.screen_pos_y) info_at-noted ∙ omega (arith, v.row) in
        s₂.y (omega (arith, e, v.row)) ∙ e;
    same_stack =
        s₂.stack
        ∙ ap (λ (x : TerminalInfo). x.row_stack_old) info_at-noted
        ∙ omega (arith, v.above, v.row);
    same_terminal = s₂.terminal;
    same_rows = λ i h. s₂.rows i h ∙ s₁.saved i h;
  }

  KeysApart-there : KeysApart k b → KeysApart there (current_terminal k)
  KeysApart-there p =
      let other : old_keys there (current_terminal there) ≡ old_keys k b =
        ap (old_keys there) s₁.terminal ∙ ap (λ (x : TerminalInfo). x.key_arr_old) info_at-other in
      let same : old_keys there (current_terminal k) ≡ old_keys k (current_terminal k) =
        ap (λ (x : TerminalInfo). x.key_arr_old) info_at-noted in
      record {
        line_a =
            subst (λ q. Apart q there.screen.key_arr) (sym other)
              (subst (Apart (old_keys k b)) (sym s₁.keys) p.line_b);
        line_b =
            subst (λ q. Apart q there.screen.key_arr) (sym same)
              (subst (Apart (old_keys k (current_terminal k))) (sym s₁.keys) p.line_a);
        a_b =
            subst (λ q. Apart q (old_keys there (current_terminal k))) (sym other)
              (subst (Apart (old_keys k b)) (sym same) (ground (arith, p.a_b)));
      }

  -- The keys typed come back too.
  keys_back_again :
      (j : ℕ)
      → KeysApart k b
      → j < 128
      → ((t : ℕ) → t ≤ j → mem k (k.screen.key_arr + t) ≢ 0)
      → mem back (k.screen.key_arr + j) ≡ mem k (k.screen.key_arr + j)
  keys_back_again j p h nz =
      let a : (info_at there (current_terminal k)).key_arr_old
          ≡ (info_at k (current_terminal k)).key_arr_old =
        ap (λ (x : TerminalInfo). x.key_arr_old) info_at-noted in
      let noted_at = λ (t : ℕ) (l : t ≤ j).
        ap (λ q. mem there (q + t)) a
        ∙ keys_noted w p t (omega arith) (λ t' l'. nz t' (omega arith)) in
      ap (λ q. mem back (q + j)) (sym s₁.keys)
      ∙ keys_taken TwoTerminals-there (KeysApart-there p) j h
          (λ t l q. nz t l (sym (noted_at t l) ∙ q))
      ∙ noted_at j (omega arith)

  back-Holds :
      {typed : List ℕ}
      → KeysApart k b
      → Holds k.screen typed
      → ((i : ℕ) → i < length typed → get_or typed i 0 ≢ 0)
      → Holds back.screen typed
  back-Holds {typed} p v nz =
      let line : back.screen.key_arr ≡ k.screen.key_arr = s₂.keys ∙ s₁.keys in
      let ptr : back.screen.key_arr_ptr ≡ k.screen.key_arr_ptr =
        s₂.ptr ∙ ap (λ (x : TerminalInfo). x.key_arr_ptr_old) info_at-noted in
      record {
        fits = omega (arith, line, w.keys_fit);
        kept = ptr ∙ v.kept;
        over =
            s₂.overflow ∙ ap (λ (x : TerminalInfo). x.key_arr_overflow_old) info_at-noted ∙ v.over;
        counted = v.counted;
        bytes = λ i h.
            let l : i < k.screen.key_arr_ptr = omega (arith, ptr, h) in
            ap (λ q. mem back (q + i)) line
            ∙ keys_back_again i p (omega (arith, v.kept))
                (λ t lt q. nz t (omega (arith, v.kept)) (sym (v.bytes t (omega arith)) ∙ q))
            ∙ v.bytes i l;
      }

-- Another terminal that runs is shown, and then the first one again: both calls return 0, and the
-- rows, the cursor, its two stacks and the line of the keys typed are as before, where the cursor was
-- on the screen, its column fitted a byte, no key typed was a NUL, and the arrays of keys lie behind
-- the three screen buffers and apart from each other.
pub switch_to_terminal-back :
    (k : Kernel) (b : ℕ) (typed : List ℕ)
    → TwoTerminals k b
    → KeysApart k b
    → OnScreen k.screen
    → Holds k.screen typed
    → ((i : ℕ) → i < length typed → get_or typed i 0 ≢ 0)
    → k.screen.column_stack < 256
    → get_or k.terminal_running b 0 ≢ 0
    → get_or k.terminal_running (current_terminal k) 0 ≢ 0
    → (k₁ : Kernel) × (k₂ : Kernel) × (switch_to_terminal k b ≡ some (returned 0 k₁))
      × (switch_to_terminal k₁ (current_terminal k) ≡ some (returned 0 k₂))
      × SameView k.screen k₂.screen
      × (k₂.screen.column_stack ≡ k.screen.column_stack)
      × Holds k₂.screen typed
switch_to_terminal-back k b typed w p v keys nz c on_b on_a =
    let t = TwoTerminals-there w in
    (
      there w,
      back w,
      to_running k b w.other w.apart on_b,
      to_running (there w) (current_terminal k) t.other t.apart
          (λ e. on_a (ap (λ xs. get_or xs (current_terminal k) 0) (sym (s₁ w).running) ∙ e)),
      back-SameView w v,
      (s₂ w).column
          ∙ ap (λ (x : TerminalInfo). x.column_stack_old) (info_at-noted w)
          ∙ omega (arith, c),
      back-Holds w p keys nz,
    )
