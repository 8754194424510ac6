-- ===== src/Programs/Shows.antt =====
-- The loop of syscalls/ece391cat.c on the kernel ends, and the file stands on the screen.
use ece391_mp3_illinix.Console.{Screen}
use ece391_mp3_illinix.Console.Frame.{KeptOff}
use ece391_mp3_illinix.Programs.OnKernel.{kernel_calls}
use ece391_mp3_illinix.Console.Bounds.{OnScreen}
use ece391_mp3_illinix.Filesystem.Read.{inode_at, index_at, IsFile}
use ece391_mp3_illinix.Memory.{load32}
use ece391_mp3_illinix.Programs.{cat_loop}
use ece391_mp3_illinix.Filesystem.Kept.{
  SameImage, with_file-SameImage, size-kept, IsFile-kept, file_byte-kept,
}
use ece391_mp3_illinix.Terminal.Output.{OffScreen, text_at, write_shown-text_at}
use ece391_mp3_illinix.Console.View.{
  SameView, shown_text, shown_text-terminal, shown_text-SameView, shown_text-OnScreen,
  shown_text-append,
}
use ece391_mp3_illinix.Syscall.Files.{file_now, curr_pcb-cong}
use ece391_mp3_illinix.Programs.Cat.{
  Catting, chunk, next_kernel, position, size_of, rest_of, read_kernel, read_pcb, read_output,
  read-SameView, file_text, text_at-with_file, file_text-cong, file_text-append, next_read,
  next_write, SameView-trans,
}
use ece391_mp3_illinix.Syscall.{Call, curr_pcb}
use ece391_mp3_illinix.Kernel.{
  Kernel, FileDesc, get_terminal_id, Pcb, mem, file_at, no_file, current_terminal,
}
use ece391_mp3_illinix.Prelude.{
  ℕ, zero, suc, ◌+◌, ◌-◌, ◌*◌, ◌≤◌, ◌≡◌, refl, sym, ap, ap₂, ◌∙◌, subst, ◌≢◌, inr, false, Option,
  some, List, ◌++◌, arith, ℕ_discrete, ◌==◌, length, length-set, get_or-set_self,
}
use ece391_mp3_illinix.Word.{u32, minus_one}

module _ (k : Kernel) (c : Call) (lo fd buf : ℕ) (g : Catting k lo fd buf) where
  abbrev n : ℕ
  n = chunk k c lo fd buf g

  abbrev after : Kernel
  after = next_kernel k c lo fd buf g

  abbrev moved_on : FileDesc
  moved_on = record (file_now k fd) { file_pos = u32 (position k fd + n) }

  after_pcb : curr_pcb after ≡ curr_pcb (read_kernel k c lo fd buf g)
  after_pcb = curr_pcb-cong (read_kernel k c lo fd buf g) after refl refl

  at_fd : file_now after fd ≡ moved_on
  at_fd =
      ap (λ (q : Pcb). file_at q fd) (after_pcb ∙ read_pcb k c lo fd buf g)
      ∙ get_or-set_self (curr_pcb k).files fd moved_on no_file (omega (arith, g.full, g.in_range))

  at_one : file_now after 1 ≡ file_now k 1
  at_one = ap (λ (q : Pcb). file_at q 1) after_pcb ∙ read_output k c lo fd buf g

  same_inode : (file_now after fd).inode ≡ (file_now k fd).inode
  same_inode = ap (λ (x : FileDesc). x.inode) at_fd

  new_position : position after fd ≡ position k fd + n
  new_position = ap (λ (x : FileDesc). x.file_pos) at_fd ∙ omega (arith, g.within, g.file.size_fits)

  off : OffScreen buf n
  off = record {
    fits = omega (arith, g.buffer_off.fits);
    apart = ground (arith, g.buffer_off.apart);
  }

  -- What the write draws, where it leaves the cursor, and what it keeps.
  drawn_chunk :
      SameView
        (shown_text k.screen (text_at (mem (read_kernel k c lo fd buf g)) (buf + 0) n))
        after.screen
      × OnScreen after.screen
      × KeptOff (mem (read_kernel k c lo fd buf g)) (mem after)
  drawn_chunk =
      write_shown-text_at n (mem (read_kernel k c lo fd buf g)) k.screen
        (read_kernel k c lo fd buf g).screen buf 0
        (record { fits = omega (arith, off.fits); apart = ground (arith, off.apart) })
        (λ j h. ap (mem (read_kernel k c lo fd buf g)) (omega arith)) g.seen
        (read-SameView k c lo fd buf g)

  same_image : SameImage k.fs lo (mem k) (mem after)
  same_image a h1 h2 =
      drawn_chunk.2 a (inr (omega (arith, g.image_off)))
      ∙ with_file-SameImage (mem k) k.fs lo (index_at k.fs (file_now k fd).inode) (position k fd)
          buf n
          (record { fits = omega (arith, g.buffer.fits); apart = ground (arith, g.buffer.apart) }) a
          h1 h2

  same_size : size_of after fd ≡ size_of k fd
  same_size =
      ap (λ i. load32 (mem after) (inode_at k.fs i)) same_inode
      ∙ size-kept g.file (mem after) g.inode_above same_image

  terminal_kept : current_terminal after ≡ current_terminal k
  terminal_kept = drawn_chunk.0.same_terminal ∙ shown_text-terminal k.screen _

  next-Catting : Catting after lo fd buf
  unfolding get_terminal_id
  next-Catting = record {
    full =
        ap (λ (q : Pcb). length q.files) (after_pcb ∙ read_pcb k c lo fd buf g)
        ∙ length-set (curr_pcb k).files fd moved_on
        ∙ g.full;
    in_range = g.in_range;
    other = g.other;
    used = ap (λ (x : FileDesc). x.flags) at_fd ∙ g.used;
    on_file = ap (λ (x : FileDesc). x.ptrs) at_fd ∙ g.on_file;
    out_used = ap (λ (x : FileDesc). x.flags) at_one ∙ g.out_used;
    out_terminal = ap (λ (x : FileDesc). x.ptrs) at_one ∙ g.out_terminal;
    within = omega (arith, new_position, same_size, g.within);
    file =
        subst (IsFile (mem after) k.fs lo) (sym same_inode)
          (IsFile-kept g.file (mem after) g.inode_above same_image);
    inode_above = subst (λ i. lo ≤ inode_at k.fs i) (sym same_inode) g.inode_above;
    buffer = g.buffer;
    buffer_there = g.buffer_there;
    buffer_off = g.buffer_off;
    image_off = g.image_off;
    seen = drawn_chunk.1;
    shown =
        ap (λ (q : Pcb). get_terminal_id after q.pid) (after_pcb ∙ read_pcb k c lo fd buf g)
        ∙ g.shown
        ∙ sym terminal_kept;
  }

  -- The text left falls into the bytes just read and what is left then.
  text_splits :
      rest_of k fd ≡ text_at (mem (read_kernel k c lo fd buf g)) (buf + 0) n ++ rest_of after fd
  text_splits =
      let p = index_at k.fs (file_now k fd).inode in
      let m' = mem after in
      let total : size_of k fd - position k fd ≡ n + (size_of k fd - (position k fd + n)) =
        omega (arith, g.within) in
      let read : text_at (mem (read_kernel k c lo fd buf g)) (buf + 0) n
          ≡ file_text (mem k) k.fs p (position k fd) n =
        text_at-with_file n (mem k) k.fs p (position k fd) buf n 0 (omega arith)
        ∙ ap (λ q. file_text (mem k) k.fs p q n) (omega arith) in
      let rest : rest_of after fd
          ≡ file_text (mem k) k.fs p (position k fd + n) (size_of k fd - (position k fd + n)) =
        rw (same_size, new_position, same_inode)
          (file_text-cong (size_of k fd - (position k fd + n)) (mem k) m' k.fs p (position k fd + n)
            (λ i lo' hi. file_byte-kept g.file m' g.inode_above same_image i (omega arith))) in
      ap (file_text (mem k) k.fs p (position k fd)) total
      ∙ file_text-append n (size_of k fd - (position k fd + n)) (mem k) k.fs p (position k fd)
      ∙ sym (ap₂ (λ xs ys. xs ++ ys) read rest)

  -- The screen when nothing was left, and after one more piece.
  nothing_left :
      n ≡ 0 → SameView (shown_text k.screen (rest_of k fd)) (read_kernel k c lo fd buf g).screen
  unfolding file_text shown_text
  nothing_left e =
      let z : size_of k fd - position k fd ≡ 0 = omega (arith, e, g.within) in
      subst
        (λ r.
          SameView
            (shown_text k.screen
              (file_text (mem k) k.fs (index_at k.fs (file_now k fd).inode) (position k fd) r))
            (read_kernel k c lo fd buf g).screen)
        (sym z) (read-SameView k c lo fd buf g)

  fuel_left :
      (fuel : ℕ)
      → size_of k fd ≤ position k fd + suc fuel * 1024
      → size_of after fd ≤ position after fd + fuel * 1024
  fuel_left fuel h = rw (same_size, new_position) (omega (arith, g.within))

  more_left :
      (s : Screen)
      → SameView (shown_text after.screen (rest_of after fd)) s
      → SameView (shown_text k.screen (rest_of k fd)) s
  more_left s w =
      let bytes = text_at (mem (read_kernel k c lo fd buf g)) (buf + 0) n in
      let drawn =
        shown_text-SameView (shown_text k.screen bytes) after.screen (rest_of after fd)
          (shown_text-OnScreen k.screen bytes g.seen) drawn_chunk.0 in
      subst (λ (x : Screen). SameView x s)
        (sym (
          ap (shown_text k.screen) text_splits
          ∙ shown_text-append k.screen bytes (rest_of after fd)))
        (SameView-trans _ _ s drawn w)

module _ (literal : List ℕ → ℕ) (run : Kernel → ℕ → Option (ℕ × Kernel)) (c : Call) (fuel : ℕ)
    (k : Kernel) (lo fd buf : ℕ) (g : Catting k lo fd buf) where
  -- A read that gets nothing ends the loop.
  cat_loop-end :
      chunk k c lo fd buf g ≡ 0
      → cat_loop (kernel_calls literal run c) (suc fuel) k fd buf
        ≡ some (0, read_kernel k c lo fd buf g)
  unfolding cat_loop
  cat_loop-end e = rw (next_read k c lo fd buf g, e) refl

  -- What a read gets goes out, and the loop goes on.
  cat_loop-next :
      chunk k c lo fd buf g ≢ 0
      → cat_loop (kernel_calls literal run c) (suc fuel) k fd buf
        ≡ cat_loop (kernel_calls literal run c) fuel (next_kernel k c lo fd buf g) fd buf
  unfolding cat_loop
  cat_loop-next ne =
      let n0 : (chunk k c lo fd buf g == 0) ≡ false = ground (arith, ne) in
      let n1 : (chunk k c lo fd buf g == minus_one) ≡ false = ground arith in
      rw (next_read k c lo fd buf g, n0, n1, next_write k c lo fd buf g, n1) refl

-- For a descriptor open on a file of a well-formed image, a buffer apart from image and screen, and a
-- process whose terminal is shown: the loop of `cat`, on the kernel's own `read` and `write`, ends
-- with 0, once its fuel exceeds the number of 1024-byte pieces left, and the screen then shows what
-- it showed before with the rest of the file printed behind it, character by character.
pub cat_loop-shown_text :
    (literal : List ℕ → ℕ) (run : Kernel → ℕ → Option (ℕ × Kernel)) (c : Call) (fuel : ℕ)
    (k : Kernel) (lo fd buf : ℕ)
    → Catting k lo fd buf
    → size_of k fd ≤ position k fd + fuel * 1024
    → (k' : Kernel) × (cat_loop (kernel_calls literal run c) (suc fuel) k fd buf ≡ some (0, k'))
      × SameView (shown_text k.screen (rest_of k fd)) k'.screen
cat_loop-shown_text literal run c zero k lo fd buf g enough =
    let e : chunk k c lo fd buf g ≡ 0 = omega (arith, g.within) in
    (
      read_kernel k c lo fd buf g,
      cat_loop-end literal run c zero k lo fd buf g e,
      nothing_left k c lo fd buf g e,
    )
cat_loop-shown_text literal run c (suc fuel) k lo fd buf g enough =
    let r =
      cat_loop-shown_text literal run c fuel (next_kernel k c lo fd buf g) lo fd buf
        (next-Catting k c lo fd buf g) (fuel_left k c lo fd buf g fuel enough) in
    elim (ℕ_discrete (chunk k c lo fd buf g) 0) [
      | yes e ↦ (
        read_kernel k c lo fd buf g,
        cat_loop-end literal run c (suc fuel) k lo fd buf g e,
        nothing_left k c lo fd buf g e,
      )
      | no ne ↦ (
        r.0,
        cat_loop-next literal run c (suc fuel) k lo fd buf g ne ∙ r.1,
        more_left k c lo fd buf g _ r.2,
      )
    ]
