-- ===== src/Programs/Cat.antt =====
-- The program syscalls/ece391cat.c on the kernel of student-distrib/: it shows the file.
use ece391_mp3_illinix.Terminal.{write_shown, terminal_write}
use ece391_mp3_illinix.Console.Bounds.{OnScreen}
use ece391_mp3_illinix.Filesystem.Read.{inode_at, index_at, IsFile}
use ece391_mp3_illinix.Syscall.Reading.{after_read, left, read-after_read}
use ece391_mp3_illinix.Filesystem.Data.{file_byte, with_file, Outside}
use ece391_mp3_illinix.Syscall.Files.{
  file_now, curr_pcb-cong, file_now-update_ne, curr_pcb-update_file,
}
use ece391_mp3_illinix.Console.View.{SameView}
use ece391_mp3_illinix.Filesystem.{Fs}
use ece391_mp3_illinix.Syscall.{Call, curr_pcb, read, bad_transfer, returns, write, ops_write}
use ece391_mp3_illinix.Memory.{Mem, load32}
use ece391_mp3_illinix.Console.{Screen, video}
use ece391_mp3_illinix.Terminal.Output.{text_at, OffScreen}
use ece391_mp3_illinix.Kernel.{
  Kernel, mem, in_use, with_mem, file_funcs, stdout_funcs, get_terminal_id, current_terminal,
  FileDesc, put_file, Pcb, file_at,
}
use ece391_mp3_illinix.Prelude.{
  ℕ, zero, suc, ◌+◌, ◌-◌, ◌≤◌, ◌<◌, ◌≡◌, refl, ap, ap₂, ◌∙◌, ◌≢◌, true, false, ◌&&◌, List, [], ◌∷◌,
  ◌++◌, arith, ltb, leb, ◌==◌, length, if_true, if_false,
}
use ece391_mp3_illinix.Word.{u32, is_neg}

-- `n` bytes of the file whose block indices start at `p`, from byte `o` on.
unfoldable pub file_text : Mem → Fs → ℕ → ℕ → ℕ → List ℕ
file_text m fs p o zero = []
file_text m fs p o (suc n) = file_byte m fs p o ∷ file_text m fs p (o + 1) n

-- The size of the file that a descriptor is open on, and its position.
abbrev pub size_of : Kernel → ℕ → ℕ
size_of k fd = load32 (mem k) (inode_at k.fs (file_now k fd).inode)

abbrev pub position : Kernel → ℕ → ℕ
position k fd = (file_now k fd).file_pos

-- The running process is in the terminal shown; `fd` is open on a file of a well-formed image, and 1
-- on the terminal; the buffer of 1024 bytes lies neither in the image nor on the screen, and the
-- image lies above the screen.
pub record Catting (k : Kernel) (lo fd buf : ℕ) : Type 0 where
  pub full : length (curr_pcb k).files ≡ 8
  pub in_range : fd < 8
  pub other : fd ≢ 1
  pub used : (file_now k fd).flags ≡ in_use
  pub on_file : (file_now k fd).ptrs ≡ file_funcs
  pub out_used : (file_now k 1).flags ≡ in_use
  pub out_terminal : (file_now k 1).ptrs ≡ stdout_funcs
  pub within : position k fd ≤ size_of k fd
  pub file : IsFile (mem k) k.fs lo (file_now k fd).inode
  pub inode_above : lo ≤ inode_at k.fs (file_now k fd).inode
  pub buffer : Outside k.fs lo buf 1024
  pub buffer_there : buf ≢ 0
  pub buffer_off : OffScreen buf 1024
  pub image_off : video + 3840 ≤ lo
  pub seen : OnScreen k.screen
  pub shown : get_terminal_id k (curr_pcb k).pid ≡ current_terminal k

-- What is left of the file.
abbrev pub rest_of : Kernel → ℕ → List ℕ
rest_of k fd =
    file_text (mem k) k.fs (index_at k.fs (file_now k fd).inode) (position k fd)
      (size_of k fd - position k fd)

-- The buffer holds the bytes of the file after a read.
pub text_at-with_file :
    (n : ℕ) (m : Mem) (fs : Fs) (p o d c j : ℕ)
    → j + n ≤ c
    → text_at (with_file m fs p o d c) (d + j) n ≡ file_text m fs p (o + j) n
unfolding text_at file_text
text_at-with_file zero m fs p o d c j h = refl
text_at-with_file (suc n) m fs p o d c j h =
    let t : (leb d (d + j) && ltb (d + j) (d + c)) ≡ true = ground arith in
    let e : with_file m fs p o d c (d + j) ≡ file_byte m fs p (o + j) =
      if_true t _ _ ∙ ap (file_byte m fs p) (omega arith) in
    let ih = text_at-with_file n m fs p o d c (j + 1) (omega arith) in
    ap₂ (λ x xs. x ∷ xs) e
      (ap (λ q. text_at (with_file m fs p o d c) q n) (omega arith)
        ∙ ih
        ∙ ap (λ q. file_text m fs p q n) (omega arith))

pub file_text-append :
    (a b : ℕ) (m : Mem) (fs : Fs) (p o : ℕ)
    → file_text m fs p o (a + b) ≡ file_text m fs p o a ++ file_text m fs p (o + a) b
unfolding file_text
file_text-append zero b m fs p o = ap₂ (λ x n. file_text m fs p x n) (omega arith) (omega arith)
file_text-append (suc a) b m fs p o =
    let e : suc a + b ≡ suc (a + b) = omega arith in
    ap (file_text m fs p o) e
    ∙ ap (λ xs. file_byte m fs p o ∷ xs)
        (file_text-append a b m fs p (o + 1)
          ∙ ap (λ q. file_text m fs p (o + 1) a ++ file_text m fs p q b) (omega arith))

pub file_text-cong :
    (n : ℕ) (m m' : Mem) (fs : Fs) (p o : ℕ)
    → ((i : ℕ) → o ≤ i → i < o + n → file_byte m' fs p i ≡ file_byte m fs p i)
    → file_text m' fs p o n ≡ file_text m fs p o n
unfolding file_text
file_text-cong zero m m' fs p o h = refl
file_text-cong (suc n) m m' fs p o h =
    ap₂ (λ x xs. x ∷ xs) (h o (omega arith) (omega arith))
      (file_text-cong n m m' fs p (o + 1) (λ i lo hi. h i (omega arith) (omega arith)))

pub SameView-trans : (a b c : Screen) → SameView a b → SameView b c → SameView a c
SameView-trans a b c v w = record {
  same_x = w.same_x ∙ v.same_x;
  same_y = w.same_y ∙ v.same_y;
  same_stack = w.same_stack ∙ v.same_stack;
  same_terminal = w.same_terminal ∙ v.same_terminal;
  same_rows = λ i h. w.same_rows i h ∙ v.same_rows i h;
}

module _ (k : Kernel) (c : Call) (lo fd buf : ℕ) (g : Catting k lo fd buf) where
  -- The bytes that the next read gets.
  abbrev pub chunk : ℕ
  chunk = left k fd 1024

  abbrev pub read_kernel : Kernel
  read_kernel = after_read k fd buf chunk

  pub next_read : read k c fd buf 1024 ≡ returns chunk read_kernel
  next_read =
      read-after_read k c lo fd buf 1024 g.in_range (omega arith) g.buffer_there g.used g.on_file
        g.file
        (record { fits = omega (arith, g.buffer.fits); apart = ground (arith, g.buffer.apart) })

  -- Nothing on the screen moves while the file is read.
  pub read-SameView : SameView k.screen read_kernel.screen
  read-SameView = record {
    same_x = refl;
    same_y = refl;
    same_stack = refl;
    same_terminal = refl;
    same_rows = λ i h. ground (arith, g.buffer_off.apart);
  }

  same_pcb : curr_pcb (with_mem k (mem read_kernel)) ≡ curr_pcb k
  same_pcb = curr_pcb-cong k (with_mem k (mem read_kernel)) refl refl

  pcb_fits : fd < length (curr_pcb (with_mem k (mem read_kernel))).files
  pcb_fits = rw same_pcb (omega (arith, g.full, g.in_range))

  pub read_output : file_now read_kernel 1 ≡ file_now k 1
  read_output =
      file_now-update_ne (with_mem k (mem read_kernel)) fd 1
        (record (file_now k fd) { file_pos = u32 (position k fd + chunk) }) pcb_fits g.other
      ∙ ap (λ (q : Pcb). file_at q 1) same_pcb

  read_accepted : bad_transfer read_kernel 1 buf chunk ≡ false
  read_accepted =
      let e : (file_now read_kernel 1).flags ≡ in_use =
        ap (λ (x : FileDesc). x.flags) read_output ∙ g.out_used in
      ground (arith, e, g.buffer_there)

  pub read_pcb :
      curr_pcb read_kernel
      ≡ put_file (curr_pcb k) fd (record (file_now k fd) { file_pos = u32 (position k fd + chunk) })
  read_pcb =
      curr_pcb-update_file (with_mem k (mem read_kernel)) fd
        (record (file_now k fd) { file_pos = u32 (position k fd + chunk) })
      ∙ ap
          (λ (q : Pcb).
            put_file q fd (record (file_now k fd) { file_pos = u32 (position k fd + chunk) }))
          same_pcb

  pub read_shown :
      get_terminal_id read_kernel (curr_pcb read_kernel).pid ≡ current_terminal read_kernel
  unfolding get_terminal_id
  read_shown = rw read_pcb g.shown

  -- The kernel after the bytes went out.
  abbrev pub next_kernel : Kernel
  next_kernel = record read_kernel { screen = write_shown read_kernel.screen buf 0 chunk }

  pub next_write : write read_kernel 1 buf chunk ≡ returns chunk next_kernel
  unfolding write ops_write terminal_write
  next_write =
      let ops : (file_now read_kernel 1).ptrs ≡ stdout_funcs =
        ap (λ (x : FileDesc). x.ptrs) read_output ∙ g.out_terminal in
      let t : (get_terminal_id read_kernel (curr_pcb read_kernel).pid
            == current_terminal read_kernel)
          ≡ true =
        ground (arith, read_shown) in
      let small : is_neg chunk ≡ false = ground arith in
      if_false read_accepted _ _ ∙ rw (ops, t, small) refl
