-- ===== src/Syscall/Reading.antt =====
-- The system call `read` on an open file (student-distrib/syscall.c and file_read of filesystem.c).
use ece391_mp3_illinix.Prelude.{ℕ, ◌+◌, ◌^◌, ◌<◌, ◌≡◌, refl, ap, ◌∙◌, ◌≢◌, false, arith, length}
use ece391_mp3_illinix.Word.{u32}
use ece391_mp3_illinix.Filesystem.Data.{Outside, with_file}
use ece391_mp3_illinix.Filesystem.Read.{IsFile, available, index_at, read_data-available}
use ece391_mp3_illinix.Kernel.{Kernel, Pcb, FileDesc, file_funcs, mem, with_mem, file_at, in_use}
use ece391_mp3_illinix.Syscall.{
  returns, Call, curr_pcb, update_file, file_read, read, ops_read, bad_transfer,
}
use ece391_mp3_illinix.Syscall.Files.{
  file_now, file_now-update_self, file_now-update_ne, curr_pcb-cong,
}

-- What `read` does on a file: bytes of the file go to the buffer, the position moves past them, and
-- the other descriptors stay.
pub record Advanced (k : Kernel) (fd buf n : ℕ) (k' : Kernel) : Type 0 where
  pub bytes :
      mem k'
      ≡ with_file (mem k) k.fs (index_at k.fs (file_now k fd).inode) (file_now k fd).file_pos buf n
  pub position : (file_now k' fd).file_pos ≡ (file_now k fd).file_pos + n
  pub inode : (file_now k' fd).inode ≡ (file_now k fd).inode
  pub others : (j : ℕ) → fd ≢ j → file_now k' j ≡ file_now k j

-- The bytes left from the position of a descriptor on, up to `nbytes`.
abbrev pub left : Kernel → ℕ → ℕ → ℕ
left k fd nbytes = available (mem k) k.fs (file_now k fd).inode (file_now k fd).file_pos nbytes

read_accepted :
    (k : Kernel) (c : Call) (fd buf nbytes : ℕ)
    → bad_transfer k fd buf nbytes ≡ false
    → read k c fd buf nbytes ≡ ops_read k c (file_now k fd).ptrs fd buf nbytes
unfolding read
read_accepted k c fd buf nbytes good = rw good refl

-- The kernel after a read of `n` bytes.
abbrev pub after_read : Kernel → ℕ → ℕ → ℕ → Kernel
after_read k fd buf n =
    let f = file_now k fd in
    let m = with_file (mem k) k.fs (index_at k.fs f.inode) f.file_pos buf n in
    update_file (with_mem k m) fd (record f { file_pos = u32 (f.file_pos + n) })

pub read-after_read :
    (k : Kernel) (c : Call) (lo fd buf nbytes : ℕ)
    → fd < 8
    → nbytes < 2 ^ 31
    → buf ≢ 0
    → (file_now k fd).flags ≡ in_use
    → (file_now k fd).ptrs ≡ file_funcs
    → IsFile (mem k) k.fs lo (file_now k fd).inode
    → Outside k.fs lo buf (left k fd nbytes)
    → read k c fd buf nbytes ≡ returns (left k fd nbytes) (after_read k fd buf (left k fd nbytes))
unfolding ops_read file_read
read-after_read k c lo fd buf nbytes hfd hn hbuf used ptrs file out =
    let good : bad_transfer k fd buf nbytes ≡ false = ground arith in
    let dispatched : read k c fd buf nbytes ≡ ops_read k c file_funcs fd buf nbytes =
      read_accepted k c fd buf nbytes good ∙ ap (λ ops. ops_read k c ops fd buf nbytes) ptrs in
    let e = read_data-available file (file_now k fd).file_pos buf nbytes out in
    let served : ops_read k c file_funcs fd buf nbytes
        ≡ returns (left k fd nbytes) (after_read k fd buf (left k fd nbytes)) =
      rw e refl in
    dispatched ∙ served

-- `read` on a descriptor that is open on a file of a well-formed image, with a buffer outside the
-- image: it returns how many bytes there are from the descriptor's position on, up to `nbytes`, and
-- does as `Advanced` says; the next call goes on behind them.
pub read-Advanced :
    (k : Kernel) (c : Call) (lo fd buf nbytes : ℕ)
    → length (curr_pcb k).files ≡ 8
    → fd < 8
    → nbytes < 2 ^ 31
    → buf ≢ 0
    → (file_now k fd).flags ≡ in_use
    → (file_now k fd).ptrs ≡ file_funcs
    → (file_now k fd).file_pos < 2 ^ 31
    → IsFile (mem k) k.fs lo (file_now k fd).inode
    → Outside k.fs lo buf (left k fd nbytes)
    → (k' : Kernel) × (read k c fd buf nbytes ≡ returns (left k fd nbytes) k')
      × Advanced k fd buf (left k fd nbytes) k'
read-Advanced k c lo fd buf nbytes full hfd hn hbuf used ptrs small file out =
    let f = file_now k fd in
    let n = left k fd nbytes in
    let m = with_file (mem k) k.fs (index_at k.fs f.inode) f.file_pos buf n in
    let f' : FileDesc = record f { file_pos = u32 (f.file_pos + n) } in
    let same : curr_pcb (with_mem k m) ≡ curr_pcb k = curr_pcb-cong k (with_mem k m) refl refl in
    let fits : fd < length (curr_pcb (with_mem k m)).files = rw same (omega (arith, full)) in
    let here : file_now (after_read k fd buf n) fd ≡ f' =
      file_now-update_self (with_mem k m) fd f' fits in
    (
      after_read k fd buf n,
      read-after_read k c lo fd buf nbytes hfd hn hbuf used ptrs file out,
      record {
        bytes = refl;
        position = ap (λ (x : FileDesc). x.file_pos) here ∙ ground (arith, file.size_fits);
        inode = ap (λ (x : FileDesc). x.inode) here;
        others = λ j ne.
            file_now-update_ne (with_mem k m) fd j f' fits ne ∙ ap (λ (q : Pcb). file_at q j) same;
      },
    )
