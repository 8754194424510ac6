-- ===== src/Execute/Start.antt =====
-- The check of the executable in `execute` of student-distrib/syscall.c, against the bytes of the file.
use ece391_mp3_illinix.Filesystem.Read.{IsFile}
use ece391_mp3_illinix.Filesystem.Read.{index_at, inode_at, available, read_data-available}
use ece391_mp3_illinix.Filesystem.Kept.{
  SameImage, file_byte-kept, with_file-SameImage, size-kept, IsFile-kept,
}
use ece391_mp3_illinix.Filesystem.Data.{with_file, file_byte, Outside}
use ece391_mp3_illinix.Filesystem.{Fs}
use ece391_mp3_illinix.Memory.{Mem}
use ece391_mp3_illinix.Execute.{
  check_image, Frame, load32, mem, read_data, has_magic, start_program, with_mem, returned,
  Executed,
}
use ece391_mp3_illinix.Kernel.{Kernel}
use ece391_mp3_illinix.Prelude.{
  ℕ, ◌+◌, ◌*◌, ◌^◌, ◌≤◌, ◌<◌, ◌≡◌, refl, sym, ap, ap₂, ◌∙◌, subst, Bool, true, ◌&&◌, Option, some,
  arith, ltb, leb, ◌==◌, if◌then◌else◌, ◌>>=◌, if_true,
}
use ece391_mp3_illinix.Word.{u32, minus_one}

-- The bytes of the file that `dentry` names.
abbrev pub inode_of : Kernel → Frame → ℕ
inode_of k f = load32 (mem k) (u32 (f.dentry + 36))

abbrev pub byte_of : Kernel → Frame → ℕ → ℕ
byte_of k f i = file_byte (mem k) k.fs (index_at k.fs (inode_of k f)) i

-- The first four bytes of an executable, and the word at byte 24.
abbrev pub is_executable : (ℕ → ℕ) → Bool
is_executable b = b 0 == 0x7F && b 1 == 0x45 && b 2 == 0x4C && b 3 == 0x46

abbrev pub entry_of : (ℕ → ℕ) → ℕ
entry_of b = b 24 + 2 ^ 8 * b 25 + 2 ^ 16 * b 26 + 2 ^ 24 * b 27

-- Memory after both reads into `magics`.
abbrev pub after_magic : Kernel → Frame → Mem
after_magic k f = with_file (mem k) k.fs (index_at k.fs (inode_of k f)) 0 f.magics 4

abbrev pub after_entry : Kernel → Frame → Mem
after_entry k f = with_file (after_magic k f) k.fs (index_at k.fs (inode_of k f)) 24 f.magics 4

-- A byte of a buffer after a read of four bytes at offset `o`.
read_byte :
    (m : Mem) (fs : Fs) (p o d i : ℕ)
    → d + 4 < 2 ^ 32
    → i < 4
    → with_file m fs p o d 4 (u32 (d + i)) ≡ file_byte m fs p (o + i)
read_byte m fs p o d i h hi =
    let e : u32 (d + i) ≡ d + i = omega arith in
    let t : (leb d (d + i) && ltb (d + i) (d + 4)) ≡ true = ground arith in
    rw e (if_true t _ _ ∙ ap (file_byte m fs p) (omega arith))

read_first :
    (m : Mem) (fs : Fs) (p o d : ℕ) → d + 4 < 2 ^ 32 → with_file m fs p o d 4 d ≡ file_byte m fs p o
read_first m fs p o d h =
    ap (with_file m fs p o d 4) (omega arith)
    ∙ read_byte m fs p o d 0 h (omega arith)
    ∙ ap (file_byte m fs p) (omega arith)

module _ (k : Kernel) (f : Frame) (lo : ℕ) (file : IsFile (mem k) k.fs lo (inode_of k f))
    (above : lo ≤ inode_at k.fs (inode_of k f)) (out : Outside k.fs lo f.magics 4)
    (size : 28 ≤ load32 (mem k) (inode_at k.fs (inode_of k f))) where
  magic_read : read_data (mem k) k.fs (inode_of k f) 0 f.magics 4 ≡ some (4, after_magic k f)
  magic_read =
      let four : available (mem k) k.fs (inode_of k f) 0 4 ≡ 4 = omega arith in
      read_data-available file 0 f.magics 4 (subst (Outside k.fs lo f.magics) (sym four) out)
      ∙ ap (λ n. some (n, with_file (mem k) k.fs (index_at k.fs (inode_of k f)) 0 f.magics n)) four

  kept : SameImage k.fs lo (mem k) (after_magic k f)
  kept = with_file-SameImage (mem k) k.fs lo (index_at k.fs (inode_of k f)) 0 f.magics 4 out

  entry_read :
      read_data (after_magic k f) k.fs (inode_of k f) 24 f.magics 4 ≡ some (4, after_entry k f)
  entry_read =
      let four : available (after_magic k f) k.fs (inode_of k f) 24 4 ≡ 4 =
        omega (arith, size-kept file (after_magic k f) above kept) in
      read_data-available (IsFile-kept file (after_magic k f) above kept) 24 f.magics 4
        (subst (Outside k.fs lo f.magics) (sym four) out)
      ∙ ap
          (λ n.
            some (n, with_file (after_magic k f) k.fs (index_at k.fs (inode_of k f)) 24 f.magics n))
          four

  magic_bytes : has_magic (after_magic k f) f.magics ≡ is_executable (byte_of k f)
  magic_bytes =
      let p = index_at k.fs (inode_of k f) in
      let b = λ (i : ℕ) (h : i < 4). read_byte (mem k) k.fs p 0 f.magics i out.fits h in
      rw (b 0 (omega arith), b 1 (omega arith), b 2 (omega arith), b 3 (omega arith)) refl

  entry_bytes : load32 (after_entry k f) f.magics ≡ entry_of (byte_of k f)
  entry_bytes =
      let p = index_at k.fs (inode_of k f) in
      let m₁ = after_magic k f in
      let b = λ (i : ℕ) (h : i < 4). read_byte m₁ k.fs p 24 f.magics i out.fits h in
      let same = λ (i : ℕ) (h : i < 28). file_byte-kept file m₁ above kept i (omega arith) in
      rw
        (
          read_first m₁ k.fs p 24 f.magics out.fits,
          b 1 (omega arith),
          b 2 (omega arith),
          b 3 (omega arith),
          same 24 (omega arith),
          same 25 (omega arith),
          same 26 (omega arith),
          same 27 (omega arith),
        )
        refl

-- For a file of a well-formed image with at least 28 bytes, the check goes on to `start_program` with
-- the word at byte 24 of the file when the first four bytes are 7F 45 4C 46, and returns -1 otherwise.
pub check_image-is_executable :
    (k : Kernel) (f : Frame) (lo : ℕ)
    → IsFile (mem k) k.fs lo (inode_of k f)
    → lo ≤ inode_at k.fs (inode_of k f)
    → Outside k.fs lo f.magics 4
    → 28 ≤ load32 (mem k) (inode_at k.fs (inode_of k f))
    → check_image k f ≡ (
        if is_executable (byte_of k f)
        then start_program (with_mem k (after_entry k f)) f (inode_of k f) (entry_of (byte_of k f))
        else some (returned minus_one (with_mem k (after_magic k f))))
unfolding check_image
check_image-is_executable k f lo file above out size =
    let i = inode_of k f in
    let refused : Option Executed = some (returned minus_one (with_mem k (after_magic k f))) in
    let start = λ (e : ℕ × Mem). start_program (with_mem k e.1) f i (load32 e.1 f.magics) in
    ap
      (λ o. o >>= λ r.
        if has_magic r.1 f.magics
        then (read_data r.1 k.fs i 24 f.magics 4 >>= start)
        else some (returned minus_one (with_mem k r.1)))
      (magic_read k f lo file above out size)
    ∙ ap₂ (λ b o. if b then (o >>= start) else refused) (magic_bytes k f lo file above out size)
        (entry_read k f lo file above out size)
    ∙ ap
        (λ e.
          if is_executable (byte_of k f)
          then start_program (with_mem k (after_entry k f)) f i e
          else refused)
        (entry_bytes k f lo file above out size)
