-- ===== src/Execute/Loaded.antt =====
-- `execute` of student-distrib/syscall.c from the command line to the entry of the program.
use ece391_mp3_illinix.Paging.{map_program}
use ece391_mp3_illinix.Filesystem.Kept.{
  SameImage, with_file-SameImage, size-kept, file_byte-kept, IsFile-kept,
}
use ece391_mp3_illinix.Filesystem.Data.{Outside, with_file, file_byte}
use ece391_mp3_illinix.Execute.Start.{
  byte_of, inode_of, after_entry, entry_of, after_magic, is_executable, check_image-is_executable,
}
use ece391_mp3_illinix.Filesystem.Read.{IsFile, inode_at, index_at, available, read_data-available}
use ece391_mp3_illinix.Execute.{
  Frame, load32, Mem, Executed, mem, returned, remapped, with_mem, enters, read_data, load_program,
  start_program, create_pcb, execute, after_parse, execute_named, parse_command, copied,
  read_dentry_by_name, check_image,
}
use ece391_mp3_illinix.Process.{take_pid, take_pid_from}
use ece391_mp3_illinix.Filesystem.Read.{read_data-available}
use ece391_mp3_illinix.Kernel.{Kernel}
use ece391_mp3_illinix.Prelude.{ℕ, arith, if_false, if_true}
use ece391_mp3_illinix.Prelude.{
  ℕ, ◌+◌, ◌-◌, ◌*◌, ◌≤◌, ◌≡◌, refl, sym, ap, ◌∙◌, fun_ext, subst, ◌≢◌, inl, inr, false, ◌&&◌,
  Option, none, some, List, arith, ltb, leb, ◌==◌, if◌then◌else◌, Bool-cases, ◌>>=◌,
}
use ece391_mp3_illinix.Word.{minus_one}

-- The size of the file that `dentry` names.
abbrev pub size_of : Kernel → Frame → ℕ
size_of k f = load32 (mem k) (inode_at k.fs (inode_of k f))

-- Memory with the page of the new process at 128 MB and the file at 0x08048000.
abbrev pub loaded : Kernel → Frame → Mem
loaded k f a =
    if leb 0x08048000 a && ltb a (0x08048000 + size_of k f)
    then byte_of k f (a - 0x08048000)
    else remapped (after_entry k f) f.page a

-- How `execute` goes on for an executable, by the pid that it gets.
unfoldable pub started : Kernel → Frame → Option (ℕ × Kernel) → Executed
started k f none = returned minus_one (with_mem k (after_entry k f))
started k f (some (pid, k')) =
    enters (entry_of (byte_of k f)) (create_pcb (with_mem k' (loaded k f)) pid f.args_buf)

module _ (k : Kernel) (f : Frame) (lo : ℕ) (file : IsFile (mem k) k.fs lo (inode_of k f))
    (above : lo ≤ inode_at k.fs (inode_of k f)) (out : Outside k.fs lo f.magics 4)
    (below : k.fs.d_block_addr + (k.fs.num_d_blocks + 1) * 4096 ≤ 0x08000000) where
  magic_kept : SameImage k.fs lo (mem k) (after_magic k f)
  magic_kept = with_file-SameImage (mem k) k.fs lo (index_at k.fs (inode_of k f)) 0 f.magics 4 out

  entry_kept : SameImage k.fs lo (mem k) (after_entry k f)
  entry_kept a h1 h2 =
      with_file-SameImage (after_magic k f) k.fs lo (index_at k.fs (inode_of k f)) 24 f.magics 4 out
        a h1 h2
      ∙ magic_kept a h1 h2

  -- The image lies below the page of the process.
  page_kept : SameImage k.fs lo (mem k) (remapped (after_entry k f) f.page)
  page_kept a h1 h2 =
      let t : (leb 0x08000000 a && ltb a 0x08400000) ≡ false = ground (arith, below) in
      if_false t _ _ ∙ entry_kept a h1 h2

  file_read :
      read_data (remapped (after_entry k f) f.page) k.fs (inode_of k f) 0 0x08048000 0x400000
      ≡ some (size_of k f, loaded k f)
  file_read =
      let m = remapped (after_entry k f) f.page in
      let i = inode_of k f in
      let p = index_at k.fs i in
      let size = size-kept file m above page_kept in
      let all : available m k.fs i 0 0x400000 ≡ size_of k f = omega (arith, size, file.size_fits) in
      let free : Outside k.fs lo 0x08048000 (size_of k f) = record {
        fits = omega (arith, file.size_fits);
        apart = inr (omega (arith, below));
      } in
      read_data-available (IsFile-kept file m above page_kept) 0 0x08048000 0x400000
        (subst (Outside k.fs lo 0x08048000) (sym all) free)
      ∙ ap (λ n. some (n, with_file m k.fs p 0 0x08048000 n)) all
      ∙ ap (λ (m' : Mem). some (size_of k f, m')) (fun_ext bytes)
    where
      bytes :
          (a : ℕ)
          → with_file
              (remapped (after_entry k f) f.page)
              k.fs
              (index_at k.fs (inode_of k f))
              0
              0x08048000
              (size_of k f)
              a
            ≡ loaded k f a
      bytes a =
          let m = remapped (after_entry k f) f.page in
          elim (Bool-cases (leb 0x08048000 a && ltb a (0x08048000 + size_of k f))) [
            | inl e ↦
                if_true e _ _
                ∙ ap (file_byte m k.fs (index_at k.fs (inode_of k f))) (omega arith)
                ∙ file_byte-kept file m above page_kept (a - 0x08048000) (ground arith)
                ∙ sym (if_true e _ _)
            | inr e ↦ if_false e _ _ ∙ sym (if_false e _ _)
          ]

  loads :
      (o : Option (ℕ × List ℕ))
      → load_program f
          (inode_of k f)
          (entry_of (byte_of k f))
          (o >>= λ r. some (
            r.0,
            record (with_mem k (after_entry k f)) {
              process = r.1;
              paging = map_program k.paging r.0;
            },
          ))
          (with_mem k (after_entry k f))
        ≡ some (
            started k f (
              o >>= λ r. some (r.0, record k { process = r.1; paging = map_program k.paging r.0 })))
  unfolding load_program started
  loads none = refl
  loads (some (pid, process)) =
      ap
        (λ (q : Option (ℕ × Mem)). q >>= λ r. some (
          enters (entry_of (byte_of k f)) (
            create_pcb
              (with_mem (record k { process = process; paging = map_program k.paging pid }) r.1) pid
              f.args_buf)))
        file_read

  start_program-started :
      start_program (with_mem k (after_entry k f)) f (inode_of k f) (entry_of (byte_of k f))
      ≡ some (started k f (take_pid k))
  unfolding start_program take_pid
  start_program-started = loads (take_pid_from k.process 0)

-- For a command line that is copied in full and whose name `read_dentry_by_name` finds, with a file
-- of a well-formed image below 128 MB that has 28 bytes or more, and four bytes at `magics` outside
-- the image, `execute` ends as follows. If the first four bytes of the file are 7F 45 4C 46 and a pid
-- is free, it enters the program at the word that stands at byte 24 of the file, with the pid taken,
-- its process control block made, and all bytes of the file at 0x08048000 on. If they are not, or if
-- no pid is free, it returns -1, with the four bytes at `magics` read and all else as the search left
-- it.
pub execute-is_executable :
    (k : Kernel) (f : Frame) (command r lo : ℕ) (m m₁ : Mem)
    → parse_command (mem k) f command ≡ some (copied m)
    → read_dentry_by_name m k.fs f.exe_name f.dentry ≡ some (r, m₁)
    → r ≢ minus_one
    → IsFile m₁ k.fs lo (inode_of (with_mem k m₁) f)
    → lo ≤ inode_at k.fs (inode_of (with_mem k m₁) f)
    → Outside k.fs lo f.magics 4
    → k.fs.d_block_addr + (k.fs.num_d_blocks + 1) * 4096 ≤ 0x08000000
    → 28 ≤ size_of (with_mem k m₁) f
    → execute k f command
      ≡ some (
          if is_executable (byte_of (with_mem k m₁) f)
          then started (with_mem k m₁) f (take_pid (with_mem k m₁))
          else returned minus_one (with_mem k (after_magic (with_mem k m₁) f)))
unfolding execute after_parse execute_named
execute-is_executable k f command r lo m m₁ parsed found ok file above out below size =
    let k₁ = with_mem k m₁ in
    let t : (r == minus_one) ≡ false = ground arith in
    ap (λ o. o >>= after_parse k f) parsed
    ∙ ap
        (λ (o : Option (ℕ × Mem)). o >>= λ r'.
          if r'.0 == minus_one
          then some (returned minus_one (with_mem (with_mem k m) r'.1))
          else check_image (with_mem (with_mem k m) r'.1) f)
        found
    ∙ if_false t _ _
    ∙ check_image-is_executable k₁ f lo file above out size
    ∙ elim (Bool-cases (is_executable (byte_of k₁ f))) [
      | inl e ↦
          if_true e _ _
          ∙ start_program-started k₁ f lo file above out below
          ∙ ap some (sym (if_true e _ _))
      | inr e ↦ if_false e _ _ ∙ ap some (sym (if_false e _ _))
    ]
