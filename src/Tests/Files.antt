-- ===== src/Tests/Files.antt =====
-- The memory and file theorems at a small image: one file "a" that holds "hello".
use ece391_mp3_illinix.Prelude.{
  ℕ, ◌≡◌, refl, none, some, List, [], ◌∷◌, arith, ltb, ◌==◌, if◌then◌else◌,
}
use mathlib.Core.Option
use ece391_mp3_illinix.Memory.{Mem, memcpy, memset, moved, filled}
use ece391_mp3_illinix.Memory.Block.{memcpy-moved, memset-filled}
use ece391_mp3_illinix.Text.{strlen, strncmp, strlen_from}
use ece391_mp3_illinix.Text.Length.{CString}
use ece391_mp3_illinix.Filesystem.{Fs, filesystem_init, read_dentry_by_name, read_data}
use ece391_mp3_illinix.Filesystem.Data.{with_file}
use ece391_mp3_illinix.Filesystem.Read.{IsFile, available, index_at, read_data-available}
use ece391_mp3_illinix.Filesystem.Name.{
  IsBytes, EntriesEnd, find_entry, dentry_result, read_dentry_by_name-find_entry,
}

-- Bytes by address; all others are 0.
unfoldable pub byte_at : List (ℕ × ℕ) → ℕ → ℕ
byte_at [] a = 0
byte_at ((b, v) ∷ bytes) a = if b == a then v else byte_at bytes a

-- The image starts at 0x500000; "a" also stands at 0x1000 for the caller.
abbrev pub image : Mem
image = byte_at (
    (0x1000, b'a')
    ∷ (0x500000, 1)
    ∷ (0x500004, 2)
    ∷ (0x500008, 1)
    ∷ (0x500040, b'a')
    ∷ (0x500060, 2)
    ∷ (0x501000, 5)
    ∷ (0x503000, b'h')
    ∷ (0x503001, b'e')
    ∷ (0x503002, b'l')
    ∷ (0x503003, b'l')
    ∷ (0x503004, b'o')
    ∷ [])

abbrev pub fs : Fs
fs = record {
  fs_addr = 0x500000;
  dentry_addr = 0x500040;
  inode_addr = 0x501000;
  d_block_addr = 0x503000;
  num_dentries = 1;
  num_inodes = 2;
  num_d_blocks = 1;
  dir_location = 0;
}

mounted : filesystem_init image 0x500000 ≡ fs
unfolding filesystem_init byte_at
mounted = refl

-- `hello`, five bytes: the second of them.
second_byte :
    Option.map {B = ℕ × ℕ} (λ r. (r.0, r.1 0x2001)) (read_data image fs 0 0 0x2000 100)
    ≡ some (5, b'e')
unfolding read_data memcpy byte_at
second_byte = refl

found :
    Option.map {B = ℕ × ℕ} (λ r. (r.0, r.1 0x2020)) (read_dentry_by_name image fs 0x1000 0x2000)
    ≡ some (0, 2)
unfolding read_dentry_by_name memcpy byte_at strlen strlen_from strncmp
found = refl

memcpy-moved_example : memcpy image 0x2001 0x503001 6 ≡ moved image 0x2001 0x503001 6
memcpy-moved_example = memcpy-moved image 0x2001 0x503001 6 (omega arith)

memset-filled_example : memset image 0x2003 0x120 9 ≡ filled image 0x2003 0x20 9
memset-filled_example = memset-filled image 0x2003 0x120 9 (omega arith)

pub image-IsFile : IsFile image fs 0x500000 0
unfolding byte_at
image-IsFile = record {
  layout = omega arith;
  in_range = omega arith;
  few = omega arith;
  size_fits = omega arith;
  indices = λ k h q. let e : k ≡ 0 = omega arith in rw e (omega arith);
}

read_data-available_example :
    read_data image fs 0 1 0x2000 3
    ≡ some (
      available image fs 0 1 3,
      with_file image fs (index_at fs 0) 1 0x2000 (available image fs 0 1 3),
    )
unfolding byte_at
read_data-available_example = read_data-available image-IsFile 1 0x2000 3 (omega arith)

image-IsBytes : IsBytes image
unfolding byte_at
image-IsBytes a = ground arith

name : CString image 0x1000 1
unfolding byte_at
name = record {
  short = omega arith;
  nul = refl;
  no_nul = λ i h. let e : i ≡ 0 = omega arith in rw e (omega arith);
}

entries : EntriesEnd image 0x500040 1
unfolding byte_at
entries j h =
    let e : j ≡ 0 = omega arith in
    rw e (
      1,
      record {
        short = omega arith;
        nul = refl;
        no_nul = λ i h. let e' : i ≡ 0 = omega arith in rw e' (omega arith);
      },
    )

read_dentry_by_name-find_entry_example :
    read_dentry_by_name image fs 0x1000 0x2000
    ≡ some
        (dentry_result image 0x2000 (if ltb 32 1 then none else find_entry image 0x1000 0x500040 1))
read_dentry_by_name-find_entry_example =
    read_dentry_by_name-find_entry image fs 0x1000 1 0x2000 image-IsBytes name (omega arith) entries
