-- ===== src/Filesystem.antt =====
-- The read-only file system of student-distrib/filesystem.c. Its image lies in memory; `Fs` holds
-- the globals of filesystem.h that `filesystem_init` sets, and the cursor of `dir_read`.
pub mod Data
pub mod Read
pub mod Name
pub mod Kept
use Prim.Native.String.{String}
use ece391_mp3_illinix.Prelude.{
  ℕ, zero, suc, ◌+◌, ◌-◌, ◌*◌, ◌/◌, ◌%◌, ◌^◌, ltb, leb, ◌==◌, if◌then◌else◌, ◌&&◌, ◌||◌, Option,
  none, some, ◌>>=◌, not, Bool, true, false,
}
use ece391_mp3_illinix.Word.{u8, u32, sub32, minus_one}
use ece391_mp3_illinix.Memory.{Mem, store8, load32, memcpy}
use ece391_mp3_illinix.Text.{at, strlen, strncmp, strncpy}

abbrev pub block_size : ℕ
block_size = 4096

-- The size of a directory entry, and its offset in the image.
abbrev pub entry_offset : ℕ
entry_offset = 64

-- The longest file name.
abbrev pub name_size : ℕ
name_size = 32

-- Name, type and inode of an entry.
abbrev pub d_ent_copy_size : ℕ
d_ent_copy_size = 40

pub record Fs : Type 0 where
  pub fs_addr : ℕ
  pub dentry_addr : ℕ
  pub inode_addr : ℕ
  pub d_block_addr : ℕ
  pub num_dentries : ℕ
  pub num_inodes : ℕ
  pub num_d_blocks : ℕ
  pub dir_location : ℕ

unfoldable pub filesystem_init : Mem → ℕ → Fs
filesystem_init m starting_addr =
    let inode_addr = u32 (starting_addr + block_size) in
    let num_inodes = load32 m (u32 (starting_addr + 4)) in
    record {
      fs_addr = starting_addr;
      dentry_addr = u32 (starting_addr + entry_offset);
      inode_addr = inode_addr;
      d_block_addr = u32 (inode_addr + num_inodes * block_size);
      num_dentries = load32 m starting_addr;
      num_inodes = num_inodes;
      num_d_blocks = load32 m (u32 (starting_addr + 8));
      dir_location = 0;
    }

-- The test on one entry: the names agree on `fnlength` bytes, and the lengths agree or both reach 32.
pub entry_matches : Mem → ℕ → ℕ → ℕ → Option Bool
entry_matches m fname fnlength temp_addr = do
  entry_len ← strlen m temp_addr
  let cmp_res = strncmp m fname temp_addr fnlength
  let cmp_res_len = if leb 32 fnlength && leb 32 entry_len then true else fnlength == entry_len
  some (cmp_res == 0 && cmp_res_len)

-- The loop of `read_dentry_by_name` with `k = num_dentries - i` entries left.
pub read_dentry_from : Mem → ℕ → ℕ → ℕ → ℕ → ℕ → Option (ℕ × Mem)
read_dentry_from m fname fnlength dentry temp_addr zero = some (minus_one, m)
read_dentry_from m fname fnlength dentry temp_addr (suc k) =
    let rest = read_dentry_from m fname fnlength dentry (u32 (temp_addr + entry_offset)) k in
    entry_matches m fname fnlength temp_addr >>= λ found.
    if found then some (0, memcpy m dentry temp_addr d_ent_copy_size) else rest

unfoldable pub read_dentry_by_name : Mem → Fs → ℕ → ℕ → Option (ℕ × Mem)
unfolding read_dentry_from entry_matches
read_dentry_by_name m fs fname dentry = do
  fnlength ← strlen m fname
  if ltb name_size fnlength
      then some (minus_one, m)
      else read_dentry_from m fname fnlength dentry fs.dentry_addr fs.num_dentries

unfoldable pub read_dentry_by_index : Mem → Fs → ℕ → ℕ → ℕ × Mem
read_dentry_by_index m fs index dentry =
    if leb fs.num_dentries index
    then (minus_one, m)
    else (0, memcpy m dentry (u32 (fs.dentry_addr + index * entry_offset)) d_ent_copy_size)

-- `*(uint32_t*)(d_block_idx_ptr + d_block_idx_offset * UINT32_OFFSET)`.
abbrev pub block_index : Mem → ℕ → ℕ → ℕ
block_index m d_block_idx_ptr d_block_idx_offset =
    load32 m (u32 (d_block_idx_ptr + d_block_idx_offset * 4))

-- The loop of `read_data` over the blocks after the first; `none` is fuel that ran out, and the
-- result is whether every block index was accepted.
pub read_blocks : ℕ → Mem → Fs → ℕ → ℕ → ℕ → ℕ → Option (Bool × Mem)
read_blocks zero m fs idx_ptr idx_offset temp_buf bytes_to_copy = none
read_blocks (suc fuel) m fs idx_ptr idx_offset temp_buf bytes_to_copy =
    let idx_offset' = u32 (idx_offset + 1) in
    let real_index = block_index m idx_ptr idx_offset' in
    let block_addr = u32 (fs.d_block_addr + real_index * block_size) in
    let rest =
      read_blocks fuel (memcpy m temp_buf block_addr block_size) fs idx_ptr idx_offset'
        (u32 (temp_buf + block_size)) (bytes_to_copy - block_size) in
    if bytes_to_copy == 0
    then some (true, m)
    else if ltb block_size bytes_to_copy
    then (if ltb fs.num_d_blocks real_index then some (false, m) else rest)
    else some (true, memcpy m temp_buf block_addr bytes_to_copy)

-- `read_data` from line 180 on: the bytes of the first block, then those of the others. Every round
-- of the loop takes at least one of the bytes left.
pub copy_blocks : Mem → Fs → ℕ → ℕ → ℕ → ℕ → ℕ → ℕ → Option (ℕ × Mem)
unfolding read_blocks
copy_blocks m fs idx_ptr idx_offset byte_offset source buf real_length =
    let first = block_size - byte_offset in
    let rest =
      read_blocks (real_length - first + 1) (memcpy m buf source first) fs idx_ptr idx_offset
        (u32 (buf + first)) (real_length - first)
      >>= λ r. some (if r.0 then real_length else minus_one, r.1) in
    if leb real_length first then some (real_length, memcpy m buf source real_length) else rest

-- Lines 171 to 178: the index of the first block.
pub read_span : Mem → Fs → ℕ → ℕ → ℕ → ℕ → Option (ℕ × Mem)
unfolding copy_blocks
read_span m fs idx_ptr offset buf real_length =
    let real_index = block_index m idx_ptr (offset / block_size) in
    let source = u32 (fs.d_block_addr + real_index * block_size + offset % block_size) in
    if ltb fs.num_d_blocks real_index
    then some (minus_one, m)
    else copy_blocks m fs idx_ptr (offset / block_size) (offset % block_size) source buf real_length

-- Lines 165 to 169: the end of the file.
pub read_extent : Mem → Fs → ℕ → ℕ → ℕ → ℕ → ℕ → Option (ℕ × Mem)
unfolding read_span
read_extent m fs file_size idx_ptr offset buf length =
    let real_length = if ltb (file_size - offset) length then file_size - offset else length in
    if leb file_size offset then some (0, m) else read_span m fs idx_ptr offset buf real_length

unfoldable pub read_data : Mem → Fs → ℕ → ℕ → ℕ → ℕ → Option (ℕ × Mem)
unfolding read_extent
read_data m fs inode offset buf length =
    let cur_inode_addr = u32 (fs.inode_addr + block_size * inode) in
    if leb (sub32 fs.num_inodes 1) inode
    then some (minus_one, m)
    else read_extent m fs (load32 m cur_inode_addr) (u32 (cur_inode_addr + 4)) offset buf length

-- `dir_open`.
unfoldable pub dir_open : Fs → ℕ × Fs
dir_open fs = (0, record fs { dir_location = 0 })

unfoldable pub dir_close : ℕ → ℕ
dir_close fd = 0

unfoldable pub dir_write : ℕ → ℕ → ℕ → ℕ
dir_write fd buf nbytes = minus_one

-- The loop of `dir_read` that clears the buffer, with `k` bytes left.
pub clear_name : Mem → ℕ → ℕ → ℕ → Mem
clear_name m buf i zero = m
clear_name m buf i (suc k) = clear_name (store8 m (u32 (buf + i)) 0) buf (i + 1) k

-- `dir_read`; `dentry` is the address of its local. `nbytes < fname_len` compares as uint32_t.
unfoldable pub dir_read : Mem → Fs → ℕ → ℕ → ℕ → Option (ℕ × Mem × Fs)
unfolding clear_name
dir_read m fs dentry buf nbytes =
    let (status, m₁) = read_dentry_by_index m fs fs.dir_location dentry in
    if status == 0
    then (strlen m₁ dentry >>= λ len.
        let m₂ = clear_name m₁ buf 0 name_size in
        let fname_len = if ltb nbytes len then nbytes else len in
        some (
          fname_len,
          strncpy m₂ buf dentry fname_len,
          record fs { dir_location = u32 (fs.dir_location + 1) },
        ))
    else some (0, m₁, record fs { dir_location = 0 })

unfoldable pub file_open : ℕ → ℕ
file_open filename = 0

unfoldable pub file_close : ℕ → ℕ
file_close fd = 0

unfoldable pub file_write : ℕ → ℕ → ℕ → ℕ
file_write fd buf nbytes = minus_one
