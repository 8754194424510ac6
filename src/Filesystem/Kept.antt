-- ===== src/Filesystem/Kept.antt =====
-- A file of the image of student-distrib/filesystem.c stays what it is when other memory changes.
use ece391_mp3_illinix.Filesystem.Read.{IsFile, inode_at, index_at}
use ece391_mp3_illinix.Filesystem.Data.{Outside, with_file, file_byte}
use ece391_mp3_illinix.Memory.{Mem}
use ece391_mp3_illinix.Filesystem.{Fs, load32, block_index}
use ece391_mp3_illinix.Prelude.{ℕ, ◌+◌, ◌*◌, ◌/◌, ◌%◌, ◌^◌, ◌≤◌, ◌<◌, ◌≡◌, subst, arith, same}
use ece391_mp3_illinix.Word.{u32}

-- Two memories that hold the same image, from `lo` to the last block that the code accepts.
abbrev pub SameImage : Fs → ℕ → Mem → Mem → Type 0
SameImage fs lo m m' =
    (a : ℕ) → lo ≤ a → a < fs.d_block_addr + (fs.num_d_blocks + 1) * 4096 → m' a ≡ m a

-- A read into a buffer outside the image leaves the image.
pub with_file-SameImage :
    (m : Mem) (fs : Fs) (lo p o d n : ℕ)
    → Outside fs lo d n
    → SameImage fs lo m (with_file m fs p o d n)
with_file-SameImage m fs lo p o d n out a h1 h2 = ground (arith, out.apart)

load32-SameImage :
    (m m' : Mem) (fs : Fs) (lo a : ℕ)
    → SameImage fs lo m m'
    → lo ≤ a
    → a + 3 < fs.d_block_addr + (fs.num_d_blocks + 1) * 4096
    → a + 3 < 2 ^ 32
    → load32 m' a ≡ load32 m a
load32-SameImage m m' fs lo a same h1 h2 h3 =
    let e1 : u32 (a + 1) ≡ a + 1 = omega arith in
    let e2 : u32 (a + 2) ≡ a + 2 = omega arith in
    let e3 : u32 (a + 3) ≡ a + 3 = omega arith in
    rw (e1, e2, e3)
      (omega (
        arith,
        same a h1 (omega arith),
        same (a + 1) (omega arith) (omega arith),
        same (a + 2) (omega arith) (omega arith),
        same (a + 3) (omega arith) (omega arith),
      ))

module _ {m : Mem} {fs : Fs} {lo inode : ℕ} (f : IsFile m fs lo inode) (m' : Mem)
    (inode_above : lo ≤ inode_at fs inode) (same : SameImage fs lo m m') where
  block_index-kept :
      (k : ℕ)
      → k < 1023
      → block_index m' (index_at fs inode) k ≡ block_index m (index_at fs inode) k
  block_index-kept k h =
      let e : u32 (index_at fs inode + k * 4) ≡ index_at fs inode + k * 4 =
        omega (arith, f.layout.index_fits, f.layout.blocks_fit) in
      rw e (
        load32-SameImage m m' fs lo (index_at fs inode + k * 4) same (omega (arith, f.layout.above))
          (omega (arith, f.layout.index_fits, f.layout.blocks_fit))
          (omega (arith, f.layout.index_fits, f.layout.blocks_fit)))

  pub size-kept : load32 m' (inode_at fs inode) ≡ load32 m (inode_at fs inode)
  size-kept =
      load32-SameImage m m' fs lo (inode_at fs inode) same inode_above
        (omega (arith, f.layout.index_fits, f.layout.blocks_fit))
        (omega (arith, f.layout.index_fits, f.layout.blocks_fit))

  pub IsFile-kept : IsFile m' fs lo inode
  IsFile-kept = record {
    layout = f.layout;
    in_range = f.in_range;
    few = f.few;
    size_fits = rw size-kept f.size_fits;
    indices =
        λ k h q. rw (block_index-kept k h) (f.indices k h (subst (λ s. k * 4096 < s) size-kept q));
  }

  pub file_byte-kept :
      (k : ℕ)
      → k < load32 m (inode_at fs inode)
      → file_byte m' fs (index_at fs inode) k ≡ file_byte m fs (index_at fs inode) k
  unfolding file_byte
  file_byte-kept k h =
      let b = f.indices (k / 4096) (omega (arith, f.size_fits)) (omega arith) in
      let a = fs.d_block_addr + block_index m (index_at fs inode) (k / 4096) * 4096 + k % 4096 in
      let e : u32 a ≡ a = omega (arith, f.layout.blocks_fit) in
      rw (block_index-kept (k / 4096) (omega (arith, f.size_fits)), e)
        (same a (omega (arith, f.layout.above, f.layout.index_fits)) (omega arith))
